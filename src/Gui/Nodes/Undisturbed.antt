-- ===== src/Gui/Nodes/Undisturbed.antt =====
-- gui/src/ui/controller/nodes.rs: editing writes neither the saved state nor the disk.
use juicity_rs.Base.{
  ℕ, ◌≡◌, refl, ◌∙◌, List, Bytes, leb, length, ◌==◌, ◌&&◌, Bool-cases, Option-cases, inl, inr,
  arith,
}
use juicity_rs.Gui.Profile.{ProxyProfile}
use juicity_rs.Gui.Draft.{Numbers, DraftField}
use juicity_rs.Gui.Controller.{Controller, Effects, ListCommand, set_notice}
use juicity_rs.Gui.Nodes.{
  rearranged, rearrange, reloads, is_delete, load_selected, select_node, add_node, import_nodes,
  node_command, commit_draft, edit_node, set_active_node, open_advanced, edit_advanced,
  commit_advanced, cancel_advanced,
}
use juicity_rs.Gui.Nodes.Kept.{restart-Keeps, start_active-Keeps}

pub record KeepsDisk (c c' : Controller) : Type 0 where
  pub saved : c'.saved ≡ c.saved
  pub disk : c'.disk ≡ c.disk

module _ (numbers : Numbers) where
  pub select_node-KeepsDisk :
      (index : ℕ) (c : Controller) → KeepsDisk c (select_node numbers index c)
  unfolding select_node load_selected
  select_node-KeepsDisk index c = ground arith

  pub import_nodes-KeepsDisk :
      (added : List ProxyProfile) (skipped : ℕ) (c : Controller)
      → KeepsDisk c (import_nodes numbers added skipped c)
  unfolding import_nodes set_notice load_selected
  import_nodes-KeepsDisk added skipped c = ground arith

  pub add_node-KeepsDisk : (name : Bytes) (c : Controller) → KeepsDisk c (add_node numbers name c)
  unfolding add_node load_selected
  add_node-KeepsDisk name c = record { saved = refl; disk = refl }

  rearrange-KeepsDisk :
      (command : ListCommand) (index : ℕ) (profiles : List ProxyProfile) (remap : ℕ → ℕ)
      (c : Controller)
      → KeepsDisk c (rearrange numbers command index profiles remap c)
  unfolding rearrange load_selected
  rearrange-KeepsDisk command index profiles remap c =
      elim (Bool-cases (reloads command index c.selected)) [
        | inl e ↦ rw e (record { saved = refl; disk = refl })
        | inr e ↦ rw e (record { saved = refl; disk = refl })
      ]

  pub node_command-KeepsDisk :
      (effects : Effects) (index : ℕ) (command : ListCommand) (c : Controller)
      → KeepsDisk c (node_command numbers effects index command c)
  unfolding node_command
  node_command-KeepsDisk effects index command c =
      elim (Bool-cases (leb (length c.profiles) index)) [
        | inl t ↦ rw (node_command, t) (record { saved = refl; disk = refl })
        | inr t ↦ elim (Option-cases (rearranged command index c.profiles)) [
          | inl e ↦ rw (node_command, t, e) (record { saved = refl; disk = refl })
          | inr ((profiles, remap), e) ↦
              let c' = rearrange numbers command index profiles remap c in
              let k = rearrange-KeepsDisk command index profiles remap c in
              let k' = restart-Keeps effects c' in
              elim (Bool-cases (is_delete command && index == c.active && c.connected)) [
                | inl d ↦
                    rw (node_command, t, e, d)
                      (record { saved = k'.saved ∙ k.saved; disk = k'.disk ∙ k.disk })
                | inr d ↦ rw (node_command, t, e, d) k
              ]
        ]
      ]

  pub commit_draft-KeepsDisk : (c : Controller) → KeepsDisk c (commit_draft numbers c)
  unfolding commit_draft
  commit_draft-KeepsDisk c = record { saved = refl; disk = refl }

  pub edit_node-KeepsDisk :
      (field : DraftField) (value : Bytes) (c : Controller)
      → KeepsDisk c (edit_node numbers field value c)
  unfolding edit_node commit_draft
  edit_node-KeepsDisk field value c = record { saved = refl; disk = refl }

  pub set_active_node-KeepsDisk :
      (effects : Effects) (c : Controller) → KeepsDisk c (set_active_node numbers effects c)
  unfolding set_active_node set_notice
  set_active_node-KeepsDisk effects c =
      ground (arith, start_active-Keeps effects (record c { active = c.selected }))

  pub open_advanced-KeepsDisk : (c : Controller) → KeepsDisk c (open_advanced c)
  unfolding open_advanced
  open_advanced-KeepsDisk c = record { saved = refl; disk = refl }

  pub edit_advanced-KeepsDisk :
      (field : DraftField) (value : Bytes) (c : Controller)
      → KeepsDisk c (edit_advanced numbers field value c)
  unfolding edit_advanced
  edit_advanced-KeepsDisk field value c = ground arith

  pub commit_advanced-KeepsDisk : (c : Controller) → KeepsDisk c (commit_advanced numbers c)
  unfolding commit_advanced commit_draft
  commit_advanced-KeepsDisk c = ground arith

  pub cancel_advanced-KeepsDisk : (c : Controller) → KeepsDisk c (cancel_advanced c)
  unfolding cancel_advanced
  cancel_advanced-KeepsDisk c = record { saved = refl; disk = refl }
