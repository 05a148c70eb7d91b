-- ===== src/Gui/Save/Clean.antt =====
-- gui/src/ui/controller/save.rs: nothing that is not saved is lost without the user's word.
use juicity_rs.Base.{
  ◌≡◌, refl, ◌<◌, ◌-◌, sym, ap, ◌∙◌, [], Option, none, some, Bool, true, false, length, is_empty,
  is_empty→nil, min, get_elem?, Bool-cases, Option-cases, inl, inr, arith,
}
use juicity_rs.Gui.Profile.{ProxyProfile}
use juicity_rs.Gui.Draft.{Numbers, DraftData, errors, unapplied, from_profile}
use juicity_rs.Gui.Draft.Unchanged.{unapplied-from_profile}
use juicity_rs.Gui.Controller.{Saved, Controller, Effects, set_notice, empty_draft}
use juicity_rs.Gui.Nodes.{load_selected}
use juicity_rs.Gui.Nodes.InRange.{IsInRange, load_selected-IsInRange}
use juicity_rs.Gui.Save.{
  list_dirty, draft_unapplied, nodes_dirty, clear_save_notice, write_nodes,
  normalize_selected_index, revert_nodes,
}
use juicity_rs.Gui.Save.Written.{
  KeepsWork, IsOnDisk, same_profiles_refl, write_nodes-KeepsWork, write_nodes-idle,
  write_nodes-saved,
}

module _ (numbers : Numbers) where
  draft_unapplied-KeepsWork :
      (c c' : Controller) → KeepsWork c c' → draft_unapplied numbers c' ≡ draft_unapplied numbers c
  unfolding draft_unapplied
  draft_unapplied-KeepsWork c c' k = λ i. elim (get_elem? (k.profiles i) (k.selected i)) [
    | none ↦ false
    | some p ↦ unapplied numbers (k.draft i) p
  ]

  nodes_dirty-false :
      (c : Controller)
      → c.saved.profiles ≡ c.profiles
      → c.saved.active ≡ c.active
      → draft_unapplied numbers c ≡ false
      → nodes_dirty numbers c ≡ false
  unfolding nodes_dirty list_dirty
  nodes_dirty-false c ps a d = ground (arith, same_profiles_refl c.profiles)

  -- No error in the editor, no text that was not applied.
  draft_unapplied-false :
      (c : Controller)
      → is_empty (errors numbers c.draft) ≡ true
      → draft_unapplied numbers c ≡ false
  unfolding draft_unapplied unapplied
  draft_unapplied-false c h =
      let none_left = is_empty→nil (errors numbers c.draft) h in
      elim (Option-cases (get_elem? c.profiles c.selected)) [
        | inl e ↦ rw (draft_unapplied, e) refl
        | inr (p, e) ↦ rw (draft_unapplied, e, unapplied, none_left) refl
      ]

  pub write_nodes-clean :
      (effects : Effects) (c : Controller)
      → IsInRange c
      → (write_nodes numbers effects c).1 ≡ true
      → nodes_dirty numbers (write_nodes numbers effects c).0 ≡ false
  write_nodes-clean effects c v h = elim (Bool-cases (nodes_dirty numbers c)) [
    | inr d ↦ rw (write_nodes-idle numbers effects c d) d
    | inl d ↦
        let k = write_nodes-KeepsWork numbers effects c in
        let (saved, valid) = write_nodes-saved numbers effects c v h d in
        nodes_dirty-false (write_nodes numbers effects c).0
          (ap (λ (s : Saved). s.profiles) saved ∙ sym k.profiles)
          (ap (λ (s : Saved). s.active) saved ∙ sym k.active)
          (draft_unapplied-KeepsWork c (write_nodes numbers effects c).0 k
            ∙ draft_unapplied-false c valid)
  ]

  -- A list that is not empty and an index within it are left as they are.
  normalize_lem : (c : Controller) → c.active < length c.profiles → normalize_selected_index c ≡ c
  unfolding normalize_selected_index
  normalize_lem c h = ground arith

  clear_save_notice-KeepsWork :
      (c : Controller)
      → KeepsWork c (clear_save_notice c)
        × ((clear_save_notice c).saved ≡ c.saved)
        × ((clear_save_notice c).disk ≡ c.disk)
  unfolding clear_save_notice set_notice
  clear_save_notice-KeepsWork c = ground arith

  -- What the editor shows right after a node was loaded is applied.
  shown_lem :
      (shown : Option ProxyProfile)
      → (elim shown as (λ o. Bool) [
        | none ↦ false
        | some p ↦
            unapplied numbers
              (elim shown as (λ o. DraftData) [
                | none ↦ empty_draft
                | some q ↦ from_profile numbers q
              ])
              p
      ])
        ≡ false
  shown_lem none = refl
  shown_lem (some p) = unapplied-from_profile numbers p

  loaded_lem : (c : Controller) → draft_unapplied numbers (load_selected numbers c) ≡ false
  unfolding draft_unapplied load_selected
  loaded_lem c = shown_lem (get_elem? c.profiles (min c.selected (length c.profiles - 1)))

  -- The saved state, loaded.
  abbrev restored : Controller → Controller
  restored c = record c {
    profiles = c.saved.profiles;
    active = c.saved.active;
    selected = c.saved.active;
    advanced = none;
    advanced_errors = [];
  }

  revert_lem :
      (c : Controller)
      → IsInRange c
      → nodes_dirty numbers c ≡ true
      → revert_nodes numbers c ≡ clear_save_notice (load_selected numbers (restored c))
  unfolding revert_nodes
  revert_lem c v d =
      rw (revert_nodes, d)
        (ap
          (λ (c' : Controller). clear_save_notice (
            load_selected numbers
              (record c' { selected = c'.active; advanced = none; advanced_errors = [] })))
          (normalize_lem (record c { profiles = c.saved.profiles; active = c.saved.active })
            v.saved_lt))

  revert_idle : (c : Controller) → nodes_dirty numbers c ≡ false → revert_nodes numbers c ≡ c
  unfolding revert_nodes
  revert_idle c d = rw (revert_nodes, d) refl

  pub revert_nodes-clean :
      (c : Controller) → IsInRange c → nodes_dirty numbers (revert_nodes numbers c) ≡ false
  unfolding load_selected
  revert_nodes-clean c v = elim (Bool-cases (nodes_dirty numbers c)) [
    | inr d ↦ rw (revert_idle c d) d
    | inl d ↦
        let loaded = load_selected numbers (restored c) in
        let (k, same_saved, same_disk) = clear_save_notice-KeepsWork loaded in
        rw (revert_lem c v d) (
          nodes_dirty-false (clear_save_notice loaded)
            (ap (λ (s : Saved). s.profiles) same_saved ∙ sym k.profiles)
            (ap (λ (s : Saved). s.active) same_saved ∙ sym k.active)
            (draft_unapplied-KeepsWork loaded (clear_save_notice loaded) k
              ∙ loaded_lem (restored c)))
  ]

  pub revert_nodes-IsOnDisk :
      (c : Controller) → IsInRange c → IsOnDisk c → IsOnDisk (revert_nodes numbers c)
  unfolding load_selected
  revert_nodes-IsOnDisk c v h = elim (Bool-cases (nodes_dirty numbers c)) [
    | inr d ↦ rw (revert_idle c d) h
    | inl d ↦
        let loaded = load_selected numbers (restored c) in
        let (k, same_saved, same_disk) = clear_save_notice-KeepsWork loaded in
        rw (revert_lem c v d, same_saved, same_disk) h
  ]

  pub revert_nodes-IsInRange : (c : Controller) → IsInRange c → IsInRange (revert_nodes numbers c)
  unfolding load_selected
  revert_nodes-IsInRange c v = elim (Bool-cases (nodes_dirty numbers c)) [
    | inr d ↦ rw (revert_idle c d) v
    | inl d ↦
        let loaded = load_selected numbers (restored c) in
        let (k, same_saved, same_disk) = clear_save_notice-KeepsWork loaded in
        let v' = load_selected-IsInRange numbers (restored c) v.saved_lt v.saved_lt in
        rw (revert_lem c v d) (record {
          active_lt = rw (k.active, k.profiles) v'.active_lt;
          selected_lt = rw (k.selected, k.profiles) v'.selected_lt;
          saved_lt = rw same_saved v'.saved_lt;
        })
  ]
