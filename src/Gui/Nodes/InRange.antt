-- ===== src/Gui/Nodes/InRange.antt =====
-- gui/src/ui/controller/nodes.rs: the indices of the node list stay within it.
use juicity_rs.Base.{
  ℕ, zero, suc, ◌≡◌, refl, ◌<◌, ◌+◌, ◌-◌, ap, List, [], ◌∷◌, ◌++◌, some, ◌&&◌, Bytes, length,
  length-append, get_elem?, leb, ◌==◌, arith, inl, inr, Bool-cases, Option-cases,
}
use juicity_rs.Gui.Nodes.Kept.{Keeps, restart-Keeps, start_active-Keeps}
use juicity_rs.Gui.Profile.{ProxyProfile, default_profile}
use juicity_rs.Gui.Draft.{Numbers, apply_to}
use juicity_rs.Gui.Controller.{
  Controller, Effects, ListCommand, move_up, move_down, duplicate, delete, set_notice,
}
use juicity_rs.Gui.Connection.{restart, start_active}
use juicity_rs.Gui.Nodes.{
  swap_next, copy_elem, remove_elem, set_elem, rearranged, rearrange, reloads, new_selection,
  load_selected, select_node, add_node, import_nodes, node_command, commit_draft, set_active_node,
  is_delete,
}

pub record IsInRange (c : Controller) : Type 0 where
  pub active_lt : c.active < length c.profiles
  pub selected_lt : c.selected < length c.profiles
  pub saved_lt : c.saved.active < length c.saved.profiles

module _ {ℓ} {A : Type ℓ} where
  pub length-swap_next : (i : ℕ) (xs : List A) → length (swap_next i xs) ≡ length xs
  length-swap_next zero [] = refl
  length-swap_next (suc i) [] = refl
  length-swap_next zero (x ∷ []) = refl
  length-swap_next (suc i) (x ∷ []) = refl
  length-swap_next zero (x ∷ (y ∷ ys)) = refl
  length-swap_next (suc i) (x ∷ (y ∷ ys)) = ap suc (length-swap_next i (y ∷ ys))

  pub length-copy_elem :
      (i : ℕ) (xs : List A) → i < length xs → length (copy_elem i xs) ≡ length xs + 1
  length-copy_elem i [] h = absurd (omega arith)
  length-copy_elem zero (x ∷ xs) h = omega arith
  length-copy_elem (suc i) (x ∷ xs) h = omega (arith, length-copy_elem i xs (omega arith))

  pub length-remove_elem :
      (i : ℕ) (xs : List A) → i < length xs → length (remove_elem i xs) + 1 ≡ length xs
  length-remove_elem i [] h = absurd (omega arith)
  length-remove_elem zero (x ∷ xs) h = omega arith
  length-remove_elem (suc i) (x ∷ xs) h = omega (arith, length-remove_elem i xs (omega arith))

  pub length-set_elem : (xs : List A) (i : ℕ) (v : A) → length (set_elem xs i v) ≡ length xs
  length-set_elem [] i v = refl
  length-set_elem (x ∷ xs) zero v = refl
  length-set_elem (x ∷ xs) (suc i) v = ap suc (length-set_elem xs i v)

pub Keeps-IsInRange : (c c' : Controller) → Keeps c c' → IsInRange c → IsInRange c'
Keeps-IsInRange c c' k v = record {
  active_lt = rw (k.active, k.profiles) v.active_lt;
  selected_lt = rw (k.selected, k.profiles) v.selected_lt;
  saved_lt = rw k.saved v.saved_lt;
}

module _ (numbers : Numbers) where
  -- Loading clamps the selection itself.
  pub load_selected-IsInRange :
      (c : Controller)
      → c.active < length c.profiles
      → c.saved.active < length c.saved.profiles
      → IsInRange (load_selected numbers c)
  unfolding load_selected
  load_selected-IsInRange c a s = record { active_lt = a; selected_lt = omega arith; saved_lt = s }

  pub select_node-IsInRange :
      (index : ℕ) (c : Controller) → IsInRange c → IsInRange (select_node numbers index c)
  unfolding select_node
  select_node-IsInRange index c v =
      ground (arith, load_selected-IsInRange (record c { selected = index }))

  pub add_node-IsInRange :
      (name : Bytes) (c : Controller) → IsInRange c → IsInRange (add_node numbers name c)
  unfolding add_node
  add_node-IsInRange name c v =
      let profiles = c.profiles ++ (record default_profile { name = name } ∷ []) in
      load_selected-IsInRange (record c { profiles = profiles; selected = length profiles - 1 })
        (omega (
          arith,
          length-append c.profiles (record default_profile { name = name } ∷ []),
          v.active_lt,
        ))
        v.saved_lt

  pub import_nodes-IsInRange :
      (added : List ProxyProfile) (skipped : ℕ) (c : Controller)
      → IsInRange c
      → IsInRange (import_nodes numbers added skipped c)
  unfolding import_nodes set_notice
  import_nodes-IsInRange [] skipped c v = record {
    active_lt = v.active_lt;
    selected_lt = v.selected_lt;
    saved_lt = v.saved_lt;
  }
  import_nodes-IsInRange (p ∷ added) skipped c v =
      let longer = record c {
        profiles = c.profiles ++ (p ∷ added);
        selected = length c.profiles;
      } in
      let w =
        load_selected-IsInRange longer
          (omega (arith, length-append c.profiles (p ∷ added), v.active_lt)) v.saved_lt in
      record { active_lt = w.active_lt; selected_lt = w.selected_lt; saved_lt = w.saved_lt }

  -- The maps of the commands, on the indices of the old list.
  pub rearranged_lem :
      (command : ListCommand) (index : ℕ) (profiles profiles' : List ProxyProfile) (remap : ℕ → ℕ)
      → index < length profiles
      → rearranged command index profiles ≡ some (profiles', remap)
      → (i : ℕ) → i < length profiles
      → (remap i < length profiles') × (new_selection command index remap i < length profiles')
  unfolding rearranged
  rearranged_lem move_up index profiles profiles' remap h e i l =
      ground (arith, length-swap_next (index - 1) profiles, e)
  rearranged_lem move_down index profiles profiles' remap h e i l =
      ground (arith, length-swap_next index profiles, e)
  rearranged_lem duplicate index profiles profiles' remap h e i l =
      ground (arith, length-copy_elem index profiles, e)
  rearranged_lem delete index profiles profiles' remap h e i l =
      ground (arith, length-remove_elem index profiles, e)

  rearrange-IsInRange :
      (command : ListCommand) (index : ℕ) (profiles' : List ProxyProfile) (remap : ℕ → ℕ)
      (c : Controller)
      → index < length c.profiles
      → rearranged command index c.profiles ≡ some (profiles', remap)
      → IsInRange c
      → IsInRange (rearrange numbers command index profiles' remap c)
  unfolding rearrange
  rearrange-IsInRange command index profiles' remap c h e v =
      let bounds = rearranged_lem command index c.profiles profiles' remap h e in
      let (a, b) = bounds c.active v.active_lt in
      let (a', b') = bounds c.selected v.selected_lt in
      let moved = record c {
        profiles = profiles';
        active = remap c.active;
        selected = new_selection command index remap c.selected;
      } in
      elim (Bool-cases (reloads command index c.selected)) [
        | inl t ↦ rw t (load_selected-IsInRange moved a v.saved_lt)
        | inr t ↦ rw t (record { active_lt = a; selected_lt = b'; saved_lt = v.saved_lt })
      ]

  pub node_command-IsInRange :
      (effects : Effects) (index : ℕ) (command : ListCommand) (c : Controller)
      → IsInRange c
      → IsInRange (node_command numbers effects index command c)
  unfolding node_command
  node_command-IsInRange effects index command c v =
      elim (Bool-cases (leb (length c.profiles) index)) [
        | inl t ↦ rw (node_command, t) v
        | inr t ↦ elim (Option-cases (rearranged command index c.profiles)) [
          | inl e ↦ rw (node_command, t, e) v
          | inr ((profiles', remap), e) ↦
              let c' = rearrange numbers command index profiles' remap c in
              let v' = rearrange-IsInRange command index profiles' remap c (ground arith) e v in
              elim (Bool-cases (is_delete command && index == c.active && c.connected)) [
                | inl d ↦
                    rw (node_command, t, e, d)
                      (Keeps-IsInRange c' (restart effects c') (restart-Keeps effects c') v')
                | inr d ↦ rw (node_command, t, e, d) v'
              ]
        ]
      ]

  pub commit_draft-IsInRange : (c : Controller) → IsInRange c → IsInRange (commit_draft numbers c)
  unfolding commit_draft
  commit_draft-IsInRange c v = elim (Option-cases (get_elem? c.profiles c.selected)) [
    | inl e ↦
        rw (commit_draft, e)
          (record { active_lt = v.active_lt; selected_lt = v.selected_lt; saved_lt = v.saved_lt })
    | inr (p, e) ↦
        rw (commit_draft, e)
          (let l = length-set_elem c.profiles c.selected (apply_to numbers c.draft p) in
            record {
              active_lt = omega (arith, l, v.active_lt);
              selected_lt = omega (arith, l, v.selected_lt);
              saved_lt = v.saved_lt;
            })
  ]

  pub set_active_node-IsInRange :
      (effects : Effects) (c : Controller)
      → IsInRange c
      → IsInRange (set_active_node numbers effects c)
  unfolding set_active_node set_notice
  set_active_node-IsInRange effects c v =
      let c' = record c { active = c.selected } in
      let v' : IsInRange c' = record {
        active_lt = v.selected_lt;
        selected_lt = v.selected_lt;
        saved_lt = v.saved_lt;
      } in
      ground
        (arith, Keeps-IsInRange c' (start_active effects c') (start_active-Keeps effects c') v', v')
