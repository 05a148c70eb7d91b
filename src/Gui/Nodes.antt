-- ===== src/Gui/Nodes.antt =====
-- gui/src/ui/controller/nodes.rs: the operations on the node list and its editor. What a call tells the
-- window to draw again is left out.
pub mod Kept
pub mod InRange
pub mod Undisturbed
pub mod Followed
use juicity_rs.Base.{
  ℕ, zero, suc, ◌≡◌, ◌+◌, ◌-◌, ◌%◌, ◌^◌, List, [], ◌∷◌, ◌++◌, Option, none, some, Bool, true, false,
  not, ◌&&◌, ◌||◌, Bytes, is_empty, if◌then◌else◌, ◌==◌, ltb, leb, length, get_elem?, take, drop,
  min,
}
use juicity_rs.Gui.Profile.{
  ProxyProtocol, juicity, ProxyProfile, RequiredField, default_profile, missing_fields,
}
use juicity_rs.Gui.Draft
use juicity_rs.Gui.Draft.{
  Numbers, DraftData, DraftField, DraftError, timeout_field, take_advanced, from_profile, errors,
  unapplied, apply_to,
}
use juicity_rs.Gui.Controller.{
  Saved, Disk, Leave, quit, Notice, Controller, Effects, ListCommand, set_notice, empty_draft, hide,
  no_notice, imported, import_failed, export_failed, export_invalid, link_copied, start_failed,
  no_node, nodes_save_failed, save_invalid, save_failed, core_exited, profiles_changed,
  import_partial, missing_required, node_incomplete, move_up, move_down, duplicate, delete,
}
use juicity_rs.Gui.Connection.{
  is_about_core, core_started, core_failed, start_active, toggle_connection, active_incomplete,
  restart,
}

-- `vec[i] = v`
abbrev pub set_elem {ℓ} : {A : Type ℓ} → List A → ℕ → A → List A
set_elem [] i v = []
set_elem (x ∷ xs) zero v = v ∷ xs
set_elem (x ∷ xs) (suc i) v = x ∷ set_elem xs i v

-- `Vec::swap` of an element and the next, `Vec::insert` of a copy behind it, `Vec::remove`
abbrev pub swap_next {ℓ} : {A : Type ℓ} → ℕ → List A → List A
swap_next i [] = []
swap_next i (x ∷ []) = x ∷ []
swap_next zero (x ∷ (y ∷ ys)) = y ∷ (x ∷ ys)
swap_next (suc i) (x ∷ (y ∷ ys)) = x ∷ swap_next i (y ∷ ys)

abbrev pub copy_elem {ℓ} : {A : Type ℓ} → ℕ → List A → List A
copy_elem i [] = []
copy_elem zero (x ∷ xs) = x ∷ (x ∷ xs)
copy_elem (suc i) (x ∷ xs) = x ∷ copy_elem i xs

abbrev pub remove_elem {ℓ} : {A : Type ℓ} → ℕ → List A → List A
remove_elem i [] = []
remove_elem zero (x ∷ xs) = xs
remove_elem (suc i) (x ∷ xs) = x ∷ remove_elem i xs

-- Maps an old index to the same node's new index.
abbrev pub swapped : ℕ → ℕ → ℕ → ℕ
swapped index other i = if i == index then other else if i == other then index else i

abbrev pub shifted_up : ℕ → ℕ → ℕ
shifted_up index i = if ltb index i then i + 1 else i

abbrev pub shifted_down : ℕ → ℕ → ℕ → ℕ
shifted_down index len i = if ltb index i then i - 1 else min i (len - 2)

-- The new list and the map of indices; `none` where the command is refused.
unfoldable pub rearranged :
    ListCommand → ℕ → List ProxyProfile → Option (List ProxyProfile × (ℕ → ℕ))
rearranged move_up index profiles =
    if ltb 0 index then some (swap_next (index - 1) profiles, swapped index (index - 1)) else none
rearranged move_down index profiles =
    if ltb (index + 1) (length profiles)
    then some (swap_next index profiles, swapped index (index + 1))
    else none
rearranged duplicate index profiles = some (copy_elem index profiles, shifted_up index)
rearranged delete index profiles =
    if length profiles == 1
    then none
    else some (remove_elem index profiles, shifted_down index (length profiles))

abbrev pub is_delete : ListCommand → Bool
is_delete delete = true
is_delete _ = false

-- Whether the selected node's text is loaded again: the copy's, or that of the node which follows
-- a deleted one.
abbrev pub reloads : ListCommand → ℕ → ℕ → Bool
reloads duplicate index selected = true
reloads delete index selected = selected == index
reloads _ index selected = false

abbrev pub new_selection : ListCommand → ℕ → (ℕ → ℕ) → ℕ → ℕ
new_selection duplicate index remap selected = index + 1
new_selection _ index remap selected = remap selected

unfoldable pub open_advanced : Controller → Controller
open_advanced c = record c { advanced = some c.draft; advanced_errors = [] }

unfoldable pub cancel_advanced : Controller → Controller
cancel_advanced c = record c { advanced = none; advanced_errors = [] }

abbrev pub timeout_only : List (DraftField × DraftError) → List (DraftField × DraftError)
timeout_only [] = []
timeout_only ((timeout_field, e) ∷ es) = (timeout_field, e) ∷ timeout_only es
timeout_only ((_, e) ∷ es) = timeout_only es

module _ (numbers : Numbers) where
  unfoldable pub load_selected : Controller → Controller
  unfolding from_profile
  load_selected c =
      let selected = min c.selected (length c.profiles - 1) in
      record c {
        selected = selected;
        draft = elim (get_elem? c.profiles selected) [
          | none ↦ empty_draft
          | some p ↦ from_profile numbers p
        ];
        errors = [];
      }

  unfoldable pub select_node : ℕ → Controller → Controller
  unfolding load_selected
  select_node index c =
      if index == c.selected || leb (length c.profiles) index
      then c
      else load_selected (record c { selected = index })

  unfoldable pub add_node : Bytes → Controller → Controller
  unfolding load_selected default_profile
  add_node name c =
      let profiles = c.profiles ++ (record default_profile { name = name } ∷ []) in
      load_selected (record c { profiles = profiles; selected = length profiles - 1 })

  -- `import_text`, from the nodes that its lines give and the number of lines that are no link.
  unfoldable pub import_nodes : List ProxyProfile → ℕ → Controller → Controller
  unfolding load_selected set_notice
  import_nodes added skipped c =
      if is_empty added
      then set_notice import_failed c
      else set_notice (if skipped == 0 then imported else import_partial (length added) skipped) (
          load_selected (record c { profiles = c.profiles ++ added; selected = length c.profiles }))

  -- The list, the active node and the selection after a command.
  unfoldable pub rearrange : ListCommand → ℕ → List ProxyProfile → (ℕ → ℕ) → Controller → Controller
  unfolding load_selected
  rearrange command index profiles remap c =
      let c' = record c {
        profiles = profiles;
        active = remap c.active;
        selected = new_selection command index remap c.selected;
      } in
      if reloads command index c.selected then load_selected c' else c'

  unfoldable pub node_command : Effects → ℕ → ListCommand → Controller → Controller
  unfolding rearranged rearrange restart
  node_command effects index command c =
      if leb (length c.profiles) index then c else (elim (rearranged command index c.profiles) [
        | none ↦ c
        | some (profiles, remap) ↦
            let c' = rearrange command index profiles remap c in
            if is_delete command && index == c.active && c.connected then restart effects c' else c'
      ])

  unfoldable pub commit_draft : Controller → Controller
  unfolding errors apply_to
  commit_draft c = record c {
    errors = errors numbers c.draft;
    profiles = elim (get_elem? c.profiles c.selected) [
      | none ↦ c.profiles
      | some p ↦ set_elem c.profiles c.selected (apply_to numbers c.draft p)
    ];
  }

  unfoldable pub edit_node : DraftField → Bytes → Controller → Controller
  unfolding commit_draft Draft.set
  edit_node field value c = commit_draft (record c { draft = Draft.set c.draft field value })

  unfoldable pub set_active_node : Effects → Controller → Controller
  unfolding missing_fields set_notice start_active
  set_active_node effects c = elim (get_elem? c.profiles c.selected) [
    | none ↦ c
    | some p ↦
        if not (is_empty (missing_fields p))
        then set_notice (missing_required (missing_fields p)) c
        else (let c' = record c { active = c.selected } in
            if c.connected then start_active effects c' else c')
  ]

  unfoldable pub edit_advanced : DraftField → Bytes → Controller → Controller
  unfolding errors Draft.set
  edit_advanced field value c = elim c.advanced [
    | none ↦ c
    | some sheet ↦
        let sheet' = Draft.set sheet field value in
        record c { advanced = some sheet'; advanced_errors = timeout_only (errors numbers sheet') }
  ]

  unfoldable pub commit_advanced : Controller → Controller
  unfolding commit_draft take_advanced
  commit_advanced c = if not (is_empty c.advanced_errors) then c else (elim c.advanced [
    | none ↦ c
    | some sheet ↦ commit_draft (record c { advanced = none; draft = take_advanced c.draft sheet })
  ])
