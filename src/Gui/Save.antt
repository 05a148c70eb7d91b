-- ===== src/Gui/Save.antt =====
-- gui/src/ui/controller/save.rs and persist.rs: Save, Revert, the prompt for unsaved changes, and the
-- runtime state that is written by the way.
pub mod Written
pub mod Clean
pub mod Prompt
pub mod Stale
use juicity_rs.Base.{
  ℕ, ◌≡◌, ◌-◌, List, [], ◌∷◌, Option, none, some, Bool, true, false, not, ◌&&◌, ◌||◌, Bytes,
  is_empty, is_some, if◌then◌else◌, ◌==◌, leb, length, get_elem?, min,
}
use mathlib.Core.Logic.{ite}
use juicity_rs.Gui.Profile.{
  ProxyProfile, profiles-discrete, default_profile, missing_fields, display_name,
}
use juicity_rs.Gui.Draft.{Numbers, errors, unapplied}
use juicity_rs.Gui.Controller.{
  Saved, Disk, Leave, Notice, no_notice, nodes_save_failed, save_invalid, node_incomplete,
  profiles_changed, Controller, Effects, set_notice,
}
use juicity_rs.Gui.Nodes.{load_selected}

pub data Answer : Type 0 where
  save discard cancel : Answer

abbrev pub same_profiles : List ProxyProfile → List ProxyProfile → Bool
same_profiles ps qs = ite (profiles-discrete ps qs) true false

unfoldable pub clamp_active : Saved → Saved
clamp_active s = record s { active = min s.active (length s.profiles - 1) }

-- The working list or the active node differs from the saved ones.
unfoldable pub list_dirty : Controller → Bool
list_dirty c = not (same_profiles c.profiles c.saved.profiles) || not (c.active == c.saved.active)

-- `Persist::write` of profiles.json and of runtime.json; nothing changes on a failure.
unfoldable pub write_profiles : Effects → Saved → Controller → Controller
write_profiles effects next c =
    if effects.write_profiles
    then record c { disk = record c.disk { profiles_json = next.profiles } }
    else c

unfoldable pub write_runtime : Effects → Saved → Controller → Controller
write_runtime effects next c =
    if effects.write_runtime
    then record c { disk = record c.disk { runtime_index = next.active }; runtime_dirty = false }
    else c

-- `Persist::flush`: the runtime state is the only one of the two files that is ever marked.
unfoldable pub flush : Effects → Controller → Controller
unfolding write_runtime
flush effects c = if c.runtime_dirty then write_runtime effects c.saved c else c

unfoldable pub shutdown : Effects → Controller → Controller
unfolding flush
shutdown effects c = flush effects (record c { connected = false })

-- Save, Revert and the notices of Save.
abbrev pub is_about_save : Notice → Bool
is_about_save nodes_save_failed = true
is_about_save save_invalid = true
is_about_save (node_incomplete name fields) = true
is_about_save profiles_changed = true
is_about_save _ = false

unfoldable pub clear_save_notice : Controller → Controller
unfolding set_notice
clear_save_notice c = if is_about_save c.notice then set_notice no_notice c else c

unfoldable pub save_failed : Controller → Controller × Bool
unfolding set_notice
save_failed c = (set_notice nodes_save_failed (record c { leave = none }), false)

-- The index, behind the list: only where it differs from that of the saved state.
unfoldable pub write_active : Effects → Saved → Controller → Controller × Bool
unfolding write_runtime clear_save_notice save_failed
write_active effects next c =
    if next.active == c.saved.active
    then (clear_save_notice c, true)
    else if effects.write_runtime
    then (let saved = record c.saved { active = next.active } in
        (clear_save_notice (write_runtime effects saved (record c { saved = saved })), true))
    else save_failed c

-- The list first.
unfoldable pub write_both : Effects → Saved → Controller → Controller × Bool
unfolding write_profiles write_active save_failed clamp_active
write_both effects next c =
    if same_profiles next.profiles c.saved.profiles
    then write_active effects next c
    else if effects.write_profiles
    then write_active effects next (
        write_profiles effects next
          (record c { saved = clamp_active (record c.saved { profiles = next.profiles }) }))
    else save_failed c

-- `GuiState::normalize_selected_index`
unfoldable pub normalize_selected_index : Controller → Controller
unfolding default_profile
normalize_selected_index c =
    let profiles = if is_empty c.profiles then default_profile ∷ [] else c.profiles in
    record c {
      profiles = profiles;
      active = if leb (length profiles) c.active then length profiles - 1 else c.active;
    }

module _ (numbers : Numbers) where
  -- The editor shows invalid text that is not in the working list.
  unfoldable pub draft_unapplied : Controller → Bool
  unfolding unapplied
  draft_unapplied c = elim (get_elem? c.profiles c.selected) [
    | none ↦ false
    | some p ↦ unapplied numbers c.draft p
  ]

  unfoldable pub nodes_dirty : Controller → Bool
  unfolding list_dirty draft_unapplied
  nodes_dirty c = list_dirty c || draft_unapplied c

  -- The first node that lacks mandatory fields.
  unfoldable pub first_incomplete : List ProxyProfile → Option Notice
  unfolding missing_fields display_name
  first_incomplete [] = none
  first_incomplete (p ∷ ps) =
      if is_empty (missing_fields p)
      then first_incomplete ps
      else some (node_incomplete (display_name numbers.show p) (missing_fields p))

  unfoldable pub save_refusal : Controller → Option Notice
  unfolding first_incomplete
  save_refusal c = if is_empty c.errors then first_incomplete c.profiles else some save_invalid

  unfoldable pub write_nodes : Effects → Controller → Controller × Bool
  unfolding nodes_dirty save_refusal write_both set_notice errors clamp_active
  write_nodes effects c =
      if not (nodes_dirty c)
      then (c, true)
      else (let c' = record c { errors = errors numbers c.draft } in
          elim (save_refusal c') [
            | some notice ↦ (set_notice notice (record c' { leave = none }), false)
            | none ↦
                write_both effects
                  (clamp_active (record { profiles = c.profiles; active = c.active })) c'
          ])

  unfoldable pub revert_nodes : Controller → Controller
  unfolding nodes_dirty normalize_selected_index load_selected clear_save_notice
  revert_nodes c =
      if not (nodes_dirty c)
      then c
      else (let c' =
            normalize_selected_index
              (record c { profiles = c.saved.profiles; active = c.saved.active }) in
          clear_save_notice (
            load_selected numbers
              (record c' { selected = c'.active; advanced = none; advanced_errors = [] })))

  unfoldable pub request_leave : Leave → Controller → Controller × Option Leave
  unfolding nodes_dirty
  request_leave leave c =
      if is_some c.leave
      then (c, none)
      else if nodes_dirty c
      then (record c { leave = some leave }, none)
      else (c, some leave)

  unfoldable pub answer_prompt : Effects → Answer → Controller → Controller × Option Leave
  unfolding write_nodes revert_nodes
  answer_prompt effects answer c = elim c.leave [
    | none ↦ (c, none)
    | some leave ↦ elim answer [
      | save ↦
          let (c', written) = write_nodes effects c in
          if written then (record c' { leave = none }, c'.leave) else (c', none)
      | discard ↦ (revert_nodes (record c { leave = none }), some leave)
      | cancel ↦ (record c { leave = none }, none)
    ]
  ]

-- What closes the window: a request, or an answer to the prompt.
pub data Ask : Type 0 where
  request : Leave → Ask
  answer : Answer → Ask

abbrev pub ask : Numbers → Effects → Ask → Controller → Controller × Option Leave
ask numbers effects (request leave) c = request_leave numbers leave c
ask numbers effects (answer a) c = answer_prompt numbers effects a c
