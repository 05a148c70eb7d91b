-- ===== src/Gui/Connection.antt =====
-- gui/src/ui/controller/overview.rs: the core of the active node is started and stopped.
use juicity_rs.Base.{none, some, Bool, true, false, not, is_empty, if◌then◌else◌, get_elem?}
use juicity_rs.Gui.Profile.{ProxyProfile, missing_fields}
use juicity_rs.Gui.Controller.{
  Notice, Controller, Effects, set_notice, no_notice, start_failed, no_node, core_exited,
  missing_required,
}

-- Notices about the core, which a start replaces.
abbrev pub is_about_core : Notice → Bool
is_about_core start_failed = true
is_about_core core_exited = true
is_about_core no_node = true
is_about_core (missing_required fields) = true
is_about_core _ = false

unfoldable pub core_started : ProxyProfile → Controller → Controller
unfolding set_notice
core_started p c =
    let c' = record c {
      connected = true;
      started_with = some p;
      was_running = true;
      runtime_dirty = true;
    } in
    if is_about_core c.notice then set_notice no_notice c' else c'

-- A failed restart leaves no core running.
unfoldable pub core_failed : Controller → Controller
unfolding set_notice
core_failed c = set_notice start_failed (
    if c.connected
    then record c {
      connected = false;
      started_with = none;
      was_running = false;
      runtime_dirty = true;
    }
    else c)

unfoldable pub start_active : Effects → Controller → Controller
unfolding missing_fields set_notice core_started core_failed
start_active effects c = elim (get_elem? c.profiles c.active) [
  | none ↦ set_notice no_node c
  | some p ↦
      if not (is_empty (missing_fields p))
      then set_notice (missing_required (missing_fields p)) c
      else if effects.start_core
      then core_started p c
      else core_failed c
]

unfoldable pub toggle_connection : Effects → Controller → Controller
unfolding start_active
toggle_connection effects c =
    if c.connected
    then record c {
      connected = false;
      started_with = none;
      was_running = false;
      runtime_dirty = true;
    }
    else start_active effects c

-- `selected_profile().is_none_or(|p| !missing_fields(p).is_empty())`
unfoldable pub active_incomplete : Controller → Bool
unfolding missing_fields
active_incomplete c = elim (get_elem? c.profiles c.active) [
  | none ↦ true
  | some p ↦ not (is_empty (missing_fields p))
]

-- The core must not keep running a node that no longer exists.
unfoldable pub restart : Effects → Controller → Controller
unfolding toggle_connection start_active active_incomplete
restart effects c =
    start_active effects (if active_incomplete c then toggle_connection effects c else c)
