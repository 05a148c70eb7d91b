-- ===== src/Gui/Save/Prompt.antt =====
-- gui/src/ui/controller/save.rs: when the window may close.
use juicity_rs.Base.{◌≡◌, refl, get_elem?, none, some, false, if◌then◌else◌}
use juicity_rs.Gui.Profile.{ProxyProfile}
use juicity_rs.Gui.Draft.{Numbers, unapplied}
use juicity_rs.Gui.Controller.{Controller, Effects, Leave}
use juicity_rs.Gui.Nodes.InRange.{IsInRange}
use juicity_rs.Gui.Save.{Answer, save, discard, cancel, write_nodes, revert_nodes, answer_prompt}

-- The list and the active node are the saved ones, the editor shows what the selected node holds, and
-- the list is on the disk.
abbrev IsSaved : Numbers → Controller → Type 0
IsSaved numbers c =
    (c.saved.profiles ≡ c.profiles)
    × (c.saved.active ≡ c.active)
    × ((p : ProxyProfile)
        → get_elem? c.profiles c.selected ≡ some p
        → unapplied numbers c.draft p ≡ false)
    × (c.disk.profiles_json ≡ c.profiles)

module _ (numbers : Numbers) (effects : Effects) where
  -- The answers, where the prompt is open.
  pub answer_discard :
      (c : Controller) (leave : Leave)
      → c.leave ≡ some leave
      → answer_prompt numbers effects discard c
        ≡ (revert_nodes numbers (record c { leave = none }), some leave)
  unfolding answer_prompt
  answer_discard c leave e = rw (answer_prompt, e) refl

  pub answer_cancel :
      (c : Controller) (leave : Leave)
      → c.leave ≡ some leave
      → answer_prompt numbers effects cancel c ≡ (record c { leave = none }, none)
  unfolding answer_prompt
  answer_cancel c leave e = rw (answer_prompt, e) refl

  pub answer_save :
      (c : Controller) (leave : Leave)
      → c.leave ≡ some leave
      → answer_prompt numbers effects save c ≡ (
          if (write_nodes numbers effects c).1
          then (
            record (write_nodes numbers effects c).0 { leave = none },
            (write_nodes numbers effects c).0.leave,
          )
          else ((write_nodes numbers effects c).0, none))
  unfolding answer_prompt
  answer_save c leave e = simp (answer_prompt, e)

  pub answer_closed :
      (a : Answer) (c : Controller) → c.leave ≡ none → answer_prompt numbers effects a c ≡ (c, none)
  unfolding answer_prompt
  answer_closed a c e = simp (answer_prompt, e)

  pub closed-IsInRange : (c : Controller) → IsInRange c → IsInRange (record c { leave = none })
  closed-IsInRange c v = record {
    active_lt = v.active_lt;
    selected_lt = v.selected_lt;
    saved_lt = v.saved_lt;
  }
