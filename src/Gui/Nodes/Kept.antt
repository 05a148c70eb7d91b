-- ===== src/Gui/Nodes/Kept.antt =====
-- gui/src/ui/controller/overview.rs: starting and stopping the core leaves the nodes alone.
use juicity_rs.Base.{◌≡◌, refl, ◌∙◌, arith}
use juicity_rs.Gui.Controller.{Notice, Controller, Effects, set_notice}
use juicity_rs.Gui.Connection.{core_started, core_failed, start_active, toggle_connection, restart}

-- The lists, the indices and the editor are those of before, and so is the disk.
pub record Keeps (c c' : Controller) : Type 0 where
  pub profiles : c'.profiles ≡ c.profiles
  pub active : c'.active ≡ c.active
  pub selected : c'.selected ≡ c.selected
  pub draft : c'.draft ≡ c.draft
  pub saved : c'.saved ≡ c.saved
  pub disk : c'.disk ≡ c.disk

pub Keeps-trans : (c c' c'' : Controller) → Keeps c c' → Keeps c' c'' → Keeps c c''
Keeps-trans c c' c'' k k' = record {
  profiles = k'.profiles ∙ k.profiles;
  active = k'.active ∙ k.active;
  selected = k'.selected ∙ k.selected;
  draft = k'.draft ∙ k.draft;
  saved = k'.saved ∙ k.saved;
  disk = k'.disk ∙ k.disk;
}

pub Keeps-refl : (c : Controller) → Keeps c c
Keeps-refl c = record {
  profiles = refl;
  active = refl;
  selected = refl;
  draft = refl;
  saved = refl;
  disk = refl;
}

pub set_notice-Keeps : (n : Notice) (c : Controller) → Keeps c (set_notice n c)
unfolding set_notice
set_notice-Keeps n c = record {
  profiles = refl;
  active = refl;
  selected = refl;
  draft = refl;
  saved = refl;
  disk = refl;
}

pub start_active-Keeps : (effects : Effects) (c : Controller) → Keeps c (start_active effects c)
unfolding start_active core_started core_failed set_notice
start_active-Keeps effects c = ground arith

pub toggle_connection-Keeps :
    (effects : Effects) (c : Controller) → Keeps c (toggle_connection effects c)
unfolding toggle_connection
toggle_connection-Keeps effects c = ground (arith, start_active-Keeps effects c)

pub restart-Keeps : (effects : Effects) (c : Controller) → Keeps c (restart effects c)
unfolding restart
restart-Keeps effects c = ground (
  arith,
  toggle_connection-Keeps effects c,
  start_active-Keeps effects c,
  start_active-Keeps effects (toggle_connection effects c),
)
