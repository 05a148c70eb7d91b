-- ===== src/Gui/Nodes/Followed.antt =====
-- gui/src/ui/controller/nodes.rs: the indices follow their nodes through the commands on the list.
use juicity_rs.Base.{ℕ, ◌≡◌, get_elem?}
use juicity_rs.Gui.Draft.{Numbers}
use juicity_rs.Gui.Controller.{Controller, ListCommand, duplicate}

-- The node that is selected after a command: the original, for its copy has the same content.
abbrev shown_node : ListCommand → ℕ → ℕ → ℕ
shown_node duplicate index selected = index
shown_node _ index selected = selected

module _ (numbers : Numbers) where
  -- What the active and the selected node are after the list was rearranged.
  record IsFollowed (command : ListCommand) (index : ℕ) (c c' : Controller) : Type 0 where
    pub active : get_elem? c'.profiles c'.active ≡ get_elem? c.profiles c.active
    pub selected :
        get_elem? c'.profiles c'.selected
        ≡ get_elem? c.profiles (shown_node command index c.selected)
