-- ===== src/Gui/Steps/InRange.antt =====
-- gui/src/ui/controller: what every sequence of calls keeps.
use juicity_rs.Gui.Draft
use juicity_rs.Gui.Connection
use juicity_rs.Gui.Nodes
use juicity_rs.Gui.Controller.{Controller}
use juicity_rs.Gui.Nodes.InRange.{IsInRange}
use juicity_rs.Gui.Save
use juicity_rs.Gui.Save.Written.{IsOnDisk}

-- The indices are within their lists, and the saved list is the one in profiles.json.
abbrev IsSound : Controller → Type 0
IsSound c = IsInRange c × IsOnDisk c
