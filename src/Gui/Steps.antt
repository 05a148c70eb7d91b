-- ===== src/Gui/Steps.antt =====
-- gui/src/ui/controller: what a user does with the node list, one call after the other.
pub mod InRange
use juicity_rs.Base.{ℕ, List, [], ◌∷◌, Bytes}
use juicity_rs.Gui.Draft.{Numbers, DraftField}
use juicity_rs.Gui.Profile.{ProxyProfile}
use juicity_rs.Gui.Connection
use juicity_rs.Gui.Nodes
use juicity_rs.Gui.Controller.{Controller, Effects, ListCommand, Leave}
use juicity_rs.Gui.Save
use juicity_rs.Gui.Save.{Answer}

-- The calls of the window, the tray and the timer that writes the runtime state.
pub data Op : Type 0 where
  select_node : ℕ → Op
  add_node : Bytes → Op
  import_nodes : List ProxyProfile → ℕ → Op
  node_command : ℕ → ListCommand → Op
  edit_node : DraftField → Bytes → Op
  set_active_node : Op
  open_advanced : Op
  edit_advanced : DraftField → Bytes → Op
  commit_advanced : Op
  cancel_advanced : Op
  toggle_connection : Op
  flush : Op
  revert_nodes : Op
  request_leave : Leave → Op
  save_nodes : Op
  answer_prompt : Answer → Op

module _ (numbers : Numbers) where
  unfoldable pub step : Effects → Op → Controller → Controller
  unfolding Nodes.select_node Nodes.add_node Nodes.import_nodes Nodes.node_command Nodes.edit_node
      Nodes.set_active_node Nodes.open_advanced Nodes.edit_advanced Nodes.commit_advanced
      Nodes.cancel_advanced Connection.toggle_connection Save.flush Save.revert_nodes
      Save.request_leave Save.write_nodes Save.answer_prompt
  step effects (select_node index) c = Nodes.select_node numbers index c
  step effects (add_node name) c = Nodes.add_node numbers name c
  step effects (import_nodes added skipped) c = Nodes.import_nodes numbers added skipped c
  step effects (node_command index command) c = Nodes.node_command numbers effects index command c
  step effects (edit_node field value) c = Nodes.edit_node numbers field value c
  step effects set_active_node c = Nodes.set_active_node numbers effects c
  step effects open_advanced c = Nodes.open_advanced c
  step effects (edit_advanced field value) c = Nodes.edit_advanced numbers field value c
  step effects commit_advanced c = Nodes.commit_advanced numbers c
  step effects cancel_advanced c = Nodes.cancel_advanced c
  step effects toggle_connection c = Connection.toggle_connection effects c
  step effects flush c = Save.flush effects c
  step effects revert_nodes c = Save.revert_nodes numbers c
  step effects (request_leave leave) c = (Save.request_leave numbers leave c).0
  step effects save_nodes c = (Save.write_nodes numbers effects c).0
  step effects (answer_prompt answer) c = (Save.answer_prompt numbers effects answer c).0

  unfoldable pub steps : List (Effects × Op) → Controller → Controller
  unfolding step
  steps [] c = c
  steps ((effects, op) ∷ rest) c = steps rest (step effects op c)
