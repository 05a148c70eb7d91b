-- ===== src/Gui.antt =====
-- gui/src: the node list of the desktop application, its editor and what reaches the disk.
pub mod Profile
pub mod Draft
pub mod Controller
pub mod Connection
pub mod Nodes
pub mod Save
pub mod Steps
pub mod Traffic
pub mod Address
pub mod Links
