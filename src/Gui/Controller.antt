-- ===== src/Gui/Controller.antt =====
-- gui/src/ui/controller/mod.rs: the state of the controller, and what it tells its callers.
use juicity_rs.Base.{ℕ, ◌+◌, ◌%◌, ◌^◌, List, [], Option, Bool, false, Bytes}
use juicity_rs.Gui.Profile.{juicity, ProxyProfile, RequiredField}
use juicity_rs.Gui.Draft.{DraftData, DraftField, DraftError}

-- The list and the active node as last written to or read from the disk.
pub record Saved : Type 0 where
  pub profiles : List ProxyProfile
  pub active : ℕ

-- What profiles.json holds, and the index in runtime.json.
pub record Disk : Type 0 where
  pub profiles_json : List ProxyProfile
  pub runtime_index : ℕ

pub data Leave : Type 0 where
  hide quit : Leave

-- The texts of the failures are left out.
pub data Notice : Type 0 where
  no_notice imported import_failed export_failed export_invalid link_copied start_failed no_node
        nodes_save_failed save_invalid save_failed core_exited profiles_changed :
      Notice
  import_partial : ℕ → ℕ → Notice
  missing_required : List RequiredField → Notice
  node_incomplete : Bytes → List RequiredField → Notice

pub record Controller : Type 0 where
  pub profiles : List ProxyProfile
  pub active : ℕ
  pub was_running : Bool
  pub connected : Bool
  pub notice : Notice
  pub notice_seq : ℕ
  pub selected : ℕ
  pub draft : DraftData
  pub errors : List (DraftField × DraftError)
  pub advanced : Option DraftData
  pub advanced_errors : List (DraftField × DraftError)
  pub started_with : Option ProxyProfile
  pub saved : Saved
  pub leave : Option Leave
  pub runtime_dirty : Bool
  pub disk : Disk

-- Whether the writes of the two files and the start of the core succeed.
pub record Effects : Type 0 where
  pub write_profiles : Bool
  pub write_runtime : Bool
  pub start_core : Bool

pub data ListCommand : Type 0 where
  move_up move_down duplicate delete : ListCommand

unfoldable pub set_notice : Notice → Controller → Controller
set_notice notice c = record c { notice = notice; notice_seq = (c.notice_seq + 1) % 2 ^ 64 }

-- `DraftData::default()`
abbrev pub empty_draft : DraftData
empty_draft = record {
  name = [];
  protocol = juicity;
  server = [];
  port = [];
  uuid = [];
  password = [];
  method = [];
  sni = [];
  allow_insecure = false;
  pinned_certchain_sha256 = [];
  congestion_control = [];
  plugin = [];
  plugin_options = [];
  plugin_args = [];
  timeout = [];
  group = [];
}
