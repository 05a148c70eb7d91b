-- ===== src/Gui/Profile.antt =====
-- gui/src/config.rs, gui/src/validate.rs and gui/src/state.rs: the profile of a node.
use juicity_rs.Base.{
  ℕ, List, [], ◌∷◌, ◌++◌, Option, none, some, Bool, false, not, ◌&&◌, ◌||◌, Bytes, bytes_eq,
  is_empty, if◌then◌else◌, map,
}
use native.Mathlib.Decide.{ℕ_discrete}
use Prim.Native.Char.{code}
use Prim.Native.String.{String}
use juicity_rs.Http.Text.{trim, to_ascii_lowercase}

-- The characters of a literal.
abbrev pub codes : String → Bytes
codes String.[] = []
codes (String.◌∷◌ c s) = code c ∷ codes s

pub data ProxyProtocol : Type 0 where
  juicity shadowsocks : ProxyProtocol

pub record ProxyProfile : Type 0 where
  pub name : Bytes
  pub protocol : ProxyProtocol
  pub server : Bytes
  pub server_port : ℕ
  pub password : Bytes
  pub uuid : Bytes
  pub sni : Option Bytes
  pub allow_insecure : Bool
  pub pinned_certchain_sha256 : Option Bytes
  pub congestion_control : Option Bytes
  pub method : Bytes
  pub plugin : Option Bytes
  pub plugin_opts : Option Bytes
  pub plugin_args : Option Bytes
  pub timeout : ℕ
  pub group : Option Bytes
  pub config_path : Option Bytes
  pub link : Option Bytes

-- `#[derive(PartialEq)]`
pub ProxyProfile-discrete : Discrete ProxyProfile
ProxyProfile-discrete = hlevel (ℕ_discrete)

pub profiles-discrete : Discrete (List ProxyProfile)
profiles-discrete = hlevel (ProxyProfile-discrete)

abbrev pub new_server : Bytes
new_server = codes "New Server"

-- `ProxyProfile::default()`
unfoldable pub default_profile : ProxyProfile
default_profile = record {
  name = new_server;
  protocol = juicity;
  server = [];
  server_port = 443;
  password = [];
  uuid = [];
  sni = none;
  allow_insecure = false;
  pinned_certchain_sha256 = none;
  congestion_control = none;
  method = codes "chacha20-ietf-poly1305";
  plugin = none;
  plugin_opts = none;
  plugin_args = none;
  timeout = 5;
  group = none;
  config_path = none;
  link = none;
}

unfoldable pub normalize_congestion_control : Bytes → Option Bytes
unfolding trim to_ascii_lowercase
normalize_congestion_control value =
    let canonical = map to_ascii_lowercase (trim value) in
    if bytes_eq canonical (codes "bbr")
    then some (codes "bbr")
    else if bytes_eq canonical (codes "cubic")
    then some (codes "cubic")
    else if bytes_eq canonical (codes "newreno") || bytes_eq canonical (codes "new_reno")
    then some (codes "new_reno")
    else none

-- `format!("{}:{}", self.server, self.server_port)` takes the printing of numbers.
unfoldable pub display_name : (ℕ → Bytes) → ProxyProfile → Bytes
display_name show_number p =
    if not (is_empty p.name) && not (bytes_eq p.name new_server)
    then p.name
    else if not (is_empty p.server)
    then p.server ++ (b':' ∷ show_number p.server_port)
    else new_server

pub data RequiredField : Type 0 where
  server_field uuid_field password_field : RequiredField

-- `if cond { missing.push(field) }`
abbrev pub pushed_if : Bool → RequiredField → List RequiredField
pushed_if cond field = if cond then field ∷ [] else []

abbrev pub missing_secrets : ProxyProtocol → ProxyProfile → List RequiredField
missing_secrets juicity p =
    pushed_if (is_empty (trim p.uuid)) uuid_field ++ pushed_if (is_empty p.password) password_field
missing_secrets shadowsocks p =
    pushed_if
      (is_empty p.password
        && not (bytes_eq p.method (codes "none") || bytes_eq p.method (codes "plain")))
      password_field

unfoldable pub missing_fields : ProxyProfile → List RequiredField
unfolding trim
missing_fields p = pushed_if (is_empty (trim p.server)) server_field ++ missing_secrets p.protocol p

unfoldable pub non_empty_text : Bytes → Option Bytes
unfolding trim
non_empty_text input = let t = trim input in if is_empty t then none else some t
