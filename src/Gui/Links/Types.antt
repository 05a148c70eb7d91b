-- ===== src/Gui/Links/Types.antt =====
-- gui/src/link.rs: what a link holds, and what it is read and written with.
use juicity_rs.Base.{
  ℕ, List, [], ◌∷◌, Option, none, some, Bool, not, ◌&&◌, Bytes, bytes_eq, is_empty, if◌then◌else◌,
}
use juicity_rs.Link.{ParseU16}
use juicity_rs.Gui.Profile.{ProxyProtocol, ProxyProfile, new_server}

-- The parts of a URL, as the accessors of `url::Url` give them.
pub record Url : Type 0 where
  pub scheme : Bytes
  pub username : Bytes
  pub password : Option Bytes
  pub host_str : Option Bytes
  pub port : Option ℕ
  pub query_pairs : List (Bytes × Bytes)
  pub fragment : Option Bytes

-- `Url::parse`, `form_urlencoded::byte_serialize`, the base64 engines, `u8::from_str_radix` of two
-- characters, `String::from_utf8`, and the printing and parsing of ports.
pub record Codecs : Type 0 where
  pub parse_url : Bytes → Option Url
  pub byte_serialize : Bytes → Bytes
  pub url_safe_no_pad_encode : Bytes → Bytes
  pub url_safe_no_pad : Bytes → Option Bytes
  pub url_safe : Bytes → Option Bytes
  pub standard : Bytes → Option Bytes
  pub from_hex : ℕ → ℕ → Option ℕ
  pub is_utf8 : Bytes → Bool
  pub show_port : ℕ → Bytes
  pub parse_u16 : ParseU16

pub data ImportError : Type 0 where
  unsupported_scheme invalid_link invalid_scheme missing_uuid missing_password missing_host
        missing_port missing_user_info bad_base64 missing_pair missing_at panicked :
      ImportError

pub data ExportError : Type 0 where
  incomplete : ExportError

pub record ImportedShareLink : Type 0 where
  pub protocol : ProxyProtocol
  pub name : Bytes
  pub server : Bytes
  pub server_port : ℕ
  pub password : Bytes
  pub uuid : Bytes
  pub sni : Option Bytes
  pub allow_insecure : Bool
  pub pinned_certchain_sha256 : Option Bytes
  pub congestion_control : Option Bytes
  pub method : Bytes
  pub plugin : Option Bytes
  pub plugin_opts : Option Bytes

-- `!name.is_empty() && name != "New Server"`
abbrev pub is_named : Bytes → Bool
is_named name = not (is_empty name) && not (bytes_eq name new_server)

unfoldable pub apply_to : ImportedShareLink → ProxyProfile → ProxyProfile
apply_to l p = record p {
  protocol = l.protocol;
  name = if is_named l.name then l.name else p.name;
  server = l.server;
  server_port = l.server_port;
  password = l.password;
  uuid = l.uuid;
  sni = l.sni;
  allow_insecure = l.allow_insecure;
  pinned_certchain_sha256 = l.pinned_certchain_sha256;
  congestion_control = l.congestion_control;
  method = if is_empty l.method then p.method else l.method;
  plugin = l.plugin;
  plugin_opts = l.plugin_opts;
}

-- '%', '0', ';' and '#'
abbrev pub percent : ℕ
percent = 37

abbrev pub digit_zero : ℕ
digit_zero = 48

abbrev pub semicolon : ℕ
semicolon = 59

abbrev pub hash_mark : ℕ
hash_mark = 35

-- A text that is there and not empty.
abbrev pub present : Option Bytes → Option Bytes
present none = none
present (some []) = none
present (some (c ∷ cs)) = some (c ∷ cs)
