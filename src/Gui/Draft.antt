-- ===== src/Gui/Draft.antt =====
-- gui/src/ui/controller/nodes.rs: the text of the editor, and what it writes into a profile. The
-- printing and the parsing of numbers are the standard library's.
pub mod Unchanged
use juicity_rs.Base.{
  ℕ, ◌≡◌, ◌<◌, List, [], ◌∷◌, ◌++◌, Option, none, some, Bool, true, false, not, ◌&&◌, ◌||◌, Bytes,
  bytes_eq, is_empty, if◌then◌else◌, map, ltb,
}
use juicity_rs.Http.Text.{trim}
use juicity_rs.Gui.Profile.{
  codes, ProxyProtocol, juicity, shadowsocks, ProxyProfile, RequiredField, server_field, uuid_field,
  password_field, default_profile, missing_fields, non_empty_text, normalize_congestion_control,
}

-- `u16::to_string`, `u32::to_string`, `str::parse::<u16>` and `str::parse::<u32>`
pub record Numbers : Type 0 where
  pub show : ℕ → Bytes
  pub parse_u16 : Bytes → Option ℕ
  pub parse_u32 : Bytes → Option ℕ

pub data DraftField : Type 0 where
  name_field protocol_field server_draft port_field uuid_draft password_draft method_field sni_field
        allow_insecure_field pinned_field congestion_field plugin_field plugin_options_field
        plugin_args_field timeout_field group_field :
      DraftField

pub data DraftError : Type 0 where
  required bad_port bad_timeout : DraftError

pub record DraftData : Type 0 where
  pub name : Bytes
  pub protocol : ProxyProtocol
  pub server : Bytes
  pub port : Bytes
  pub uuid : Bytes
  pub password : Bytes
  pub method : Bytes
  pub sni : Bytes
  pub allow_insecure : Bool
  pub pinned_certchain_sha256 : Bytes
  pub congestion_control : Bytes
  pub plugin : Bytes
  pub plugin_options : Bytes
  pub plugin_args : Bytes
  pub timeout : Bytes
  pub group : Bytes

-- `value.clone().unwrap_or_default()`, and `unwrap_or_else`
abbrev pub text_or : Option Bytes → Bytes → Bytes
text_or (some value) other = value
text_or none other = other

unfoldable pub set : DraftData → DraftField → Bytes → DraftData
set d name_field value = record d { name = value }
set d protocol_field value = record d {
  protocol = if bytes_eq value (codes "shadowsocks") then shadowsocks else juicity;
}
set d server_draft value = record d { server = value }
set d port_field value = record d { port = value }
set d uuid_draft value = record d { uuid = value }
set d password_draft value = record d { password = value }
set d method_field value = record d { method = value }
set d sni_field value = record d { sni = value }
set d allow_insecure_field value = record d { allow_insecure = bytes_eq value (codes "true") }
set d pinned_field value = record d { pinned_certchain_sha256 = value }
set d congestion_field value = record d { congestion_control = value }
set d plugin_field value = record d { plugin = value }
set d plugin_options_field value = record d { plugin_options = value }
set d plugin_args_field value = record d { plugin_args = value }
set d timeout_field value = record d { timeout = value }
set d group_field value = record d { group = value }

-- The fields of the Advanced sheet.
unfoldable pub take_advanced : DraftData → DraftData → DraftData
take_advanced d sheet = record d {
  sni = sheet.sni;
  allow_insecure = sheet.allow_insecure;
  pinned_certchain_sha256 = sheet.pinned_certchain_sha256;
  congestion_control = sheet.congestion_control;
  plugin = sheet.plugin;
  plugin_options = sheet.plugin_options;
  plugin_args = sheet.plugin_args;
  timeout = sheet.timeout;
  group = sheet.group;
}

abbrev pub draft_field : RequiredField → DraftField
draft_field server_field = server_draft
draft_field uuid_field = uuid_draft
draft_field password_field = password_draft

-- The profile by which `missing` asks `validate::missing_fields`.
unfoldable pub probe : DraftData → ProxyProfile
unfolding default_profile
probe d = record default_profile {
  protocol = d.protocol;
  server = d.server;
  uuid = d.uuid;
  password = d.password;
  method = d.method;
}

unfoldable pub missing : DraftData → List DraftField
unfolding probe missing_fields
missing d = map draft_field (missing_fields (probe d))

-- `missing.contains(&DraftField::Server)`, and likewise for the other two
abbrev pub is_server : DraftField → Bool
is_server server_draft = true
is_server _ = false

abbrev pub is_uuid : DraftField → Bool
is_uuid uuid_draft = true
is_uuid _ = false

abbrev pub is_password : DraftField → Bool
is_password password_draft = true
is_password _ = false

abbrev pub any {ℓ} : {A : Type ℓ} → (A → Bool) → List A → Bool
any p [] = false
any p (x ∷ xs) = p x || any p xs

-- The text of a field that can hold invalid input.
unfoldable pub checked_text : DraftData → DraftField → Bytes
checked_text d server_draft = d.server
checked_text d port_field = d.port
checked_text d uuid_draft = d.uuid
checked_text d password_draft = d.password
checked_text d timeout_field = d.timeout
checked_text d _ = []

-- A text that was edited, trimmed to nothing or something.
abbrev pub edited {ℓ} : {A : Type ℓ} → Bytes → Bytes → (Bytes → A) → A → A
edited new old change kept = if bytes_eq new old then kept else change new

abbrev pub kept_or {ℓ} : {A : Type ℓ} → Option A → A → A
kept_or (some new) old = new
kept_or none old = old

module _ (numbers : Numbers) where
  unfoldable pub parse_port : Bytes → Option ℕ
  unfolding trim
  parse_port text = elim (numbers.parse_u16 (trim text)) [
    | some port ↦ if ltb 0 port then some port else none
    | none ↦ none
  ]

  unfoldable pub parse_timeout : Bytes → Option ℕ
  unfolding trim
  parse_timeout text = numbers.parse_u32 (trim text)

  unfoldable pub from_profile : ProxyProfile → DraftData
  from_profile p = record {
    name = p.name;
    protocol = p.protocol;
    server = p.server;
    port = numbers.show p.server_port;
    uuid = p.uuid;
    password = p.password;
    method = p.method;
    sni = text_or p.sni [];
    allow_insecure = p.allow_insecure;
    pinned_certchain_sha256 = text_or p.pinned_certchain_sha256 [];
    congestion_control = text_or p.congestion_control (codes "bbr");
    plugin = text_or p.plugin [];
    plugin_options = text_or p.plugin_opts [];
    plugin_args = text_or p.plugin_args [];
    timeout = numbers.show p.timeout;
    group = text_or p.group [];
  }

  -- `if parse(..).is_none() { errors.push(..) }`
  abbrev pub error_if_none : Option ℕ → DraftField × DraftError → List (DraftField × DraftError)
  error_if_none none error = error ∷ []
  error_if_none (some number) error = []

  unfoldable pub errors : DraftData → List (DraftField × DraftError)
  unfolding missing parse_port parse_timeout
  errors d =
      map (λ (field : DraftField). (field, required)) (missing d)
      ++ (error_if_none (parse_port d.port) (port_field, bad_port)
          ++ error_if_none (parse_timeout d.timeout) (timeout_field, bad_timeout))

  unfoldable pub unapplied : DraftData → ProxyProfile → Bool
  unfolding from_profile errors checked_text
  unapplied d p =
      any
        (λ (e : DraftField × DraftError).
          not (bytes_eq (checked_text d e.0) (checked_text (from_profile p) e.0)))
        (errors d)

  unfoldable pub apply_to : DraftData → ProxyProfile → ProxyProfile
  unfolding from_profile missing parse_port parse_timeout normalize_congestion_control
      non_empty_text trim
  apply_to d p =
      let current = from_profile p in
      let absent = missing d in
      record p {
        name = edited d.name current.name trim p.name;
        protocol = d.protocol;
        server =
            if bytes_eq d.server current.server || any is_server absent
            then p.server
            else trim d.server;
        server_port = kept_or (parse_port d.port) p.server_port;
        uuid = if bytes_eq d.uuid current.uuid || any is_uuid absent then p.uuid else trim d.uuid;
        password = if any is_password absent then p.password else d.password;
        method = d.method;
        sni = edited d.sni current.sni non_empty_text p.sni;
        allow_insecure = d.allow_insecure;
        pinned_certchain_sha256 =
            edited d.pinned_certchain_sha256 current.pinned_certchain_sha256 non_empty_text
              p.pinned_certchain_sha256;
        congestion_control =
            edited d.congestion_control current.congestion_control normalize_congestion_control
              p.congestion_control;
        plugin = edited d.plugin current.plugin non_empty_text p.plugin;
        plugin_opts = edited d.plugin_options current.plugin_options non_empty_text p.plugin_opts;
        plugin_args = edited d.plugin_args current.plugin_args non_empty_text p.plugin_args;
        timeout = kept_or (parse_timeout d.timeout) p.timeout;
        group = edited d.group current.group non_empty_text p.group;
      }
