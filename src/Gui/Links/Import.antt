-- ===== src/Gui/Links/Import.antt =====
-- gui/src/link.rs: the import of a link.
use juicity_rs.Base.{
  ℕ, List, [], ◌∷◌, ◌++◌, Option, none, some, is_some, Bool, false, not, ◌&&◌, ◌||◌, Bytes,
  bytes_eq, is_empty, contains, if◌then◌else◌, ◌==◌, Result, ok, err, ◌>>=◌, ok_or, ensure, ◌>>◌,
}
use juicity_rs.Protocol.Wire.{colon}
use juicity_rs.Link.{split_first, split_last}
use juicity_rs.Link.Share.{at_sign}
use juicity_rs.Http.Text.{trim, strip_prefix, eq_ignore_ascii_case}
use juicity_rs.Gui.Profile.{codes, juicity, shadowsocks, normalize_congestion_control}
use juicity_rs.Gui.Address.{split_host_port}
use juicity_rs.Gui.Links.Types.{
  Url, Codecs, ImportError, unsupported_scheme, invalid_link, invalid_scheme, missing_uuid,
  missing_password, missing_host, missing_port, missing_user_info, bad_base64, missing_pair,
  missing_at, panicked, ImportedShareLink, percent, digit_zero, semicolon, hash_mark,
}

-- `self.congestion_control = ..` and the like, on one pair of the query.
pub record QueryFields : Type 0 where
  pub sni : Option Bytes
  pub allow_insecure : Bool
  pub pinned_certchain_sha256 : Option Bytes
  pub congestion_control : Option Bytes

unfoldable pub query_field : Bytes → Bytes → QueryFields → QueryFields
unfolding normalize_congestion_control eq_ignore_ascii_case
query_field k v q =
    if bytes_eq k (codes "sni")
    then record q { sni = some v }
    else if bytes_eq k (codes "pinned_certchain_sha256") && not (is_empty v)
    then record q { pinned_certchain_sha256 = some v }
    else if bytes_eq k (codes "congestion_control")
    then record q { congestion_control = normalize_congestion_control v }
    else if bytes_eq k (codes "allowInsecure") || bytes_eq k (codes "allow_insecure")
    then record q {
      allow_insecure = bytes_eq v (codes "1") || eq_ignore_ascii_case v (codes "true");
    }
    else q

unfoldable pub query_fields : List (Bytes × Bytes) → QueryFields → QueryFields
unfolding query_field
query_fields [] q = q
query_fields ((k, v) ∷ pairs) q = query_fields pairs (query_field k v q)

-- The plugin and its options, `split_once(';')`.
unfoldable pub plugin_fields :
    List (Bytes × Bytes) → Option Bytes × Option Bytes → Option Bytes × Option Bytes
unfolding split_first
plugin_fields [] found = found
plugin_fields ((k, v) ∷ pairs) (plugin, opts) = plugin_fields pairs (
    if bytes_eq k (codes "plugin")
    then (elim (split_first semicolon v) [
      | some (prog, rest) ↦ (some prog, some rest)
      | none ↦ (some v, opts)
    ])
    else (plugin, opts))

module _ (c : Codecs) where
  -- The byte that two digits name, or the '%' for itself; what follows is read on either way.
  abbrev pub escaped : Option ℕ → Bytes → Bytes
  escaped (some byte) rest = byte ∷ rest
  escaped none rest = percent ∷ rest

  -- Digits that are missing at the end count as zeros.
  unfoldable pub decoded_bytes : Bytes → Bytes
  decoded_bytes [] = []
  decoded_bytes (b ∷ []) =
      if b == percent then escaped (c.from_hex digit_zero digit_zero) [] else b ∷ []
  decoded_bytes (b ∷ (h ∷ [])) =
      let rest = decoded_bytes (h ∷ []) in
      if b == percent then escaped (c.from_hex h digit_zero) [] else b ∷ rest
  decoded_bytes (b ∷ (h1 ∷ (h2 ∷ rest))) =
      let behind = decoded_bytes rest in
      let next = decoded_bytes (h1 ∷ (h2 ∷ rest)) in
      if b == percent then escaped (c.from_hex h1 h2) behind else b ∷ next

  unfoldable pub percent_decode : Bytes → Bytes
  unfolding decoded_bytes
  percent_decode input = let bytes = decoded_bytes input in if c.is_utf8 bytes then bytes else input

  -- One engine of base64, `if let Ok(text) = String::from_utf8(bytes)`.
  abbrev pub utf8_only : Option Bytes → Option Bytes
  utf8_only none = none
  utf8_only (some bytes) = if c.is_utf8 bytes then some bytes else none

  abbrev pub or_else : Option Bytes → Option Bytes → Option Bytes
  or_else (some text) other = some text
  or_else none other = other

  unfoldable pub decode_base64_variants : Bytes → Option Bytes
  unfolding trim
  decode_base64_variants input =
      let normalized = trim input in
      or_else (utf8_only (c.url_safe_no_pad normalized))
        (or_else (utf8_only (c.url_safe normalized)) (utf8_only (c.standard normalized)))

  -- `format!("{}:{}", host, port)`
  abbrev pub host_colon_port : Bytes → ℕ → Bytes
  host_colon_port host port = host ++ (colon ∷ c.show_port port)

  -- The name in the fragment, unless it is blank.
  unfoldable pub link_name : Option Bytes → Bytes → ℕ → Bytes
  unfolding trim percent_decode
  link_name none host port = host_colon_port host port
  link_name (some v) host port =
      if is_empty (trim v) then host_colon_port host port else percent_decode v

  abbrev pub or_empty : Option Bytes → Bytes
  or_empty none = []
  or_empty (some s) = s

  unfoldable pub parse_juicity_link : Bytes → Result ImportError ImportedShareLink
  unfolding query_fields link_name percent_decode
  parse_juicity_link raw = do
    url ← ok_or (c.parse_url raw) invalid_link
    ensure (bytes_eq url.scheme (codes "juicity")) invalid_scheme
    ensure (not (is_empty url.username)) missing_uuid
    ensure (not (is_empty (or_empty url.password))) missing_password
    host ← ok_or url.host_str missing_host
    port ← ok_or url.port missing_port
    let q = query_fields url.query_pairs (record {
      sni = none;
      allow_insecure = false;
      pinned_certchain_sha256 = none;
      congestion_control = none;
    })
    ok (record {
      protocol = juicity;
      name = link_name url.fragment host port;
      server = host;
      server_port = port;
      password = percent_decode (or_empty url.password);
      uuid = percent_decode url.username;
      sni = q.sni;
      allow_insecure = q.allow_insecure;
      pinned_certchain_sha256 = q.pinned_certchain_sha256;
      congestion_control = q.congestion_control;
      method = [];
      plugin = none;
      plugin_opts = none;
    })

  -- A link of Shadowsocks, from its parts.
  abbrev pub ss_link :
      Bytes → Bytes → ℕ → Bytes → Bytes → Option Bytes × Option Bytes → ImportedShareLink
  ss_link name host port method password (plugin, plugin_opts) = record {
    protocol = shadowsocks;
    name = name;
    server = host;
    server_port = port;
    password = password;
    uuid = [];
    sni = none;
    allow_insecure = false;
    pinned_certchain_sha256 = none;
    congestion_control = none;
    method = method;
    plugin = plugin;
    plugin_opts = plugin_opts;
  }

  -- The method and the password, plain or in base64.
  unfoldable pub credentials : Url → Result ImportError (Bytes × Bytes)
  unfolding percent_decode decode_base64_variants split_first
  credentials url = elim url.password [
    | some plain ↦ ok (percent_decode url.username, percent_decode plain)
    | none ↦ ok_or (decode_base64_variants url.username) bad_base64 >>= λ decoded.
        ok_or (split_first colon decoded) missing_pair
  ]

  unfoldable pub parse_ss_sip002 : Bytes → Result ImportError ImportedShareLink
  unfolding credentials plugin_fields link_name
  parse_ss_sip002 raw = do
    url ← ok_or (c.parse_url raw) invalid_link
    ensure (bytes_eq url.scheme (codes "ss")) invalid_scheme
    host ← ok_or url.host_str missing_host
    port ← ok_or url.port missing_port
    ensure (not (is_empty url.username)) missing_user_info
    user ← credentials url
    ok (
        ss_link (link_name url.fragment host port) host port user.0 user.1
          (plugin_fields url.query_pairs (none, none)))

  -- The text before the first '#', and the text behind it.
  abbrev pub before_hash : Bytes → Option (Bytes × Bytes) → Bytes × Option Bytes
  before_hash content none = (content, none)
  before_hash content (some (encoded, remark)) = (encoded, some remark)

  unfoldable pub parse_ss_legacy : Bytes → Result ImportError ImportedShareLink
  unfolding decode_base64_variants split_first split_last split_host_port link_name
  parse_ss_legacy content = do
    let parts = before_hash content (split_first hash_mark content)
    decoded ← ok_or (decode_base64_variants parts.0) bad_base64
    at ← ok_or (split_last at_sign decoded) missing_at
    user ← ok_or (split_first colon at.0) missing_pair
    address ← ok_or (split_host_port c.parse_u16 at.1) panicked
    ok (
        ss_link (link_name parts.1 address.0 address.1) address.0 address.1 user.0 user.1
          (none, none))

  unfoldable pub import_share_link : Bytes → Result ImportError ImportedShareLink
  unfolding trim strip_prefix parse_juicity_link parse_ss_sip002 parse_ss_legacy
  import_share_link input =
      let raw = trim input in
      if is_some (strip_prefix (codes "juicity://") raw)
      then parse_juicity_link raw
      else (elim (strip_prefix (codes "ss://") raw) [
        | none ↦ err unsupported_scheme
        | some payload ↦
            if contains at_sign payload then parse_ss_sip002 raw else parse_ss_legacy payload
      ])
