-- ===== src/Link/Share.antt =====
-- common/src/link.rs: the share link of a configuration. The encoder of URLs, the parser and the
-- printer of a port are parameters.
pub mod Decoded
use juicity_rs.Base.{
  ℕ, ◌≡◌, List, [], ◌∷◌, ◌++◌, Option, none, some, Bool, true, false, not, ◌&&◌, Bytes, Result, ok,
  err, ◌>>=◌, is_empty, if◌then◌else◌,
}
use juicity_rs.Protocol.Wire.{colon}
use juicity_rs.Link.{LinkError, ParseU16, parse_host_port}

-- The fields of `Config` that the link uses; `users` in the order of the map's iterator.
pub record Config : Type 0 where
  pub server : Bytes
  pub listen : Bytes
  pub uuid : Bytes
  pub password : Bytes
  pub users : List (Bytes × Bytes)
  pub sni : Bytes
  pub congestion_control : Bytes
  pub allow_insecure : Bool
  pub pinned_certchain_sha256 : Bytes

-- '@', '?', '&' and '='
abbrev pub at_sign : ℕ
at_sign = 64

abbrev pub question_mark : ℕ
question_mark = 63

abbrev pub ampersand : ℕ
ampersand = 38

abbrev pub equals_sign : ℕ
equals_sign = 61

-- "juicity://", "sni", "congestion_control", "allow_insecure" and "pinned_certchain_sha256"
abbrev pub scheme : Bytes
scheme = b'j' ∷ b'u' ∷ b'i' ∷ b'c' ∷ b'i' ∷ b't' ∷ b'y' ∷ b':' ∷ b'/' ∷ b'/' ∷ []

abbrev pub key_sni : Bytes
key_sni = b's' ∷ b'n' ∷ b'i' ∷ []

abbrev pub key_congestion_control : Bytes
key_congestion_control =
    b'c' ∷ b'o' ∷ b'n' ∷ b'g' ∷ b'e' ∷ b's' ∷ b't' ∷ b'i' ∷ b'o' ∷ b'n' ∷ b'_' ∷ b'c' ∷ b'o' ∷ b'n'
    ∷ b't' ∷ b'r' ∷ b'o' ∷ b'l' ∷ []

abbrev pub key_allow_insecure : Bytes
key_allow_insecure =
    b'a' ∷ b'l' ∷ b'l' ∷ b'o' ∷ b'w' ∷ b'_' ∷ b'i' ∷ b'n' ∷ b's' ∷ b'e' ∷ b'c' ∷ b'u' ∷ b'r' ∷ b'e'
    ∷ []

abbrev pub key_pinned : Bytes
key_pinned =
    b'p' ∷ b'i' ∷ b'n' ∷ b'n' ∷ b'e' ∷ b'd' ∷ b'_' ∷ b'c' ∷ b'e' ∷ b'r' ∷ b't' ∷ b'c' ∷ b'h' ∷ b'a'
    ∷ b'i' ∷ b'n' ∷ b'_' ∷ b's' ∷ b'h' ∷ b'a' ∷ b'2' ∷ b'5' ∷ b'6' ∷ []

pub data ShareError : Type 0 where
  no_credentials : ShareError
  bad_address : LinkError → ShareError

-- The user of the configuration, or the first user of a server.
unfoldable pub credentials : Config → Option (Bytes × Bytes)
credentials c =
    if not (is_empty c.uuid) && not (is_empty c.password)
    then some (c.uuid, c.password)
    else (elim c.users [ [] ↦ none | user ∷ users ↦ some user ])

unfoldable pub server_addr : Config → Bytes
server_addr c = if not (is_empty c.server) then c.server else c.listen

-- An override that is there, or a value that is not empty.
unfoldable pub or_value : Option Bytes → Bytes → Option Bytes
or_value (some override) value = some override
or_value none value = if is_empty value then none else some value

-- `filter(|s| !s.is_empty())`
unfoldable pub filled : Option Bytes → Option Bytes
filled none = none
filled (some s) = if is_empty s then none else some s

abbrev pub unwrap_or : Option Bytes → Bytes → Bytes
unwrap_or (some s) t = s
unwrap_or none t = t

module _ (encode : Bytes → Bytes) (show_port : ℕ → Bytes) (parse_u16 : ParseU16) where
  abbrev pub optional : Bytes → Option Bytes → List (Bytes × Bytes)
  optional key none = []
  optional key (some value) = (key, encode value) ∷ []

  -- The parameters of the query, with their encoded values.
  unfoldable pub query_parts : Config → Bytes → Option Bytes → Option Bytes → List (Bytes × Bytes)
  unfolding or_value filled
  query_parts c host sni_override cert_sha256_override =
      (key_sni, encode (unwrap_or (or_value sni_override c.sni) host))
      ∷ (optional key_congestion_control (or_value none c.congestion_control)
          ++ ((key_allow_insecure, (if c.allow_insecure then b'1' ∷ [] else b'0' ∷ []))
              ∷ optional key_pinned
                  (or_value (filled cert_sha256_override) c.pinned_certchain_sha256)))

  -- `query_parts.join("&")`
  unfoldable pub joined_query : List (Bytes × Bytes) → Bytes
  joined_query [] = []
  joined_query ((key, value) ∷ []) = key ++ (equals_sign ∷ value)
  joined_query ((key, value) ∷ (part ∷ parts)) =
      (key ++ (equals_sign ∷ value)) ++ (ampersand ∷ joined_query (part ∷ parts))

  -- The text of the link.
  unfoldable pub link_text : Bytes × Bytes → Bytes → ℕ → List (Bytes × Bytes) → Bytes
  unfolding joined_query
  link_text (uuid, password) host port parts =
      scheme
      ++ (encode uuid
          ++ (colon
              ∷ (encode password
                  ++ (at_sign
                      ∷ (host
                          ++ (colon ∷ (show_port port ++ (question_mark ∷ joined_query parts))))))))

  unfoldable pub server_host_port : Config → Result ShareError (Bytes × ℕ)
  unfolding server_addr parse_host_port
  server_host_port c = elim (parse_host_port parse_u16 (server_addr c)) [
    | ok target ↦ ok target
    | err e ↦ err (bad_address e)
  ]

  unfoldable pub generate_share_link :
      Config → Option Bytes → Option Bytes → Option Bytes → Result ShareError Bytes
  unfolding credentials server_host_port query_parts link_text
  generate_share_link c host_override sni_override cert_sha256_override = elim (credentials c) [
    | none ↦ err no_credentials
    | some user ↦ server_host_port c >>= λ (base_host, port).
        let host = unwrap_or host_override base_host in
        ok (link_text user host port (query_parts c host sni_override cert_sha256_override))
  ]
