-- ===== src/Link.antt =====
-- common/src/link.rs and client/src/client.rs: the address of a server, as text.
pub mod RoundTrip
pub mod Share
use juicity_rs.Base.{
  ℕ, ◌≡◌, ◌+◌, List, [], ◌∷◌, ◌++◌, Option, none, some, Bool, true, false, not, ◌&&◌, ◌||◌, Bytes,
  Result, ok, err, contains, is_empty, leb, if◌then◌else◌, ◌==◌,
}
use juicity_rs.Base
use juicity_rs.Protocol.Wire.{Hosts, SocketAddr, show_ip, sock_port, colon}

pub data LinkError : Type 0 where
  invalid_port invalid_ipv6_format missing_port : LinkError

-- '[' and ']'
abbrev pub open_bracket : ℕ
open_bracket = 91

abbrev pub close_bracket : ℕ
close_bracket = 93

abbrev prepend : ℕ → Option (Bytes × Bytes) → Option (Bytes × Bytes)
prepend x none = none
prepend x (some (before, after)) = some (x ∷ before, after)

-- The text before and after the first occurrence of a character, `find`.
unfoldable pub split_first : ℕ → Bytes → Option (Bytes × Bytes)
split_first c [] = none
split_first c (x ∷ xs) =
    let later = prepend x (split_first c xs) in if x == c then some ([], xs) else later

-- The text before and after the last occurrence, `rfind`.
abbrev last_of : ℕ → ℕ → Bytes → Option (Bytes × Bytes) → Option (Bytes × Bytes)
last_of c x xs (some (before, after)) = some (x ∷ before, after)
last_of c x xs none = if x == c then some ([], xs) else none

unfoldable pub split_last : ℕ → Bytes → Option (Bytes × Bytes)
split_last c [] = none
split_last c (x ∷ xs) = last_of c x xs (split_last c xs)

-- `chars().any(|c| !c.is_ascii_digit())`, negated.
unfoldable pub all_digits : Bytes → Bool
all_digits [] = true
all_digits (c ∷ cs) = leb 48 c && leb c 57 && all_digits cs

-- `str::parse::<u16>`, of the standard library.
abbrev pub ParseU16 : Type 0
ParseU16 = Bytes → Option ℕ

module _ (parse_u16 : ParseU16) where
  unfoldable pub parse_port : Bytes → Bytes → Result LinkError (Bytes × ℕ)
  parse_port host port_str = elim (parse_u16 port_str) [
    | some port ↦ ok (host, port)
    | none ↦ err invalid_port
  ]

  -- Behind the closing bracket.
  unfoldable pub parse_bracketed : Bytes → Bytes → Result LinkError (Bytes × ℕ)
  unfolding parse_port
  parse_bracketed host [] = err invalid_ipv6_format
  parse_bracketed host (c ∷ port_str) =
      if c == colon then parse_port host port_str else err invalid_ipv6_format

  unfoldable pub parse_plain : Option (Bytes × Bytes) → Result LinkError (Bytes × ℕ)
  unfolding parse_port
  parse_plain none = err missing_port
  parse_plain (some (host, port_str)) =
      if is_empty port_str || not (all_digits port_str)
      then err invalid_port
      else parse_port host port_str

  unfoldable pub parse_ipv6 : Option (Bytes × Bytes) → Result LinkError (Bytes × ℕ)
  unfolding parse_bracketed
  parse_ipv6 none = err invalid_ipv6_format
  parse_ipv6 (some (host, rest)) = parse_bracketed host rest

  unfoldable pub parse_host_port : Bytes → Result LinkError (Bytes × ℕ)
  unfolding parse_ipv6 parse_plain split_first split_last
  parse_host_port [] = parse_plain (split_last colon [])
  parse_host_port (c ∷ cs) =
      if c == open_bracket
      then parse_ipv6 (split_first close_bracket cs)
      else parse_plain (split_last colon (c ∷ cs))
