-- ===== src/Gui/Address.antt =====
-- gui/src/util.rs: an address as text, with brackets around an IPv6 host.
pub mod RoundTrip
use juicity_rs.Base.{
  ℕ, ◌≡◌, List, [], ◌∷◌, ◌++◌, Option, none, some, Bool, ◌&&◌, Bytes, contains, if◌then◌else◌, ◌==◌,
}
use juicity_rs.Protocol.Wire.{colon}
use juicity_rs.Link.{ParseU16, open_bracket, close_bracket, split_last}

abbrev pub prepend : ℕ → Option (Bytes × Bytes) → Option (Bytes × Bytes)
prepend x none = none
prepend x (some (before, after)) = some (x ∷ before, after)

-- The text before and after the first occurrence of two characters, `find`.
unfoldable pub split_pair : ℕ → ℕ → Bytes → Option (Bytes × Bytes)
split_pair a b [] = none
split_pair a b (x ∷ []) = none
split_pair a b (x ∷ (y ∷ ys)) =
    let later = prepend x (split_pair a b (y ∷ ys)) in
    if x == a && y == b then some ([], ys) else later

abbrev pub port_or_zero : Option ℕ → ℕ
port_or_zero (some port) = port
port_or_zero none = 0

-- `&addr[1..addr.len().saturating_sub(1)]` of an address that begins with '[', of which this is the
-- rest: nothing remains of the bracket alone, and the range from 1 to 0 panics.
abbrev pub without_last : Bytes → Option Bytes
without_last [] = none
without_last (x ∷ []) = some []
without_last (x ∷ (y ∷ ys)) = elim (without_last (y ∷ ys)) [
  | none ↦ none
  | some kept ↦ some (x ∷ kept)
]

module _ (parse_u16 : ParseU16) where
  unfoldable pub split_ipv6 : Bytes → Option (Bytes × ℕ)
  unfolding split_pair
  split_ipv6 rest = elim (split_pair close_bracket colon rest) [
    | some (host, port_str) ↦ some (host, port_or_zero (parse_u16 port_str))
    | none ↦ elim (without_last rest) [ none ↦ none | some host ↦ some (host, 0) ]
  ]

  unfoldable pub split_plain : Bytes → Bytes × ℕ
  unfolding split_last
  split_plain addr = elim (split_last colon addr) [
    | some (host, port_str) ↦ (host, port_or_zero (parse_u16 port_str))
    | none ↦ (addr, 0)
  ]

  -- `none` is a panic.
  unfoldable pub split_host_port : Bytes → Option (Bytes × ℕ)
  unfolding split_ipv6 split_plain
  split_host_port [] = some (split_plain [])
  split_host_port (c ∷ cs) =
      if c == open_bracket then split_ipv6 cs else some (split_plain (c ∷ cs))

-- `format!` takes the printing of a port.
unfoldable pub format_host_port : (ℕ → Bytes) → Bytes → ℕ → Bytes
format_host_port show_port host port =
    if contains colon host
    then open_bracket ∷ (host ++ (close_bracket ∷ (colon ∷ show_port port)))
    else host ++ (colon ∷ show_port port)
