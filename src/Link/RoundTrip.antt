-- ===== src/Link/RoundTrip.antt =====
-- common/src/link.rs: an address that was written as text is parsed back.
use juicity_rs.Base.{
  ℕ, ◌≡◌, refl, [], ◌∷◌, ◌++◌, none, some, true, false, Bytes, ok, contains, is_empty,
  if◌then◌else◌, ◌==◌, arith, Bool-cases, inl, inr,
}
use juicity_rs.Protocol.Wire.{colon}
use juicity_rs.Link.{
  open_bracket, close_bracket, split_first, split_last, all_digits, ParseU16, parse_port,
  parse_plain, parse_host_port,
}

-- A host with a colon in brackets, another as it is, and the port's text.
unfoldable pub host_port : Bytes → Bytes → Bytes
host_port host port_str =
    if contains colon host
    then open_bracket ∷ (host ++ (close_bracket ∷ (colon ∷ port_str)))
    else host ++ (colon ∷ port_str)

pub split_first-append :
    (c : ℕ) (before after : Bytes)
    → contains c before ≡ false
    → split_first c (before ++ (c ∷ after)) ≡ some (before, after)
unfolding split_first
split_first-append c [] after h = ground arith
split_first-append c (x ∷ xs) after h = ground (arith, split_first-append c xs after)

pub split_last-none : (c : ℕ) (s : Bytes) → contains c s ≡ false → split_last c s ≡ none
unfolding split_last
split_last-none c [] h = refl
split_last-none c (x ∷ xs) h = ground (arith, split_last-none c xs)

pub split_last-append :
    (c : ℕ) (before after : Bytes)
    → contains c after ≡ false
    → split_last c (before ++ (c ∷ after)) ≡ some (before, after)
unfolding split_last
split_last-append c [] after h = ground (arith, split_last-none c after h)
split_last-append c (x ∷ xs) after h = ground (arith, split_last-append c xs after h)

digits_no_colon : (s : Bytes) → all_digits s ≡ true → contains colon s ≡ false
unfolding all_digits
digits_no_colon [] h = refl
digits_no_colon (x ∷ xs) h = ground (arith, digits_no_colon xs)

module _ (parse_u16 : ParseU16) (port_str : Bytes) (port : ℕ)
    (parses : parse_u16 port_str ≡ some port) where
  parse_port_lem : (host : Bytes) → parse_port parse_u16 host port_str ≡ ok (host, port)
  unfolding parse_port
  parse_port_lem host = ground (arith, parses)

  parse_host_port-bracketed :
      (host : Bytes)
      → contains close_bracket host ≡ false
      → parse_host_port parse_u16 (open_bracket ∷ (host ++ (close_bracket ∷ (colon ∷ port_str))))
        ≡ ok (host, port)
  unfolding parse_host_port
  parse_host_port-bracketed host h =
      rw (split_first-append close_bracket host (colon ∷ port_str) h) (parse_port_lem host)

  parse_plain_lem :
      (host : Bytes)
      → all_digits port_str ≡ true
      → is_empty port_str ≡ false
      → parse_plain parse_u16 (split_last colon (host ++ (colon ∷ port_str))) ≡ ok (host, port)
  unfolding parse_plain
  parse_plain_lem host hd he =
      rw (split_last-append colon host port_str (digits_no_colon port_str hd), he, hd)
        (parse_port_lem host)

  parse_host_port-plain :
      (host : Bytes)
      → contains open_bracket host ≡ false
      → all_digits port_str ≡ true
      → is_empty port_str ≡ false
      → parse_host_port parse_u16 (host ++ (colon ∷ port_str)) ≡ ok (host, port)
  unfolding parse_host_port
  parse_host_port-plain [] h hd he = parse_plain_lem [] hd he
  parse_host_port-plain (x ∷ xs) h hd he =
      let other : (x == open_bracket) ≡ false = ground arith in
      rw other (parse_plain_lem (x ∷ xs) hd he)

  -- A host without brackets and a port in digits that `u16` accepts: written as `host:port`, in
  -- brackets if the host has a colon, they are parsed back.
  pub parse_host_port-host_port :
      (host : Bytes)
      → contains open_bracket host ≡ false
      → contains close_bracket host ≡ false
      → all_digits port_str ≡ true
      → is_empty port_str ≡ false
      → parse_host_port parse_u16 (host_port host port_str) ≡ ok (host, port)
  unfolding host_port
  parse_host_port-host_port host h h' hd he = elim (Bool-cases (contains colon host)) [
    | inl c ↦ rw c (parse_host_port-bracketed host h')
    | inr c ↦ rw c (parse_host_port-plain host h hd he)
  ]
