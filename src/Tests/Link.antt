-- ===== src/Tests/Link.antt =====
-- The address theorems at concrete texts, with a parser for one digit.
use juicity_rs.Base.{◌≡◌, ◌-◌, refl, [], ◌∷◌, some, none, Bytes, ok, err, ◌++◌}
use juicity_rs.Link.{ParseU16, parse_host_port, invalid_ipv6_format}

abbrev pub one_digit : ParseU16
one_digit (c ∷ []) = some (c - 48)
one_digit _ = none

abbrev ipv6 : Bytes
ipv6 = b':' ∷ b':' ∷ b'1' ∷ []

-- "a:7", and a bracketed address without a port.
named_host : parse_host_port one_digit (b'a' ∷ b':' ∷ b'7' ∷ []) ≡ ok (b'a' ∷ [], 7)
unfolding parse_host_port juicity_rs.Link.all_digits
named_host = refl

no_port : parse_host_port one_digit (b'[' ∷ (ipv6 ++ (b']' ∷ []))) ≡ err invalid_ipv6_format
unfolding parse_host_port juicity_rs.Link.all_digits
no_port = refl
