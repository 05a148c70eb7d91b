-- ===== src/Tests/Addresses.antt =====
-- Stand-ins for `std::net` and the AEAD: an IPv4 address is written as `.` and a character for
-- each octet, an IPv6 address as `:` and its octets, and the cipher is the identity.
use mathlib.Core.Option
use juicity_rs.Base.{
  suc, ◌+◌, ◌-◌, ◌≡◌, refl, ap, [], ◌∷◌, ◌++◌, Option, none, some, true, false, ◌&&◌, Bytes, length,
  length-append, map, take, take-append, replicate, contains, leb, if◌then◌else◌, ◌==◌, arith,
  Option-cases, inl, inr,
}
use juicity_rs.Protocol.Wire.{Hosts, HostsLaws, colon}
use juicity_rs.Crypto.{Aead, AeadLaws}

unfoldable pub shift : Bytes → Bytes
shift = map (λ b. b + 59)

unfoldable pub unshift : Bytes → Option Bytes
unshift [] = some []
unshift (c ∷ cs) = if leb 59 c then Option.map (λ r. (c - 59) ∷ r) (unshift cs) else none

unfoldable pub parse_dotted : Bytes → Option Bytes
unfolding unshift
parse_dotted [] = none
parse_dotted (c ∷ cs) = if c == 46 && length cs == 4 then unshift cs else none

unfoldable pub parse_colon : Bytes → Option Bytes
parse_colon [] = none
parse_colon (c ∷ cs) = if c == 58 && length cs == 16 then some cs else none

abbrev pub small_hosts : Hosts
small_hosts = record {
  parse_v4 = parse_dotted;
  show_v4 = λ ip. 46 ∷ shift ip;
  parse_v6 = parse_colon;
  show_v6 = λ ip. 58 ∷ ip;
  from_utf8_lossy = λ s. s;
  is_utf8 = λ s. true;
}

unshift-shift : (ip : Bytes) → unshift (shift ip) ≡ some ip
unfolding unshift shift
unshift-shift [] = refl
unshift-shift (b ∷ ip) = ground (arith, unshift-shift ip)

length-shift : (ip : Bytes) → length (shift ip) ≡ length ip
unfolding shift
length-shift [] = refl
length-shift (b ∷ ip) = ap suc (length-shift ip)

unshift_shape :
    (s ip : Bytes) → unshift s ≡ some ip → (length ip ≡ length s) × (contains colon s ≡ false)
unfolding unshift
unshift_shape [] ip h = ground arith
unshift_shape (c ∷ s) ip h = elim (Option-cases (unshift s)) [
  | inl e ↦ absurd (ground arith)
  | inr (r, e) ↦ ground (arith, unshift_shape s r e)
]

dotted_shape :
    (s ip : Bytes) → parse_dotted s ≡ some ip → (length ip ≡ 4) × (contains colon s ≡ false)
unfolding parse_dotted
dotted_shape [] ip h = cc
dotted_shape (c ∷ cs) ip h = ground (arith, unshift_shape cs ip)

colon_shape :
    (s ip : Bytes) → parse_colon s ≡ some ip → (length ip ≡ 16) × (contains colon s ≡ true)
unfolding parse_colon
colon_shape [] ip h = cc
colon_shape (c ∷ cs) ip h = ground arith

dotted_show : (ip : Bytes) → length ip ≡ 4 → parse_dotted (46 ∷ shift ip) ≡ some ip
unfolding parse_dotted
dotted_show ip h = ground (arith, length-shift ip, unshift-shift ip)

colon_show : (ip : Bytes) → length ip ≡ 16 → parse_colon (58 ∷ ip) ≡ some ip
unfolding parse_colon
colon_show ip h = ground arith

dotted_empty : parse_dotted [] ≡ none
unfolding parse_dotted
dotted_empty = refl

pub small_hosts-HostsLaws : HostsLaws small_hosts
small_hosts-HostsLaws = record {
  v4_octets = λ s ip h. (dotted_shape s ip h).0;
  v6_octets = λ s ip h. (colon_shape s ip h).0;
  parse_show_v4 = λ ip h b. dotted_show ip h;
  parse_show_v6 = λ ip h b. colon_show ip h;
  v4_no_colon = λ s ip h. (dotted_shape s ip h).1;
  v6_colon = λ s ip h. (colon_shape s ip h).1;
  v4_empty = dotted_empty;
  lossy_utf8 = λ s h. refl;
}

abbrev pub small_tag : Bytes
small_tag = replicate 16 7

abbrev pub small_aead : Aead
small_aead = record {
  encrypt_detached = λ key plain. some (plain, small_tag);
  decrypt_detached = λ key cipher tag. some cipher;
  encrypt = λ key plain. some (plain ++ small_tag);
  decrypt = λ key sealed. some (take (length sealed - 16) sealed);
  hkdf_sha1 = λ salt psk. some psk;
}

small_decrypt :
    (cipher tag : Bytes)
    → length tag ≡ 16
    → take (length (cipher ++ tag) - 16) (cipher ++ tag) ≡ cipher
small_decrypt cipher tag h =
    take-append (length (cipher ++ tag) - 16) cipher tag (omega (arith, length-append cipher tag))

pub small_aead-AeadLaws : AeadLaws small_aead
small_aead-AeadLaws = record {
  sizes = λ key plain cipher tag h. (ground arith, ground arith);
  decrypt_encrypt = λ key plain cipher tag h. ground arith;
  encrypt_postfix = λ key plain. refl;
  decrypt_postfix = λ key cipher tag h. ap some (small_decrypt cipher tag h);
}
