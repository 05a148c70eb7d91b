-- ===== src/Tests/Share.antt =====
-- A share link at a concrete configuration, with an encoder that keeps small letters.
use juicity_rs.Base.{
  ℕ, ◌+◌, ◌≡◌, refl, [], ◌∷◌, ◌++◌, map, none, some, false, ◌&&◌, Bytes, ok, contains, leb,
  if◌then◌else◌, arith, ◌⊎◌, inl, inr,
}
use juicity_rs.Protocol.Wire.{colon}
use juicity_rs.Link.{all_digits}
use juicity_rs.Link.Share.{
  Config, scheme, at_sign, question_mark, ampersand, equals_sign, credentials, server_host_port,
  generate_share_link,
}
use juicity_rs.Link.Share.Decoded.{IsClean, cut, parameters, generate_share_link-cut, stated_parts}
use juicity_rs.Tests.Link.{one_digit}

unfoldable letters : Bytes → Bytes
letters [] = []
letters (c ∷ cs) = (if leb 97 c && leb c 122 then c else b'+') ∷ letters cs

letters-none :
    (mark : ℕ) (s : Bytes)
    → leb 97 mark ≡ false
    → (mark ≡ 64) ⊎ ((mark ≡ 58) ⊎ ((mark ≡ 63) ⊎ ((mark ≡ 38) ⊎ (mark ≡ 61))))
    → contains mark (letters s) ≡ false
unfolding letters
letters-none mark [] h m = refl
letters-none mark (c ∷ cs) h m = ground (arith, letters-none mark cs)

letters-IsClean : (s : Bytes) → IsClean (letters s)
letters-IsClean s = record {
  no_at = letters-none at_sign s refl (inl refl);
  no_colon = letters-none colon s refl (inr (inl refl));
  no_question = letters-none question_mark s refl (inr (inr (inl refl)));
  no_ampersand = letters-none ampersand s refl (inr (inr (inr (inl refl))));
  no_equals = letters-none equals_sign s refl (inr (inr (inr (inr refl))));
}

abbrev show_digit : ℕ → Bytes
show_digit n = (48 + n) ∷ []

abbrev config : Config
config = record {
  server = b'h' ∷ b':' ∷ b'7' ∷ [];
  listen = [];
  uuid = b'u' ∷ [];
  password = b'&' ∷ b'p' ∷ [];
  users = [];
  sni = [];
  congestion_control = b'b' ∷ [];
  allow_insecure = false;
  pinned_certchain_sha256 = [];
}

generate_share_link-cut_example :
    (rest query : Bytes) × (generate_share_link letters show_digit one_digit config none none none
      ≡ ok (scheme ++ rest))
    × (cut rest
        ≡ some (record {
          uuid = letters config.uuid;
          password = letters config.password;
          address = b'h' ∷ b':' ∷ b'7' ∷ [];
          query = query;
        }))
    × (parameters query
        ≡ map some (stated_parts letters show_digit one_digit config (b'h' ∷ []) none none))
unfolding credentials server_host_port generate_share_link all_digits
generate_share_link-cut_example =
    generate_share_link-cut letters show_digit one_digit letters-IsClean config none none none
      config.uuid config.password (b'h' ∷ []) 7 refl refl refl
