-- ===== src/Gui/Links/Percent.antt =====
-- gui/src/link.rs: what the decoder of percent signs makes of serialized form data.
use juicity_rs.Base.{
  ℕ, ◌≡◌, ◌≢◌, ◌⊎◌, refl, ap, ◌∙◌, [], ◌∷◌, ◌++◌, some, true, Bytes, map, if◌then◌else◌, ◌==◌,
  ==_iff, ==_ne, arith, Bool-cases, inl, inr,
}
use juicity_rs.Gui.Links.Types.{Codecs, percent}
use juicity_rs.Gui.Links.Import.{decoded_bytes, percent_decode}

abbrev pub space : ℕ
space = 32

abbrev pub plus : ℕ
plus = 43

-- A space becomes a plus sign.
abbrev pub plus_for_space : ℕ → ℕ
plus_for_space b = if b == space then plus else b

-- Form data is serialized byte by byte: a space as '+', another byte as it is, which is then no '%',
-- or as '%' and two digits.
pub record SerializerLaws (c : Codecs) : Type 0 where
  pub serialize_byte : ℕ → Bytes
  pub serialize-nil : c.byte_serialize [] ≡ []
  pub serialize-cons :
      (b : ℕ) (s : Bytes) → c.byte_serialize (b ∷ s) ≡ serialize_byte b ++ c.byte_serialize s
  pub serialize_space : serialize_byte space ≡ plus ∷ []
  pub serialize_other :
      (b : ℕ)
      → b ≢ space
      → ((serialize_byte b ≡ b ∷ []) × (b ≢ percent))
        ⊎ ((h1 h2 : ℕ) × (serialize_byte b ≡ percent ∷ (h1 ∷ (h2 ∷ [])))
            × (c.from_hex h1 h2 ≡ some b))

module _ (c : Codecs) (laws : SerializerLaws c) where
  -- A byte that is no '%' stays.
  decoded_plain :
      (b : ℕ) (s : Bytes) → b ≢ percent → decoded_bytes c (b ∷ s) ≡ b ∷ decoded_bytes c s
  unfolding decoded_bytes
  decoded_plain b [] h = rw (==_ne b percent h) refl
  decoded_plain b (x ∷ []) h = rw (==_ne b percent h) refl
  decoded_plain b (x ∷ (y ∷ ys)) h = rw (==_ne b percent h) refl

  decoded_byte :
      (b : ℕ) (s : Bytes)
      → decoded_bytes c (laws.serialize_byte b ++ s) ≡ plus_for_space b ∷ decoded_bytes c s
  unfolding decoded_bytes
  decoded_byte b s = elim (Bool-cases (b == space)) [
    | inl e ↦
        let is_space : b ≡ space = (==_iff b space).0 e in
        rw (is_space, laws.serialize_space) (decoded_plain plus s (ground arith))
    | inr e ↦ elim (laws.serialize_other b (ground (arith, e))) [
      | inl (same, ne) ↦ rw (e, same) (decoded_plain b s ne)
      | inr (h1, h2, digits, value) ↦ rw (e, digits, value) refl
    ]
  ]

  pub decoded_bytes-byte_serialize :
      (s : Bytes) → decoded_bytes c (c.byte_serialize s) ≡ map plus_for_space s
  unfolding decoded_bytes
  decoded_bytes-byte_serialize [] = rw laws.serialize-nil refl
  decoded_bytes-byte_serialize (b ∷ s) = rw (laws.serialize-cons b s) (
      decoded_byte b (c.byte_serialize s)
      ∙ ap (λ r. plus_for_space b ∷ r) (decoded_bytes-byte_serialize s))

  pub percent_decode-byte_serialize :
      (s : Bytes)
      → c.is_utf8 (map plus_for_space s) ≡ true
      → percent_decode c (c.byte_serialize s) ≡ map plus_for_space s
  unfolding percent_decode
  percent_decode-byte_serialize s h = rw (percent_decode, decoded_bytes-byte_serialize s, h) refl
