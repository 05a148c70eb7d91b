-- ===== src/Protocol/Reader.antt =====
-- A byte stream under `AsyncReadExt` or `Read`: a reader takes the bytes that are to come and
-- leaves the rest. `read_exact` fails at the end of the stream.
use juicity_rs.Base.{
  ℕ, suc, ◌+◌, ◌≤◌, ◌≡◌, refl, List, [], ◌∷◌, ◌++◌, Bool, true, false, Bytes, Result, ok, err,
  length, take, drop, leb, le→leb, length-append, take-append, drop-append, take-append-drop,
  length-take, leb→le, if◌then◌else◌, arith, to_be_bytes, from_be_bytes, from_be_bytes-to_be_bytes,
  ◌<◌, Bool-cases, inl, inr,
}
use juicity_rs.Base
use juicity_rs.Protocol.Wire.{Error, unexpected_eof}

abbrev pub Reader {ℓ} : Type ℓ → Type ℓ
Reader A = Bytes → Result Error (A × Bytes)

infixl 5 ◌>>=◌ ◌>>◌
abbrev pub ◌>>=◌ {ℓ κ} : {A : Type ℓ} {B : Type κ} → Reader A → (A → Reader B) → Reader B
◌>>=◌ m f s = Base.◌>>=◌ (m s) (λ (a, rest). f a rest)

abbrev pub ◌>>◌ {ℓ κ} : {A : Type ℓ} {B : Type κ} → Reader A → Reader B → Reader B
◌>>◌ m k = m >>= λ _. k

abbrev pub pure {ℓ} : {A : Type ℓ} → A → Reader A
pure a s = ok (a, s)

abbrev pub bail {ℓ} : {A : Type ℓ} → Error → Reader A
bail e s = err e

unfoldable pub read_exact : ℕ → Reader Bytes
read_exact n s = if leb n (length s) then ok (take n s, drop n s) else err unexpected_eof

-- What was written is read back, and the rest stays.
pub read_exact-append :
    (n : ℕ) (xs rest : Bytes) → length xs ≡ n → read_exact n (xs ++ rest) ≡ ok (xs, rest)
unfolding read_exact
read_exact-append n xs rest h = rw (
  le→leb n (length (xs ++ rest)) (omega (arith, length-append xs rest)),
  take-append n xs rest h,
  drop-append n xs rest h,
)

pub read_exact_one : (a : ℕ) (rest : Bytes) → read_exact 1 (a ∷ rest) ≡ ok (a ∷ [], rest)
read_exact_one a rest = read_exact-append 1 (a ∷ []) rest refl

pub read_exact_two : (a b : ℕ) (rest : Bytes) → read_exact 2 (a ∷ b ∷ rest) ≡ ok (a ∷ b ∷ [], rest)
read_exact_two a b rest = read_exact-append 2 (a ∷ b ∷ []) rest refl

-- A successful read took exactly `n` bytes off the front.
pub read_exact-eq-ok :
    (n : ℕ) (s : Bytes) {xs rest : Bytes}
    → read_exact n s ≡ ok (xs, rest)
    → (s ≡ xs ++ rest) × (length xs ≡ n)
unfolding read_exact
read_exact-eq-ok n s {xs} {rest} h = ground (arith, take-append-drop n s, length-take n s)
