-- ===== src/Base/Outcome.antt =====
-- Rust's `Result`, with the `?` operator as bind.
use mathlib.Core.Path.{◌≡◌, refl}
use mathlib.Core.Bool.{Bool, true, false}
use mathlib.Core.Option.{Option, none, some}

pub data Result {ℓ} (E : Type 0) (A : Type ℓ) : Type ℓ where
  ok : A → Result E A
  err : E → Result E A

-- An error ends the chain, and a success hands its value on.
module _ {E : Type 0} where
  infixl 5 ◌>>=◌ ◌>>◌
  abbrev pub ◌>>=◌ {ℓ κ} : {A : Type ℓ} {B : Type κ} → Result E A → (A → Result E B) → Result E B
  err failure >>= next = err failure
  ok value >>= next = next value

  -- `opt.ok_or(e)`, and `res.map_err(|_| e)` where the error's content is not looked at
  abbrev pub ok_or {ℓ} : {A : Type ℓ} → Option A → E → Result E A
  ok_or (some value) failure = ok value
  ok_or none failure = err failure

  -- `ensure!(cond, e)`
  abbrev pub ensure : Bool → E → Result E (Unit {0})
  ensure false failure = err failure
  ensure true failure = ok tt

  -- A statement whose value is not used.
  abbrev pub ◌>>◌ {ℓ} : {B : Type ℓ} → Result E (Unit {0}) → Result E B → Result E B
  first >> second = first >>= λ _. second

  pub >>=-eq-ok {ℓ κ} :
      {A : Type ℓ} {B : Type κ} (m : Result E A) (f : A → Result E B) {b : B}
      → (m >>= f) ≡ ok b
      → (a : A) × (m ≡ ok a) × (f a ≡ ok b)
  >>=-eq-ok (err failure) next h = cc
  >>=-eq-ok (ok value) next h = (value, refl, h)
