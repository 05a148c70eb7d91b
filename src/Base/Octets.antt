-- ===== src/Base/Octets.antt =====
-- Byte strings, and `u16::to_be_bytes` with its inverse.
use Prim.Native.Nat.{ℕ, ◌+◌, ◌*◌, ◌/◌, ◌%◌, ◌<◌}
use mathlib.Core.Path.{◌≡◌, refl}
use mathlib.Core.Bool.{Bool, true, false, ◌||◌, ◌&&◌}
use mathlib.Core.List.{List, [], ◌∷◌, ◌++◌}
use native.Mathlib.Omega.{arith}
use juicity_rs.Base.Tests.{◌==◌}
use juicity_rs.Base.Lists.{length, get_or}

abbrev pub Bytes : Type 0
Bytes = List ℕ

-- `u16::to_be_bytes`
abbrev pub to_be_bytes : ℕ → Bytes
to_be_bytes n = (n / 256 % 256) ∷ (n % 256) ∷ []

-- `u16::from_be_bytes` of the two bytes at an offset
abbrev pub from_be_bytes : Bytes → ℕ
from_be_bytes b = get_or b 0 0 * 256 + get_or b 1 0

pub from_be_bytes-to_be_bytes : (n : ℕ) → n < 65536 → from_be_bytes (to_be_bytes n) ≡ n
from_be_bytes-to_be_bytes n h = omega arith

-- `slice.contains(&c)`
abbrev pub contains : ℕ → Bytes → Bool
contains c [] = false
contains c (x ∷ xs) = x == c || contains c xs

pub contains-append :
    (c : ℕ) (xs ys : Bytes)
    → contains c xs ≡ false
    → contains c ys ≡ false
    → contains c (xs ++ ys) ≡ false
contains-append c [] ys h h' = h'
contains-append c (x ∷ xs) ys h h' = ground (arith, contains-append c xs ys)

abbrev pub is_empty {ℓ} : {A : Type ℓ} → List A → Bool
is_empty [] = true
is_empty (x ∷ xs) = false

pub is_empty→nil {ℓ} : {A : Type ℓ} (xs : List A) → is_empty xs ≡ true → xs ≡ []
is_empty→nil [] h = refl
is_empty→nil (x ∷ xs) h = cc

pub nonempty→pos {ℓ} : {A : Type ℓ} (xs : List A) → is_empty xs ≡ false → 0 < length xs
nonempty→pos [] h = cc
nonempty→pos (x ∷ xs) h = omega arith

-- Equality of byte strings.
abbrev pub bytes_eq : Bytes → Bytes → Bool
bytes_eq [] [] = true
bytes_eq [] (y ∷ ys) = false
bytes_eq (x ∷ xs) [] = false
bytes_eq (x ∷ xs) (y ∷ ys) = x == y && bytes_eq xs ys

pub bytes_eq→eq : (xs ys : Bytes) → bytes_eq xs ys ≡ true → xs ≡ ys
bytes_eq→eq [] [] h = refl
bytes_eq→eq [] (y ∷ ys) h = ground arith
bytes_eq→eq (x ∷ xs) [] h = ground arith
bytes_eq→eq (x ∷ xs) (y ∷ ys) h = ground (arith, bytes_eq→eq xs ys)

pub bytes_eq_refl : (xs : Bytes) → bytes_eq xs xs ≡ true
bytes_eq_refl [] = refl
bytes_eq_refl (x ∷ xs) = ground (arith, bytes_eq_refl xs)

-- Computes on concrete strings: the test's value is an argument.
unfoldable pub decide_bytes : (xs ys : Bytes) (b : Bool) → bytes_eq xs ys ≡ b → Dec (xs ≡ ys)
decide_bytes xs ys true e = yes (bytes_eq→eq xs ys e)
decide_bytes xs ys false e = no (λ p. cc (bytes_eq_refl xs))

unfoldable pub Bytes-discrete : Discrete Bytes
unfolding decide_bytes
Bytes-discrete xs ys = decide_bytes xs ys (bytes_eq xs ys) refl
