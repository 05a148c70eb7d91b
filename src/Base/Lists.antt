-- ===== src/Base/Lists.antt =====
-- Lists measured and indexed by native numbers, under the library's names.
use Prim.Native.Nat.{ℕ, zero, suc, ◌+◌, ◌-◌, min}
use Prim.Native.Nat.{◌≤◌}
use mathlib.Core.Path.{◌≡◌, refl, ap}
use mathlib.Core.List.{List, [], ◌∷◌, ◌++◌, map}
use mathlib.Core.Option.{Option, none, some}
use native.Mathlib.Omega.{arith}

module _ {ℓ} {A : Type ℓ} where
  abbrev pub length : List A → ℕ
  length [] = 0
  length (x ∷ xs) = suc (length xs)

  abbrev pub get_elem? : List A → ℕ → Option A
  get_elem? [] i = none
  get_elem? (x ∷ xs) zero = some x
  get_elem? (x ∷ xs) (suc i) = get_elem? xs i

  abbrev pub get_or : List A → ℕ → A → A
  get_or [] i d = d
  get_or (x ∷ xs) zero d = x
  get_or (x ∷ xs) (suc i) d = get_or xs i d

  abbrev pub take : ℕ → List A → List A
  take zero xs = []
  take (suc n) [] = []
  take (suc n) (x ∷ xs) = x ∷ take n xs

  abbrev pub drop : ℕ → List A → List A
  drop zero xs = xs
  drop (suc n) [] = []
  drop (suc n) (x ∷ xs) = drop n xs

  abbrev pub replicate : ℕ → A → List A
  replicate zero a = []
  replicate (suc n) a = a ∷ replicate n a

  -- A predicate on every element, by recursion.
  abbrev pub All {κ} : (A → Type κ) → List A → Type κ
  All P [] = Unit
  All P (x ∷ xs) = P x × All P xs

module _ {ℓ} {A : Type ℓ} where
  pub length-append : (xs ys : List A) → length (xs ++ ys) ≡ length xs + length ys
  length-append [] ys = omega arith
  length-append (x ∷ xs) ys = omega (arith, length-append xs ys)

  pub take-append-drop : (n : ℕ) (xs : List A) → take n xs ++ drop n xs ≡ xs
  take-append-drop zero xs = refl
  take-append-drop (suc n) [] = refl
  take-append-drop (suc n) (x ∷ xs) = rw (take-append-drop n xs)

  pub length-take : (n : ℕ) (xs : List A) → length (take n xs) ≡ min n (length xs)
  length-take zero xs = omega arith
  length-take (suc n) [] = omega arith
  length-take (suc n) (x ∷ xs) = omega (arith, length-take n xs)

  pub length-drop : (n : ℕ) (xs : List A) → length (drop n xs) ≡ length xs - n
  length-drop zero xs = omega arith
  length-drop (suc n) [] = omega arith
  length-drop (suc n) (x ∷ xs) = omega (arith, length-drop n xs)

  pub length-replicate : (n : ℕ) (a : A) → length (replicate n a) ≡ n
  length-replicate zero a = refl
  length-replicate (suc n) a = ap suc (length-replicate n a)

  pub take-append : (n : ℕ) (xs ys : List A) → length xs ≡ n → take n (xs ++ ys) ≡ xs
  take-append zero [] ys h = refl
  take-append zero (x ∷ xs) ys h = absurd (omega arith)
  take-append (suc n) [] ys h = absurd (omega arith)
  take-append (suc n) (x ∷ xs) ys h = ap (◌∷◌ x) (take-append n xs ys (omega arith))

  pub drop-append : (n : ℕ) (xs ys : List A) → length xs ≡ n → drop n (xs ++ ys) ≡ ys
  drop-append zero [] ys h = refl
  drop-append zero (x ∷ xs) ys h = absurd (omega arith)
  drop-append (suc n) [] ys h = absurd (omega arith)
  drop-append (suc n) (x ∷ xs) ys h = drop-append n xs ys (omega arith)

  pub get_or-append :
      (n : ℕ) (xs ys : List A) (y d : A) → length xs ≡ n → get_or (xs ++ (y ∷ ys)) n d ≡ y
  get_or-append zero [] ys y d h = refl
  get_or-append zero (x ∷ xs) ys y d h = absurd (omega arith)
  get_or-append (suc n) [] ys y d h = absurd (omega arith)
  get_or-append (suc n) (x ∷ xs) ys y d h = get_or-append n xs ys y d (omega arith)

  pub take-nil : (n : ℕ) → take {A = A} n [] ≡ []
  take-nil zero = refl
  take-nil (suc n) = refl

  -- Cutting a window at `e`.
  pub take-append-drop-take :
      (e n : ℕ) (xs : List A) → e ≤ n → take e xs ++ drop e (take n xs) ≡ take n xs
  take-append-drop-take zero n xs h = refl
  take-append-drop-take (suc e) zero xs h = absurd (omega arith)
  take-append-drop-take (suc e) (suc n) [] h = refl
  take-append-drop-take (suc e) (suc n) (x ∷ xs) h =
      ap (◌∷◌ x) (take-append-drop-take e n xs (omega arith))

  pub window-append :
      (o e n : ℕ) (xs : List A)
      → o ≤ e
      → e ≤ n
      → take (e - o) (drop o xs) ++ drop e (take n xs) ≡ drop o (take n xs)
  window-append zero e n xs oe en =
      let z : e - 0 ≡ e = omega arith in rw z (take-append-drop-take e n xs en)
  window-append (suc o) zero n xs oe en = absurd (omega arith)
  window-append (suc o) (suc e) zero xs oe en = absurd (omega arith)
  window-append (suc o) (suc e) (suc n) [] oe en = rw (take-nil (suc e - suc o))
  window-append (suc o) (suc e) (suc n) (x ∷ xs) oe en =
      let z : suc e - suc o ≡ e - o = omega arith in
      rw z (window-append o e n xs (omega arith) (omega arith))

  pub drop-eq-nil : (n : ℕ) (xs : List A) → length xs ≤ n → drop n xs ≡ []
  drop-eq-nil zero [] h = refl
  drop-eq-nil zero (x ∷ xs) h = absurd (omega arith)
  drop-eq-nil (suc n) [] h = refl
  drop-eq-nil (suc n) (x ∷ xs) h = drop-eq-nil n xs (omega arith)

module _ {ℓ κ} {A : Type ℓ} (P : A → Type κ) where
  pub All-parts :
      (before after : List A) (x : A)
      → All P (before ++ (x ∷ after))
      → All P before × P x × All P after
  All-parts [] after x (h, hs) = (tt, h, hs)
  All-parts (b ∷ before) after x (h, hs) =
      let (hb, hx, ha) = All-parts before after x hs in ((h, hb), hx, ha)

  pub All-joined : (before after : List A) → All P before → All P after → All P (before ++ after)
  All-joined [] after hb ha = ha
  All-joined (b ∷ before) after (h, hb) ha = (h, All-joined before after hb ha)

  pub All-weaker : (Q : A → Type κ) → ((x : A) → P x → Q x) → (xs : List A) → All P xs → All Q xs
  All-weaker Q g [] h = tt
  All-weaker Q g (x ∷ xs) (h, hs) = (g x h, All-weaker Q g xs hs)

module _ {ℓ κ} {A B : Type ℓ} (P : A → Type κ) (Q : B → Type κ) (f : A → B)
    (g : (x : A) → P x → Q (f x)) where
  pub All-mapped : (xs : List A) → All P xs → All Q (map f xs)
  All-mapped [] h = tt
  All-mapped (x ∷ xs) (h, hs) = (g x h, All-mapped xs hs)
