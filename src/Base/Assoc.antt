-- ===== src/Base/Assoc.antt =====
-- Hash maps as association lists, over a key type with decidable equality.
use Prim.Native.Nat.{◌+◌, ◌<◌, ◌≤◌}
use mathlib.Core.Path.{◌≡◌, refl}
use mathlib.Core.Logic.{ite}
use mathlib.Core.Bool.{Bool}
use mathlib.Core.Option.{Option, none, some}
use mathlib.Core.List.{List, [], ◌∷◌}
use native.Mathlib.Omega.{arith}
use juicity_rs.Base.Tests.{if◌then◌else◌, is_some}
use juicity_rs.Base.Lists.{length}

module _ {ℓ} {K V : Type ℓ} (dec : Discrete K) where
  -- `map.get(&k)`
  unfoldable pub find : K → List (K × V) → Option V
  find k [] = none
  find k ((j, v) ∷ m) = ite (dec j k) (some v) (find k m)

  -- `map.contains_key(&k)`
  abbrev pub has_key : K → List (K × V) → Bool
  has_key k m = is_some (find k m)

  -- `map.insert(k, v)`
  unfoldable pub put : K → V → List (K × V) → List (K × V)
  put k v [] = (k, v) ∷ []
  put k v ((j, w) ∷ m) = ite (dec j k) ((k, v) ∷ m) ((j, w) ∷ put k v m)

  -- `map.remove(&k)`
  unfoldable pub del : K → List (K × V) → List (K × V)
  del k [] = []
  del k ((j, w) ∷ m) = ite (dec j k) (del k m) ((j, w) ∷ del k m)

  pub find-put :
      (k q : K) (v : V) (m : List (K × V)) → find q (put k v m) ≡ ite (dec k q) (some v) (find q m)
  unfolding find put
  find-put k q v [] = refl
  find-put k q v ((j, w) ∷ m) = ground (arith, find-put k q v m)

  pub find-del : (k q : K) (m : List (K × V)) → find q (del k m) ≡ ite (dec k q) none (find q m)
  unfolding find del
  find-del k q [] = ground arith
  find-del k q ((j, w) ∷ m) = ground (arith, find-del k q m)

  pub length-put : (k : K) (v : V) (m : List (K × V)) → length (put k v m) ≤ length m + 1
  unfolding put
  length-put k v [] = omega arith
  length-put k v ((j, w) ∷ m) = ground (arith, length-put k v m)

  pub length-put_present :
      (k : K) (v w : V) (m : List (K × V)) → find k m ≡ some w → length (put k v m) ≡ length m
  unfolding put find
  length-put_present k v w [] h = ground arith
  length-put_present k v w ((j, x) ∷ m) h = ground (arith, length-put_present k v w m)

  pub length-del-le : (k : K) (m : List (K × V)) → length (del k m) ≤ length m
  unfolding del
  length-del-le k [] = omega arith
  length-del-le k ((j, w) ∷ m) = ground (arith, length-del-le k m)

  pub length-del-lt :
      (k : K) (v : V) (m : List (K × V)) → find k m ≡ some v → length (del k m) < length m
  unfolding del find
  length-del-lt k v [] h = ground arith
  length-del-lt k v ((j, w) ∷ m) h = ground (arith, length-del-lt k v m, length-del-le k m)

-- `map.retain(keep)`
module _ {ℓ} {A : Type ℓ} where
  unfoldable pub retain : (A → Bool) → List A → List A
  retain p [] = []
  retain p (x ∷ xs) = if p x then x ∷ retain p xs else retain p xs

  pub length-retain-le : (p : A → Bool) (xs : List A) → length (retain p xs) ≤ length xs
  unfolding retain
  length-retain-le p [] = omega arith
  length-retain-le p (x ∷ xs) = ground (arith, length-retain-le p xs)

module _ {ℓ} {K V : Type ℓ} (dec : Discrete K) where
  pub find-retain-none :
      (p : K × V → Bool) (k : K) (m : List (K × V))
      → find dec k m ≡ none
      → find dec k (retain p m) ≡ none
  unfolding find retain
  find-retain-none p k [] h = refl
  find-retain-none p k ((j, w) ∷ m) h = elim (dec j k) [
    | yes e ↦ absurd (ground arith)
    | no ne ↦ ground (arith, find-retain-none p k m)
  ]
