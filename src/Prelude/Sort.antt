-- ===== src/Prelude/Sort.antt =====
-- `sort.Slice` by a comparison, as an insertion sort: the result is in the order of the comparison and
-- has the same elements.
use mathlib.Core.List.{List, [], ◌∷◌, Perm}
use mathlib.Core.List.Perm
use mathlib.Core.Path.{◌≡◌, refl}
use gas_city.Prelude.Lists.{length}
use Prim.Native.Nat.{suc}
use mathlib.Core.Bool.{Bool, true, false}
use mathlib.Core.Logic.{inl, inr}
use native.Mathlib.Omega.{arith}
use gas_city.Prelude.Tests.{if◌then◌else◌, Bool-cases}

module _ {ℓ} {A : Type ℓ} (less : A → A → Bool) where
  unfoldable pub place : A → List A → List A
  place x [] = x ∷ []
  place x (y ∷ ys) = let rest = place x ys in if less y x then y ∷ rest else x ∷ y ∷ ys

  unfoldable pub sort_by : List A → List A
  unfolding place
  sort_by [] = []
  sort_by (x ∷ xs) = place x (sort_by xs)

  -- Each element may stand before the next.
  abbrev pub Sorted : List A → Type 0
  Sorted [] = Unit
  Sorted (x ∷ []) = Unit
  Sorted (x ∷ y ∷ ys) = (less y x ≡ false) × Sorted (y ∷ ys)

  place-perm : (x : A) (ys : List A) → Perm (place x ys) (x ∷ ys)
  unfolding place
  place-perm x [] = Perm.refl (x ∷ [])
  place-perm x (y ∷ ys) = elim (Bool-cases (less y x)) [
    | inl before ↦ rw before (Perm.trans (Perm.cons y (place-perm x ys)) (Perm.swap x y ys))
    | inr after ↦ rw after (Perm.refl (x ∷ y ∷ ys))
  ]

  pub sort_by-perm : (xs : List A) → Perm (sort_by xs) xs
  unfolding sort_by
  sort_by-perm [] = Perm.refl []
  sort_by-perm (x ∷ xs) = Perm.trans (place-perm x (sort_by xs)) (Perm.cons x (sort_by-perm xs))

  length-place : (x : A) (ys : List A) → length (place x ys) ≡ suc (length ys)
  unfolding place
  length-place x [] = refl
  length-place x (y ∷ ys) = ground (arith, length-place x ys)

  pub length-sort_by : (xs : List A) → length (sort_by xs) ≡ length xs
  unfolding sort_by
  length-sort_by [] = refl
  length-sort_by (x ∷ xs) = omega (arith, length-place x (sort_by xs), length-sort_by xs)

  module _ (asym : (x y : A) → less x y ≡ true → less y x ≡ false) where
    place-Sorted : (x : A) (ys : List A) → Sorted ys → Sorted (place x ys)
    unfolding place
    place-Sorted x [] h = tt
    place-Sorted x (y ∷ []) h = ground (arith, asym y x)
    place-Sorted x (y ∷ z ∷ ys) h = ground (arith, asym y x, place-Sorted x (z ∷ ys))

    pub sort_by-Sorted : (xs : List A) → Sorted (sort_by xs)
    unfolding sort_by
    sort_by-Sorted [] = tt
    sort_by-Sorted (x ∷ xs) = place-Sorted x (sort_by xs) (sort_by-Sorted xs)
