-- ===== src/Prelude/Maps.antt =====
-- Go maps with string keys, as association lists. A new key goes to the end.
use mathlib.Core.Path.{◌≡◌, refl}
use mathlib.Core.Option
use mathlib.Core.Option.{Option, none, some}
use mathlib.Core.List.{List, [], ◌∷◌}
use native.Mathlib.Omega.{arith}
use gas_city.Prelude.Tests.{if◌then◌else◌}
use gas_city.Prelude.Equality.{Str, ◌==◌, text_eq, ==-refl}

abbrev pub Map {ℓ} : Type ℓ → Type ℓ
Map V = List (Str × V)

module _ {ℓ} {V : Type ℓ} where
  -- m[k], with a second result that says whether the key is there.
  unfoldable pub lookup : Str → Map V → Option V
  lookup k [] = none
  lookup k ((j, v) ∷ m) = if j == k then some v else lookup k m

  -- m[k] = v
  unfoldable pub insert : Str → V → Map V → Map V
  insert k v [] = (k, v) ∷ []
  insert k v ((j, w) ∷ m) = if j == k then (k, v) ∷ m else (j, w) ∷ insert k v m

  -- for k, v := range m { m[k] = f(k, v) }: no key is added, so the order does not matter.
  unfoldable pub update_all : (Str → V → V) → Map V → Map V
  update_all f [] = []
  update_all f ((k, v) ∷ m) = (k, f k v) ∷ update_all f m

  -- Every entry of `n` is written into `m`, as `json.Unmarshal` does into a map that exists.
  unfoldable pub merge : Map V → Map V → Map V
  merge m [] = m
  merge m ((k, v) ∷ n) = insert k v (merge m n)

  pub lookup-insert :
      (k j : Str) (v : V) (m : Map V)
      → lookup j (insert k v m) ≡ (if k == j then some v else lookup j m)
  unfolding lookup insert
  lookup-insert new wanted v [] = refl
  lookup-insert new wanted v ((k, old) ∷ m) = ground (arith, lookup-insert new wanted v m)

  pub lookup-update_all :
      (f : Str → V → V) (j : Str) (m : Map V)
      → lookup j (update_all f m) ≡ Option.map (f j) (lookup j m)
  unfolding lookup update_all
  lookup-update_all f j [] = refl
  lookup-update_all f j ((k, v) ∷ m) = ground (arith, lookup-update_all f j m)

  pub lookup-merge :
      (j : Str) (m n : Map V)
      → lookup j (merge m n) ≡ elim (lookup j n) [ some v ↦ some v | none ↦ lookup j m ]
  unfolding lookup merge
  lookup-merge j m [] = refl
  lookup-merge j m ((k, v) ∷ n) =
      ground (arith, lookup-merge j m n, lookup-insert k j v (merge m n))

  -- A key that the new entries lack keeps its value.
  pub lookup-merge_miss :
      (j : Str) (m n : Map V) → lookup j n ≡ none → lookup j (merge m n) ≡ lookup j m
  lookup-merge_miss j m n h = rw (lookup-merge, h)

  pub lookup-insert_self : (k : Str) (v : V) (m : Map V) → lookup k (insert k v m) ≡ some v
  lookup-insert_self k v m = rw (lookup-insert, ==-refl)
