-- ===== src/Legacy/Batched.antt =====
-- legacy_outcome_reconciler.go: the batches are the ids, in order, and none is too large or empty.
use gas_city.Prelude.{
  length, All, Str, ℕ, zero, suc, ◌-◌, ◌≤◌, ◌<◌, ◌≡◌, refl, sym, ap, ◌∙◌, List, [], ◌∷◌, ◌++◌,
  arith,
}
use gas_city.Legacy.Batches.{batch_size, batches, batches_from}

abbrev pub joined : List (List Str) → List Str
joined [] = []
joined (b ∷ bs) = b ++ joined bs

-- A batch that a query can be asked for.
abbrev pub IsBatch : List Str → Type 0
IsBatch b = (0 < length b) × (length b ≤ batch_size)

-- What the cutting of a list makes: the rest of a batch, within its room, and batches.
record Cut (room : ℕ) (ids : List Str) : Type 0 where
  pub order : (batches_from room ids).0 ++ joined (batches_from room ids).1 ≡ ids
  pub first : length (batches_from room ids).0 ≤ room
  pub rest : All IsBatch (batches_from room ids).1

batches_from-Cut : (ids : List Str) (room : ℕ) → Cut room ids
unfolding batches_from
batches_from-Cut [] room = record { order = refl; first = omega arith; rest = tt }
batches_from-Cut (id ∷ ids) (suc room) =
    let c = batches_from-Cut ids room in
    record { order = ap (λ xs. id ∷ xs) c.order; first = omega (arith, c.first); rest = c.rest }
batches_from-Cut (id ∷ ids) zero =
    let c = batches_from-Cut ids (batch_size - 1) in
    record {
      order = ap (λ xs. id ∷ xs) c.order;
      first = omega arith;
      rest = ((omega arith, omega (arith, c.first)), c.rest);
    }

append_nothing : (xs ys : List Str) → length xs ≤ 0 → xs ++ ys ≡ ys
append_nothing [] ys h = refl
append_nothing (x ∷ xs) ys h = absurd (omega arith)

-- The batches, one after the other, are the ids; each has at least one and at most 256.
pub batches_split : (ids : List Str) → (joined (batches ids) ≡ ids) × All IsBatch (batches ids)
unfolding batches
batches_split ids =
    let c = batches_from-Cut ids 0 in
    (sym (append_nothing (batches_from 0 ids).0 _ c.first) ∙ c.order, c.rest)
