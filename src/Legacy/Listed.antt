-- ===== src/Legacy/Listed.antt =====
-- outcome_store.go and dolt_bead_store.go: a listing is in order, complete, and of valid items.
use mathlib.Core.List.{Perm}
use gas_city.Outcomes.Envelope
use gas_city.Prelude.{
  some_eq, if_cases, true_not_false, all, All, Str, ◌≡◌, refl, sym, ap, subst, ◌∙◌, Bool, true,
  false, not, Option, none, some, List, [], ◌∷◌, arith, place, sort_by, Sorted, sort_by-Sorted,
  sort_by-perm,
}
use gas_city.Errors.{
  ◌>>=◌, wrap, >>-ok, err_not_ok, >>=-ok, wrap-ok, ok_eq, require-ok, Result, ok, err,
  outbox_invalid, rows_failed,
}
use gas_city.Canonical.Issue.{blank, malformed, coded, outcome_record_from, Coded, state_known}
use gas_city.Legacy.Listing.{
  read_rows, outcome_less, pending_outcomes, listing, outcome_in_row, with_found,
}
use gas_city.Outcomes.Records.{OutcomeRecord}
use gas_city.Legacy.Transition.{Decoding, Rows}
use gas_city.Contracts.Event.{is_zero}
use gas_city.FileStore.Pending.{text_less-asym}
use gas_city.Legacy.Discover.{decode_metadata}
use gas_city.Legacy.Suppression.{record_in}

module _ {ℓ κ} {A : Type ℓ} (P : A → Type κ) where
  found-All :
      (a : Option A) (xs : List A)
      → ((x : A) → a ≡ some x → P x)
      → All P xs
      → All P (with_found a xs)
  found-All none xs one all = all
  found-All (some x) xs one all = (one x refl, all)

  read_rows-All :
      (read : Str → Result (Option A)) (rows : List (Result Str)) (xs : List A)
      → ((raw : Str) (x : A) → read raw ≡ ok (some x) → P x)
      → read_rows read rows ≡ ok xs
      → All P xs
  unfolding read_rows
  read_rows-All read [] xs one h = subst (All P) (ok_eq h) tt
  read_rows-All read (err e ∷ rows) xs one h = absurd (err_not_ok h)
  read_rows-All read (ok raw ∷ rows) xs one h =
      go (read raw) refl h (λ ys. read_rows-All read rows ys one)
    where
      go :
          (m : Result (Option A))
          → read raw ≡ m
          → (elim m as (λ _. Result (List A)) [
            | err e ↦ err e
            | ok a ↦ (read_rows read rows >>= λ ys. ok (with_found a ys))
          ])
            ≡ ok xs
          → ((ys : List A) → read_rows read rows ≡ ok ys → All P ys)
          → All P xs
      go (err e) same k later = absurd (err_not_ok k)
      go (ok a) same k later =
          let (ys, rest, k') = >>=-ok (read_rows read rows) _ k in
          subst (All P) (ok_eq k')
            (found-All a ys (λ x here. one raw x (same ∙ ap ok here)) (later ys rest))

  place-All : (less : A → A → Bool) (x : A) (ys : List A) → P x → All P ys → All P (place less x ys)
  unfolding place
  place-All less x [] one rest = (one, rest)
  place-All less x (y ∷ ys) one (first, rest) =
      if_cases (All P) (less y x) _ _ (λ _. (first, place-All less x ys one rest))
        (λ _. (one, (first, rest)))

  sort_by-All : (less : A → A → Bool) (xs : List A) → All P xs → All P (sort_by less xs)
  unfolding sort_by
  sort_by-All less [] all = tt
  sort_by-All less (x ∷ xs) (one, all) =
      place-All less x (sort_by less xs) one (sort_by-All less xs all)

-- The rows that the query answers hold these items, up to order.
abbrev pub IsRead {ℓ} :
    {A : Type ℓ} → (Str → Result (Option A)) → Result (Rows Str) → List A → Type ℓ
IsRead {A = A} read query xs =
    (answer : Rows Str) × (found : List A) × (query ≡ ok answer)
    × (read_rows read answer.rows ≡ ok found)
    × Perm xs found

listing-IsRead {ℓ κ} :
    {A : Type ℓ} (P : A → Type κ) (less : A → A → Bool) (read : Str → Result (Option A))
    (query : Result (Rows Str)) (xs : List A)
    → ((x y : A) → less x y ≡ true → less y x ≡ false)
    → ((raw : Str) (x : A) → read raw ≡ ok (some x) → P x)
    → listing less read query ≡ ok xs
    → Sorted less xs × All P xs × IsRead read query xs
listing-IsRead {A = A} P less read query xs asym valid h =
    let (answer, k1, h1) = >>=-ok (wrap (rows_failed "query") query) _ h in
    let (found, k2, h2) = >>=-ok (read_rows read answer.rows) _ h1 in
    let (_, h3) =
      >>-ok (wrap (rows_failed "iterate") answer.iterated) (ok (sort_by less found)) h2 in
    subst (λ (ys : List A). Sorted less ys × All P ys × IsRead read query ys) (ok_eq h3)
      (
        sort_by-Sorted less asym found,
        sort_by-All P less found (read_rows-All P read answer.rows found valid k2),
        (answer, found, wrap-ok (rows_failed "query") query k1, k2, sort_by-perm less found),
      )

outcome_less-asym : (a b : OutcomeRecord) → outcome_less a b ≡ true → outcome_less b a ≡ false
unfolding outcome_less
outcome_less-asym a b h = ground (arith, text_less-asym a.envelope.outcome_id b.envelope.outcome_id)

recorded_valid :
    (c : Coded OutcomeRecord) (r : OutcomeRecord)
    → outcome_record_from c ≡ ok (some r)
    → (Envelope.validate r.envelope ≡ ok tt) × (is_zero r.pending_at ≡ false)
unfolding outcome_record_from
recorded_valid blank r h = absurd (ground arith)
recorded_valid malformed r h = absurd (ground arith)
recorded_valid (coded q) r h =
    let (valid, h1) = >>-ok (wrap outbox_invalid (Envelope.validate q.envelope)) _ h in
    let (_, h2) = require-ok (state_known q.state) _ _ h1 in
    let (dated, h3) = require-ok (not (is_zero q.pending_at)) _ _ h2 in
    subst
      (λ (x : OutcomeRecord).
        (Envelope.validate x.envelope ≡ ok tt) × (is_zero x.pending_at ≡ false))
      (some_eq (ok_eq h3))
      (
        wrap-ok outbox_invalid (Envelope.validate q.envelope) valid,
        not_true (is_zero q.pending_at) dated,
      )
  where
    not_true : (b : Bool) → not b ≡ true → b ≡ false
    not_true false k = refl
    not_true true k = absurd (true_not_false (sym k))

-- PendingOutcomes, where it answers: the records are in the order of their times and ids, have valid
-- envelopes and are dated, and are those that the rows of its query hold.
pub pending_outcomes-IsRead :
    (d : Decoding) (query : Result (Rows Str)) (rs : List OutcomeRecord)
    → pending_outcomes d query ≡ ok rs
    → Sorted outcome_less rs
      × All
          (λ (r : OutcomeRecord).
            (Envelope.validate r.envelope ≡ ok tt) × (is_zero r.pending_at ≡ false))
          rs
      × IsRead (outcome_in_row d) query rs
unfolding pending_outcomes outcome_in_row
pending_outcomes-IsRead d query rs h =
    listing-IsRead _ outcome_less (outcome_in_row d) query rs outcome_less-asym
      (λ raw r k.
        let (m, _, k') = >>=-ok (decode_metadata d raw) (record_in d) k in recorded_valid _ r k')
      h
