-- ===== src/Examples/Listing.antt =====
-- Runs of the listing of pending outcomes.
use gas_city.Legacy.Listing.{with_found}
use gas_city.Prelude.{
  if◌then◌else◌, All, ◌==◌, nat_eq, Str, Str-discrete, text_eq, int_eq, text, lookup, pos, ℕ, zero,
  ◌-◌, ◌≡◌, refl, ap, ◌∙◌, false, not, Option, none, some, List, [], ◌∷◌, ℕ_discrete, Sorted,
}
use gas_city.Legacy.Metadata.{string}
use gas_city.Errors.{◌>>=◌, Result, ok, err, transition_not_found}
use gas_city.Outcomes.Envelope
use gas_city.Outcomes.Records.{OutcomeRecord}
use gas_city.Legacy.Transition.{Decoding, Rows}
use gas_city.Legacy.Listing.{pending_outcomes, read_rows, outcome_less, outcome_in_row}
use gas_city.Canonical.Outbox.{pending_record}
use gas_city.Examples.Outcome.{outcome, outcome_valid}
use gas_city.Canonical.Issue.{outcome_record_from}
use gas_city.Contracts.Event.{is_zero}
use gas_city.Legacy.Listed.{IsRead, pending_outcomes-IsRead}

abbrev early : OutcomeRecord
early = pending_record outcome 4

abbrev late : OutcomeRecord
late = pending_record outcome 6

-- A row holds the text of its outbox alone; the text "late" is that of the later record.
abbrev decoding : Decoding
decoding = record {
  metadata = λ raw. ok (some ((text "gc.coordinator_outcome.outbox", string raw) ∷ []));
  snapshot = λ _. ok (text "open", none);
  value = λ _. err transition_not_found;
  outbox = λ raw. ok (if raw == text "late" then late else early);
  receipt = λ _. err transition_not_found;
  disposition = λ _. err transition_not_found;
  time = λ _. ok 9;
}

abbrev query : Result (Rows Str)
query =
    ok (record {
      rows = ok (text "late") ∷ ok (text "early") ∷ [];
      iterated = ok tt;
      closed = ok tt;
    })

reads_early : outcome_in_row decoding (text "early") ≡ ok (some early)
unfolding outcome_in_row outcome_record_from gas_city.Prelude.Str-discrete
    gas_city.Legacy.Metadata.metadata_string gas_city.Prelude.lookup
reads_early = rw (outcome_valid) refl

reads_late : outcome_in_row decoding (text "late") ≡ ok (some late)
unfolding outcome_in_row outcome_record_from gas_city.Prelude.Str-discrete
    gas_city.Legacy.Metadata.metadata_string gas_city.Prelude.lookup
reads_late = rw (outcome_valid) refl

found_first :
    {A : Type 0} (read : Str → Result (Option A)) (raw : Str) (rows : List (Result Str)) (a : A)
    (xs : List A)
    → read raw ≡ ok (some a)
    → read_rows read rows ≡ ok xs
    → read_rows read (ok raw ∷ rows) ≡ ok (a ∷ xs)
unfolding read_rows
found_first {A = A} read raw rows a xs h k =
    ap
      (λ m. elim m as (λ _. Result (List A)) [
        | err e ↦ err e
        | ok b ↦ (read_rows read rows >>= λ ys. ok (with_found b ys))
      ])
      h
    ∙ ap (λ m. m >>= λ ys. ok (with_found (some a) ys)) k

nothing_more : read_rows (outcome_in_row decoding) [] ≡ ok []
unfolding read_rows
nothing_more = refl

reads_rows :
    read_rows (outcome_in_row decoding) (ok (text "late") ∷ ok (text "early") ∷ [])
    ≡ ok (late ∷ early ∷ [])
reads_rows =
    found_first (outcome_in_row decoding) (text "late") (ok (text "early") ∷ []) late (early ∷ [])
      reads_late
      (found_first (outcome_in_row decoding) (text "early") [] early [] reads_early nothing_more)

lists : pending_outcomes decoding query ≡ ok (early ∷ late ∷ [])
unfolding pending_outcomes gas_city.Prelude.sort_by outcome_less gas_city.Prelude.ℕ_discrete
lists = rw (reads_rows) refl

pending_outcomes-IsRead_example :
    Sorted outcome_less (early ∷ late ∷ [])
    × All
        (λ (r : OutcomeRecord).
          (Envelope.validate r.envelope ≡ ok tt) × (is_zero r.pending_at ≡ false))
        (early ∷ late ∷ [])
    × IsRead (outcome_in_row decoding) query (early ∷ late ∷ [])
pending_outcomes-IsRead_example = pending_outcomes-IsRead decoding query (early ∷ late ∷ []) lists
