-- ===== src/Legacy/Finalized.antt =====
-- legacy_outcome_reconciler.go: an issue that holds a finalization yields no further envelope.
use gas_city.Legacy.Discover.{no_outcome, judge, is_covered, fails}
use gas_city.Prelude.{Str, ◌≡◌, refl, ◌⊎◌, inl, inr, false}
use gas_city.Errors.{Check-cases, Error, finalization_refused}
use gas_city.Legacy.Metadata.{LegacyIssue, LegacyEvent, LegacyFailure}
use gas_city.Legacy.Suppression.{is_finalization, has_no_finalization, check_finalization}
use gas_city.Legacy.Transition.{Decoding}
use gas_city.Legacy.Excluded.{Finalizes, check_finalization-Finalizes}

-- The failure that names the issue, the transition and what was wrong with the finalization.
abbrev pub refusal : LegacyIssue → LegacyEvent → Error → LegacyFailure
refusal i e error = record {
  work_id = i.id;
  transition_id = e.id;
  transition_at = e.created_at;
  error = finalization_refused error;
}

-- Where the metadata of an issue or of its event holds a finalization, and no outcome covers the
-- event: the event is the exact close of an acknowledged generation and is passed over, or the answer
-- is a failure that names the issue and the event. It is never an envelope.
pub judge_finalized :
    (d : Decoding) (store_ref : Str) (i : LegacyIssue) (e : LegacyEvent)
    → has_no_finalization i e ≡ false
    → is_covered i.existing e ≡ false
    → ((judge d store_ref i e ≡ no_outcome) × Finalizes d i e)
      ⊎ ((error : Error) × (judge d store_ref i e ≡ fails (refusal i e error)))
unfolding judge is_finalization
judge_finalized d store_ref i e held open_ = elim (Check-cases (check_finalization d i e)) [
  | inl exact ↦ inl (rw (open_, held, exact) refl, check_finalization-Finalizes d i e exact)
  | inr (error, wrong) ↦ inr (error, rw (open_, held, wrong) refl)
]
