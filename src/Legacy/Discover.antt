-- ===== src/Legacy/Discover.antt =====
-- legacy_outcome_reconciler.go: DiscoverLegacyOutcomes.
use gas_city.Prelude.{
  ltb, if◌then◌else◌, length, ◌==◌, nat_eq, Str, text_eq, int_eq, text, Map, lookup, Bool, true,
  false, ◌||◌, not, Option, none, some, List, [], ◌∷◌, ◌++◌,
}
use gas_city.Errors.{
  Check, ◌>>=◌, ◌>>◌, require, wrap, Error, Result, ok, err, rollout_epoch_required,
  legacy_store_ref, rows_failed, candidate_unreadable, finalization_refused, disposition_refused,
  transition_failures, transition_not_found,
}
use gas_city.Contracts.Event.{is_zero, Time}
use gas_city.Legacy.Metadata.{
  LegacyFailure, LegacyIssue, Metadata, is_non_terminal_step, issue_is_synthetic, LegacyEvent,
  has_outcome,
}
use gas_city.Outcomes.Records.{OutcomeRecord}
use gas_city.Legacy.Transition.{Decoding, is_null, Rows, or_empty}
use gas_city.Outcomes.Envelope.{OutcomeReady, validate_store_ref}
use gas_city.Legacy.Batches.{EventQuery, transition_events}
use gas_city.Legacy.Suppression.{is_finalization, record_in, is_dispositioned}
use gas_city.Legacy.Envelopes.{legacy_envelope}

-- A row of the query for candidates.
pub record CandidateRow : Type 0 where
  pub id : Str
  pub title : Str
  pub issue_type : Str
  pub status : Str
  pub close_reason : Str
  pub metadata : Str
  pub has_downstream_formula_step : Bool

-- What the store is set up with, and what its database answers.
pub record Discovery : Type 0 where
  pub decoding : Decoding
  pub rollout_epoch : Time
  pub store_ref : Str
  pub time_zone_verified : Check
  pub candidates : Result (Rows CandidateRow)
  pub events : EventQuery

-- What a row of a candidate comes to.
pub data Sifted : Type 0 where
  candidate : LegacyIssue → Sifted
  malformed_candidate : LegacyFailure → Sifted
  skipped : Sifted

-- decodeMetadata
abbrev pub decode_metadata : Decoding → Str → Result Metadata
decode_metadata d raw = if is_null raw then ok [] else (d.metadata raw >>= λ m. ok (or_empty m))

abbrev pub issue_of : CandidateRow → Metadata → Option OutcomeRecord → LegacyIssue
issue_of row m existing = record {
  id = row.id;
  title = row.title;
  issue_type = row.issue_type;
  status = row.status;
  close_reason = row.close_reason;
  metadata = m;
  has_downstream_formula_step = row.has_downstream_formula_step;
  existing = existing;
}

abbrev pub row_failure : CandidateRow → Error → LegacyFailure
row_failure row e = record { work_id = row.id; transition_id = []; transition_at = 0; error = e }

-- The last tests of a row.
abbrev pub sift_issue : LegacyIssue → Sifted
sift_issue i =
    if is_non_terminal_step i || not (has_outcome i.status i.metadata) then skipped else candidate i

-- The body of the loop over the rows of candidates.
unfoldable pub sift : Decoding → CandidateRow → Sifted
sift d row = elim (decode_metadata d row.metadata) [
  | err e ↦
      if row.status == text "closed"
      then malformed_candidate (row_failure row (candidate_unreadable "metadata" e))
      else skipped
  | ok m ↦ if issue_is_synthetic (issue_of row m none) then skipped else elim (record_in d m) [
    | err e ↦ malformed_candidate (row_failure row (candidate_unreadable "existing outcome" e))
    | ok existing ↦ sift_issue (issue_of row m existing)
  ]
]

abbrev pub take_sifted :
    Sifted → List LegacyIssue × List LegacyFailure → List LegacyIssue × List LegacyFailure
take_sifted (candidate i) (is, fs) = (is ++ (i ∷ []), fs)
take_sifted (malformed_candidate f) (is, fs) = (is, fs ++ (f ∷ []))
take_sifted skipped s = s

-- The loop over the rows of candidates.
unfoldable pub sift_rows :
    Decoding
    → List (Result CandidateRow)
    → List LegacyIssue × List LegacyFailure
    → Result (List LegacyIssue × List LegacyFailure)
unfolding sift
sift_rows d [] s = ok s
sift_rows d (err e ∷ rows) s = err (rows_failed "scan candidate" e)
sift_rows d (ok row ∷ rows) s = sift_rows d rows (take_sifted (sift d row) s)

-- What a candidate with its event comes to.
pub data Verdict : Type 0 where
  emits : OutcomeReady → Verdict
  fails : LegacyFailure → Verdict
  no_outcome : Verdict

-- The outcome that exists is of this event, or of a later one.
abbrev pub is_covered : Option OutcomeRecord → LegacyEvent → Bool
is_covered none e = false
is_covered (some r) e =
    e.id == r.envelope.fence.token || not (ltb r.envelope.occurred_at e.created_at)

abbrev transition_failure : LegacyIssue → LegacyEvent → Error → Verdict
transition_failure i e error =
    fails
      (record { work_id = i.id; transition_id = e.id; transition_at = e.created_at; error = error })

-- One of the two tests for a transition that is no outcome, and the rest.
abbrev pub unless_excluded :
    (Error → Error) → LegacyIssue → LegacyEvent → Result Bool → Verdict → Verdict
unless_excluded refused i e (err error) rest = transition_failure i e (refused error)
unless_excluded refused i e (ok true) rest = no_outcome
unless_excluded refused i e (ok false) rest = rest

abbrev pub envelope_verdict : LegacyIssue → LegacyEvent → Result OutcomeReady → Verdict
envelope_verdict i e (ok o) = emits o
envelope_verdict i e (err error) = transition_failure i e error

-- The body of the loop over the candidates.
unfoldable pub judge : Decoding → Str → LegacyIssue → LegacyEvent → Verdict
judge d store_ref i e =
    if is_covered i.existing e
    then no_outcome
    else unless_excluded finalization_refused i e (is_finalization d i e) (
        unless_excluded disposition_refused i e (is_dispositioned d i e)
          (envelope_verdict i e (legacy_envelope store_ref i e)))

-- The envelopes and the failures so far.
abbrev pub Found : Type 0
Found = List OutcomeReady × List LegacyFailure

abbrev pub take_verdict : Verdict → Found → Found
take_verdict (emits o) (os, fs) = (os ++ (o ∷ []), fs)
take_verdict (fails f) (os, fs) = (os, fs ++ (f ∷ []))
take_verdict no_outcome found = found

abbrev pub verdict_for : Decoding → Str → Map LegacyEvent → LegacyIssue → Verdict
verdict_for d store_ref events i = elim (lookup i.id events) [
  | none ↦ no_outcome
  | some e ↦ judge d store_ref i e
]

-- The loop over the candidates.
unfoldable pub judge_all : Decoding → Str → Map LegacyEvent → List LegacyIssue → Found → Found
unfolding judge
judge_all d store_ref events [] found = found
judge_all d store_ref events (i ∷ is) found =
    judge_all d store_ref events is (take_verdict (verdict_for d store_ref events i) found)

abbrev pub ids_of : List LegacyIssue → List Str
ids_of [] = []
ids_of (i ∷ is) = i.id ∷ ids_of is

-- DiscoverLegacyOutcomes; the failures are those of its `legacyOutcomeDiscoveryError`, which is nil
-- where there are none.
unfoldable pub discover_legacy_outcomes : Discovery → Result Found
unfolding sift_rows judge_all
discover_legacy_outcomes s = do
  require (not (is_zero s.rollout_epoch)) rollout_epoch_required
  wrap legacy_store_ref (validate_store_ref s.store_ref)
  s.time_zone_verified
  answer ← wrap (rows_failed "query candidates") s.candidates
  sifted ← sift_rows s.decoding answer.rows ([], [])
  wrap (rows_failed "iterate candidates") answer.iterated
  wrap (rows_failed "close candidates") answer.closed
  selection ← transition_events s.decoding s.events (ids_of sifted.0)
  ok (judge_all s.decoding s.store_ref selection.0 sifted.0 ([], sifted.1 ++ selection.1))

-- legacyOutcomeTransitionEvent
unfoldable pub transition_event : Decoding → EventQuery → Str → Result LegacyEvent
transition_event d query id = do
  selection ← transition_events d query (id ∷ [])
  require (length selection.1 == 0) transition_failures
  elim (lookup id selection.0) [ some e ↦ ok e | none ↦ err transition_not_found ]
