-- ===== src/Legacy/Listing.antt =====
-- outcome_store.go and dolt_bead_store.go: the listings of what is pending, from the metadata of the
-- issues that a query answers; and FindSilentOutcomes.
use gas_city.Prelude.{
  ltb, if◌then◌else◌, ◌==◌, nat_eq, Str, text_eq, int_eq, text, Bool, true, false, Option, none,
  some, List, [], ◌∷◌, ◌++◌, map, sort_by,
}
use gas_city.Errors.{◌>>=◌, ◌>>◌, wrap, Error, Result, ok, err, rows_failed}
use gas_city.Outcomes.Envelope.{verified, EvidenceState, OutcomeReady}
use gas_city.Legacy.Transition.{Decoding, Rows}
use gas_city.Outcomes.Records.{OutcomeRecord}
use gas_city.Legacy.Metadata.{LegacyFailure, coded_at}
use gas_city.Legacy.Discover.{discover_legacy_outcomes, decode_metadata, Discovery}
use gas_city.Contracts.Event.{Time, ReadyEvent}
use gas_city.FileStore.Operations.{text_less, event_less}
use gas_city.Legacy.Suppression.{record_in}
use gas_city.Canonical.Issue.{ready_event_from}

abbrev pub with_found {ℓ} : {A : Type ℓ} → Option A → List A → List A
with_found none rest = rest
with_found (some a) rest = a ∷ rest

-- The loop over the rows, where a row holds something or nothing, and an error ends the loop.
unfoldable pub read_rows {ℓ} :
    {A : Type ℓ} → (Str → Result (Option A)) → List (Result Str) → Result (List A)
read_rows read [] = ok []
read_rows read (err x ∷ rows) = err (rows_failed "scan" x)
read_rows read (ok raw ∷ rows) =
    let rest = read_rows read rows in
    elim (read raw) [ err e ↦ err e | ok a ↦ (rest >>= λ xs. ok (with_found a xs)) ]

-- The order of PendingOutcomes: the time, then the outcome id.
unfoldable pub outcome_less : OutcomeRecord → OutcomeRecord → Bool
outcome_less a b =
    if a.pending_at == b.pending_at
    then text_less a.envelope.outcome_id b.envelope.outcome_id
    else ltb a.pending_at b.pending_at

-- A listing: the query, the loop over its rows, the end of the iteration, and the sort.
abbrev pub listing {ℓ} :
    {A : Type ℓ} → (A → A → Bool) → (Str → Result (Option A)) → Result (Rows Str) → Result (List A)
listing less read query = do
  answer ← wrap (rows_failed "query") query
  found ← read_rows read answer.rows
  wrap (rows_failed "iterate") answer.iterated
  ok (sort_by less found)

unfoldable pub outcome_in_row : Decoding → Str → Result (Option OutcomeRecord)
outcome_in_row d raw = decode_metadata d raw >>= record_in d

-- PendingOutcomes, on the answer of its query.
unfoldable pub pending_outcomes : Decoding → Result (Rows Str) → Result (List OutcomeRecord)
unfolding read_rows outcome_less
pending_outcomes d query = listing outcome_less (outcome_in_row d) query

abbrev pub event_in_row : Decoding → (Str → Result ReadyEvent) → Str → Result (Option ReadyEvent)
event_in_row d decode raw = do
  m ← decode_metadata d raw
  event ← ready_event_from (coded_at decode m (text "gc.temporal.ready_event"))
  ok (some event)

-- PendingReadyEvents of the Dolt store, on the answer of its query; `decode` is what an event's JSON
-- text decodes to.
unfoldable pub canonical_pending_events :
    Decoding → (Str → Result ReadyEvent) → Result (Rows Str) → Result (List ReadyEvent)
unfolding read_rows
canonical_pending_events d decode query = listing event_less (event_in_row d decode) query

-- The reason of a silent outcome, with the error of a malformed candidate.
pub data SilentReason : Type 0 where
  terminal_without_envelope verified_without_envelope : SilentReason
  malformed_outcome_candidate : Error → SilentReason

-- SilentOutcome
pub record SilentOutcome : Type 0 where
  pub store_ref : Str
  pub work_id : Str
  pub reason : SilentReason
  pub transition_id : Str
  pub transition_at : Time

abbrev is_verified : EvidenceState → Bool
is_verified verified = true
is_verified _ = false

abbrev pub silent_envelope : OutcomeReady → SilentOutcome
silent_envelope o = record {
  store_ref = o.store_ref;
  work_id = o.work_id;
  reason = if is_verified o.state then verified_without_envelope else terminal_without_envelope;
  transition_id = o.fence.token;
  transition_at = o.occurred_at;
}

abbrev pub silent_failure : Str → LegacyFailure → SilentOutcome
silent_failure store_ref f = record {
  store_ref = store_ref;
  work_id = f.work_id;
  reason = malformed_outcome_candidate f.error;
  transition_id = f.transition_id;
  transition_at = f.transition_at;
}

-- FindSilentOutcomes
unfoldable pub find_silent_outcomes : Discovery → Result (List SilentOutcome)
unfolding discover_legacy_outcomes
find_silent_outcomes s = do
  found ← discover_legacy_outcomes s
  ok (map silent_envelope found.0 ++ map (silent_failure s.store_ref) found.1)
