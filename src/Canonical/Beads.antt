-- ===== src/Canonical/Beads.antt =====
-- dolt_bead_store.go: what the operations on beads decide from an issue.
use gas_city.Outcomes.Completed.{temporal_completion_outcome}
use gas_city.Contracts.Formula.{formula_eq}
use gas_city.Contracts.Payloads.{outcome_eq}
use gas_city.Prelude.{
  if◌then◌else◌, ◌==◌, ◌!=◌, nat_eq, Str, text_eq, ltb_ℤ, leb_ℤ, int_eq, ℤ, text, pos, Bool, true,
  false, ◌&&◌, ◌||◌, not, Option, none, some, [], ◌∷◌, ◌++◌,
}
use gas_city.Errors.{
  Check, ◌>>=◌, ◌>>◌, require, wrap, check_all, Result, ok, err, generation_not_positive,
  bead_not_found, stale_fence, different_formula_snapshot, completion_conflict,
  completion_outcome_invalid, ready_event_invalid, different_run, source_workflow_mismatch,
  outcome_not_built, attempt_not_positive,
}
use gas_city.Contracts.Event.{ReadyEvent, Time}
use gas_city.Contracts.Payloads
use gas_city.Contracts.Payloads.{no_outcome, ClaimRequest, Completion, AttemptFailure, ClaimLease}
use gas_city.Contracts.Artifact
use gas_city.Canonical.Issue.{
  blank, coded, Issue, ready_event_from, record_of, Coded, set_outcome, outcome_record_from,
}
use gas_city.Canonical.Transaction.{Change, replies, updates}
use gas_city.FileStore.Operations.{
  is_ready, is_claimed, is_completed, claimed_by, same_result, has_failure,
}
use gas_city.FileStore.Records.{BeadRecord, lease_from_record, matches_fence, claim_token}
use gas_city.Outcomes.Envelope.{OutcomeReady}
use gas_city.Contracts.Identifiers.{
  current_contract_version, validate_segment, validate_workflow_id,
}
use gas_city.Outcomes.Records.{OutcomeRecord, outcomes_equal}
use gas_city.Canonical.Outbox.{pending_record, validate_supersession}

-- What is decided from the record of an issue, where it can be read.
abbrev pub on_record {ℓ} : {A : Type ℓ} → Result BeadRecord → (BeadRecord → Change A) → Change A
on_record (ok r) decide = decide r
on_record (err e) decide = replies (err e)

-- The generation of an issue; one that was never enrolled has 0.
abbrev generation_of : Result BeadRecord → Result ℤ
generation_of (ok r) = ok r.generation
generation_of (err bead_not_found) = ok (pos 0)
generation_of (err e) = err e

-- clearGenerationMetadata, the new metadata and the columns of TransitionReady.
abbrev pub ready_row : ReadyEvent → Issue → Issue
ready_row event i = record i {
  status = text "open";
  contract_version = coded current_contract_version;
  city_id = event.city_id;
  run_id = event.run_id;
  generation = coded event.generation;
  workflow_id = [];
  claim_token = [];
  session_id = [];
  outcome = no_outcome;
  artifact_refs = coded [];
  attempt_failures = coded [];
  ready_event = coded event;
  ready_event_id = event.event_id;
  ready_acknowledged_at = blank;
}

-- TransitionReady where the issue has this generation.
abbrev repeated_event : ReadyEvent → Result ReadyEvent → Result ReadyEvent
repeated_event event (err e) = err (ready_event_invalid e)
repeated_event event (ok stored) =
    if not (stored.event_id == event.event_id)
    then err different_run
    else if not (stored.formula == event.formula)
    then err different_formula_snapshot
    else ok stored

abbrev decide_ready : ReadyEvent → Result ℤ → Issue → Change ReadyEvent
decide_ready event (err e) i = replies (err e)
decide_ready event (ok generation) i =
    if ltb_ℤ event.generation generation
    then replies (err stale_fence)
    else if generation == event.generation
    then replies (repeated_event event (ready_event_from i.ready_event))
    else updates (ready_row event i) event

-- The body of TransitionReady.
unfoldable pub ready_body : ReadyEvent → Issue → Change ReadyEvent
ready_body event i = decide_ready event (generation_of (record_of event.bead_id i)) i

abbrev pub claimed_row : ClaimRequest → Issue → Issue
claimed_row q i = record i {
  status = text "in_progress";
  workflow_id = q.workflow_id;
  claim_token = claim_token q;
}

abbrev pub decide_row_claim : ClaimRequest → ClaimLease → Issue → BeadRecord → Change ClaimLease
decide_row_claim q held i r =
    if r.generation != q.generation
    then replies (ok held)
    else if (is_claimed r.status || is_completed r.status) && r.workflow_id == q.workflow_id
    then replies (ok (lease_from_record r true))
    else if not (is_ready r.status)
    then replies (ok (lease_from_record r false))
    else updates (claimed_row q i) (lease_from_record (claimed_by q r) true)

-- The body of Claim; `held` is the value of the variable `lease` when the attempt begins.
unfoldable pub claim_body : ClaimRequest → ClaimLease → Issue → Change ClaimLease
claim_body q held i = on_record (record_of q.bead_id i) (decide_row_claim q held i)

-- validateCompletion
unfoldable pub validate_completion : Completion → Check
validate_completion c = do
  validate_segment "bead id" c.bead_id
  require (not (leb_ℤ c.generation (pos 0))) generation_not_positive
  validate_segment "claim token" c.claim_token
  validate_segment "session id" c.session_id
  validate_workflow_id "completion source workflow id" c.source_workflow_id
  validate_segment "completion source workflow run id" c.source_workflow_run_id
  require (c.outcome == Payloads.completed) completion_outcome_invalid
  check_all Artifact.validate c.artifact_refs

-- The outcome that Complete stores, over the one that is there.
abbrev pub superseded_by : OutcomeReady → Option OutcomeRecord → Check
superseded_by o none = ok tt
superseded_by o (some existing) =
    if outcomes_equal existing.envelope o then ok tt else validate_supersession existing o

abbrev pub completed_row : Completion → OutcomeReady → Time → Issue → Issue
completed_row c o now i = set_outcome (pending_record o now) (record i {
  status = text "closed";
  session_id = c.session_id;
  outcome = c.outcome;
  artifact_refs = coded c.artifact_refs;
})

abbrev pub completion_outcome : Completion → Str → Time → BeadRecord → Issue → Result OutcomeReady
completion_outcome c store_ref now r i = do
  o ← wrap outcome_not_built (temporal_completion_outcome r c store_ref now)
  existing ← outcome_record_from i.outbox
  superseded_by o existing
  ok o

abbrev write_outcome : Completion → Time → Issue → Result OutcomeReady → Change (Unit {0})
write_outcome c now i (ok o) = updates (completed_row c o now i) tt
write_outcome c now i (err e) = replies (err e)

abbrev pub decide_row_completion :
    Completion → Str → Time → Time → Issue → BeadRecord → Change (Unit {0})
decide_row_completion c store_ref now later i r =
    if not (matches_fence r c.generation c.claim_token)
    then replies (err stale_fence)
    else if is_completed r.status
    then (if same_result r c then replies (ok tt) else replies (err completion_conflict))
    else if not (is_claimed r.status)
    then replies (err stale_fence)
    else if not (c.source_workflow_id == r.workflow_id)
    then replies (err source_workflow_mismatch)
    else write_outcome c later i (completion_outcome c store_ref now r i)

-- The body of Complete; `now` and `later` are what the clock shows when the outcome is built and when
-- it is put in.
unfoldable pub complete_body : Completion → Str → Time → Time → Issue → Change (Unit {0})
complete_body c store_ref now later i =
    on_record (record_of c.bead_id i) (decide_row_completion c store_ref now later i)

-- validateAttemptFailure
unfoldable pub validate_attempt_failure : AttemptFailure → Check
validate_attempt_failure f = do
  validate_segment "bead id" f.bead_id
  require (not (leb_ℤ f.generation (pos 0))) generation_not_positive
  validate_segment "claim token" f.claim_token
  require (not (f.attempt == 0)) attempt_not_positive
  validate_segment "attempt failure code" f.code

abbrev pub failed_row : AttemptFailure → BeadRecord → Issue → Issue
failed_row f r i = record i { attempt_failures = coded (r.attempt_failures ++ (f ∷ [])) }

abbrev pub decide_row_failure : AttemptFailure → Issue → BeadRecord → Change (Unit {0})
decide_row_failure f i r =
    if not (is_claimed r.status && matches_fence r f.generation f.claim_token)
    then replies (err stale_fence)
    else if has_failure f r.attempt_failures
    then replies (ok tt)
    else updates (failed_row f r i) tt

-- The body of RecordAttemptFailure.
unfoldable pub failure_body : AttemptFailure → Issue → Change (Unit {0})
failure_body f i = on_record (record_of f.bead_id i) (decide_row_failure f i)

abbrev is_blank {ℓ} : {A : Type ℓ} → Coded A → Bool
is_blank blank = true
is_blank _ = false

-- The body of AcknowledgeReadyEvent.
unfoldable pub acknowledge_body : Str → Time → Issue → Change (Unit {0})
acknowledge_body event_id now i =
    if not (i.ready_event_id == event_id)
    then replies (err bead_not_found)
    else if is_blank i.ready_acknowledged_at
    then updates (record i { ready_acknowledged_at = coded now }) tt
    else replies (ok tt)
