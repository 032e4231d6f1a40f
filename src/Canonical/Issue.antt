-- ===== src/Canonical/Issue.antt =====
-- dolt_bead_store.go: `canonicalIssue`, its metadata and the record that is read from it.
use gas_city.Prelude.{
  if◌then◌else◌, ◌==◌, nat_eq, Str, text_eq, int_eq, ℤ, text, pos, Bool, true, false, not, Option,
  none, some, List, [],
}
use gas_city.Contracts.Payloads.{Outcome, AttemptFailure}
use gas_city.Errors.{
  ◌>>=◌, ◌>>◌, require, wrap, Result, ok, err, unsupported_version, bead_not_found,
  outcome_state_invalid, pending_at_zero, outbox_invalid, metadata_malformed,
  status_not_orchestratable, formula_snapshot_unreadable,
}
use gas_city.Contracts.Event
use gas_city.FileStore.Records as BeadRecords
use gas_city.Outcomes.Envelope
use gas_city.Outcomes.Records.{
  OutcomeRecord, FinalizationReceipt, CoordinatorState, validate_receipt,
}
use gas_city.Outcomes.Records
use gas_city.Contracts.Event.{ReadyEvent, is_zero, Time}
use gas_city.FileStore.Records.{BeadStatus, BeadRecord}
use gas_city.Contracts.Identifiers.{current_contract_version}
use gas_city.Contracts.Artifact.{ArtifactRef}

-- A metadata value: missing or empty, not readable, or the text of a value.
pub data Coded {ℓ} (A : Type ℓ) : Type ℓ where
  blank malformed : Coded A
  coded : A → Coded A

pub record Issue : Type 0 where
  pub status : Str
  pub contract_version : Coded ℤ
  pub city_id : Str
  pub run_id : Str
  pub generation : Coded ℤ
  pub workflow_id : Str
  pub claim_token : Str
  pub session_id : Str
  pub outcome : Outcome
  pub artifact_refs : Coded (List ArtifactRef)
  pub attempt_failures : Coded (List AttemptFailure)
  pub ready_event : Coded ReadyEvent
  pub ready_event_id : Str
  pub ready_acknowledged_at : Coded Time
  pub outbox : Coded OutcomeRecord
  pub outcome_acknowledged_at : Coded Time
  pub finalization : Coded FinalizationReceipt

-- metadataInt64
abbrev pub metadata_int : Coded ℤ → Result ℤ
metadata_int blank = ok (pos 0)
metadata_int malformed = err metadata_malformed
metadata_int (coded n) = ok n

-- decodeMetadataJSON into a nil slice
abbrev pub metadata_list {ℓ} : {A : Type ℓ} → Coded (List A) → Result (List A)
metadata_list blank = ok []
metadata_list malformed = err metadata_malformed
metadata_list (coded xs) = ok xs

-- readyEventFromMetadata; the event of a blank value is the zero one, which is not valid.
unfoldable pub ready_event_from : Coded ReadyEvent → Result ReadyEvent
ready_event_from (coded event) = Event.validate event >> ok event
ready_event_from malformed = err metadata_malformed
ready_event_from blank = err unsupported_version

-- canonicalBeadStatus
unfoldable pub canonical_status : Str → Result BeadStatus
canonical_status s =
    if s == text "open"
    then ok BeadRecords.ready
    else if s == text "in_progress"
    then ok BeadRecords.claimed
    else if s == text "closed"
    then ok BeadRecords.completed
    else err status_not_orchestratable

-- record
unfoldable pub record_of : Str → Issue → Result BeadRecord
unfolding ready_event_from canonical_status
record_of id i = do
  generation ← metadata_int i.generation
  require (not (generation == pos 0)) bead_not_found
  version ← metadata_int i.contract_version
  require (version == current_contract_version) unsupported_version
  status ← canonical_status i.status
  event ← wrap formula_snapshot_unreadable (ready_event_from i.ready_event)
  artifact_refs ← metadata_list i.artifact_refs
  attempt_failures ← metadata_list i.attempt_failures
  ok (record {
    city_id = i.city_id;
    run_id = i.run_id;
    bead_id = id;
    generation = generation;
    formula = event.formula;
    status = status;
    workflow_id = i.workflow_id;
    claim_token = i.claim_token;
    session_id = i.session_id;
    outcome = i.outcome;
    artifact_refs = artifact_refs;
    attempt_failures = attempt_failures;
  })

abbrev pub state_known : CoordinatorState → Bool
state_known (Records.other s) = false
state_known _ = true

-- outcomeRecordFromMetadata
unfoldable pub outcome_record_from : Coded OutcomeRecord → Result (Option OutcomeRecord)
outcome_record_from blank = ok none
outcome_record_from malformed = err metadata_malformed
outcome_record_from (coded r) = do
  wrap outbox_invalid (Envelope.validate r.envelope)
  require (state_known r.state) outcome_state_invalid
  require (not (is_zero r.pending_at)) pending_at_zero
  ok (some r)

-- setOptionalOutcomeTime
abbrev optional_time : Time → Coded Time
optional_time t = if is_zero t then blank else coded t

-- setOutcomeMetadata. The JSON text of the record stands as the record: this is so for texts that are
-- valid UTF-8; `json.Marshal` writes U+FFFD for any other byte, which is not modelled.
abbrev pub set_outcome : OutcomeRecord → Issue → Issue
set_outcome r i = record i {
  outbox = coded r;
  outcome_acknowledged_at = optional_time r.acknowledged_at;
}

-- outcomeFinalizationFromMetadata
unfoldable pub finalization_from : Coded FinalizationReceipt → Result (Option FinalizationReceipt)
finalization_from blank = ok none
finalization_from malformed = err metadata_malformed
finalization_from (coded f) = validate_receipt f >> ok (some f)
