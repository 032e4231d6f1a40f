-- ===== src/Examples/Beads.antt =====
-- Runs of the canonical store on beads.
use gas_city.Outcomes.Completed.{completion_input, temporal_completion_outcome, evidence_of}
use gas_city.Prelude.{
  ◌==◌, nat_eq, Str, Str-discrete, text_eq, ℤ-discrete, int_eq, ℤ, text, is_trimmed, decimal,
  lookup, sha256, pos, ℕ, ◌-◌, ◌≡◌, refl, true, false, not, some, [], ◌∷◌, arith, ℕ_discrete,
}
use gas_city.Errors.{ok}
use gas_city.Examples.Data.{formula, event_at, sound}
use gas_city.FileStore.Records
use gas_city.FileStore.Records.{BeadRecord, BeadStatus, FileState, lease_from_record}
use gas_city.Canonical.Issue.{Issue, blank, coded, ready_event_from, canonical_status, record_of}
use gas_city.Canonical.Transaction.{
  Table, updates, Attempt, committed, mutate_issue, retry, mutate_once,
}
use gas_city.Canonical.Beads.{complete_body, validate_completion, claim_body, failure_body}
use gas_city.Contracts.Payloads
use gas_city.Contracts.Payloads.{no_outcome, no_lease, ClaimRequest, AttemptFailure, Completion}
use gas_city.Contracts.Artifact
use gas_city.Canonical.Issue.{outcome_record_from}
use gas_city.Outcomes.Envelope.{new_outcome_ready}
use gas_city.Canonical.Beads.{completion_outcome, completed_row}
use gas_city.Canonical.Recorded.{IsRecorded, canonical_complete-IsRecorded}
use gas_city.Outcomes.Envelope
use gas_city.Outcomes.Envelope.{OutcomeReady, envelope_of, outcome_ready_id}
use gas_city.Canonical.Claims.{canonical_claim, validate_claim}
use gas_city.Canonical.Completes.{TakesToo, complete-TakesToo}
use gas_city.Canonical.Refines.{Refines, claim-Refines, failure-Refines}
use gas_city.FileStore.Operations.{find_bead, complete, claim, record_attempt_failure, claimed_by}
use gas_city.Canonical.StaleLease.{deadlock_then, stale_lease}
use gas_city.Canonical.Reading.{record_of-reads}
use gas_city.Canonical.Store.{canonical_complete}

-- The issue of the bead at a generation, with its status, workflow and token.
abbrev issue_at : ℤ → Str → Str → Str → Issue
issue_at generation status workflow_id token = record {
  status = status;
  contract_version = coded (pos 1);
  city_id = text "city";
  run_id = text "run";
  generation = coded generation;
  workflow_id = workflow_id;
  claim_token = token;
  session_id = [];
  outcome = no_outcome;
  artifact_refs = coded [];
  attempt_failures = coded [];
  ready_event = coded (event_at 5);
  ready_event_id = (event_at 5).event_id;
  ready_acknowledged_at = blank;
  outbox = blank;
  outcome_acknowledged_at = blank;
  finalization = blank;
}

abbrev bead_at : ℤ → BeadStatus → Str → Str → BeadRecord
bead_at generation status workflow_id token = record {
  city_id = text "city";
  run_id = text "run";
  bead_id = text "bead";
  generation = generation;
  formula = formula;
  status = status;
  workflow_id = workflow_id;
  claim_token = token;
  session_id = [];
  outcome = no_outcome;
  artifact_refs = [];
  attempt_failures = [];
}

event_read : ready_event_from (coded (event_at 5)) ≡ ok (event_at 5)
unfolding ready_event_from
event_read = rw (sound 5 (ground arith)) refl

issue_read :
    (generation : ℤ) (status : BeadStatus) (column workflow_id token : Str)
    → not (generation == pos 0) ≡ true
    → canonical_status column ≡ ok status
    → record_of (text "bead") (issue_at generation column workflow_id token)
      ≡ ok (bead_at generation status workflow_id token)
issue_read generation status column workflow_id token enrolled known =
    record_of-reads (text "bead") (issue_at generation column workflow_id token) (record {
      generation = generation;
      status = status;
      event = event_at 5;
      artifact_refs = [];
      attempt_failures = [];
      generation_read = refl;
      enrolled = enrolled;
      version_read = refl;
      status_read = known;
      event_read = event_read;
      artifacts_read = refl;
      failures_read = refl;
    })

abbrev ready_issue : Issue
ready_issue = issue_at (pos 1) (text "open") [] []

abbrev ready_bead : BeadRecord
ready_bead = bead_at (pos 1) Records.ready [] []

abbrev held_issue : Issue
held_issue = issue_at (pos 1) (text "in_progress") (text "first") (text "claim-1")

abbrev held_bead : BeadRecord
held_bead = bead_at (pos 1) Records.claimed (text "first") (text "claim-1")

abbrev later_issue : Issue
later_issue = issue_at (pos 2) (text "open") [] []

abbrev later_bead : BeadRecord
later_bead = bead_at (pos 2) Records.ready [] []

ready_read : record_of (text "bead") ready_issue ≡ ok ready_bead
unfolding canonical_status ℤ-discrete Str-discrete ℕ_discrete
ready_read = issue_read (pos 1) Records.ready (text "open") [] [] refl refl

held_read : record_of (text "bead") held_issue ≡ ok held_bead
unfolding canonical_status ℤ-discrete Str-discrete ℕ_discrete
held_read =
    issue_read (pos 1) Records.claimed (text "in_progress") (text "first") (text "claim-1") refl
      refl

later_read : record_of (text "bead") later_issue ≡ ok later_bead
unfolding canonical_status ℤ-discrete Str-discrete ℕ_discrete
later_read = issue_read (pos 2) Records.ready (text "open") [] [] refl refl

abbrev state_of : BeadRecord → FileState
state_of r = record { version = pos 1; beads = some ((text "bead", r) ∷ []); outbox = some [] }

bead_found : (r : BeadRecord) → find_bead (text "bead") (state_of r) ≡ some r
unfolding lookup Str-discrete ℕ_discrete
bead_found r = refl

abbrev request : ClaimRequest
request = record { bead_id = text "bead"; generation = pos 1; workflow_id = text "first" }

claim-Refines_example :
    Refines
      (text "bead")
      (state_of ready_bead)
      (claim_body request no_lease ready_issue)
      (claim request (state_of ready_bead))
claim-Refines_example =
    claim-Refines request ready_issue ready_bead (state_of ready_bead) ready_read
      (bead_found ready_bead)

abbrev failure : AttemptFailure
failure = record {
  bead_id = text "bead";
  generation = pos 1;
  claim_token = text "claim-1";
  attempt = 1;
  code = text "crash";
}

failure-Refines_example :
    Refines
      (text "bead")
      (state_of held_bead)
      (failure_body failure held_issue)
      (record_attempt_failure failure (state_of held_bead))
failure-Refines_example =
    failure-Refines failure held_issue held_bead (state_of held_bead) held_read
      (bead_found held_bead)

abbrev completion : Completion
completion = record {
  bead_id = text "bead";
  generation = pos 1;
  claim_token = text "claim-1";
  session_id = text "session";
  source_workflow_id = text "first";
  source_workflow_run_id = text "first-run";
  outcome = Payloads.completed;
  artifact_refs =
      record {
        kind = Artifact.commit;
        uri = text "git:abc";
        sha256 = text "ba7816bf8f01cfea414140de5dae2223b00361a396177a9cb410ff61f20015ad";
      }
      ∷ [];
}

completion_valid : validate_completion completion ≡ ok tt
unfolding validate_completion gas_city.Contracts.Identifiers.validate_segment
    gas_city.Prelude.is_trimmed gas_city.Contracts.Identifiers.segment_pattern
    gas_city.Contracts.Identifiers.validate_workflow_id Payloads.Outcome-discrete Artifact.validate
    gas_city.Contracts.Identifiers.uri_pattern gas_city.Contracts.Identifiers.sha256_pattern
completion_valid = refl

complete-TakesToo_example :
    TakesToo
      (text "bead")
      (state_of held_bead)
      (complete_body completion (text "city:main") 6 7 held_issue)
      (complete completion (state_of held_bead))
complete-TakesToo_example =
    complete-TakesToo completion (text "city:main") 6 7 held_issue held_bead (state_of held_bead)
      completion_valid held_read (bead_found held_bead)

abbrev base : OutcomeReady
base = envelope_of Envelope.temporal (completion_input held_bead completion (text "city:main") 6)

abbrev made : OutcomeReady
made = record base { outcome_id = outcome_ready_id base }

made_valid : Envelope.validate made ≡ ok tt
unfolding Envelope.validate ℤ-discrete Envelope.validate_store_ref Str-discrete
    gas_city.Contracts.Identifiers.validate_segment gas_city.Prelude.is_trimmed
    gas_city.Contracts.Identifiers.segment_pattern
    gas_city.Contracts.Identifiers.validate_workflow_id evidence_of Artifact.validate
    gas_city.Contracts.Identifiers.uri_pattern gas_city.Contracts.Identifiers.sha256_pattern
    outcome_ready_id sha256 gas_city.Prelude.decimal gas_city.Prelude.json_text
made_valid = refl

claim_valid : validate_claim request ≡ ok tt
unfolding validate_claim gas_city.Contracts.Identifiers.validate_segment gas_city.Prelude.is_trimmed
    gas_city.Contracts.Identifiers.segment_pattern
    gas_city.Contracts.Identifiers.validate_workflow_id
claim_valid = refl

abbrev one_issue : Issue → Table
one_issue i = (text "bead", i) ∷ []

issue_found : (i : Issue) → lookup (text "bead") (one_issue i) ≡ some i
unfolding lookup Str-discrete ℕ_discrete
issue_found i = refl

stale_lease_example :
    canonical_claim
      (deadlock_then (one_issue later_issue))
      (λ _. false)
      request
      (one_issue ready_issue)
    ≡ (lease_from_record (claimed_by request ready_bead) true, ok tt, one_issue later_issue)
unfolding ℤ-discrete ℕ_discrete
stale_lease_example =
    stale_lease request (one_issue ready_issue) (one_issue later_issue) ready_issue later_issue
      ready_bead later_bead (λ _. false) claim_valid (issue_found ready_issue) ready_read refl refl
      (issue_found later_issue) later_read refl refl

built : completion_outcome completion (text "city:main") 6 held_bead held_issue ≡ ok made
unfolding temporal_completion_outcome new_outcome_ready outcome_record_from evidence_of
built = rw made_valid refl

body_writes :
    complete_body completion (text "city:main") 6 7 held_issue
    ≡ updates (completed_row completion made 7 held_issue) tt
unfolding complete_body Str-discrete ℕ_discrete ℤ-discrete Payloads.Outcome-discrete
body_writes = ground (arith, held_read, built)

abbrev quiet : ℕ → Attempt
quiet _ = record { begins = ok tt; writes = ok tt; ends = committed }

completes :
    (canonical_complete quiet
      (λ _. false)
      (text "city:main")
      6
      7
      completion
      (one_issue held_issue)).0
    ≡ ok tt
unfolding canonical_complete mutate_issue retry mutate_once lookup Str-discrete ℕ_discrete
completes = ground (arith, completion_valid, body_writes)

canonical_complete-IsRecorded_example :
    (i : Issue) × (lookup
        (text "bead")
        (canonical_complete quiet
          (λ _. false)
          (text "city:main")
          6
          7
          completion
          (one_issue held_issue)).1
      ≡ some i)
    × IsRecorded completion i
canonical_complete-IsRecorded_example =
    canonical_complete-IsRecorded quiet (λ _. false) (text "city:main") 6 7 completion
      (one_issue held_issue) completes
