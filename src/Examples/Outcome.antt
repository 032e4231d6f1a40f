-- ===== src/Examples/Outcome.antt =====
-- Runs of the outbox of outcomes, in the canonical store and in the workflow.
use gas_city.Canonical.Standing.{Lasts}
use gas_city.Prelude.{
  all, Str, Str-discrete, ℤ-discrete, ℤ, text, is_trimmed, decimal, lookup, sha256, pos, ℕ, ◌-◌,
  ◌≡◌, refl, false, some, [], ◌∷◌, arith, ℕ_discrete,
}
use gas_city.Errors.{ok}
use gas_city.Outcomes.Envelope
use gas_city.Outcomes.Records
use gas_city.Contracts.Artifact
use gas_city.Canonical.Transaction.{mutate_issue, retry, mutate_once, updates}
use gas_city.Canonical.Finalize.{finalize_body, with_record, decide_finalize, new_finalize}
use gas_city.Canonical.Issue.{outcome_record_from, finalization_from}
use gas_city.Prelude.{insert}
use gas_city.Contracts.Payloads.{no_outcome}
use gas_city.Canonical.Issue.{blank, coded, Issue}
use gas_city.Canonical.Transaction.{committed, Attempt}
use gas_city.Canonical.Calls
use gas_city.Outcomes.Envelope.{OutcomeReady, validate}
use gas_city.Outcomes.Envelope.{OutcomeReady, outcome_ready_id}
use gas_city.Outcomes.Records.{
  OutcomeDelivery, OutcomeAcknowledgement, FinalizationRequest, OutcomeRecord, FinalizationReceipt,
  validate_finalization, validate_receipt,
}
use gas_city.Canonical.Calls.{Setting, delivers, finalizes, run-Lasts}
use gas_city.Canonical.Finalize.{finalize_outcome, receipt_for}
use gas_city.Canonical.Closing.{IsFinal, finalize-IsFinal}
use gas_city.Canonical.Outbox.{acknowledged_record, delivered_record, pending_record}

abbrev base : OutcomeReady
base = record {
  contract_version = pos 1;
  outcome_id = [];
  producer = Envelope.temporal;
  store_ref = text "city:main";
  work_id = text "bead";
  source_root_id = text "root";
  workflow_id = [];
  workflow_run_id = [];
  step_key = text "step";
  summary = text "done";
  impact = text "ready";
  state = Envelope.terminal;
  evidence =
      record {
        kind = Artifact.commit;
        uri = text "git:abc";
        sha256 = text "ba7816bf8f01cfea414140de5dae2223b00361a396177a9cb410ff61f20015ad";
      }
      ∷ [];
  fence = record { producer_id = text "session"; generation = pos 1; token = text "claim-1" };
  occurred_at = 3;
}

abbrev pub outcome : OutcomeReady
outcome = record base { outcome_id = text "outcome-d4d09b291399c11213bb8229b6b0b5f4" }

pub outcome_valid : validate outcome ≡ ok tt
unfolding validate gas_city.Prelude.ℤ-discrete Envelope.validate_store_ref
    gas_city.Prelude.Str-discrete gas_city.Contracts.Identifiers.validate_segment
    gas_city.Prelude.is_trimmed gas_city.Contracts.Identifiers.segment_pattern Artifact.validate
    gas_city.Contracts.Identifiers.uri_pattern gas_city.Contracts.Identifiers.sha256_pattern
    outcome_ready_id sha256 gas_city.Prelude.decimal gas_city.Prelude.json_text
outcome_valid = refl

abbrev pub delivery : OutcomeDelivery
delivery = record {
  outcome_id = outcome.outcome_id;
  work_id = text "bead";
  delivery_ref = text "mail:7";
  coordinator_fence = text "fence-1";
}

abbrev pub acknowledgement : OutcomeAcknowledgement
acknowledgement = record {
  store_ref = text "city:main";
  outcome_id = outcome.outcome_id;
  work_id = text "bead";
  coordinator_fence = text "fence-1";
  acknowledged_by = text "lead";
}

abbrev request : FinalizationRequest
request = record {
  store_ref = text "city:main";
  outcome_id = outcome.outcome_id;
  work_id = text "bead";
  producer_generation = pos 1;
  producer_token = text "claim-1";
  coordinator_fence = text "fence-1";
  finalized_by = text "lead";
  close_reason = text "done";
}

abbrev pub acked : OutcomeRecord
acked =
    acknowledged_record acknowledgement 6 (delivered_record delivery 5 (pending_record outcome 4))

abbrev pub row : Issue
row = record {
  status = text "open";
  contract_version = coded (pos 1);
  city_id = text "city";
  run_id = text "run";
  generation = coded (pos 1);
  workflow_id = [];
  claim_token = [];
  session_id = [];
  outcome = no_outcome;
  artifact_refs = blank;
  attempt_failures = blank;
  ready_event = blank;
  ready_event_id = [];
  ready_acknowledged_at = blank;
  outbox = coded acked;
  outcome_acknowledged_at = coded 6;
  finalization = blank;
}

abbrev receipt : FinalizationReceipt
receipt = receipt_for request 7 acked

abbrev final_row : Issue
final_row = record row { status = text "closed"; finalization = coded receipt }

abbrev pub quiet : ℕ → Attempt
quiet _ = record { begins = ok tt; writes = ok tt; ends = committed }

abbrev pub at_seven : Setting
at_seven = record { attempts = quiet; done_at = λ _. false; now = 7 }

request_valid : validate_finalization request ≡ ok tt
unfolding validate_finalization Envelope.validate_store_ref ℕ_discrete Str-discrete
    gas_city.Contracts.Identifiers.validate_segment is_trimmed
    gas_city.Contracts.Identifiers.segment_pattern Records.validate_delivery
    gas_city.Contracts.Identifiers.uri_pattern gas_city.Prelude.valid_utf8
request_valid = refl

receipt_valid : validate_receipt receipt ≡ ok tt
unfolding validate_receipt ℤ-discrete Envelope.validate_store_ref Str-discrete
    gas_city.Contracts.Identifiers.validate_segment is_trimmed
    gas_city.Contracts.Identifiers.segment_pattern Records.validate_delivery
    gas_city.Contracts.Identifiers.uri_pattern gas_city.Prelude.valid_utf8
receipt_valid = refl

pub outbox_read : outcome_record_from (coded acked) ≡ ok (some acked)
unfolding outcome_record_from ℕ_discrete
outbox_read = rw outcome_valid refl

body_once : finalize_body request 7 row ≡ updates final_row receipt
unfolding finalize_body with_record decide_finalize new_finalize finalization_from Str-discrete
    ℕ_discrete ℤ-discrete
body_once = ground (arith, outbox_read, receipt_valid)

answers_once :
    (finalize_outcome quiet (λ _. false) 7 request ((text "bead", row) ∷ [])).0 ≡ ok receipt
unfolding finalize_outcome mutate_issue retry mutate_once lookup Str-discrete ℕ_discrete
answers_once = ground (arith, request_valid, body_once)

finalize-IsFinal_example :
    (i : Issue) × (lookup
        (text "bead")
        (finalize_outcome quiet (λ _. false) 7 request ((text "bead", row) ∷ [])).1
      ≡ some i)
    × IsFinal request receipt i
finalize-IsFinal_example =
    finalize-IsFinal quiet (λ _. false) 7 request receipt ((text "bead", row) ∷ []) answers_once

run-Lasts_example :
    (j : Issue) × (lookup (text "bead") (
        Calls.run
          ((at_seven, delivers delivery) ∷ (at_seven, finalizes request) ∷ [])
          ((text "bead", row) ∷ []))
      ≡ some j)
    × Lasts row j
unfolding lookup gas_city.Prelude.Str-discrete
run-Lasts_example =
    run-Lasts ((at_seven, delivers delivery) ∷ (at_seven, finalizes request) ∷ [])
      ((text "bead", row) ∷ []) (text "bead") row refl
