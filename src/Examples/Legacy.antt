-- ===== src/Examples/Legacy.antt =====
-- Runs of the discovery of outcomes in the history of issues.
use gas_city.Legacy.Batched.{joined, IsBatch, batches_split}
use gas_city.Prelude.{
  all, All, Str, Str-discrete, ℤ-discrete, ℤ, text, is_trimmed, decimal, lookup, insert, merge,
  sha256, pos, ℕ, zero, suc, ◌-◌, ◌≡◌, refl, ap, ◌∙◌, ◌⊎◌, true, false, not, none, some, List, [],
  ◌∷◌, arith, ℕ_discrete,
}
use gas_city.Errors.{◌>>◌, Error, Result, ok, err, finalization_inexact, transition_not_found}
use gas_city.Legacy.Discover.{
  CandidateRow, judge, emits, sift, candidate, Discovery, discover_legacy_outcomes, is_covered,
  sift_rows, no_outcome, judge_all, fails,
}
use gas_city.Legacy.Transition.{
  Decoding, EventRow, read_row, introduces, Disposition, select_events,
}
use gas_city.Outcomes.Envelope
use gas_city.Contracts.Artifact
use gas_city.Outcomes.Envelope.{
  OutcomeReady, outcome_ready_id, AdapterInput, new_outcome_ready, envelope_of,
}
use gas_city.Legacy.Metadata.{LegacyIssue, Metadata, LegacyEvent, string}
use gas_city.Examples.Outcome.{acked, outcome_valid, row}
use gas_city.Legacy.Suppression.{
  is_finalization, is_dispositioned, check_disposition, check_finalization, has_no_finalization,
}
use gas_city.Legacy.Envelopes.{
  legacy_envelope, stable_metadata, classify_producer, legacy_generation, raised_generation,
  legacy_impact, input_for,
}
use gas_city.Canonical.Issue.{outcome_record_from, set_outcome}
use gas_city.Legacy.Batches.{batches, batches_from, transition_events, collect, transition_batch}
use gas_city.Legacy.Grounded.{IsGrounded, discover-IsGrounded}
use gas_city.Canonical.Outbox.{pending_record, emit_outcome}
use gas_city.Legacy.Excluded.{Finalizes, SetAside, judge_excludes}
use gas_city.Legacy.Superseding.{judge-Emits}
use gas_city.Legacy.Finalized.{refusal, judge_finalized}
use gas_city.Contracts.Artifact.{commit}
use gas_city.Canonical.Progress.{commits}

abbrev metadata : Metadata
metadata =
    (text "gc.root_bead_id", string (text "root"))
    ∷ (text "gc.coordinator_outcome.outbox", string (text "outbox"))
    ∷ []

-- The texts of the example, decoded.
abbrev decoding : Decoding
decoding = record {
  metadata = λ _. ok (some metadata);
  snapshot = λ _. ok (text "open", none);
  value = λ _. err transition_not_found;
  outbox = λ _. ok acked;
  receipt = λ _. err transition_not_found;
  disposition = λ _. err transition_not_found;
  time = λ _. ok 9;
}

abbrev candidate_row : CandidateRow
candidate_row = record {
  id = text "bead";
  title = text "a title";
  issue_type = text "task";
  status = text "closed";
  close_reason = text " finished ";
  metadata = text "{..}";
  has_downstream_formula_step = false;
}

abbrev event_row : EventRow
event_row = record {
  id = text "event-2";
  issue_id = text "bead";
  event_type = text "closed";
  actor = text "worker";
  old_value = text "{..}";
  new_value = text "finished";
  created_at = text "2026-01-01 00:00:09";
}

abbrev issue : LegacyIssue
issue = record {
  id = text "bead";
  title = text "a title";
  issue_type = text "task";
  status = text "closed";
  close_reason = text " finished ";
  metadata = metadata;
  has_downstream_formula_step = false;
  existing = some acked;
}

abbrev event : LegacyEvent
event = record {
  id = text "event-2";
  event_type = text "closed";
  actor = text "worker";
  new_value = text "finished";
  created_at = 9;
  old_status = text "open";
  old_metadata = [];
  status = text "closed";
  metadata = [];
}

abbrev found_base : OutcomeReady
found_base = record {
  contract_version = pos 1;
  outcome_id = [];
  producer = Envelope.direct_worker;
  store_ref = text "city:main";
  work_id = text "bead";
  source_root_id = text "root";
  workflow_id = [];
  workflow_run_id = [];
  step_key = text "direct-worker";
  summary = text "finished";
  impact = text "The direct-worker result is ready for coordinator acknowledgement.";
  state = Envelope.terminal;
  evidence =
      record {
        kind = Artifact.review_record;
        uri = text "bead:bead@event-2";
        sha256 = text "05343e9845302eb730fa9d18ac7b28d5e509893daf1eb76ede8d6e82d47b2da9";
      }
      ∷ [];
  fence = record {
    producer_id = text "legacy-direct-worker";
    generation = pos 2;
    token = text "event-2";
  };
  occurred_at = 9;
}

abbrev found_outcome : OutcomeReady
found_outcome = record found_base { outcome_id = text "outcome-b7b079001fe42058808209b6d1c1b27f" }

found_named : outcome_ready_id found_base ≡ text "outcome-b7b079001fe42058808209b6d1c1b27f"
unfolding outcome_ready_id sha256 gas_city.Prelude.decimal gas_city.Prelude.json_text ℕ_discrete
found_named = refl

found_valid : Envelope.validate found_outcome ≡ ok tt
unfolding Envelope.validate gas_city.Prelude.ℤ-discrete Envelope.validate_store_ref
    gas_city.Prelude.Str-discrete gas_city.Contracts.Identifiers.validate_segment
    gas_city.Prelude.is_trimmed gas_city.Contracts.Identifiers.segment_pattern Artifact.validate
    gas_city.Contracts.Identifiers.uri_pattern gas_city.Contracts.Identifiers.sha256_pattern
    outcome_ready_id sha256 gas_city.Prelude.decimal gas_city.Prelude.json_text
found_valid = refl

abbrev stable : Metadata
stable = (text "gc.root_bead_id", string (text "root")) ∷ []

merged : stable_metadata event.metadata issue.metadata ≡ stable
unfolding stable_metadata lookup Str-discrete gas_city.Prelude.insert
merged = refl

classified : classify_producer stable event.actor ≡ ok Envelope.direct_worker
unfolding classify_producer Str-discrete gas_city.Legacy.Metadata.first_legacy_metadata
    gas_city.Legacy.Text.trim_space lookup
classified = refl

generated : legacy_generation stable ≡ ok (pos 1)
unfolding legacy_generation Str-discrete gas_city.Legacy.Metadata.metadata_string lookup
generated = refl

raised : raised_generation issue.existing (pos 1) ≡ ok (pos 2)
unfolding raised_generation ℤ-discrete
raised = refl

abbrev input : AdapterInput
input = input_for (text "city:main") issue event stable Envelope.direct_worker (pos 2)

described : envelope_of Envelope.direct_worker input ≡ found_base
unfolding legacy_impact sha256 Str-discrete gas_city.Legacy.Metadata.first_legacy_metadata
    gas_city.Legacy.Text.trim_space lookup
described = refl

-- An envelope that is given its name.
abbrev named : OutcomeReady → Str → Result OutcomeReady
named o id = (Envelope.validate (record o { outcome_id = id }) >> ok (record o { outcome_id = id }))

adapted : new_outcome_ready Envelope.direct_worker input ≡ ok found_outcome
unfolding new_outcome_ready
adapted =
    ap (λ o. named o (outcome_ready_id o)) described
    ∙ (ap (named found_base) found_named ∙ ap (λ m. m >> ok found_outcome) found_valid)

envelope_found : legacy_envelope (text "city:main") issue event ≡ ok found_outcome
unfolding legacy_envelope
envelope_found = rw (merged, classified, generated, raised) adapted

finds : judge decoding (text "city:main") issue event ≡ emits found_outcome
unfolding judge is_finalization is_dispositioned gas_city.Prelude.Str-discrete
    gas_city.Legacy.Metadata.metadata_string gas_city.Prelude.lookup
finds = rw (envelope_found) refl

reads : read_row decoding event_row ≡ introduces event
unfolding read_row gas_city.Prelude.Str-discrete gas_city.Legacy.Text.trim_space
    gas_city.Legacy.Metadata.has_outcome gas_city.Legacy.Text.equal_fold gas_city.Prelude.lookup
    gas_city.Legacy.Text.lowers_to gas_city.Legacy.Metadata.first_legacy_metadata
reads = refl

sifts : sift decoding candidate_row ≡ candidate issue
unfolding sift outcome_record_from gas_city.Prelude.Str-discrete gas_city.Prelude.ℕ_discrete
    gas_city.Legacy.Metadata.issue_is_synthetic gas_city.Legacy.Text.equal_fold
    gas_city.Legacy.Text.trim_space gas_city.Legacy.Metadata.metadata_string gas_city.Prelude.lookup
    gas_city.Legacy.Metadata.is_non_terminal_step gas_city.Legacy.Metadata.has_outcome
    gas_city.Legacy.Text.lowers_to gas_city.Legacy.Metadata.first_legacy_metadata
sifts = rw (outcome_valid) refl

abbrev ids : ℕ → List Str
ids zero = []
ids (suc n) = decimal (pos n) ∷ ids n

batches_split_example : (joined (batches (ids 600)) ≡ ids 600) × All IsBatch (batches (ids 600))
batches_split_example = batches_split (ids 600)

row_found : lookup (text "bead") ((text "bead", row) ∷ []) ≡ some row
unfolding gas_city.Prelude.lookup gas_city.Prelude.Str-discrete
row_found = refl

row_read : outcome_record_from row.outbox ≡ ok (some acked)
unfolding outcome_record_from ℕ_discrete
row_read = rw (outcome_valid) refl

judge-Emits_example :
    emit_outcome (λ _. commits) (λ _. false) 10 found_outcome ((text "bead", row) ∷ []) ≡ (
      ok (pending_record found_outcome 10),
      insert
          (text "bead")
          (set_outcome (pending_record found_outcome 10) row)
          ((text "bead", row) ∷ []),
    )
judge-Emits_example =
    judge-Emits decoding (text "city:main") issue event found_outcome 10 ((text "bead", row) ∷ [])
      row 4 (λ _. commits) (λ _. false) finds (refl, refl) row_found row_read (omega arith) refl
      (λ k above below. absurd (omega arith)) (λ k above below. refl)

abbrev discovery : Discovery
discovery = record {
  decoding = decoding;
  rollout_epoch = 1;
  store_ref = text "city:main";
  time_zone_verified = ok tt;
  candidates = ok (record { rows = ok candidate_row ∷ []; iterated = ok tt; closed = ok tt });
  events = λ _. ok (record { rows = ok event_row ∷ []; iterated = ok tt; closed = ok tt });
}

collected :
    transition_events decoding discovery.events (text "bead" ∷ [])
    ≡ ok ((text "bead", event) ∷ [], [])
unfolding batches batches_from transition_events collect transition_batch select_events
    gas_city.Prelude.merge gas_city.Prelude.insert
collected = rw (reads) refl

discovers : discover_legacy_outcomes discovery ≡ ok (found_outcome ∷ [], [])
unfolding discover_legacy_outcomes sift_rows judge_all Envelope.validate_store_ref
    gas_city.Prelude.lookup ℕ_discrete Str-discrete gas_city.Contracts.Identifiers.validate_segment
    is_trimmed gas_city.Contracts.Identifiers.segment_pattern
discovers = rw (sifts, collected, finds) refl

discover-IsGrounded_example : All (IsGrounded discovery) (found_outcome ∷ [])
discover-IsGrounded_example = discover-IsGrounded discovery (found_outcome ∷ [], []) discovers

-- The same transition, set aside by a record in the issue.
abbrev set_aside : Disposition
set_aside = record {
  contract_version = pos 1;
  disposition = text "non-outcome";
  work_id = text "bead";
  transition_id = text "event-2";
  recorded_by = text "lead";
  recorded_at = 11;
}

abbrev excluding : Decoding
excluding = record decoding { disposition = λ _. ok set_aside }

abbrev excluded_issue : LegacyIssue
excluded_issue = record issue {
  metadata = (text "gc.coordinator_outcome.non_outcome", string (text "{..}")) ∷ metadata;
}

excludes : judge excluding (text "city:main") excluded_issue event ≡ no_outcome
unfolding judge is_finalization is_dispositioned check_disposition Str-discrete
    gas_city.Legacy.Metadata.metadata_string lookup ℤ-discrete
    gas_city.Contracts.Identifiers.validate_segment is_trimmed
    gas_city.Contracts.Identifiers.segment_pattern
excludes = refl

judge_excludes_example :
    (is_covered excluded_issue.existing event ≡ true)
    ⊎ (Finalizes excluding excluded_issue event ⊎ SetAside excluding excluded_issue event)
judge_excludes_example = judge_excludes excluding (text "city:main") excluded_issue event excludes

-- The work was finalized, reopened and closed again.
abbrev finalized_issue : LegacyIssue
finalized_issue = record issue {
  metadata = (text "gc.coordinator_outcome.finalization", string (text "{..}")) ∷ metadata;
}

abbrev second_close : LegacyEvent
second_close = record event {
  old_metadata = finalized_issue.metadata;
  metadata = finalized_issue.metadata;
}

refuses :
    judge decoding (text "city:main") finalized_issue second_close
    ≡ fails (
        refusal finalized_issue second_close
          (finalization_inexact "receipt predates the transition"))
unfolding judge is_finalization check_finalization Str-discrete
    gas_city.Legacy.Metadata.metadata_string lookup
refuses = refl

holds_receipt : has_no_finalization finalized_issue second_close ≡ false
unfolding gas_city.Legacy.Metadata.metadata_string gas_city.Prelude.lookup Str-discrete
holds_receipt = refl

judge_finalized_example :
    ((judge decoding (text "city:main") finalized_issue second_close ≡ no_outcome)
      × Finalizes decoding finalized_issue second_close)
    ⊎ ((error : Error) × (judge decoding (text "city:main") finalized_issue second_close
          ≡ fails (refusal finalized_issue second_close error)))
unfolding Str-discrete
judge_finalized_example =
    judge_finalized decoding (text "city:main") finalized_issue second_close holds_receipt refl
