-- ===== src/Canonical/Finalize.antt =====
-- outcome_store.go: FinalizeAcknowledgedOutcome.
use gas_city.Prelude.{
  if◌then◌else◌, ◌==◌, nat_eq, text_eq, int_eq, text, pos, ℕ, Bool, ◌&&◌, not, Option, none, some,
  [],
}
use gas_city.Errors.{
  Result, ok, err, outcome_not_found, finalization_on_open_work, finalization_conflicts,
  closed_without_finalization, not_acknowledged, finalization_mismatch,
}
use gas_city.Outcomes.Records.{
  FinalizationReceipt, OutcomeRecord, FinalizationRequest, validate_receipt, validate_finalization,
}
use gas_city.Canonical.Transaction.{Attempt, Change, replies, Table, updates, mutate_issue}
use gas_city.Canonical.Issue.{Issue, outcome_record_from, finalization_from, coded}
use gas_city.Contracts.Event.{Time, is_zero}
use gas_city.Canonical.Outbox.{is_acknowledged, guarded}

-- outcomeFinalizationMatchesRequest
unfoldable pub matches_request : FinalizationReceipt → FinalizationRequest → Bool
matches_request f q =
    f.store_ref == q.store_ref
    && (f.outcome_id == q.outcome_id
        && (f.work_id == q.work_id
            && (f.producer_generation == q.producer_generation
                && (f.producer_token == q.producer_token
                    && (f.coordinator_fence == q.coordinator_fence
                        && (f.finalized_by == q.finalized_by
                            && f.close_reason == q.close_reason))))))

-- outcomeFinalizationMatchesRecord
unfoldable pub matches_record : FinalizationReceipt → OutcomeRecord → Bool
matches_record f r =
    is_acknowledged r.state
    && (not (is_zero r.acknowledged_at)
        && (not (r.acknowledged_by == [])
            && (f.store_ref == r.envelope.store_ref
                && (f.outcome_id == r.envelope.outcome_id
                    && (f.work_id == r.envelope.work_id
                        && (f.producer_generation == r.envelope.fence.generation
                            && (f.producer_token == r.envelope.fence.token
                                && (f.coordinator_fence == r.coordinator_fence
                                    && (f.acknowledged_at == r.acknowledged_at
                                        && f.acknowledged_by == r.acknowledged_by)))))))))

abbrev pub is_closed : Issue → Bool
is_closed i = i.status == text "closed"

-- The outcome is acknowledged.
abbrev pub acknowledged_fully : OutcomeRecord → Bool
acknowledged_fully r =
    is_acknowledged r.state
    && (not (is_zero r.acknowledged_at)
        && (not (r.acknowledged_by == []) && not (is_zero r.delivered_at)))

-- The request names the generation that is acknowledged.
abbrev pub names_record : FinalizationRequest → OutcomeRecord → Bool
names_record q r =
    r.envelope.store_ref == q.store_ref
    && (r.envelope.outcome_id == q.outcome_id
        && (r.envelope.work_id == q.work_id
            && (r.envelope.fence.generation == q.producer_generation
                && (r.envelope.fence.token == q.producer_token
                    && r.coordinator_fence == q.coordinator_fence))))

abbrev pub receipt_for : FinalizationRequest → Time → OutcomeRecord → FinalizationReceipt
receipt_for q now r = record {
  contract_version = pos 1;
  store_ref = r.envelope.store_ref;
  outcome_id = r.envelope.outcome_id;
  work_id = r.envelope.work_id;
  producer_generation = r.envelope.fence.generation;
  producer_token = r.envelope.fence.token;
  coordinator_fence = r.coordinator_fence;
  acknowledged_at = r.acknowledged_at;
  acknowledged_by = r.acknowledged_by;
  finalized_at = now;
  finalized_by = q.finalized_by;
  close_reason = q.close_reason;
}

-- FinalizeAcknowledgedOutcome where a finalization is there, and where there is none.
unfoldable pub repeat_finalize :
    FinalizationRequest → OutcomeRecord → FinalizationReceipt → Issue → Change FinalizationReceipt
repeat_finalize q r f i =
    if not (is_closed i)
    then replies (err finalization_on_open_work)
    else if matches_request f q && matches_record f r
    then replies (ok f)
    else replies (err finalization_conflicts)

unfoldable pub new_finalize :
    FinalizationRequest → Time → OutcomeRecord → Issue → Change FinalizationReceipt
new_finalize q now r i =
    if is_closed i
    then replies (err closed_without_finalization)
    else if not (acknowledged_fully r)
    then replies (err not_acknowledged)
    else if not (names_record q r)
    then replies (err finalization_mismatch)
    else elim (validate_receipt (receipt_for q now r)) [
      | ok _ ↦
          updates (record i { status = text "closed"; finalization = coded (receipt_for q now r) })
            (receipt_for q now r)
      | err e ↦ replies (err e)
    ]

unfoldable pub decide_finalize :
    FinalizationRequest
    → Time
    → OutcomeRecord
    → Option FinalizationReceipt
    → Issue
    → Change FinalizationReceipt
decide_finalize q now r none i = new_finalize q now r i
decide_finalize q now r (some f) i = repeat_finalize q r f i

unfoldable pub with_record :
    FinalizationRequest → Time → Option OutcomeRecord → Issue → Change FinalizationReceipt
unfolding decide_finalize new_finalize repeat_finalize
with_record q now none i = replies (err outcome_not_found)
with_record q now (some r) i = elim (finalization_from i.finalization) [
  | ok stored ↦ decide_finalize q now r stored i
  | err e ↦ replies (err e)
]

-- The body of FinalizeAcknowledgedOutcome.
unfoldable pub finalize_body : FinalizationRequest → Time → Issue → Change FinalizationReceipt
unfolding with_record
finalize_body q now i = elim (outcome_record_from i.outbox) [
  | ok existing ↦ with_record q now existing i
  | err e ↦ replies (err e)
]

-- FinalizeAcknowledgedOutcome
unfoldable pub finalize_outcome :
    (ℕ → Attempt)
    → (ℕ → Bool)
    → Time
    → FinalizationRequest
    → Table
    → Result FinalizationReceipt × Table
finalize_outcome env done_at now q t =
    guarded (validate_finalization q) (mutate_issue env done_at q.work_id (finalize_body q now) t) t
