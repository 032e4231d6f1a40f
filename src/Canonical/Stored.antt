-- ===== src/Canonical/Stored.antt =====
-- outcome_activity.go and outcome_store.go: an acknowledgement that is answered is in the table.
use gas_city.Prelude.{lookup, ◌≡◌, refl, ap, ◌∙◌, false, Option, none, some, arith}
use gas_city.Errors.{Check, err_not_ok, wrap-ok, Result, ok, err, record_acknowledgement_failed}
use gas_city.Canonical.Activities.{
  OutcomeActivities, acknowledge_activity, acknowledgement_stored, check_acknowledgement,
}
use gas_city.Canonical.Answers.{Answered, from_row, new_row, mutate_issue-Answered}
use gas_city.Canonical.Lifecycle.{read_some}
use gas_city.Canonical.Outbox.{decide_acknowledged, acknowledged_body, mark_acknowledged, guarded}
use gas_city.Canonical.Transaction.{Table, Change, mutate_issue, replies, updates}
use gas_city.Canonical.Issue.{Issue, coded, outcome_record_from}
use gas_city.Outcomes.Records.{OutcomeAcknowledgement, OutcomeRecord, validate_acknowledgement}
use gas_city.Contracts.Event.{is_zero, Time}
use gas_city.Canonical.Calls.{Setting}

-- The record is stored for the work, and is acknowledged as the acknowledgement says.
pub record IsAcknowledged (k : OutcomeAcknowledgement) (r : OutcomeRecord) (i : Issue)
    : Type 0 where
  pub in_outbox : i.outbox ≡ coded r
  pub of_store : r.envelope.store_ref ≡ k.store_ref
  pub of_outcome : r.envelope.outcome_id ≡ k.outcome_id
  pub of_fence : r.coordinator_fence ≡ k.coordinator_fence
  pub by : r.acknowledged_by ≡ k.acknowledged_by
  pub dated : is_zero r.acknowledged_at ≡ false

abbrev Named : OutcomeAcknowledgement → OutcomeRecord → Type 0
Named k r =
    (r.envelope.store_ref ≡ k.store_ref)
    × (r.envelope.outcome_id ≡ k.outcome_id)
    × (r.coordinator_fence ≡ k.coordinator_fence)
    × (r.acknowledged_by ≡ k.acknowledged_by)
    × (is_zero r.acknowledged_at ≡ false)

same_again :
    (k : OutcomeAcknowledgement) (now : Time) (r q : OutcomeRecord) (i : Issue)
    → decide_acknowledged k now (some r) i ≡ replies (ok q)
    → (r ≡ q) × Named k q
unfolding decide_acknowledged
same_again k now r q i h = ground arith

newly :
    (k : OutcomeAcknowledgement) (now : Time) (r q : OutcomeRecord) (i j : Issue)
    → is_zero now ≡ false
    → decide_acknowledged k now (some r) i ≡ updates j q
    → (j.outbox ≡ coded q) × Named k q
unfolding decide_acknowledged
newly k now r q i j clock h = ground arith

is_stored :
    (k : OutcomeAcknowledgement) (r : OutcomeRecord) (i : Issue)
    → i.outbox ≡ coded r
    → Named k r
    → IsAcknowledged k r i
is_stored k r i there (store, outcome, fence, by, dated) = record {
  in_outbox = there;
  of_store = store;
  of_outcome = outcome;
  of_fence = fence;
  by = by;
  dated = dated;
}

module _ (k : OutcomeAcknowledgement) (now : Time) (clock : is_zero now ≡ false) where
  replied :
      (i : Issue) (q : OutcomeRecord) (m : Result (Option OutcomeRecord))
      → outcome_record_from i.outbox ≡ m
      → (elim m as (λ _. Change OutcomeRecord) [
        | ok existing ↦ decide_acknowledged k now existing i
        | err e ↦ replies (err e)
      ])
        ≡ replies (ok q)
      → IsAcknowledged k q i
  unfolding decide_acknowledged
  replied i q (ok none) e h = absurd (ground arith)
  replied i q (err x) e h = absurd (ground arith)
  replied i q (ok (some r)) e h =
      let (same, named) = same_again k now r q i h in
      is_stored k q i (read_some i.outbox r e ∙ ap coded same) named

  updated :
      (i j : Issue) (q : OutcomeRecord) (m : Result (Option OutcomeRecord))
      → outcome_record_from i.outbox ≡ m
      → (elim m as (λ _. Change OutcomeRecord) [
        | ok existing ↦ decide_acknowledged k now existing i
        | err e ↦ replies (err e)
      ])
        ≡ updates j q
      → IsAcknowledged k q j
  unfolding decide_acknowledged
  updated i j q (ok none) e h = absurd (ground arith)
  updated i j q (err x) e h = absurd (ground arith)
  updated i j q (ok (some r)) e h =
      let (there, named) = newly k now r q i j clock h in is_stored k q j there named

  Answered-IsAcknowledged :
      (q : OutcomeRecord) (t : Table)
      → Answered k.work_id (acknowledged_body k now) q t
      → (i : Issue) × (lookup k.work_id t ≡ some i) × IsAcknowledged k q i
  unfolding acknowledged_body
  Answered-IsAcknowledged q t (from_row i found h) =
      (i, found, replied i q (outcome_record_from i.outbox) refl h)
  Answered-IsAcknowledged q t (new_row i j found h) =
      (j, found, updated i j q (outcome_record_from i.outbox) refl h)

-- An acknowledgement activity that answers a record, where the clock is not at the zero time, has
-- left this record in the table for the work that the acknowledgement names; the record has the store,
-- the outcome, the fence and the author of the acknowledgement, and is dated.
pub acknowledge_activity-IsAcknowledged :
    (a : OutcomeActivities) (s : Setting) (k : OutcomeAcknowledgement) (q : OutcomeRecord)
    (t : Table)
    → is_zero s.now ≡ false
    → (acknowledge_activity a s k t).0 ≡ ok q
    → (i : Issue) × (lookup k.work_id (acknowledge_activity a s k t).1 ≡ some i)
      × IsAcknowledged k q i
unfolding acknowledge_activity mark_acknowledged
acknowledge_activity-IsAcknowledged a s k q t clock h =
    go (check_acknowledgement a k) (validate_acknowledgement k) h
  where
    run : Result OutcomeRecord × Table
    run = mutate_issue s.attempts s.done_at k.work_id (acknowledged_body k s.now) t

    go :
        (c v : Check)
        → (acknowledgement_stored c (guarded v run t) t).0 ≡ ok q
        → (i : Issue) × (lookup k.work_id (acknowledgement_stored c (guarded v run t) t).1 ≡ some i)
          × IsAcknowledged k q i
    go (ok _) (ok _) e = Answered-IsAcknowledged k s.now clock q run.1 (
        mutate_issue-Answered k.work_id (acknowledged_body k s.now) q s.attempts s.done_at t
          (wrap-ok record_acknowledgement_failed run.0 e))
    go (ok _) (err x) e = absurd (err_not_ok e)
    go (err x) v e = absurd (err_not_ok e)
