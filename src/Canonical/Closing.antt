-- ===== src/Canonical/Closing.antt =====
-- outcome_store.go: an answered finalization or acknowledgement is in the table, with its grounds.
use gas_city.Prelude.{
  nat_eq, text_eq, ==-refl, int_eq, text, lookup, ℕ, ◌≡◌, refl, ap, ◌∙◌, Bool, true, Option, none,
  some, arith,
}
use gas_city.Canonical.Issue.{blank, malformed, outcome_record_from}
use gas_city.Errors.{Check, err_not_ok, Result, ok, err}
use gas_city.Outcomes.Records.{
  FinalizationRequest, FinalizationReceipt, OutcomeRecord, validate_finalization,
}
use gas_city.Canonical.Issue.{finalization_from, Coded, Issue, coded}
use gas_city.Canonical.Finalize.{
  matches_record, with_record, decide_finalize, matches_request, new_finalize, is_closed,
  repeat_finalize, acknowledged_fully, receipt_for, names_record, finalize_body, finalize_outcome,
}
use gas_city.Contracts.Event.{Time}
use gas_city.Canonical.Transaction.{updates, replies, Change, Table, Attempt, mutate_issue}
use gas_city.Canonical.Lifecycle.{read_some}
use gas_city.Canonical.Answers.{Answered, from_row, new_row, mutate_issue-Answered}
use gas_city.Canonical.Outbox.{guarded}

-- The work is closed, and its outcome was acknowledged as the receipt says.
pub record IsFinal (q : FinalizationRequest) (f : FinalizationReceipt) (i : Issue) : Type 0 where
  pub closed : is_closed i ≡ true
  pub outcome : OutcomeRecord
  pub in_outbox : i.outbox ≡ coded outcome
  pub stored : i.finalization ≡ coded f
  pub of_outcome : matches_record f outcome ≡ true
  pub of_request : matches_request f q ≡ true

finished :
    (c : Coded FinalizationReceipt) (f : FinalizationReceipt)
    → finalization_from c ≡ ok (some f)
    → c ≡ coded f
unfolding finalization_from
finished blank f h = absurd (ground arith)
finished malformed f h = absurd (ground arith)
finished (coded g) f h = ground arith

repeated :
    (q : FinalizationRequest) (now : Time) (r : OutcomeRecord) (i : Issue) (f : FinalizationReceipt)
    → with_record q now (some r) i ≡ replies (ok f)
    → (finalization_from i.finalization ≡ ok (some f))
      × (is_closed i ≡ true)
      × (matches_request f q ≡ true)
      × (matches_record f r ≡ true)
unfolding with_record decide_finalize new_finalize repeat_finalize
repeated q now r i f h = ground arith

made :
    (q : FinalizationRequest) (now : Time) (r : OutcomeRecord) (i j : Issue)
    (f : FinalizationReceipt)
    → with_record q now (some r) i ≡ updates j f
    → (j ≡ record i { status = text "closed"; finalization = coded f })
      × (f ≡ receipt_for q now r)
      × (acknowledged_fully r ≡ true)
      × (names_record q r ≡ true)
unfolding with_record decide_finalize new_finalize repeat_finalize
made q now r i j f h = ground arith

receipt_for-matches :
    (q : FinalizationRequest) (now : Time) (r : OutcomeRecord)
    → acknowledged_fully r ≡ true
    → names_record q r ≡ true
    → (matches_record (receipt_for q now r) r ≡ true)
      × (matches_request (receipt_for q now r) q ≡ true)
unfolding matches_record matches_request
receipt_for-matches q now r h k = ground arith

repeated-IsFinal :
    (q : FinalizationRequest) (now : Time) (i : Issue) (f : FinalizationReceipt)
    (m : Result (Option OutcomeRecord))
    → outcome_record_from i.outbox ≡ m
    → (elim m as (λ _. Change FinalizationReceipt) [
      | ok existing ↦ with_record q now existing i
      | err e ↦ replies (err e)
    ])
      ≡ replies (ok f)
    → IsFinal q f i
unfolding with_record
repeated-IsFinal q now i f (ok none) e h = absurd (ground arith)
repeated-IsFinal q now i f (err x) e h = absurd (ground arith)
repeated-IsFinal q now i f (ok (some r)) e h =
    let (stored, closed, request, outcome) = repeated q now r i f h in
    record {
      closed = closed;
      outcome = r;
      in_outbox = read_some i.outbox r e;
      stored = finished i.finalization f stored;
      of_outcome = outcome;
      of_request = request;
    }

made-IsFinal :
    (q : FinalizationRequest) (now : Time) (i j : Issue) (f : FinalizationReceipt)
    (m : Result (Option OutcomeRecord))
    → outcome_record_from i.outbox ≡ m
    → (elim m as (λ _. Change FinalizationReceipt) [
      | ok existing ↦ with_record q now existing i
      | err e ↦ replies (err e)
    ])
      ≡ updates j f
    → IsFinal q f j
unfolding with_record
made-IsFinal q now i j f (ok none) e h = absurd (ground arith)
made-IsFinal q now i j f (err x) e h = absurd (ground arith)
made-IsFinal q now i j f (ok (some r)) e h =
    let (row, receipt, acked, named) = made q now r i j f h in
    let (outcome, request) = receipt_for-matches q now r acked named in
    record {
      closed = ap is_closed row ∙ ==-refl (text "closed");
      outcome = r;
      in_outbox = ap (λ (x : Issue). x.outbox) row ∙ read_some i.outbox r e;
      stored = ap (λ (x : Issue). x.finalization) row;
      of_outcome = ap (λ g. matches_record g r) receipt ∙ outcome;
      of_request = ap (λ g. matches_request g q) receipt ∙ request;
    }

Answered-IsFinal :
    (q : FinalizationRequest) (now : Time) (f : FinalizationReceipt) (t : Table)
    → Answered q.work_id (finalize_body q now) f t
    → (i : Issue) × (lookup q.work_id t ≡ some i) × IsFinal q f i
unfolding finalize_body
Answered-IsFinal q now f t (from_row i found h) =
    (i, found, repeated-IsFinal q now i f (outcome_record_from i.outbox) refl h)
Answered-IsFinal q now f t (new_row i j found h) =
    (j, found, made-IsFinal q now i j f (outcome_record_from i.outbox) refl h)

-- A finalization that answers with a receipt has left the work closed, with the receipt stored, and
-- with an outcome that is acknowledged and is the one that both the receipt and the request name.
pub finalize-IsFinal :
    (env : ℕ → Attempt) (done_at : ℕ → Bool) (now : Time) (q : FinalizationRequest)
    (f : FinalizationReceipt) (t : Table)
    → (finalize_outcome env done_at now q t).0 ≡ ok f
    → (i : Issue) × (lookup q.work_id (finalize_outcome env done_at now q t).1 ≡ some i)
      × IsFinal q f i
unfolding finalize_outcome
finalize-IsFinal env done_at now q f t h = go (validate_finalization q) h
  where
    go :
        (c : Check)
        → (guarded c (mutate_issue env done_at q.work_id (finalize_body q now) t) t).0 ≡ ok f
        → (i : Issue) × (lookup q.work_id
              (guarded c (mutate_issue env done_at q.work_id (finalize_body q now) t) t).1
            ≡ some i)
          × IsFinal q f i
    go (ok _) k =
        Answered-IsFinal q now f _
          (mutate_issue-Answered q.work_id (finalize_body q now) f env done_at t k)
    go (err e) k = absurd (err_not_ok k)
