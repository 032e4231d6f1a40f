-- ===== src/Canonical/Calls.antt =====
-- outcome_store.go: histories of calls on outcomes; a call with all its attempts is one step.
use gas_city.Canonical.Standing.{Lasts, Lasts-refl, Lasts-trans}
use gas_city.Prelude.{Str, lookup, ℕ, ◌≡◌, Bool, some, List, [], ◌∷◌}
use gas_city.Errors.{Check, Result, ok, err}
use gas_city.Outcomes.Envelope
use gas_city.Outcomes.Envelope.{OutcomeReady}
use gas_city.Canonical.Transaction.{Table, Attempt}
use gas_city.Canonical.Outbox.{
  emit_outcome, mark_delivered, mark_acknowledged, guarded, emit_body, delivered_body,
  acknowledged_body,
}
use gas_city.Canonical.Respects.{Rows, mutate_issue-Rows}
use gas_city.Outcomes.Records.{
  OutcomeDelivery, OutcomeAcknowledgement, FinalizationRequest, validate_delivery,
  validate_acknowledgement, validate_finalization,
}
use gas_city.Canonical.Issue.{Issue}
use gas_city.Contracts.Event.{Time}
use gas_city.Canonical.Lifecycle.{emit-Lasts, delivered-Lasts, acknowledged-Lasts, finalize-Lasts}
use gas_city.Canonical.Finalize.{finalize_outcome, finalize_body}

pub data OutcomeCall : Type 0 where
  emits : OutcomeReady → OutcomeCall
  delivers : OutcomeDelivery → OutcomeCall
  acknowledges : OutcomeAcknowledgement → OutcomeCall
  finalizes : FinalizationRequest → OutcomeCall

-- What the database does in each attempt of a call, when the context ends and what the clock shows.
pub record Setting : Type 0 where
  pub attempts : ℕ → Attempt
  pub done_at : ℕ → Bool
  pub now : Time

-- The table after a call.
unfoldable pub perform : Setting → OutcomeCall → Table → Table
perform s (emits o) t = (emit_outcome s.attempts s.done_at s.now o t).1
perform s (delivers d) t = (mark_delivered s.attempts s.done_at s.now d t).1
perform s (acknowledges a) t = (mark_acknowledged s.attempts s.done_at s.now a t).1
perform s (finalizes q) t = (finalize_outcome s.attempts s.done_at s.now q t).1

unfoldable pub run : List (Setting × OutcomeCall) → Table → Table
unfolding perform
run [] t = t
run ((s, call) ∷ calls) t = run calls (perform s call t)

guarded-Rows {ℓ} :
    {A : Type ℓ} (c : Check) (m : Result A × Table) (t : Table)
    → Rows Lasts t m.1
    → Rows Lasts t (guarded c m t).1
guarded-Rows (ok _) m t rows = rows
guarded-Rows (err e) m t rows = λ id i found. (i, found, Lasts-refl i)

perform-Lasts : (s : Setting) (call : OutcomeCall) (t : Table) → Rows Lasts t (perform s call t)
unfolding perform emit_outcome mark_delivered mark_acknowledged finalize_outcome
perform-Lasts s (emits o) t = guarded-Rows (Envelope.validate o) _ t (
    mutate_issue-Rows Lasts Lasts-refl Lasts-trans (emit_body o s.now) (emit-Lasts o s.now)
      s.attempts s.done_at o.work_id t)
perform-Lasts s (delivers d) t = guarded-Rows (validate_delivery d) _ t (
    mutate_issue-Rows Lasts Lasts-refl Lasts-trans (delivered_body d s.now)
      (delivered-Lasts d s.now) s.attempts s.done_at d.work_id t)
perform-Lasts s (acknowledges a) t = guarded-Rows (validate_acknowledgement a) _ t (
    mutate_issue-Rows Lasts Lasts-refl Lasts-trans (acknowledged_body a s.now)
      (acknowledged-Lasts a s.now) s.attempts s.done_at a.work_id t)
perform-Lasts s (finalizes q) t = guarded-Rows (validate_finalization q) _ t (
    mutate_issue-Rows Lasts Lasts-refl Lasts-trans (finalize_body q s.now) (finalize-Lasts q s.now)
      s.attempts s.done_at q.work_id t)

-- Over any history of calls on outcomes, however their transactions end: an issue stays in the
-- table, its outcome keeps its envelope, its time of delivery and, once acknowledged, all its record
-- until an outcome of a greater generation that occurred later takes its place; and a finalization
-- stays.
pub run-Lasts :
    (calls : List (Setting × OutcomeCall)) (t : Table) (id : Str) (i : Issue)
    → lookup id t ≡ some i
    → (j : Issue) × (lookup id (run calls t) ≡ some j) × Lasts i j
unfolding run
run-Lasts [] t id i found = (i, found, Lasts-refl i)
run-Lasts ((s, call) ∷ calls) t id i found =
    let (j, there, one) = perform-Lasts s call t id i found in
    let (k, here, two) = run-Lasts calls (perform s call t) id j there in
    (k, here, Lasts-trans i j k one two)
