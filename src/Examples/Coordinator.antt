-- ===== src/Examples/Coordinator.antt =====
-- A run of the reconciliation of outcomes. The world is the names of the outcomes whose workflows run,
-- and of those that are stored.
use gas_city.Coordinator.Ensured.{runs, stored, Fact}
use gas_city.Prelude.{
  All, ◌==◌, nat_eq, Str, text_eq, ==-refl, int_eq, text, ◌≡◌, refl, Bool, true, false, ◌||◌, some,
  List, [], ◌∷◌, arith,
}
use gas_city.Errors.{ok_eq, ok}
use gas_city.Outcomes.Envelope.{OutcomeReady}
use gas_city.Coordinator.Reconcile.{Tally, OutcomeSource, reconcile_outcomes}
use gas_city.Coordinator.Gateway.{OutcomeGateway}
use gas_city.Coordinator.Reconciled.{Discovered}
use gas_city.Outcomes.Records.{OutcomeRecord}
use gas_city.Canonical.Outbox.{pending_record}
use gas_city.Examples.Outcome.{acked, outcome}
use gas_city.Coordinator.Handled.{PendingHandled}
use gas_city.Contracts.Link.{WorkflowReceipt}

abbrev World : Type 0
World = List Str × List Str

abbrev is_in : Str → List Str → Bool
is_in id [] = false
is_in id (x ∷ xs) = x == id || is_in id xs

is_in-more : (id x : Str) (xs : List Str) → is_in id xs ≡ true → is_in id (x ∷ xs) ≡ true
is_in-more id x xs h = ground arith

is_in-first : (id : Str) (xs : List Str) → is_in id (id ∷ xs) ≡ true
is_in-first id xs = rw (==-refl) refl

abbrev Holds : Fact → World → Type 0
Holds (runs o) w = is_in o.outcome_id w.0 ≡ true
Holds (stored o) w = is_in o.outcome_id w.1 ≡ true

abbrev receipt_of : OutcomeReady → WorkflowReceipt
receipt_of o = record { workflow_id = o.outcome_id; run_id = text "first-run"; event_id = [] }

abbrev gateway : OutcomeGateway World
gateway = record {
  signal_with_start_outcome = λ o w. (ok (receipt_of o), (o.outcome_id ∷ w.0, w.1));
  outcome_workflow_running = λ o w. (ok (is_in o.outcome_id w.0), w);
}

abbrev source : OutcomeSource World
source = record {
  emit_outcome = λ o w. (ok (pending_record o 4), (w.0, o.outcome_id ∷ w.1));
  discover_legacy_outcomes = λ w. (ok (outcome ∷ [], []), w);
  pending_outcomes = λ w. (ok (acked ∷ []), w);
}

signal_keeps :
    (o : OutcomeReady) (w : World) (f : Fact)
    → Holds f w
    → Holds f (gateway.signal_with_start_outcome o w).1
signal_keeps o w (runs p) h = is_in-more p.outcome_id o.outcome_id w.0 h
signal_keeps o w (stored p) h = h

emit_keeps :
    (o : OutcomeReady) (w : World) (f : Fact) → Holds f w → Holds f (source.emit_outcome o w).1
emit_keeps o w (runs p) h = h
emit_keeps o w (stored p) h = is_in-more p.outcome_id o.outcome_id w.1 h

query_runs :
    (o : OutcomeReady) (w : World)
    → (gateway.outcome_workflow_running o w).0 ≡ ok true
    → Holds (runs o) (gateway.outcome_workflow_running o w).1
query_runs o w h = ok_eq h

abbrev after : Tally × World
after = reconcile_outcomes (some source) (some gateway) ([], [])

-- Nothing of the pending outcome is stored then, and its workflow runs.
abbrev world_after : World
world_after = (outcome.outcome_id ∷ [], [])

-- What the theorem says of this run.
abbrev Handled : Type 0
Handled =
    All
      (λ (r : OutcomeRecord).
        PendingHandled gateway source Holds signal_keeps (λ _ _ _ h. h) emit_keeps (λ _ _ h. h)
          (λ o w _ _. is_in-first o.outcome_id w.0) query_runs
          (λ o w _ _. is_in-first o.outcome_id w.1) r.envelope after.0 after.1)
      (acked ∷ [])
    × Discovered gateway source Holds signal_keeps (λ _ _ _ h. h) emit_keeps (λ _ _ h. h)
        (λ o w _ _. is_in-first o.outcome_id w.0) query_runs
        (λ o w _ _. is_in-first o.outcome_id w.1) world_after after.0 after.1
