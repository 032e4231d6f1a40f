-- ===== src/Coordinator/Ensured.antt =====
-- outcome_reconciler.go: what Ensure and Deliver bring about.
use gas_city.Prelude.{◌≡◌, refl, ap, Bool, true, false, some}
use gas_city.Errors.{err_not_ok, Result, ok, err}
use gas_city.Outcomes.Envelope.{OutcomeReady}
use gas_city.Coordinator.Gateway.{OutcomeGateway, ensure_running, ensure, deliver_outcome}
use gas_city.Contracts.Link.{WorkflowReceipt}
use gas_city.Bridge.World.{and_then}

-- What the calls bring about: a workflow runs for the outcome, or the outcome is in the store.
pub data Fact : Type 0 where
  runs stored : OutcomeReady → Fact

module _ {ℓ} {W : Type ℓ} (g : OutcomeGateway W) (Holds : Fact → W → Type ℓ)
    (signal_keeps : (o : OutcomeReady) (w : W) (f : Fact)
      → Holds f w
      → Holds f (g.signal_with_start_outcome o w).1)
    (query_keeps : (o : OutcomeReady) (w : W) (f : Fact)
      → Holds f w
      → Holds f (g.outcome_workflow_running o w).1)
    (signal_runs : (o : OutcomeReady) (w : W) (r : WorkflowReceipt)
      → (g.signal_with_start_outcome o w).0 ≡ ok r
      → Holds (runs o) (g.signal_with_start_outcome o w).1)
    (query_runs : (o : OutcomeReady) (w : W)
      → (g.outcome_workflow_running o w).0 ≡ ok true
      → Holds (runs o) (g.outcome_workflow_running o w).1) where
  ensure_running-keeps :
      (o : OutcomeReady) (b : Bool) (w : W) (f : Fact)
      → Holds f w
      → Holds f (ensure_running g o b w).1
  unfolding ensure_running
  ensure_running-keeps o true w f h = h
  ensure_running-keeps o false w f h = go (g.signal_with_start_outcome o w) (signal_keeps o w f h)
    where
      go :
          (m : Result WorkflowReceipt × W)
          → Holds f m.1
          → Holds f
              (and_then {B = WorkflowReceipt × Bool} m (λ receipt v. (ok (receipt, true), v))).1
      go (ok r, v) k = k
      go (err e, v) k = k

  pub ensure-keeps :
      (o : OutcomeReady) (w : W) (f : Fact) → Holds f w → Holds f (ensure (some g) o w).1
  unfolding ensure
  ensure-keeps o w f h = go (g.outcome_workflow_running o w) (query_keeps o w f h)
    where
      go : (m : Result Bool × W) → Holds f m.1 → Holds f (and_then m (ensure_running g o)).1
      go (ok b, v) k = ensure_running-keeps o b v f k
      go (err e, v) k = k

  ensure_running-runs :
      (o : OutcomeReady) (b : Bool) (w : W) (a : WorkflowReceipt × Bool)
      → (b ≡ true → Holds (runs o) w)
      → (ensure_running g o b w).0 ≡ ok a
      → Holds (runs o) (ensure_running g o b w).1
  unfolding ensure_running
  ensure_running-runs o true w a seen h = seen refl
  ensure_running-runs o false w a seen h =
      go (g.signal_with_start_outcome o w) (λ r. signal_runs o w r) h
    where
      go :
          (m : Result WorkflowReceipt × W)
          → ((r : WorkflowReceipt) → m.0 ≡ ok r → Holds (runs o) m.1)
          → (and_then {B = WorkflowReceipt × Bool} m (λ receipt v. (ok (receipt, true), v))).0
            ≡ ok a
          → Holds
              (runs o)
              (and_then {B = WorkflowReceipt × Bool} m (λ receipt v. (ok (receipt, true), v))).1
      go (ok r, v) there k = there r refl
      go (err e, v) there k = absurd (err_not_ok k)

  pub ensure-runs :
      (o : OutcomeReady) (w : W) (a : WorkflowReceipt × Bool)
      → (ensure (some g) o w).0 ≡ ok a
      → Holds (runs o) (ensure (some g) o w).1
  unfolding ensure
  ensure-runs o w a h = go (g.outcome_workflow_running o w) (query_runs o w) h
    where
      go :
          (m : Result Bool × W)
          → (m.0 ≡ ok true → Holds (runs o) m.1)
          → (and_then m (ensure_running g o)).0 ≡ ok a
          → Holds (runs o) (and_then m (ensure_running g o)).1
      go (ok b, v) there k = ensure_running-runs o b v a (λ same. there (ap ok same)) k
      go (err e, v) there k = absurd (err_not_ok k)

  pub deliver-keeps :
      (o : OutcomeReady) (w : W) (f : Fact) → Holds f w → Holds f (deliver_outcome (some g) o w).1
  unfolding deliver_outcome
  deliver-keeps o w f h = signal_keeps o w f h

  pub deliver-runs :
      (o : OutcomeReady) (w : W) (r : WorkflowReceipt)
      → (deliver_outcome (some g) o w).0 ≡ ok r
      → Holds (runs o) (deliver_outcome (some g) o w).1
  unfolding deliver_outcome
  deliver-runs o w r h = signal_runs o w r h
