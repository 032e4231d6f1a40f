-- ===== src/Coordinator/Reconciled.antt =====
-- outcome_reconciler.go: a whole reconciliation leaves no outcome unhandled and unreported.
use gas_city.Prelude.{length, All, ◌≡◌, ◌⊎◌, true, some, List, []}
use gas_city.Errors.{Error, ok, err, discovery_failed, discovery_incomplete}
use gas_city.Coordinator.Gateway.{OutcomeGateway}
use gas_city.Coordinator.Reconcile.{OutcomeSource, Tally, no_counts, ensure_all}
use gas_city.Coordinator.Ensured.{Fact, runs, stored}
use gas_city.Outcomes.Envelope.{OutcomeReady}
use gas_city.Contracts.Link.{WorkflowReceipt}
use gas_city.Outcomes.Records.{OutcomeRecord}
use gas_city.Coordinator.Handled.{Has, LegacyHandled}
use gas_city.Legacy.Discover.{Found}

module _ {ℓ} {W : Type ℓ} (g : OutcomeGateway W) (s : OutcomeSource W) (Holds : Fact → W → Type ℓ)
    (signal_keeps : (o : OutcomeReady) (w : W) (f : Fact)
      → Holds f w
      → Holds f (g.signal_with_start_outcome o w).1)
    (query_keeps : (o : OutcomeReady) (w : W) (f : Fact)
      → Holds f w
      → Holds f (g.outcome_workflow_running o w).1)
    (emit_keeps : (o : OutcomeReady) (w : W) (f : Fact)
      → Holds f w
      → Holds f (s.emit_outcome o w).1)
    (discover_keeps : (w : W) (f : Fact) → Holds f w → Holds f (s.discover_legacy_outcomes w).1)
    (signal_runs : (o : OutcomeReady) (w : W) (r : WorkflowReceipt)
      → (g.signal_with_start_outcome o w).0 ≡ ok r
      → Holds (runs o) (g.signal_with_start_outcome o w).1)
    (query_runs : (o : OutcomeReady) (w : W)
      → (g.outcome_workflow_running o w).0 ≡ ok true
      → Holds (runs o) (g.outcome_workflow_running o w).1)
    (emit_stores : (o : OutcomeReady) (w : W) (r : OutcomeRecord)
      → (s.emit_outcome o w).0 ≡ ok r
      → Holds (stored o) (s.emit_outcome o w).1) where
  -- What the discovery answered in a world: an error, which is reported, or candidates, each of which
  -- is handled, and failures, which are reported if there are any.
  abbrev pub Discovered : W → Tally → W → Type ℓ
  Discovered u t w =
      ((e : Error) × ((s.discover_legacy_outcomes u).0 ≡ err e) × Has (discovery_failed e) t.1)
      ⊎ ((found : Found) × ((s.discover_legacy_outcomes u).0 ≡ ok found)
          × All
              (λ o.
                LegacyHandled g s Holds signal_keeps query_keeps emit_keeps discover_keeps
                  signal_runs query_runs emit_stores o t w)
              found.0
          × ((found.1 ≡ []) ⊎ Has (discovery_failed discovery_incomplete) t.1))

  -- The world after the loop over the pending outcomes.
  abbrev pub after_pending : List OutcomeRecord → W → W
  after_pending records w =
      (ensure_all (some g) records (record no_counts { scanned = length records }, [])
        (s.pending_outcomes w).1).1
