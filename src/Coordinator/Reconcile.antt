-- ===== src/Coordinator/Reconcile.antt =====
-- outcome_reconciler.go: CoordinatorOutcomeReconciler.
use gas_city.Prelude.{length, ℕ, ◌+◌, Bool, true, false, Option, none, some, List, [], ◌∷◌, ◌++◌}
use gas_city.Errors.{
  Error, Result, ok, err, not_configured, pending_outcomes_failed, pending_unsignalled,
  discovery_failed, discovery_incomplete, legacy_unpersisted, legacy_unsignalled,
}
use gas_city.Legacy.Metadata.{LegacyFailure}
use gas_city.Coordinator.Gateway.{OutcomeGateway, deliver_outcome, ensure}
use gas_city.Outcomes.Envelope.{OutcomeReady}
use gas_city.Outcomes.Records.{OutcomeRecord}
use gas_city.Contracts.Link.{WorkflowReceipt}
use gas_city.Legacy.Discover.{Found}

-- CoordinatorOutcomeSource; what DiscoverLegacyOutcomes answers is as in the store.
pub record OutcomeSource {ℓ} (W : Type ℓ) : Type ℓ where
  pub emit_outcome : OutcomeReady → W → Result OutcomeRecord × W
  pub discover_legacy_outcomes : W → Result Found × W
  pub pending_outcomes : W → Result (List OutcomeRecord) × W

-- OutcomeReconcileResult
pub record OutcomeCounts : Type 0 where
  pub produced : ℕ
  pub scanned : ℕ
  pub signalled : ℕ

-- The result, with the errors that are joined.
abbrev pub Tally : Type 0
Tally = OutcomeCounts × List Error

abbrev pub no_counts : OutcomeCounts
no_counts = record { produced = 0; scanned = 0; signalled = 0 }

abbrev pub report_error : Error → Tally → Tally
report_error e (counts, errors) = (counts, errors ++ (e ∷ []))

abbrev pub count_signalled : Tally → Tally
count_signalled (c, errors) = (record c { signalled = c.signalled + 1 }, errors)

abbrev pub count_produced : Tally → Tally
count_produced (c, errors) =
    (record c { produced = c.produced + 1; scanned = c.scanned + 1 }, errors)

abbrev pub take_ensured : OutcomeReady → Result (WorkflowReceipt × Bool) → Tally → Tally
take_ensured o (err e) t = report_error (pending_unsignalled o.work_id o.outcome_id e) t
take_ensured o (ok (receipt, true)) t = count_signalled t
take_ensured o (ok (receipt, false)) t = t

-- The loop over the pending records.
unfoldable pub ensure_all {ℓ} :
    {W : Type ℓ} → Option (OutcomeGateway W) → List OutcomeRecord → Tally → W → Tally × W
ensure_all g [] t w = (t, w)
ensure_all g (r ∷ rs) t w =
    let (outcome, v) = ensure g r.envelope w in
    ensure_all g rs (take_ensured r.envelope outcome t) v

abbrev pub take_delivered : OutcomeReady → Result WorkflowReceipt → Tally → Tally
take_delivered o (err e) t = report_error (legacy_unsignalled o.work_id o.outcome_id e) t
take_delivered o (ok receipt) t = count_signalled t

-- The body of the loop over the candidates.
unfoldable pub produce {ℓ} :
    {W : Type ℓ}
    → OutcomeSource W
    → Option (OutcomeGateway W)
    → OutcomeReady
    → Tally
    → W
    → Tally × W
produce s g o t w =
    let (emitted, v) = s.emit_outcome o w in
    elim emitted [
      | err e ↦ (report_error (legacy_unpersisted o.work_id o.outcome_id e) t, v)
      | ok _ ↦
          let (delivered, u) = deliver_outcome g o v in
          (take_delivered o delivered (count_produced t), u)
    ]

-- The loop over the candidates.
unfoldable pub produce_all {ℓ} :
    {W : Type ℓ}
    → OutcomeSource W
    → Option (OutcomeGateway W)
    → List OutcomeReady
    → Tally
    → W
    → Tally × W
unfolding produce
produce_all s g [] t w = (t, w)
produce_all s g (o ∷ os) t w = let (t', v) = produce s g o t w in produce_all s g os t' v

-- The error of a discovery that left failures.
abbrev pub report_failures : List LegacyFailure → Tally → Tally
report_failures [] t = t
report_failures (f ∷ fs) t = report_error (discovery_failed discovery_incomplete) t

-- What follows the loop over the pending records.
unfoldable pub reconcile_legacy {ℓ} :
    {W : Type ℓ} → OutcomeSource W → Option (OutcomeGateway W) → Tally → W → Tally × W
unfolding produce_all
reconcile_legacy s g t w =
    let (outcome, v) = s.discover_legacy_outcomes w in
    elim outcome [
      | err e ↦ (report_error (discovery_failed e) t, v)
      | ok (candidates, failures) ↦ produce_all s g candidates (report_failures failures t) v
    ]

-- Reconcile
unfoldable pub reconcile_outcomes {ℓ} :
    {W : Type ℓ} → Option (OutcomeSource W) → Option (OutcomeGateway W) → W → Tally × W
unfolding reconcile_legacy ensure_all
reconcile_outcomes none g w = ((no_counts, not_configured "coordinator outcome source" ∷ []), w)
reconcile_outcomes (some s) g w =
    let (outcome, v) = s.pending_outcomes w in
    elim outcome [
      | err e ↦ ((no_counts, pending_outcomes_failed e ∷ []), v)
      | ok records ↦
          let (t, u) = ensure_all g records (record no_counts { scanned = length records }, []) v in
          reconcile_legacy s g t u
    ]
