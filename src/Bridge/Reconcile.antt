-- ===== src/Bridge/Reconcile.antt =====
-- reconciler.go: ReadyEventReconciler, `Reconcile` and `Due`.
use gas_city.Prelude.{
  ltb, if◌then◌else◌, length, Str, pos_part, ℕ, ◌+◌, Bool, true, false, ◌&&◌, not, Option, none,
  some, List, [], ◌∷◌,
}
use gas_city.Errors.{
  Check, wrap, succeeds, Error, Result, ok, err, not_configured, receipt_query_failed,
  source_failed, redelivery_failed,
}
use gas_city.Contracts.Event.{ReadyEvent, Time}
use gas_city.Bridge.Delivery.{ReadyEventBridge, deliver}
use gas_city.Bridge.World.{and_then}
use gas_city.Contracts.Requests.{TimingConfig, has_clock, validate_timing, default_timing_config}
use gas_city.Contracts.Link.{workflow_id, WorkflowReceipt}

pub record ReconcileResult : Type 0 where
  pub scanned : ℕ
  pub acknowledged : ℕ
  pub repaired : ℕ

-- `receipts` is HasEvent, `source` is PendingReadyEvents.
pub record ReadyEventReconciler {ℓ} (W : Type ℓ) : Type ℓ where
  pub source : Option (W → Result (List ReadyEvent) × W)
  pub receipts : Option (Str → Str → W → Result Bool × W)
  pub bridge : ReadyEventBridge W
  pub timing : TimingConfig

-- The result of `Reconcile` with its error, if there is one: Go returns both.
abbrev pub Report : Type 0
Report = ReconcileResult × Check

abbrev pub tally : Bool → ReconcileResult → ReconcileResult
tally true r = record r { acknowledged = r.acknowledged + 1 }
tally false r = record r { repaired = r.repaired + 1 }

abbrev pub no_result : ReconcileResult
no_result = record { scanned = 0; acknowledged = 0; repaired = 0 }

abbrev pub wrapped {ℓ κ} : {W : Type ℓ} {A : Type κ} → (Error → Error) → Result A × W → Result A × W
wrapped f (outcome, w) = (wrap f outcome, w)

abbrev pub answer_seen {ℓ} : {W : Type ℓ} → Bool → WorkflowReceipt → W → Result Bool × W
answer_seen seen receipt w = (ok seen, w)

-- The delivery of a round, whatever the receipt says.
abbrev pub redeliver {ℓ} :
    {W : Type ℓ} → Time → ReadyEventBridge W → ReadyEvent → Bool → W → Result Bool × W
redeliver now b event seen w =
    and_then (wrapped redelivery_failed (deliver now b event w)) (answer_seen seen)

-- The look at the receipt, and the delivery.
abbrev pub query_and_redeliver {ℓ} :
    {W : Type ℓ}
    → Time
    → ReadyEventBridge W
    → (Str → Str → W → Result Bool × W)
    → ReadyEvent
    → Str
    → W
    → Result Bool × W
query_and_redeliver now b has event id w =
    and_then (wrapped receipt_query_failed (has id event.event_id w)) (redeliver now b event)

-- One round of the loop.
unfoldable pub reconcile_event {ℓ} :
    {W : Type ℓ}
    → Time
    → ReadyEventBridge W
    → (Str → Str → W → Result Bool × W)
    → ReadyEvent
    → W
    → Result Bool × W
reconcile_event now b has event w =
    and_then (workflow_id event.city_id event.run_id event.bead_id, w)
      (query_and_redeliver now b has event)

-- The loop over the pending events.
unfoldable pub reconcile_all {ℓ} :
    {W : Type ℓ}
    → Time
    → ReadyEventBridge W
    → (Str → Str → W → Result Bool × W)
    → List ReadyEvent
    → ReconcileResult
    → W
    → Report × W
unfolding reconcile_event
reconcile_all now b has [] result w = ((result, ok tt), w)
reconcile_all now b has (e ∷ es) result w =
    let (outcome, v) = reconcile_event now b has e w in
    elim outcome [
      | ok seen ↦ reconcile_all now b has es (tally seen result) v
      | err e' ↦ ((result, err e'), v)
    ]

-- Reconcile
unfoldable pub reconcile {ℓ} : {W : Type ℓ} → Time → ReadyEventReconciler W → W → Report × W
unfolding reconcile_all
reconcile now r w = elim r.source [
  | none ↦ ((no_result, err (not_configured "ready event source")), w)
  | some source ↦ elim r.receipts [
    | none ↦ ((no_result, err (not_configured "workflow receipt checker")), w)
    | some has ↦
        let (outcome, v) = source w in
        elim outcome [
          | ok events ↦
              reconcile_all now r.bridge has events (record no_result { scanned = length events }) v
          | err e ↦ ((no_result, err (source_failed e)), v)
        ]
  ]
]

abbrev clock_time : Option Time → Time
clock_time none = 0
clock_time (some t) = t

-- The timing of Due, where `now` is what the real clock shows.
abbrev due_timing : Time → TimingConfig → TimingConfig
due_timing now timing = if has_clock timing.clock then timing else default_timing_config now

-- Due
unfoldable pub due : Time → TimingConfig → Time → Bool
due now timing last_run =
    let config = due_timing now timing in
    succeeds (validate_timing config)
    && not (ltb (clock_time config.clock) (last_run + pos_part config.reconcile_interval))
