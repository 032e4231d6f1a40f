-- ===== src/Bridge/Delivery.antt =====
-- bridge.go: ReadyEventBridge, `Deliver` and `SealRun`.
use gas_city.Prelude.{
  if◌then◌else◌, ◌==◌, ◌!=◌, nat_eq, Str, text_eq, int_eq, ℤ, pos, Bool, false, ◌&&◌, not, Option,
  none, some, [], ◌∷◌,
}
use gas_city.Errors.{
  Check, ◌>>=◌, ◌>>◌, require, wrap, Error, Result, ok, err, not_configured, timing_invalid,
  gateway_failed, mismatched_receipt, bead_id_required, checkpoint_failed,
}
use gas_city.Contracts.Event
use gas_city.Contracts.Event.{Time, ReadyEvent}
use gas_city.Bridge.World.{StartOrSignalRequest, WorkflowGateway, Acker, and_then}
use gas_city.Contracts.Requests.{
  CloseRequest, TimingConfig, validate_close, has_clock, default_event_limit, validate_timing,
  default_timing_config,
}
use gas_city.Contracts.Link.{WorkflowReceipt, workflow_id}
use gas_city.Contracts.Identifiers.{current_contract_version}

pub record ReadyEventBridge {ℓ} (W : Type ℓ) : Type ℓ where
  pub temporal : Option (WorkflowGateway W)
  pub acker : Option (Acker W)
  pub timing : TimingConfig

abbrev required {ℓ} : {A : Type ℓ} → Error → Option A → Result A
required e none = err e
required e (some a) = ok a

-- The timing that `Deliver` uses: a zero one is the default, with the real clock.
abbrev pub effective_timing : Time → TimingConfig → TimingConfig
effective_timing now t =
    if t.heartbeat_timeout == pos 0 && (t.reconcile_interval == pos 0 && not (has_clock t.clock))
    then default_timing_config now
    else t

-- The request that `Deliver` builds.
abbrev pub request_for : Str → ReadyEvent → ℤ → StartOrSignalRequest
request_for id event heartbeat_timeout = record {
  workflow_id = id;
  event = event;
  input = record {
    contract_version = current_contract_version;
    city_id = event.city_id;
    run_id = event.run_id;
    bead_id = event.bead_id;
    initial_ready = event ∷ [];
    close_when_idle = false;
    search_attributes = false;
    heartbeat_timeout = heartbeat_timeout;
    event_limit = pos default_event_limit;
  };
}

-- What `Deliver` checks before it calls anything.
unfoldable pub deliver_request : Time → TimingConfig → ReadyEvent → Result StartOrSignalRequest
deliver_request now timing event = do
  Event.validate event
  let t = effective_timing now timing
  wrap (λ _. timing_invalid) (validate_timing t)
  id ← workflow_id event.city_id event.run_id event.bead_id
  ok (request_for id event t.heartbeat_timeout)

-- The receipt names the workflow and the event of the request.
abbrev pub receipt_matches : StartOrSignalRequest → WorkflowReceipt → Bool
receipt_matches q receipt =
    receipt.workflow_id == q.workflow_id && receipt.event_id == q.event.event_id

-- The end of `Deliver`: a receipt of something else is an error, and the event stays pending.
unfoldable pub checkpoint {ℓ} :
    {W : Type ℓ} → Acker W → StartOrSignalRequest → WorkflowReceipt → W → Result WorkflowReceipt × W
checkpoint acknowledge q receipt w =
    if receipt_matches q receipt
    then (let (outcome, w') = acknowledge q.event.event_id w in
        (wrap checkpoint_failed outcome >> ok receipt, w'))
    else (err mismatched_receipt, w)

-- `Deliver` once the request is there.
unfoldable pub deliver_to {ℓ} :
    {W : Type ℓ}
    → WorkflowGateway W
    → Acker W
    → StartOrSignalRequest
    → W
    → Result WorkflowReceipt × W
unfolding checkpoint
deliver_to gateway acknowledge q w =
    let (outcome, w') = gateway.signal_with_start q w in
    and_then (wrap gateway_failed outcome, w') (checkpoint acknowledge q)

-- The guards of `Deliver`, in their order.
unfoldable pub delivery {ℓ} :
    {W : Type ℓ}
    → Time
    → ReadyEventBridge W
    → ReadyEvent
    → Result (WorkflowGateway W × Acker W × StartOrSignalRequest)
unfolding deliver_request
delivery now b event = do
  gateway ← required (not_configured "workflow gateway") b.temporal
  acknowledge ← required (not_configured "ready event acker") b.acker
  q ← deliver_request now b.timing event
  ok (gateway, acknowledge, q)

-- Deliver
unfoldable pub deliver {ℓ} :
    {W : Type ℓ} → Time → ReadyEventBridge W → ReadyEvent → W → Result WorkflowReceipt × W
unfolding delivery
deliver now b event w = and_then (delivery now b event, w) (λ d. deliver_to d.0 d.1 d.2)

-- The guards of `SealRun`.
unfoldable pub seal_target {ℓ} :
    {W : Type ℓ} → ReadyEventBridge W → CloseRequest → Result (WorkflowGateway W × Str)
seal_target b q = do
  gateway ← required (not_configured "workflow gateway") b.temporal
  validate_close q
  require (q.bead_id != []) bead_id_required
  id ← workflow_id q.city_id q.run_id q.bead_id
  ok (gateway, id)

-- SealRun
unfoldable pub seal_run {ℓ} : {W : Type ℓ} → ReadyEventBridge W → CloseRequest → W → Check × W
unfolding seal_target
seal_run b q w =
    and_then (seal_target b q, w)
      (λ t v. let (outcome, v') = t.0.signal_close t.1 q v in (wrap gateway_failed outcome, v'))
