-- ===== src/Bridge/Accepted.antt =====
-- bridge.go and reconciler.go: an event is acknowledged when Temporal has accepted it, and then only.
use gas_city.Prelude.{if_cases, ◌≡◌, refl, sym, ap, subst, ◌∙◌, true, some, [], ◌∷◌, arith}
use gas_city.Errors.{
  Check, ◌>>=◌, ◌>>◌, wrap, >>-ok, err_not_ok, >>=-ok, wrap-ok, ok_eq, Result, ok, err,
  timing_invalid, gateway_failed, checkpoint_failed,
}
use gas_city.Contracts.Event
use gas_city.Bridge.Delivery.{
  checkpoint, deliver_request, receipt_matches, effective_timing, deliver, delivery, deliver_to,
}
use gas_city.Bridge.World.{WorkflowGateway, Acker, StartOrSignalRequest, and_then-ok, and_then}
use gas_city.Contracts.Event.{Time, ReadyEvent}
use gas_city.Contracts.Requests.{TimingConfig, validate_timing}
use gas_city.Contracts.Link.{workflow_id, WorkflowReceipt}

-- What `Deliver` asks of Temporal for an event, what it gets and what it does then.
pub record Accepted {ℓ} {W : Type ℓ} (gateway : WorkflowGateway W) (acknowledge : Acker W)
    (event : ReadyEvent) (receipt : WorkflowReceipt) (w w' : W) : Type ℓ where
  pub request : StartOrSignalRequest
  pub sends_event : request.event ≡ event
  pub starts_with_event : request.input.initial_ready ≡ event ∷ []
  pub names_workflow : workflow_id event.city_id event.run_id event.bead_id ≡ ok request.workflow_id
  pub accepted : (gateway.signal_with_start request w).0 ≡ ok receipt
  pub same_workflow : receipt.workflow_id ≡ request.workflow_id
  pub same_event : receipt.event_id ≡ event.event_id
  pub acknowledged : (acknowledge event.event_id (gateway.signal_with_start request w).1).0 ≡ ok tt
  pub world_after : (acknowledge event.event_id (gateway.signal_with_start request w).1).1 ≡ w'

-- The end of `checkpoint`, where the receipt matches.
sent {ℓ} :
    {W : Type ℓ} (receipt out : WorkflowReceipt) (outcome : Check) (u w : W)
    → (wrap checkpoint_failed outcome >> ok receipt) ≡ ok out
    → u ≡ w
    → (receipt ≡ out) × (outcome ≡ ok tt)
sent receipt out (ok _) u w h k = (ok_eq h, refl)
sent receipt out (err e) u w h k = absurd (err_not_ok h)

checkpoint-ok {ℓ} :
    {W : Type ℓ} (acknowledge : Acker W) (q : StartOrSignalRequest) (receipt out : WorkflowReceipt)
    (v w : W)
    → checkpoint acknowledge q receipt v ≡ (ok out, w)
    → (receipt_matches q receipt ≡ true)
      × (receipt ≡ out)
      × ((acknowledge q.event.event_id v).0 ≡ ok tt)
      × ((acknowledge q.event.event_id v).1 ≡ w)
unfolding checkpoint
checkpoint-ok {W = W} acknowledge q receipt out v w h =
    if_cases P (receipt_matches q receipt) _ _
      (λ matches k.
        let world = ap (λ p. p.1) k in
        let (same, done) = sent receipt out _ _ w (ap (λ p. p.0) k) world in
        (matches, same, done, world))
      (λ _ k. absurd (err_not_ok (ap (λ p. p.0) k))) h
  where
    P : Result WorkflowReceipt × W → Type ℓ
    P m =
        m ≡ (ok out, w)
        → (receipt_matches q receipt ≡ true)
          × (receipt ≡ out)
          × ((acknowledge q.event.event_id v).0 ≡ ok tt)
          × ((acknowledge q.event.event_id v).1 ≡ w)

request_shape :
    (now : Time) (timing : TimingConfig) (event : ReadyEvent) (q : StartOrSignalRequest)
    → deliver_request now timing event ≡ ok q
    → (q.event ≡ event)
      × (q.input.initial_ready ≡ event ∷ [])
      × (workflow_id event.city_id event.run_id event.bead_id ≡ ok q.workflow_id)
unfolding deliver_request
request_shape now timing event q h =
    let (_, timed) = >>-ok (Event.validate event) _ h in
    let (_, named) =
      >>-ok (wrap (λ _. timing_invalid) (validate_timing (effective_timing now timing))) _ timed in
    let (id, found, made) = >>=-ok (workflow_id event.city_id event.run_id event.bead_id) _ named in
    (
      ap (λ r. r.event) (sym (ok_eq made)),
      ap (λ r. r.input.initial_ready) (sym (ok_eq made)),
      found ∙ ap (λ r. ok r.workflow_id) (ok_eq made),
    )

guarded_ok {ℓ} :
    {W : Type ℓ} (gateway : WorkflowGateway W) (acknowledge : Acker W) (w : W)
    (m : Result StartOrSignalRequest) {out : WorkflowReceipt} {w' : W}
    → and_then {A = WorkflowGateway W × Acker W × StartOrSignalRequest}
        (m >>= λ q. ok (gateway, acknowledge, q), w)
        (λ d. deliver_to d.0 d.1 d.2)
      ≡ (ok out, w')
    → (q : StartOrSignalRequest) × (m ≡ ok q) × (deliver_to gateway acknowledge q w ≡ (ok out, w'))
guarded_ok gateway acknowledge w (ok q) h = (q, refl, h)
guarded_ok gateway acknowledge w (err e) h = absurd (err_not_ok (ap (λ p. p.0) h))

deliver_to-Accepted {ℓ} :
    {W : Type ℓ} (gateway : WorkflowGateway W) (acknowledge : Acker W) (q : StartOrSignalRequest)
    (out : WorkflowReceipt) (w w' : W)
    → deliver_to gateway acknowledge q w ≡ (ok out, w')
    → q.input.initial_ready ≡ q.event ∷ []
    → workflow_id q.event.city_id q.event.run_id q.event.bead_id ≡ ok q.workflow_id
    → Accepted gateway acknowledge q.event out w w'
unfolding deliver_to
deliver_to-Accepted gateway acknowledge q out w w' h starts named =
    let (receipt, v, answered, rest) = and_then-ok _ (checkpoint acknowledge q) h in
    let (matches, same, done, world) = checkpoint-ok acknowledge q receipt out v w' rest in
    let middle = ap (λ p. p.1) answered in
    record {
      request = q;
      sends_event = refl;
      starts_with_event = starts;
      names_workflow = named;
      accepted = wrap-ok gateway_failed _ (ap (λ p. p.0) answered) ∙ ap ok same;
      same_workflow = subst (λ r. r.workflow_id ≡ q.workflow_id) same (ground arith);
      same_event = subst (λ r. r.event_id ≡ q.event.event_id) same (ground arith);
      acknowledged = ap (λ u. (acknowledge q.event.event_id u).0) middle ∙ done;
      world_after = ap (λ u. (acknowledge q.event.event_id u).1) middle ∙ world;
    }

-- A delivery that answers a receipt has sent the event to the workflow of its bead, with the event
-- as the start input too, has got this receipt, which names this workflow and this event, and has
-- then acknowledged the event without an error.
pub deliver-Accepted {ℓ} :
    {W : Type ℓ} (gateway : WorkflowGateway W) (acknowledge : Acker W) (timing : TimingConfig)
    (now : Time) (event : ReadyEvent) (receipt : WorkflowReceipt) (w w' : W)
    → deliver now
        (record { temporal = some gateway; acker = some acknowledge; timing = timing })
        event
        w
      ≡ (ok receipt, w')
    → Accepted gateway acknowledge event receipt w w'
unfolding deliver delivery
deliver-Accepted gateway acknowledge timing now event receipt w w' h =
    let (q, asked, sent_on) =
      guarded_ok gateway acknowledge w (deliver_request now timing event) h in
    let (same, starts, named) = request_shape now timing event q asked in
    subst (λ e. Accepted gateway acknowledge e receipt w w') same
      (deliver_to-Accepted gateway acknowledge q receipt w w' sent_on
        (starts ∙ ap (λ e. e ∷ []) (sym same))
        (subst (λ e. workflow_id e.city_id e.run_id e.bead_id ≡ ok q.workflow_id) (sym same) named))
