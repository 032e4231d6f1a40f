-- ===== src/Bridge/Repaired.antt =====
-- reconciler.go: a reconciliation without an error, over any gateway, receipts and acker whose calls
-- keep what is acknowledged.
use gas_city.Prelude.{
  if_cases, length, Str, ◌+◌, ◌≡◌, refl, sym, ap, subst, ◌∙◌, Bool, true, false, some, List, [],
  ◌∷◌, arith,
}
use gas_city.Errors.{
  ◌>>=◌, err_not_ok, Error, Result, ok, err, receipt_query_failed, source_failed, redelivery_failed,
}
use gas_city.Bridge.World.{and_then, WorkflowGateway, Acker, StartOrSignalRequest, and_then-ok}
use gas_city.Contracts.Requests.{TimingConfig}
use gas_city.Contracts.Event.{Time, ReadyEvent}
use gas_city.Bridge.Reconcile.{
  reconcile_event, query_and_redeliver, wrapped, ReconcileResult, reconcile_all, redeliver, Report,
  answer_seen, tally, no_result, reconcile,
}
use gas_city.Bridge.Delivery.{
  deliver, ReadyEventBridge, checkpoint, delivery, receipt_matches, deliver_to, deliver_request,
}
use gas_city.Contracts.Link.{WorkflowReceipt, workflow_id}
use gas_city.Bridge.Accepted.{deliver-Accepted}

-- What holds of the world before a call that may end with an error, and is kept by each part of the
-- call, holds after it.
and_then-keeps {ℓ κ η μ} :
    {W : Type ℓ} {A : Type κ} {B : Type η} (P : W → Type μ) (m : Result A × W)
    (k : A → W → Result B × W)
    → P m.1
    → ((a : A) (v : W) → P v → P (k a v).1)
    → P (and_then m k).1
and_then-keeps P (ok a, v) k h keeps = keeps a v h
and_then-keeps P (err e, v) k h keeps = h

-- Each of the events is acknowledged.
abbrev pub AllAcked {ℓ μ} : {W : Type ℓ} → (Str → W → Type μ) → List ReadyEvent → W → Type μ
AllAcked IsAcked [] w = Unit
AllAcked IsAcked (e ∷ es) w = IsAcked e.event_id w × AllAcked IsAcked es w

module _ {ℓ μ} {W : Type ℓ} (gateway : WorkflowGateway W) (acknowledge : Acker W)
    (timing : TimingConfig) (now : Time) (has : Str → Str → W → Result Bool × W)
    (IsAcked : Str → W → Type μ)
    (gateway_keeps : (q : StartOrSignalRequest) (w : W) (x : Str)
      → IsAcked x w
      → IsAcked x (gateway.signal_with_start q w).1)
    (has_keeps : (id event_id : Str) (w : W) (x : Str)
      → IsAcked x w
      → IsAcked x (has id event_id w).1)
    (acker_keeps : (id : Str) (w : W) (x : Str) → IsAcked x w → IsAcked x (acknowledge id w).1)
    (acker_acks : (id : Str) (w : W)
      → (acknowledge id w).0 ≡ ok tt
      → IsAcked id (acknowledge id w).1) where
  abbrev bridge : ReadyEventBridge W
  bridge = record { temporal = some gateway; acker = some acknowledge; timing = timing }

  checkpoint-keeps :
      (q : StartOrSignalRequest) (receipt : WorkflowReceipt) (w : W) (x : Str)
      → IsAcked x w
      → IsAcked x (checkpoint acknowledge q receipt w).1
  unfolding checkpoint
  checkpoint-keeps q receipt w x h =
      if_cases (λ (m : Result WorkflowReceipt × W). IsAcked x m.1) (receipt_matches q receipt) _ _
        (λ _. acker_keeps q.event.event_id w x h) (λ _. h)

  deliver-keeps :
      (event : ReadyEvent) (w : W) (x : Str)
      → IsAcked x w
      → IsAcked x (deliver now bridge event w).1
  unfolding deliver delivery deliver_to
  deliver-keeps event w x h = go (deliver_request now timing event)
    where
      go :
          (m : Result StartOrSignalRequest)
          → IsAcked x
              (and_then {A = WorkflowGateway W × Acker W × StartOrSignalRequest}
                (m >>= λ q. ok (gateway, acknowledge, q), w)
                (λ d. deliver_to d.0 d.1 d.2)).1
      go (ok q) =
          and_then-keeps (IsAcked x) _ (checkpoint acknowledge q) (gateway_keeps q w x h)
            (λ receipt v. checkpoint-keeps q receipt v x)
      go (err e) = h

  round-keeps :
      (event : ReadyEvent) (w : W) (x : Str)
      → IsAcked x w
      → IsAcked x (reconcile_event now bridge has event w).1
  unfolding reconcile_event
  round-keeps event w x h =
      and_then-keeps (IsAcked x) (workflow_id event.city_id event.run_id event.bead_id, w)
        (query_and_redeliver now bridge has event) h
        (λ id v k.
          and_then-keeps (IsAcked x) (wrapped receipt_query_failed (has id event.event_id v))
            (redeliver now bridge event) (has_keeps id event.event_id v x k)
            (λ seen u l.
              and_then-keeps (IsAcked x) (wrapped redelivery_failed (deliver now bridge event u))
                (answer_seen seen) (deliver-keeps event u x l) (λ _ t o. o)))

  wrapped-ok {κ} :
      {A : Type κ} (f : Error → Error) (m : Result A × W) {a : A} {w : W}
      → wrapped f m ≡ (ok a, w)
      → m ≡ (ok a, w)
  wrapped-ok f (ok a, v) h = h
  wrapped-ok f (err e, v) h = absurd (err_not_ok (ap (λ p. p.0) h))

  answers {κ} : {A : Type κ} {m : Result A × W} {a : A} → m.0 ≡ ok a → m ≡ (ok a, m.1)
  answers {m = m} h = ap (λ o. (o, m.1)) h

  round-acks :
      (event : ReadyEvent) (seen : Bool) (w : W)
      → (reconcile_event now bridge has event w).0 ≡ ok seen
      → IsAcked event.event_id (reconcile_event now bridge has event w).1
  unfolding reconcile_event
  round-acks event seen w h =
      let (id, v, _, queried) =
        and_then-ok (workflow_id event.city_id event.run_id event.bead_id, w)
          (query_and_redeliver now bridge has event)
          {w = (reconcile_event now bridge has event w).1} (answers h) in
      let (was, u, _, delivered) =
        and_then-ok (wrapped receipt_query_failed (has id event.event_id v))
          (redeliver now bridge event) queried in
      let (receipt, t, answered, ended) =
        and_then-ok (wrapped redelivery_failed (deliver now bridge event u)) (answer_seen was)
          delivered in
      let accepted =
        deliver-Accepted gateway acknowledge timing now event receipt u t
          (wrapped-ok redelivery_failed (deliver now bridge event u) answered) in
      subst (IsAcked event.event_id) (accepted.world_after ∙ ap (λ p. p.1) ended)
        (acker_acks event.event_id _ accepted.acknowledged)

  loop-keeps :
      (es : List ReadyEvent) (result : ReconcileResult) (w : W) (x : Str)
      → IsAcked x w
      → IsAcked x (reconcile_all now bridge has es result w).1
  unfolding reconcile_all
  loop-keeps [] result w x h = h
  loop-keeps (e ∷ es) result w x h =
      go (reconcile_event now bridge has e w).0 (reconcile_event now bridge has e w).1
        (round-keeps e w x h) (λ seen v. loop-keeps es (tally seen result) v x)
    where
      go :
          (m : Result Bool) (v : W)
          → IsAcked x v
          → ((seen : Bool) (u : W)
              → IsAcked x u
              → IsAcked x (reconcile_all now bridge has es (tally seen result) u).1)
          → IsAcked x
              (elim m as (λ _. Report × W) [
                | ok seen ↦ reconcile_all now bridge has es (tally seen result) v
                | err e' ↦ ((result, err e'), v)
              ]).1
      go (ok seen) v k later = later seen v k
      go (err e') v k later = k

  -- What a loop over these events has done when it ends without an error.
  abbrev Repaired : List ReadyEvent → ReconcileResult → ReconcileResult → W → Type μ
  Repaired es result out w =
      AllAcked IsAcked es w
      × (out.scanned ≡ result.scanned)
      × (out.acknowledged + out.repaired ≡ result.acknowledged + result.repaired + length es)

  tally_one :
      (seen : Bool) (es : List ReadyEvent) (e : ReadyEvent) (result out : ReconcileResult) (w : W)
      → IsAcked e.event_id w
      → Repaired es (tally seen result) out w
      → Repaired (e ∷ es) result out w
  tally_one true es e result out w h (acked, scanned, counted) =
      ((h, acked), scanned, omega (arith, counted))
  tally_one false es e result out w h (acked, scanned, counted) =
      ((h, acked), scanned, omega (arith, counted))

  reconcile_all-Repaired :
      (es : List ReadyEvent) (result out : ReconcileResult) (w w' : W)
      → reconcile_all now bridge has es result w ≡ ((out, ok tt), w')
      → Repaired es result out w'
  unfolding reconcile_all
  reconcile_all-Repaired [] result out w w' h =
      let same = ap (λ p. p.0.0) h in
      (
        tt,
        ap (λ r. r.scanned) (sym same),
        omega (arith, ap (λ r. r.acknowledged) same, ap (λ r. r.repaired) same),
      )
  reconcile_all-Repaired (e ∷ es) result out w w' h =
      go (reconcile_event now bridge has e w).0 refl h
        (λ seen v. reconcile_all-Repaired es (tally seen result) out v w')
    where
      v : W
      v = (reconcile_event now bridge has e w).1

      go :
          (m : Result Bool)
          → (reconcile_event now bridge has e w).0 ≡ m
          → (elim m as (λ _. Report × W) [
            | ok seen ↦ reconcile_all now bridge has es (tally seen result) v
            | err e' ↦ ((result, err e'), v)
          ])
            ≡ ((out, ok tt), w')
          → ((seen : Bool) (u : W)
              → reconcile_all now bridge has es (tally seen result) u ≡ ((out, ok tt), w')
              → Repaired es (tally seen result) out w')
          → Repaired (e ∷ es) result out w'
      go (ok seen) k rest later =
          tally_one seen es e result out w'
            (subst (IsAcked e.event_id) (ap (λ p. p.1) rest)
              (loop-keeps es (tally seen result) v e.event_id (round-acks e seen w k)))
            (later seen v rest)
      go (err e') k rest later = absurd (err_not_ok (ap (λ p. p.0.1) rest))

  -- Where a call of Temporal, a query and an acknowledgement keep what is acknowledged, and an
  -- acknowledgement without an error acknowledges its event: a reconciliation without an error
  -- leaves every event that the source listed acknowledged, has scanned as many as were listed, and
  -- each of them is counted once, as acknowledged or as repaired.
  pub acknowledges_all :
      (source : W → Result (List ReadyEvent) × W) (own : TimingConfig) (out : ReconcileResult)
      (w w' : W)
      → reconcile now
          (record {
            source = some source;
            receipts = some has;
            bridge = record { temporal = some gateway; acker = some acknowledge; timing = timing };
            timing = own;
          })
          w
        ≡ ((out, ok tt), w')
      → (events : List ReadyEvent) × ((source w).0 ≡ ok events)
        × AllAcked IsAcked events w'
        × (out.scanned ≡ length events)
        × (out.acknowledged + out.repaired ≡ length events)
  unfolding reconcile
  acknowledges_all source own out w w' h = go (source w).0 refl h
    where
      v : W
      v = (source w).1

      go :
          (m : Result (List ReadyEvent))
          → (source w).0 ≡ m
          → (elim m as (λ _. Report × W) [
            | ok events ↦
                reconcile_all now bridge has events (record no_result { scanned = length events }) v
            | err e ↦ ((no_result, err (source_failed e)), v)
          ])
            ≡ ((out, ok tt), w')
          → (events : List ReadyEvent) × ((source w).0 ≡ ok events)
            × AllAcked IsAcked events w'
            × (out.scanned ≡ length events)
            × (out.acknowledged + out.repaired ≡ length events)
      go (ok events) e k =
          let (acked, scanned, counted) =
            reconcile_all-Repaired events (record no_result { scanned = length events }) out v w'
              k in
          (events, e, acked, scanned, omega (arith, counted))
      go (err e') e k = absurd (err_not_ok (ap (λ p. p.0.1) k))
