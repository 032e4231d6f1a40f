-- ===== src/Canonical/Activities.antt =====
-- outcome_activity.go: the activities that deliver and acknowledge an outcome.
use gas_city.Prelude.{◌==◌, nat_eq, Str, text_eq, int_eq, Bool, true, false, Option, none, some}
use gas_city.Errors.{
  Check, ◌>>=◌, ◌>>◌, require, wrap, Result, ok, err, not_configured, configured_store_ref,
  store_ref_mismatch, notification_failed, record_delivery_failed, record_acknowledgement_failed,
}
use gas_city.Outcomes.Envelope
use gas_city.Outcomes.Envelope.{OutcomeReady, validate_store_ref}
use gas_city.Outcomes.Records.{
  OutcomeDelivery, OutcomeAcknowledgement, OutcomeRecord, validate_delivery,
  validate_acknowledgement,
}
use gas_city.Canonical.Outbox.{mark_delivered, mark_acknowledged}
use gas_city.Canonical.Transaction.{Table}
use gas_city.Canonical.Calls.{Setting}
use gas_city.Contracts.Identifiers.{validate_segment}

-- OutcomeNotificationReceipt
pub record NotificationReceipt : Type 0 where
  pub delivery_ref : Str
  pub coordinator_fence : Str

-- OutcomeDeliveryRequest
pub record DeliveryRequest : Type 0 where
  pub envelope : OutcomeReady
  pub delivery_cycle : Str

-- CoordinatorOutcomeActivities; the notifier is what `Deliver` of it answers, and `stored` says
-- whether there is a store, the table of the canonical one.
pub record OutcomeActivities : Type 0 where
  pub stored : Bool
  pub notifier : Option (DeliveryRequest → Result NotificationReceipt)
  pub store_ref : Str

-- OutcomeDeliveryRequest.Validate
unfoldable pub validate_request : DeliveryRequest → Check
validate_request r =
    Envelope.validate r.envelope >> validate_segment "outcome delivery cycle" r.delivery_cycle

abbrev notified :
    Option (DeliveryRequest → Result NotificationReceipt)
    → DeliveryRequest
    → Result NotificationReceipt
notified none r = err (not_configured "coordinator outcome notifier")
notified (some notify) r = wrap notification_failed (notify r)

abbrev has_notifier : Option (DeliveryRequest → Result NotificationReceipt) → Bool
has_notifier none = false
has_notifier (some _) = true

abbrev delivery_for : OutcomeReady → NotificationReceipt → OutcomeDelivery
delivery_for o receipt = record {
  outcome_id = o.outcome_id;
  work_id = o.work_id;
  delivery_ref = receipt.delivery_ref;
  coordinator_fence = receipt.coordinator_fence;
}

-- Deliver, up to the store.
unfoldable pub check_and_notify : OutcomeActivities → DeliveryRequest → Result OutcomeDelivery
check_and_notify a r = do
  require a.stored (not_configured "coordinator outcome store")
  require (has_notifier a.notifier) (not_configured "coordinator outcome notifier")
  wrap configured_store_ref (validate_store_ref a.store_ref)
  validate_request r
  require (r.envelope.store_ref == a.store_ref) store_ref_mismatch
  receipt ← notified a.notifier r
  let delivery = delivery_for r.envelope receipt
  validate_delivery delivery
  ok delivery

abbrev delivery_of : OutcomeRecord → OutcomeDelivery
delivery_of r = record {
  outcome_id = r.envelope.outcome_id;
  work_id = r.envelope.work_id;
  delivery_ref = r.delivery_ref;
  coordinator_fence = r.coordinator_fence;
}

abbrev delivery_stored : Result OutcomeRecord × Table → Result OutcomeDelivery × Table
delivery_stored (m, t) = (wrap record_delivery_failed m >>= λ r. ok (delivery_of r), t)

abbrev store_delivery : Setting → Result OutcomeDelivery → Table → Result OutcomeDelivery × Table
store_delivery s (ok d) t = delivery_stored (mark_delivered s.attempts s.done_at s.now d t)
store_delivery s (err e) t = (err e, t)

-- Deliver
unfoldable pub deliver_activity :
    OutcomeActivities → Setting → DeliveryRequest → Table → Result OutcomeDelivery × Table
unfolding check_and_notify
deliver_activity a s r t = store_delivery s (check_and_notify a r) t

-- Acknowledge, up to the store.
unfoldable pub check_acknowledgement : OutcomeActivities → OutcomeAcknowledgement → Check
check_acknowledgement a k = do
  require a.stored (not_configured "coordinator outcome store")
  wrap configured_store_ref (validate_store_ref a.store_ref)
  validate_acknowledgement k
  require (k.store_ref == a.store_ref) store_ref_mismatch

abbrev pub acknowledgement_stored :
    Check → Result OutcomeRecord × Table → Table → Result OutcomeRecord × Table
acknowledgement_stored (err e) run t = (err e, t)
acknowledgement_stored (ok _) run t = (wrap record_acknowledgement_failed run.0, run.1)

-- Acknowledge
unfoldable pub acknowledge_activity :
    OutcomeActivities → Setting → OutcomeAcknowledgement → Table → Result OutcomeRecord × Table
unfolding check_acknowledgement
acknowledge_activity a s k t =
    acknowledgement_stored (check_acknowledgement a k)
      (mark_acknowledged s.attempts s.done_at s.now k t) t
