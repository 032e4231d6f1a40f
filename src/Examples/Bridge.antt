-- ===== src/Examples/Bridge.antt =====
-- Runs of the bridge, whose world is the list of the events acknowledged, and of the reconciler on the
-- file store.
use gas_city.Prelude.{
  length, all, All, Str, Str-discrete, ℤ-discrete, ℤ, text, is_trimmed, decimal, lookup, insert,
  merge, sha256, pos, ℕ, zero, ◌-◌, ◌/◌, ◌≡◌, refl, ap, ◌∙◌, ◌≢◌, Bool, true, false, not, some,
  List, [], ◌∷◌, arith,
}
use gas_city.Errors.{Result, ok, err, source_failed}
use gas_city.Examples.Data.{event_at, sound}
use gas_city.Contracts.Event.{ReadyEvent, is_zero}
use gas_city.Bridge.World.{StartOrSignalRequest, WorkflowGateway, Acker}
use gas_city.Contracts.Link.{workflow_id, WorkflowReceipt}
use gas_city.Contracts.Requests.{TimingConfig}
use gas_city.Bridge.Delivery.{
  request_for, deliver_request, deliver, ReadyEventBridge, delivery, deliver_to, checkpoint,
}
use gas_city.Bridge.Reconcile.{
  ReconcileResult, reconcile, reconcile_all, reconcile_event, ReadyEventReconciler, no_result,
  Report,
}
use gas_city.Bridge.Repaired.{AllAcked}
use gas_city.Bridge.OnFile.{
  reconcile-AllAcked, AckedIn, World, file_reconciler, file_source, file_acker,
}
use gas_city.FileStore.Operations.{pending_ready_events, acknowledge_ready_event}
use gas_city.Bridge.Accepted.{Accepted, deliver-Accepted}
use gas_city.FileStore.Persistence.{Env, execute, document, not_renamed, written, encode}
use gas_city.FileStore.Records.{FileState}
use gas_city.FileStore.Durability.{IsSynced}
use gas_city.FileStore.Sync.{written-IsSynced}

abbrev Acks : Type 0
Acks = List Str

abbrev receipt_of : StartOrSignalRequest → WorkflowReceipt
receipt_of q = record {
  workflow_id = q.workflow_id;
  run_id = text "first-run";
  event_id = q.event.event_id;
}

abbrev gateway : WorkflowGateway Acks
gateway = record {
  signal_with_start = λ q w. (ok (receipt_of q), w);
  signal_close = λ id c w. (ok tt, w);
}

abbrev acknowledge : Acker Acks
acknowledge id w = (ok tt, id ∷ w)

abbrev timing : TimingConfig
timing = record { heartbeat_timeout = pos 5; reconcile_interval = pos 5; clock = some 4 }

pub named :
    workflow_id (text "city") (text "run") (text "bead")
    ≡ ok (text "bead-orchestration/city/run/bead")
unfolding workflow_id gas_city.Contracts.Identifiers.validate_segment gas_city.Prelude.is_trimmed
    gas_city.Contracts.Identifiers.segment_pattern
    gas_city.Contracts.Identifiers.validate_workflow_id
named = refl

abbrev event : ReadyEvent
event = event_at 5

abbrev request : StartOrSignalRequest
request = request_for (text "bead-orchestration/city/run/bead") event (pos 5)

asks : deliver_request 4 timing event ≡ ok request
unfolding deliver_request gas_city.Contracts.Requests.validate_timing gas_city.Prelude.ℤ-discrete
asks = rw (sound 5 (ground arith), named) refl

abbrev bridge : ReadyEventBridge Acks
bridge = record { temporal = some gateway; acker = some acknowledge; timing = timing }

delivers : deliver 4 bridge event [] ≡ (ok (receipt_of request), event.event_id ∷ [])
unfolding deliver delivery deliver_to checkpoint
delivers = ground (arith, asks)

deliver-Accepted_example :
    Accepted gateway acknowledge event (receipt_of request) [] (event.event_id ∷ [])
deliver-Accepted_example =
    deliver-Accepted gateway acknowledge timing 4 event (receipt_of request) []
      (event.event_id ∷ []) delivers

abbrev waiting_state : FileState
waiting_state = record {
  version = pos 1;
  beads = some [];
  outbox =
      some
        ((event.event_id, record { event = event; acknowledged_at = 0; superseded_at = 0 }) ∷ []);
}

abbrev acked_state : FileState
acked_state = record waiting_state {
  outbox =
      some
        ((event.event_id, record { event = event; acknowledged_at = 6; superseded_at = 0 }) ∷ []);
}

abbrev good : ℕ → Env
good n = record {
  lockable = true;
  readable = true;
  now = 6;
  superseded_now = λ _. 6;
  write = written;
  reloadable = true;
}

written_renames : (n : ℕ) → (good n).write ≢ not_renamed
written_renames n h = cc

good_ticks : (n : ℕ) → is_zero (good n).now ≡ false
good_ticks n = ground arith

state-IsSynced : (s : FileState) → IsSynced s (document (encode s))
state-IsSynced s = written-IsSynced s

abbrev waiting_world : World Acks
waiting_world = record {
  temporal = [];
  calls = 0;
  store = record { memory = waiting_state; file = document (encode waiting_state) };
  synced = state-IsSynced waiting_state;
}

abbrev has : Str → Str → Acks → Result Bool × Acks
has id event_id w = (ok true, w)

abbrev report : ReconcileResult
report = record { scanned = 1; acknowledged = 1; repaired = 0 }

abbrev last_world : World Acks
last_world =
    (reconcile 4 (file_reconciler good written_renames good_ticks gateway has timing timing)
      waiting_world).1

lists : (execute (good 0) pending_ready_events waiting_world.store).0 ≡ ok (event ∷ [])
unfolding execute pending_ready_events gas_city.Prelude.sort_by ℤ-discrete gas_city.Prelude.lookup
    gas_city.Prelude.merge gas_city.Prelude.insert gas_city.Prelude.Str-discrete
    gas_city.Contracts.Identifiers.ready_event_id gas_city.Prelude.sha256 gas_city.Prelude.decimal
lists = refl

abbrev listed_world : World Acks
listed_world = (file_source good written_renames good_ticks waiting_world).1

acks : (file_acker good written_renames good_ticks event.event_id listed_world).0 ≡ ok tt
unfolding execute pending_ready_events acknowledge_ready_event ℤ-discrete gas_city.Prelude.lookup
    gas_city.Prelude.merge gas_city.Prelude.insert gas_city.Prelude.Str-discrete
    gas_city.Contracts.Identifiers.ready_event_id gas_city.Prelude.sha256 gas_city.Prelude.decimal
acks = refl

abbrev reconciler : ReadyEventReconciler (World Acks)
reconciler = file_reconciler good written_renames good_ticks gateway has timing timing

delivers_on_file :
    (w : World Acks)
    → (file_acker good written_renames good_ticks event.event_id w).0 ≡ ok tt
    → (deliver 4 reconciler.bridge event w).0 ≡ ok (receipt_of request)
unfolding deliver delivery deliver_to checkpoint
delivers_on_file w h = ground (arith, asks, h)

abbrev checks : Str → Str → World Acks → Result Bool × World Acks
checks id event_id w =
    ((has id event_id w.temporal).0, record w { temporal = (has id event_id w.temporal).1 })

loops :
    (reconcile_all 4 reconciler.bridge checks
      (event ∷ [])
      (record no_result { scanned = 1 })
      listed_world).0
    ≡ (report, ok tt)
unfolding reconcile_all reconcile_event
loops = ground (arith, named, delivers_on_file listed_world acks)

answers : (reconcile 4 reconciler waiting_world).0 ≡ (report, ok tt)
unfolding reconcile
answers =
    ap
      (λ (m : Result (List ReadyEvent)).
        (elim m as (λ _. Report × World Acks) [
          | ok events ↦
              reconcile_all 4 reconciler.bridge checks events
                (record no_result { scanned = length events }) listed_world
          | err e ↦ ((no_result, err (source_failed e)), listed_world)
        ]).0)
      lists
    ∙ loops

reconcile-AllAcked_example :
    (events : List ReadyEvent) × ((execute (good 0) pending_ready_events waiting_world.store).0
      ≡ ok events)
    × AllAcked (λ id (v : World Acks). AckedIn id v.store.file) events last_world
    × (1 ≡ length events)
    × (1 ≡ length events)
reconcile-AllAcked_example =
    reconcile-AllAcked good written_renames good_ticks gateway has timing timing 4 report
      waiting_world last_world (ap (λ p. (p, last_world)) answers)
