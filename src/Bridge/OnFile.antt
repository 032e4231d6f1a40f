-- ===== src/Bridge/OnFile.antt =====
-- reconciler.go and bridge.go with the FileBeadStore as the source of events and as their acker.
use gas_city.Prelude.{
  Bool-cases, some_eq, length, ◌==◌, nat_eq, Str, text_eq, int_eq, lookup-insert,
  lookup-insert_self, ℕ, suc, ◌+◌, ◌≡◌, refl, sym, ap, subst, ◌∙◌, ◌≢◌, inl, inr, Bool, false,
  Option, none, some, List, arith,
}
use gas_city.FileStore.Persistence.{Store, StoreFile, Env, not_renamed, execute, Decision, reply}
use gas_city.FileStore.Durability.{IsSynced}
use gas_city.FileStore.Records.{OutboxRecord, FileState}
use gas_city.Contracts.Event.{is_zero, ReadyEvent, Time}
use gas_city.Errors.{Result, ok}
use gas_city.Bridge.World.{WorkflowGateway, Acker}
use gas_city.FileStore.Operations.{acknowledge_ready_event, find_event, pending_ready_events}
use gas_city.FileStore.View.{
  file_event, Outcome, Success, unchanged, answered, rewritten, load-file_event, wrote,
  file_event-encode, execute-Success, execute-Outcome,
}
use gas_city.Contracts.Requests.{TimingConfig}
use gas_city.Bridge.Reconcile.{ReadyEventReconciler, ReconcileResult, reconcile}
use gas_city.FileStore.Sync.{execute-IsSynced}
use gas_city.FileStore.Inversion.{Acknowledges, acknowledge_ready_event-mutate}
use gas_city.Bridge.Repaired.{AllAcked, acknowledges_all}

-- What the reconciler sees and changes: Temporal, which is not of this repository, the file store,
-- and how many calls of the store there were. A store's memory has no key that its file lacks.
pub record World {ℓ} (V : Type ℓ) : Type ℓ where
  pub temporal : V
  pub calls : ℕ
  pub store : Store
  pub synced : IsSynced store.memory store.file

-- The file has the event's record, and it is acknowledged.
abbrev pub AckedIn : Str → StoreFile → Type 0
AckedIn id file =
    (r : OutboxRecord) × (file_event id file ≡ some r) × (is_zero r.acknowledged_at ≡ false)

module _ (env : Env) (id : Str) (store : Store) (ticks : is_zero env.now ≡ false) where
  abbrev body : FileState → Decision (Unit {0})
  body = acknowledge_ready_event env id

  decided :
      (s : FileState)
      → body s ≡ reply (ok tt)
      → (r : OutboxRecord) × (find_event id s ≡ some r) × (is_zero r.acknowledged_at ≡ false)
  unfolding acknowledge_ready_event
  decided s h = go (find_event id s) refl
    where
      go :
          (o : Option OutboxRecord)
          → find_event id s ≡ o
          → (r : OutboxRecord) × (find_event id s ≡ some r) × (is_zero r.acknowledged_at ≡ false)
      go none k = ground arith
      go (some r) k = (r, k, ground arith)

  -- An acknowledgement without an error is in the file.
  acknowledge-AckedIn :
      IsSynced (execute env body store).1.memory (execute env body store).1.file
      → (execute env body store).0 ≡ ok tt
      → AckedIn id (execute env body store).1.file
  acknowledge-AckedIn synced h = go (execute-Success body env store tt h)
    where
      go : Success body env store tt → AckedIn id (execute env body store).1.file
      go (answered l b e) =
          let (r, found, acked) = decided _ b in
          let (q, there) =
            (subst (λ (p : Store). IsSynced p.memory p.file) e synced).events id r found in
          let same : q ≡ r =
            some_eq
              (sym (load-file_event id env.readable store.file store.memory there l) ∙ found) in
          subst (λ (p : Store). AckedIn id p.file) (sym e) (r, there ∙ ap some same, acked)
      go (wrote s l b e) =
          let step : Acknowledges env id _ s = acknowledge_ready_event-mutate env id _ s b in
          subst (λ (p : Store). AckedIn id p.file) (sym e)
            (
              record step.old { acknowledged_at = env.now },
              file_event-encode id s ∙ (ap (find_event id) step.writes ∙ lookup-insert_self id _ _),
              ticks,
            )

  -- An acknowledgement keeps what is acknowledged in the file.
  acknowledge-keeps : (x : Str) → AckedIn x store.file → AckedIn x (execute env body store).1.file
  acknowledge-keeps x (r, there, acked) = go (execute-Outcome body env store)
    where
      go :
          Outcome body store (execute env body store).1.file
          → AckedIn x (execute env body store).1.file
      go (unchanged e) = subst (AckedIn x) (sym e) (r, there, acked)
      go (rewritten readable s a l b e) =
          let step : Acknowledges env id _ s = acknowledge_ready_event-mutate env id _ s b in
          let loaded = load-file_event x readable store.file store.memory there l in
          subst (AckedIn x) (sym e) (elim (Bool-cases (id == x)) [
            | inl same ↦ (
              record step.old { acknowledged_at = env.now },
              file_event-encode x s ∙ (ap (find_event x) step.writes ∙ rw (lookup-insert, same)),
              ticks,
            )
            | inr apart ↦ (
              r,
              file_event-encode x s
                  ∙ (ap (find_event x) step.writes ∙ rw (lookup-insert, apart) loaded),
              acked,
            )
          ])

-- The store's calls as the reconciler makes them: each call has its own lock, read, clock and write.
-- No write fails before its rename, and no clock is at the zero time.
module _ {ℓ} {V : Type ℓ} (env : ℕ → Env) (renames : (n : ℕ) → (env n).write ≢ not_renamed)
    (ticks : (n : ℕ) → is_zero (env n).now ≡ false) where
  abbrev call {κ} : {A : Type κ} → (Env → FileState → Decision A) → World V → Result A × World V
  call body w =
      let e = env w.calls in
      (
        (execute e (body e) w.store).0,
        record {
          temporal = w.temporal;
          calls = suc w.calls;
          store = (execute e (body e) w.store).1;
          synced = execute-IsSynced (body e) e w.store (renames w.calls) w.synced;
        },
      )

  -- PendingReadyEvents of the store.
  abbrev pub file_source : World V → Result (List ReadyEvent) × World V
  file_source = call (λ e. pending_ready_events)

  -- AcknowledgeReadyEvent of the store.
  abbrev pub file_acker : Acker (World V)
  file_acker id = call (λ e. acknowledge_ready_event e id)

  -- A call of Temporal does not change the store.
  abbrev pub outside {κ} : {A : Type κ} → (V → Result A × V) → World V → Result A × World V
  outside f w = ((f w.temporal).0, record w { temporal = (f w.temporal).1 })

  abbrev pub file_gateway : WorkflowGateway V → WorkflowGateway (World V)
  file_gateway g = record {
    signal_with_start = λ q. outside (g.signal_with_start q);
    signal_close = λ id c. outside (g.signal_close id c);
  }

  -- The reconciler whose source and acker are the file store.
  abbrev pub file_reconciler :
      WorkflowGateway V
      → (Str → Str → V → Result Bool × V)
      → TimingConfig
      → TimingConfig
      → ReadyEventReconciler (World V)
  file_reconciler gateway has timing own = record {
    source = some file_source;
    receipts = some (λ id event_id. outside (has id event_id));
    bridge = record {
      temporal = some (file_gateway gateway);
      acker = some file_acker;
      timing = timing;
    };
    timing = own;
  }

  -- With the FileBeadStore as its source and its acker, from a memory with no key that the file
  -- lacks, whatever Temporal and the query of receipts do, where no write of the store fails before
  -- its rename and its clock is never at the zero time: after a reconciliation without an error
  -- every event that PendingReadyEvents listed is acknowledged in the file; as many were scanned as
  -- were listed, and each of them is counted once, as acknowledged or as repaired.
  pub reconcile-AllAcked :
      (gateway : WorkflowGateway V) (has : Str → Str → V → Result Bool × V)
      (timing own : TimingConfig) (now : Time) (out : ReconcileResult) (w w' : World V)
      → reconcile now (file_reconciler gateway has timing own) w ≡ ((out, ok tt), w')
      → (events : List ReadyEvent) × ((execute (env w.calls) pending_ready_events w.store).0
          ≡ ok events)
        × AllAcked (λ id (v : World V). AckedIn id v.store.file) events w'
        × (out.scanned ≡ length events)
        × (out.acknowledged + out.repaired ≡ length events)
  reconcile-AllAcked gateway has timing own now out w w' =
      acknowledges_all (file_gateway gateway) file_acker timing now
        (λ id event_id. outside (has id event_id)) (λ id v. AckedIn id v.store.file) (λ q v x h. h)
        (λ id event_id v x h. h)
        (λ id v x. acknowledge-keeps (env v.calls) id v.store (ticks v.calls) x)
        (λ id v h.
          acknowledge-AckedIn (env v.calls) id v.store (ticks v.calls)
            (execute-IsSynced _ (env v.calls) v.store (renames v.calls) v.synced) h)
        file_source own out w w'
