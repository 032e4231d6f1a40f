-- ===== src/FileStore/Current.antt =====
-- bead_store.go: the outbox of the file over histories of calls.
use gas_city.Prelude.{
  some_eq, Str, ◌≡◌, sym, ap, subst, ◌∙◌, ◌≢◌, Bool, true, some, List, [], ◌∷◌, arith,
}
use gas_city.Errors.{ok}
use gas_city.FileStore.Records.{FileState, OutboxRecord, is_pending, BeadRecord}
use gas_city.FileStore.Persistence.{
  Env, StoreFile, Decision, Store, mutate, open_store, load, document, execute, encode,
}
use gas_city.FileStore.Calls.{
  Call, acknowledges, claims, completes, inspects, lists_pending, perform, records_failure, run,
  transitions,
}
use gas_city.FileStore.Durability.{IsSynced}
use gas_city.FileStore.View.{
  file_event, file_bead, execute-Outcome, load-file_event, file_event-encode, unchanged,
  load-file_bead, file_bead-encode, rewritten,
}
use gas_city.FileStore.Sync.{Renames, perform-IsSynced, open_store-IsSynced, load-IsSynced}
use gas_city.FileStore.Outbox.{
  transition-IsCurrent, IsCurrent, claim-IsCurrent, complete-IsCurrent, failure-IsCurrent,
  acknowledge-IsCurrent,
}
use gas_city.FileStore.Operations.{inspect, pending_ready_events}
use gas_city.Contracts.Event.{ReadyEvent}

-- In the file, a record that is neither acknowledged nor superseded is of an event whose bead is
-- there at the event's generation.
abbrev pub FileCurrent : StoreFile → Type 0
FileCurrent file =
    (id : Str) (r : OutboxRecord)
    → file_event id file ≡ some r
    → is_pending r ≡ true
    → (bead : BeadRecord) × (file_bead r.event.bead_id file ≡ some bead)
      × (bead.generation ≡ r.event.generation)

module _ {ℓ} {A : Type ℓ} (body : FileState → Decision A) (env : Env) (store : Store)
    (synced : IsSynced store.memory store.file) (current : FileCurrent store.file)
    (keeps : (s s' : FileState) (a : A) → IsCurrent s → body s ≡ mutate s' a → IsCurrent s') where
  -- What a load that succeeds leaves in memory is what the file says.
  loaded-IsCurrent :
      (readable : Bool)
      → (load readable store.file store.memory).0 ≡ ok tt
      → IsCurrent (load readable store.file store.memory).1
  loaded-IsCurrent readable l id r found waits =
      let later = load-IsSynced readable store.file store.memory synced in
      let (q, there) = later.events id r found in
      let same : q ≡ r =
        some_eq (sym (load-file_event id readable store.file store.memory there l) ∙ found) in
      let (bead, in_file, generation) = current id r (there ∙ ap some same) waits in
      (bead, load-file_bead r.event.bead_id readable store.file store.memory in_file l, generation)

  encoded-FileCurrent : (s : FileState) → IsCurrent s → FileCurrent (document (encode s))
  encoded-FileCurrent s holds id r there waits =
      let (bead, found, generation) = holds id r (sym (file_event-encode id s) ∙ there) waits in
      (bead, file_bead-encode r.event.bead_id s ∙ found, generation)

  execute-FileCurrent : FileCurrent (execute env body store).1.file
  execute-FileCurrent = elim (execute-Outcome body env store) [
    | unchanged e ↦ subst FileCurrent (sym e) current
    | rewritten readable s a l b e ↦
        subst FileCurrent (sym e)
          (encoded-FileCurrent s (keeps _ s a (loaded-IsCurrent readable l) b))
  ]

-- No clock of the calls is at the zero time.
abbrev pub Ticks : List (Env × Call) → Type 0
Ticks [] = Unit
Ticks ((env, _) ∷ calls) = ((id : Str) → env.superseded_now id ≢ 0) × Ticks calls

inspect-IsCurrent :
    (id : Str) (s s' : FileState) (a : BeadRecord) → inspect id s ≡ mutate s' a → IsCurrent s'
unfolding inspect
inspect-IsCurrent id s s' a e = absurd (ground arith)

pending-IsCurrent :
    (s s' : FileState) (a : List ReadyEvent) → pending_ready_events s ≡ mutate s' a → IsCurrent s'
unfolding pending_ready_events
pending-IsCurrent s s' a e = absurd (ground arith)

perform-FileCurrent :
    (env : Env) (call : Call) (store : Store)
    → ((id : Str) → env.superseded_now id ≢ 0)
    → IsSynced store.memory store.file
    → FileCurrent store.file
    → FileCurrent (perform env call store).file
unfolding perform
perform-FileCurrent env (transitions c r b g f) store ticks synced current =
    execute-FileCurrent _ env store synced current
      (λ s s' a h e. transition-IsCurrent s s' h env c r b g f a ticks e)
perform-FileCurrent env (claims c) store ticks synced current =
    execute-FileCurrent _ env store synced current (λ s s' a h e. claim-IsCurrent s s' h c a e)
perform-FileCurrent env (completes c) store ticks synced current =
    execute-FileCurrent _ env store synced current (λ s s' a h e. complete-IsCurrent s s' h c e)
perform-FileCurrent env (records_failure f) store ticks synced current =
    execute-FileCurrent _ env store synced current (λ s s' a h e. failure-IsCurrent s s' h f e)
perform-FileCurrent env (inspects b) store ticks synced current =
    execute-FileCurrent _ env store synced current (λ s s' a h e. inspect-IsCurrent b s s' a e)
perform-FileCurrent env lists_pending store ticks synced current =
    execute-FileCurrent _ env store synced current (λ s s' a h e. pending-IsCurrent s s' a e)
perform-FileCurrent env (acknowledges id) store ticks synced current =
    execute-FileCurrent _ env store synced current
      (λ s s' a h e. acknowledge-IsCurrent s s' h env id e)

calls-FileCurrent :
    (calls : List (Env × Call)) (store : Store)
    → Renames calls
    → Ticks calls
    → IsSynced store.memory store.file
    → FileCurrent store.file
    → FileCurrent (run calls store).file
unfolding run
calls-FileCurrent [] store renames ticks synced current = current
calls-FileCurrent ((env, call) ∷ calls) store renames ticks synced current =
    calls-FileCurrent calls (perform env call store) renames.1 ticks.1
      (perform-IsSynced env call store renames.0 synced)
      (perform-FileCurrent env call store ticks.0 synced current)

-- Over any history of calls on a store that OpenFileBeadStore answered, in which no write fails
-- before its rename and no clock is at the zero time: if each event that waits in the file is of its
-- bead's generation before, so it is after. An event waits if it is neither acknowledged nor
-- superseded.
pub run-FileCurrent :
    (has_path has_clock readable : Bool) (file : StoreFile) (store : Store)
    (calls : List (Env × Call))
    → open_store has_path has_clock readable file ≡ ok store
    → Renames calls
    → Ticks calls
    → FileCurrent store.file
    → FileCurrent (run calls store).file
run-FileCurrent has_path has_clock readable file store calls opens renames ticks =
    calls-FileCurrent calls store renames ticks
      (open_store-IsSynced has_path has_clock readable file store opens)
