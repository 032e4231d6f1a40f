-- ===== src/FileStore/LostWrite.antt =====
-- bead_store.go: `load` decodes the file into the maps that are in memory, and `json.Unmarshal`
-- keeps the entries of a map that is there. So the reload after a failed write does not take back
-- a bead that TransitionReady had put into memory.
use gas_city.Prelude.{
  nat_eq, Str, text_eq, ==-refl, int_eq, ℤ, Map, lookup, merge, lookup-merge_miss,
  lookup-insert_self, pos, ◌≡◌, refl, ap, ◌∙◌, true, none, some, arith,
}
use gas_city.Errors.{Check, ◌>>◌, Result, ok, err, persist_failed}
use gas_city.Contracts.Identifiers.{ready_event_id}
use gas_city.Contracts.Formula.{FormulaRef, formula_eq}
use gas_city.Contracts.Event.{ReadyEvent, Time, event_of, validate, new_ready_event}
use gas_city.FileStore.Records.{BeadRecord, OutboxRecord, FileState}
use gas_city.FileStore.Persistence.{
  decode, StoreFile, document, Env, Store, Write, not_renamed, load, encode, Decision, reply,
  mutate, commit, persist_mutation, execute,
}
use gas_city.FileStore.View.{file_bead, file_event}
use gas_city.FileStore.Operations.{
  new_bead, find_bead, find_event, write_ready, transition_ready, decide_ready,
}

module _ (beads : Map BeadRecord) (outbox : Map OutboxRecord) where
  -- A healthy store: memory is what the file says.
  abbrev pub healthy_state : FileState
  healthy_state = record { version = pos 1; beads = some beads; outbox = some outbox }

  abbrev pub healthy_file : StoreFile
  healthy_file = document (encode healthy_state)

  abbrev pub healthy_store : Store
  healthy_store = record { memory = healthy_state; file = healthy_file }

-- A call in which all goes well but for the write.
abbrev pub calm : Write → Time → (Str → Time) → Env
calm write now superseded_now = record {
  lockable = true;
  readable = true;
  now = now;
  superseded_now = superseded_now;
  write = write;
  reloadable = true;
}

module _ (city_id run_id bead_id : Str) (generation : ℤ) (formula : FormulaRef) where
  abbrev event_at : Time → ReadyEvent
  event_at now = event_of city_id run_id bead_id generation formula now

  made :
      (env : Env)
      → validate (event_at env.now) ≡ ok tt
      → new_ready_event city_id run_id bead_id generation formula env.now ≡ ok (event_at env.now)
  unfolding new_ready_event
  made env sound = ap (λ (k : Check). k >> ok (event_at env.now)) sound

  transition-new :
      (env : Env) (s : FileState)
      → validate (event_at env.now) ≡ ok tt
      → find_bead bead_id s ≡ none
      → transition_ready env city_id run_id bead_id generation formula s
        ≡ mutate (write_ready env (event_at env.now) s) (event_at env.now)
  unfolding transition_ready decide_ready
  transition-new env s sound missing =
      ap
        (λ (x : Result ReadyEvent). elim x [
          | ok event ↦ decide_ready env event (find_bead bead_id s) s
          | err e ↦ reply (err e)
        ])
        (made env sound)
      ∙ ap (λ o. decide_ready env (event_at env.now) o s) missing

  transition-again :
      (env : Env) (s : FileState) (old : BeadRecord) (r : OutboxRecord)
      → validate (event_at env.now) ≡ ok tt
      → find_bead bead_id s ≡ some old
      → old.generation ≡ generation
      → find_event (ready_event_id city_id run_id bead_id generation) s ≡ some r
      → r.event.formula ≡ formula
      → transition_ready env city_id run_id bead_id generation formula s ≡ reply (ok r.event)
  unfolding transition_ready decide_ready
  transition-again env s old r sound found same there formula' =
      ap
        (λ (x : Result ReadyEvent). elim x [
          | ok event ↦ decide_ready env event (find_bead bead_id s) s
          | err e ↦ reply (err e)
        ])
        (made env sound)
      ∙ ap (λ o. decide_ready env (event_at env.now) o s) found
      ∙ ground arith

-- A call that loads, decides to write and fails before the rename: the file stays, and memory is
-- what the reload makes of the state that was not written.
failed-execute {ℓ} :
    {A : Type ℓ} (body : FileState → Decision A) (env : Env) (store : Store) (s' : FileState)
    (a : A)
    → env.lockable ≡ true
    → env.write ≡ not_renamed
    → (load env.readable store.file store.memory).0 ≡ ok tt
    → body (load env.readable store.file store.memory).1 ≡ mutate s' a
    → (load env.reloadable store.file s').0 ≡ ok tt
    → execute env body store ≡ (
      err persist_failed,
      record { memory = (load env.reloadable store.file s').1; file = store.file },
    )
unfolding execute commit persist_mutation
failed-execute body env store s' a locked failed loaded decides reloads =
    rw (locked, loaded, decides, commit, failed, reloads)

answered-execute {ℓ} :
    {A : Type ℓ} (body : FileState → Decision A) (env : Env) (store : Store) (r : Result A)
    → env.lockable ≡ true
    → (load env.readable store.file store.memory).0 ≡ ok tt
    → body (load env.readable store.file store.memory).1 ≡ reply r
    → execute env body store
      ≡ (r, record { memory = (load env.readable store.file store.memory).1; file = store.file })
unfolding execute commit
answered-execute body env store r locked loaded decides = rw (locked, loaded, decides, commit)

module _ (beads : Map BeadRecord) (outbox : Map OutboxRecord) (city_id run_id bead_id : Str)
    (generation : ℤ) (formula : FormulaRef) (write : Write) (now later : Time) (clock : Str → Time)
    (missing : lookup bead_id beads ≡ none)
    (no_event : lookup (ready_event_id city_id run_id bead_id generation) outbox ≡ none)
    (sound : validate (event_at city_id run_id bead_id generation formula now) ≡ ok tt)
    (sound_later : validate (event_at city_id run_id bead_id generation formula later)
      ≡ ok tt) where
  abbrev ready_body : Env → FileState → Decision ReadyEvent
  ready_body env = transition_ready env city_id run_id bead_id generation formula

  abbrev failing : Env
  failing = calm not_renamed now clock

  abbrev retrying : Env
  retrying = calm write later clock

  abbrev loaded : FileState
  loaded = decode (encode (healthy_state beads outbox)) (healthy_state beads outbox)

  abbrev event : ReadyEvent
  event = event_at city_id run_id bead_id generation formula now

  abbrev left : FileState
  left = decode (encode (healthy_state beads outbox)) (write_ready failing event loaded)

  abbrev reloaded : FileState
  reloaded = decode (encode (healthy_state beads outbox)) left

  first_call :
      execute failing (ready_body failing) (healthy_store beads outbox)
      ≡ (err persist_failed, record { memory = left; file = healthy_file beads outbox })
  unfolding load
  first_call =
      failed-execute (ready_body failing) failing (healthy_store beads outbox)
        (write_ready failing event loaded) event refl refl (rw ==-refl)
        (transition-new city_id run_id bead_id generation formula failing loaded sound
          (lookup-merge_miss bead_id beads beads missing ∙ missing))
        (rw ==-refl)

  second_call :
      execute retrying
        (ready_body retrying)
        (record { memory = left; file = healthy_file beads outbox })
      ≡ (ok event, record { memory = reloaded; file = healthy_file beads outbox })
  unfolding load
  second_call = answered-execute (ready_body retrying) retrying _ (ok event) refl (rw ==-refl) (
      transition-again city_id run_id bead_id generation formula retrying reloaded
        (new_bead city_id run_id bead_id generation formula)
        (record { event = event; acknowledged_at = 0; superseded_at = 0 }) sound_later
        (lookup-merge_miss bead_id _ beads missing
          ∙ (lookup-merge_miss bead_id _ beads missing
              ∙ lookup-insert_self bead_id _ (merge beads beads)))
        refl
        (lookup-merge_miss _ _ outbox no_event
          ∙ (lookup-merge_miss _ _ outbox no_event ∙ lookup-insert_self _ _ _))
        refl)

  -- On a store whose memory is what its file of version 1 says, and which has neither the bead nor
  -- the ready event of this generation: a TransitionReady for which all goes well, with an event
  -- that is valid, but that its write fails before the rename, reports the failure. Its retry, for
  -- which the lock, the read and the reload go well and the event of its time is valid too, then
  -- answers with the event as if it were stored, whatever would become of a write; and after it
  -- the file has neither the bead nor the event.
  pub lost_ready :
      let first = execute failing (ready_body failing) (healthy_store beads outbox) in
      let second = execute retrying (ready_body retrying) first.1 in
      (first.0 ≡ err persist_failed)
      × (second.0 ≡ ok event)
      × (file_bead bead_id second.1.file ≡ none)
      × (file_event (ready_event_id city_id run_id bead_id generation) second.1.file ≡ none)
  lost_ready = rw (first_call, second_call) (refl, refl, missing, no_event)
