-- ===== src/FileStore/View.antt =====
-- The file's beads and events, and how loading, deciding and writing act on them.
use gas_city.Prelude.{
  Bool-cases, Str, Map, lookup, lookup-merge, ◌≡◌, refl, sym, ap, subst, ◌∙◌, inl, inr, Bool, true,
  false, Option, none, some, [], arith,
}
use gas_city.Errors.{Check-cases, err_not_ok, Result, ok}
use gas_city.FileStore.Records.{BeadRecord, OutboxRecord, FileState}
use gas_city.FileStore.Persistence.{
  decode_map, encode_map, Field, missing, null, present, StoreFile, absent, malformed, document,
  Env, Store, Write, written, not_renamed, not_synced, load, encode, persist, persist_mutation,
  Decision, reply, mutate, commit, execute,
}
use gas_city.FileStore.Operations.{find_bead, find_event, entries}

abbrev pub field_map {ℓ} : {V : Type ℓ} → Field (Map V) → Map V
field_map (present m) = m
field_map _ = []

-- What the file says of a bead, and of an event.
abbrev pub file_bead : Str → StoreFile → Option BeadRecord
file_bead b (document d) = lookup b (field_map d.beads)
file_bead b _ = none

abbrev pub file_event : Str → StoreFile → Option OutboxRecord
file_event id (document d) = lookup id (field_map d.outbox)
file_event id _ = none

-- What a document says of a key survives its decoding into any map.
lookup-decode_map {ℓ} :
    {V : Type ℓ} (k : Str) (f : Field (Map V)) (old : Option (Map V)) {v : V}
    → lookup k (field_map f) ≡ some v
    → lookup k (entries (decode_map f old)) ≡ some v
unfolding lookup
lookup-decode_map k missing old h = cc
lookup-decode_map k null old h = cc
lookup-decode_map k (present m) none h = rw (lookup-merge k [] m, h)
lookup-decode_map k (present m) (some n) h = rw (lookup-merge k n m, h)

-- A load that succeeds gives every bead and event of the file as the file has it.
pub load-file_bead :
    (b : Str) (readable : Bool) (file : StoreFile) (s : FileState) {r : BeadRecord}
    → file_bead b file ≡ some r
    → (load readable file s).0 ≡ ok tt
    → find_bead b (load readable file s).1 ≡ some r
unfolding load
load-file_bead b readable absent s h c = cc
load-file_bead b false malformed s h c = cc
load-file_bead b true malformed s h c = cc
load-file_bead b false (document d) s h c = cc
load-file_bead b true (document d) s h c = lookup-decode_map b d.beads s.beads h

pub load-file_event :
    (id : Str) (readable : Bool) (file : StoreFile) (s : FileState) {r : OutboxRecord}
    → file_event id file ≡ some r
    → (load readable file s).0 ≡ ok tt
    → find_event id (load readable file s).1 ≡ some r
unfolding load
load-file_event b readable absent s h c = cc
load-file_event b false malformed s h c = cc
load-file_event b true malformed s h c = cc
load-file_event b false (document d) s h c = cc
load-file_event b true (document d) s h c = lookup-decode_map b d.outbox s.outbox h

field_map-encode_map {ℓ} : {V : Type ℓ} (m : Option (Map V)) → field_map (encode_map m) ≡ entries m
field_map-encode_map none = refl
field_map-encode_map (some m) = refl

-- The file after a write has the beads and the events of the state that was written.
pub file_bead-encode : (b : Str) (s : FileState) → file_bead b (document (encode s)) ≡ find_bead b s
file_bead-encode b s = rw (field_map-encode_map s.beads)

pub file_event-encode :
    (id : Str) (s : FileState) → file_event id (document (encode s)) ≡ find_event id s
file_event-encode id s = rw (field_map-encode_map s.outbox)

persist_mutation_file :
    (env : Env) (s : FileState) (file : StoreFile)
    → (persist_mutation env s file).1.file ≡ (persist env.write s file).1
unfolding persist_mutation
persist_mutation_file env s file = ground arith

-- After `execute` the file is as it was, or holds a state that the body decided to write from a
-- state that was loaded.
pub data Outcome {ℓ} {A : Type ℓ} (body : FileState → Decision A) (store : Store) (file : StoreFile)
    : Type ℓ where
  unchanged : file ≡ store.file → Outcome body store file
  rewritten :
      (readable : Bool) (s : FileState) (a : A)
      → (load readable store.file store.memory).0 ≡ ok tt
      → body (load readable store.file store.memory).1 ≡ mutate s a
      → file ≡ document (encode s)
      → Outcome body store file

module _ {ℓ} {A : Type ℓ} (body : FileState → Decision A) (env : Env) (store : Store) where
  persist-Outcome :
      (s : FileState) (a : A)
      → (load env.readable store.file store.memory).0 ≡ ok tt
      → body (load env.readable store.file store.memory).1 ≡ mutate s a
      → (w : Write) → Outcome body store (persist w s store.file).1
  persist-Outcome s a l e written = rewritten env.readable s a l e refl
  persist-Outcome s a l e not_renamed = unchanged refl
  persist-Outcome s a l e not_synced = rewritten env.readable s a l e refl

  commit-Outcome :
      (d : Decision A)
      → (load env.readable store.file store.memory).0 ≡ ok tt
      → body (load env.readable store.file store.memory).1 ≡ d
      → Outcome body store
          (commit env d (load env.readable store.file store.memory).1 store.file).1.file
  unfolding commit
  commit-Outcome (reply r) l e = unchanged refl
  commit-Outcome (mutate s a) l e =
      subst (Outcome body store) (sym (persist_mutation_file env s store.file))
        (persist-Outcome s a l e env.write)

  pub execute-Outcome : Outcome body store (execute env body store).1.file
  unfolding execute
  execute-Outcome = elim (Bool-cases env.lockable) [
    | inl locked ↦ elim (Check-cases (load env.readable store.file store.memory).0) [
      | inl l ↦ rw (locked, l) (commit-Outcome _ l refl)
      | inr (e, l) ↦ rw (locked, l) (unchanged refl)
    ]
    | inr failed ↦ rw failed (unchanged refl)
  ]

-- A call that succeeds loaded the file, and answered or wrote.
pub data Success {ℓ} {A : Type ℓ} (body : FileState → Decision A) (env : Env) (store : Store)
    (a : A) : Type ℓ where
  answered :
      (load env.readable store.file store.memory).0 ≡ ok tt
      → body (load env.readable store.file store.memory).1 ≡ reply (ok a)
      → (execute env body store).1
        ≡ record { memory = (load env.readable store.file store.memory).1; file = store.file }
      → Success body env store a
  wrote :
      (s : FileState)
      → (load env.readable store.file store.memory).0 ≡ ok tt
      → body (load env.readable store.file store.memory).1 ≡ mutate s a
      → (execute env body store).1 ≡ record { memory = s; file = document (encode s) }
      → Success body env store a

module _ {ℓ} {A : Type ℓ} (body : FileState → Decision A) (env : Env) (store : Store) (a : A) where
  execute_loaded :
      env.lockable ≡ true
      → (load env.readable store.file store.memory).0 ≡ ok tt
      → execute env body store
        ≡ commit env
            (body (load env.readable store.file store.memory).1)
            (load env.readable store.file store.memory).1
            store.file
  unfolding execute
  execute_loaded locked l = rw (locked, l)

  commit_written :
      (s : FileState) (b : A) (w : Write)
      → env.write ≡ w
      → (commit env (mutate s b) (load env.readable store.file store.memory).1 store.file).0 ≡ ok a
      → (b ≡ a)
        × ((commit env (mutate s b) (load env.readable store.file store.memory).1 store.file).1
            ≡ record { memory = s; file = document (encode s) })
  unfolding commit
  commit_written s b written e h = (ground arith, ground arith)
  commit_written s b not_renamed e h = absurd (ground arith)
  commit_written s b not_synced e h = absurd (ground arith)

  commit-Success :
      (d : Decision A)
      → (load env.readable store.file store.memory).0 ≡ ok tt
      → body (load env.readable store.file store.memory).1 ≡ d
      → execute env body store
        ≡ commit env d (load env.readable store.file store.memory).1 store.file
      → (execute env body store).0 ≡ ok a
      → Success body env store a
  unfolding commit
  commit-Success (reply r) l b e h =
      answered l (b ∙ ap reply (sym (ap (λ (x : Result A × Store). x.0) e) ∙ h))
        (ap (λ (x : Result A × Store). x.1) e)
  commit-Success (mutate s c) l b e h =
      let (same, store') =
        commit_written s c env.write refl (sym (ap (λ (x : Result A × Store). x.0) e) ∙ h) in
      wrote s l (b ∙ ap (mutate s) same) (ap (λ (x : Result A × Store). x.1) e ∙ store')

  pub execute-Success : (execute env body store).0 ≡ ok a → Success body env store a
  unfolding execute
  execute-Success h = elim (Bool-cases env.lockable) [
    | inl locked ↦ elim (Check-cases (load env.readable store.file store.memory).0) [
      | inl l ↦ commit-Success _ l refl (execute_loaded locked l) h
      | inr (e, l) ↦ absurd (err_not_ok (rw (execute, locked, l) at h))
    ]
    | inr failed ↦ absurd (err_not_ok (rw (execute, failed) at h))
  ]
