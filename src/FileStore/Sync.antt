-- ===== src/FileStore/Sync.antt =====
-- bead_store.go: memory stays in step with the file unless a write fails before its rename, and
-- what such a write leaves behind.
use gas_city.Prelude.{
  Bool-cases, none_not_some, Str, Map, lookup, lookup-merge, ◌≡◌, refl, subst, ◌∙◌, ◌≢◌, inl, inr,
  Bool, true, false, Option, none, some, List, [], ◌∷◌,
}
use gas_city.Errors.{Check, Check-cases, err_not_ok, ok_eq, ok, err}
use gas_city.FileStore.Records.{FileState}
use gas_city.FileStore.Persistence.{
  Field, missing, null, present, decode_map, StoreFile, absent, malformed, document, Env, Store,
  Write, written, not_renamed, not_synced, load, encode, Decision, reply, mutate, commit,
  persist_mutation, execute, opened, open_store, zero_state,
}
use gas_city.FileStore.Operations.{entries}
use gas_city.FileStore.View.{file_event-encode, field_map, file_bead-encode}
use gas_city.FileStore.Durability.{IsSynced}
use gas_city.FileStore.Calls.{Call, transitions, perform, run}

decode_map-only {ℓ} :
    {A : Type ℓ} (k : Str) (f : Field (Map A)) (old : Option (Map A)) (v : A)
    → ((w : A) → lookup k (entries old) ≡ some w → (x : A) × (lookup k (field_map f) ≡ some x))
    → lookup k (entries (decode_map f old)) ≡ some v
    → (x : A) × (lookup k (field_map f) ≡ some x)
unfolding lookup
decode_map-only k missing old v synced h = synced v h
decode_map-only k null old v synced h = (v, h)
decode_map-only {A} k (present m) none v synced h = go (lookup k m) refl (rw lookup-merge at h)
  where
    go :
        (o : Option A)
        → lookup k m ≡ o
        → (elim (lookup k m) [ some x ↦ some x | none ↦ none ]) ≡ some v
        → (x : A) × (lookup k m ≡ some x)
    go none e g = absurd (none_not_some (rw e at g))
    go (some x) e g = (x, e)
decode_map-only {A} k (present m) (some n) v synced h = go (lookup k m) refl (rw lookup-merge at h)
  where
    go :
        (o : Option A)
        → lookup k m ≡ o
        → (elim (lookup k m) [ some x ↦ some x | none ↦ lookup k n ]) ≡ some v
        → (x : A) × (lookup k m ≡ some x)
    go none e g = synced v (rw e at g)
    go (some x) e g = (x, e)

pub load-IsSynced :
    (readable : Bool) (file : StoreFile) (s : FileState)
    → IsSynced s file
    → IsSynced (load readable file s).1 file
unfolding load lookup
load-IsSynced readable absent s synced = record {
  beads = λ b r h. absurd (none_not_some h);
  events = λ id r h. absurd (none_not_some h);
}
load-IsSynced false malformed s synced = synced
load-IsSynced true malformed s synced = synced
load-IsSynced false (document d) s synced = synced
load-IsSynced true (document d) s synced = record {
  beads = λ b r h. decode_map-only b d.beads s.beads r (synced.beads b) h;
  events = λ id r h. decode_map-only id d.outbox s.outbox r (synced.events id) h;
}

pub written-IsSynced : (s : FileState) → IsSynced s (document (encode s))
written-IsSynced s = record {
  beads = λ b r h. (r, file_bead-encode b s ∙ h);
  events = λ id r h. (r, file_event-encode id s ∙ h);
}

persist-IsSynced :
    (env : Env) (s : FileState) (file : StoreFile) (w : Write)
    → env.write ≡ w
    → w ≢ not_renamed
    → IsSynced (persist_mutation env s file).1.memory (persist_mutation env s file).1.file
unfolding persist_mutation
persist-IsSynced env s file written e apart = rw e (written-IsSynced s)
persist-IsSynced env s file not_renamed e apart = absurd (apart refl)
persist-IsSynced env s file not_synced e apart =
    rw e (load-IsSynced env.reloadable (document (encode s)) s (written-IsSynced s))

pub execute-IsSynced {ℓ} :
    {A : Type ℓ} (body : FileState → Decision A) (env : Env) (store : Store)
    → env.write ≢ not_renamed
    → IsSynced store.memory store.file
    → IsSynced (execute env body store).1.memory (execute env body store).1.file
unfolding execute commit
execute-IsSynced {A} body env store apart synced = elim (Bool-cases env.lockable) [
  | inl locked ↦ elim (Check-cases (load env.readable store.file store.memory).0) [
    | inl l ↦ rw (locked, l) (go (body (load env.readable store.file store.memory).1))
    | inr (e, l) ↦ rw (locked, l) (load-IsSynced env.readable store.file store.memory synced)
  ]
  | inr failed ↦ rw failed synced
]
  where
    go :
        (d : Decision A)
        → IsSynced
            (commit env d (load env.readable store.file store.memory).1 store.file).1.memory
            (commit env d (load env.readable store.file store.memory).1 store.file).1.file
    go (reply r) = load-IsSynced env.readable store.file store.memory synced
    go (mutate s a) = persist-IsSynced env s store.file env.write refl apart

pub perform-IsSynced :
    (env : Env) (call : Call) (store : Store)
    → env.write ≢ not_renamed
    → IsSynced store.memory store.file
    → IsSynced (perform env call store).memory (perform env call store).file
unfolding perform
perform-IsSynced env (transitions c r b g f) store = execute-IsSynced _ env store
perform-IsSynced env _ store = execute-IsSynced _ env store

abbrev pub Renames : List (Env × Call) → Type 0
Renames [] = Unit
Renames ((env, _) ∷ calls) = (env.write ≢ not_renamed) × Renames calls

opened-IsSynced :
    (c : Check) (s : FileState) (file : StoreFile) (store : Store)
    → IsSynced s file
    → opened (c, s) file ≡ ok store
    → IsSynced store.memory store.file
opened-IsSynced (ok _) s file store synced h =
    subst (λ (q : Store). IsSynced q.memory q.file) (ok_eq h) synced
opened-IsSynced (err e) s file store synced h = absurd (err_not_ok h)

-- A store that OpenFileBeadStore answers has nothing in memory but what its file says.
pub open_store-IsSynced :
    (has_path has_clock readable : Bool) (file : StoreFile) (store : Store)
    → open_store has_path has_clock readable file ≡ ok store
    → IsSynced store.memory store.file
unfolding open_store lookup
open_store-IsSynced false has_clock readable file store h = absurd (err_not_ok h)
open_store-IsSynced true false readable file store h = absurd (err_not_ok h)
open_store-IsSynced true true readable file store h =
    opened-IsSynced _ _ file store
      (load-IsSynced readable file zero_state (record {
        beads = λ b r k. absurd (none_not_some k);
        events = λ id r k. absurd (none_not_some k);
      }))
      h

calls-IsSynced :
    (calls : List (Env × Call)) (store : Store)
    → Renames calls
    → IsSynced store.memory store.file
    → IsSynced (run calls store).memory (run calls store).file
unfolding run
calls-IsSynced [] store renames synced = synced
calls-IsSynced ((env, call) ∷ calls) store renames synced =
    calls-IsSynced calls (perform env call store) renames.1
      (perform-IsSynced env call store renames.0 synced)

-- Over any history of calls on a store that OpenFileBeadStore answered, in which no write fails
-- before its rename: memory has no bead and no event whose key the file lacks. A write of which only
-- the sync of the directory fails does no harm, nor does a lock or a read that fails.
pub run-IsSynced :
    (has_path has_clock readable : Bool) (file : StoreFile) (store : Store)
    (calls : List (Env × Call))
    → open_store has_path has_clock readable file ≡ ok store
    → Renames calls
    → IsSynced (run calls store).memory (run calls store).file
run-IsSynced has_path has_clock readable file store calls opens renames =
    calls-IsSynced calls store renames
      (open_store-IsSynced has_path has_clock readable file store opens)
