-- ===== src/FileStore/Ownership.antt =====
-- bead_store.go: ownership of a generation over whole histories.
use gas_city.Prelude.{Str, ◌≡◌, some, List, [], ◌∷◌}
use gas_city.FileStore.Records.{BeadRecord, FileState}
use gas_city.FileStore.Persistence.{StoreFile, Env, Store, Decision, mutate, execute}
use gas_city.FileStore.View.{
  file_bead, load-file_bead, file_bead-encode, Outcome, unchanged, rewritten, execute-Outcome,
}
use gas_city.FileStore.History.{
  Advances, Advances-refl, Advances-trans, Grows, claim-Grows, complete-Grows, failure-Grows,
  ready-Grows, inspect-Grows, pending-Grows, acknowledge-Grows, inspect-Grows, pending-Grows,
}
use gas_city.FileStore.Calls.{
  Call, transitions, claims, completes, records_failure, inspects, lists_pending, acknowledges,
  perform, run,
}

-- A body whose writes let every bead advance does so to the file.
execute-Advances {ℓ} :
    {A : Type ℓ} (b : Str) (body : FileState → Decision A) (env : Env) (store : Store)
    (r : BeadRecord)
    → ((s s' : FileState) (a : A) → body s ≡ mutate s' a → Grows b s s')
    → file_bead b store.file ≡ some r
    → (q : BeadRecord) × (file_bead b (execute env body store).1.file ≡ some q) × Advances r q
execute-Advances b body env store r grows found =
    go (execute env body store).1.file (execute-Outcome body env store)
  where
    go :
        (file : StoreFile)
        → Outcome body store file
        → (q : BeadRecord) × (file_bead b file ≡ some q) × Advances r q
    go file (unchanged same) = (r, rw same found, Advances-refl r)
    go file (rewritten readable s a loaded wrote same) =
        let (q, now, advances) =
          grows _ s a wrote r (load-file_bead b readable store.file store.memory found loaded) in
        (q, rw (same, file_bead-encode) now, advances)

pub perform-Advances :
    (b : Str) (env : Env) (call : Call) (store : Store) (r : BeadRecord)
    → file_bead b store.file ≡ some r
    → (q : BeadRecord) × (file_bead b (perform env call store).file ≡ some q) × Advances r q
unfolding perform
perform-Advances b env (transitions city_id run_id bead_id generation formula) store r =
    execute-Advances b _ env store r (ready-Grows b env city_id run_id bead_id generation formula)
perform-Advances b env (claims c) store r = execute-Advances b _ env store r (claim-Grows b c)
perform-Advances b env (completes c) store r =
    execute-Advances b _ env store r (λ s s' _. complete-Grows b c s s')
perform-Advances b env (records_failure f) store r =
    execute-Advances b _ env store r (λ s s' _. failure-Grows b f s s')
perform-Advances b env (inspects id) store r = execute-Advances b _ env store r (inspect-Grows b id)
perform-Advances b env lists_pending store r = execute-Advances b _ env store r (pending-Grows b)
perform-Advances b env (acknowledges id) store r =
    execute-Advances b _ env store r (λ s s' _. acknowledge-Grows b env id s s')

-- Over any history of calls, with any failed writes among them, a bead of the file stays in the file
-- and advances: its generation never falls, a claimed generation keeps its workflow and token, and a
-- completed one its result too.
pub run-Advances :
    (b : Str) (calls : List (Env × Call)) (store : Store) (r : BeadRecord)
    → file_bead b store.file ≡ some r
    → (q : BeadRecord) × (file_bead b (run calls store).file ≡ some q) × Advances r q
unfolding run
run-Advances b [] store r found = (r, found, Advances-refl r)
run-Advances b ((env, call) ∷ calls) store r found =
    let (q, now, first) = perform-Advances b env call store r found in
    let (p, then', rest) = run-Advances b calls (perform env call store) q now in
    (p, then', Advances-trans r q p first rest)
