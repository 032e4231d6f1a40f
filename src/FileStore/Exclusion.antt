-- ===== src/FileStore/Exclusion.antt =====
-- bead_store.go: mutual exclusion of claims, and what a success of Claim and Complete guarantees.
use gas_city.Prelude.{Str, ℤ, ◌≡◌, sym, subst, ◌∙◌, ◌≢◌, ◌⊎◌, inl, inr, false, some, List, arith}
use gas_city.Errors.{ok}
use gas_city.Contracts.Payloads.{ClaimRequest, ClaimLease}
use gas_city.FileStore.Records.{ready, claimed, completed, BeadRecord, FileState}
use gas_city.FileStore.Persistence.{StoreFile, Env, Store, load, reply, execute}
use gas_city.FileStore.Operations.{find_bead, claim}
use gas_city.FileStore.View.{file_bead, load-file_bead, Success, answered, wrote, execute-Success}
use gas_city.FileStore.Inversion.{Claims, claim-mutate}
use gas_city.FileStore.History.{Kept, Advances}
use gas_city.FileStore.Calls.{Call, run}
use gas_city.FileStore.Ownership.{run-Advances}

-- A generation that a workflow holds, claimed or completed.
abbrev pub Holds : Str → ℤ → Str → StoreFile → Type 0
Holds bead_id generation workflow_id file =
    (r : BeadRecord) × (file_bead bead_id file ≡ some r)
    × (r.generation ≡ generation)
    × (r.workflow_id ≡ workflow_id)
    × ((r.status ≡ claimed) ⊎ (r.status ≡ completed))

-- Another workflow gets no lease from a record that has moved on from a held one.
refused-claim :
    (c : ClaimRequest) (s : FileState) (r q : BeadRecord) (l : ClaimLease)
    → find_bead c.bead_id s ≡ some q
    → (r.status ≡ claimed) ⊎ (r.status ≡ completed)
    → r.generation ≡ c.generation
    → r.workflow_id ≢ c.workflow_id
    → Advances r q
    → claim c s ≡ reply (ok l)
    → l.acquired ≡ false
unfolding claim
refused-claim c s r q l found held g w (inl later) e = ground arith
refused-claim c s r q l found (inl held) g w (inr (same, _, kept)) e =
    let k : Kept claimed r q = subst (λ t. Kept t r q) held kept in ground arith
refused-claim c s r q l found (inr held) g w (inr (same, _, kept)) e =
    let k : Kept completed r q = subst (λ t. Kept t r q) held kept in ground arith

-- A record that has moved on from a held one is not ready at the same generation.
not_ready-Advances :
    (r q : BeadRecord) (generation : ℤ)
    → (r.status ≡ claimed) ⊎ (r.status ≡ completed)
    → r.generation ≡ generation
    → Advances r q
    → q.status ≡ ready
    → q.generation ≡ generation
    → ⊥
not_ready-Advances r q generation held g (inl later) e same = ground arith
not_ready-Advances r q generation (inl held) g (inr (_, _, kept)) e same =
    let k : Kept claimed r q = subst (λ t. Kept t r q) held kept in ground arith
not_ready-Advances r q generation (inr held) g (inr (_, _, kept)) e same =
    let k : Kept completed r q = subst (λ t. Kept t r q) held kept in ground arith

-- Once a workflow holds a generation of a bead in the file, then after any calls, with any failures
-- of the file system among them, a claim of that generation by another workflow gets no lease.
pub claim_exclusive :
    (c : ClaimRequest) (w : Str) (store : Store) (calls : List (Env × Call)) (env : Env)
    (l : ClaimLease)
    → Holds c.bead_id c.generation w store.file
    → w ≢ c.workflow_id
    → (execute env (claim c) (run calls store)).0 ≡ ok l
    → l.acquired ≡ false
claim_exclusive c w store calls env l (r, found, g, owner, held) apart e =
    let (q, now, advances) = run-Advances c.bead_id calls store r found in
    go q now advances (execute-Success (claim c) env (run calls store) l e)
  where
    later : Store
    later = run calls store

    go :
        (q : BeadRecord)
        → file_bead c.bead_id later.file ≡ some q
        → Advances r q
        → Success (claim c) env later l
        → l.acquired ≡ false
    go q now advances (answered loaded replies _) =
        refused-claim c _ r q l
          (load-file_bead c.bead_id env.readable later.file later.memory now loaded) held g
          (λ same. apart (sym owner ∙ same)) advances replies
    go q now advances (wrote s loaded writes _) =
        let step : Claims c (load env.readable later.file later.memory).1 s l =
          claim-mutate c _ s l writes in
        let same : step.old ≡ q =
          cc (
            step.found,
            load-file_bead c.bead_id env.readable later.file later.memory now loaded,
          ) in
        absurd (
          not_ready-Advances r q c.generation held g advances
            (subst (λ (x : BeadRecord). x.status ≡ ready) same step.was_ready)
            (subst (λ (x : BeadRecord). x.generation ≡ c.generation) same step.same_generation))
