-- ===== src/FileStore/Durability.antt =====
-- bead_store.go: what a successful call has put into the file, and how a failed write before the
-- rename breaks that.
use gas_city.Prelude.{
  none_not_some, nat_eq, Str, text_eq, ==-refl, int_eq, Map, lookup, lookup-insert, lookup-merge,
  ◌≡◌, refl, sym, ap, ◌∙◌, ◌⊎◌, inl, Bool, true, false, Option, none, some, arith,
}
use gas_city.Errors.{Check, err_not_ok, ok}
use gas_city.Contracts.Payloads.{ClaimRequest, ClaimLease, Completion}
use gas_city.FileStore.Records.{OutboxRecord, claimed, completed, BeadRecord, FileState}
use gas_city.FileStore.Persistence.{
  Field, missing, null, present, decode_map, StoreFile, absent, malformed, document, Env, Store,
  load, reply, execute,
}
use gas_city.FileStore.Operations.{
  find_event, entries, check_completion, find_bead, claim, complete, claimed_by, completed_by,
}
use gas_city.FileStore.View.{
  file_event, field_map, file_bead, file_bead-encode, Success, answered, wrote, execute-Success,
}
use gas_city.FileStore.Inversion.{Claims, claim-mutate, Completes, complete-mutate}

-- Memory has no bead and no event that the file lacks.
pub record IsSynced (s : FileState) (file : StoreFile) : Type 0 where
  pub beads :
      (b : Str) (r : BeadRecord)
      → find_bead b s ≡ some r
      → (q : BeadRecord) × (file_bead b file ≡ some q)
  pub events :
      (id : Str) (r : OutboxRecord)
      → find_event id s ≡ some r
      → (q : OutboxRecord) × (file_event id file ≡ some q)

decode_map-lookup {ℓ} :
    {A : Type ℓ} (k : Str) (f : Field (Map A)) (old : Option (Map A)) (v : A)
    → ((w : A) → lookup k (entries old) ≡ some w → (x : A) × (lookup k (field_map f) ≡ some x))
    → lookup k (entries (decode_map f old)) ≡ some v
    → lookup k (field_map f) ≡ some v
unfolding lookup
decode_map-lookup k missing old v synced h = absurd (none_not_some (synced v h).1)
decode_map-lookup k null old v synced h = h
decode_map-lookup {A} k (present m) none v synced h = go (lookup k m) refl (rw lookup-merge at h)
  where
    go :
        (o : Option A)
        → lookup k m ≡ o
        → (elim (lookup k m) [ some x ↦ some x | none ↦ none ]) ≡ some v
        → lookup k m ≡ some v
    go none e g = absurd (none_not_some (rw e at g))
    go (some x) e g = e ∙ rw e at g
decode_map-lookup {A} k (present m) (some n) v synced h =
    go (lookup k m) refl (rw lookup-merge at h)
  where
    go :
        (o : Option A)
        → lookup k m ≡ o
        → (elim (lookup k m) [ some x ↦ some x | none ↦ lookup k n ]) ≡ some v
        → lookup k m ≡ some v
    go none e g = absurd (none_not_some (sym e ∙ (synced v (rw e at g)).1))
    go (some x) e g = e ∙ rw e at g

-- So what is loaded is what the file says.
pub load_synced :
    (b : Str) (readable : Bool) (file : StoreFile) (s : FileState) (r : BeadRecord)
    → IsSynced s file
    → (load readable file s).0 ≡ ok tt
    → find_bead b (load readable file s).1 ≡ some r
    → file_bead b file ≡ some r
unfolding load lookup
load_synced b readable absent s r synced l h = h
load_synced b false malformed s r synced l h = absurd (err_not_ok l)
load_synced b true malformed s r synced l h = absurd (err_not_ok l)
load_synced b false (document d) s r synced l h = absurd (err_not_ok l)
load_synced b true (document d) s r synced l h =
    decode_map-lookup b d.beads s.beads r (synced.beads b) h

pub load_synced_event :
    (id : Str) (readable : Bool) (file : StoreFile) (s : FileState) (r : OutboxRecord)
    → IsSynced s file
    → (load readable file s).0 ≡ ok tt
    → find_event id (load readable file s).1 ≡ some r
    → file_event id file ≡ some r
unfolding load lookup
load_synced_event id readable absent s r synced l h = h
load_synced_event id false malformed s r synced l h = absurd (err_not_ok l)
load_synced_event id true malformed s r synced l h = absurd (err_not_ok l)
load_synced_event id false (document d) s r synced l h = absurd (err_not_ok l)
load_synced_event id true (document d) s r synced l h =
    decode_map-lookup id d.outbox s.outbox r (synced.events id) h

-- A record that is completed with the result and the fence of a completion.
pub record IsResult (c : Completion) (r : BeadRecord) : Type 0 where
  pub is_complete : r.status ≡ completed
  pub same_generation : r.generation ≡ c.generation
  pub same_token : r.claim_token ≡ c.claim_token
  pub same_session : r.session_id ≡ c.session_id
  pub same_outcome : r.outcome ≡ c.outcome
  pub same_artifacts : r.artifact_refs ≡ c.artifact_refs

abbrev pub FileHas : Str → (BeadRecord → Type 0) → StoreFile → Type 0
FileHas b P file = (q : BeadRecord) × (file_bead b file ≡ some q) × P q

answered-complete :
    (c : Completion) (s : FileState)
    → complete c s ≡ reply (ok tt)
    → (r : BeadRecord) × (find_bead c.bead_id s ≡ some r) × IsResult c r
unfolding complete
answered-complete c s e = go (find_bead c.bead_id s) refl (check_completion c) refl
  where
    go :
        (o : Option BeadRecord)
        → find_bead c.bead_id s ≡ o
        → (k : Check) → check_completion c ≡ k
        → (r : BeadRecord) × (find_bead c.bead_id s ≡ some r) × IsResult c r
    go none f k g = absurd (ground arith)
    go (some r) f k g = (r, f, ground arith)

-- Where memory has no bead and no event that the file lacks: after a completion that answers nil the
-- file has the bead as completed, with the generation, the claim token, the session, the outcome and
-- the artifacts of the completion.
pub complete_durable :
    (c : Completion) (env : Env) (store : Store)
    → IsSynced store.memory store.file
    → (execute env (complete c) store).0 ≡ ok tt
    → FileHas c.bead_id (IsResult c) (execute env (complete c) store).1.file
complete_durable c env store synced e = go (execute-Success (complete c) env store tt e)
  where
    go :
        Success (complete c) env store tt
        → FileHas c.bead_id (IsResult c) (execute env (complete c) store).1.file
    go (answered loaded replies same) =
        let (r, found, result) = answered-complete c _ replies in
        rw same (
          r,
          load_synced c.bead_id env.readable store.file store.memory r synced loaded found,
          result,
        )
    go (wrote s loaded writes same) =
        let step : Completes c (load env.readable store.file store.memory).1 s =
          complete-mutate c _ s writes in
        rw (same, file_bead-encode, step.writes, lookup-insert, ==-refl)
          (
            completed_by c step.old,
            refl,
            record {
              is_complete = refl;
              same_generation = step.same_generation;
              same_token = step.same_token;
              same_session = refl;
              same_outcome = refl;
              same_artifacts = refl;
            },
          )

-- A record that a claim's workflow holds, under the lease's token.
pub record IsHolder (c : ClaimRequest) (l : ClaimLease) (r : BeadRecord) : Type 0 where
  pub is_held : (r.status ≡ claimed) ⊎ (r.status ≡ completed)
  pub same_generation : r.generation ≡ c.generation
  pub same_workflow : r.workflow_id ≡ c.workflow_id
  pub same_token : r.claim_token ≡ l.token

answered-claim :
    (c : ClaimRequest) (s : FileState) (l : ClaimLease)
    → claim c s ≡ reply (ok l)
    → l.acquired ≡ true
    → (r : BeadRecord) × (find_bead c.bead_id s ≡ some r) × IsHolder c l r
unfolding claim
answered-claim c s l e got = go (find_bead c.bead_id s) refl
  where
    go :
        (o : Option BeadRecord)
        → find_bead c.bead_id s ≡ o
        → (r : BeadRecord) × (find_bead c.bead_id s ≡ some r) × IsHolder c l r
    go none f = absurd (ground arith)
    go (some r) f = (r, f, ground arith)

-- Where memory has no bead and no event that the file lacks: after a claim that gets a lease the file
-- has the bead, claimed or completed at the generation of the claim, with the workflow of the claim as
-- its holder and the token of the lease.
pub claim_durable :
    (c : ClaimRequest) (env : Env) (store : Store) (l : ClaimLease)
    → IsSynced store.memory store.file
    → (execute env (claim c) store).0 ≡ ok l
    → l.acquired ≡ true
    → FileHas c.bead_id (IsHolder c l) (execute env (claim c) store).1.file
claim_durable c env store l synced e got = go (execute-Success (claim c) env store l e)
  where
    go :
        Success (claim c) env store l
        → FileHas c.bead_id (IsHolder c l) (execute env (claim c) store).1.file
    go (answered loaded replies same) =
        let (r, found, holder) = answered-claim c _ l replies got in
        rw same (
          r,
          load_synced c.bead_id env.readable store.file store.memory r synced loaded found,
          holder,
        )
    go (wrote s loaded writes same) =
        let step : Claims c (load env.readable store.file store.memory).1 s l =
          claim-mutate c _ s l writes in
        rw (same, file_bead-encode, step.writes, lookup-insert, ==-refl)
          (
            claimed_by c step.old,
            refl,
            record {
              is_held = inl refl;
              same_generation = step.same_generation;
              same_workflow = refl;
              same_token = sym (ap (λ (x : ClaimLease). x.token) step.lease);
            },
          )
