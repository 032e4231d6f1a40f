-- ===== src/Canonical/Refines.antt =====
-- dolt_bead_store.go and bead_store.go: the canonical store decides as the file store does.
use gas_city.Prelude.{Str, Str-discrete, ◌≡◌, refl, sym, ap, subst, ◌∙◌, some, [], ◌∷◌, ◌++◌, arith}
use gas_city.Errors.{Result, ok}
use gas_city.FileStore.Records
use gas_city.Prelude.{Str-discrete}
use gas_city.FileStore.Records.{BeadRecord, FileState}
use gas_city.FileStore.Persistence.{Decision, reply, mutate}
use gas_city.FileStore.Operations.{claim, claimed_by, find_bead, put_bead, record_attempt_failure}
use gas_city.Canonical.Issue.{Issue, record_of, canonical_status}
use gas_city.Canonical.Transaction.{Change, replies, updates}
use gas_city.Canonical.Reading.{record_of-Reading, record_of-reads}
use gas_city.Canonical.Beads.{
  claim_body, claimed_row, decide_row_claim, failure_body, failed_row, decide_row_failure,
  on_record,
}
use gas_city.Contracts.Payloads.{AttemptFailure, ClaimRequest, ClaimLease, no_lease}

-- The change answers as the file store does, and a new row holds the record that the file store
-- puts into its state.
abbrev pub Refines {ℓ} : {A : Type ℓ} → Str → FileState → Change A → Decision A → Type ℓ
Refines id s (replies m) decision = decision ≡ reply m
Refines id s (updates j a) decision =
    (r : BeadRecord) × (record_of id j ≡ ok r) × (decision ≡ mutate (put_bead id r s) a)

claimed-read :
    (q : ClaimRequest) (id : Str) (i : Issue) (r : BeadRecord)
    → record_of id i ≡ ok r
    → record_of id (claimed_row q i) ≡ ok (claimed_by q r)
unfolding canonical_status Str-discrete
claimed-read q id i r h =
    let (d, same) = record_of-Reading id i r h in
    record_of-reads id (claimed_row q i) (record {
      generation = d.generation;
      status = Records.claimed;
      event = d.event;
      artifact_refs = d.artifact_refs;
      attempt_failures = d.attempt_failures;
      generation_read = d.generation_read;
      enrolled = d.enrolled;
      version_read = d.version_read;
      status_read = refl;
      event_read = d.event_read;
      artifacts_read = d.artifacts_read;
      failures_read = d.failures_read;
    })
    ∙ ap (λ x. ok (claimed_by q x)) same

claim_replies :
    (q : ClaimRequest) (i : Issue) (r : BeadRecord) (s : FileState) (m : Result ClaimLease)
    → find_bead q.bead_id s ≡ some r
    → decide_row_claim q no_lease i r ≡ replies m
    → claim q s ≡ reply m
unfolding claim
claim_replies q i r s m found h = ground arith

claim_updates :
    (q : ClaimRequest) (i j : Issue) (r : BeadRecord) (s : FileState) (l : ClaimLease)
    → find_bead q.bead_id s ≡ some r
    → decide_row_claim q no_lease i r ≡ updates j l
    → (claimed_row q i ≡ j) × (claim q s ≡ mutate (put_bead q.bead_id (claimed_by q r) s) l)
unfolding claim
claim_updates q i j r s l found h = ground arith

-- Where the canonical issue and the file store hold the same record of a bead, a first attempt of a
-- claim decides as the file store does: the same answer, and where it writes, a row that reads as the
-- record that the file store writes.
pub claim-Refines :
    (q : ClaimRequest) (i : Issue) (r : BeadRecord) (s : FileState)
    → record_of q.bead_id i ≡ ok r
    → find_bead q.bead_id s ≡ some r
    → Refines q.bead_id s (claim_body q no_lease i) (claim q s)
unfolding claim_body
claim-Refines q i r s h found =
    subst (λ m. Refines q.bead_id s (on_record m (decide_row_claim q no_lease i)) (claim q s))
      (sym h) (go (decide_row_claim q no_lease i r) refl)
  where
    go :
        (c : Change ClaimLease)
        → decide_row_claim q no_lease i r ≡ c
        → Refines q.bead_id s c (claim q s)
    go (replies m) e = claim_replies q i r s m found e
    go (updates j l) e =
        let (row, decided) = claim_updates q i j r s l found e in
        (
          claimed_by q r,
          ap (record_of q.bead_id) (sym row) ∙ claimed-read q q.bead_id i r h,
          decided,
        )

abbrev failed_by : AttemptFailure → BeadRecord → BeadRecord
failed_by f r = record r { attempt_failures = r.attempt_failures ++ (f ∷ []) }

failed-read :
    (f : AttemptFailure) (id : Str) (i : Issue) (r : BeadRecord)
    → record_of id i ≡ ok r
    → record_of id (failed_row f r i) ≡ ok (failed_by f r)
failed-read f id i r h =
    let (d, same) = record_of-Reading id i r h in
    record_of-reads id (failed_row f r i) (record {
      generation = d.generation;
      status = d.status;
      event = d.event;
      artifact_refs = d.artifact_refs;
      attempt_failures = r.attempt_failures ++ (f ∷ []);
      generation_read = d.generation_read;
      enrolled = d.enrolled;
      version_read = d.version_read;
      status_read = d.status_read;
      event_read = d.event_read;
      artifacts_read = d.artifacts_read;
      failures_read = refl;
    })
    ∙ ap (λ (x : BeadRecord). ok (record x { attempt_failures = r.attempt_failures ++ (f ∷ []) }))
        same

failure_replies :
    (f : AttemptFailure) (i : Issue) (r : BeadRecord) (s : FileState) (m : Result (Unit {0}))
    → find_bead f.bead_id s ≡ some r
    → decide_row_failure f i r ≡ replies m
    → record_attempt_failure f s ≡ reply m
unfolding record_attempt_failure
failure_replies f i r s m found h = ground arith

failure_updates :
    (f : AttemptFailure) (i j : Issue) (r : BeadRecord) (s : FileState) (u : Unit {0})
    → find_bead f.bead_id s ≡ some r
    → decide_row_failure f i r ≡ updates j u
    → (failed_row f r i ≡ j)
      × (record_attempt_failure f s ≡ mutate (put_bead f.bead_id (failed_by f r) s) u)
unfolding record_attempt_failure
failure_updates f i j r s u found h = ground arith

-- Where the canonical issue and the file store hold the same record of a bead, the canonical store
-- records an attempt failure as the file store does: the same answer, and where it writes, a row that
-- reads as the record that the file store writes.
pub failure-Refines :
    (f : AttemptFailure) (i : Issue) (r : BeadRecord) (s : FileState)
    → record_of f.bead_id i ≡ ok r
    → find_bead f.bead_id s ≡ some r
    → Refines f.bead_id s (failure_body f i) (record_attempt_failure f s)
unfolding failure_body
failure-Refines f i r s h found =
    subst
      (λ m. Refines f.bead_id s (on_record m (decide_row_failure f i)) (record_attempt_failure f s))
      (sym h) (go (decide_row_failure f i r) refl)
  where
    go :
        (c : Change (Unit {0}))
        → decide_row_failure f i r ≡ c
        → Refines f.bead_id s c (record_attempt_failure f s)
    go (replies m) e = failure_replies f i r s m found e
    go (updates j u) e =
        let (row, decided) = failure_updates f i j r s u found e in
        (failed_by f r, ap (record_of f.bead_id) (sym row) ∙ failed-read f f.bead_id i r h, decided)
