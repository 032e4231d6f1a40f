-- ===== src/Canonical/StaleLease.antt =====
-- dolt_bead_store.go: a lease that Claim keeps from an attempt that was rolled back.
use gas_city.Prelude.{
  if◌then◌else◌, ◌==◌, nat_eq, text_eq, int_eq, lookup, ℕ, ◌≡◌, Bool, true, false, some, arith,
}
use gas_city.Errors.{ok, database}
use gas_city.Canonical.Claims.{ClaimAttempt, canonical_claim, claim_retry, validate_claim}
use gas_city.Canonical.Transaction.{committed, rolled_back, Table, mutate_once, updates, replies}
use gas_city.Canonical.Beads.{claim_body, claimed_row}
use gas_city.Contracts.Payloads.{no_lease, ClaimRequest, ClaimLease}
use gas_city.FileStore.Records
use gas_city.Canonical.Issue.{Issue, record_of}
use gas_city.FileStore.Records.{BeadRecord, lease_from_record, claimed}
use gas_city.FileStore.Operations.{claimed_by}

-- The commit of the first attempt ends with a serialization failure; then the table is `later`.
abbrev pub deadlock_then : Table → ℕ → ClaimAttempt
deadlock_then later left =
    if left == 4
    then record {
      others = λ t. t;
      update = ok tt;
      attempt = record { begins = ok tt; writes = ok tt; ends = rolled_back (database true) };
    }
    else record {
      others = λ t. later;
      update = ok tt;
      attempt = record { begins = ok tt; writes = ok tt; ends = committed };
    }

first_body :
    (q : ClaimRequest) (i : Issue) (r : BeadRecord)
    → record_of q.bead_id i ≡ ok r
    → r.generation ≡ q.generation
    → r.status ≡ Records.ready
    → claim_body q no_lease i ≡ updates (claimed_row q i) (lease_from_record (claimed_by q r) true)
unfolding claim_body
first_body q i r h same status = ground arith

second_body :
    (q : ClaimRequest) (held : ClaimLease) (j : Issue) (p : BeadRecord)
    → record_of q.bead_id j ≡ ok p
    → (p.generation == q.generation) ≡ false
    → claim_body q held j ≡ replies (ok held)
unfolding claim_body
second_body q held j p h other = ground arith

-- A claim of a bead that is ready at its generation, whose first commit is rolled back with a
-- serialization failure, and before whose second attempt the bead moves to another generation,
-- answers an acquired lease and no error, though the table holds nothing of the claim.
pub stale_lease :
    (q : ClaimRequest) (t later : Table) (i j : Issue) (r p : BeadRecord) (done_at : ℕ → Bool)
    → validate_claim q ≡ ok tt
    → lookup q.bead_id t ≡ some i
    → record_of q.bead_id i ≡ ok r
    → r.generation ≡ q.generation
    → r.status ≡ Records.ready
    → lookup q.bead_id later ≡ some j
    → record_of q.bead_id j ≡ ok p
    → (p.generation == q.generation) ≡ false
    → done_at 4 ≡ false
    → canonical_claim (deadlock_then later) done_at q t
      ≡ (lease_from_record (claimed_by q r) true, ok tt, later)
unfolding canonical_claim claim_retry mutate_once
stale_lease q t later i j r p done_at valid found h same status moved k other waits =
    let one = first_body q i r h same status in
    let two = second_body q (lease_from_record (claimed_by q r) true) j p k other in ground arith
