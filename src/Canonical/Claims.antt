-- ===== src/Canonical/Claims.antt =====
-- dolt_bead_store.go: Claim, whose variable `lease` outlives an attempt.
use gas_city.Prelude.{
  if◌then◌else◌, leb_ℤ, lookup, pos, ℕ, zero, suc, Bool, not, Option, none, some,
}
use gas_city.Errors.{
  Check, ◌>>◌, require, Error, ok, err, generation_not_positive, transaction_conflicted,
  context_done,
}
use gas_city.Contracts.Payloads.{no_lease, ClaimLease, ClaimRequest}
use gas_city.Contracts.Identifiers.{validate_segment, validate_workflow_id}
use gas_city.Canonical.Beads.{claim_body}
use gas_city.Canonical.Transaction.{
  Attempt, Table, Change, replies, updates, is_serialization, mutation_attempts, mutate_once,
}
use gas_city.Canonical.Issue.{Issue}

-- An attempt of Claim: what other processes do to the table before it begins, how the UPDATE of the
-- row ends, and how the statements after it and the commit do.
pub record ClaimAttempt : Type 0 where
  pub others : Table → Table
  pub update : Check
  pub attempt : Attempt

-- The statements after the UPDATE run only where it went well.
abbrev pub attempt_of : ClaimAttempt → Attempt
attempt_of a = record a.attempt { writes = a.update >> a.attempt.writes }

abbrev assigned : ClaimLease → Check → Change ClaimLease → ClaimLease
assigned held (ok _) (updates i lease) = lease
assigned held (err e) (updates i lease) = held
assigned held update (replies (ok lease)) = lease
assigned held update (replies (err e)) = held

-- The value of `lease` after an attempt.
abbrev pub lease_after :
    ClaimRequest → ClaimAttempt → ClaimLease → Check → Option Issue → ClaimLease
lease_after q a held (err e) row = held
lease_after q a held (ok _) none = held
lease_after q a held (ok _) (some i) = assigned held a.update (claim_body q held i)

-- The loop of mutateIssue for Claim: `lease`, the error and the table.
unfoldable pub claim_retry :
    ℕ
    → Error
    → (ℕ → ClaimAttempt)
    → (ℕ → Bool)
    → ClaimRequest
    → ClaimLease
    → Table
    → ClaimLease × Check × Table
unfolding mutate_once
claim_retry zero last env done_at q held t = (held, err (transaction_conflicted last), t)
claim_retry (suc left) last env done_at q held t =
    let before = (env left).others t in
    let (outcome, t') = mutate_once (attempt_of (env left)) q.bead_id (claim_body q held) before in
    let lease = lease_after q (env left) held (env left).attempt.begins (lookup q.bead_id before) in
    elim outcome [
      | ok a ↦ (a, ok tt, t')
      | err e ↦
          let rest = claim_retry left e env done_at q lease t' in
          if is_serialization e
          then (if done_at left then (lease, err context_done, t') else rest)
          else (lease, err e, t')
    ]

-- The checks of Claim on its request.
unfoldable pub validate_claim : ClaimRequest → Check
validate_claim q = do
  validate_segment "bead id" q.bead_id
  require (not (leb_ℤ q.generation (pos 0))) generation_not_positive
  validate_workflow_id "workflow id" q.workflow_id

abbrev claim_checked : Check → ClaimLease × Check × Table → Table → ClaimLease × Check × Table
claim_checked (ok _) run t = run
claim_checked (err e) run t = (no_lease, err e, t)

-- Claim
unfoldable pub canonical_claim :
    (ℕ → ClaimAttempt) → (ℕ → Bool) → ClaimRequest → Table → ClaimLease × Check × Table
unfolding claim_retry
canonical_claim env done_at q t =
    claim_checked (validate_claim q)
      (claim_retry mutation_attempts context_done env done_at q no_lease t) t
