-- ===== src/Canonical/Recorded.antt =====
-- dolt_bead_store.go: a completion that answers nil is in the table.
use gas_city.Prelude.{Str, lookup, ℕ, ◌≡◌, refl, sym, ap, ◌∙◌, Bool, some, arith}
use gas_city.Errors.{Check, err_not_ok, Result, ok, err}
use gas_city.FileStore.Records
use gas_city.FileStore.Records.{BeadRecord}
use gas_city.Canonical.Beads.{
  complete_body, decide_row_completion, validate_completion, completion_outcome, completed_row,
  on_record,
}
use gas_city.Canonical.Completes.{completed-read}
use gas_city.Canonical.Answers.{Answered, from_row, new_row, mutate_issue-Answered}
use gas_city.Canonical.Transaction.{Attempt, Table, mutate_issue, replies, updates}
use gas_city.Canonical.Store.{canonical_complete}
use gas_city.Canonical.Outbox.{guarded}
use gas_city.FileStore.Operations.{completed_by}
use gas_city.Contracts.Payloads.{Completion}
use gas_city.Contracts.Event.{Time}
use gas_city.Canonical.Issue.{Issue, record_of}
use gas_city.Outcomes.Envelope.{OutcomeReady}

-- The issue reads as completed under the fence of the completion, with its result.
pub record IsRecorded (c : Completion) (i : Issue) : Type 0 where
  pub bead : BeadRecord
  pub reads : record_of c.bead_id i ≡ ok bead
  pub is_done : bead.status ≡ Records.completed
  pub of_generation : bead.generation ≡ c.generation
  pub of_token : bead.claim_token ≡ c.claim_token
  pub of_session : bead.session_id ≡ c.session_id
  pub of_outcome : bead.outcome ≡ c.outcome
  pub of_artifacts : bead.artifact_refs ≡ c.artifact_refs

abbrev Same : Completion → BeadRecord → Type 0
Same c r =
    (r.status ≡ Records.completed)
    × (r.generation ≡ c.generation)
    × (r.claim_token ≡ c.claim_token)
    × (r.session_id ≡ c.session_id)
    × (r.outcome ≡ c.outcome)
    × (r.artifact_refs ≡ c.artifact_refs)

kept-Same :
    (c : Completion) (store_ref : Str) (now later : Time) (i : Issue) (r : BeadRecord)
    (u : Unit {0}) (m : Result OutcomeReady)
    → completion_outcome c store_ref now r i ≡ m
    → decide_row_completion c store_ref now later i r ≡ replies (ok u)
    → Same c r
kept-Same c store_ref now later i r u (ok o) e h = ground arith
kept-Same c store_ref now later i r u (err x) e h = ground arith

new-Same :
    (c : Completion) (store_ref : Str) (now later : Time) (i j : Issue) (r : BeadRecord)
    (u : Unit {0}) (m : Result OutcomeReady)
    → completion_outcome c store_ref now r i ≡ m
    → decide_row_completion c store_ref now later i r ≡ updates j u
    → (o : OutcomeReady) × (completed_row c o later i ≡ j) × Same c (completed_by c r)
new-Same c store_ref now later i j r u (ok o) e h = (o, ground arith, ground arith)
new-Same c store_ref now later i j r u (err x) e h = absurd (ground arith)

on_row :
    (c : Completion) (i : Issue) (r : BeadRecord)
    → record_of c.bead_id i ≡ ok r
    → Same c r
    → IsRecorded c i
on_row c i r h (done, generation, token, session, outcome, artifacts) = record {
  bead = r;
  reads = h;
  is_done = done;
  of_generation = generation;
  of_token = token;
  of_session = session;
  of_outcome = outcome;
  of_artifacts = artifacts;
}

module _ (c : Completion) (store_ref : Str) (now later : Time) where
  replied-IsRecorded :
      (i : Issue) (u : Unit {0}) (m : Result BeadRecord)
      → record_of c.bead_id i ≡ m
      → on_record m (decide_row_completion c store_ref now later i) ≡ replies (ok u)
      → IsRecorded c i
  replied-IsRecorded i u (ok r) e h =
      on_row c i r e
        (kept-Same c store_ref now later i r u (completion_outcome c store_ref now r i) refl h)
  replied-IsRecorded i u (err x) e h = absurd (ground arith)

  written-IsRecorded :
      (i j : Issue) (u : Unit {0}) (m : Result BeadRecord)
      → record_of c.bead_id i ≡ m
      → on_record m (decide_row_completion c store_ref now later i) ≡ updates j u
      → IsRecorded c j
  written-IsRecorded i j u (ok r) e h =
      let (o, row, same) =
        new-Same c store_ref now later i j r u (completion_outcome c store_ref now r i) refl h in
      on_row c j (completed_by c r)
        (ap (record_of c.bead_id) (sym row) ∙ completed-read c o later c.bead_id i r e) same
  written-IsRecorded i j u (err x) e h = absurd (ground arith)

  Answered-IsRecorded :
      (u : Unit {0}) (t : Table)
      → Answered c.bead_id (complete_body c store_ref now later) u t
      → (i : Issue) × (lookup c.bead_id t ≡ some i) × IsRecorded c i
  unfolding complete_body
  Answered-IsRecorded u t (from_row i found h) =
      (i, found, replied-IsRecorded i u (record_of c.bead_id i) refl h)
  Answered-IsRecorded u t (new_row i j found h) =
      (j, found, written-IsRecorded i j u (record_of c.bead_id i) refl h)

-- A Complete of the canonical store that answers nil, however the transactions before its last one
-- ended, has left the bead in the table as completed under the generation and the token of the
-- completion, with its session, outcome and artifacts.
pub canonical_complete-IsRecorded :
    (env : ℕ → Attempt) (done_at : ℕ → Bool) (store_ref : Str) (now later : Time) (c : Completion)
    (t : Table)
    → (canonical_complete env done_at store_ref now later c t).0 ≡ ok tt
    → (i : Issue) × (lookup c.bead_id (canonical_complete env done_at store_ref now later c t).1
        ≡ some i)
      × IsRecorded c i
unfolding canonical_complete
canonical_complete-IsRecorded env done_at store_ref now later c t h = go (validate_completion c) h
  where
    run : Result (Unit {0}) × Table
    run = mutate_issue env done_at c.bead_id (complete_body c store_ref now later) t

    go :
        (m : Check)
        → (guarded m run t).0 ≡ ok tt
        → (i : Issue) × (lookup c.bead_id (guarded m run t).1 ≡ some i) × IsRecorded c i
    go (ok _) k =
        Answered-IsRecorded c store_ref now later tt run.1
          (mutate_issue-Answered c.bead_id (complete_body c store_ref now later) tt env done_at t k)
    go (err e) k = absurd (err_not_ok k)
