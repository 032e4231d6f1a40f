-- ===== src/FileStore/Inversion.antt =====
-- bead_store.go: what is so of the loaded state when an operation writes.
use gas_city.Errors.{Check, err_not_ok, Result, ok, err}
use gas_city.Prelude.{
  Str, ◌<ℤ◌, ℤ, ◌≡◌, refl, sym, ap, subst, ◌∙◌, ◌⊎◌, inl, inr, true, false, Option, none, some, [],
  ◌∷◌, ◌++◌, arith,
}
use gas_city.Contracts.Formula.{FormulaRef}
use gas_city.Contracts.Event.{ReadyEvent, Time, new_ready_event, event_of, validate}
use gas_city.Contracts.Payloads.{ClaimRequest, ClaimLease, Completion, AttemptFailure}
use gas_city.FileStore.Records.{
  ready, claimed, BeadRecord, OutboxRecord, FileState, lease_from_record,
}
use gas_city.FileStore.Persistence.{Env, mutate}
use gas_city.FileStore.Operations.{
  decide_ready, find_bead, find_event, put_bead, put_event, write_ready, transition_ready, claim,
  claimed_by, check_completion, complete, completed_by, record_attempt_failure, has_failure,
  acknowledge_ready_event,
}

-- A claim writes exactly when it takes a ready record of its own generation.
pub record Claims (c : ClaimRequest) (s s' : FileState) (l : ClaimLease) : Type 0 where
  pub old : BeadRecord
  pub found : find_bead c.bead_id s ≡ some old
  pub was_ready : old.status ≡ ready
  pub same_generation : old.generation ≡ c.generation
  pub writes : s' ≡ put_bead c.bead_id (claimed_by c old) s
  pub lease : l ≡ lease_from_record (claimed_by c old) true

pub claim-mutate :
    (c : ClaimRequest) (s s' : FileState) (l : ClaimLease)
    → claim c s ≡ mutate s' l
    → Claims c s s' l
unfolding claim
claim-mutate c s s' l e = go (find_bead c.bead_id s) refl
  where
    go : (o : Option BeadRecord) → find_bead c.bead_id s ≡ o → Claims c s s' l
    go none f = ground arith
    go (some r) f = record {
      old = r;
      found = f;
      was_ready = ground arith;
      same_generation = ground arith;
      writes = ground arith;
      lease = ground arith;
    }

-- A completion writes exactly when its fence is that of a claimed record, and its result is sound.
pub record Completes (c : Completion) (s s' : FileState) : Type 0 where
  pub old : BeadRecord
  pub found : find_bead c.bead_id s ≡ some old
  pub was_claimed : old.status ≡ claimed
  pub same_generation : old.generation ≡ c.generation
  pub same_token : old.claim_token ≡ c.claim_token
  pub sound : check_completion c ≡ ok tt
  pub writes : s' ≡ put_bead c.bead_id (completed_by c old) s

pub complete-mutate :
    (c : Completion) (s s' : FileState) → complete c s ≡ mutate s' tt → Completes c s s'
unfolding complete
complete-mutate c s s' e = go (find_bead c.bead_id s) refl (check_completion c) refl
  where
    go :
        (o : Option BeadRecord)
        → find_bead c.bead_id s ≡ o
        → (k : Check) → check_completion c ≡ k
        → Completes c s s'
    go none f k g = ground arith
    go (some r) f (err x) g = ground arith
    go (some r) f (ok _) g = record {
      old = r;
      found = f;
      was_claimed = ground arith;
      same_generation = ground arith;
      same_token = ground arith;
      sound = g;
      writes = ground arith;
    }

abbrev pub failed_by : AttemptFailure → BeadRecord → BeadRecord
failed_by f r = record r { attempt_failures = r.attempt_failures ++ (f ∷ []) }

-- A failure is appended exactly to a claimed record with its fence that does not have it yet.
pub record Fails (f : AttemptFailure) (s s' : FileState) : Type 0 where
  pub old : BeadRecord
  pub found : find_bead f.bead_id s ≡ some old
  pub was_claimed : old.status ≡ claimed
  pub same_generation : old.generation ≡ f.generation
  pub same_token : old.claim_token ≡ f.claim_token
  pub is_new : has_failure f old.attempt_failures ≡ false
  pub writes : s' ≡ put_bead f.bead_id (failed_by f old) s

pub record_attempt_failure-mutate :
    (f : AttemptFailure) (s s' : FileState)
    → record_attempt_failure f s ≡ mutate s' tt
    → Fails f s s'
unfolding record_attempt_failure
record_attempt_failure-mutate f s s' e = go (find_bead f.bead_id s) refl
  where
    go : (o : Option BeadRecord) → find_bead f.bead_id s ≡ o → Fails f s s'
    go none g = ground arith
    go (some r) g = record {
      old = r;
      found = g;
      was_claimed = ground arith;
      same_generation = ground arith;
      same_token = ground arith;
      is_new = ground arith;
      writes = ground arith;
    }

-- A transition writes exactly when the bead is new or at an earlier generation.
pub record Readies (env : Env) (bead_id : Str) (event : ReadyEvent) (s s' : FileState)
    : Type 0 where
  pub earlier :
      (find_bead bead_id s ≡ none)
      ⊎ ((old : BeadRecord) × (find_bead bead_id s ≡ some old)
          × (old.generation <ℤ event.generation))
  pub writes : s' ≡ write_ready env event s

pub new_ready_event-ok :
    (city_id run_id bead_id : Str) (generation : ℤ) (formula : FormulaRef) (now : Time)
    (event : ReadyEvent)
    → new_ready_event city_id run_id bead_id generation formula now ≡ ok event
    → (event ≡ event_of city_id run_id bead_id generation formula now) × (validate event ≡ ok tt)
unfolding new_ready_event
new_ready_event-ok city_id run_id bead_id generation formula now event e =
    go (validate (event_of city_id run_id bead_id generation formula now)) refl
  where
    go :
        (k : Check)
        → validate (event_of city_id run_id bead_id generation formula now) ≡ k
        → (event ≡ event_of city_id run_id bead_id generation formula now)
          × (validate event ≡ ok tt)
    go (ok _) f =
        let same : event ≡ event_of city_id run_id bead_id generation formula now =
          cc (rw f at e) in
        (same, subst (λ x. validate x ≡ ok tt) (sym same) f)
    go (err x) f = absurd (err_not_ok (rw f at e))

decide_ready-mutate :
    (env : Env) (bead_id : Str) (event made : ReadyEvent) (s s' : FileState)
    → decide_ready env made (find_bead bead_id s) s ≡ mutate s' event
    → (event ≡ made) × Readies env bead_id event s s'
unfolding decide_ready
decide_ready-mutate env bead_id event made s s' e = go (find_bead bead_id s) refl
  where
    go :
        (o : Option BeadRecord)
        → find_bead bead_id s ≡ o
        → (event ≡ made) × Readies env bead_id event s s'
    go none f = (ground arith, record { earlier = inl f; writes = ground arith })
    go (some r) f =
        (ground arith, record { earlier = inr (r, f, ground arith); writes = ground arith })

pub transition_ready-mutate :
    (env : Env) (city_id run_id bead_id : Str) (generation : ℤ) (formula : FormulaRef)
    (s s' : FileState) (event : ReadyEvent)
    → transition_ready env city_id run_id bead_id generation formula s ≡ mutate s' event
    → (new_ready_event city_id run_id bead_id generation formula env.now ≡ ok event)
      × Readies env bead_id event s s'
unfolding transition_ready
transition_ready-mutate env city_id run_id bead_id generation formula s s' event e =
    go (new_ready_event city_id run_id bead_id generation formula env.now) refl
  where
    go :
        (r : Result ReadyEvent)
        → new_ready_event city_id run_id bead_id generation formula env.now ≡ r
        → (new_ready_event city_id run_id bead_id generation formula env.now ≡ ok event)
          × Readies env bead_id event s s'
    go (ok made) f =
        let (same, readies) =
          decide_ready-mutate env bead_id event made s s' (rw (f, transition_ready) at e) in
        (f ∙ ap ok (sym same), readies)
    go (err x) f = ground arith

-- An acknowledgement writes exactly when the event is there and has none.
pub record Acknowledges (env : Env) (event_id : Str) (s s' : FileState) : Type 0 where
  pub old : OutboxRecord
  pub found : find_event event_id s ≡ some old
  pub was_open : old.acknowledged_at ≡ 0
  pub writes : s' ≡ put_event event_id (record old { acknowledged_at = env.now }) s

pub acknowledge_ready_event-mutate :
    (env : Env) (event_id : Str) (s s' : FileState)
    → acknowledge_ready_event env event_id s ≡ mutate s' tt
    → Acknowledges env event_id s s'
unfolding acknowledge_ready_event
acknowledge_ready_event-mutate env event_id s s' e = go (find_event event_id s) refl
  where
    go : (o : Option OutboxRecord) → find_event event_id s ≡ o → Acknowledges env event_id s s'
    go none f = ground arith
    go (some r) f = record { old = r; found = f; was_open = ground arith; writes = ground arith }
