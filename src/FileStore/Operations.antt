-- ===== src/FileStore/Operations.antt =====
-- bead_store.go: the operations of `FileBeadStore`, as decisions from the loaded state.
use gas_city.Prelude.{
  ltb, if◌then◌else◌, ◌==◌, ◌!=◌, nat_eq, Str, text_eq, ltb_ℤ, int_eq, ℤ, Map, lookup, insert,
  update_all, Bool, true, false, ◌&&◌, ◌||◌, not, Option, none, some, List, [], ◌∷◌, ◌++◌, sort_by,
}
use gas_city.Errors.{
  Check, ◌>>◌, require, check_all, Result, ok, err, bead_not_found, stale_fence,
  ready_generation_has_no_event, different_formula_snapshot, completion_conflict,
  completion_outcome_invalid,
}
use gas_city.Contracts.Identifiers.{validate_segment}
use gas_city.Contracts.Artifact
use gas_city.Contracts.Artifact.{ArtifactRef, artifacts_eq}
use gas_city.Contracts.Formula.{FormulaRef, formula_eq}
use gas_city.Contracts.Event.{ReadyEvent, Time, new_ready_event}
use gas_city.Contracts.Payloads.{
  no_outcome, ClaimRequest, ClaimLease, no_lease, Completion, AttemptFailure, outcome_eq,
}
use gas_city.Contracts.Payloads
use gas_city.FileStore.Records.{
  BeadRecord, OutboxRecord, FileState, BeadStatus, ready, claimed, completed, is_pending,
  claim_token, lease_from_record, matches_fence,
}
use gas_city.FileStore.Persistence.{Decision, reply, mutate, Env}

abbrev pub entries {ℓ} : {V : Type ℓ} → Option (Map V) → Map V
entries none = []
entries (some m) = m

-- A nil map reads as empty.
abbrev pub find_bead : Str → FileState → Option BeadRecord
find_bead id s = lookup id (entries s.beads)

abbrev pub find_event : Str → FileState → Option OutboxRecord
find_event id s = lookup id (entries s.outbox)

abbrev pub put_bead : Str → BeadRecord → FileState → FileState
put_bead id r s = record s { beads = some (insert id r (entries s.beads)) }

abbrev pub put_event : Str → OutboxRecord → FileState → FileState
put_event id r s = record s { outbox = some (insert id r (entries s.outbox)) }

abbrev pub new_bead : Str → Str → Str → ℤ → FormulaRef → BeadRecord
new_bead city_id run_id bead_id generation formula = record {
  city_id = city_id;
  run_id = run_id;
  bead_id = bead_id;
  generation = generation;
  formula = formula;
  status = ready;
  workflow_id = [];
  claim_token = [];
  session_id = [];
  outcome = no_outcome;
  artifact_refs = [];
  attempt_failures = [];
}

-- The body of the loop of TransitionReady over the outbox.
abbrev pub superseded : Str → ℤ → (Str → Time) → Str → OutboxRecord → OutboxRecord
superseded bead_id generation clock event_id r =
    if r.event.bead_id == bead_id && (ltb_ℤ r.event.generation generation && is_pending r)
    then record r { superseded_at = clock event_id }
    else r

abbrev pub supersede : Str → ℤ → (Str → Time) → FileState → FileState
supersede bead_id generation clock s = record s {
  outbox = some (update_all (superseded bead_id generation clock) (entries s.outbox));
}

-- TransitionReady where the bead is at this generation already.
repeated_ready : FormulaRef → Option OutboxRecord → Result ReadyEvent
repeated_ready formula none = err ready_generation_has_no_event
repeated_ready formula (some r) =
    if r.event.formula == formula then ok r.event else err different_formula_snapshot

-- TransitionReady that writes the new generation.
abbrev pub write_ready : Env → ReadyEvent → FileState → FileState
write_ready env event s =
    put_event event.event_id (record { event = event; acknowledged_at = 0; superseded_at = 0 })
      (supersede event.bead_id event.generation env.superseded_now (
        put_bead event.bead_id
          (new_bead event.city_id event.run_id event.bead_id event.generation event.formula) s))

unfoldable pub decide_ready : Env → ReadyEvent → Option BeadRecord → FileState → Decision ReadyEvent
unfolding repeated_ready
decide_ready env event none s = mutate (write_ready env event s) event
decide_ready env event (some current) s =
    if ltb_ℤ event.generation current.generation
    then reply (err stale_fence)
    else if event.generation == current.generation
    then reply (repeated_ready event.formula (find_event event.event_id s))
    else mutate (write_ready env event s) event

-- TransitionReady
unfoldable pub transition_ready :
    Env → Str → Str → Str → ℤ → FormulaRef → FileState → Decision ReadyEvent
unfolding decide_ready
transition_ready env city_id run_id bead_id generation formula s =
    elim (new_ready_event city_id run_id bead_id generation formula env.now) [
      | ok event ↦ decide_ready env event (find_bead bead_id s) s
      | err e ↦ reply (err e)
    ]

abbrev pub is_ready : BeadStatus → Bool
is_ready ready = true
is_ready _ = false

abbrev pub is_claimed : BeadStatus → Bool
is_claimed claimed = true
is_claimed _ = false

abbrev pub is_completed : BeadStatus → Bool
is_completed completed = true
is_completed _ = false

abbrev pub claimed_by : ClaimRequest → BeadRecord → BeadRecord
claimed_by request r = record r {
  status = claimed;
  workflow_id = request.workflow_id;
  claim_token = claim_token request;
}

decide_claim : ClaimRequest → Option BeadRecord → FileState → Decision ClaimLease
decide_claim request none s = reply (ok no_lease)
decide_claim request (some r) s =
    if r.generation != request.generation
    then reply (ok no_lease)
    else if (is_claimed r.status || is_completed r.status) && r.workflow_id == request.workflow_id
    then reply (ok (lease_from_record r true))
    else if not (is_ready r.status)
    then reply (ok (lease_from_record r false))
    else mutate (put_bead request.bead_id (claimed_by request r) s)
        (lease_from_record (claimed_by request r) true)

-- Claim
unfoldable pub claim : ClaimRequest → FileState → Decision ClaimLease
unfolding decide_claim
claim request s = decide_claim request (find_bead request.bead_id s) s

-- The checks of Complete on the terminal result itself.
unfoldable pub check_completion : Completion → Check
check_completion c = do
  validate_segment "session id" c.session_id
  require (c.outcome == Payloads.completed) completion_outcome_invalid
  check_all Artifact.validate c.artifact_refs

abbrev pub completed_by : Completion → BeadRecord → BeadRecord
completed_by c r = record r {
  status = completed;
  session_id = c.session_id;
  outcome = c.outcome;
  artifact_refs = c.artifact_refs;
}

-- Whether a completed record holds just this result.
abbrev pub same_result : BeadRecord → Completion → Bool
same_result r c =
    r.session_id == c.session_id && (r.outcome == c.outcome && r.artifact_refs == c.artifact_refs)

write_completion : Completion → BeadRecord → FileState → Decision (Unit {0})
write_completion c r s = elim (check_completion c) [
  | ok _ ↦ mutate (put_bead c.bead_id (completed_by c r) s) tt
  | err e ↦ reply (err e)
]

decide_complete : Completion → Option BeadRecord → FileState → Decision (Unit {0})
unfolding write_completion
decide_complete c none s = reply (err stale_fence)
decide_complete c (some r) s =
    if not (matches_fence r c.generation c.claim_token)
    then reply (err stale_fence)
    else if is_completed r.status
    then (if same_result r c then reply (ok tt) else reply (err completion_conflict))
    else if not (is_claimed r.status)
    then reply (err stale_fence)
    else write_completion c r s

-- Complete
unfoldable pub complete : Completion → FileState → Decision (Unit {0})
unfolding decide_complete
complete c s = decide_complete c (find_bead c.bead_id s) s

abbrev pub same_failure : AttemptFailure → AttemptFailure → Bool
same_failure f g = f.attempt == g.attempt && f.code == g.code

abbrev pub has_failure : AttemptFailure → List AttemptFailure → Bool
has_failure f [] = false
has_failure f (g ∷ gs) = same_failure g f || has_failure f gs

decide_failure : AttemptFailure → Option BeadRecord → FileState → Decision (Unit {0})
decide_failure f none s = reply (err stale_fence)
decide_failure f (some r) s =
    if not (is_claimed r.status && matches_fence r f.generation f.claim_token)
    then reply (err stale_fence)
    else if has_failure f r.attempt_failures
    then reply (ok tt)
    else mutate
        (put_bead f.bead_id (record r { attempt_failures = r.attempt_failures ++ (f ∷ []) }) s) tt

-- RecordAttemptFailure
unfoldable pub record_attempt_failure : AttemptFailure → FileState → Decision (Unit {0})
unfolding decide_failure
record_attempt_failure f s = decide_failure f (find_bead f.bead_id s) s

-- Inspect
unfoldable pub inspect : Str → FileState → Decision BeadRecord
inspect bead_id s = elim (find_bead bead_id s) [
  | none ↦ reply (err bead_not_found)
  | some r ↦ reply (ok r)
]

-- Go's `<` on strings.
unfoldable pub text_less : Str → Str → Bool
text_less [] [] = false
text_less [] (_ ∷ _) = true
text_less (_ ∷ _) [] = false
text_less (a ∷ s) (b ∷ t) = ltb a b || (a == b && text_less s t)

-- The order of PendingReadyEvents: the time, then the event id.
unfoldable pub event_less : ReadyEvent → ReadyEvent → Bool
unfolding text_less
event_less a b =
    if a.ready_at == b.ready_at then text_less a.event_id b.event_id else ltb a.ready_at b.ready_at

unfoldable pub pending_events : Map OutboxRecord → List ReadyEvent
pending_events [] = []
pending_events ((id, r) ∷ m) =
    let rest = pending_events m in if is_pending r then r.event ∷ rest else rest

-- `sort.Slice` by `event_less`.
unfoldable pub sort_events : List ReadyEvent → List ReadyEvent
unfolding event_less
sort_events = sort_by event_less

-- PendingReadyEvents
unfoldable pub pending_ready_events : FileState → Decision (List ReadyEvent)
unfolding pending_events sort_events
pending_ready_events s = reply (ok (sort_events (pending_events (entries s.outbox))))

-- AcknowledgeReadyEvent
unfoldable pub acknowledge_ready_event : Env → Str → FileState → Decision (Unit {0})
acknowledge_ready_event env event_id s = elim (find_event event_id s) [
  | none ↦ reply (err bead_not_found)
  | some r ↦
      if not (r.acknowledged_at == 0)
      then reply (ok tt)
      else mutate (put_event event_id (record r { acknowledged_at = env.now }) s) tt
]
