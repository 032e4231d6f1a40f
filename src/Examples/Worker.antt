-- ===== src/Examples/Worker.antt =====
-- Runs of the activity on the file store.
use gas_city.Prelude.{
  none_not_some, all, Str, Str-discrete, ℤ-discrete, ℤ, text, is_trimmed, before, lookup, insert,
  merge, pos, ℕ, ◌-◌, ◌/◌, ◌≡◌, refl, true, false, not, none, some, List, [], ◌∷◌, arith,
  ℕ_discrete,
}
use gas_city.Errors.{ok}
use gas_city.Contracts.Payloads
use gas_city.Contracts.Payloads.{
  no_outcome, checkpoint_phase_attached, ClaimLease, ClaimRequest, Completion, ActivityResult,
  HeartbeatCheckpoint,
}
use gas_city.FileStore.Records
use gas_city.FileStore.Persistence.{written, document, encode, Store, Env, execute}
use gas_city.Examples.Data.{formula, event_at, sound}
use gas_city.Worker.Interface.{
  no_details, returned, AgentExecutor, Info, AgentProgress, AgentExecutionResult, BeadStore,
}
use gas_city.Worker.Tracker.{records, new_tracker, HeartbeatTracker, record_progress}
use gas_city.Worker.Execute.{
  AgentExecution, claim_lease, run_agent, activity_heartbeat, validate_worker,
}
use gas_city.Worker.Beats.{IsOrderly, Follows, records-IsOrderly}
use gas_city.FileStore.Records.{BeadRecord, FileState}
use gas_city.Contracts.Event.{ReadyEvent}
use gas_city.FileStore.Durability.{IsSynced}
use gas_city.Worker.Finish.{
  check_complete, complete_lease, execute_bead, executed_terminal, completion_for, result_for,
  final_checkpoint,
}
use gas_city.FileStore.Operations.{claim, complete}
use gas_city.Worker.OnFile.{IsOnFile, file_beads, activity_durable}
use gas_city.Contracts.Identifiers.{validate_segment}
use gas_city.Examples.Bridge.{named}
use gas_city.Worker.Delivered.{IsDelivered}
use gas_city.Worker.Executed.{execute_bead-IsDelivered}

abbrev event : ReadyEvent
event = event_at 5

abbrev held : BeadRecord
held = record {
  city_id = text "city";
  run_id = text "run";
  bead_id = text "bead";
  generation = pos 1;
  formula = formula;
  status = Records.claimed;
  workflow_id = text "bead-orchestration/city/run/bead";
  claim_token = text "claim-1";
  session_id = [];
  outcome = no_outcome;
  artifact_refs = [];
  attempt_failures = [];
}

abbrev state : FileState
state = record { version = pos 1; beads = some ((text "bead", held) ∷ []); outbox = some [] }

abbrev store : Store
store = record { memory = state; file = document (encode state) }

abbrev calm : Env
calm = record {
  lockable = true;
  readable = true;
  now = 5;
  superseded_now = λ _. 5;
  write = written;
  reloadable = true;
}

abbrev lease : ClaimLease
lease = record {
  bead_id = text "bead";
  generation = pos 1;
  token = text "claim-1";
  acquired = true;
}

abbrev report : AgentProgress
report = record {
  session_id = text "session";
  sequence = pos 1;
  phase = text "working";
  artifact_refs = [];
}

abbrev agent_result : AgentExecutionResult
agent_result = record { session_id = []; outcome = Payloads.completed; artifact_refs = [] }

abbrev agent : AgentExecutor Store
agent = record {
  resolve_session = λ _ s. (ok (text "session"), s);
  execute_agent = λ _ s. (record { reports = report ∷ []; ends = returned agent_result }, s);
  cancel = λ _ s. (ok tt, s);
}

abbrev info : Info
info = record {
  workflow_id = text "bead-orchestration/city/run/bead";
  run_id = text "run-1";
  attempt = 1;
  heartbeat_details = no_details;
  is_canceled = false;
}

abbrev at_start : HeartbeatTracker
at_start = new_tracker event lease none (text "session")

abbrev done_agent : AgentExecutionResult
done_agent = record agent_result { session_id = text "session" }

abbrev execution : AgentExecution
execution = record {
  result = done_agent;
  last_sequence = pos 1;
  sent = (records (report ∷ []) at_start).sent;
}

starts-IsOrderly : IsOrderly at_start
unfolding new_tracker gas_city.Prelude.Str-discrete Payloads.validate_checkpoint
    gas_city.Prelude.ℤ-discrete gas_city.Contracts.Identifiers.validate_segment
    gas_city.Prelude.is_trimmed gas_city.Contracts.Identifiers.segment_pattern
starts-IsOrderly = record { attached = refl; valid = refl; descends = tt; all_of = tt }

records-IsOrderly_example :
    Follows at_start (records (report ∷ []) at_start) × IsOrderly (records (report ∷ []) at_start)
records-IsOrderly_example = records-IsOrderly (report ∷ []) at_start starts-IsOrderly

abbrev beads : BeadStore Store
beads = file_beads calm calm calm

abbrev claim_request : ClaimRequest
claim_request = record {
  bead_id = text "bead";
  generation = pos 1;
  workflow_id = text "bead-orchestration/city/run/bead";
}

claimed : execute calm (claim claim_request) store ≡ (ok lease, store)
unfolding claim execute ℤ-discrete lookup merge insert Str-discrete
claimed = refl

leased : claim_lease beads event store ≡ (ok lease, store)
unfolding claim_lease Str-discrete ℤ-discrete ℕ_discrete
leased = ground (arith, named, claimed)

session_valid : validate_segment "session id" (text "session") ≡ ok tt
unfolding validate_segment is_trimmed gas_city.Contracts.Identifiers.segment_pattern
session_valid = refl

abbrev tracked : HeartbeatTracker
tracked = records (report ∷ []) at_start

attached : tracked.session_id ≡ text "session"
unfolding records new_tracker record_progress Payloads.validate_checkpoint ℤ-discrete
    validate_segment is_trimmed gas_city.Contracts.Identifiers.segment_pattern
attached = refl

counted : tracked.sequence ≡ pos 1
unfolding records new_tracker record_progress Payloads.validate_checkpoint ℤ-discrete
    validate_segment is_trimmed gas_city.Contracts.Identifiers.segment_pattern
counted = refl

ran : run_agent beads agent info event lease none store ≡ (ok execution, store)
unfolding run_agent Str-discrete ℕ_discrete
ran = ground (arith, session_valid, attached, counted)

checks : check_complete info event lease (executed_terminal execution) ≡ ok tt
unfolding check_complete Payloads.Outcome-discrete validate_segment is_trimmed
    gas_city.Contracts.Identifiers.segment_pattern
    gas_city.Contracts.Identifiers.validate_workflow_id Payloads.validate_checkpoint ℤ-discrete
checks = refl

abbrev the_completion : Completion
the_completion = completion_for info event lease done_agent

abbrev done_store : Store
done_store = (execute calm (complete the_completion) store).1

completes : (execute calm (complete the_completion) store).0 ≡ ok tt
unfolding complete execute ℤ-discrete lookup merge insert Str-discrete
    gas_city.FileStore.Operations.check_completion validate_segment is_trimmed
    gas_city.Contracts.Identifiers.segment_pattern Payloads.Outcome-discrete
completes = refl

abbrev result : ActivityResult
result = result_for event done_agent false

abbrev beats : List HeartbeatCheckpoint
beats = final_checkpoint event lease done_agent (pos 1) false ∷ tracked.sent

completed :
    complete_lease beads info event lease (executed_terminal execution) store
    ≡ (ok (result, beats), done_store)
unfolding complete_lease
completed = ground (arith, checks, completes)

finishes :
    execute_bead (record { beads = some beads; agent = some agent }) info event store
    ≡ (ok (result, beats), done_store)
unfolding execute_bead activity_heartbeat validate_worker
finishes = ground (arith, sound 5 (ground arith), leased, ran, completed)

store-IsSynced : IsSynced state store.file
unfolding lookup
store-IsSynced = record { beads = λ b r h. (r, h); events = λ id r h. absurd (none_not_some h) }

activity_durable_example : IsOnFile event result done_store
activity_durable_example =
    activity_durable calm calm calm agent info event result beats store done_store (λ h. cc)
      (λ _ _ h. h) (λ _ _ h. h) store-IsSynced finishes

execute_bead-IsDelivered_example :
    (before : Store) × Unit {0} × IsDelivered beads event result before done_store
execute_bead-IsDelivered_example =
    execute_bead-IsDelivered (λ _. Unit {0}) beads agent
      (record {
        claim_keeps = λ _ _ _ _ _. tt;
        resolve_keeps = λ _ _ _. tt;
        execute_keeps = λ _ _ _. tt;
      })
      info event result beats store done_store tt finishes
