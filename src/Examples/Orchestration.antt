-- ===== src/Examples/Orchestration.antt =====
-- Runs of the workflow.
use gas_city.Prelude.{
  if◌then◌else◌, length, take, all, Str, Str-discrete, ℤ-discrete, ℤ, text, is_trimmed, decimal,
  sha256, pos, ℕ, suc, ◌-◌, ◌≤◌, ◌≡◌, refl, ◌≢◌, true, false, List, [], ◌∷◌, ℕ_discrete,
}
use gas_city.Errors.{ok}
use gas_city.Workflow.Handlers.{
  receives_ready, Sdk, scheduled, schedule, cancels, Choice, receives_close, select, activity_ends,
  seal_run, returned,
}
use gas_city.Contracts.Requests
use gas_city.Contracts.Formula
use gas_city.Contracts.Payloads
use gas_city.Contracts.Requests.{
  WorkflowInput, WorkflowState, minute, validate_input, activity_failed, CloseRequest, member,
}
use gas_city.Workflow.Counting.{count, activity_ids}
use gas_city.Workflow.Loop.{
  await, finish, start, head, schedule_all, stopped, succeeded, is_failed, turn,
}
use gas_city.Workflow.Run.{Run, new_run, fail}
use gas_city.Workflow.Preserved.{run_at}
use gas_city.Workflow.Results.{success_complete, activities_bounded, activity_once}
use gas_city.Examples.Data.{event_at}
use gas_city.Contracts.Event.{validate_for_run, validate_with}
use gas_city.Workflow.Sealing.{failed_forever, sealed_success}
use gas_city.Contracts.Identifiers.{
  validate_segment, segment_pattern, ready_event_id, sha256_pattern,
}
use gas_city.Contracts.Payloads.{ActivityResult}

abbrev input : WorkflowInput
input = record {
  contract_version = pos 1;
  city_id = text "city";
  run_id = text "run";
  bead_id = text "bead";
  initial_ready = [];
  close_when_idle = true;
  search_attributes = false;
  heartbeat_timeout = minute;
  event_limit = pos 0;
}

abbrev sdk : Sdk
sdk = record { takes_memo = λ _. true; takes_search_attributes = λ _. true }

abbrev begun : Run
begun = new_run input true (text "workflow") (text "workflow-run")

starts_now : start sdk input true (text "workflow") (text "workflow-run") ≡ ok begun
unfolding start validate_input schedule_all gas_city.Prelude.ℤ-discrete
    gas_city.Contracts.Identifiers.validate_segment gas_city.Prelude.is_trimmed
    gas_city.Contracts.Identifiers.segment_pattern
starts_now = refl

activity_once_example :
    count (text "id") (activity_ids (run_at (await sdk (receives_ready ∷ []) begun)).activities) ≤ 1
activity_once_example =
    activity_once sdk input true (text "workflow") (text "workflow-run") begun starts_now
      (receives_ready ∷ []) (text "id")

activities_bounded_example :
    length (run_at (await sdk (receives_ready ∷ []) begun)).activities ≤ 1024
activities_bounded_example =
    activities_bounded sdk input true (text "workflow") (text "workflow-run") begun starts_now
      (receives_ready ∷ [])

abbrev final_state : WorkflowState
final_state = record begun.state { phase = Requests.completed }

stops_now : await sdk [] begun ≡ stopped begun
unfolding await head new_run gas_city.Prelude.ℕ_discrete
stops_now = refl

succeeds_now : finish begun ≡ succeeded final_state
unfolding finish new_run
succeeds_now = refl

success_complete_example :
    (begun.in_flight ≡ 0)
    × (final_state.failed_event_ids ≡ [])
    × ((x : Str) → count x final_state.completed_event_ids ≡ count x final_state.received_event_ids)
success_complete_example =
    success_complete sdk input true (text "workflow") (text "workflow-run") begun starts_now []
      begun final_state stops_now succeeds_now

failed_forever_example :
    (is_failed (run_at (await sdk (cancels ∷ []) (fail activity_failed begun))).state.phase ≡ true)
    × ((state : WorkflowState)
        → finish (run_at (await sdk (cancels ∷ []) (fail activity_failed begun))) ≢ succeeded state)
failed_forever_example = failed_forever sdk (cancels ∷ []) (fail activity_failed begun) refl

abbrev one_event : WorkflowInput
one_event = record input { initial_ready = event_at 5 ∷ []; close_when_idle = false }

abbrev one_begun : Run
one_begun = scheduled (event_at 5) (new_run one_event true (text "workflow") (text "workflow-run"))

one_starts : start sdk one_event true (text "workflow") (text "workflow-run") ≡ ok one_begun
unfolding start validate_input schedule_all schedule validate_for_run validate_with Formula.validate
    validate_segment segment_pattern is_trimmed ℕ_discrete Str-discrete ℤ-discrete ready_event_id
    sha256 decimal sha256_pattern Formula.activity_id
one_starts = refl

abbrev event_id : Str
event_id = (event_at 5).event_id

abbrev close : CloseRequest
close = record {
  contract_version = pos 1;
  city_id = text "city";
  run_id = text "run";
  bead_id = text "bead";
  expected_event_ids = event_id ∷ [];
  reason_code = text "done";
}

abbrev result : ActivityResult
result = record {
  event_id = event_id;
  outcome = Payloads.completed;
  session_id = text "session";
  artifact_refs = [];
  artifact_refs_truncated = false;
}

abbrev sealed_choices : List Choice
sealed_choices = receives_close close ∷ activity_ends 0 (returned result) ∷ []

abbrev sealed_run : Run
sealed_run = run_at (await sdk sealed_choices one_begun)

abbrev sealed_state : WorkflowState
sealed_state = record sealed_run.state { phase = Requests.completed }

seal_stops : await sdk sealed_choices one_begun ≡ stopped sealed_run
unfolding await head turn select seal_run Formula.validate validate_segment segment_pattern
    is_trimmed ℕ_discrete Str-discrete ℤ-discrete ready_event_id sha256 decimal sha256_pattern
    new_run Requests.validate_close Payloads.Outcome-discrete
seal_stops = refl

seal_succeeds : finish sealed_run ≡ succeeded sealed_state
unfolding finish await head turn select seal_run Formula.validate validate_segment segment_pattern
    is_trimmed ℕ_discrete Str-discrete ℤ-discrete ready_event_id sha256 decimal sha256_pattern
    new_run Requests.validate_close Payloads.Outcome-discrete
seal_succeeds = refl

was_sealed : sealed_run.sealed ≡ true
unfolding finish await head turn select seal_run Formula.validate validate_segment segment_pattern
    is_trimmed ℕ_discrete Str-discrete ℤ-discrete ready_event_id sha256 decimal sha256_pattern
    new_run Requests.validate_close Payloads.Outcome-discrete
was_sealed = refl

sealed_success_example :
    (count event_id sealed_state.completed_event_ids
      ≡ (if member event_id sealed_run.expected then 1 else 0))
    × (count event_id sealed_state.received_event_ids
        ≡ (if member event_id sealed_run.expected then 1 else 0))
sealed_success_example =
    sealed_success sdk one_event true (text "workflow") (text "workflow-run") one_begun one_starts
      sealed_choices sealed_run sealed_state seal_stops seal_succeeds was_sealed event_id
