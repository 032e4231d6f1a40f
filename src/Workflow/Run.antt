-- ===== src/Workflow/Run.antt =====
-- workflow.go: the state of a run, `newWorkflowRun`, `fail` and the sets of event ids.
use gas_city.Prelude.{
  if◌then◌else◌, length, ◌==◌, nat_eq, Str, text_eq, int_eq, ℤ, pos, ℕ, Bool, true, false, ◌&&◌,
  List, [], ◌∷◌,
}
use gas_city.Contracts.Event.{ReadyEvent}
use gas_city.Contracts.Link.{ChildWorkflowLink}
use gas_city.Contracts.Identifiers.{current_contract_version}
use gas_city.Contracts.Requests.{
  WorkflowInput, WorkflowState, Phase, ErrorCode, no_code, default_event_limit, member,
}
use gas_city.Contracts.Requests

-- `pendingActivity`; its future is what the environment completes.
pub record Pending : Type 0 where
  pub event : ReadyEvent
  pub terminal : Bool

-- `workflowRun`. `ready` holds the ready signals that wait in the channel, `links` the signals that
-- were sent to parent workflows, `canceled` says that `cancelErr` is set. `workflow_id` and `run_id`
-- are the run's own identity.
pub record Run : Type 0 where
  pub input : WorkflowInput
  pub require_formula : Bool
  pub workflow_id : Str
  pub run_id : Str
  pub state : WorkflowState
  pub ready : List ReadyEvent
  pub seen : List Str
  pub expected : List Str
  pub event_limit : ℤ
  pub in_flight : ℕ
  pub parent_signals : ℕ
  pub closing : Bool
  pub sealed : Bool
  pub canceled : Bool
  pub activities : List Pending
  pub links : List ChildWorkflowLink

abbrev pub initial_state : WorkflowInput → WorkflowState
initial_state input = record {
  contract_version = current_contract_version;
  city_id = input.city_id;
  run_id = input.run_id;
  bead_id = input.bead_id;
  phase = Requests.running;
  received_event_ids = [];
  completed_event_ids = [];
  failed_event_ids = [];
  last_error_code = no_code;
}

-- newWorkflowRun
unfoldable pub new_run : WorkflowInput → Bool → Str → Str → Run
new_run input require_formula workflow_id run_id = record {
  input = input;
  require_formula = require_formula;
  workflow_id = workflow_id;
  run_id = run_id;
  state = initial_state input;
  ready = [];
  seen = [];
  expected = [];
  event_limit = if input.event_limit == pos 0 then pos default_event_limit else input.event_limit;
  in_flight = 0;
  parent_signals = 0;
  closing = input.close_when_idle;
  sealed = false;
  canceled = false;
  activities = [];
  links = [];
}

-- fail
abbrev pub fail : ErrorCode → Run → Run
fail code r = record r {
  state = record r.state { phase = Requests.failed; last_error_code = code };
  closing = true;
}

-- Every id of the first list is in the second.
abbrev pub subset : List Str → List Str → Bool
subset [] t = true
subset (x ∷ s) t = member x t && subset s t

-- eventIDSet: the list without repetitions.
abbrev pub event_id_set : List Str → List Str
event_id_set [] = []
event_id_set (x ∷ xs) = let rest = event_id_set xs in if member x rest then rest else x ∷ rest

-- eventIDSetsEqual
abbrev pub event_id_sets_equal : List Str → List Str → Bool
event_id_sets_equal left right = length left == length right && subset left right

-- receivedExpectedEvents
abbrev pub received_expected : Run → Bool
received_expected r = subset r.expected r.seen

-- seenEventsAreExpected
abbrev pub seen_expected : Run → Bool
seen_expected r = subset r.seen r.expected
