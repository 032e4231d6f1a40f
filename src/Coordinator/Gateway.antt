-- ===== src/Coordinator/Gateway.antt =====
-- outcome_reconciler.go: CoordinatorOutcomeBridge, and the gateway over the Go client of Temporal.
use gas_city.Prelude.{
  if◌then◌else◌, Str, leb_ℤ, ℤ, text, Map, pos, Bool, true, false, Option, none, some, [], ◌∷◌,
  ◌++◌,
}
use gas_city.Errors.{
  ◌>>=◌, wrap, Error, Result, ok, err, not_configured, outcome_signal_failed,
  outcome_describe_failed, outcome_no_execution_info, outcome_workflow_ended,
}
use gas_city.Outcomes.Envelope.{OutcomeReady, producer_text}
use gas_city.Contracts.Link.{WorkflowReceipt}
use gas_city.Bridge.World.{and_then}
use gas_city.Outcomes.Workflow.{outcome_workflow_id}

-- CoordinatorOutcomeGateway
pub record OutcomeGateway {ℓ} (W : Type ℓ) : Type ℓ where
  pub signal_with_start_outcome : OutcomeReady → W → Result WorkflowReceipt × W
  pub outcome_workflow_running : OutcomeReady → W → Result Bool × W

abbrev receipt_named : Str → Str → WorkflowReceipt
receipt_named id run = record { workflow_id = id; run_id = run; event_id = [] }

-- Deliver
unfoldable pub deliver_outcome {ℓ} :
    {W : Type ℓ} → Option (OutcomeGateway W) → OutcomeReady → W → Result WorkflowReceipt × W
deliver_outcome none o w = (err (not_configured "coordinator outcome Temporal gateway"), w)
deliver_outcome (some g) o w = g.signal_with_start_outcome o w

-- What Ensure does with an answer about the workflow: the receipt, and whether it was signalled.
unfoldable pub ensure_running {ℓ} :
    {W : Type ℓ} → OutcomeGateway W → OutcomeReady → Bool → W → Result (WorkflowReceipt × Bool) × W
ensure_running g o true w = (outcome_workflow_id o >>= λ id. ok (receipt_named id [], false), w)
ensure_running g o false w =
    and_then (g.signal_with_start_outcome o w) (λ receipt v. (ok (receipt, true), v))

-- Ensure
unfoldable pub ensure {ℓ} :
    {W : Type ℓ}
    → Option (OutcomeGateway W)
    → OutcomeReady
    → W
    → Result (WorkflowReceipt × Bool) × W
unfolding ensure_running
ensure none o w = (err (not_configured "coordinator outcome Temporal gateway"), w)
ensure (some g) o w = and_then (g.outcome_workflow_running o w) (ensure_running g o)

-- CoordinatorOutcomeMemo
unfoldable pub outcome_memo : OutcomeReady → Map Str
outcome_memo o =
    (text "GasCityOutcomeStoreRef", o.store_ref)
    ∷ (text "GasCityOutcomeWorkID", o.work_id)
    ∷ (text "GasCityOutcomeSourceRootID", o.source_root_id)
    ∷ (text "GasCityOutcomeProducer", producer_text o.producer)
    ∷ (text "GasCityOutcomeStepKey", o.step_key)
    ∷ (text "GasCityOutcomeID", o.outcome_id)
    ∷ (unless_empty (text "GasCitySourceWorkflowID") o.workflow_id
        ++ unless_empty (text "GasCitySourceWorkflowRunID") o.workflow_run_id)
  where
    unless_empty : Str → Str → Map Str
    unless_empty key [] = []
    unless_empty key (c ∷ s) = (key, c ∷ s) ∷ []

-- The statuses of an execution that the Temporal API has; `unspecified` is any other.
pub data ExecutionStatus : Type 0 where
  running completed failed cancelled terminated timed_out continued_as_new : ExecutionStatus
  unspecified : ExecutionStatus

-- The answer to DescribeWorkflowExecution; the description may lack the execution's info.
pub data Described : Type 0 where
  no_workflow : Described
  describe_error : Error → Described
  description : Option ExecutionStatus → Described

-- outcomeTaskQueue
unfoldable pub outcome_task_queue : Str → Str
outcome_task_queue [] = text "gascity-coordinator-outcomes"
outcome_task_queue (c ∷ s) = c ∷ s

-- The options and the input of a start.
pub record OutcomeStart : Type 0 where
  pub id : Str
  pub task_queue : Str
  pub memo : Map Str
  pub envelope : OutcomeReady
  pub redelivery_interval : ℤ

-- The operations of `client.Client` that the gateway calls.
pub record OutcomeClient {ℓ} (W : Type ℓ) : Type ℓ where
  pub signal_with_start_workflow : OutcomeStart → W → Result (Str × Str) × W
  pub describe_workflow_execution : Str → W → Described × W

-- CoordinatorOutcomeTemporalGateway
pub record TemporalOutcomeGateway {ℓ} (W : Type ℓ) : Type ℓ where
  pub client : Option (OutcomeClient W)
  pub redelivery_interval : ℤ
  pub task_queue : Str

-- A minute, in nanoseconds.
abbrev default_redelivery_period : ℤ
default_redelivery_period = pos 60000000000

abbrev start_of {ℓ} : {W : Type ℓ} → TemporalOutcomeGateway W → OutcomeReady → Str → OutcomeStart
start_of g o id = record {
  id = id;
  task_queue = outcome_task_queue g.task_queue;
  memo = outcome_memo o;
  envelope = o;
  redelivery_interval =
      if leb_ℤ g.redelivery_interval (pos 0)
      then default_redelivery_period
      else g.redelivery_interval;
}

-- SignalWithStartOutcome
unfoldable pub signal_with_start_outcome {ℓ} :
    {W : Type ℓ} → TemporalOutcomeGateway W → OutcomeReady → W → Result WorkflowReceipt × W
unfolding outcome_memo
signal_with_start_outcome g o w = elim g.client [
  | none ↦ (err (not_configured "Temporal client"), w)
  | some c ↦
      and_then (outcome_workflow_id o, w)
        (λ id v.
          let (run, u) = c.signal_with_start_workflow (start_of g o id) v in
          (wrap (outcome_signal_failed o.outcome_id) run >>= λ r. ok (receipt_named r.0 r.1), u))
]

-- The switch on the status.
abbrev is_running : OutcomeReady → Described → Result Bool
is_running o no_workflow = ok false
is_running o (describe_error e) = err (outcome_describe_failed o.outcome_id e)
is_running o (description none) = err (outcome_no_execution_info o.outcome_id)
is_running o (description (some running)) = ok true
is_running o (description (some completed)) = err (outcome_workflow_ended o.outcome_id)
is_running o (description (some unspecified)) = err (outcome_workflow_ended o.outcome_id)
is_running o (description (some _)) = ok false

-- OutcomeWorkflowRunning
unfoldable pub outcome_workflow_running {ℓ} :
    {W : Type ℓ} → TemporalOutcomeGateway W → OutcomeReady → W → Result Bool × W
outcome_workflow_running g o w = elim g.client [
  | none ↦ (err (not_configured "Temporal client"), w)
  | some c ↦
      and_then (outcome_workflow_id o, w)
        (λ id v.
          let (described, u) = c.describe_workflow_execution id v in (is_running o described, u))
]

-- The gateway as the bridge sees it.
abbrev pub as_outcome_gateway {ℓ} : {W : Type ℓ} → TemporalOutcomeGateway W → OutcomeGateway W
as_outcome_gateway g = record {
  signal_with_start_outcome = signal_with_start_outcome g;
  outcome_workflow_running = outcome_workflow_running g;
}
