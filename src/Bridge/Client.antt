-- ===== src/Bridge/Client.antt =====
-- bridge.go and reconciler.go: TemporalClientGateway over the Go client of Temporal.
use gas_city.Prelude.{
  if◌then◌else◌, ◌==◌, nat_eq, Str, text_eq, int_eq, ℤ, text, ◌⊎◌, inl, inr, Bool, false, Option,
  none, some, List, [], ◌∷◌, ◌++◌,
}
use gas_city.Errors.{
  Check, ◌>>◌, wrap, Error, Result, ok, err, not_configured, gateway_failed, state_decode_failed,
}
use gas_city.Contracts.Link
use gas_city.Contracts.Event.{ReadyEvent}
use gas_city.Contracts.Requests.{WorkflowState, CloseRequest, WorkflowInput, member}
use gas_city.Bridge.World.{StartOrSignalRequest, WorkflowGateway, and_then}
use gas_city.Contracts.Link.{WorkflowReceipt, ChildWorkflowLink, new_child_workflow_link}

-- The values of `FormulaMemo` and of `FormulaSearchAttributes`.
pub data Value : Type 0 where
  keyword : Str → Value
  number : ℤ → Value

-- FormulaSearchAttributeUpdates
unfoldable pub formula_search_attribute_updates : ReadyEvent → List (Str × Value)
formula_search_attribute_updates event =
    (text "GasCityFormulaName", keyword event.formula.name)
    ∷ (text "GasCityFormulaHash", keyword event.formula.hash)
    ∷ (text "GasCityFormulaVersion", keyword event.formula.version)
    ∷ (text "GasCityFormulaRoot", keyword event.formula.root_id)
    ∷ (text "GasCityFormulaStep", keyword event.formula.step_key)
    ∷ (text "GasCityRig", keyword event.formula.rig)
    ∷ (text "GasCityBead", keyword event.bead_id)
    ∷ (text "GasCityGeneration", number event.generation)
    ∷ []

abbrev unless_empty : Str → Str → List (Str × Value)
unless_empty key [] = []
unless_empty key (c ∷ s) = (key, keyword (c ∷ s)) ∷ []

-- FormulaMemo
unfoldable pub formula_memo : ReadyEvent → List (Str × Value)
unfolding formula_search_attribute_updates
formula_memo event =
    formula_search_attribute_updates event
    ++ (unless_empty (text "GasCityParentWorkflowID") event.formula.parent_workflow_id
        ++ unless_empty (text "GasCityParentRunID") event.formula.parent_run_id)

-- `client.StartWorkflowOptions`, less the task queue and the policies, which are constants.
pub record StartOptions : Type 0 where
  pub id : Str
  pub memo : List (Str × Value)
  pub typed_search_attributes : List (Str × Value)

-- What a query or a signal to one workflow can be answered with.
pub data QueryError : Type 0 where
  not_found : QueryError
  other : Error → QueryError

-- The operations of `client.Client` that the gateway calls. A start answers the id and the run id of
-- the workflow; a query answers its state, or that the state cannot be decoded.
pub record Client {ℓ} (W : Type ℓ) : Type ℓ where
  pub signal_with_start_workflow :
      ReadyEvent → StartOptions → WorkflowInput → W → Result (Str × Str) × W
  pub signal_parent : Str → Str → ChildWorkflowLink → W → Check × W
  pub signal_close : Str → CloseRequest → W → Check × W
  pub query_state : Str → W → Result WorkflowState ⊎ QueryError

pub record TemporalClientGateway {ℓ} (W : Type ℓ) : Type ℓ where
  pub client : Option (Client W)
  pub enable_formula_search_attributes : Bool

-- The signal to the parent workflow, where the formula names one.
unfoldable pub link_parent {ℓ} :
    {W : Type ℓ} → Client W → ReadyEvent → WorkflowReceipt → W → Result WorkflowReceipt × W
link_parent c event receipt w =
    if event.formula.parent_workflow_id == []
    then (ok receipt, w)
    else and_then (new_child_workflow_link event receipt Link.started [], w)
        (λ link v.
          (let (outcome, v') =
              c.signal_parent event.formula.parent_workflow_id event.formula.parent_run_id link v in
            (wrap gateway_failed outcome >> ok receipt, v')))

abbrev options_for : Bool → StartOrSignalRequest → StartOptions
options_for enabled q = record {
  id = q.workflow_id;
  memo = formula_memo q.event;
  typed_search_attributes = if enabled then formula_search_attribute_updates q.event else [];
}

-- SignalWithStart
unfoldable pub signal_with_start {ℓ} :
    {W : Type ℓ} → TemporalClientGateway W → StartOrSignalRequest → W → Result WorkflowReceipt × W
unfolding link_parent
signal_with_start g q w = elim g.client [
  | none ↦ (err (not_configured "Temporal client"), w)
  | some c ↦
      and_then
        (c.signal_with_start_workflow q.event (options_for g.enable_formula_search_attributes q)
          (record q.input { search_attributes = g.enable_formula_search_attributes }) w)
        (λ run v.
          link_parent c q.event
            (record { workflow_id = run.0; run_id = run.1; event_id = q.event.event_id }) v)
]

-- SignalClose
unfoldable pub signal_close {ℓ} :
    {W : Type ℓ} → TemporalClientGateway W → Str → CloseRequest → W → Check × W
signal_close g id q w = elim g.client [
  | none ↦ (err (not_configured "Temporal client"), w)
  | some c ↦ c.signal_close id q w
]

-- The gateway as the bridge sees it.
abbrev pub as_gateway {ℓ} : {W : Type ℓ} → TemporalClientGateway W → WorkflowGateway W
as_gateway g = record { signal_with_start = signal_with_start g; signal_close = signal_close g }

abbrev received : Str → Result WorkflowState ⊎ QueryError → Result Bool
received event_id (inl (ok state)) = ok (member event_id state.received_event_ids)
received event_id (inl (err e)) = err state_decode_failed
received event_id (inr not_found) = ok false
received event_id (inr (other e)) = err e

-- HasEvent: a workflow that is not there has no event.
unfoldable pub has_event {ℓ} : {W : Type ℓ} → TemporalClientGateway W → Str → Str → W → Result Bool
has_event g id event_id w = elim g.client [
  | none ↦ err (not_configured "Temporal client")
  | some c ↦ received event_id (c.query_state id w)
]
