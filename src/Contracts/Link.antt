-- ===== src/Contracts/Link.antt =====
-- contracts.go: ChildWorkflowLink. bridge.go: WorkflowReceipt and WorkflowID.
use gas_city.Prelude.{Bool, true, false, [], ◌∷◌, ◌++◌, Str, ◌==◌, text_eq, text}
use gas_city.Errors.{
  Check, Result, require, ◌>>◌, ok, err, error_code_on_success, child_status_invalid,
}
use gas_city.Contracts.Identifiers.{validate_segment, validate_workflow_id}
use gas_city.Contracts.Event
use gas_city.Contracts.Event.{ReadyEvent}

pub data ChildStatus : Type 0 where
  started completed failed : ChildStatus
  other : Str → ChildStatus

pub record ChildWorkflowLink : Type 0 where
  pub event_id : Str
  pub bead_id : Str
  pub formula_root_id : Str
  pub step_key : Str
  pub child_workflow_id : Str
  pub child_run_id : Str
  pub status : ChildStatus
  pub error_code : Str

pub record WorkflowReceipt : Type 0 where
  pub workflow_id : Str
  pub run_id : Str
  pub event_id : Str

-- The `switch` on the status in Validate.
validate_status : ChildStatus → Str → Check
validate_status started error_code = require (error_code == []) error_code_on_success
validate_status completed error_code = require (error_code == []) error_code_on_success
validate_status failed error_code = validate_segment "child workflow error code" error_code
validate_status (other s) error_code = err child_status_invalid

unfoldable pub validate : ChildWorkflowLink → Check
unfolding validate_status
validate l = do
  validate_segment "child event id" l.event_id
  validate_segment "child bead id" l.bead_id
  validate_segment "child formula root id" l.formula_root_id
  validate_segment "child formula step key" l.step_key
  validate_segment "child run id" l.child_run_id
  validate_workflow_id "child workflow id" l.child_workflow_id
  validate_status l.status l.error_code

-- Terminal
unfoldable pub is_terminal : ChildWorkflowLink → Bool
is_terminal l = elim l.status [ completed ↦ true | failed ↦ true | _ ↦ false ]

-- NewChildWorkflowLink
unfoldable pub new_child_workflow_link :
    ReadyEvent → WorkflowReceipt → ChildStatus → Str → Result ChildWorkflowLink
unfolding validate
new_child_workflow_link event receipt status error_code = do
  Event.validate event
  let link : ChildWorkflowLink = record {
    event_id = event.event_id;
    bead_id = event.bead_id;
    formula_root_id = event.formula.root_id;
    step_key = event.formula.step_key;
    child_workflow_id = receipt.workflow_id;
    child_run_id = receipt.run_id;
    status = status;
    error_code = error_code;
  }
  validate link
  ok link

abbrev pub workflow_id_text : Str → Str → Str → Str
workflow_id_text city_id run_id bead_id =
    text "bead-orchestration/" ++ (city_id ++ (b'/' ∷ (run_id ++ (b'/' ∷ bead_id))))

-- WorkflowID
unfoldable pub workflow_id : Str → Str → Str → Result Str
workflow_id city_id run_id bead_id = do
  validate_segment "city id" city_id
  validate_segment "run id" run_id
  validate_segment "bead id" bead_id
  let id = workflow_id_text city_id run_id bead_id
  validate_workflow_id "bead orchestration workflow id" id
  ok id
