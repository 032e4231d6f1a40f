-- ===== src/Outcomes/Workflow.antt =====
-- outcome_workflow.go: CoordinatorOutcomeWorkflow.
--
-- What the code waits for comes as data: an activity's result, the signals that the selector takes
-- in some order, the timer. A run is a list of rounds; a round delivers and then waits.
use gas_city.Prelude.{
  if◌then◌else◌, ◌==◌, nat_eq, Str, text_eq, int_eq, ℤ, text, ℕ, ◌+◌, Bool, ◌&&◌, Option, none,
  some, List, [], ◌∷◌, ◌++◌,
}
use gas_city.Errors.{◌>>◌, require, wrap, succeeds, Result, ok, non_retryable}
use gas_city.Outcomes.Envelope
use gas_city.Outcomes.Records
use gas_city.Outcomes.Envelope.{OutcomeReady}
use gas_city.Outcomes.Records.{
  OutcomeAcknowledgement, outcomes_equal, CoordinatorState, validate_acknowledgement,
}
use gas_city.Contracts.Identifiers.{validate_segment, validate_workflow_id}
use gas_city.Contracts.Event.{Time}

-- The texts of `LastDeliveryError`.
pub data DeliveryError : Type 0 where
  no_error local_delivery_failed conflicting_signal acknowledgement_failed : DeliveryError

-- CoordinatorOutcomeState
pub record CoordinatorOutcomeState : Type 0 where
  pub envelope : OutcomeReady
  pub phase : CoordinatorState
  pub delivery_attempts : ℕ
  pub duplicate_signals : ℕ
  pub stale_acknowledgements : ℕ
  pub delivery_ref : Str
  pub coordinator_fence : Str
  pub delivered_at : Time
  pub acknowledged_at : Time
  pub last_delivery_error : DeliveryError
  pub continue_as_new_count : ℕ

-- CoordinatorOutcomeInput
pub record CoordinatorOutcomeInput : Type 0 where
  pub envelope : OutcomeReady
  pub redelivery_interval : ℤ
  pub continue_as_new_after : ℤ
  pub resume_state : Option CoordinatorOutcomeState

abbrev pub fresh_state : OutcomeReady → CoordinatorOutcomeState
fresh_state o = record {
  envelope = o;
  phase = Records.pending;
  delivery_attempts = 0;
  duplicate_signals = 0;
  stale_acknowledgements = 0;
  delivery_ref = [];
  coordinator_fence = [];
  delivered_at = 0;
  acknowledged_at = 0;
  last_delivery_error = no_error;
  continue_as_new_count = 0;
}

-- CoordinatorOutcomeWorkflowIDForOutcome
unfoldable pub workflow_id_for_outcome : Str → Result Str
workflow_id_for_outcome id = do
  validate_segment "coordinator outcome id" id
  let workflow_id = text "coordinator-outcome/" ++ id
  validate_workflow_id "coordinator outcome workflow id" workflow_id
  ok workflow_id

-- CoordinatorOutcomeWorkflowID
unfoldable pub outcome_workflow_id : OutcomeReady → Result Str
unfolding workflow_id_for_outcome
outcome_workflow_id o = Envelope.validate o >> workflow_id_for_outcome o.outcome_id

-- outcomeAcknowledgementMatches
unfoldable pub acknowledgement_matches : CoordinatorOutcomeState → OutcomeAcknowledgement → Bool
acknowledgement_matches s a =
    succeeds (validate_acknowledgement a)
    && (a.store_ref == s.envelope.store_ref
        && (a.outcome_id == s.envelope.outcome_id
            && (a.work_id == s.envelope.work_id && a.coordinator_fence == s.coordinator_fence)))

-- The state at the start, where the input is valid.
abbrev pub resumed :
    CoordinatorOutcomeInput → Option CoordinatorOutcomeState → Result CoordinatorOutcomeState
resumed input none = ok (fresh_state input.envelope)
resumed input (some s) =
    require (outcomes_equal input.envelope s.envelope) (non_retryable "InvalidOutcomeContinuation")
    >> ok s

unfoldable pub start : CoordinatorOutcomeInput → Result CoordinatorOutcomeState
start input =
    wrap (λ _. non_retryable "InvalidOutcomeReady") (Envelope.validate input.envelope)
    >> resumed input input.resume_state

-- A ready signal that comes again, or one that conflicts.
abbrev pub note_signal : OutcomeReady → CoordinatorOutcomeState → CoordinatorOutcomeState
note_signal o s =
    if outcomes_equal s.envelope o
    then record s { duplicate_signals = s.duplicate_signals + 1 }
    else record s { last_delivery_error = conflicting_signal }

-- The loops over the ready signals that are in their channel.
abbrev pub note_signals : List OutcomeReady → CoordinatorOutcomeState → CoordinatorOutcomeState
note_signals [] s = s
note_signals (o ∷ os) s = note_signals os (note_signal o s)

abbrev pub stale : CoordinatorOutcomeState → CoordinatorOutcomeState
stale s = record s { stale_acknowledgements = s.stale_acknowledgements + 1 }

-- The loop over the acknowledgements in their channel: the first that matches, if there is one, and
-- those that are left.
abbrev pub Drained : Type 0
Drained = Option OutcomeAcknowledgement × List OutcomeAcknowledgement × CoordinatorOutcomeState

unfoldable pub drain_acks : List OutcomeAcknowledgement → CoordinatorOutcomeState → Drained
drain_acks [] s = (none, [], s)
drain_acks (a ∷ as') s =
    let rest = drain_acks as' (stale s) in
    if acknowledgement_matches s a then (some a, as', s) else rest
