-- ===== src/Outcomes/Loop.antt =====
-- outcome_workflow.go: the waiting for an acknowledgement and the loop of the workflow.
use gas_city.Prelude.{
  leb, if◌then◌else◌, ◌==◌, nat_eq, text_eq, pos_part, leb_ℤ, int_eq, pos, ℕ, ◌+◌, ◌&&◌, Option,
  none, some, List, [], ◌∷◌,
}
use gas_city.Errors.{Check, ◌>>=◌, ◌>>◌, require, wrap, Error, Result, ok, err, non_retryable}
use gas_city.Outcomes.Records
use gas_city.Outcomes.Workflow.{
  no_error, drain_acks, CoordinatorOutcomeState, CoordinatorOutcomeInput, Drained, start,
  note_signals, note_signal, acknowledgement_failed, local_delivery_failed, stale,
  acknowledgement_matches,
}
use gas_city.Outcomes.Records.{
  OutcomeAcknowledgement, OutcomeDelivery, OutcomeRecord, validate_delivery,
}
use gas_city.Outcomes.Envelope.{OutcomeReady}
use gas_city.Contracts.Event.{Time, is_zero}
use gas_city.Contracts.Requests.{minute}

-- What the selector takes; with the timer, what stands in the two channels then.
pub data Wake : Type 0 where
  ready_comes : OutcomeReady → Wake
  ack_comes : OutcomeAcknowledgement → Wake
  timer_fires : List OutcomeAcknowledgement → List OutcomeReady → Wake

-- How the waiting ends, or that it goes on.
pub data Waited : Type 0 where
  acks : OutcomeAcknowledgement → CoordinatorOutcomeState → Waited
  redelivers still_waits : CoordinatorOutcomeState → Waited

abbrev pub timed_out : List OutcomeReady → Drained → Waited
timed_out readies (some a, _, s) = acks a s
timed_out readies (none, _, s) = redelivers (note_signals readies s)

-- awaitOutcomeAcknowledgement
unfoldable pub await_acknowledgement : List Wake → CoordinatorOutcomeState → Waited
unfolding drain_acks
await_acknowledgement [] s = still_waits s
await_acknowledgement (ready_comes o ∷ ws) s = await_acknowledgement ws (note_signal o s)
await_acknowledgement (ack_comes a ∷ ws) s =
    let rest = await_acknowledgement ws (stale s) in
    if acknowledgement_matches s a then acks a s else rest
await_acknowledgement (timer_fires pending readies ∷ ws) s =
    timed_out readies (drain_acks pending s)

-- What the environment does in a round: the result of the delivery activity, what wakes the
-- selector, the result of the acknowledgement activity, whether a sleep ends, and the clock.
pub record Round : Type 0 where
  pub delivery : Result OutcomeDelivery
  pub delivered_now : Time
  pub wakes : List Wake
  pub acknowledges : OutcomeAcknowledgement → Result OutcomeRecord
  pub acknowledged_now : Time
  pub sleeps : Check

-- The checks of executeOutcomeDelivery on the receipt.
unfoldable pub check_delivery : OutcomeReady → OutcomeDelivery → Result OutcomeDelivery
check_delivery o d = do
  wrap (λ _. non_retryable "InvalidOutcomeDelivery") (validate_delivery d)
  require (d.outcome_id == o.outcome_id && d.work_id == o.work_id)
      (non_retryable "InvalidOutcomeDelivery")
  ok d

-- executeOutcomeDelivery
abbrev pub execute_delivery : OutcomeReady → Result OutcomeDelivery → Result OutcomeDelivery
execute_delivery o result = result >>= check_delivery o

-- How a round ends.
pub data RoundEnd : Type 0 where
  again done : CoordinatorOutcomeState → RoundEnd
  stopped : CoordinatorOutcomeState → Error → RoundEnd
  waiting : CoordinatorOutcomeState → RoundEnd

-- The sleep after an activity failed.
abbrev pub pause : Check → CoordinatorOutcomeState → RoundEnd
pause (ok _) s = again s
pause (err e) s = stopped s e

abbrev pub acknowledged_at : Time → OutcomeRecord → Time
acknowledged_at now r = if is_zero r.acknowledged_at then now else r.acknowledged_at

abbrev pub acknowledged_state :
    Time → OutcomeRecord → CoordinatorOutcomeState → CoordinatorOutcomeState
acknowledged_state now r s = record s {
  phase = Records.acknowledged;
  acknowledged_at = acknowledged_at now r;
}

-- The end of a round, where an acknowledgement fits.
abbrev pub acknowledge : Round → Result OutcomeRecord → CoordinatorOutcomeState → RoundEnd
acknowledge r (ok stored) s = done (acknowledged_state r.acknowledged_now stored s)
acknowledge r (err e) s = pause r.sleeps (record s { last_delivery_error = acknowledgement_failed })

abbrev pub after_wait : Round → Waited → RoundEnd
after_wait r (acks a s) = acknowledge r (r.acknowledges a) s
after_wait r (redelivers s) = again s
after_wait r (still_waits s) = waiting s

abbrev pub delivered_state :
    Time → OutcomeDelivery → CoordinatorOutcomeState → CoordinatorOutcomeState
delivered_state now d s = record s {
  phase = Records.needs_ack;
  delivery_ref = d.delivery_ref;
  coordinator_fence = d.coordinator_fence;
  delivered_at = if is_zero s.delivered_at then now else s.delivered_at;
  last_delivery_error = no_error;
}

abbrev pub after_delivery : Round → Result OutcomeDelivery → CoordinatorOutcomeState → RoundEnd
after_delivery r (ok d) s =
    after_wait r (await_acknowledgement r.wakes (delivered_state r.delivered_now d s))
after_delivery r (err e) s =
    pause r.sleeps (record s { last_delivery_error = local_delivery_failed })

abbrev pub counted : CoordinatorOutcomeState → CoordinatorOutcomeState
counted s = record s { delivery_attempts = s.delivery_attempts + 1 }

-- A round of the loop.
unfoldable pub round : Round → CoordinatorOutcomeState → RoundEnd
round r s = after_delivery r (execute_delivery s.envelope r.delivery) (counted s)

-- How a run of the workflow ends; `runs` where the rounds that are given are over.
pub data End : Type 0 where
  finished runs : CoordinatorOutcomeState → End
  fails : CoordinatorOutcomeState → Error → End
  continues : CoordinatorOutcomeState → CoordinatorOutcomeInput → End

-- continueCoordinatorOutcomeAsNew
abbrev pub continue_as_new : CoordinatorOutcomeInput → CoordinatorOutcomeState → End
continue_as_new input s =
    let resume = record s { continue_as_new_count = s.continue_as_new_count + 1 } in
    continues resume (record input { resume_state = some resume })

-- The defaults of the input; defaultOutcomeContinueAsNewAfter and defaultOutcomeRedeliveryPeriod.
abbrev pub normalized : CoordinatorOutcomeInput → CoordinatorOutcomeInput
normalized input = record input {
  redelivery_interval =
      if leb_ℤ input.redelivery_interval (pos 0) then minute else input.redelivery_interval;
  continue_as_new_after =
      if leb_ℤ input.continue_as_new_after (pos 0) then pos 100 else input.continue_as_new_after;
}

-- The number of attempts after which a run continues as new.
abbrev pub continue_after : CoordinatorOutcomeInput → ℕ
continue_after input = pos_part input.continue_as_new_after

-- The loop, with the attempts that this run has made.
unfoldable pub loop : List Round → CoordinatorOutcomeInput → ℕ → CoordinatorOutcomeState → End
unfolding round
loop [] input n s = runs s
loop (r ∷ rs) input n s = elim (round r s) [
  | done s' ↦ finished s'
  | stopped s' e ↦ fails s' e
  | waiting s' ↦ runs s'
  | again s' ↦
      let rest = loop rs input (n + 1) s' in
      if leb (continue_after input) (n + 1) then continue_as_new input s' else rest
]

-- What stands in the channels when a continued run starts, and the acknowledgement activity then.
pub record Boundary : Type 0 where
  pub readies : List OutcomeReady
  pub pending : List OutcomeAcknowledgement
  pub acknowledges : OutcomeAcknowledgement → Result OutcomeRecord
  pub acknowledged_now : Time

abbrev pub boundary_result : Boundary → Result OutcomeRecord → CoordinatorOutcomeState → RoundEnd
boundary_result b (ok stored) s = done (acknowledged_state b.acknowledged_now stored s)
boundary_result b (err e) s = again (record s { last_delivery_error = acknowledgement_failed })

abbrev pub boundary_acks : Boundary → Drained → RoundEnd
boundary_acks b (some a, _, s) = boundary_result b (b.acknowledges a) s
boundary_acks b (none, _, s) = again s

-- The part of the workflow for a continued run.
abbrev pub at_boundary :
    Boundary → Option CoordinatorOutcomeState → CoordinatorOutcomeState → RoundEnd
at_boundary b none s = again s
at_boundary b (some _) s = boundary_acks b (drain_acks b.pending (note_signals b.readies s))

-- CoordinatorOutcomeWorkflow
unfoldable pub coordinator_outcome_workflow :
    CoordinatorOutcomeInput → Boundary → List Round → Result End
unfolding start loop
coordinator_outcome_workflow input b rounds = do
  s ← start input
  ok (elim (at_boundary b input.resume_state s) [
    | done s' ↦ finished s'
    | stopped s' e ↦ fails s' e
    | waiting s' ↦ runs s'
    | again s' ↦ loop rounds (normalized input) 0 s'
  ])
