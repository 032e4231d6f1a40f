-- ===== src/Examples/Delivery.antt =====
-- Runs of the workflow that delivers an outcome.
use gas_city.Prelude.{
  Str, Str-discrete, is_trimmed, pos, ℕ, ◌-◌, ◌≡◌, refl, ◌⊎◌, true, none, [], ◌∷◌, arith,
  ℕ_discrete,
}
use gas_city.Errors.{ok}
use gas_city.Examples.Outcome.{outcome, outcome_valid, delivery, acknowledgement, acked}
use gas_city.Outcomes.Ends.{Answered}
use gas_city.Outcomes.Loop.{
  finished, done, ack_comes, check_delivery, await_acknowledgement, Round, Boundary, round,
  coordinator_outcome_workflow, delivered_state, acknowledged_state, loop, counted, continue_after,
  normalized,
}
use gas_city.Outcomes.Records.{validate_acknowledgement, validate_delivery, outcomes_equal}
use gas_city.Outcomes.Workflow.{
  start, fresh_state, acknowledgement_matches, CoordinatorOutcomeInput, CoordinatorOutcomeState,
}
use gas_city.Outcomes.Acknowledged.{AtBoundary, Attempts, run-Attempts, finished_acknowledged}

abbrev pub input : CoordinatorOutcomeInput
input = record {
  envelope = outcome;
  redelivery_interval = pos 0;
  continue_as_new_after = pos 0;
  resume_state = none;
}

abbrev boundary : Boundary
boundary = record { readies = []; pending = []; acknowledges = λ _. ok acked; acknowledged_now = 6 }

abbrev only_round : Round
only_round = record {
  delivery = ok delivery;
  delivered_now = 5;
  wakes = ack_comes acknowledgement ∷ [];
  acknowledges = λ _. ok acked;
  acknowledged_now = 6;
  sleeps = ok tt;
}

abbrev pub delivered : CoordinatorOutcomeState
delivered = delivered_state 5 delivery (counted (fresh_state outcome))

abbrev pub last_state : CoordinatorOutcomeState
last_state = acknowledged_state 6 acked delivered

pub starts : start input ≡ ok (fresh_state outcome)
unfolding start
starts = rw outcome_valid refl

pub delivery_checked : check_delivery outcome (delivery) ≡ ok delivery
unfolding check_delivery validate_delivery gas_city.Contracts.Identifiers.validate_segment
    gas_city.Prelude.is_trimmed gas_city.Contracts.Identifiers.segment_pattern
    gas_city.Contracts.Identifiers.uri_pattern
delivery_checked = refl

pub matches : acknowledgement_matches delivered acknowledgement ≡ true
unfolding acknowledgement_matches validate_acknowledgement
    gas_city.Outcomes.Envelope.validate_store_ref gas_city.Prelude.ℕ_discrete
    gas_city.Prelude.Str-discrete gas_city.Contracts.Identifiers.validate_segment
    gas_city.Prelude.is_trimmed gas_city.Contracts.Identifiers.segment_pattern
    gas_city.Contracts.Identifiers.uri_pattern
matches = refl

round_done : round only_round (fresh_state outcome) ≡ done last_state
unfolding round await_acknowledgement
round_done = ground (arith, delivery_checked, matches)

finishes : coordinator_outcome_workflow input boundary (only_round ∷ []) ≡ ok (finished last_state)
unfolding coordinator_outcome_workflow loop
finishes = ground (arith, starts, round_done)

finished_acknowledged_example :
    (outcomes_equal outcome last_state.envelope ≡ true)
    × (AtBoundary input boundary last_state ⊎ Answered (only_round ∷ []) last_state)
finished_acknowledged_example =
    finished_acknowledged input boundary (only_round ∷ []) last_state finishes

run-Attempts_example :
    (s : CoordinatorOutcomeState) × (start input ≡ ok s)
    × Attempts (continue_after (normalized input)) s (finished last_state)
run-Attempts_example = run-Attempts input boundary (only_round ∷ []) (finished last_state) finishes
