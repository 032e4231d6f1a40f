-- ===== src/Examples/Activity.antt =====
-- Runs of the activities on outcomes, and of the workflow over them.
use gas_city.Prelude.{
  Str, Str-discrete, text, is_trimmed, lookup, ℕ, ◌-◌, ◌≡◌, refl, ◌⊎◌, true, not, none, some, [],
  ◌∷◌, arith, ℕ_discrete,
}
use gas_city.Errors.{Result, ok}
use gas_city.Examples.Outcome.{
  outcome, delivery, acknowledgement, acked, row, at_seven, outbox_read,
}
use gas_city.Examples.Delivery.{input, last_state, starts, delivery_checked, matches}
use gas_city.Canonical.Activities.{check_acknowledgement, acknowledge_activity, OutcomeActivities}
use gas_city.Canonical.Outbox.{acknowledged_body, decide_acknowledged, mark_acknowledged}
use gas_city.Canonical.Transaction.{mutate_issue, retry, mutate_once, replies, Table}
use gas_city.Canonical.Stored.{IsAcknowledged, acknowledge_activity-IsAcknowledged}
use gas_city.Outcomes.Acknowledged.{AtBoundary}
use gas_city.Canonical.Settled.{SettledIn, OfStore, IsSettled, finished-IsSettled}
use gas_city.Outcomes.Loop.{
  finished, done, ack_comes, await_acknowledgement, loop, round, Boundary, Round,
  coordinator_outcome_workflow,
}
use gas_city.Outcomes.Workflow.{fresh_state}
use gas_city.Outcomes.Records.{validate_acknowledgement, OutcomeAcknowledgement, OutcomeRecord}
use gas_city.Canonical.Issue.{Issue}

abbrev activities : OutcomeActivities
activities = record { stored = true; notifier = none; store_ref = text "city:main" }

abbrev table : Table
table = (text "bead", row) ∷ []

acknowledgement_valid : validate_acknowledgement acknowledgement ≡ ok tt
unfolding validate_acknowledgement gas_city.Outcomes.Envelope.validate_store_ref ℕ_discrete
    Str-discrete gas_city.Contracts.Identifiers.validate_segment gas_city.Prelude.is_trimmed
    gas_city.Contracts.Identifiers.segment_pattern gas_city.Contracts.Identifiers.uri_pattern
acknowledgement_valid = refl

checked : check_acknowledgement activities acknowledgement ≡ ok tt
unfolding check_acknowledgement gas_city.Outcomes.Envelope.validate_store_ref ℕ_discrete
    Str-discrete gas_city.Contracts.Identifiers.validate_segment gas_city.Prelude.is_trimmed
    gas_city.Contracts.Identifiers.segment_pattern validate_acknowledgement
    gas_city.Contracts.Identifiers.uri_pattern
checked = refl

body_answers : acknowledged_body acknowledgement 7 row ≡ replies (ok acked)
unfolding acknowledged_body decide_acknowledged Str-discrete ℕ_discrete
body_answers = ground (arith, outbox_read)

abbrev acknowledges : OutcomeAcknowledgement → Result OutcomeRecord
acknowledges a = (acknowledge_activity activities at_seven a table).0

answered : acknowledges acknowledgement ≡ ok acked
unfolding acknowledge_activity mark_acknowledged mutate_issue retry mutate_once lookup Str-discrete
    ℕ_discrete
answered = ground (arith, checked, acknowledgement_valid, body_answers)

acknowledge_activity-IsAcknowledged_example :
    (i : Issue) × (lookup
        (text "bead")
        (acknowledge_activity activities at_seven acknowledgement table).1
      ≡ some i)
    × IsAcknowledged acknowledgement acked i
unfolding ℕ_discrete
acknowledge_activity-IsAcknowledged_example =
    acknowledge_activity-IsAcknowledged activities at_seven acknowledgement acked table refl
      answered

abbrev boundary : Boundary
boundary = record { readies = []; pending = []; acknowledges = acknowledges; acknowledged_now = 6 }

abbrev only_round : Round
only_round = record {
  delivery = ok delivery;
  delivered_now = 5;
  wakes = ack_comes acknowledgement ∷ [];
  acknowledges = acknowledges;
  acknowledged_now = 6;
  sleeps = ok tt;
}

of_store : OfStore acknowledges
unfolding ℕ_discrete
of_store = record {
  activities = activities;
  setting = at_seven;
  table = table;
  clock = refl;
  answers = λ a. refl;
}

round_done : round only_round (fresh_state outcome) ≡ done last_state
unfolding round await_acknowledgement
round_done = ground (arith, delivery_checked, matches, answered)

finishes : coordinator_outcome_workflow input boundary (only_round ∷ []) ≡ ok (finished last_state)
unfolding coordinator_outcome_workflow loop
finishes = ground (arith, starts, round_done)

finished-IsSettled_example :
    (AtBoundary input boundary last_state × IsSettled acknowledges of_store last_state)
    ⊎ SettledIn (only_round ∷ []) (of_store, tt) last_state
finished-IsSettled_example =
    finished-IsSettled input boundary (only_round ∷ []) last_state of_store (of_store, tt) finishes
