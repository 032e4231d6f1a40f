-- ===== src/Canonical/Settled.antt =====
-- outcome_workflow.go, outcome_activity.go and outcome_store.go together: a workflow that finishes has
-- its acknowledgement in the table.
use gas_city.Prelude.{lookup, ◌≡◌, sym, subst, ◌∙◌, ◌⊎◌, inl, inr, false, some, List, [], ◌∷◌}
use gas_city.Errors.{Result, ok}
use gas_city.Canonical.Activities.{OutcomeActivities, acknowledge_activity}
use gas_city.Canonical.Stored.{acknowledge_activity-IsAcknowledged}
use gas_city.Outcomes.Acknowledged.{finished_acknowledged, AtBoundary}
use gas_city.Outcomes.Ends.{Answered}
use gas_city.Outcomes.Gate.{Grounds, IsDelivery}
use gas_city.Outcomes.Loop.{finished, Round, Boundary, coordinator_outcome_workflow}
use gas_city.Outcomes.Workflow.{CoordinatorOutcomeState, CoordinatorOutcomeInput}
use gas_city.Outcomes.Records.{OutcomeAcknowledgement, OutcomeRecord}
use gas_city.Canonical.Calls.{Setting}
use gas_city.Canonical.Transaction.{Table}
use gas_city.Contracts.Event.{is_zero}
use gas_city.Canonical.Issue.{Issue, coded}

-- What the activity answers is what it answers of some table, at a time that is not zero.
pub record OfStore (acknowledges : OutcomeAcknowledgement → Result OutcomeRecord) : Type 0 where
  pub activities : OutcomeActivities
  pub setting : Setting
  pub table : Table
  pub clock : is_zero setting.now ≡ false
  pub answers :
      (a : OutcomeAcknowledgement)
      → acknowledges a ≡ (acknowledge_activity activities setting a table).0

abbrev pub AllOfStore : List Round → Type 0
AllOfStore [] = Unit
AllOfStore (r ∷ rs) = OfStore r.acknowledges × AllOfStore rs

-- The acknowledgement activity of the run, on its own table, took an acknowledgement of the last
-- delivery, and after it the work of the outcome has in this table the record that it answered: of
-- this outcome, of its store, delivered under the last fence, and acknowledged.
pub record IsSettled (f : OutcomeAcknowledgement → Result OutcomeRecord) (o : OfStore f)
    (q : CoordinatorOutcomeState) : Type 0 where
  pub acknowledgement : OutcomeAcknowledgement
  pub stored : OutcomeRecord
  pub row : Issue
  pub taken : f acknowledgement ≡ ok stored
  pub of_delivery : acknowledgement.coordinator_fence ≡ q.coordinator_fence
  pub found :
      lookup q.envelope.work_id
        (acknowledge_activity o.activities o.setting acknowledgement o.table).1
      ≡ some row
  pub in_outbox : row.outbox ≡ coded stored
  pub of_store : stored.envelope.store_ref ≡ q.envelope.store_ref
  pub of_outcome : stored.envelope.outcome_id ≡ q.envelope.outcome_id
  pub of_fence : stored.coordinator_fence ≡ q.coordinator_fence
  pub dated : is_zero stored.acknowledged_at ≡ false

Grounds-IsSettled :
    (f : OutcomeAcknowledgement → Result OutcomeRecord) (q : CoordinatorOutcomeState)
    (o : OfStore f)
    → Grounds f q
    → IsSettled f o q
Grounds-IsSettled f q o (a, stored, answered, (valid, store, outcome, work, fence), phase) =
    let (i, found, final) =
      acknowledge_activity-IsAcknowledged o.activities o.setting a stored o.table o.clock
        (sym (o.answers a) ∙ answered) in
    record {
      acknowledgement = a;
      stored = stored;
      row = i;
      taken = answered;
      of_delivery = fence;
      found =
          subst (λ w. lookup w (acknowledge_activity o.activities o.setting a o.table).1 ≡ some i)
            work found;
      in_outbox = final.in_outbox;
      of_store = final.of_store ∙ store;
      of_outcome = final.of_outcome ∙ outcome;
      of_fence = final.of_fence ∙ fence;
      dated = final.dated;
    }

-- One of the rounds has made the last delivery, and its activity has settled it.
abbrev pub SettledIn : (rs : List Round) → AllOfStore rs → CoordinatorOutcomeState → Type 0
SettledIn [] stores q = ⊥
SettledIn (r ∷ rs) (o, stores) q =
    (IsDelivery r q × IsSettled r.acknowledges o q) ⊎ SettledIn rs stores q

Answered-SettledIn :
    (rounds : List Round) (q : CoordinatorOutcomeState) (stores : AllOfStore rounds)
    → Answered rounds q
    → SettledIn rounds stores q
Answered-SettledIn [] q stores a = elim a [ ]
Answered-SettledIn (r ∷ rs) q (o, stores) (inl (delivery, grounds)) =
    inl (delivery, Grounds-IsSettled r.acknowledges q o grounds)
Answered-SettledIn (r ∷ rs) q (o, stores) (inr later) = inr (Answered-SettledIn rs q stores later)

-- Where the acknowledgement activity of each round, and that at the boundary, is what the activity
-- answers on a canonical table: a workflow that finishes has left its outcome in the table of the
-- round that ended it, or of the boundary of a continued run, as acknowledged: after this activity
-- the row of the work holds the record that it answered, of the outcome, of its store and of the last
-- delivery, with a time of acknowledgement.
pub finished-IsSettled :
    (input : CoordinatorOutcomeInput) (b : Boundary) (rounds : List Round)
    (q : CoordinatorOutcomeState) (boundary : OfStore b.acknowledges) (stores : AllOfStore rounds)
    → coordinator_outcome_workflow input b rounds ≡ ok (finished q)
    → (AtBoundary input b q × IsSettled b.acknowledges boundary q) ⊎ SettledIn rounds stores q
finished-IsSettled input b rounds q boundary stores h =
    elim (finished_acknowledged input b rounds q h).1 [
      | inl (p, there, fence, ref, grounds) ↦
          inl ((p, there, fence, ref, grounds), Grounds-IsSettled b.acknowledges q boundary grounds)
      | inr answered ↦ inr (Answered-SettledIn rounds q stores answered)
    ]
