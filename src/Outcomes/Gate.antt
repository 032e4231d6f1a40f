-- ===== src/Outcomes/Gate.antt =====
-- outcome_workflow.go: the workflow ends only with an acknowledgement of the current delivery.
use gas_city.Prelude.{
  some_eq, if_cases, ◌==◌, nat_eq, text_eq, int_eq, ◌≡◌, refl, sym, subst, ◌∙◌, true, ◌&&◌, none,
  some, List, [], ◌∷◌, arith,
}
use gas_city.Errors.{
  Check, wrap, >>-ok, err_not_ok, ok_eq, require-ok, Result, ok, err, non_retryable,
}
use gas_city.Outcomes.Records
use gas_city.Outcomes.Records.{
  OutcomeAcknowledgement, OutcomeRecord, OutcomeDelivery, outcomes_equal, validate_acknowledgement,
  validate_delivery,
}
use gas_city.Outcomes.Envelope.{OutcomeReady}
use gas_city.Outcomes.Loop.{
  await_acknowledgement, Round, round, Waited, Wake, RoundEnd, pause, counted, acks, timed_out,
  ready_comes, done, acknowledge, after_wait, after_delivery, execute_delivery, redelivers,
  ack_comes, again, delivered_state, still_waits, timer_fires, stopped, waiting, check_delivery,
}
use gas_city.Outcomes.Workflow.{
  CoordinatorOutcomeState, drain_acks, acknowledgement_matches, note_signal, note_signals, Drained,
  stale, acknowledgement_failed, local_delivery_failed,
}

-- A state whose envelope is as before.
abbrev pub SameEnvelope : CoordinatorOutcomeState → CoordinatorOutcomeState → Type 0
SameEnvelope s q = (q.envelope ≡ s.envelope) × (q.delivery_attempts ≡ s.delivery_attempts)

-- A state that also has its delivery as before.
abbrev pub Kept : CoordinatorOutcomeState → CoordinatorOutcomeState → Type 0
Kept s q =
    SameEnvelope s q
    × (q.coordinator_fence ≡ s.coordinator_fence)
    × (q.delivery_ref ≡ s.delivery_ref)

pub Kept-trans : (s q p : CoordinatorOutcomeState) → Kept s q → Kept q p → Kept s p
Kept-trans s q p ((e, n), f, r) ((e', n'), f', r') = ((e' ∙ e, n' ∙ n), f' ∙ f, r' ∙ r)

pub Kept-refl : (s : CoordinatorOutcomeState) → Kept s s
Kept-refl s = ((refl, refl), refl, refl)

note_signal-Kept : (o : OutcomeReady) (s : CoordinatorOutcomeState) → Kept s (note_signal o s)
note_signal-Kept o s =
    if_cases (Kept s) (outcomes_equal s.envelope o) _ _ (λ _. ((refl, refl), refl, refl))
      (λ _. ((refl, refl), refl, refl))

pub note_signals-Kept :
    (os : List OutcomeReady) (s : CoordinatorOutcomeState) → Kept s (note_signals os s)
note_signals-Kept [] s = Kept-refl s
note_signals-Kept (o ∷ os) s =
    Kept-trans s (note_signal o s) (note_signals os (note_signal o s)) (note_signal-Kept o s)
      (note_signals-Kept os (note_signal o s))

-- What drained acknowledgements leave, and that a chosen one fits.
pub record Fit (s : CoordinatorOutcomeState) (d : Drained) : Type 0 where
  pub same : Kept s d.2
  pub fits : (a : OutcomeAcknowledgement) → d.0 ≡ some a → acknowledgement_matches d.2 a ≡ true

pub drain_acks-Fit :
    (as' : List OutcomeAcknowledgement) (s : CoordinatorOutcomeState) → Fit s (drain_acks as' s)
unfolding drain_acks
drain_acks-Fit [] s = record { same = Kept-refl s; fits = λ a h. cc }
drain_acks-Fit (a ∷ as') s =
    let later = drain_acks-Fit as' (stale s) in
    if_cases (Fit s) (acknowledgement_matches s a) _ _
      (λ m. record {
        same = Kept-refl s;
        fits = λ b h. subst (λ x. acknowledgement_matches s x ≡ true) (some_eq h) m;
      })
      (λ _. record { same = later.same; fits = later.fits })

-- How a wait ends.
abbrev WaitedFit : CoordinatorOutcomeState → Waited → Type 0
WaitedFit s (acks a q) = Kept s q × (acknowledgement_matches q a ≡ true)
WaitedFit s (redelivers q) = Kept s q
WaitedFit s (still_waits q) = Kept s q

WaitedFit-trans :
    (s q : CoordinatorOutcomeState) (w : Waited) → Kept s q → WaitedFit q w → WaitedFit s w
WaitedFit-trans s q (acks a p) k (k', m) = (Kept-trans s q p k k', m)
WaitedFit-trans s q (redelivers p) k k' = Kept-trans s q p k k'
WaitedFit-trans s q (still_waits p) k k' = Kept-trans s q p k k'

timed_out-Fit :
    (readies : List OutcomeReady) (s : CoordinatorOutcomeState) (d : Drained)
    → Fit s d
    → WaitedFit s (timed_out readies d)
timed_out-Fit readies s (some a, l, q) f = (f.same, f.fits a refl)
timed_out-Fit readies s (none, l, q) f =
    WaitedFit-trans s q (redelivers (note_signals readies q)) f.same (note_signals-Kept readies q)

await-Fit :
    (ws : List Wake) (s : CoordinatorOutcomeState) → WaitedFit s (await_acknowledgement ws s)
unfolding await_acknowledgement
await-Fit [] s = Kept-refl s
await-Fit (ready_comes o ∷ ws) s =
    WaitedFit-trans s (note_signal o s) _ (note_signal-Kept o s) (await-Fit ws (note_signal o s))
await-Fit (ack_comes a ∷ ws) s =
    let later = await-Fit ws (stale s) in
    if_cases (WaitedFit s) (acknowledgement_matches s a) _ _ (λ m. (Kept-refl s, m))
      (λ _. WaitedFit-trans s (stale s) _ ((refl, refl), refl, refl) later)
await-Fit (timer_fires pending readies ∷ ws) s =
    timed_out-Fit readies s (drain_acks pending s) (drain_acks-Fit pending s)

-- The acknowledgement is valid, and names the outcome, its store and its work, and the fence of the
-- last delivery.
abbrev pub IsCurrent : CoordinatorOutcomeState → OutcomeAcknowledgement → Type 0
IsCurrent q a =
    (validate_acknowledgement a ≡ ok tt)
    × (a.store_ref ≡ q.envelope.store_ref)
    × (a.outcome_id ≡ q.envelope.outcome_id)
    × (a.work_id ≡ q.envelope.work_id)
    × (a.coordinator_fence ≡ q.coordinator_fence)

pub acknowledgement_matches-IsCurrent :
    (q : CoordinatorOutcomeState) (a : OutcomeAcknowledgement)
    → acknowledgement_matches q a ≡ true
    → IsCurrent q a
unfolding acknowledgement_matches
acknowledgement_matches-IsCurrent q a h = ground arith

-- An acknowledgement that is valid, names this outcome and the current delivery, and is stored.
abbrev pub Grounds :
    (OutcomeAcknowledgement → Result OutcomeRecord) → CoordinatorOutcomeState → Type 0
Grounds activity q =
    (a : OutcomeAcknowledgement) × (stored : OutcomeRecord) × (activity a ≡ ok stored)
    × IsCurrent q a
    × (q.phase ≡ Records.acknowledged)

-- The delivery is one that the round's activity answered and that is valid and of this outcome, and
-- the state holds its fence and its reference.
abbrev pub IsDelivery : Round → CoordinatorOutcomeState → Type 0
IsDelivery r q =
    (d : OutcomeDelivery) × (r.delivery ≡ ok d)
    × (check_delivery q.envelope d ≡ ok d)
    × (q.coordinator_fence ≡ d.coordinator_fence)
    × (q.delivery_ref ≡ d.delivery_ref)

-- A round counts one attempt; it ends the workflow only with grounds, for the delivery it made.
abbrev pub RoundFit : Round → CoordinatorOutcomeState → RoundEnd → Type 0
RoundFit r s (done q) = SameEnvelope s q × IsDelivery r q × Grounds r.acknowledges q
RoundFit r s (again q) = SameEnvelope s q
RoundFit r s (stopped q e) = SameEnvelope s q
RoundFit r s (waiting q) = SameEnvelope s q

pause-Fit :
    (r : Round) (s q : CoordinatorOutcomeState) (c : Check)
    → SameEnvelope s q
    → RoundFit r s (pause c q)
pause-Fit r s q (ok _) same = same
pause-Fit r s q (err e) same = same

acknowledge-Fit :
    (r : Round) (s q : CoordinatorOutcomeState) (a : OutcomeAcknowledgement)
    (m : Result OutcomeRecord)
    → r.acknowledges a ≡ m
    → SameEnvelope s q
    → IsDelivery r q
    → acknowledgement_matches q a ≡ true
    → RoundFit r s (acknowledge r m q)
unfolding acknowledgement_matches
acknowledge-Fit r s q a (ok stored) e same delivered m =
    (same, delivered, (a, stored, e, acknowledgement_matches-IsCurrent q a m, refl))
acknowledge-Fit r s q a (err x) e same delivered m =
    pause-Fit r s (record q { last_delivery_error = acknowledgement_failed }) r.sleeps same

-- The delivery that is used is the one that the activity answered.
delivered :
    (o : OutcomeReady) (m : Result OutcomeDelivery) (d : OutcomeDelivery)
    → execute_delivery o m ≡ ok d
    → (m ≡ ok d) × (check_delivery o d ≡ ok d)
unfolding check_delivery
delivered o (ok x) d h =
    let (_, h1) =
      >>-ok (wrap (λ _. non_retryable "InvalidOutcomeDelivery") (validate_delivery x)) _ h in
    let (_, h2) = require-ok (x.outcome_id == o.outcome_id && x.work_id == o.work_id) _ _ h1 in
    (h2, subst (λ y. check_delivery o y ≡ ok d) (ok_eq h2) h)
delivered o (err e) d h = absurd (err_not_ok h)

-- The wait after a delivery.
after_wait-Fit :
    (r : Round) (s : CoordinatorOutcomeState) (d : OutcomeDelivery) (w : Waited)
    → r.delivery ≡ ok d
    → check_delivery s.envelope d ≡ ok d
    → WaitedFit (delivered_state r.delivered_now d s) w
    → RoundFit r s (after_wait r w)
after_wait-Fit r s d (acks a q) answered checked ((same, fence, ref), m) =
    acknowledge-Fit r s q a (r.acknowledges a) refl same
      (d, answered, subst (λ o. check_delivery o d ≡ ok d) (sym same.0) checked, fence, ref) m
after_wait-Fit r s d (redelivers q) answered checked (same, _, _) = same
after_wait-Fit r s d (still_waits q) answered checked (same, _, _) = same

after_delivery-Fit :
    (r : Round) (s : CoordinatorOutcomeState) (m : Result OutcomeDelivery)
    → execute_delivery s.envelope r.delivery ≡ m
    → RoundFit r s (after_delivery r m s)
after_delivery-Fit r s (ok d) h =
    let (answered, checked) = delivered s.envelope r.delivery d h in
    after_wait-Fit r s d _ answered checked
      (await-Fit r.wakes (delivered_state r.delivered_now d s))
after_delivery-Fit r s (err e) h =
    pause-Fit r s (record s { last_delivery_error = local_delivery_failed }) r.sleeps (refl, refl)

pub round-Fit : (r : Round) (s : CoordinatorOutcomeState) → RoundFit r (counted s) (round r s)
unfolding round
round-Fit r s = after_delivery-Fit r (counted s) (execute_delivery s.envelope r.delivery) refl
