-- ===== src/Outcomes/Acknowledged.antt =====
-- outcome_workflow.go: the theorems on CoordinatorOutcomeWorkflow.
use gas_city.Prelude.{
  if◌then◌else◌, pos_part, leb_ℤ, ℤ, pos, negsuc, ℕ, ◌+◌, ◌≤◌, ◌<◌, ◌≡◌, refl, sym, ap, subst, ◌∙◌,
  ◌⊎◌, inl, inr, true, Option, none, some, List, arith,
}
use gas_city.Errors.{wrap, >>-ok, >>=-ok, ok_eq, require-ok, Result, ok, err, non_retryable}
use gas_city.Outcomes.Gate.{
  Kept, Kept-trans, note_signals-Kept, Fit, drain_acks-Fit, Grounds, SameEnvelope,
  acknowledgement_matches-IsCurrent,
}
use gas_city.Outcomes.Ends.{Answered, Ends, loop-Ends, Counts, loop-Counts}
use gas_city.Outcomes.Loop.{
  finished, runs, fails, continues, done, again, stopped, waiting, Round, RoundEnd, End, Boundary,
  boundary_result, at_boundary, loop, normalized, continue_after, coordinator_outcome_workflow,
  boundary_acks,
}
use gas_city.Outcomes.Records.{
  outcomes_equal, OutcomeAcknowledgement, OutcomeRecord, outcomes_equal_refl,
}
use gas_city.Outcomes.Envelope
use gas_city.Outcomes.Workflow.{
  CoordinatorOutcomeState, CoordinatorOutcomeInput, acknowledgement_matches, Drained, note_signals,
  start, drain_acks, resumed,
}

-- What a boundary leaves: the state goes on, or it ends with grounds.
abbrev BoundaryFit : Boundary → CoordinatorOutcomeState → RoundEnd → Type 0
BoundaryFit b s (done q) = Kept s q × Grounds b.acknowledges q
BoundaryFit b s (again q) = SameEnvelope s q
BoundaryFit b s (stopped q e) = ⊥
BoundaryFit b s (waiting q) = ⊥

result-Fit :
    (b : Boundary) (s q : CoordinatorOutcomeState) (a : OutcomeAcknowledgement)
    (m : Result OutcomeRecord)
    → b.acknowledges a ≡ m
    → Kept s q
    → acknowledgement_matches q a ≡ true
    → BoundaryFit b s (boundary_result b m q)
unfolding acknowledgement_matches
result-Fit b s q a (ok stored) e same m =
    (same, (a, stored, e, acknowledgement_matches-IsCurrent q a m, refl))
result-Fit b s q a (err x) e same m = same.0

acks-Fit :
    (b : Boundary) (s : CoordinatorOutcomeState) (d : Drained)
    → Fit s d
    → BoundaryFit b s (boundary_acks b d)
acks-Fit b s (some a, l, q) f = result-Fit b s q a (b.acknowledges a) refl f.same (f.fits a refl)
acks-Fit b s (none, l, q) f = f.same.0

BoundaryFit-trans :
    (b : Boundary) (s q : CoordinatorOutcomeState) (e : RoundEnd)
    → Kept s q
    → BoundaryFit b q e
    → BoundaryFit b s e
BoundaryFit-trans b s q (done p) k (k', g) = (Kept-trans s q p k k', g)
BoundaryFit-trans b s q (again p) ((e, n), _, _) (e', n') = (e' ∙ e, n' ∙ n)
BoundaryFit-trans b s q (stopped _ _) _ none_left = elim none_left [ ]
BoundaryFit-trans b s q (waiting _) _ none_left = elim none_left [ ]

at_boundary-Fit :
    (b : Boundary) (m : Option CoordinatorOutcomeState) (s : CoordinatorOutcomeState)
    → BoundaryFit b s (at_boundary b m s)
at_boundary-Fit b none s = (refl, refl)
at_boundary-Fit b (some _) s =
    let noted = note_signals b.readies s in
    BoundaryFit-trans b s noted _ (note_signals-Kept b.readies s)
      (acks-Fit b noted (drain_acks b.pending noted) (drain_acks-Fit b.pending noted))

-- The whole run, from its state at the start.
abbrev run_from : CoordinatorOutcomeInput → List Round → RoundEnd → End
run_from input rounds m = elim m [
  | done s' ↦ finished s'
  | stopped s' e ↦ fails s' e
  | waiting s' ↦ runs s'
  | again s' ↦ loop rounds (normalized input) 0 s'
]

-- A workflow whose start is valid runs from the state at its start.
started :
    (input : CoordinatorOutcomeInput) (b : Boundary) (rounds : List Round) (e : End)
    → coordinator_outcome_workflow input b rounds ≡ ok e
    → (s : CoordinatorOutcomeState) × (start input ≡ ok s)
      × (ok (run_from input rounds (at_boundary b input.resume_state s)) ≡ ok e)
unfolding coordinator_outcome_workflow
started input b rounds e h =
    >>=-ok (start input) (λ s. ok (run_from input rounds (at_boundary b input.resume_state s))) h

start-same :
    (input : CoordinatorOutcomeInput) (s : CoordinatorOutcomeState)
    → start input ≡ ok s
    → outcomes_equal input.envelope s.envelope ≡ true
unfolding start
start-same input s h =
    go input.resume_state
      (>>-ok (wrap (λ _. non_retryable "InvalidOutcomeReady") (Envelope.validate input.envelope)) _
        h).1
  where
    go :
        (m : Option CoordinatorOutcomeState)
        → resumed input m ≡ ok s
        → outcomes_equal input.envelope s.envelope ≡ true
    go none k =
        subst (λ (q : CoordinatorOutcomeState). outcomes_equal input.envelope q.envelope ≡ true)
          (ok_eq k) (outcomes_equal_refl input.envelope)
    go (some q) k =
        let (same, rest) = require-ok (outcomes_equal input.envelope q.envelope) _ (ok q) k in
        subst (λ (x : CoordinatorOutcomeState). outcomes_equal input.envelope x.envelope ≡ true)
          (ok_eq rest) same

finished_eq : {p q : CoordinatorOutcomeState} → finished p ≡ finished q → p ≡ q
finished_eq h = cc

-- A continued run starts from the state that it resumes.
start_resumes :
    (input : CoordinatorOutcomeInput) (s p : CoordinatorOutcomeState)
    → start input ≡ ok s
    → input.resume_state ≡ some p
    → p ≡ s
unfolding start
start_resumes input s p h there =
    let (_, h1) =
      >>-ok (wrap (λ _. non_retryable "InvalidOutcomeReady") (Envelope.validate input.envelope))
        (resumed input input.resume_state) h in
    ok_eq
      (require-ok (outcomes_equal input.envelope p.envelope)
        (non_retryable "InvalidOutcomeContinuation") (ok p)
        (subst (λ o. resumed input o ≡ ok s) there h1)).1

-- The run is a continued one that was acknowledged at its start, for the delivery of the state that
-- it resumes.
abbrev pub AtBoundary : CoordinatorOutcomeInput → Boundary → CoordinatorOutcomeState → Type 0
AtBoundary input b q =
    (p : CoordinatorOutcomeState) × (input.resume_state ≡ some p)
    × (q.coordinator_fence ≡ p.coordinator_fence)
    × (q.delivery_ref ≡ p.delivery_ref)
    × Grounds b.acknowledges q

-- What was acknowledged at the boundary was resumed.
boundary-AtBoundary :
    (input : CoordinatorOutcomeInput) (b : Boundary) (s q : CoordinatorOutcomeState)
    (m : Option CoordinatorOutcomeState)
    → start input ≡ ok s
    → input.resume_state ≡ m
    → at_boundary b m s ≡ done q
    → Kept s q
    → Grounds b.acknowledges q
    → AtBoundary input b q
boundary-AtBoundary input b s q none begins there h kept grounds = absurd (ground arith)
boundary-AtBoundary input b s q (some p) begins there h (_, fence, ref) grounds =
    let same = start_resumes input s p begins there in
    (
      p,
      there,
      fence ∙ ap (λ (x : CoordinatorOutcomeState). x.coordinator_fence) (sym same),
      ref ∙ ap (λ (x : CoordinatorOutcomeState). x.delivery_ref) (sym same),
      grounds,
    )

-- From the state at the start to the end.
run_from-Ends :
    (input : CoordinatorOutcomeInput) (b : Boundary) (rounds : List Round)
    (s : CoordinatorOutcomeState) (m : RoundEnd) (q : CoordinatorOutcomeState)
    → start input ≡ ok s
    → at_boundary b input.resume_state s ≡ m
    → BoundaryFit b s m
    → run_from input rounds m ≡ finished q
    → (q.envelope ≡ s.envelope) × (AtBoundary input b q ⊎ Answered rounds q)
run_from-Ends input b rounds s (done p) q begins ended (kept, grounds) h =
    subst
      (λ (x : CoordinatorOutcomeState).
        (x.envelope ≡ s.envelope) × (AtBoundary input b x ⊎ Answered rounds x))
      (finished_eq h)
      (
        kept.0.0,
        inl (boundary-AtBoundary input b s p input.resume_state begins refl ended kept grounds),
      )
run_from-Ends input b rounds s (again p) q begins ended (same, count) h =
    let (kept, answered) = subst (Ends rounds p) h (loop-Ends rounds (normalized input) 0 p) in
    (kept ∙ same, inr answered)
run_from-Ends input b rounds s (stopped _ _) q begins ended none_left h = elim none_left [ ]
run_from-Ends input b rounds s (waiting _) q begins ended none_left h = elim none_left [ ]

-- A run of the workflow that finishes holds the outcome of its input, and there is an
-- acknowledgement, valid, that names this outcome, its store and its work, and the fence of the last
-- delivery, and that the acknowledgement activity took: in one of the rounds, where the delivery is
-- the one that the delivery activity answered in this round, or at the boundary of a continued run,
-- where the delivery is that of the state that the run resumes.
pub finished_acknowledged :
    (input : CoordinatorOutcomeInput) (b : Boundary) (rounds : List Round)
    (q : CoordinatorOutcomeState)
    → coordinator_outcome_workflow input b rounds ≡ ok (finished q)
    → (outcomes_equal input.envelope q.envelope ≡ true) × (AtBoundary input b q ⊎ Answered rounds q)
finished_acknowledged input b rounds q h =
    let (s, begins, ends) = started input b rounds (finished q) h in
    let (kept, grounds) =
      run_from-Ends input b rounds s (at_boundary b input.resume_state s) q begins refl
        (at_boundary-Fit b input.resume_state s) (ok_eq ends) in
    (ap (outcomes_equal input.envelope) kept ∙ start-same input s begins, grounds)

-- The attempts of a run that may make `most`: all of them where it continues as new.
abbrev pub Attempts : ℕ → CoordinatorOutcomeState → End → Type 0
Attempts most s (continues q input) = q.delivery_attempts ≡ s.delivery_attempts + most
Attempts most s (finished q) = q.delivery_attempts ≤ s.delivery_attempts + most
Attempts most s (runs q) = q.delivery_attempts ≤ s.delivery_attempts + most
Attempts most s (fails q e) = q.delivery_attempts ≤ s.delivery_attempts + most

Counts-Attempts :
    (most : ℕ) (s q : CoordinatorOutcomeState) (e : End)
    → q.delivery_attempts ≡ s.delivery_attempts
    → Counts most 0 q e
    → Attempts most s e
Counts-Attempts most s q (continues p input) k h = omega arith
Counts-Attempts most s q (finished p) k h = omega arith
Counts-Attempts most s q (runs p) k h = omega arith
Counts-Attempts most s q (fails p x) k h = omega arith

limit_positive : (input : CoordinatorOutcomeInput) → 0 < continue_after (normalized input)
limit_positive input = go input.continue_as_new_after
  where
    go : (n : ℤ) → 0 < pos_part (if leb_ℤ n (pos 0) then pos 100 else n)
    go (pos n) = ground arith
    go (negsuc n) = ground arith

run_from-Attempts :
    (input : CoordinatorOutcomeInput) (b : Boundary) (rounds : List Round)
    (s : CoordinatorOutcomeState) (m : RoundEnd)
    → BoundaryFit b s m
    → Attempts (continue_after (normalized input)) s (run_from input rounds m)
run_from-Attempts input b rounds s (done p) (((same, count), _, _), grounds) = omega arith
run_from-Attempts input b rounds s (again p) (same, count) =
    Counts-Attempts _ s p _ count (loop-Counts rounds (normalized input) 0 p (limit_positive input))
run_from-Attempts input b rounds s (stopped _ _) none_left = elim none_left [ ]
run_from-Attempts input b rounds s (waiting _) none_left = elim none_left [ ]

-- A run of the workflow that starts makes at most as many delivery attempts as its limit
-- (`continue_as_new_after`, or 100 where that is not positive), and it continues as new only after
-- exactly that many.
pub run-Attempts :
    (input : CoordinatorOutcomeInput) (b : Boundary) (rounds : List Round) (e : End)
    → coordinator_outcome_workflow input b rounds ≡ ok e
    → (s : CoordinatorOutcomeState) × (start input ≡ ok s)
      × Attempts (continue_after (normalized input)) s e
run-Attempts input b rounds e h =
    let (s, begins, ends) = started input b rounds e h in
    (
      s,
      begins,
      subst (Attempts (continue_after (normalized input)) s) (ok_eq ends) (
          run_from-Attempts input b rounds s (at_boundary b input.resume_state s)
            (at_boundary-Fit b input.resume_state s)),
    )
