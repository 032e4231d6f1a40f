-- ===== src/Outcomes/Ends.antt =====
-- outcome_workflow.go: how a whole run of the workflow ends.
use gas_city.Prelude.{
  leb, if◌then◌else◌, if_cases, ℕ, ◌+◌, ◌≤◌, ◌<◌, ◌≡◌, refl, ◌∙◌, ◌⊎◌, inl, inr, List, [], ◌∷◌,
  arith,
}
use gas_city.Outcomes.Gate.{Grounds, IsDelivery, RoundFit, round-Fit}
use gas_city.Outcomes.Loop.{
  finished, runs, fails, continues, done, again, stopped, waiting, Round, RoundEnd, End, loop,
  counted, continue_after, continue_as_new, round,
}
use gas_city.Outcomes.Workflow.{CoordinatorOutcomeState, CoordinatorOutcomeInput}

-- One of the rounds has grounds, and has made the delivery.
abbrev pub Answered : List Round → CoordinatorOutcomeState → Type 0
Answered [] q = ⊥
Answered (r ∷ rs) q = (IsDelivery r q × Grounds r.acknowledges q) ⊎ Answered rs q

-- The state that an end holds.
abbrev pub end_state : End → CoordinatorOutcomeState
end_state (finished q) = q
end_state (runs q) = q
end_state (fails q e) = q
end_state (continues q input) = q

-- Only `finished` needs grounds.
abbrev pub Ends : List Round → CoordinatorOutcomeState → End → Type 0
Ends rs s (finished q) = (q.envelope ≡ s.envelope) × Answered rs q
Ends rs s (runs q) = q.envelope ≡ s.envelope
Ends rs s (fails q e) = q.envelope ≡ s.envelope
Ends rs s (continues q input) = q.envelope ≡ s.envelope

Ends-later :
    (r : Round) (rs : List Round) (s q : CoordinatorOutcomeState) (e : End)
    → q.envelope ≡ s.envelope
    → Ends rs q e
    → Ends (r ∷ rs) s e
Ends-later r rs s q (finished p) h (k, a) = (k ∙ h, inr a)
Ends-later r rs s q (runs p) h k = k ∙ h
Ends-later r rs s q (fails p e) h k = k ∙ h
Ends-later r rs s q (continues p i) h k = k ∙ h

pub loop-Ends :
    (rs : List Round) (input : CoordinatorOutcomeInput) (n : ℕ) (s : CoordinatorOutcomeState)
    → Ends rs s (loop rs input n s)
unfolding loop
loop-Ends [] input n s = refl
loop-Ends (r ∷ rs) input n s = go (loop-Ends rs input (n + 1)) (round r s) (round-Fit r s)
  where
    go :
        ((q : CoordinatorOutcomeState) → Ends rs q (loop rs input (n + 1) q))
        → (e : RoundEnd) → RoundFit r (counted s) e
        → Ends (r ∷ rs) s (elim e as (λ _. End) [
          | done s' ↦ finished s'
          | stopped s' x ↦ fails s' x
          | waiting s' ↦ runs s'
          | again s' ↦
              let rest = loop rs input (n + 1) s' in
              if leb (continue_after input) (n + 1) then continue_as_new input s' else rest
        ])
    go later (done q) ((same, count), delivery, grounds) = (same, inl (delivery, grounds))
    go later (stopped q e) (same, count) = same
    go later (waiting q) (same, count) = same
    go later (again q) (same, count) =
        if_cases (Ends (r ∷ rs) s) (leb (continue_after input) (n + 1)) _ _ (λ _. same)
          (λ _. Ends-later r rs s q _ same (later q))

-- How many attempts are made up to an end: exactly the limit where the run continues as new.
abbrev pub Counts : ℕ → ℕ → CoordinatorOutcomeState → End → Type 0
Counts after n s (continues q input) = q.delivery_attempts + n ≡ s.delivery_attempts + after
Counts after n s (finished q) = q.delivery_attempts + n ≤ s.delivery_attempts + after
Counts after n s (runs q) = q.delivery_attempts + n ≤ s.delivery_attempts + after
Counts after n s (fails q e) = q.delivery_attempts + n ≤ s.delivery_attempts + after

Counts-later :
    (after n : ℕ) (s q : CoordinatorOutcomeState) (e : End)
    → q.delivery_attempts ≡ s.delivery_attempts + 1
    → Counts after (n + 1) q e
    → Counts after n s e
Counts-later after n s q (continues p input) h k = omega arith
Counts-later after n s q (finished p) h k = omega arith
Counts-later after n s q (runs p) h k = omega arith
Counts-later after n s q (fails p e) h k = omega arith

pub loop-Counts :
    (rs : List Round) (input : CoordinatorOutcomeInput) (n : ℕ) (s : CoordinatorOutcomeState)
    → n < continue_after input
    → Counts (continue_after input) n s (loop rs input n s)
unfolding loop
loop-Counts [] input n s below = omega arith
loop-Counts (r ∷ rs) input n s below = go (loop-Counts rs input (n + 1)) (round r s) (round-Fit r s)
  where
    go :
        ((q : CoordinatorOutcomeState)
          → n + 1 < continue_after input
          → Counts (continue_after input) (n + 1) q (loop rs input (n + 1) q))
        → (e : RoundEnd) → RoundFit r (counted s) e
        → Counts (continue_after input) n s (elim e as (λ _. End) [
          | done s' ↦ finished s'
          | stopped s' x ↦ fails s' x
          | waiting s' ↦ runs s'
          | again s' ↦
              let rest = loop rs input (n + 1) s' in
              if leb (continue_after input) (n + 1) then continue_as_new input s' else rest
        ])
    go later (done q) ((same, count), delivery, grounds) = omega arith
    go later (stopped q e) (same, count) = omega arith
    go later (waiting q) (same, count) = omega arith
    go later (again q) (same, count) =
        if_cases (Counts (continue_after input) n s) (leb (continue_after input) (n + 1)) _ _
          (λ h. ground arith)
          (λ h. Counts-later (continue_after input) n s q _ count (later q (ground arith)))
