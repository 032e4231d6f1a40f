-- ===== src/Workflow/Sealing.antt =====
-- workflow.go: a run that failed stays failed, and a sealed run takes the expected events only.
use gas_city.Prelude.{
  if◌then◌else◌, Bool-cases, true_not_false, all, Str, ◌≡◌, refl, sym, ap, subst, ◌∙◌, ◌≢◌, ◌⊎◌,
  inl, inr, Bool, true, false, ◌||◌, not, List, [], ◌∷◌, arith,
}
use gas_city.Errors.{ok}
use gas_city.Workflow.Loop.{head, is_failed, returns, start, await, finish, stopped, succeeded}
use gas_city.Workflow.Run.{Run, subset, received_expected, new_run}
use gas_city.Workflow.Handlers.{Sdk, Choice, scheduled}
use gas_city.Workflow.Closure.{IsClosed, Frame, await-keeps, start-keeps}
use gas_city.Contracts.Requests.{member, WorkflowInput, WorkflowState}
use gas_city.Contracts.Event.{ReadyEvent}
use gas_city.Workflow.Preserved.{run_at, await-Inv, start-Inv}
use gas_city.Workflow.Counting.{count}
use gas_city.Workflow.Results.{finish-succeeded, success_complete, stopped_head}
use gas_city.Workflow.Invariant.{Inv}

abbrev HasFailed : Run → Type 0
HasFailed r = is_failed r.state.phase ≡ true

failed-IsClosed : IsClosed HasFailed
failed-IsClosed = record {
  frames = λ r q (frame : Frame r q) h. ap is_failed frame.0 ∙ h;
  fails = λ r q h _. h;
  takes = λ event r _ h. h;
  seals = λ ids r _ h. h;
}

-- Once a run has failed, whatever is selected afterwards, it is failed, so that it never ends with
-- success.
pub failed_forever :
    (sdk : Sdk) (cs : List Choice) (r : Run)
    → is_failed r.state.phase ≡ true
    → (is_failed (run_at (await sdk cs r)).state.phase ≡ true)
      × ((state : WorkflowState) → finish (run_at (await sdk cs r)) ≢ succeeded state)
failed_forever sdk cs r h =
    let kept = await-keeps HasFailed failed-IsClosed sdk cs r h in
    (
      kept,
      λ state good.
          true_not_false (sym kept ∙ (finish-succeeded (run_at (await sdk cs r)) state good).1),
    )

pub subset-member :
    (x : Str) (s t : List Str) → subset s t ≡ true → member x s ≡ true → member x t ≡ true
subset-member x [] t h m = absurd (true_not_false (sym m))
subset-member x (y ∷ s) t h m = ground (arith, subset-member x s t)

-- What a sealed run that has not failed has seen is expected.
abbrev IsWithin : Run → Type 0
IsWithin r =
    (is_failed r.state.phase ≡ true)
    ⊎ (r.sealed ≡ false)
    ⊎ ((x : Str) → member x r.seen ≡ true → member x r.expected ≡ true)

IsWithin-IsClosed : IsClosed IsWithin
IsWithin-IsClosed = record {
  frames = λ r q (frame : Frame r q) h. rw (frame.0, frame.1, frame.2, frame.3) h;
  fails = λ r q h _. inl h;
  takes = within-takes;
  seals = λ ids r within _. inr (inr (λ x m. subset-member x r.seen ids within m));
}
  where
    within-takes :
        (event : ReadyEvent) (r : Run)
        → (not r.sealed || member event.event_id r.expected) ≡ true
        → IsWithin r
        → IsWithin (scheduled event r)
    within-takes event r allowed (inl h) = inl h
    within-takes event r allowed (inr (inl h)) = inr (inl h)
    within-takes event r allowed (inr (inr h)) = elim (Bool-cases r.sealed) [
      | inl sealed ↦ inr (inr (λ x m. ground (arith, h x)))
      | inr open' ↦ inr (inl open')
    ]

-- What the tests of a round demand where it returns.
head-received :
    (sdk : Sdk) (r q : Run)
    → head sdk r ≡ returns q
    → (q.canceled ≡ true) ⊎ (is_failed q.state.phase ≡ true) ⊎ (received_expected q ≡ true)
unfolding head
head-received sdk r q h = ground arith

same_members :
    (r : Run)
    → received_expected r ≡ true
    → ((x : Str) → member x r.seen ≡ true → member x r.expected ≡ true)
    → (x : Str) → member x r.seen ≡ member x r.expected
same_members r all within x = elim (Bool-cases (member x r.expected)) [
  | inl there ↦ subset-member x r.expected r.seen all there ∙ sym there
  | inr absent ↦ elim (Bool-cases (member x r.seen)) [
    | inl seen ↦ absurd (true_not_false (sym (within x seen) ∙ absent))
    | inr unseen ↦ unseen ∙ sym absent
  ]
]

sealed_members :
    (q : Run)
    → IsWithin q
    → (q.canceled ≡ true) ⊎ (is_failed q.state.phase ≡ true) ⊎ (received_expected q ≡ true)
    → q.canceled ≡ false
    → is_failed q.state.phase ≡ false
    → q.sealed ≡ true
    → (x : Str) → member x q.seen ≡ member x q.expected
sealed_members q (inl h) _ running sound sealed x = absurd (true_not_false (sym h ∙ sound))
sealed_members q (inr (inl h)) _ running sound sealed x = absurd (true_not_false (sym sealed ∙ h))
sealed_members q (inr (inr h)) (inl c) running sound sealed x =
    absurd (true_not_false (sym c ∙ running))
sealed_members q (inr (inr h)) (inr (inl c)) running sound sealed x =
    absurd (true_not_false (sym c ∙ sound))
sealed_members q (inr (inr h)) (inr (inr all)) running sound sealed x = same_members q all h x

received_count :
    (q : Run)
    → Inv q
    → (x : Str) → member x q.seen ≡ member x q.expected
    → count x q.state.received_event_ids ≡ (if member x q.expected then 1 else 0)
received_count q v x same = ground (arith, v.seen_once x, v.unseen x)

new_run_open : (input : WorkflowInput) (f : Bool) (w i : Str) → (new_run input f w i).sealed ≡ false
unfolding new_run
new_run_open input f w i = refl

-- A workflow that has started, was sealed and returns without an error has received and completed
-- each expected event id exactly once, and has received and completed no other event id.
pub sealed_success :
    (sdk : Sdk) (input : WorkflowInput) (f : Bool) (w i : Str) (r : Run)
    → start sdk input f w i ≡ ok r
    → (cs : List Choice) (q : Run) (state : WorkflowState) → await sdk cs r ≡ stopped q
    → finish q ≡ succeeded state
    → q.sealed ≡ true
    → (x : Str)
    → (count x state.completed_event_ids ≡ (if member x q.expected then 1 else 0))
      × (count x state.received_event_ids ≡ (if member x q.expected then 1 else 0))
sealed_success sdk input f w i r h cs q state ends good sealed x =
    let (_, _, balanced) = success_complete sdk input f w i r h cs q state ends good in
    let (running, sound, _, final) = finish-succeeded q state good in
    let v = subst (λ p. Inv (run_at p)) ends (await-Inv sdk cs r (start-Inv sdk input f w i h)) in
    let within =
      subst (λ p. IsWithin (run_at p)) ends
        (await-keeps IsWithin IsWithin-IsClosed sdk cs r (
          start-keeps IsWithin IsWithin-IsClosed sdk input f w i h
            (inr (inl (new_run_open input f w i))))) in
    let (p, last) = stopped_head sdk cs r q ends in
    let same = sealed_members q within (head-received sdk p q last) running sound sealed x in
    let received = ap (λ s. count x s.received_event_ids) final ∙ received_count q v x same in
    (balanced x ∙ received, received)
