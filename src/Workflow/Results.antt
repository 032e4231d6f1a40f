-- ===== src/Workflow/Results.antt =====
-- workflow.go: what a workflow has done when it stands still or has ended.
use gas_city.Prelude.{
  Bool-cases, true_not_false, length, Str, ◌≤◌, ◌≡◌, refl, sym, ap, subst, ◌∙◌, inl, inr, Bool,
  true, false, List, [], ◌∷◌, arith,
}
use gas_city.Errors.{ok}
use gas_city.Workflow.Loop.{
  finish, head, await, returns, stopped, start, succeeded, Head, is_failed, goes_on, waiting,
  Progress, turn,
}
use gas_city.Workflow.Handlers.{Sdk, Choice}
use gas_city.Contracts.Requests
use gas_city.Workflow.Run.{Pending, Run}
use gas_city.Workflow.Counting.{activity_ids, count, open_of-le}
use gas_city.Contracts.Requests.{WorkflowState, WorkflowInput, member}
use gas_city.Workflow.Invariant.{Inv}
use gas_city.Workflow.Preserved.{run_at, await-Inv, start-Inv}

stopped_run : Progress → Run → Run
stopped_run (stopped r) q = r
stopped_run (waiting r) q = q

stopped_eq : {r q : Run} → stopped r ≡ stopped q → r ≡ q
unfolding stopped_run
stopped_eq {r} {q} h = ap (λ p. stopped_run p r) h

is_stopped : Progress → Bool
is_stopped (stopped r) = true
is_stopped (waiting r) = false

waiting_not_stopped : {r q : Run} → ¬ (waiting r ≡ stopped q)
unfolding is_stopped
waiting_not_stopped h = true_not_false (sym (ap is_stopped h))

-- A run that returns has no activity in flight.
head_idle : (sdk : Sdk) (r q : Run) → head sdk r ≡ returns q → q.in_flight ≡ 0
unfolding head
head_idle sdk r q h = ground arith

-- A loop that stops has returned at the head of a round.
pub stopped_head :
    (sdk : Sdk) (cs : List Choice) (r q : Run)
    → await sdk cs r ≡ stopped q
    → (p : Run) × (head sdk p ≡ returns q)
unfolding await
stopped_head sdk [] r q h = go (head sdk r) refl h
  where
    go :
        (m : Head)
        → head sdk r ≡ m
        → elim m [ returns p ↦ stopped p | goes_on p ↦ waiting p ] ≡ stopped q
        → (p : Run) × (head sdk p ≡ returns q)
    go (returns p) e k = (r, e ∙ ap returns (stopped_eq k))
    go (goes_on p) e k = absurd (waiting_not_stopped k)
stopped_head sdk (c ∷ cs) r q h = go (head sdk r) refl h (λ p. stopped_head sdk cs (turn sdk c p) q)
  where
    go :
        (m : Head)
        → head sdk r ≡ m
        → elim m [ returns p ↦ stopped p | goes_on p ↦ await sdk cs (turn sdk c p) ] ≡ stopped q
        → ((p : Run)
            → await sdk cs (turn sdk c p) ≡ stopped q
            → (o : Run) × (head sdk o ≡ returns q))
        → (p : Run) × (head sdk p ≡ returns q)
    go (returns p) e k later = (r, e ∙ ap returns (stopped_eq k))
    go (goes_on p) e k later = later p k

stopped_idle :
    (sdk : Sdk) (cs : List Choice) (r q : Run) → await sdk cs r ≡ stopped q → q.in_flight ≡ 0
stopped_idle sdk cs r q h = let (p, last) = stopped_head sdk cs r q h in head_idle sdk p q last

once : (r : Run) → Inv r → (x : Str) → count x r.state.received_event_ids ≤ 1
once r v x = elim (Bool-cases (member x r.seen)) [
  | inl h ↦ omega (arith, v.seen_once x h)
  | inr h ↦ omega (arith, v.unseen x h)
]

length-activity_ids : (ps : List Pending) → length (activity_ids ps) ≡ length ps
length-activity_ids [] = refl
length-activity_ids (p ∷ ps) = omega (arith, length-activity_ids ps)

-- Whatever a workflow that has started receives, selects and in whatever order, it has started at
-- most one activity for each event id.
pub activity_once :
    (sdk : Sdk) (input : WorkflowInput) (f : Bool) (w i : Str) (r : Run)
    → start sdk input f w i ≡ ok r
    → (cs : List Choice) (x : Str) → count x (activity_ids (run_at (await sdk cs r)).activities) ≤ 1
activity_once sdk input f w i r h cs x =
    let v = await-Inv sdk cs r (start-Inv sdk input f w i h) in
    subst (λ l. count x l ≤ 1) (sym v.scheduled_received) (once _ v x)

-- Whatever a workflow that has started receives and selects, it has started at most 1024 activities.
pub activities_bounded :
    (sdk : Sdk) (input : WorkflowInput) (f : Bool) (w i : Str) (r : Run)
    → start sdk input f w i ≡ ok r
    → (cs : List Choice) → length (run_at (await sdk cs r)).activities ≤ 1024
activities_bounded sdk input f w i r h cs =
    let v = await-Inv sdk cs r (start-Inv sdk input f w i h) in
    omega (
      arith,
      v.seen_received,
      v.limited,
      v.capped,
      ap length v.scheduled_received,
      length-activity_ids (run_at (await sdk cs r)).activities,
    )

-- What `finish` says when it says that the workflow succeeded.
pub finish-succeeded :
    (r : Run) (state : WorkflowState)
    → finish r ≡ succeeded state
    → (r.canceled ≡ false)
      × (is_failed r.state.phase ≡ false)
      × (r.state.failed_event_ids ≡ [])
      × (state ≡ record r.state { phase = Requests.completed })
unfolding finish
finish-succeeded r state h = ground arith

-- When a workflow that has started returns without an error, no activity runs, no event failed, and
-- each event id stands as often among the completed ids as among the received ones.
pub success_complete :
    (sdk : Sdk) (input : WorkflowInput) (f : Bool) (w i : Str) (r : Run)
    → start sdk input f w i ≡ ok r
    → (cs : List Choice) (q : Run) (state : WorkflowState) → await sdk cs r ≡ stopped q
    → finish q ≡ succeeded state
    → (q.in_flight ≡ 0)
      × (state.failed_event_ids ≡ [])
      × ((x : Str) → count x state.completed_event_ids ≡ count x state.received_event_ids)
success_complete sdk input f w i r h cs q state ends good =
    let (running, _, unfailed, final) = finish-succeeded q state good in
    let v = subst (λ p. Inv (run_at p)) ends (await-Inv sdk cs r (start-Inv sdk input f w i h)) in
    let idle = stopped_idle sdk cs r q ends in
    (
      idle,
      ap (λ s. s.failed_event_ids) final ∙ unfailed,
      λ x.
          ap (λ s. count x s.completed_event_ids) final
          ∙ omega (
            arith,
            v.balanced running x,
            ap (count x) unfailed,
            open_of-le x q.activities,
            v.running_exact,
            idle,
          )
          ∙ sym (ap (λ s. count x s.received_event_ids) final),
    )
