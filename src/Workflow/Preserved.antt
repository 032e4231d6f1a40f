-- ===== src/Workflow/Preserved.antt =====
-- workflow.go: the whole loop keeps the invariant.
use gas_city.Prelude.{
  if◌then◌else◌, if_cases, true_not_false, ◌==◌, nat_eq, Str, text_eq, pos_part, int_eq, pos, ◌-◌,
  ◌≤◌, ◌≡◌, refl, sym, subst, Bool, ◌&&◌, List, [], ◌∷◌, arith,
}
use gas_city.Errors.{wrap, >>-ok, >>=-ok, wrap-ok, ok_eq, ok}
use gas_city.Contracts.Event.{ReadyEvent}
use gas_city.Contracts.Requests.{parent_signal_failed, WorkflowInput, validate_input}
use gas_city.Workflow.Run.{Run, received_expected, new_run}
use gas_city.Workflow.Handlers.{
  receives_ready, cancels, Sdk, schedule, scheduled, drain_ready, select, complete_parent_signal,
  Choice, arrives, receives_close, activity_ends, parent_signal_ends,
}
use gas_city.Workflow.Invariant.{
  Inv, Same-Inv, fail-Inv, schedule-Inv, receive_ready-Inv, receive_close-Inv, cancel-Inv,
  drain_ready-Inv,
}
use gas_city.Workflow.Endings.{complete_activity-Inv}
use gas_city.Workflow.Loop.{
  Head, returns, goes_on, Progress, stopped, waiting, head, turn, await, is_failed, is_idle,
  schedule_all, start, select_canceled,
}

complete_parent_signal-Inv :
    (delivered : Bool) (r : Run) → Inv r → Inv (complete_parent_signal delivered r)
unfolding complete_parent_signal
complete_parent_signal-Inv delivered r v =
    if_cases Inv (r.parent_signals == 0) _ _ (λ _. v)
      (λ _. if_cases Inv delivered _ _ (λ _. w) (λ _. fail-Inv parent_signal_failed _ w))
  where
    w : Inv (record r { parent_signals = r.parent_signals - 1 })
    w = Same-Inv r _ (refl, refl, refl, refl, refl, refl, refl, λ c. c) v

pub select-Inv : (sdk : Sdk) (c : Choice) (r : Run) → Inv r → Inv (select sdk c r)
unfolding select
select-Inv sdk (arrives event) r = Same-Inv r _ (refl, refl, refl, refl, refl, refl, refl, λ c. c)
select-Inv sdk receives_ready r = receive_ready-Inv sdk r.ready r
select-Inv sdk cancels r = cancel-Inv r
select-Inv sdk (receives_close q) r = receive_close-Inv sdk q r
select-Inv sdk (activity_ends i ending) r = complete_activity-Inv i ending r
select-Inv sdk (parent_signal_ends delivered) r = complete_parent_signal-Inv delivered r

turn-Inv : (sdk : Sdk) (c : Choice) (r : Run) → Inv r → Inv (turn sdk c r)
unfolding turn
turn-Inv sdk c r v = if_cases Inv r.canceled _ _ (λ _. canceled-Inv c) (λ _. select-Inv sdk c r v)
  where
    canceled-Inv : (k : Choice) → Inv (select_canceled sdk k r)
    canceled-Inv (arrives event) = select-Inv sdk (arrives event) r v
    canceled-Inv receives_ready = v
    canceled-Inv cancels = v
    canceled-Inv (receives_close q) = v
    canceled-Inv (activity_ends i ending) = select-Inv sdk (activity_ends i ending) r v
    canceled-Inv (parent_signal_ends delivered) = v

abbrev pub run_of : Head → Run
run_of (returns r) = r
run_of (goes_on r) = r

pub head-Inv : (sdk : Sdk) (r : Run) → Inv r → Inv (run_of (head sdk r))
unfolding head
head-Inv sdk r v =
    if_cases P r.canceled _ _ (λ _. if_cases P (r.in_flight == 0) _ _ (λ _. v) (λ _. v))
      (λ _.
        if_cases P (is_failed r.state.phase && is_idle r) _ _ (λ _. v)
          (λ _.
            if_cases P (r.closing && (is_idle r && received_expected r)) _ _
              (λ _.
                if_cases P (is_idle (drain_ready sdk r) && received_expected (drain_ready sdk r)) _
                  _ (λ _. drain_ready-Inv sdk r v) (λ _. drain_ready-Inv sdk r v))
              (λ _. v)))
  where
    P : Head → Type 0
    P h = Inv (run_of h)

abbrev pub run_at : Progress → Run
run_at (stopped r) = r
run_at (waiting r) = r

pub await-Inv : (sdk : Sdk) (cs : List Choice) (r : Run) → Inv r → Inv (run_at (await sdk cs r))
unfolding await
await-Inv sdk [] r v = go (head sdk r) (head-Inv sdk r v)
  where
    go :
        (h : Head)
        → Inv (run_of h)
        → Inv (run_at (elim h [ returns q ↦ stopped q | goes_on q ↦ waiting q ]))
    go (returns q) w = w
    go (goes_on q) w = w
await-Inv sdk (c ∷ cs) r v =
    go (head sdk r) (head-Inv sdk r v) (λ q w. await-Inv sdk cs (turn sdk c q) (turn-Inv sdk c q w))
  where
    go :
        (h : Head)
        → Inv (run_of h)
        → ((q : Run) → Inv q → Inv (run_at (await sdk cs (turn sdk c q))))
        → Inv (run_at (elim h [ returns q ↦ stopped q | goes_on q ↦ await sdk cs (turn sdk c q) ]))
    go (returns q) w next = w
    go (goes_on q) w next = next q w

input_capped :
    (f : Bool) (input : WorkflowInput)
    → validate_input f input ≡ ok tt
    → pos_part (if input.event_limit == pos 0 then pos 1024 else input.event_limit) ≤ 1024
unfolding validate_input
input_capped f input h = ground arith

new_run-Inv :
    (input : WorkflowInput) (f : Bool) (w i : Str)
    → validate_input f input ≡ ok tt
    → Inv (new_run input f w i)
unfolding new_run
new_run-Inv input f w i sound = record {
  running_exact = refl;
  scheduled_received = refl;
  seen_once = λ x h. absurd (true_not_false (sym h));
  unseen = λ x h. refl;
  seen_received = refl;
  limited = omega arith;
  capped = input_capped f input sound;
  balanced = λ c x. omega arith;
}

schedule_all-Inv :
    (sdk : Sdk) (es : List ReadyEvent) (r q : Run) → schedule_all sdk es r ≡ ok q → Inv r → Inv q
unfolding schedule_all
schedule_all-Inv sdk [] r q h v = subst Inv (ok_eq h) v
schedule_all-Inv sdk (e ∷ es) r q h v =
    let (p, first, rest) = >>=-ok (schedule sdk e r) _ h in
    schedule_all-Inv sdk es p q rest (schedule-Inv sdk e r p first v)

-- A workflow that starts satisfies the invariant.
pub start-Inv :
    (sdk : Sdk) (input : WorkflowInput) (f : Bool) (w i : Str) {r : Run}
    → start sdk input f w i ≡ ok r
    → Inv r
unfolding start
start-Inv sdk input f w i {r} h =
    let (sound, scheduled) = >>-ok (wrap _ (validate_input f input)) _ h in
    schedule_all-Inv sdk input.initial_ready (new_run input f w i) r (wrap-ok _ _ scheduled)
      (new_run-Inv input f w i (wrap-ok _ _ sound))
