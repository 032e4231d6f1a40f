-- ===== src/Workflow/Closure.antt =====
-- workflow.go: a predicate that each elementary change of a run keeps holds after the whole loop.
use gas_city.Prelude.{
  if_cases, ◌==◌, nat_eq, Str, text_eq, int_eq, ℕ, ◌+◌, ◌-◌, ◌≡◌, refl, sym, subst, inl, inr, Bool,
  true, ◌&&◌, ◌||◌, not, Option, none, some, List, [], ◌∷◌, ◌++◌,
}
use gas_city.Errors.{wrap, >>-ok, >>=-ok, wrap-ok, ok_eq, require-ok, Result, ok, err}
use gas_city.Contracts.Link
use gas_city.Workflow.Handlers.{
  receives_ready, cancels, schedule, Sdk, scheduled, accept_ready, accept_all, drain_ready,
  receive_ready, seal_run, receive_close, schedule_parent_result, complete_activity,
  complete_parent_signal, select, record_ending, Choice, close_is_valid, Ending, arrives, mark_at,
  receives_close, is_success, activity_ends, failure_text, parent_signal_ends, open_at,
  add_completed, add_failed,
}
use gas_city.Workflow.Run.{
  Run, seen_expected, fail, new_run, event_id_sets_equal, event_id_set, received_expected,
}
use gas_city.Contracts.Link.{failed, ChildStatus, ChildWorkflowLink, new_child_workflow_link}
use gas_city.Workflow.Loop.{
  is_failed, select_canceled, turn, head, await, schedule_all, start, Head, is_idle, returns,
  stopped, goes_on, waiting,
}
use gas_city.Contracts.Event.{ReadyEvent, validate_for_run}
use gas_city.Contracts.Requests.{
  member, CloseRequest, WorkflowInput, invalid_ready_event, invalid_parent_link, validate_input,
}
use gas_city.Workflow.Invariant.{schedule_cases}
use gas_city.Workflow.Preserved.{run_of, run_at}

-- Phase, seal and seen events are as they were.
abbrev pub Frame : Run → Run → Type 0
Frame r q =
    (q.state.phase ≡ r.state.phase)
    × (q.sealed ≡ r.sealed)
    × (q.expected ≡ r.expected)
    × (q.seen ≡ r.seen)

abbrev pub sealed_with : List Str → Run → Run
sealed_with ids r = record r { expected = ids; sealed = true; closing = true }

pub record IsClosed {ℓ} (P : Run → Type ℓ) : Type ℓ where
  pub frames : (r q : Run) → Frame r q → P r → P q
  pub fails : (r q : Run) → is_failed q.state.phase ≡ true → P r → P q
  pub takes :
      (event : ReadyEvent) (r : Run)
      → (not r.sealed || member event.event_id r.expected) ≡ true
      → P r
      → P (scheduled event r)
  pub seals :
      (ids : List Str) (r : Run)
      → seen_expected (sealed_with ids r) ≡ true
      → P r
      → P (sealed_with ids r)

module _ {ℓ} (P : Run → Type ℓ) (closed : IsClosed P) where
  schedule-keeps :
      (sdk : Sdk) (event : ReadyEvent) (r q : Run) → schedule sdk event r ≡ ok q → P r → P q
  unfolding schedule
  schedule-keeps sdk event r q h p =
      let (_, checked) =
        >>-ok
          (validate_for_run r.input.city_id r.input.run_id r.input.bead_id event r.require_formula)
          _ h in
      elim (schedule_cases sdk event r q h) [
        | inl same ↦ subst P (sym same) p
        | inr (same, _, _) ↦ subst P (sym same) (
            closed.takes event r
              (require-ok (not r.sealed || member event.event_id r.expected) _ _ checked).0 p)
      ]

  accept_ready-keeps :
      (sdk : Sdk) (event : ReadyEvent) (r : Run) → P r → P (accept_ready sdk event r)
  unfolding accept_ready
  accept_ready-keeps sdk event r p = go (schedule sdk event r) refl
    where
      go :
          (m : Result Run)
          → schedule sdk event r ≡ m
          → P (elim m [ ok q ↦ q | err _ ↦ fail invalid_ready_event r ])
      go (ok q) h = schedule-keeps sdk event r q h p
      go (err e) h = closed.fails r _ refl p

  accept_all-keeps : (sdk : Sdk) (es : List ReadyEvent) (r : Run) → P r → P (accept_all sdk es r)
  accept_all-keeps sdk [] r p = p
  accept_all-keeps sdk (e ∷ es) r p = accept_all-keeps sdk es _ (accept_ready-keeps sdk e r p)

  drain_ready-keeps : (sdk : Sdk) (r : Run) → P r → P (drain_ready sdk r)
  drain_ready-keeps sdk r p =
      accept_all-keeps sdk r.ready _ (closed.frames r _ (refl, refl, refl, refl) p)

  receive_ready-keeps :
      (sdk : Sdk) (es : List ReadyEvent) (r : Run) → P r → P (receive_ready sdk es r)
  unfolding receive_ready
  receive_ready-keeps sdk [] r p = p
  receive_ready-keeps sdk (e ∷ es) r p =
      accept_ready-keeps sdk e _ (closed.frames r _ (refl, refl, refl, refl) p)

  seal_run-keeps : (sdk : Sdk) (ids : List Str) (r : Run) → P r → P (seal_run sdk ids r)
  unfolding seal_run
  seal_run-keeps sdk ids r p =
      if_cases P (seen_expected (sealed_with ids r)) _ _
        (λ within. drain_ready-keeps sdk _ (closed.seals ids r within p))
        (λ _. closed.fails r _ refl p)

  receive_close-keeps : (sdk : Sdk) (q : CloseRequest) (r : Run) → P r → P (receive_close sdk q r)
  unfolding receive_close
  receive_close-keeps sdk q r p =
      if_cases P (not (close_is_valid q r)) _ _ (λ _. closed.fails r _ refl p)
        (λ _.
          if_cases P r.sealed _ _
            (λ _.
              if_cases P (event_id_sets_equal r.expected (event_id_set q.expected_event_ids)) _ _
                (λ _. drain_ready-keeps sdk r p) (λ _. closed.fails r _ refl p))
            (λ _. seal_run-keeps sdk (event_id_set q.expected_event_ids) r p))

  schedule_parent_result-keeps :
      (event : ReadyEvent) (status : ChildStatus) (code : Str) (r : Run)
      → P r
      → P (schedule_parent_result event status code r)
  unfolding schedule_parent_result
  schedule_parent_result-keeps event status code r p =
      if_cases P (not r.require_formula || event.formula.parent_workflow_id == []) _ _ (λ _. p)
        (λ _. go (
          new_child_workflow_link event
            (record { workflow_id = r.workflow_id; run_id = r.run_id; event_id = event.event_id })
            status code))
    where
      go :
          (m : Result ChildWorkflowLink)
          → P (elim m [
            | ok link ↦ record r {
              parent_signals = r.parent_signals + 1;
              links = r.links ++ (link ∷ []);
            }
            | err _ ↦ fail invalid_parent_link r
          ])
      go (ok link) = closed.frames r _ (refl, refl, refl, refl) p
      go (err _) = closed.fails r _ refl p

  record_ending-keeps :
      (event : ReadyEvent) (ending : Ending) (r : Run) → P r → P (record_ending event ending r)
  unfolding record_ending
  record_ending-keeps event ending r p =
      if_cases P (is_success event ending) _ _
        (λ _.
          schedule_parent_result-keeps event Link.completed [] (add_completed event r)
            (closed.frames r _ (refl, refl, refl, refl) p))
        (λ _.
          if_cases P r.canceled _ _ (λ _. p)
            (λ _.
              schedule_parent_result-keeps event Link.failed (failure_text ending)
                (add_failed event ending r) (closed.frames r _ (refl, refl, refl, refl) p)))

  complete_activity-keeps :
      (i : ℕ) (ending : Ending) (r : Run) → P r → P (complete_activity i ending r)
  unfolding complete_activity
  complete_activity-keeps i ending r p = go (open_at i r.activities)
    where
      go :
          (o : Option ReadyEvent)
          → P (elim o [
            | none ↦ r
            | some event ↦
                record_ending event ending
                  (record r { activities = mark_at i r.activities; in_flight = r.in_flight - 1 })
          ])
      go none = p
      go (some event) =
          record_ending-keeps event ending
            (record r { activities = mark_at i r.activities; in_flight = r.in_flight - 1 })
            (closed.frames r _ (refl, refl, refl, refl) p)

  complete_parent_signal-keeps :
      (delivered : Bool) (r : Run) → P r → P (complete_parent_signal delivered r)
  unfolding complete_parent_signal
  complete_parent_signal-keeps delivered r p =
      if_cases P (r.parent_signals == 0) _ _ (λ _. p)
        (λ _.
          if_cases P delivered _ _ (λ _. closed.frames r _ (refl, refl, refl, refl) p)
            (λ _. closed.fails r _ refl p))

  select-keeps : (sdk : Sdk) (c : Choice) (r : Run) → P r → P (select sdk c r)
  unfolding select
  select-keeps sdk (arrives event) r p = closed.frames r _ (refl, refl, refl, refl) p
  select-keeps sdk receives_ready r p = receive_ready-keeps sdk r.ready r p
  select-keeps sdk cancels r p = closed.fails r _ refl p
  select-keeps sdk (receives_close q) r p = receive_close-keeps sdk q r p
  select-keeps sdk (activity_ends i ending) r p = complete_activity-keeps i ending r p
  select-keeps sdk (parent_signal_ends delivered) r p = complete_parent_signal-keeps delivered r p

  canceled-keeps : (sdk : Sdk) (c : Choice) (r : Run) → P r → P (select_canceled sdk c r)
  unfolding select_canceled
  canceled-keeps sdk (arrives event) r p = select-keeps sdk (arrives event) r p
  canceled-keeps sdk receives_ready r p = p
  canceled-keeps sdk cancels r p = p
  canceled-keeps sdk (receives_close q) r p = p
  canceled-keeps sdk (activity_ends i ending) r p = select-keeps sdk (activity_ends i ending) r p
  canceled-keeps sdk (parent_signal_ends delivered) r p = p

  turn-keeps : (sdk : Sdk) (c : Choice) (r : Run) → P r → P (turn sdk c r)
  unfolding turn
  turn-keeps sdk c r p =
      if_cases P r.canceled _ _ (λ _. canceled-keeps sdk c r p) (λ _. select-keeps sdk c r p)

  pub head-keeps : (sdk : Sdk) (r : Run) → P r → P (run_of (head sdk r))
  unfolding head
  head-keeps sdk r p =
      if_cases Q r.canceled _ _ (λ _. if_cases Q (r.in_flight == 0) _ _ (λ _. p) (λ _. p))
        (λ _.
          if_cases Q (is_failed r.state.phase && is_idle r) _ _ (λ _. p)
            (λ _.
              if_cases Q (r.closing && (is_idle r && received_expected r)) _ _
                (λ _.
                  if_cases Q (is_idle (drain_ready sdk r) && received_expected (drain_ready sdk r))
                    _ _ (λ _. drain_ready-keeps sdk r p) (λ _. drain_ready-keeps sdk r p))
                (λ _. p)))
    where
      Q : Head → Type ℓ
      Q h = P (run_of h)

  -- Holds of a run, then after whatever is selected.
  pub await-keeps : (sdk : Sdk) (cs : List Choice) (r : Run) → P r → P (run_at (await sdk cs r))
  unfolding await
  await-keeps sdk [] r p = go (head sdk r) (head-keeps sdk r p)
    where
      go :
          (h : Head)
          → P (run_of h)
          → P (run_at (elim h [ returns q ↦ stopped q | goes_on q ↦ waiting q ]))
      go (returns q) w = w
      go (goes_on q) w = w
  await-keeps sdk (c ∷ cs) r p =
      go (head sdk r) (head-keeps sdk r p)
        (λ q w. await-keeps sdk cs (turn sdk c q) (turn-keeps sdk c q w))
    where
      go :
          (h : Head)
          → P (run_of h)
          → ((q : Run) → P q → P (run_at (await sdk cs (turn sdk c q))))
          → P (run_at (elim h [ returns q ↦ stopped q | goes_on q ↦ await sdk cs (turn sdk c q) ]))
      go (returns q) w later = w
      go (goes_on q) w later = later q w

  schedule_all-keeps :
      (sdk : Sdk) (es : List ReadyEvent) (r q : Run) → schedule_all sdk es r ≡ ok q → P r → P q
  unfolding schedule_all
  schedule_all-keeps sdk [] r q h p = subst P (ok_eq h) p
  schedule_all-keeps sdk (e ∷ es) r q h p =
      let (middle, first, rest) = >>=-ok (schedule sdk e r) _ h in
      schedule_all-keeps sdk es middle q rest (schedule-keeps sdk e r middle first p)

  pub start-keeps :
      (sdk : Sdk) (input : WorkflowInput) (f : Bool) (w i : Str) {r : Run}
      → start sdk input f w i ≡ ok r
      → P (new_run input f w i)
      → P r
  unfolding start
  start-keeps sdk input f w i {r} h p =
      let (_, scheduled') = >>-ok (wrap _ (validate_input f input)) _ h in
      schedule_all-keeps sdk input.initial_ready (new_run input f w i) r (wrap-ok _ _ scheduled') p
