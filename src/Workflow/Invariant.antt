-- ===== src/Workflow/Invariant.antt =====
-- workflow.go: what holds of a run whatever is selected.
use gas_city.Prelude.{
  if_cases, true_not_false, length, length-append, ◌==◌, nat_eq, Str, text_eq, pos_part, ltb_ℤ,
  int_eq, pos, ◌+◌, ◌≤◌, ◌≡◌, refl, sym, ap, subst, ◌∙◌, ◌⊎◌, inl, inr, true, false, ◌||◌, not,
  List, [], ◌∷◌, ◌++◌, arith,
}
use gas_city.Errors.{Result, ok, err}
use gas_city.Contracts.Event.{ReadyEvent}
use gas_city.Contracts.Requests.{
  member, ErrorCode, invalid_ready_event, CloseRequest, invalid_close_request, invalid_parent_link,
}
use gas_city.Workflow.Run.{Run, fail, event_id_set, event_id_sets_equal}
use gas_city.Workflow.Handlers.{
  Sdk, schedule, scheduled, receive_ready, seal_run, accept_ready, receive_close, drain_ready,
  accept_all, close_is_valid, schedule_parent_result, cancel,
}
use gas_city.Workflow.Counting.{
  count, open_count, open_of, activity_ids, count-append, open_count-append, open_of-append,
  activity_ids-append,
}
use gas_city.Contracts.Link.{ChildStatus, ChildWorkflowLink, new_child_workflow_link}

-- Each seen event was received and scheduled once, in the order of the receipts; the counter of
-- running activities is exact; the limit holds; and while the run is not canceled every received
-- event is running, completed or failed, and only one of these.
pub record Inv (r : Run) : Type 0 where
  pub running_exact : r.in_flight ≡ open_count r.activities
  pub scheduled_received : activity_ids r.activities ≡ r.state.received_event_ids
  pub seen_once : (x : Str) → member x r.seen ≡ true → count x r.state.received_event_ids ≡ 1
  pub unseen : (x : Str) → member x r.seen ≡ false → count x r.state.received_event_ids ≡ 0
  pub seen_received : length r.seen ≡ length r.state.received_event_ids
  pub limited : length r.seen ≤ pos_part r.event_limit
  pub capped : pos_part r.event_limit ≤ 1024
  pub balanced :
      r.canceled ≡ false
      → (x : Str)
      → count x r.state.completed_event_ids
          + count x r.state.failed_event_ids
          + open_of x r.activities
        ≡ count x r.state.received_event_ids

pub scheduled-Inv :
    (event : ReadyEvent) (r : Run)
    → member event.event_id r.seen ≡ false
    → ltb_ℤ (pos (length r.seen)) r.event_limit ≡ true
    → Inv r
    → Inv (scheduled event r)
scheduled-Inv event r new below v = record {
  running_exact = omega (
    arith,
    v.running_exact,
    open_count-append r.activities (record { event = event; terminal = false } ∷ []),
  );
  scheduled_received =
      activity_ids-append r.activities _
      ∙ ap (λ l. l ++ (event.event_id ∷ [])) v.scheduled_received;
  seen_once = λ x h. ground (
    arith,
    count-append x r.state.received_event_ids (event.event_id ∷ []),
    v.seen_once x,
    v.unseen x,
  );
  unseen = λ x h.
      ground (arith, count-append x r.state.received_event_ids (event.event_id ∷ []), v.unseen x);
  seen_received =
      omega
        (arith, v.seen_received, length-append r.state.received_event_ids (event.event_id ∷ []));
  limited = ground arith;
  capped = v.capped;
  balanced = λ c x. omega (
    arith,
    v.balanced c x,
    count-append x r.state.received_event_ids (event.event_id ∷ []),
    open_of-append x r.activities (record { event = event; terminal = false } ∷ []),
  );
}

-- A run that differs only in what the invariant does not read.
abbrev pub Same : Run → Run → Type 0
Same r q =
    (q.in_flight ≡ r.in_flight)
    × (q.activities ≡ r.activities)
    × (q.seen ≡ r.seen)
    × (q.event_limit ≡ r.event_limit)
    × (q.state.received_event_ids ≡ r.state.received_event_ids)
    × (q.state.completed_event_ids ≡ r.state.completed_event_ids)
    × (q.state.failed_event_ids ≡ r.state.failed_event_ids)
    × (q.canceled ≡ false → r.canceled ≡ false)

pub Same-Inv : (r q : Run) → Same r q → Inv r → Inv q
Same-Inv r q (flying, activities, seen, limit, received, done, broken, running) v = record {
  running_exact = rw (flying, activities) v.running_exact;
  scheduled_received = rw (activities, received) v.scheduled_received;
  seen_once = rw (seen, received) v.seen_once;
  unseen = rw (seen, received) v.unseen;
  seen_received = rw (seen, received) v.seen_received;
  limited = rw (seen, limit) v.limited;
  capped = rw limit v.capped;
  balanced = λ c x. rw (done, broken, activities, received) (v.balanced (running c) x);
}

pub fail-Inv : (code : ErrorCode) (r : Run) → Inv r → Inv (fail code r)
fail-Inv code r = Same-Inv r _ (refl, refl, refl, refl, refl, refl, refl, λ c. c)

pub schedule_cases :
    (sdk : Sdk) (event : ReadyEvent) (r q : Run)
    → schedule sdk event r ≡ ok q
    → (q ≡ r)
      ⊎ ((q ≡ scheduled event r)
          × (member event.event_id r.seen ≡ false)
          × (ltb_ℤ (pos (length r.seen)) r.event_limit ≡ true))
unfolding schedule
schedule_cases sdk event r q h = ground arith

pub schedule-Inv :
    (sdk : Sdk) (event : ReadyEvent) (r q : Run) → schedule sdk event r ≡ ok q → Inv r → Inv q
schedule-Inv sdk event r q h v = elim (schedule_cases sdk event r q h) [
  | inl same ↦ subst Inv (sym same) v
  | inr (same, new, below) ↦ subst Inv (sym same) (scheduled-Inv event r new below v)
]

accept_ready-Inv :
    (sdk : Sdk) (event : ReadyEvent) (r : Run) → Inv r → Inv (accept_ready sdk event r)
unfolding accept_ready
accept_ready-Inv sdk event r v = go (schedule sdk event r) refl
  where
    go :
        (m : Result Run)
        → schedule sdk event r ≡ m
        → Inv (elim m [ ok q ↦ q | err _ ↦ fail invalid_ready_event r ])
    go (ok q) h = schedule-Inv sdk event r q h v
    go (err e) h = fail-Inv invalid_ready_event r v

accept_all-Inv : (sdk : Sdk) (es : List ReadyEvent) (r : Run) → Inv r → Inv (accept_all sdk es r)
accept_all-Inv sdk [] r v = v
accept_all-Inv sdk (e ∷ es) r v = accept_all-Inv sdk es _ (accept_ready-Inv sdk e r v)

pub drain_ready-Inv : (sdk : Sdk) (r : Run) → Inv r → Inv (drain_ready sdk r)
drain_ready-Inv sdk r v =
    accept_all-Inv sdk r.ready _ (Same-Inv r _ (refl, refl, refl, refl, refl, refl, refl, λ c. c) v)

pub receive_ready-Inv :
    (sdk : Sdk) (es : List ReadyEvent) (r : Run) → Inv r → Inv (receive_ready sdk es r)
unfolding receive_ready
receive_ready-Inv sdk [] r v = v
receive_ready-Inv sdk (e ∷ es) r v =
    accept_ready-Inv sdk e _ (Same-Inv r _ (refl, refl, refl, refl, refl, refl, refl, λ c. c) v)

seal_run-Inv : (sdk : Sdk) (ids : List Str) (r : Run) → Inv r → Inv (seal_run sdk ids r)
unfolding seal_run
seal_run-Inv sdk ids r v =
    if_cases Inv _ _ _ (λ _. drain_ready-Inv sdk _ w) (λ _. fail-Inv invalid_close_request _ w)
  where
    w : Inv (record r { expected = ids; sealed = true; closing = true })
    w = Same-Inv r _ (refl, refl, refl, refl, refl, refl, refl, λ c. c) v

pub receive_close-Inv :
    (sdk : Sdk) (q : CloseRequest) (r : Run) → Inv r → Inv (receive_close sdk q r)
unfolding receive_close
receive_close-Inv sdk q r v =
    if_cases Inv (not (close_is_valid q r)) _ _ (λ _. fail-Inv invalid_close_request r v)
      (λ _.
        if_cases Inv r.sealed _ _
          (λ _.
            if_cases Inv (event_id_sets_equal r.expected (event_id_set q.expected_event_ids)) _ _
              (λ _. drain_ready-Inv sdk r v) (λ _. fail-Inv invalid_close_request r v))
          (λ _. seal_run-Inv sdk (event_id_set q.expected_event_ids) r v))

pub cancel-Inv : (r : Run) → Inv r → Inv (cancel r)
cancel-Inv r =
    Same-Inv r _ (refl, refl, refl, refl, refl, refl, refl, λ c. absurd (true_not_false c))

pub schedule_parent_result-Inv :
    (event : ReadyEvent) (status : ChildStatus) (code : Str) (r : Run)
    → Inv r
    → Inv (schedule_parent_result event status code r)
unfolding schedule_parent_result
schedule_parent_result-Inv event status code r v =
    if_cases Inv (not r.require_formula || event.formula.parent_workflow_id == []) _ _ (λ _. v)
      (λ _. go (
        new_child_workflow_link event
          (record { workflow_id = r.workflow_id; run_id = r.run_id; event_id = event.event_id })
          status code))
  where
    go :
        (m : Result ChildWorkflowLink)
        → Inv (elim m [
          | ok link ↦ record r {
            parent_signals = r.parent_signals + 1;
            links = r.links ++ (link ∷ []);
          }
          | err _ ↦ fail invalid_parent_link r
        ])
    go (ok link) = Same-Inv r _ (refl, refl, refl, refl, refl, refl, refl, λ c. c) v
    go (err _) = fail-Inv invalid_parent_link r v
