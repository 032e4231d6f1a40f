-- ===== src/Workflow/Endings.antt =====
-- workflow.go: the end of an activity keeps the invariant.
use gas_city.Prelude.{
  if_cases, true_not_false, ◌==◌, nat_eq, Str, text_eq, int_eq, ℕ, ◌+◌, ◌-◌, ◌≡◌, refl, sym, ◌∙◌,
  false, Option, none, some, [], ◌∷◌, arith,
}
use gas_city.Contracts.Event.{ReadyEvent}
use gas_city.Workflow.Run.{Run}
use gas_city.Contracts.Link
use gas_city.Workflow.Handlers.{
  add_completed, add_failed, failure_text, complete_activity, Ending, open_at, record_ending,
  mark_at, is_success,
}
use gas_city.Workflow.Counting.{
  count, count-append, one_if, open_count-mark_at, activity_ids-mark_at, open_of-mark_at,
}
use gas_city.Contracts.Link.{ChildStatus, ChildWorkflowLink, new_child_workflow_link}
use gas_city.Workflow.Invariant.{Inv, schedule_parent_result-Inv}

-- The three ways in which an activity that ran is counted after it ended.
module _ (i : ℕ) (event : ReadyEvent) (r : Run) (v : Inv r)
    (h : open_at i r.activities ≡ some event) where
  abbrev marked : Run
  marked = record r { activities = mark_at i r.activities; in_flight = r.in_flight - 1 }

  ended-Inv :
      (q : Run)
      → q.in_flight ≡ r.in_flight - 1
      → q.activities ≡ mark_at i r.activities
      → q.seen ≡ r.seen
      → q.event_limit ≡ r.event_limit
      → q.state.received_event_ids ≡ r.state.received_event_ids
      → (q.canceled ≡ false
          → (x : Str)
          → (r.canceled ≡ false)
            × (count x q.state.completed_event_ids + count x q.state.failed_event_ids
                ≡ count x r.state.completed_event_ids
                  + count x r.state.failed_event_ids
                  + one_if (event.event_id == x)))
      → Inv q
  ended-Inv q flying activities seen limit received counted = record {
    running_exact =
        rw (flying, activities)
          (omega (arith, v.running_exact, open_count-mark_at i r.activities event h));
    scheduled_received =
        rw (activities, received) (activity_ids-mark_at i r.activities ∙ v.scheduled_received);
    seen_once = rw (seen, received) v.seen_once;
    unseen = rw (seen, received) v.unseen;
    seen_received = rw (seen, received) v.seen_received;
    limited = rw (seen, limit) v.limited;
    capped = rw limit v.capped;
    balanced = λ c x.
        rw (activities, received)
          (omega (
            arith,
            (counted c x).1,
            v.balanced (counted c x).0 x,
            open_of-mark_at x i r.activities event h,
          ));
  }

  record_ending-Inv : (ending : Ending) → Inv (record_ending event ending marked)
  unfolding record_ending
  record_ending-Inv ending =
      if_cases Inv (is_success event ending) _ _
        (λ _. schedule_parent_result-Inv event Link.completed [] (add_completed event marked) (
          ended-Inv (add_completed event marked) refl refl refl refl refl (λ c x.
            (c, omega (arith, count-append x r.state.completed_event_ids (event.event_id ∷ []))))))
        (λ _.
          if_cases Inv r.canceled _ _
            (λ stop.
              ended-Inv marked refl refl refl refl refl
                (λ c x. absurd (true_not_false (sym stop ∙ c))))
            (λ _.
              schedule_parent_result-Inv event Link.failed (failure_text ending)
                (add_failed event ending marked)
                (ended-Inv (add_failed event ending marked) refl refl refl refl refl (λ c x. (
                  c,
                  omega (arith, count-append x r.state.failed_event_ids (event.event_id ∷ [])),
                )))))

pub complete_activity-Inv :
    (i : ℕ) (ending : Ending) (r : Run) → Inv r → Inv (complete_activity i ending r)
unfolding complete_activity
complete_activity-Inv i ending r v = go (open_at i r.activities) refl
  where
    go :
        (o : Option ReadyEvent)
        → open_at i r.activities ≡ o
        → Inv (elim o [
          | none ↦ r
          | some event ↦
              record_ending event ending
                (record r { activities = mark_at i r.activities; in_flight = r.in_flight - 1 })
        ])
    go none h = v
    go (some event) h = record_ending-Inv i event r v h ending
