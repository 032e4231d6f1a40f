-- ===== src/Workflow/Handlers.antt =====
-- workflow.go: what the workflow does with each event that it selects.
use gas_city.Prelude.{
  if◌then◌else◌, length, ◌==◌, nat_eq, Str, text_eq, ltb_ℤ, int_eq, text, pos, ℕ, zero, suc, ◌+◌,
  ◌-◌, Bool, true, false, ◌&&◌, ◌||◌, not, Option, none, some, List, [], ◌∷◌, ◌++◌,
}
use gas_city.Errors.{
  Check, ◌>>=◌, ◌>>◌, require, succeeds, Result, ok, err, outside_seal, event_limit_exceeded,
  upsert_memo, upsert_search_attributes,
}
use gas_city.Contracts.Event.{ReadyEvent, validate_for_run}
use gas_city.Contracts.Formula.{activity_id}
use gas_city.Contracts.Link.{
  ChildStatus, ChildWorkflowLink, WorkflowReceipt, new_child_workflow_link,
}
use gas_city.Contracts.Link
use gas_city.Contracts.Payloads.{ActivityResult, outcome_eq}
use gas_city.Contracts.Payloads
use gas_city.Contracts.Requests.{
  CloseRequest, validate_close, WorkflowState, ErrorCode, no_code, workflow_canceled,
  invalid_close_request, invalid_ready_event, activity_failed, invalid_activity_result,
  invalid_parent_link, parent_signal_failed, member,
}
use gas_city.Contracts.Requests
use gas_city.Workflow.Run.{Pending, Run, fail, event_id_set, event_id_sets_equal, seen_expected}

-- Whether the SDK takes the memo and the search attributes of an event.
pub record Sdk : Type 0 where
  pub takes_memo : ReadyEvent → Bool
  pub takes_search_attributes : ReadyEvent → Bool

-- The part of `schedule` for an event that is new: the formula's identity and its projections.
announce : Sdk → ReadyEvent → Run → Check
announce sdk event r =
    if r.require_formula
    then (activity_id event.formula event.generation >>= λ _.
        (require (sdk.takes_memo event) upsert_memo
          >> (if r.input.search_attributes
              then require (sdk.takes_search_attributes event) upsert_search_attributes
              else ok tt)))
    else ok tt

abbrev pub scheduled : ReadyEvent → Run → Run
scheduled event r = record r {
  seen = event.event_id ∷ r.seen;
  state = record r.state {
    received_event_ids = r.state.received_event_ids ++ (event.event_id ∷ []);
  };
  in_flight = r.in_flight + 1;
  activities = r.activities ++ (record { event = event; terminal = false } ∷ []);
}

-- The rest of `schedule`, for an event that is valid and within the seal.
schedule_new : Sdk → ReadyEvent → Run → Result Run
unfolding announce
schedule_new sdk event r =
    if member event.event_id r.seen
    then ok r
    else (require (ltb_ℤ (pos (length r.seen)) r.event_limit) event_limit_exceeded
        >> (announce sdk event r >> ok (scheduled event r)))

-- schedule: on an error the run is as it was.
unfoldable pub schedule : Sdk → ReadyEvent → Run → Result Run
unfolding schedule_new
schedule sdk event r = do
  validate_for_run r.input.city_id r.input.run_id r.input.bead_id event r.require_formula
  require (not r.sealed || member event.event_id r.expected) (outside_seal event.event_id)
  schedule_new sdk event r

-- acceptReady
unfoldable pub accept_ready : Sdk → ReadyEvent → Run → Run
unfolding schedule
accept_ready sdk event r = elim (schedule sdk event r) [
  | ok r' ↦ r'
  | err _ ↦ fail invalid_ready_event r
]

abbrev pub accept_all : Sdk → List ReadyEvent → Run → Run
accept_all sdk [] r = r
accept_all sdk (e ∷ es) r = accept_all sdk es (accept_ready sdk e r)

-- drainReadySignals
abbrev pub drain_ready : Sdk → Run → Run
drain_ready sdk r = accept_all sdk r.ready (record r { ready = [] })

-- The handler of the ready signal; with an empty channel it is not selected.
unfoldable pub receive_ready : Sdk → List ReadyEvent → Run → Run
receive_ready sdk [] r = r
receive_ready sdk (e ∷ es) r = accept_ready sdk e (record r { ready = es })

-- The test of the handler of the close signal on the request itself.
abbrev pub close_is_valid : CloseRequest → Run → Bool
close_is_valid q r =
    succeeds (validate_close q)
    && (q.city_id == r.input.city_id
        && (q.run_id == r.input.run_id
            && (if r.require_formula
                then q.bead_id == r.input.bead_id
                else (q.bead_id == [] || q.bead_id == r.input.bead_id))))

-- The handler where there is no seal yet.
unfoldable pub seal_run : Sdk → List Str → Run → Run
seal_run sdk requested r =
    let sealed = record r { expected = requested; sealed = true; closing = true } in
    if seen_expected sealed then drain_ready sdk sealed else fail invalid_close_request sealed

-- The handler of the close signal.
unfoldable pub receive_close : Sdk → CloseRequest → Run → Run
unfolding seal_run
receive_close sdk q r =
    if not (close_is_valid q r)
    then fail invalid_close_request r
    else if r.sealed
    then (if event_id_sets_equal r.expected (event_id_set q.expected_event_ids)
        then drain_ready sdk r
        else fail invalid_close_request r)
    else seal_run sdk (event_id_set q.expected_event_ids) r

-- The handler of `ctx.Done()`.
abbrev pub cancel : Run → Run
cancel r = record r {
  state = record r.state { phase = Requests.failed; last_error_code = workflow_canceled };
  canceled = true;
}

-- scheduleParentResult
unfoldable pub schedule_parent_result : ReadyEvent → ChildStatus → Str → Run → Run
schedule_parent_result event status error_code r =
    if not r.require_formula || event.formula.parent_workflow_id == []
    then r
    else elim (new_child_workflow_link event
        (record { workflow_id = r.workflow_id; run_id = r.run_id; event_id = event.event_id })
        status error_code) [
          | ok link ↦ record r {
            parent_signals = r.parent_signals + 1;
            links = r.links ++ (link ∷ []);
          }
          | err _ ↦ fail invalid_parent_link r
        ]

-- How an activity ends: with a result, or with an error (or one that cannot be decoded).
pub data Ending : Type 0 where
  returned : ActivityResult → Ending
  errored : Ending

abbrev pub is_success : ReadyEvent → Ending → Bool
is_success event errored = false
is_success event (returned a) = a.event_id == event.event_id && a.outcome == Payloads.completed

abbrev pub failure_code : Ending → ErrorCode
failure_code errored = activity_failed
failure_code (returned _) = invalid_activity_result

abbrev pub failure_text : Ending → Str
failure_text errored = text "activity-failed"
failure_text (returned _) = text "invalid-activity-result"

abbrev pub add_completed : ReadyEvent → Run → Run
add_completed event r = record r {
  state = record r.state {
    completed_event_ids = r.state.completed_event_ids ++ (event.event_id ∷ []);
  };
}

abbrev pub add_failed : ReadyEvent → Ending → Run → Run
add_failed event ending r = record r {
  state = record r.state {
    failed_event_ids = r.state.failed_event_ids ++ (event.event_id ∷ []);
    last_error_code = failure_code ending;
  };
}

-- completeActivity once the activity is marked.
unfoldable pub record_ending : ReadyEvent → Ending → Run → Run
unfolding schedule_parent_result
record_ending event ending r =
    if is_success event ending
    then schedule_parent_result event Link.completed [] (add_completed event r)
    else if r.canceled
    then r
    else schedule_parent_result event Link.failed (failure_text ending) (add_failed event ending r)

-- The activity at an index, if it still runs.
abbrev pub open_at : ℕ → List Pending → Option ReadyEvent
open_at i [] = none
open_at zero (p ∷ ps) = if p.terminal then none else some p.event
open_at (suc i) (p ∷ ps) = open_at i ps

abbrev pub mark_at : ℕ → List Pending → List Pending
mark_at i [] = []
mark_at zero (p ∷ ps) = record p { terminal = true } ∷ ps
mark_at (suc i) (p ∷ ps) = p ∷ mark_at i ps

-- completeActivity. An activity that is terminal, or not there, changes nothing.
unfoldable pub complete_activity : ℕ → Ending → Run → Run
unfolding record_ending
complete_activity i ending r = elim (open_at i r.activities) [
  | none ↦ r
  | some event ↦
      record_ending event ending
        (record r { activities = mark_at i r.activities; in_flight = r.in_flight - 1 })
]

-- The callback of a signal to a parent; without an open one it is not selected.
unfoldable pub complete_parent_signal : Bool → Run → Run
complete_parent_signal delivered r =
    if r.parent_signals == 0
    then r
    else (let r' = record r { parent_signals = r.parent_signals - 1 } in
        if delivered then r' else fail parent_signal_failed r')

-- What happens next: a ready signal comes into its channel, or the selector takes a branch.
pub data Choice : Type 0 where
  arrives : ReadyEvent → Choice
  receives_ready cancels : Choice
  receives_close : CloseRequest → Choice
  activity_ends : ℕ → Ending → Choice
  parent_signal_ends : Bool → Choice

unfoldable pub select : Sdk → Choice → Run → Run
unfolding receive_ready receive_close complete_activity complete_parent_signal
select sdk (arrives event) r = record r { ready = r.ready ++ (event ∷ []) }
select sdk receives_ready r = receive_ready sdk r.ready r
select sdk cancels r = cancel r
select sdk (receives_close request) r = receive_close sdk request r
select sdk (activity_ends i ending) r = complete_activity i ending r
select sdk (parent_signal_ends delivered) r = complete_parent_signal delivered r
