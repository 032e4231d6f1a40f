-- ===== src/Workflow/Loop.antt =====
-- workflow.go: `await`, `awaitActivityCancellation`, `finish` and the workflow itself.
use gas_city.Prelude.{
  if◌then◌else◌, ◌==◌, nat_eq, Str, text_eq, int_eq, Bool, true, false, ◌&&◌, ◌||◌, not, List, [],
  ◌∷◌,
}
use gas_city.Errors.{◌>>=◌, ◌>>◌, wrap, Result, ok, non_retryable}
use gas_city.Contracts.Event.{ReadyEvent}
use gas_city.Contracts.Requests.{WorkflowInput, validate_input, WorkflowState, Phase}
use gas_city.Contracts.Requests
use gas_city.Workflow.Run.{Run, new_run, received_expected}
use gas_city.Workflow.Handlers.{Sdk, Choice, arrives, activity_ends, select, schedule, drain_ready}

abbrev pub is_failed : Phase → Bool
is_failed Requests.failed = true
is_failed _ = false

-- No activity runs and no signal to a parent is open.
abbrev pub is_idle : Run → Bool
is_idle r = r.in_flight == 0 && r.parent_signals == 0

-- What a round of `await` does before it selects: it returns, or goes on.
pub data Head : Type 0 where
  returns goes_on : Run → Head

-- The second test of the closing branch, after the channel is drained.
abbrev after_drain : Run → Head
after_drain r = if is_idle r && received_expected r then returns r else goes_on r

unfoldable pub head : Sdk → Run → Head
head sdk r =
    if r.canceled
    then (if r.in_flight == 0 then returns r else goes_on r)
    else if is_failed r.state.phase && is_idle r
    then returns r
    else if r.closing && (is_idle r && received_expected r)
    then after_drain (drain_ready sdk r)
    else goes_on r

-- After a cancellation only the futures of the activities are selected; a signal may still come into
-- its channel.
unfoldable pub select_canceled : Sdk → Choice → Run → Run
select_canceled sdk (activity_ends i ending) r = select sdk (activity_ends i ending) r
select_canceled sdk (arrives event) r = select sdk (arrives event) r
select_canceled sdk _ r = r

unfoldable pub turn : Sdk → Choice → Run → Run
unfolding select_canceled
turn sdk choice r = if r.canceled then select_canceled sdk choice r else select sdk choice r

-- Where the loop stands after all that was selected.
pub data Progress : Type 0 where
  stopped waiting : Run → Progress

-- await
unfoldable pub await : Sdk → List Choice → Run → Progress
await sdk [] r = elim (head sdk r) [ returns q ↦ stopped q | goes_on q ↦ waiting q ]
await sdk (c ∷ cs) r = elim (head sdk r) [
  | returns q ↦ stopped q
  | goes_on q ↦ await sdk cs (turn sdk c q)
]

-- How a workflow ends, with its last state.
pub data Finish : Type 0 where
  succeeded canceled failed : WorkflowState → Finish

abbrev no_ids : List Str → Bool
no_ids [] = true
no_ids (_ ∷ _) = false

-- finish
unfoldable pub finish : Run → Finish
finish r =
    if r.canceled
    then canceled r.state
    else if is_failed r.state.phase || not (no_ids r.state.failed_event_ids)
    then failed (record r.state { phase = Requests.failed })
    else succeeded (record r.state { phase = Requests.completed })

-- The loop over the events of the input.
unfoldable pub schedule_all : Sdk → List ReadyEvent → Run → Result Run
schedule_all sdk [] r = ok r
schedule_all sdk (e ∷ es) r = do r' ← schedule sdk e r; schedule_all sdk es r'

-- BeadOrchestrationWorkflow: an error of the input, or the loop.
unfoldable pub start : Sdk → WorkflowInput → Bool → Str → Str → Result Run
unfolding schedule_all new_run
start sdk input require_formula workflow_id run_id =
    wrap (λ _. non_retryable "InvalidOrchestrationInput") (validate_input require_formula input)
    >> wrap (λ _. non_retryable "InvalidReadyEvent")
        (schedule_all sdk input.initial_ready (new_run input require_formula workflow_id run_id))
