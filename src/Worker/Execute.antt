-- ===== src/Worker/Execute.antt =====
-- activity.go: ExecuteBead. The heartbeats are those that the worker and its tracker send; the pump
-- repeats the tracker's snapshot from time to time. A cancellation of the session is one call.
use gas_city.Prelude.{
  if◌then◌else◌, ◌==◌, nat_eq, Str, text_eq, ltb_ℤ, int_eq, ℤ, text, pos, ℕ, ◌&&◌, ◌||◌, not,
  Option, none, some, List, [],
}
use gas_city.Errors.{
  Check, ◌>>=◌, ◌>>◌, require, wrap, Result, ok, err, non_retryable, canceled, application,
  claim_failed, resolve_failed, cancel_failed, record_failure_failed, heartbeat_decode_failed,
}
use gas_city.Contracts.Event
use gas_city.Contracts.Payloads.{outcome_eq, HeartbeatCheckpoint, ClaimLease, validate_checkpoint}
use gas_city.Worker.Interface.{
  no_details, undecodable, details, returned, run_canceled, run_failed, BeadStore, AgentExecutor,
  Info, ActivityWorker, AgentExecutionRequest, Details, AgentExecutionResult, RunEnd,
}
use gas_city.Worker.Tracker.{records, new_tracker, HeartbeatTracker}
use gas_city.Contracts.Event.{ReadyEvent}
use gas_city.Contracts.Identifiers.{validate_segment}
use gas_city.Contracts.Link.{workflow_id}
use gas_city.Bridge.World.{and_then}

abbrev pub given {ℓ} : {A : Type ℓ} → Option A → Result A
given none = err (non_retryable "InvalidActivityConfiguration")
given (some a) = ok a

-- validate
unfoldable pub validate_worker {ℓ} :
    {W : Type ℓ} → ActivityWorker W → ReadyEvent → Result (BeadStore W × AgentExecutor W)
validate_worker worker event = do
  beads ← given worker.beads
  agent ← given worker.agent
  wrap (λ _. non_retryable "InvalidReadyEvent") (Event.validate event)
  ok (beads, agent)

abbrev pub check_lease : ReadyEvent → ClaimLease → Result ClaimLease
check_lease event l =
    require
      (l.acquired
        && (l.bead_id == event.bead_id
            && (l.generation == event.generation && not (l.token == []))))
      (non_retryable "StaleClaim")
    >> ok l

abbrev pub claim_as {ℓ} :
    {W : Type ℓ} → BeadStore W → ReadyEvent → Result Str → W → Result ClaimLease × W
claim_as beads event (err e) w = (err e, w)
claim_as beads event (ok id) w =
    let (m, w') =
      beads.claim_bead
        (record { bead_id = event.bead_id; generation = event.generation; workflow_id = id }) w in
    (wrap claim_failed m >>= check_lease event, w')

-- claim
unfoldable pub claim_lease {ℓ} : {W : Type ℓ} → BeadStore W → ReadyEvent → W → Result ClaimLease × W
claim_lease beads event = claim_as beads event (
    wrap (λ _. non_retryable "InvalidWorkflowIdentity")
      (workflow_id event.city_id event.run_id event.bead_id))

-- activityHeartbeat
unfoldable pub activity_heartbeat :
    Details → ReadyEvent → ClaimLease → Result (Option HeartbeatCheckpoint)
activity_heartbeat no_details event lease = ok none
activity_heartbeat undecodable event lease = err heartbeat_decode_failed
activity_heartbeat (details h) event lease = do
  require
      (h.bead_id == event.bead_id
        && (h.generation == event.generation
            && (h.claim_token == lease.token && not (ltb_ℤ h.sequence (pos 0)))))
      (non_retryable "StaleHeartbeat")
  wrap (λ _. non_retryable "InvalidHeartbeat") (validate_checkpoint h)
  ok (some h)

-- agentExecution, with the heartbeats that were sent.
pub record AgentExecution : Type 0 where
  pub result : AgentExecutionResult
  pub last_sequence : ℤ
  pub sent : List HeartbeatCheckpoint

abbrev pub check_session : Str → Result Str
check_session id = do
  wrap (λ _. non_retryable "InvalidAgentSession") (validate_segment "session id" id)
  ok id

abbrev pub session_for {ℓ} :
    {W : Type ℓ}
    → AgentExecutor W
    → AgentExecutionRequest
    → Option HeartbeatCheckpoint
    → W
    → Result Str × W
session_for agent request (some resume) w = (ok resume.session_id, w)
session_for agent request none w =
    let (m, w') = agent.resolve_session request w in (wrap resolve_failed m >>= check_session, w')

abbrev pub canceled_end : Check → Result AgentExecution
canceled_end (ok _) = err canceled
canceled_end (err e) = err (cancel_failed e)

-- cancelAttachedSession and what follows it.
abbrev pub cancel_attached {ℓ} :
    {W : Type ℓ} → AgentExecutor W → ReadyEvent → ClaimLease → Str → W → Result AgentExecution × W
cancel_attached agent event lease session_id w =
    let (m, w') =
      agent.cancel
        (record {
          bead_id = event.bead_id;
          generation = event.generation;
          claim_token = lease.token;
          session_id = session_id;
        })
        w in
    if session_id == []
    then (err (non_retryable "MissingSessionIdentity"), w)
    else (canceled_end m, w')

abbrev pub failed_end : Check → Result AgentExecution
failed_end (ok _) = err (application "AgentExecutionFailed")
failed_end (err e) = err (record_failure_failed e)

abbrev pub record_attempt {ℓ} :
    {W : Type ℓ} → BeadStore W → ReadyEvent → ClaimLease → ℕ → W → Result AgentExecution × W
record_attempt beads event lease attempt w =
    let (m, w') =
      beads.record_failure
        (record {
          bead_id = event.bead_id;
          generation = event.generation;
          claim_token = lease.token;
          attempt = attempt;
          code = text "agent-execution-failed";
        })
        w in
    (failed_end m, w')

-- The result with the session that is attached.
abbrev pub with_session : Str → AgentExecutionResult → AgentExecutionResult
with_session attached r = record r {
  session_id = if r.session_id == [] then attached else r.session_id;
}

abbrev pub returned_result : HeartbeatTracker → AgentExecutionResult → Result AgentExecution
returned_result t r =
    let r' = with_session t.session_id r in
    (require (t.session_id == [] || r'.session_id == t.session_id)
        (non_retryable "InvalidAgentResult")
      >> ok (record { result = r'; last_sequence = t.sequence; sent = t.sent }))

abbrev pub end_of_run {ℓ} :
    {W : Type ℓ}
    → BeadStore W
    → AgentExecutor W
    → Info
    → ReadyEvent
    → ClaimLease
    → Str
    → HeartbeatTracker
    → RunEnd
    → W
    → Result AgentExecution × W
end_of_run beads agent info event lease id t run_canceled w = cancel_attached agent event lease id w
end_of_run beads agent info event lease id t (returned r) w =
    if info.is_canceled then cancel_attached agent event lease id w else (returned_result t r, w)
end_of_run beads agent info event lease id t run_failed w =
    if info.is_canceled
    then cancel_attached agent event lease id w
    else record_attempt beads event lease info.attempt w

abbrev pub request_of : ReadyEvent → ClaimLease → Option HeartbeatCheckpoint → AgentExecutionRequest
request_of event lease resume = record {
  event = event;
  claim_token = lease.token;
  session_id = [];
  resume_from = resume;
}

-- runAgent, from where the session is known.
abbrev pub execute_session {ℓ} :
    {W : Type ℓ}
    → BeadStore W
    → AgentExecutor W
    → Info
    → ReadyEvent
    → ClaimLease
    → Option HeartbeatCheckpoint
    → Str
    → W
    → Result AgentExecution × W
execute_session beads agent info event lease resume id w =
    let (execution, w') =
      agent.execute_agent (record (request_of event lease resume) { session_id = id }) w in
    end_of_run beads agent info event lease id
      (records execution.reports (new_tracker event lease resume id)) execution.ends w'

-- runAgent
unfoldable pub run_agent {ℓ} :
    {W : Type ℓ}
    → BeadStore W
    → AgentExecutor W
    → Info
    → ReadyEvent
    → ClaimLease
    → Option HeartbeatCheckpoint
    → W
    → Result AgentExecution × W
unfolding records new_tracker
run_agent beads agent info event lease resume w =
    and_then (session_for agent (request_of event lease resume) resume w)
      (execute_session beads agent info event lease resume)
