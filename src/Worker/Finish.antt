-- ===== src/Worker/Finish.antt =====
-- activity.go: `complete` and ExecuteBead.
use gas_city.Prelude.{
  leb, if◌then◌else◌, length, take, ◌==◌, nat_eq, text_eq, increment, int_eq, ℤ, Bool, true, false,
  ◌&&◌, ◌||◌, not, Option, none, some, List, [], ◌∷◌,
}
use gas_city.Errors.{
  Check, ◌>>◌, require, wrap, check_all, Result, ok, err, non_retryable, completion_failed,
}
use gas_city.Contracts.Artifact
use gas_city.Contracts.Payloads
use gas_city.Contracts.Payloads.{
  outcome_eq, checkpoint_phase_complete, HeartbeatCheckpoint, ActivityResult, ClaimLease,
  validate_checkpoint, Completion,
}
use gas_city.Contracts.Identifiers.{validate_segment, validate_workflow_id}
use gas_city.Outcomes.Envelope.{max_evidence}
use gas_city.Worker.Interface.{BeadStore, AgentExecutor, Info, ActivityWorker, AgentExecutionResult}
use gas_city.Worker.Execute.{
  AgentExecution, run_agent, claim_lease, activity_heartbeat, validate_worker,
}
use gas_city.Contracts.Artifact.{ArtifactRef}
use gas_city.Contracts.Event.{ReadyEvent}
use gas_city.Bridge.World.{and_then}

abbrev pub too_many : List ArtifactRef → Bool
too_many refs = not (leb (length refs) max_evidence)

-- The references that are kept, and whether some are left out.
abbrev pub kept_refs : List ArtifactRef → List ArtifactRef
kept_refs refs = if too_many refs then take max_evidence refs else refs

-- The checks of `complete` on the result and on what Temporal says.
unfoldable pub check_terminal : Info → AgentExecutionResult → Check
check_terminal info r = do
  require (r.outcome == Payloads.completed && not (r.session_id == []))
      (non_retryable "InvalidAgentResult")
  wrap (λ _. non_retryable "InvalidAgentResult") (validate_segment "session id" r.session_id)
  wrap (λ _. non_retryable "InvalidSourceWorkflow")
      (validate_workflow_id "source workflow id" info.workflow_id)
  wrap (λ _. non_retryable "InvalidSourceWorkflow")
      (validate_segment "source workflow run id" info.run_id)
  wrap (λ _. non_retryable "InvalidArtifactRef")
      (check_all Artifact.validate (kept_refs r.artifact_refs))

-- The last heartbeat.
abbrev pub final_checkpoint :
    ReadyEvent → ClaimLease → AgentExecutionResult → ℤ → Bool → HeartbeatCheckpoint
final_checkpoint event lease r last truncated = record {
  bead_id = event.bead_id;
  generation = event.generation;
  claim_token = lease.token;
  session_id = r.session_id;
  sequence = increment last;
  phase = checkpoint_phase_complete;
  artifact_refs = kept_refs r.artifact_refs;
  artifact_refs_truncated = truncated || too_many r.artifact_refs;
}

abbrev pub check_final : Bool → HeartbeatCheckpoint → Check
check_final false h = ok tt
check_final true h = wrap (λ _. non_retryable "InvalidHeartbeat") (validate_checkpoint h)

abbrev pub completion_for : Info → ReadyEvent → ClaimLease → AgentExecutionResult → Completion
completion_for info event lease r = record {
  bead_id = event.bead_id;
  generation = event.generation;
  claim_token = lease.token;
  session_id = r.session_id;
  source_workflow_id = info.workflow_id;
  source_workflow_run_id = info.run_id;
  outcome = r.outcome;
  artifact_refs = kept_refs r.artifact_refs;
}

abbrev pub result_for : ReadyEvent → AgentExecutionResult → Bool → ActivityResult
result_for event r truncated = record {
  event_id = event.event_id;
  outcome = r.outcome;
  session_id = r.session_id;
  artifact_refs = kept_refs r.artifact_refs;
  artifact_refs_truncated = truncated || too_many r.artifact_refs;
}

-- The answer of the activity, with its heartbeats, newest first.
abbrev pub Finished : Type 0
Finished = ActivityResult × List HeartbeatCheckpoint

abbrev pub with_final :
    Bool → HeartbeatCheckpoint → List HeartbeatCheckpoint → List HeartbeatCheckpoint
with_final records h sent = if records then h ∷ sent else sent

-- How `complete` is called: with the result, the last sequence, the heartbeats until then, whether a
-- last heartbeat is recorded, and whether references were left out before.
pub record Terminal : Type 0 where
  pub result : AgentExecutionResult
  pub last_sequence : ℤ
  pub sent : List HeartbeatCheckpoint
  pub records_final : Bool
  pub truncated : Bool

-- The checks of `complete`.
unfoldable pub check_complete : Info → ReadyEvent → ClaimLease → Terminal → Check
unfolding check_terminal
check_complete info event lease t =
    check_terminal info t.result
    >> check_final t.records_final
        (final_checkpoint event lease t.result t.last_sequence t.truncated)

abbrev pub store_completion {ℓ} :
    {W : Type ℓ}
    → BeadStore W
    → Info
    → ReadyEvent
    → ClaimLease
    → Terminal
    → Check
    → W
    → Result Finished × W
store_completion beads info event lease t (err e) w = (err e, w)
store_completion beads info event lease t (ok _) w =
    let (m, w') = beads.complete_bead (completion_for info event lease t.result) w in
    (
      wrap completion_failed m
          >> ok (
            result_for event t.result t.truncated,
            with_final t.records_final
                (final_checkpoint event lease t.result t.last_sequence t.truncated) t.sent,
          ),
      w',
    )

-- complete
unfoldable pub complete_lease {ℓ} :
    {W : Type ℓ} → BeadStore W → Info → ReadyEvent → ClaimLease → Terminal → W → Result Finished × W
unfolding check_complete
complete_lease beads info event lease t w =
    store_completion beads info event lease t (check_complete info event lease t) w

-- `complete` from the last heartbeat of an earlier attempt.
abbrev pub resumed_terminal : HeartbeatCheckpoint → Terminal
resumed_terminal h = record {
  result = record {
    session_id = h.session_id;
    outcome = Payloads.completed;
    artifact_refs = h.artifact_refs;
  };
  last_sequence = h.sequence;
  sent = [];
  records_final = false;
  truncated = h.artifact_refs_truncated;
}

abbrev pub executed_terminal : AgentExecution → Terminal
executed_terminal e = record {
  result = e.result;
  last_sequence = e.last_sequence;
  sent = e.sent;
  records_final = true;
  truncated = false;
}

abbrev pub run_and_complete {ℓ} :
    {W : Type ℓ}
    → BeadStore W
    → AgentExecutor W
    → Info
    → ReadyEvent
    → ClaimLease
    → Option HeartbeatCheckpoint
    → W
    → Result Finished × W
run_and_complete beads agent info event lease resume w =
    and_then (run_agent beads agent info event lease resume w)
      (λ e. complete_lease beads info event lease (executed_terminal e))

-- ExecuteBead, once the heartbeat of an earlier attempt is read.
abbrev pub from_heartbeat {ℓ} :
    {W : Type ℓ}
    → BeadStore W
    → AgentExecutor W
    → Info
    → ReadyEvent
    → ClaimLease
    → Option HeartbeatCheckpoint
    → W
    → Result Finished × W
from_heartbeat beads agent info event lease none w =
    run_and_complete beads agent info event lease none w
from_heartbeat beads agent info event lease (some h) w =
    if h.phase == checkpoint_phase_complete
    then complete_lease beads info event lease (resumed_terminal h) w
    else run_and_complete beads agent info event lease (some h) w

-- ExecuteBead with a lease.
abbrev pub with_lease {ℓ} :
    {W : Type ℓ}
    → BeadStore W
    → AgentExecutor W
    → Info
    → ReadyEvent
    → ClaimLease
    → W
    → Result Finished × W
with_lease beads agent info event lease w =
    and_then (activity_heartbeat info.heartbeat_details event lease, w)
      (from_heartbeat beads agent info event lease)

abbrev pub claimed_and_run {ℓ} :
    {W : Type ℓ} → Info → ReadyEvent → BeadStore W × AgentExecutor W → W → Result Finished × W
claimed_and_run info event (beads, agent) w =
    and_then (claim_lease beads event w) (with_lease beads agent info event)

-- ExecuteBead
unfoldable pub execute_bead {ℓ} :
    {W : Type ℓ} → ActivityWorker W → Info → ReadyEvent → W → Result Finished × W
unfolding run_agent complete_lease claim_lease activity_heartbeat validate_worker
execute_bead worker info event w =
    and_then (validate_worker worker event, w) (claimed_and_run info event)
