-- ===== src/Worker/Interface.antt =====
-- activity.go: the interfaces BeadStore and AgentExecutor over a world, and what Temporal tells the
-- activity.
use gas_city.Prelude.{Str, ℤ, ℕ, Bool, Option, List}
use gas_city.Errors.{Check, Result}
use gas_city.Contracts.Payloads.{
  Outcome, ClaimRequest, HeartbeatCheckpoint, ClaimLease, Completion, AttemptFailure,
}
use gas_city.Contracts.Event.{ReadyEvent}
use gas_city.Contracts.Artifact.{ArtifactRef}

pub record AgentProgress : Type 0 where
  pub session_id : Str
  pub sequence : ℤ
  pub phase : Str
  pub artifact_refs : List ArtifactRef

pub record AgentExecutionRequest : Type 0 where
  pub event : ReadyEvent
  pub claim_token : Str
  pub session_id : Str
  pub resume_from : Option HeartbeatCheckpoint

pub record AgentExecutionResult : Type 0 where
  pub session_id : Str
  pub outcome : Outcome
  pub artifact_refs : List ArtifactRef

pub record AgentCancellation : Type 0 where
  pub bead_id : Str
  pub generation : ℤ
  pub claim_token : Str
  pub session_id : Str

-- How `Execute` of the agent ends.
pub data RunEnd : Type 0 where
  returned : AgentExecutionResult → RunEnd
  run_canceled run_failed : RunEnd

-- What `Execute` does: the progress it reports, in its order, and its end.
pub record Execution : Type 0 where
  pub reports : List AgentProgress
  pub ends : RunEnd

pub record BeadStore {ℓ} (W : Type ℓ) : Type ℓ where
  pub claim_bead : ClaimRequest → W → Result ClaimLease × W
  pub complete_bead : Completion → W → Check × W
  pub record_failure : AttemptFailure → W → Check × W

pub record AgentExecutor {ℓ} (W : Type ℓ) : Type ℓ where
  pub resolve_session : AgentExecutionRequest → W → Result Str × W
  pub execute_agent : AgentExecutionRequest → W → Execution × W
  pub cancel : AgentCancellation → W → Check × W

-- The heartbeat details of an earlier attempt.
pub data Details : Type 0 where
  no_details undecodable : Details
  details : HeartbeatCheckpoint → Details

-- What `activity.GetInfo`, the heartbeat details and the context say.
pub record Info : Type 0 where
  pub workflow_id : Str
  pub run_id : Str
  pub attempt : ℕ
  pub heartbeat_details : Details
  pub is_canceled : Bool

pub record ActivityWorker {ℓ} (W : Type ℓ) : Type ℓ where
  pub beads : Option (BeadStore W)
  pub agent : Option (AgentExecutor W)
