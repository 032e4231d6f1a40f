-- ===== src/Contracts/Payloads.antt =====
-- contracts.go and bead_store.go: claims, leases, checkpoints, results and completions.
use gas_city.Prelude.{
  ℕ, Bool, true, false, ◌&&◌, ◌||◌, not, List, [], ◌∷◌, Str, Str-discrete, ◌==◌, text_eq, text,
  nat_eq, int_eq, ℤ, pos, leb_ℤ, ltb_ℤ, Eq,
}
use gas_city.Errors.{
  Check, require, check_all, ◌>>◌, heartbeat_out_of_range, sequence_zero_reserved,
  activity_outcome_invalid,
}
use gas_city.Contracts.Identifiers.{validate_segment}
use gas_city.Contracts.Artifact
use gas_city.Contracts.Artifact.{ArtifactRef}

-- Outcome, a Go text; `no_outcome` is the empty one.
pub data Outcome : Type 0 where
  no_outcome completed : Outcome
  other : Str → Outcome

unfoldable pub Outcome-discrete : Discrete Outcome
unfolding Str-discrete
Outcome-discrete = hlevel Str-discrete

instance abbrev pub outcome_eq : Eq Outcome
outcome_eq = record { dec = Outcome-discrete }

pub record ClaimRequest : Type 0 where
  pub bead_id : Str
  pub generation : ℤ
  pub workflow_id : Str

pub record ClaimLease : Type 0 where
  pub bead_id : Str
  pub generation : ℤ
  pub token : Str
  pub acquired : Bool

-- `ClaimLease{}`
abbrev pub no_lease : ClaimLease
no_lease = record { bead_id = []; generation = pos 0; token = []; acquired = false }

pub record Completion : Type 0 where
  pub bead_id : Str
  pub generation : ℤ
  pub claim_token : Str
  pub session_id : Str
  pub source_workflow_id : Str
  pub source_workflow_run_id : Str
  pub outcome : Outcome
  pub artifact_refs : List ArtifactRef

-- `attempt` is an int32 that counts from 1.
pub record AttemptFailure : Type 0 where
  pub bead_id : Str
  pub generation : ℤ
  pub claim_token : Str
  pub attempt : ℕ
  pub code : Str

pub record HeartbeatCheckpoint : Type 0 where
  pub bead_id : Str
  pub generation : ℤ
  pub claim_token : Str
  pub session_id : Str
  pub sequence : ℤ
  pub phase : Str
  pub artifact_refs : List ArtifactRef
  pub artifact_refs_truncated : Bool

-- CheckpointPhaseAttached
abbrev pub checkpoint_phase_attached : Str
checkpoint_phase_attached = text "agent-attached"

-- CheckpointPhaseComplete
abbrev pub checkpoint_phase_complete : Str
checkpoint_phase_complete = text "agent-complete"

abbrev no_artifacts : List ArtifactRef → Bool
no_artifacts [] = true
no_artifacts (_ ∷ _) = false

-- validatePayload of HeartbeatCheckpoint
unfoldable pub validate_checkpoint : HeartbeatCheckpoint → Check
validate_checkpoint h = do
  require (not (leb_ℤ h.generation (pos 0) || ltb_ℤ h.sequence (pos 0))) heartbeat_out_of_range
  require
      (not (h.sequence == pos 0)
        || h.phase == checkpoint_phase_attached && no_artifacts h.artifact_refs)
      sequence_zero_reserved
  validate_segment "bead id" h.bead_id
  validate_segment "claim token" h.claim_token
  validate_segment "session id" h.session_id
  validate_segment "phase" h.phase
  check_all Artifact.validate h.artifact_refs

pub record ActivityResult : Type 0 where
  pub event_id : Str
  pub outcome : Outcome
  pub session_id : Str
  pub artifact_refs : List ArtifactRef
  pub artifact_refs_truncated : Bool

-- validatePayload of ActivityResult
unfoldable pub validate_result : ActivityResult → Check
validate_result r = do
  validate_segment "event id" r.event_id
  validate_segment "session id" r.session_id
  require (r.outcome == completed) activity_outcome_invalid
  check_all Artifact.validate r.artifact_refs
