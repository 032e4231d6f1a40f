-- ===== src/Worker/Tracker.antt =====
-- activity.go: heartbeatTracker. `sent` is what it gave to `activity.RecordHeartbeat`, newest first.
use gas_city.Prelude.{
  if◌then◌else◌, ◌==◌, nat_eq, Str, text_eq, ltb_ℤ, int_eq, ℤ, pos, false, ◌&&◌, ◌||◌, Option, none,
  some, List, [], ◌∷◌,
}
use gas_city.Errors.{
  ◌>>◌, require, wrap, check_all, Result, ok, err, invalid_checkpoint, session_changed,
  sequence_reused, sequence_not_monotonic,
}
use gas_city.Contracts.Artifact
use gas_city.Contracts.Artifact.{artifacts_eq, ArtifactRef}
use gas_city.Contracts.Payloads.{
  checkpoint_phase_attached, validate_checkpoint, HeartbeatCheckpoint, ClaimLease,
}
use gas_city.Worker.Interface.{AgentProgress}
use gas_city.Contracts.Event.{ReadyEvent}

-- heartbeatTracker
pub record HeartbeatTracker : Type 0 where
  pub event : ReadyEvent
  pub lease : ClaimLease
  pub session_id : Str
  pub sequence : ℤ
  pub phase : Str
  pub artifacts : List ArtifactRef
  pub sent : List HeartbeatCheckpoint

-- newHeartbeatTracker
unfoldable pub new_tracker :
    ReadyEvent → ClaimLease → Option HeartbeatCheckpoint → Str → HeartbeatTracker
new_tracker event lease none session_id = record {
  event = event;
  lease = lease;
  session_id = session_id;
  sequence = pos 0;
  phase = checkpoint_phase_attached;
  artifacts = [];
  sent = [];
}
new_tracker event lease (some resume) session_id = record {
  event = event;
  lease = lease;
  session_id = resume.session_id;
  sequence = resume.sequence;
  phase = resume.phase;
  artifacts = resume.artifact_refs;
  sent = [];
}

-- The checkpoint that Heartbeat sends.
abbrev pub snapshot : HeartbeatTracker → HeartbeatCheckpoint
snapshot t = record {
  bead_id = t.event.bead_id;
  generation = t.event.generation;
  claim_token = t.lease.token;
  session_id = t.session_id;
  sequence = t.sequence;
  phase = t.phase;
  artifact_refs = t.artifacts;
  artifact_refs_truncated = false;
}

-- Heartbeat
abbrev pub heartbeat : HeartbeatTracker → HeartbeatTracker
heartbeat t = record t { sent = snapshot t ∷ t.sent }

abbrev pub advanced : AgentProgress → HeartbeatTracker → HeartbeatTracker
advanced p t = record t {
  session_id = p.session_id;
  sequence = p.sequence;
  phase = p.phase;
  artifacts = p.artifact_refs;
}

-- Record, where the checkpoint is valid and of the session.
abbrev pub advance : AgentProgress → HeartbeatTracker → Result HeartbeatTracker
advance p t =
    if p.sequence == t.sequence
    then (if p.phase == t.phase && p.artifact_refs == t.artifacts
        then ok t
        else err sequence_reused)
    else if ltb_ℤ p.sequence t.sequence
    then err sequence_not_monotonic
    else (check_all Artifact.validate p.artifact_refs >> ok (heartbeat (advanced p t)))

-- Record: the tracker after it, or an error, which leaves the tracker as it is.
unfoldable pub record_progress : AgentProgress → HeartbeatTracker → Result HeartbeatTracker
record_progress p t = do
  wrap invalid_checkpoint (validate_checkpoint (snapshot (advanced p t)))
  require (t.session_id == [] || p.session_id == t.session_id) session_changed
  advance p t

abbrev pub kept_or : HeartbeatTracker → Result HeartbeatTracker → HeartbeatTracker
kept_or t (ok t') = t'
kept_or t (err e) = t

-- The reports of an agent, in their order.
unfoldable pub records : List AgentProgress → HeartbeatTracker → HeartbeatTracker
unfolding record_progress
records [] t = t
records (p ∷ ps) t = records ps (kept_or t (record_progress p t))
