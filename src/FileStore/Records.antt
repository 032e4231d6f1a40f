-- ===== src/FileStore/Records.antt =====
-- bead_store.go: the records of the store, `claimToken`, `leaseFromRecord` and `matchesFence`.
-- A copy of a slice (`cloneBeadRecord`, `cloneReadyEvent`, `cloneArtifacts`) is the same list.
use gas_city.Prelude.{
  Bool, ◌&&◌, not, List, [], ◌∷◌, ◌++◌, Str, ◌==◌, text_eq, text, nat_eq, int_eq, ℤ, take, hex,
  sha256, decimal, Map, Option,
}
use gas_city.Contracts.Identifiers.{joined}
use gas_city.Contracts.Artifact.{ArtifactRef}
use gas_city.Contracts.Formula.{FormulaRef}
use gas_city.Contracts.Event.{ReadyEvent, Time, is_zero}
use gas_city.Contracts.Payloads.{Outcome, AttemptFailure, ClaimRequest, ClaimLease}

pub data BeadStatus : Type 0 where
  ready claimed completed : BeadStatus
  other : Str → BeadStatus

pub record BeadRecord : Type 0 where
  pub city_id : Str
  pub run_id : Str
  pub bead_id : Str
  pub generation : ℤ
  pub formula : FormulaRef
  pub status : BeadStatus
  pub workflow_id : Str
  pub claim_token : Str
  pub session_id : Str
  pub outcome : Outcome
  pub artifact_refs : List ArtifactRef
  pub attempt_failures : List AttemptFailure

pub record OutboxRecord : Type 0 where
  pub event : ReadyEvent
  pub acknowledged_at : Time
  pub superseded_at : Time

-- An outbox record that waits for delivery.
abbrev pub is_pending : OutboxRecord → Bool
is_pending r = is_zero r.acknowledged_at && is_zero r.superseded_at

-- `fileState`; `none` is a nil map.
pub record FileState : Type 0 where
  pub version : ℤ
  pub beads : Option (Map BeadRecord)
  pub outbox : Option (Map OutboxRecord)

-- claimToken
unfoldable pub claim_token : ClaimRequest → Str
claim_token r =
    text "claim-"
    ++ hex (take 16 (sha256 (joined (r.bead_id ∷ decimal r.generation ∷ r.workflow_id ∷ []))))

-- leaseFromRecord
abbrev pub lease_from_record : BeadRecord → Bool → ClaimLease
lease_from_record r acquired = record {
  bead_id = r.bead_id;
  generation = r.generation;
  token = r.claim_token;
  acquired = acquired;
}

-- matchesFence
abbrev pub matches_fence : BeadRecord → ℤ → Str → Bool
matches_fence r generation token =
    r.generation == generation && (not (r.claim_token == []) && r.claim_token == token)
