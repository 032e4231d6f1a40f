-- ===== src/Contracts/Event.antt =====
-- contracts.go: ReadyEvent, its construction and validation.
use gas_city.Prelude.{
  ℕ, ◌+◌, Bool, true, ◌&&◌, ◌||◌, not, List, [], ◌∷◌, Str, ◌==◌, text_eq, nat_eq, int_eq, ℤ, pos,
  leb_ℤ, if◌then◌else◌,
}
use gas_city.Errors.{
  Check, Result, require, wrap, ◌>>◌, ok, unsupported_version, generation_not_positive,
  ready_at_zero, event_id_mismatch, artifact_at, other_run, other_bead,
}
use gas_city.Contracts.Identifiers.{current_contract_version, validate_segment, ready_event_id}
use gas_city.Contracts.Artifact
use gas_city.Contracts.Artifact.{ArtifactRef}
use gas_city.Contracts.Formula
use gas_city.Contracts.Formula.{FormulaRef}

-- Instants, counted from Go's zero `time.Time`; `UTC()` changes only the way they print.
abbrev pub Time : Type 0
Time = ℕ

abbrev pub is_zero : Time → Bool
is_zero t = t == 0

pub record ReadyEvent : Type 0 where
  pub contract_version : ℤ
  pub event_id : Str
  pub city_id : Str
  pub run_id : Str
  pub bead_id : Str
  pub generation : ℤ
  pub formula : FormulaRef
  pub ready_at : Time
  pub artifacts : List ArtifactRef

-- The loop over the artifacts, which names the index of the first that fails.
validate_artifacts : ℕ → List ArtifactRef → Check
validate_artifacts index [] = ok tt
validate_artifacts index (a ∷ rest) = do
  wrap (artifact_at index) (Artifact.validate a)
  validate_artifacts (index + 1) rest

-- validate(requireFormula)
unfoldable pub validate_with : Bool → ReadyEvent → Check
unfolding validate_artifacts
validate_with require_formula e = do
  require (e.contract_version == current_contract_version) unsupported_version
  validate_segment "event id" e.event_id
  validate_segment "city id" e.city_id
  validate_segment "run id" e.run_id
  validate_segment "bead id" e.bead_id
  require (not (leb_ℤ e.generation (pos 0))) generation_not_positive
  require (not (is_zero e.ready_at)) ready_at_zero
  if require_formula then Formula.validate e.formula else ok tt
  require (e.event_id == ready_event_id e.city_id e.run_id e.bead_id e.generation) event_id_mismatch
  validate_artifacts 0 e.artifacts

unfoldable pub validate : ReadyEvent → Check
unfolding validate_with
validate e = validate_with true e

abbrev pub event_of : Str → Str → Str → ℤ → FormulaRef → Time → ReadyEvent
event_of city_id run_id bead_id generation formula ready_at = record {
  contract_version = current_contract_version;
  event_id = ready_event_id city_id run_id bead_id generation;
  city_id = city_id;
  run_id = run_id;
  bead_id = bead_id;
  generation = generation;
  formula = formula;
  ready_at = ready_at;
  artifacts = [];
}

-- NewReadyEvent
unfoldable pub new_ready_event : Str → Str → Str → ℤ → FormulaRef → Time → Result ReadyEvent
unfolding validate
new_ready_event city_id run_id bead_id generation formula ready_at = do
  let event = event_of city_id run_id bead_id generation formula ready_at
  validate event
  ok event

-- validateEventForRun
unfoldable pub validate_for_run : Str → Str → Str → ReadyEvent → Bool → Check
unfolding validate_with
validate_for_run city_id run_id bead_id event require_formula = do
  validate_with require_formula event
  require (event.city_id == city_id && event.run_id == run_id) other_run
  require (bead_id == [] || event.bead_id == bead_id) other_bead
