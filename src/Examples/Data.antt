-- ===== src/Examples/Data.antt =====
-- Data that the runs share.
use gas_city.Prelude.{
  Str-discrete, ℤ-discrete, text, is_trimmed, decimal, sha256, pos, ℕ, ◌≡◌, false, [], arith,
  ℕ_discrete,
}
use gas_city.Errors.{ok}
use gas_city.Contracts.Formula
use gas_city.Contracts.Event.{validate_with, ReadyEvent, validate, event_of, is_zero}
use gas_city.Contracts.Formula.{FormulaRef}
use gas_city.Contracts.Identifiers.{
  validate_segment, segment_pattern, ready_event_id, sha256_pattern,
}

abbrev pub formula : FormulaRef
formula = record {
  name = text "build";
  hash = text "ba7816bf8f01cfea414140de5dae2223b00361a396177a9cb410ff61f20015ad";
  version = text "v1";
  root_id = text "root";
  step_key = text "step";
  rig = text "rig";
  parent_workflow_id = [];
  parent_run_id = [];
}

abbrev pub event_at : ℕ → ReadyEvent
event_at t = event_of (text "city") (text "run") (text "bead") (pos 1) formula t

-- Both events are valid, with the identity that the code computes.
pub sound : (t : ℕ) → is_zero t ≡ false → validate (event_at t) ≡ ok tt
unfolding validate validate_with Formula.validate validate_segment segment_pattern is_trimmed
    ℕ_discrete Str-discrete ℤ-discrete ready_event_id sha256 decimal sha256_pattern
sound t h = ground arith
