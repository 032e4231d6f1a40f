-- ===== src/Contracts/Formula.antt =====
-- contracts.go: FormulaRef. formula_observability.go: FormulaActivityID.
use Prim.Native.String.{String}
use gas_city.Prelude.{
  ℕ, Bool, true, false, ◌||◌, not, [], ◌∷◌, ◌++◌, leb, length, Str, Str-discrete, text_eq, text, Eq,
  nat_eq, ℤ, pos, leb_ℤ, decimal,
}
use gas_city.Errors.{
  Check, Result, require, check_all, ◌>>◌, ok, segment_too_long, formula_hash_format,
  parent_run_without_workflow, generation_not_positive,
}
use gas_city.Contracts.Identifiers.{sha256_pattern, validate_segment, validate_workflow_id}

pub record FormulaRef : Type 0 where
  pub name : Str
  pub hash : Str
  pub version : Str
  pub root_id : Str
  pub step_key : Str
  pub rig : Str
  pub parent_workflow_id : Str
  pub parent_run_id : Str

unfoldable pub FormulaRef-discrete : Discrete FormulaRef
unfolding Str-discrete
FormulaRef-discrete = hlevel Str-discrete

instance abbrev pub formula_eq : Eq FormulaRef
formula_eq = record { dec = FormulaRef-discrete }

-- formulaSegmentLimit
abbrev pub formula_segment_limit : ℕ
formula_segment_limit = 96

validate_field : String × Str → Check
validate_field (label, value) = do
  validate_segment label value
  require (leb (length value) formula_segment_limit) (segment_too_long label)

-- A check that the code makes only of a text that is not empty.
abbrev unless_empty : Str → Check → Check
unless_empty [] check = ok tt
unless_empty (_ ∷ _) check = check

abbrev is_empty : Str → Bool
is_empty [] = true
is_empty (_ ∷ _) = false

unfoldable pub validate : FormulaRef → Check
unfolding validate_field
validate r = do
  check_all validate_field (
      ("formula name", r.name)
      ∷ ("formula version", r.version)
      ∷ ("formula root id", r.root_id)
      ∷ ("formula step key", r.step_key)
      ∷ ("formula rig", r.rig)
      ∷ [])
  require (sha256_pattern r.hash) formula_hash_format
  require (not (is_empty r.parent_workflow_id) || is_empty r.parent_run_id)
      parent_run_without_workflow
  unless_empty r.parent_workflow_id
      (validate_workflow_id "formula parent workflow id" r.parent_workflow_id)
  unless_empty r.parent_run_id (validate_segment "formula parent run id" r.parent_run_id)

-- FormulaActivityID
unfoldable pub activity_id : FormulaRef → ℤ → Result Str
activity_id formula generation = do
  validate formula
  require (not (leb_ℤ generation (pos 0))) generation_not_positive
  ok (
      text "formula/"
      ++ (formula.root_id ++ (b'/' ∷ (formula.step_key ++ (b'/' ∷ b'g' ∷ decimal generation)))))
