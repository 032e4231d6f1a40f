-- ===== src/Legacy/Metadata.antt =====
-- legacy_outcome_reconciler.go: issues, events and their metadata, and which of them hold an outcome.
use gas_city.Prelude.{
  if◌then◌else◌, ◌==◌, nat_eq, Str, text_eq, int_eq, text, Map, lookup, Bool, false, ◌&&◌, ◌||◌,
  not, Option, none, some, List, [], ◌∷◌,
}
use gas_city.Errors.{Error, Result, ok, err}
use gas_city.Canonical.Issue.{blank, malformed, coded, Coded}
use gas_city.Contracts.Event.{Time}
use gas_city.Legacy.Text.{trim_space, lowers_to, equal_fold}
use gas_city.Outcomes.Records.{OutcomeRecord}

-- A JSON value in the metadata: null, a string, or another with the text that `fmt.Sprint` gives it.
pub data Value : Type 0 where
  null : Value
  string : Str → Value
  printed : Str → Value

abbrev pub Metadata : Type 0
Metadata = Map Value

abbrev pub value_text : Option Value → Str
value_text none = []
value_text (some null) = []
value_text (some (string s)) = s
value_text (some (printed s)) = s

-- metadataString
unfoldable pub metadata_string : Metadata → Str → Str
metadata_string m key = value_text (lookup key m)

-- firstLegacyMetadata
unfoldable pub first_legacy_metadata : Metadata → List Str → Str
unfolding metadata_string
first_legacy_metadata m [] = []
first_legacy_metadata m (key ∷ keys) =
    let value = trim_space (metadata_string m key) in
    let rest = first_legacy_metadata m keys in if value == [] then rest else value

-- A metadata value that holds JSON of a type, as `decodeMetadataJSON` reads it.
abbrev pub coded_at {ℓ} : {A : Type ℓ} → (Str → Result A) → Metadata → Str → Coded A
coded_at decode m key =
    let raw = metadata_string m key in
    if raw == [] then blank else elim (decode raw) [ ok a ↦ coded a | err _ ↦ malformed ]

-- legacyOutcomeIssue
pub record LegacyIssue : Type 0 where
  pub id : Str
  pub title : Str
  pub issue_type : Str
  pub status : Str
  pub close_reason : Str
  pub metadata : Metadata
  pub has_downstream_formula_step : Bool
  pub existing : Option OutcomeRecord

-- legacyOutcomeEvent
pub record LegacyEvent : Type 0 where
  pub id : Str
  pub event_type : Str
  pub actor : Str
  pub new_value : Str
  pub created_at : Time
  pub old_status : Str
  pub old_metadata : Metadata
  pub status : Str
  pub metadata : Metadata

-- legacyOutcomeFailure; the transition is empty and its time zero where there is none.
pub record LegacyFailure : Type 0 where
  pub work_id : Str
  pub transition_id : Str
  pub transition_at : Time
  pub error : Error

-- isPassingOutcomeValue of strings.ToLower
abbrev is_passing : Str → Bool
is_passing s =
    lowers_to s (text "pass")
    || (lowers_to s (text "passed")
        || (lowers_to s (text "branch-ready")
            || (lowers_to s (text "completed") || lowers_to s (text "verified"))))

abbrev is_synthetic : Metadata → Bool
is_synthetic m = equal_fold (trim_space (metadata_string m (text "gc.synthetic"))) (text "true")

abbrev has_verdict : Metadata → List Str → Bool
has_verdict m [] = false
has_verdict m (key ∷ keys) = equal_fold (metadata_string m key) (text "pass") || has_verdict m keys

-- A review passed, or the outcome is one of the passing values.
unfoldable pub has_verified_outcome : Metadata → Bool
unfolding metadata_string
has_verified_outcome m =
    has_verdict m
      (text "evidence.reviewer_verdict" ∷ text "review_verdict" ∷ text "reviewer_verdict" ∷ [])
    || (is_passing (metadata_string m (text "gc.outcome"))
        || is_passing (metadata_string m (text "gc.work_outcome")))

-- The metadata is that of a step of a formula.
abbrev pub names_step : Metadata → Bool
names_step m =
    not (first_legacy_metadata m (text "gc.step_ref" ∷ []) == [])
    && not (first_legacy_metadata m (text "gc.root_bead_id" ∷ []) == [])

-- legacySnapshotHasOutcome
unfoldable pub has_outcome : Str → Metadata → Bool
unfolding has_verified_outcome
has_outcome status m =
    not (is_synthetic m)
    && (has_verified_outcome m || (status == text "closed" && not (names_step m)))

-- legacyConvoyAutocloseReason
abbrev convoy_autoclose_reason : Str
convoy_autoclose_reason = text "convoy autoclose: all children closed"

-- legacyIssueIsSynthetic
unfoldable pub issue_is_synthetic : LegacyIssue → Bool
issue_is_synthetic i =
    is_synthetic i.metadata
    || (i.issue_type == text "convoy" && i.close_reason == convoy_autoclose_reason)

-- legacyIssueIsNonTerminalFormulaStep
unfoldable pub is_non_terminal_step : LegacyIssue → Bool
is_non_terminal_step i = i.has_downstream_formula_step && names_step i.metadata
