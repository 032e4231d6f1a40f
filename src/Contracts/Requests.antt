-- ===== src/Contracts/Requests.antt =====
-- contracts.go: CloseRequest, WorkflowInput and WorkflowState. clock.go: TimingConfig.
use gas_city.Prelude.{
  ℕ, Bool, true, false, ◌&&◌, ◌||◌, not, List, [], ◌∷◌, ◌++◌, Str, ◌==◌, text_eq, nat_eq, int_eq, ℤ,
  pos, leb_ℤ, if◌then◌else◌, Option, none, some,
}
use gas_city.Errors.{
  Check, require, check_all, ◌>>◌, ok, unsupported_version, expected_event_ids_missing,
  duplicate_expected_event_id, heartbeat_timeout_not_positive, event_limit_out_of_range,
  phase_invalid, timing_invalid,
}
use gas_city.Contracts.Identifiers.{current_contract_version, validate_segment}
use gas_city.Contracts.Event.{ReadyEvent, Time, validate_for_run}

-- DefaultEventLimit
abbrev pub default_event_limit : ℕ
default_event_limit = 1024

-- A set of event ids, as the list of its members (`map[string]struct{}`).
abbrev pub member : Str → List Str → Bool
member s [] = false
member s (x ∷ xs) = x == s || member s xs

pub record CloseRequest : Type 0 where
  pub contract_version : ℤ
  pub city_id : Str
  pub run_id : Str
  pub bead_id : Str
  pub expected_event_ids : List Str
  pub reason_code : Str

-- The loop over the expected ids, with the ids seen so far.
check_distinct : List Str → List Str → Check
check_distinct seen [] = ok tt
check_distinct seen (id ∷ ids) = do
  validate_segment "event id" id
  require (not (member id seen)) (duplicate_expected_event_id id)
  check_distinct (id ∷ seen) ids

abbrev is_empty {ℓ} : {A : Type ℓ} → List A → Bool
is_empty [] = true
is_empty (_ ∷ _) = false

abbrev bead_if_set : Str → Check
bead_if_set [] = ok tt
bead_if_set (b ∷ s) = validate_segment "bead id" (b ∷ s)

-- validatePayload of CloseRequest
unfoldable pub validate_close : CloseRequest → Check
unfolding check_distinct
validate_close r = do
  require (r.contract_version == current_contract_version) unsupported_version
  validate_segment "city id" r.city_id
  validate_segment "run id" r.run_id
  bead_if_set r.bead_id
  validate_segment "reason code" r.reason_code
  require (not (is_empty r.expected_event_ids)) expected_event_ids_missing
  check_distinct [] r.expected_event_ids

-- Durations and the limit are signed.
pub record WorkflowInput : Type 0 where
  pub contract_version : ℤ
  pub city_id : Str
  pub run_id : Str
  pub bead_id : Str
  pub initial_ready : List ReadyEvent
  pub close_when_idle : Bool
  pub search_attributes : Bool
  pub heartbeat_timeout : ℤ
  pub event_limit : ℤ

-- validate(requireFormula) of WorkflowInput
unfoldable pub validate_input : Bool → WorkflowInput → Check
validate_input require_formula i = do
  require (i.contract_version == current_contract_version) unsupported_version
  validate_segment "city id" i.city_id
  validate_segment "run id" i.run_id
  if require_formula then validate_segment "bead id" i.bead_id else bead_if_set i.bead_id
  require (not (leb_ℤ i.heartbeat_timeout (pos 0))) heartbeat_timeout_not_positive
  require (leb_ℤ (pos 0) i.event_limit && leb_ℤ i.event_limit (pos default_event_limit))
      event_limit_out_of_range
  check_all (λ e. validate_for_run i.city_id i.run_id i.bead_id e require_formula) i.initial_ready

pub data Phase : Type 0 where
  running completed failed : Phase
  other : Str → Phase

-- The codes that a workflow stores in `LastErrorCode`; `no_code` is the empty text.
pub data ErrorCode : Type 0 where
  no_code workflow_canceled invalid_close_request invalid_ready_event : ErrorCode
  activity_failed invalid_activity_result invalid_parent_link parent_signal_failed : ErrorCode

pub record WorkflowState : Type 0 where
  pub contract_version : ℤ
  pub city_id : Str
  pub run_id : Str
  pub bead_id : Str
  pub phase : Phase
  pub received_event_ids : List Str
  pub completed_event_ids : List Str
  pub failed_event_ids : List Str
  pub last_error_code : ErrorCode

abbrev phase_known : Phase → Bool
phase_known (other s) = false
phase_known _ = true

-- validatePayload of WorkflowState
unfoldable pub validate_state : WorkflowState → Check
validate_state s = do
  require (s.contract_version == current_contract_version) unsupported_version
  validate_segment "city id" s.city_id
  validate_segment "run id" s.run_id
  bead_if_set s.bead_id
  require (phase_known s.phase) phase_invalid
  check_all (validate_segment "event id")
      (s.received_event_ids ++ (s.completed_event_ids ++ s.failed_event_ids))

-- TimingConfig; `clock` is what `Clock.Now()` returns, if there is a clock.
pub record TimingConfig : Type 0 where
  pub heartbeat_timeout : ℤ
  pub reconcile_interval : ℤ
  pub clock : Option Time

-- time.Minute, in nanoseconds
abbrev pub minute : ℤ
minute = pos 60000000000

abbrev pub has_clock : Option Time → Bool
has_clock none = false
has_clock (some _) = true

-- TimingConfig.Validate
unfoldable pub validate_timing : TimingConfig → Check
validate_timing c = do
  require (not (leb_ℤ c.heartbeat_timeout (pos 0))) timing_invalid
  require (not (leb_ℤ c.reconcile_interval (pos 0))) timing_invalid
  require (has_clock c.clock) timing_invalid

-- defaultTimingConfig, at what the real clock shows.
abbrev pub default_timing_config : Time → TimingConfig
default_timing_config now = record {
  heartbeat_timeout = minute;
  reconcile_interval = minute;
  clock = some now;
}
