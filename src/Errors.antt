-- ===== src/Errors.antt =====
-- Go `error` values, one constructor for each `errors.New` and `fmt.Errorf` of the modelled code
-- (services/temporal-maintenance/internal/temporalbeads), and results with an error.
use Prim.Native.String.{String}
use gas_city.Prelude.{◌⊎◌, inl, inr, Str, ◌≡◌, refl, Bool, true, false, List, [], ◌∷◌, ℕ}

pub data Error : Type 0 where
  -- contracts.go
  unsupported_version : Error
  unstable_identifier : String → Error
  unstable_workflow_identifier : String → Error
  segment_too_long : String → Error
  formula_hash_format : Error
  parent_run_without_workflow : Error
  error_code_on_success : Error
  child_status_invalid : Error
  artifact_kind_not_allowed : Error
  artifact_uri_not_compact : Error
  artifact_scheme_not_allowed : Error
  artifact_sha256_format : Error
  generation_not_positive : Error
  ready_at_zero : Error
  event_id_mismatch : Error
  artifact_at : ℕ → Error → Error
  expected_event_ids_missing : Error
  duplicate_expected_event_id : Str → Error
  heartbeat_timeout_not_positive : Error
  event_limit_out_of_range : Error
  other_run : Error
  other_bead : Error
  phase_invalid : Error
  heartbeat_out_of_range : Error
  sequence_zero_reserved : Error
  activity_outcome_invalid : Error
  -- bead_store.go
  bead_not_found : Error
  stale_fence : Error
  lock_failed : Error
  read_failed : Error
  decode_failed : Error
  unsupported_store_version : Error
  store_maps_required : Error
  persist_failed : Error
  reload_after_ambiguous_write : Error → Error
  ready_generation_has_no_event : Error
  different_formula_snapshot : Error
  completion_conflict : Error
  completion_outcome_invalid : Error
  -- workflow.go and formula_observability.go
  outside_seal : Str → Error
  event_limit_exceeded : Error
  upsert_memo : Error
  upsert_search_attributes : Error
  -- bridge.go and reconciler.go
  not_configured : String → Error
  timing_invalid : Error
  gateway_failed : Error → Error
  mismatched_receipt : Error
  bead_id_required : Error
  state_decode_failed : Error
  receipt_query_failed : Error → Error
  source_failed : Error → Error
  redelivery_failed : Error → Error
  checkpoint_failed : Error → Error
  -- activity.go: errors of the Temporal SDK with their type, and wrapped errors
  non_retryable : String → Error
  canceled : Error
  application : String → Error
  claim_failed : Error → Error
  resolve_failed : Error → Error
  cancel_failed : Error → Error
  record_failure_failed : Error → Error
  completion_failed : Error → Error
  heartbeat_decode_failed : Error
  invalid_checkpoint : Error → Error
  session_changed : Error
  sequence_reused : Error
  sequence_not_monotonic : Error
  external : Str → Error
  -- outcome_contracts.go
  unsupported_outcome_version : Error
  fence_generation_not_positive : Error
  producer_invalid : Error
  store_ref_format : Error
  workflow_run_without_workflow : Error
  meaning_not_trimmed : String → Error
  meaning_too_long : String → Error
  meaning_control_characters : String → Error
  evidence_state_invalid : Error
  evidence_missing : Error
  evidence_too_long : Error
  occurred_at_zero : Error
  outcome_id_mismatch : Error
  -- outcome_store.go and outcome_activity.go
  outcome_not_found : Error
  conflicts_with_unacknowledged : Error
  generation_not_greater : Error
  not_newer : Error
  acknowledgement_conflicts : Error
  finalization_on_open_work : Error
  finalization_conflicts : Error
  closed_without_finalization : Error
  not_acknowledged : Error
  finalization_mismatch : Error
  delivery_ref_format : Error
  acknowledgement_store_ref : Error → Error
  finalization_store_ref : Error → Error
  producer_generation_not_positive : Error
  close_reason_invalid : Error
  finalization_version : Error
  finalization_timestamps : Error
  outcome_state_invalid : Error
  pending_at_zero : Error
  outbox_invalid : Error → Error
  metadata_malformed : Error
  configured_store_ref : Error → Error
  store_ref_mismatch : Error
  notification_failed : Error → Error
  record_delivery_failed : Error → Error
  record_acknowledgement_failed : Error → Error
  -- dolt_bead_store.go
  database : Bool → Error
  transaction_conflicted : Error → Error
  context_done : Error
  status_not_orchestratable : Error
  formula_snapshot_unreadable : Error → Error
  ready_event_invalid : Error → Error
  different_run : Error
  source_workflow_mismatch : Error
  outcome_not_built : Error → Error
  attempt_not_positive : Error
  -- legacy_outcome_reconciler.go
  rollout_epoch_required : Error
  legacy_store_ref : Error → Error
  rows_failed : String → Error → Error
  candidate_unreadable : String → Error → Error
  transition_unreadable : String → Error → Error
  event_value_unsupported : Error
  legacy_producer_invalid : Str → Error
  legacy_generation_invalid : Str → Error
  legacy_generation_exhausted : Error
  finalization_refused : Error → Error
  finalization_undecoded : String → Error → Error
  finalization_inexact : String → Error
  disposition_refused : Error → Error
  disposition_undecoded : Error → Error
  disposition_inexact : String → Error
  transition_failures : Error
  transition_not_found : Error
  -- outcome_reconciler.go
  outcome_signal_failed : Str → Error → Error
  outcome_describe_failed : Str → Error → Error
  outcome_no_execution_info : Str → Error
  outcome_workflow_ended : Str → Error
  pending_outcomes_failed : Error → Error
  pending_unsignalled : Str → Str → Error → Error
  discovery_failed : Error → Error
  discovery_incomplete : Error
  legacy_unpersisted : Str → Str → Error → Error
  legacy_unsignalled : Str → Str → Error → Error

pub data Result {ℓ} (A : Type ℓ) : Type ℓ where
  ok : A → Result A
  err : Error → Result A

-- A check: nil, or an error.
abbrev pub Check : Type 0
Check = Result (Unit {0})

infixl 5 ◌>>=◌ ◌>>◌
abbrev pub ◌>>=◌ {ℓ κ} : {A : Type ℓ} {B : Type κ} → Result A → (A → Result B) → Result B
err e >>= next = err e
ok a >>= next = next a

abbrev pub ◌>>◌ {ℓ} : {B : Type ℓ} → Check → Result B → Result B
m >> k = m >>= λ _. k

-- if !test { return e }
abbrev pub require : Bool → Error → Check
require true e = ok tt
require false e = err e

-- fmt.Errorf("…: %w", err)
abbrev pub wrap {ℓ} : {A : Type ℓ} → (Error → Error) → Result A → Result A
wrap f (ok a) = ok a
wrap f (err e) = err (f e)

-- for _, x := range xs { if err := check(x); err != nil { return err } }
abbrev pub check_all {ℓ} : {A : Type ℓ} → (A → Check) → List A → Check
check_all check [] = ok tt
check_all check (x ∷ xs) = check x >> check_all check xs

abbrev pub succeeds {ℓ} : {A : Type ℓ} → Result A → Bool
succeeds (ok a) = true
succeeds (err e) = false

-- A sequence of checks passes exactly when each does.
pub >>-ok {ℓ} :
    {B : Type ℓ} (m : Check) (k : Result B) {b : B} → (m >> k) ≡ ok b → (m ≡ ok tt) × (k ≡ ok b)
>>-ok (ok _) k h = (refl, h)
>>-ok (err e) k h = cc

pub Check-cases : (m : Check) → (m ≡ ok tt) ⊎ ((e : Error) × (m ≡ err e))
Check-cases (ok _) = inl refl
Check-cases (err e) = inr (e, refl)

pub err_not_ok {ℓ} : {A : Type ℓ} {e : Error} {a : A} → err e ≡ ok a → ⊥
err_not_ok h = cc

-- A chain that answers has a first step that answers, and the rest answers from there.
pub >>=-ok {ℓ κ} :
    {A : Type ℓ} {B : Type κ} (step : Result A) (rest : A → Result B) {out : B}
    → (step >>= rest) ≡ ok out
    → (middle : A) × (step ≡ ok middle) × (rest middle ≡ ok out)
>>=-ok (ok middle) rest h = (middle, refl, h)
>>=-ok (err e) rest h = cc

pub wrap-ok {ℓ} :
    {A : Type ℓ} (f : Error → Error) (m : Result A) {a : A} → wrap f m ≡ ok a → m ≡ ok a
wrap-ok f (ok a) h = h
wrap-ok f (err e) h = cc

pub ok_eq {ℓ} : {A : Type ℓ} {a b : A} → ok a ≡ ok b → a ≡ b
ok_eq h = cc

-- What a test demands holds where the code after it is reached.
pub require-ok {ℓ} :
    {B : Type ℓ} (b : Bool) (e : Error) (k : Result B) {out : B}
    → (require b e >> k) ≡ ok out
    → (b ≡ true) × (k ≡ ok out)
require-ok true e k h = (refl, h)
require-ok false e k h = absurd (err_not_ok h)
