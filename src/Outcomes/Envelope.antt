-- ===== src/Outcomes/Envelope.antt =====
-- outcome_contracts.go: the outcome envelope, its identity and its validation.
use gas_city.Prelude.{
  leb, if◌then◌else◌, length, take, ◌==◌, nat_eq, Str, text_eq, leb_ℤ, int_eq, ℤ, text,
  contains_any, is_trimmed, decimal, hex, sha256, pos, ℕ, Bool, true, false, ◌&&◌, ◌||◌, not, List,
  [], ◌∷◌, ◌++◌, json_text,
}
use Prim.Native.String.{String}
use gas_city.Errors.{
  Check, ◌>>◌, require, check_all, Result, ok, err, unsupported_outcome_version,
  fence_generation_not_positive, producer_invalid, store_ref_format, workflow_run_without_workflow,
  meaning_not_trimmed, meaning_too_long, meaning_control_characters, evidence_state_invalid,
  evidence_missing, evidence_too_long, occurred_at_zero, outcome_id_mismatch,
}
use gas_city.Contracts.Artifact
use gas_city.Contracts.Artifact.{ArtifactRef}
use gas_city.Contracts.Identifiers.{validate_workflow_id, validate_segment}
use gas_city.Contracts.Event.{is_zero, Time}

-- OutcomeProducerKind
pub data Producer : Type 0 where
  direct_worker formula_step project_lead maintenance_order temporal : Producer
  other : Str → Producer

-- OutcomeEvidenceState
pub data EvidenceState : Type 0 where
  terminal verified : EvidenceState
  other : Str → EvidenceState

-- OutcomeProducerFence
pub record Fence : Type 0 where
  pub producer_id : Str
  pub generation : ℤ
  pub token : Str

pub record OutcomeReady : Type 0 where
  pub contract_version : ℤ
  pub outcome_id : Str
  pub producer : Producer
  pub store_ref : Str
  pub work_id : Str
  pub source_root_id : Str
  pub workflow_id : Str
  pub workflow_run_id : Str
  pub step_key : Str
  pub summary : Str
  pub impact : Str
  pub state : EvidenceState
  pub evidence : List ArtifactRef
  pub fence : Fence
  pub occurred_at : Time

-- OutcomeAdapterInput
pub record AdapterInput : Type 0 where
  pub store_ref : Str
  pub work_id : Str
  pub source_root_id : Str
  pub workflow_id : Str
  pub workflow_run_id : Str
  pub step_key : Str
  pub summary : Str
  pub impact : Str
  pub state : EvidenceState
  pub evidence : List ArtifactRef
  pub fence : Fence
  pub occurred_at : Time

-- OutcomeContractVersion
abbrev pub outcome_contract_version : ℤ
outcome_contract_version = pos 1

-- MaxOutcomeEvidenceReferences
abbrev pub max_evidence : ℕ
max_evidence = 64

-- OutcomeProducerFence.Validate
unfoldable pub validate_fence : Fence → Check
validate_fence f = do
  validate_segment "outcome producer fence" f.producer_id
  require (not (leb_ℤ f.generation (pos 0))) fence_generation_not_positive
  validate_segment "outcome producer fence token" f.token

abbrev pub producer_text : Producer → Str
producer_text direct_worker = text "direct-worker"
producer_text formula_step = text "formula-step"
producer_text project_lead = text "project-lead"
producer_text maintenance_order = text "maintenance-order"
producer_text temporal = text "temporal"
producer_text (other s) = s

abbrev pub state_text : EvidenceState → Str
state_text terminal = text "terminal"
state_text verified = text "verified"
state_text (other s) = s

abbrev producer_known : Producer → Bool
producer_known (other s) = false
producer_known _ = true

abbrev state_known : EvidenceState → Bool
state_known (other s) = false
state_known _ = true

abbrev extend : ℕ → List Str → List Str
extend b [] = (b ∷ []) ∷ []
extend b (part ∷ parts) = (b ∷ part) ∷ parts

-- strings.Split(s, ":")
abbrev pub split_on : ℕ → Str → List Str
split_on c [] = [] ∷ []
split_on c (b ∷ s) = let parts = split_on c s in if b == c then [] ∷ parts else extend b parts

-- The parts of a store reference.
abbrev store_parts : List Str → Check
store_parts (scope ∷ id ∷ []) = do
  require (scope == text "city" || scope == text "rig") store_ref_format
  validate_segment "outcome store id" id
store_parts _ = err store_ref_format

-- validateStoreRef
unfoldable pub validate_store_ref : Str → Check
validate_store_ref s = store_parts (split_on b':' s)

-- validateOutcomeMeaning
unfoldable pub validate_meaning : String → Str → ℕ → Check
validate_meaning label value limit = do
  require (not (value == []) && is_trimmed value) (meaning_not_trimmed label)
  require (leb (length value) limit) (meaning_too_long label)
  require (not (contains_any value (0 ∷ 13 ∷ []))) (meaning_control_characters label)

abbrev fence_json : Fence → Str
fence_json f =
    text ",\"fence\":{\"producer_id\":"
    ++ (json_text f.producer_id
        ++ (text ",\"generation\":"
            ++ (decimal f.generation ++ (text ",\"token\":" ++ (json_text f.token ++ text "}}")))))

-- The JSON text that outcomeReadyID hashes.
unfoldable pub identity_json : OutcomeReady → Str
identity_json o =
    text "{\"contract_version\":"
    ++ (decimal o.contract_version
        ++ (text ",\"producer\":"
            ++ (json_text (producer_text o.producer)
                ++ (text ",\"store_ref\":"
                    ++ (json_text o.store_ref
                        ++ (text ",\"work_id\":"
                            ++ (json_text o.work_id
                                ++ (text ",\"state\":"
                                    ++ (json_text (state_text o.state)
                                        ++ fence_json o.fence)))))))))

-- outcomeReadyID
unfoldable pub outcome_ready_id : OutcomeReady → Str
unfolding identity_json
outcome_ready_id o = text "outcome-" ++ hex (take 16 (sha256 (identity_json o)))

-- The part of Validate about the workflow.
abbrev workflow_fields : OutcomeReady → Check
workflow_fields o =
    if o.workflow_id == []
    then require (o.workflow_run_id == []) workflow_run_without_workflow
    else (validate_workflow_id "outcome workflow id" o.workflow_id
        >> validate_segment "outcome workflow run id" o.workflow_run_id)

-- OutcomeReady.Validate
unfoldable pub validate : OutcomeReady → Check
unfolding validate_fence validate_meaning
validate o = do
  require (o.contract_version == outcome_contract_version) unsupported_outcome_version
  require (producer_known o.producer) producer_invalid
  validate_store_ref o.store_ref
  validate_segment "outcome work id" o.work_id
  validate_segment "outcome source root id" o.source_root_id
  validate_segment "outcome step key" o.step_key
  workflow_fields o
  validate_meaning "summary" o.summary 512
  validate_meaning "impact" o.impact 1024
  require (state_known o.state) evidence_state_invalid
  require (not (length o.evidence == 0)) evidence_missing
  require (leb (length o.evidence) max_evidence) evidence_too_long
  check_all Artifact.validate o.evidence
  validate_fence o.fence
  require (not (is_zero o.occurred_at)) occurred_at_zero
  require (o.outcome_id == outcome_ready_id o) outcome_id_mismatch

-- The envelope of newOutcomeReady before its identity is there.
abbrev pub envelope_of : Producer → AdapterInput → OutcomeReady
envelope_of producer i = record {
  contract_version = outcome_contract_version;
  outcome_id = [];
  producer = producer;
  store_ref = i.store_ref;
  work_id = i.work_id;
  source_root_id = i.source_root_id;
  workflow_id = i.workflow_id;
  workflow_run_id = i.workflow_run_id;
  step_key = i.step_key;
  summary = i.summary;
  impact = i.impact;
  state = i.state;
  evidence = i.evidence;
  fence = i.fence;
  occurred_at = i.occurred_at;
}

-- newOutcomeReady
unfoldable pub new_outcome_ready : Producer → AdapterInput → Result OutcomeReady
unfolding validate
new_outcome_ready producer i =
    let o = envelope_of producer i in
    let envelope = record o { outcome_id = outcome_ready_id o } in
    (validate envelope >> ok envelope)

-- DirectWorkerOutcome
abbrev pub direct_worker_outcome : AdapterInput → Result OutcomeReady
direct_worker_outcome = new_outcome_ready direct_worker

-- FormulaStepOutcome
abbrev pub formula_step_outcome : AdapterInput → Result OutcomeReady
formula_step_outcome = new_outcome_ready formula_step

-- ProjectLeadOutcome
abbrev pub project_lead_outcome : AdapterInput → Result OutcomeReady
project_lead_outcome = new_outcome_ready project_lead

-- MaintenanceOrderOutcome
abbrev pub maintenance_order_outcome : AdapterInput → Result OutcomeReady
maintenance_order_outcome = new_outcome_ready maintenance_order

-- TemporalOutcome
abbrev pub temporal_outcome : AdapterInput → Result OutcomeReady
temporal_outcome = new_outcome_ready temporal
