-- ===== src/Outcomes/Records.antt =====
-- outcome_store.go: the records of an outcome and the validation of what is asked of them.
use gas_city.Prelude.{
  leb, length, ◌==◌, nat_eq, Str, text_eq, ==-refl, leb_ℤ, int_eq, ℤ, text, contains, any_prefix,
  spaces, decimal, pos, ℕ, zero, suc, ◌≡◌, refl, Bool, true, false, ◌&&◌, not, List, [], ◌∷◌, arith,
  rest_of, valid_utf8, json_text, width,
}
use gas_city.Errors.{
  Check, ◌>>◌, require, wrap, delivery_ref_format, acknowledgement_store_ref,
  finalization_store_ref, producer_generation_not_positive, close_reason_invalid,
  finalization_version, finalization_timestamps,
}
use gas_city.Contracts.Artifact
use gas_city.Outcomes.Envelope.{OutcomeReady, validate_store_ref, producer_text, state_text}
use gas_city.Contracts.Artifact.{ArtifactKind, ArtifactRef}
use gas_city.Contracts.Event.{is_zero, Time}
use gas_city.Contracts.Identifiers.{validate_segment, uri_pattern}

-- OutcomeCoordinatorState
pub data CoordinatorState : Type 0 where
  pending needs_ack acknowledged : CoordinatorState
  other : Str → CoordinatorState

pub record OutcomeRecord : Type 0 where
  pub envelope : OutcomeReady
  pub state : CoordinatorState
  pub pending_at : Time
  pub delivered_at : Time
  pub acknowledged_at : Time
  pub delivery_ref : Str
  pub coordinator_fence : Str
  pub acknowledged_by : Str

pub record OutcomeDelivery : Type 0 where
  pub outcome_id : Str
  pub work_id : Str
  pub delivery_ref : Str
  pub coordinator_fence : Str

pub record OutcomeAcknowledgement : Type 0 where
  pub store_ref : Str
  pub outcome_id : Str
  pub work_id : Str
  pub coordinator_fence : Str
  pub acknowledged_by : Str

-- OutcomeFinalizationRequest
pub record FinalizationRequest : Type 0 where
  pub store_ref : Str
  pub outcome_id : Str
  pub work_id : Str
  pub producer_generation : ℤ
  pub producer_token : Str
  pub coordinator_fence : Str
  pub finalized_by : Str
  pub close_reason : Str

-- OutcomeFinalizationReceipt
pub record FinalizationReceipt : Type 0 where
  pub contract_version : ℤ
  pub store_ref : Str
  pub outcome_id : Str
  pub work_id : Str
  pub producer_generation : ℤ
  pub producer_token : Str
  pub coordinator_fence : Str
  pub acknowledged_at : Time
  pub acknowledged_by : Str
  pub finalized_at : Time
  pub finalized_by : Str
  pub close_reason : Str

-- validateOutcomeDelivery
unfoldable pub validate_delivery : OutcomeDelivery → Check
validate_delivery d = do
  validate_segment "outcome id" d.outcome_id
  validate_segment "outcome work id" d.work_id
  validate_segment "outcome coordinator fence" d.coordinator_fence
  require (leb (length d.delivery_ref) 512 && uri_pattern d.delivery_ref) delivery_ref_format

-- The delivery that the validations of an acknowledgement and of a finalization check.
abbrev as_delivery : Str → Str → Str → Str → OutcomeDelivery
as_delivery outcome_id work_id fence ref = record {
  outcome_id = outcome_id;
  work_id = work_id;
  delivery_ref = ref;
  coordinator_fence = fence;
}

-- validateOutcomeAcknowledgement
unfoldable pub validate_acknowledgement : OutcomeAcknowledgement → Check
unfolding validate_delivery
validate_acknowledgement a = do
  wrap acknowledgement_store_ref (validate_store_ref a.store_ref)
  validate_delivery
      (as_delivery a.outcome_id a.work_id a.coordinator_fence (text "local:ack-validation"))
  validate_segment "outcome acknowledged by" a.acknowledged_by

-- `strings.TrimSpace(s) == ""`, with the bytes of the present encoding that are left.
blank_from : ℕ → Str → Bool
blank_from n [] = true
blank_from (suc n) (b ∷ s) = blank_from n s
blank_from zero (b ∷ s) = any_prefix spaces (b ∷ s) && blank_from (rest_of (width b s)) s

-- validateOutcomeCloseReason
unfoldable pub validate_close_reason : Str → Check
unfolding blank_from
validate_close_reason reason = do
  require (valid_utf8 reason) close_reason_invalid
  require (not (blank_from 0 reason) && leb (length reason) 512) close_reason_invalid
  require (not (contains reason 0)) close_reason_invalid

-- validateOutcomeFinalizationRequest
unfoldable pub validate_finalization : FinalizationRequest → Check
unfolding validate_close_reason
validate_finalization r = do
  wrap finalization_store_ref (validate_store_ref r.store_ref)
  validate_delivery (
      as_delivery r.outcome_id r.work_id r.coordinator_fence (text "local:finalization-validation"))
  require (not (leb_ℤ r.producer_generation (pos 0))) producer_generation_not_positive
  validate_segment "outcome finalization producer token" r.producer_token
  validate_segment "outcome finalized by" r.finalized_by
  validate_close_reason r.close_reason

abbrev request_of : FinalizationReceipt → FinalizationRequest
request_of r = record {
  store_ref = r.store_ref;
  outcome_id = r.outcome_id;
  work_id = r.work_id;
  producer_generation = r.producer_generation;
  producer_token = r.producer_token;
  coordinator_fence = r.coordinator_fence;
  finalized_by = r.finalized_by;
  close_reason = r.close_reason;
}

-- validateOutcomeFinalizationReceipt
unfoldable pub validate_receipt : FinalizationReceipt → Check
unfolding validate_finalization
validate_receipt r = do
  require (r.contract_version == pos 1) finalization_version
  validate_finalization (request_of r)
  require (not (is_zero r.acknowledged_at)) finalization_timestamps
  validate_segment "outcome finalization acknowledged by" r.acknowledged_by
  require (not (is_zero r.finalized_at)) finalization_timestamps

abbrev kind_text : ArtifactKind → Str
kind_text Artifact.commit = text "commit"
kind_text Artifact.patch = text "patch"
kind_text Artifact.review_record = text "review-record"
kind_text Artifact.test_report = text "test-report"
kind_text (Artifact.other s) = s

abbrev evidence_texts : List ArtifactRef → List Str
evidence_texts [] = []
evidence_texts (a ∷ as') =
    json_text (kind_text a.kind) ∷ json_text a.uri ∷ json_text a.sha256 ∷ evidence_texts as'

-- The members of the JSON object of an envelope, less the time.
abbrev outcome_texts : OutcomeReady → List Str
outcome_texts o =
    decimal o.contract_version
    ∷ json_text o.outcome_id
    ∷ json_text (producer_text o.producer)
    ∷ json_text o.store_ref
    ∷ json_text o.work_id
    ∷ json_text o.source_root_id
    ∷ json_text o.workflow_id
    ∷ json_text o.workflow_run_id
    ∷ json_text o.step_key
    ∷ json_text o.summary
    ∷ json_text o.impact
    ∷ json_text (state_text o.state)
    ∷ json_text o.fence.producer_id
    ∷ decimal o.fence.generation
    ∷ json_text o.fence.token
    ∷ evidence_texts o.evidence

texts_equal : List Str → List Str → Bool
texts_equal [] [] = true
texts_equal (s ∷ ss) (t ∷ ts) = s == t && texts_equal ss ts
texts_equal _ _ = false

-- outcomesEqual: the JSON objects are equal, member by member.
unfoldable pub outcomes_equal : OutcomeReady → OutcomeReady → Bool
unfolding texts_equal
outcomes_equal left right =
    texts_equal (outcome_texts left) (outcome_texts right) && left.occurred_at == right.occurred_at

texts_equal_refl : (ss : List Str) → texts_equal ss ss ≡ true
unfolding texts_equal
texts_equal_refl [] = refl
texts_equal_refl (s ∷ ss) = rw (==-refl) (texts_equal_refl ss)

pub outcomes_equal_refl : (o : OutcomeReady) → outcomes_equal o o ≡ true
unfolding outcomes_equal
outcomes_equal_refl o = ground (arith, texts_equal_refl (outcome_texts o))
