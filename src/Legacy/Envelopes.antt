-- ===== src/Legacy/Envelopes.antt =====
-- legacy_outcome_reconciler.go: the envelope of an event.
use gas_city.Prelude.{
  ltb, if◌then◌else◌, length, ◌==◌, nat_eq, Str, text_eq, leb_ℤ, increment, int_eq, ℤ, text,
  has_prefix, hex, lookup, insert, sha256, pos, ◌&&◌, ◌||◌, not, Option, none, some, List, [], ◌∷◌,
  ◌++◌,
}
use gas_city.Errors.{
  ◌>>=◌, Result, ok, err, legacy_producer_invalid, legacy_generation_invalid,
  legacy_generation_exhausted,
}
use gas_city.Outcomes.Envelope.{
  direct_worker, formula_step, project_lead, maintenance_order, terminal, verified, Producer,
  AdapterInput, producer_text, OutcomeReady, direct_worker_outcome, formula_step_outcome,
  project_lead_outcome, maintenance_order_outcome,
}
use gas_city.Contracts.Artifact
use gas_city.Outcomes.Records.{OutcomeRecord}
use gas_city.Legacy.Metadata.{
  Metadata, LegacyIssue, first_legacy_metadata, metadata_string, LegacyEvent,
}
use gas_city.Canonical.Outbox.{is_acknowledged}
use gas_city.Contracts.Artifact.{ArtifactRef}
use gas_city.Legacy.Text.{parse_int, trim_space}

abbrev stable_keys : List Str
stable_keys =
    text "gc.outcome.producer"
    ∷ text "dispatch.formula"
    ∷ text "gc.formula_name"
    ∷ text "gc.formula.name"
    ∷ text "gc.order.name"
    ∷ text "order.name"
    ∷ text "gc.outcome.source_root_id"
    ∷ text "gc.root_bead_id"
    ∷ text "dispatch.root_id"
    ∷ text "gc.formula.root_id"
    ∷ text "gc.outcome.step_key"
    ∷ text "gc.step_ref"
    ∷ text "dispatch.step"
    ∷ text "gc.formula.step_key"
    ∷ text "gc.outcome.generation"
    ∷ text "gc.claim_generation"
    ∷ text "gc.temporal.generation"
    ∷ []

-- A key that the event lacks is taken from the issue.
abbrev filled_from : Metadata → Str → Metadata → Metadata
filled_from current key merged = elim (lookup key merged) [
  | some _ ↦ merged
  | none ↦ elim (lookup key current) [ some v ↦ insert key v merged | none ↦ merged ]
]

abbrev filled : Metadata → List Str → Metadata → Metadata
filled current [] merged = merged
filled current (key ∷ keys) merged = filled current keys (filled_from current key merged)

-- legacyStableTransitionMetadata
unfoldable pub stable_metadata : Metadata → Metadata → Metadata
stable_metadata event current = filled current stable_keys event

abbrev explicit_producer : Str → Result Producer
explicit_producer s =
    if s == text "direct-worker"
    then ok direct_worker
    else if s == text "formula-step"
    then ok formula_step
    else if s == text "project-lead"
    then ok project_lead
    else if s == text "maintenance-order"
    then ok maintenance_order
    else err (legacy_producer_invalid s)

abbrev implicit_producer : Metadata → Str → Producer
implicit_producer m actor =
    if not (
      first_legacy_metadata m (
        text "dispatch.formula"
        ∷ text "gc.formula_name"
        ∷ text "gc.formula.name"
        ∷ text "gc.step_ref"
        ∷ [])
      == [])
    then formula_step
    else if not (first_legacy_metadata m (text "gc.order.name" ∷ text "order.name" ∷ []) == [])
        || has_prefix (text "order:") actor
    then maintenance_order
    else direct_worker

-- classifyLegacyOutcomeProducer
unfoldable pub classify_producer : Metadata → Str → Result Producer
classify_producer m actor =
    let explicit = first_legacy_metadata m (text "gc.outcome.producer" ∷ []) in
    if explicit == [] then ok (implicit_producer m actor) else explicit_producer explicit

abbrev positive : Str → Option ℤ → Result ℤ
positive value none = err (legacy_generation_invalid value)
positive value (some n) = if leb_ℤ n (pos 0) then err (legacy_generation_invalid value) else ok n

abbrev first_generation : Metadata → List Str → Result ℤ
first_generation m [] = ok (pos 1)
first_generation m (key ∷ keys) =
    let value = metadata_string m key in
    let rest = first_generation m keys in
    if value == [] then rest else positive value (parse_int value)

-- legacyOutcomeGeneration
unfoldable pub legacy_generation : Metadata → Result ℤ
legacy_generation m =
    first_generation m (
      text "gc.outcome.generation"
      ∷ text "gc.claim_generation"
      ∷ text "gc.temporal.generation"
      ∷ [])

-- math.MaxInt64
abbrev pub max_int64 : ℤ
max_int64 = pos 9223372036854775807

-- An outcome that is acknowledged has to be superseded by a greater generation.
unfoldable pub raised_generation : Option OutcomeRecord → ℤ → Result ℤ
raised_generation none generation = ok generation
raised_generation (some r) generation =
    if is_acknowledged r.state && leb_ℤ generation r.envelope.fence.generation
    then (if r.envelope.fence.generation == max_int64
        then err legacy_generation_exhausted
        else ok (increment r.envelope.fence.generation))
    else ok generation

abbrev or_text : Str → Str → Str
or_text s default = if s == [] then default else s

abbrev summary_of : LegacyIssue → Str
summary_of i =
    let summary =
      or_text
        (first_legacy_metadata i.metadata
          (text "summary_for_human" ∷ text "gc.outcome.summary" ∷ []))
        (trim_space i.close_reason) in
    if summary == [] || ltb 512 (length summary) then trim_space i.title else summary

abbrev source_root_of : LegacyIssue → Metadata → Str
source_root_of i m =
    or_text
      (first_legacy_metadata m (
        text "gc.outcome.source_root_id"
        ∷ text "gc.root_bead_id"
        ∷ text "dispatch.root_id"
        ∷ text "gc.formula.root_id"
        ∷ []))
      i.id

abbrev step_key_of : Metadata → Producer → Str
step_key_of m producer =
    or_text
      (first_legacy_metadata m (
        text "gc.outcome.step_key"
        ∷ text "gc.step_ref"
        ∷ text "dispatch.step"
        ∷ text "gc.formula.step_key"
        ∷ []))
      (producer_text producer)

-- legacyOutcomeImpact
unfoldable pub legacy_impact : Producer → Str
legacy_impact formula_step =
    text
      "The formula step result is ready for coordinator acknowledgement while its source root may remain open."
legacy_impact project_lead =
    text "The project-lead result is ready for coordinator acknowledgement."
legacy_impact maintenance_order =
    text "The maintenance-order result is ready for coordinator acknowledgement."
legacy_impact _ = text "The direct-worker result is ready for coordinator acknowledgement."

abbrev evidence_for : LegacyIssue → LegacyEvent → ArtifactRef
evidence_for i e = record {
  kind = Artifact.review_record;
  uri = text "bead:" ++ (i.id ++ (text "@" ++ e.id));
  sha256 = hex (sha256 e.new_value);
}

abbrev pub input_for : Str → LegacyIssue → LegacyEvent → Metadata → Producer → ℤ → AdapterInput
input_for store_ref i e m producer generation = record {
  store_ref = store_ref;
  work_id = i.id;
  source_root_id = source_root_of i m;
  workflow_id = [];
  workflow_run_id = [];
  step_key = step_key_of m producer;
  summary = summary_of i;
  impact = legacy_impact producer;
  state = if e.status == text "closed" then terminal else verified;
  evidence = evidence_for i e ∷ [];
  fence = record {
    producer_id = text "legacy-" ++ producer_text producer;
    generation = generation;
    token = e.id;
  };
  occurred_at = e.created_at;
}

-- The switch on the producer.
abbrev pub adapt : Producer → AdapterInput → Result OutcomeReady
adapt direct_worker = direct_worker_outcome
adapt formula_step = formula_step_outcome
adapt project_lead = project_lead_outcome
adapt maintenance_order = maintenance_order_outcome
adapt p = λ _. err (legacy_producer_invalid (producer_text p))

-- legacyOutcomeEnvelope
unfoldable pub legacy_envelope : Str → LegacyIssue → LegacyEvent → Result OutcomeReady
unfolding stable_metadata classify_producer legacy_generation raised_generation
legacy_envelope store_ref i e = do
  let m = stable_metadata e.metadata i.metadata
  producer ← classify_producer m e.actor
  found ← legacy_generation m
  generation ← raised_generation i.existing found
  adapt producer (input_for store_ref i e m producer generation)
