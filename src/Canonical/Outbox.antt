-- ===== src/Canonical/Outbox.antt =====
-- outcome_store.go: the operations on the outcome of an issue.
use gas_city.Prelude.{
  ltb, if◌then◌else◌, ◌==◌, nat_eq, Str, text_eq, leb_ℤ, int_eq, lookup, ℕ, Bool, true, false, ◌&&◌,
  not, Option, none, some, [],
}
use gas_city.Errors.{
  Check, ◌>>◌, require, Result, ok, err, bead_not_found, stale_fence, outcome_not_found,
  conflicts_with_unacknowledged, generation_not_greater, not_newer, acknowledgement_conflicts,
}
use gas_city.Outcomes.Envelope
use gas_city.Outcomes.Records
use gas_city.Outcomes.Records.{
  CoordinatorState, OutcomeRecord, OutcomeDelivery, OutcomeAcknowledgement, FinalizationReceipt,
  FinalizationRequest, outcomes_equal, validate_delivery, validate_acknowledgement,
  validate_finalization, validate_receipt,
}
use gas_city.Outcomes.Envelope.{OutcomeReady}
use gas_city.Canonical.Issue.{Issue, outcome_record_from, set_outcome}
use gas_city.Canonical.Transaction.{Attempt, Table, Change, updates, replies, mutate_issue}
use gas_city.Contracts.Identifiers.{validate_segment}
use gas_city.Contracts.Event.{is_zero, Time}

abbrev pub is_acknowledged : CoordinatorState → Bool
is_acknowledged Records.acknowledged = true
is_acknowledged _ = false

-- validateOutcomeSupersession
unfoldable pub validate_supersession : OutcomeRecord → OutcomeReady → Check
validate_supersession existing incoming = do
  require (is_acknowledged existing.state) conflicts_with_unacknowledged
  require (not (leb_ℤ incoming.fence.generation existing.envelope.fence.generation))
      generation_not_greater
  require (ltb existing.envelope.occurred_at incoming.occurred_at) not_newer

abbrev pub pending_record : OutcomeReady → Time → OutcomeRecord
pending_record envelope now = record {
  envelope = envelope;
  state = Records.pending;
  pending_at = now;
  delivered_at = 0;
  acknowledged_at = 0;
  delivery_ref = [];
  coordinator_fence = [];
  acknowledged_by = [];
}

abbrev put_pending : OutcomeReady → Time → Issue → Change OutcomeRecord
put_pending envelope now i =
    updates (set_outcome (pending_record envelope now) i) (pending_record envelope now)

-- The body of EmitOutcome, with the outbox that was read.
unfoldable pub decide_emit :
    OutcomeReady → Time → Option OutcomeRecord → Issue → Change OutcomeRecord
decide_emit envelope now none i = put_pending envelope now i
decide_emit envelope now (some existing) i =
    if outcomes_equal existing.envelope envelope
    then replies (ok existing)
    else elim (validate_supersession existing envelope) [
      | ok _ ↦ put_pending envelope now i
      | err e ↦ replies (err e)
    ]

unfoldable pub emit_body : OutcomeReady → Time → Issue → Change OutcomeRecord
unfolding decide_emit
emit_body envelope now i = elim (outcome_record_from i.outbox) [
  | ok existing ↦ decide_emit envelope now existing i
  | err e ↦ replies (err e)
]

abbrev pub delivered_record : OutcomeDelivery → Time → OutcomeRecord → OutcomeRecord
delivered_record d now r = record r {
  state = Records.needs_ack;
  delivered_at = if is_zero r.delivered_at then now else r.delivered_at;
  delivery_ref = d.delivery_ref;
  coordinator_fence = d.coordinator_fence;
}

-- Nothing that MarkOutcomeDelivered stores would change.
abbrev pub is_delivered_so : OutcomeDelivery → OutcomeRecord → Bool
is_delivered_so d r =
    r.coordinator_fence == d.coordinator_fence
    && (r.delivery_ref == d.delivery_ref && not (is_zero r.delivered_at))

unfoldable pub decide_delivered :
    OutcomeDelivery → Time → Option OutcomeRecord → Issue → Change OutcomeRecord
decide_delivered d now none i = replies (err stale_fence)
decide_delivered d now (some r) i =
    if not (r.envelope.outcome_id == d.outcome_id)
    then replies (err stale_fence)
    else if not (is_zero r.acknowledged_at)
    then replies (ok r)
    else if is_delivered_so d r
    then replies (ok r)
    else updates (set_outcome (delivered_record d now r) i) (delivered_record d now r)

-- The body of MarkOutcomeDelivered.
unfoldable pub delivered_body : OutcomeDelivery → Time → Issue → Change OutcomeRecord
unfolding decide_delivered
delivered_body d now i = elim (outcome_record_from i.outbox) [
  | ok existing ↦ decide_delivered d now existing i
  | err e ↦ replies (err e)
]

abbrev pub acknowledged_record : OutcomeAcknowledgement → Time → OutcomeRecord → OutcomeRecord
acknowledged_record a now r = record r {
  state = Records.acknowledged;
  acknowledged_at = now;
  acknowledged_by = a.acknowledged_by;
}

abbrev pub acknowledgement_fits : OutcomeAcknowledgement → OutcomeRecord → Bool
acknowledgement_fits a r =
    r.envelope.store_ref == a.store_ref
    && (r.envelope.outcome_id == a.outcome_id && r.coordinator_fence == a.coordinator_fence)

unfoldable pub decide_acknowledged :
    OutcomeAcknowledgement → Time → Option OutcomeRecord → Issue → Change OutcomeRecord
decide_acknowledged a now none i = replies (err stale_fence)
decide_acknowledged a now (some r) i =
    if not (acknowledgement_fits a r)
    then replies (err stale_fence)
    else if not (is_zero r.acknowledged_at)
    then (if r.acknowledged_by == a.acknowledged_by
        then replies (ok r)
        else replies (err acknowledgement_conflicts))
    else if is_zero r.delivered_at
    then replies (err stale_fence)
    else updates (set_outcome (acknowledged_record a now r) i) (acknowledged_record a now r)

-- The body of MarkOutcomeAcknowledged.
unfoldable pub acknowledged_body : OutcomeAcknowledgement → Time → Issue → Change OutcomeRecord
unfolding decide_acknowledged
acknowledged_body a now i = elim (outcome_record_from i.outbox) [
  | ok existing ↦ decide_acknowledged a now existing i
  | err e ↦ replies (err e)
]

-- The validation that each call begins with.
abbrev pub guarded {ℓ} : {A : Type ℓ} → Check → Result A × Table → Table → Result A × Table
guarded (ok _) run t = run
guarded (err e) run t = (err e, t)

-- EmitOutcome
unfoldable pub emit_outcome :
    (ℕ → Attempt) → (ℕ → Bool) → Time → OutcomeReady → Table → Result OutcomeRecord × Table
emit_outcome env done_at now o t =
    guarded (Envelope.validate o) (mutate_issue env done_at o.work_id (emit_body o now) t) t

-- MarkOutcomeDelivered
unfoldable pub mark_delivered :
    (ℕ → Attempt) → (ℕ → Bool) → Time → OutcomeDelivery → Table → Result OutcomeRecord × Table
mark_delivered env done_at now d t =
    guarded (validate_delivery d) (mutate_issue env done_at d.work_id (delivered_body d now) t) t

-- MarkOutcomeAcknowledged
unfoldable pub mark_acknowledged :
    (ℕ → Attempt)
    → (ℕ → Bool)
    → Time
    → OutcomeAcknowledgement
    → Table
    → Result OutcomeRecord × Table
mark_acknowledged env done_at now a t =
    guarded (validate_acknowledgement a)
      (mutate_issue env done_at a.work_id (acknowledged_body a now) t) t

abbrev or_missing : Result (Option OutcomeRecord) → Result OutcomeRecord
or_missing (err e) = err e
or_missing (ok none) = err outcome_not_found
or_missing (ok (some r)) = ok r

abbrev inspect_row : Option Issue → Result OutcomeRecord
inspect_row none = err bead_not_found
inspect_row (some i) = or_missing (outcome_record_from i.outbox)

-- InspectOutcome
unfoldable pub inspect_outcome : Str → Table → Result OutcomeRecord
inspect_outcome id t = validate_segment "outcome work id" id >> inspect_row (lookup id t)
