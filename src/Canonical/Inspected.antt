-- ===== src/Canonical/Inspected.antt =====
-- outcome_store.go: an outcome that was emitted is read back.
use gas_city.Prelude.{
  all, ◌==◌, nat_eq, Str, text_eq, int_eq, lookup, ℕ, ◌≡◌, refl, sym, ap, ◌∙◌, Bool, true, false,
  Option, none, some, List, ◌∷◌, ◌++◌, map, arith, valid_utf8,
}
use gas_city.Errors.{Check, >>-ok, err_not_ok, require-ok, Result, ok, err}
use gas_city.Outcomes.Envelope
use gas_city.Outcomes.Envelope.{OutcomeReady}
use gas_city.Canonical.Issue.{Issue, outcome_record_from, coded}
use gas_city.Canonical.Transaction.{Attempt, Table, Change, updates, replies, mutate_issue}
use gas_city.Canonical.Answers.{Answered, from_row, new_row, mutate_issue-Answered}
use gas_city.Canonical.Outbox.{
  emit_outcome, inspect_outcome, emit_body, decide_emit, guarded, pending_record,
}
use gas_city.Outcomes.Records.{OutcomeRecord}
use gas_city.Contracts.Identifiers.{validate_segment}
use gas_city.Contracts.Event.{Time, is_zero}
use gas_city.Contracts.Artifact.{ArtifactRef}

work_id_valid :
    (o : OutcomeReady)
    → Envelope.validate o ≡ ok tt
    → validate_segment "outcome work id" o.work_id ≡ ok tt
unfolding Envelope.validate
work_id_valid o h =
    let (_, h1) = require-ok (o.contract_version == Envelope.outcome_contract_version) _ _ h in
    let (_, h2) = require-ok _ _ _ h1 in
    let (_, h3) = >>-ok (Envelope.validate_store_ref o.store_ref) _ h2 in
    (>>-ok (validate_segment "outcome work id" o.work_id) _ h3).0

-- The record is read back from its row.
abbrev ReadsBack : OutcomeRecord → Issue → Type 0
ReadsBack r i = outcome_record_from i.outbox ≡ ok (some r)

pending_read :
    (o : OutcomeReady) (now : Time)
    → Envelope.validate o ≡ ok tt
    → is_zero now ≡ false
    → outcome_record_from (coded (pending_record o now)) ≡ ok (some (pending_record o now))
unfolding outcome_record_from
pending_read o now valid clock = rw (valid, clock) refl

emit_repeats :
    (o : OutcomeReady) (now : Time) (i : Issue) (r : OutcomeRecord)
    (m : Result (Option OutcomeRecord))
    → outcome_record_from i.outbox ≡ m
    → (elim m as (λ _. Change OutcomeRecord) [
      | ok existing ↦ decide_emit o now existing i
      | err e ↦ replies (err e)
    ])
      ≡ replies (ok r)
    → ReadsBack r i
unfolding decide_emit
emit_repeats o now i r (ok none) e h = absurd (ground arith)
emit_repeats o now i r (err x) e h = absurd (ground arith)
emit_repeats o now i r (ok (some q)) e h =
    let same : q ≡ r = ground arith in e ∙ ap (λ x. ok (some x)) same

emit_writes :
    (o : OutcomeReady) (now : Time) (i j : Issue) (r : OutcomeRecord)
    (m : Result (Option OutcomeRecord))
    → (elim m as (λ _. Change OutcomeRecord) [
      | ok existing ↦ decide_emit o now existing i
      | err e ↦ replies (err e)
    ])
      ≡ updates j r
    → (j.outbox ≡ coded (pending_record o now)) × (r ≡ pending_record o now)
unfolding decide_emit
emit_writes o now i j r (ok none) h = ground arith
emit_writes o now i j r (err x) h = absurd (ground arith)
emit_writes o now i j r (ok (some q)) h = ground arith

-- The texts of an envelope.
abbrev pub texts : OutcomeReady → List Str
texts o =
    o.outcome_id
    ∷ o.store_ref
    ∷ o.work_id
    ∷ o.source_root_id
    ∷ o.workflow_id
    ∷ o.workflow_run_id
    ∷ o.step_key
    ∷ o.summary
    ∷ o.impact
    ∷ o.fence.producer_id
    ∷ o.fence.token
    ∷ (map (λ (a : ArtifactRef). a.uri) o.evidence
        ++ map (λ (a : ArtifactRef). a.sha256) o.evidence)

-- Where the texts of the envelope are valid UTF-8, so that JSON keeps them, and the clock is not at
-- the zero time: an outcome that EmitOutcome answers is what InspectOutcome
-- then answers for its work.
pub inspect-emit :
    (env : ℕ → Attempt) (done_at : ℕ → Bool) (now : Time) (o : OutcomeReady) (r : OutcomeRecord)
    (t : Table)
    → all valid_utf8 (texts o) ≡ true
    → is_zero now ≡ false
    → (emit_outcome env done_at now o t).0 ≡ ok r
    → inspect_outcome o.work_id (emit_outcome env done_at now o t).1 ≡ ok r
unfolding emit_outcome emit_body inspect_outcome
inspect-emit env done_at now o r t kept clock h = go (Envelope.validate o) refl h
  where
    run : Result OutcomeRecord × Table
    run = mutate_issue env done_at o.work_id (emit_body o now) t

    read :
        (t' : Table)
        → Envelope.validate o ≡ ok tt
        → Answered o.work_id (emit_body o now) r t'
        → (i : Issue) × (lookup o.work_id t' ≡ some i) × ReadsBack r i
    read t' valid (from_row i found e) =
        (i, found, emit_repeats o now i r (outcome_record_from i.outbox) refl e)
    read t' valid (new_row i j found e) =
        let (there, same) = emit_writes o now i j r (outcome_record_from i.outbox) e in
        (
          j,
          found,
          ap outcome_record_from there
              ∙ (pending_read o now valid clock ∙ ap (λ x. ok (some x)) (sym same)),
        )

    go :
        (m : Check)
        → Envelope.validate o ≡ m
        → (guarded m run t).0 ≡ ok r
        → inspect_outcome o.work_id (guarded m run t).1 ≡ ok r
    go (err e) k h' = absurd (err_not_ok h')
    go (ok _) k h' =
        let (i, found, back) =
          read run.1 k (mutate_issue-Answered o.work_id (emit_body o now) r env done_at t h') in
        rw (work_id_valid o k, found, back) refl
