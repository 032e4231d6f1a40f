-- ===== src/Canonical/Completes.antt =====
-- dolt_bead_store.go and bead_store.go: a completion in the canonical store and in the file store.
use gas_city.Outcomes.Completed.{completion_input, temporal_completion_outcome}
use gas_city.Prelude.{Str, Str-discrete, ◌≡◌, refl, sym, ap, subst, ◌∙◌, some, arith}
use gas_city.Errors.{wrap, >>-ok, >>=-ok, wrap-ok, ok_eq, Result, ok, err, outcome_not_built}
use gas_city.FileStore.Records
use gas_city.Outcomes.Envelope
use gas_city.Outcomes.Envelope.{
  new_outcome_ready, OutcomeReady, Producer, AdapterInput, envelope_of, outcome_ready_id,
}
use gas_city.FileStore.Records.{BeadRecord, FileState}
use gas_city.FileStore.Persistence.{Decision, reply, mutate}
use gas_city.FileStore.Operations.{complete, completed_by, find_bead, put_bead, check_completion}
use gas_city.Canonical.Issue.{Issue, record_of, canonical_status, coded, outcome_record_from}
use gas_city.Canonical.Transaction.{Change, replies, updates}
use gas_city.Canonical.Reading.{record_of-Reading, record_of-reads}
use gas_city.Canonical.Beads.{
  superseded_by, completed_row, decide_row_completion, validate_completion, completion_outcome,
  complete_body, on_record,
}
use gas_city.Contracts.Payloads.{Completion}
use gas_city.Outcomes.Envelope.{OutcomeReady}
use gas_city.Contracts.Event.{Time}
use gas_city.Canonical.Outbox.{pending_record}

-- A completion that the canonical store takes: the file store takes it too; a new row reads as the
-- record that the file store writes, and its outbox holds the pending outcome.
abbrev pub TakesToo : Str → FileState → Change (Unit {0}) → Decision (Unit {0}) → Type 0
TakesToo id s (replies (err e)) decision = Unit
TakesToo id s (replies (ok a)) decision = decision ≡ reply (ok a)
TakesToo id s (updates j a) decision =
    (r : BeadRecord) × (o : OutcomeReady) × (later : Time) × (record_of id j ≡ ok r)
    × (j.outbox ≡ coded (pending_record o later))
    × (o.work_id ≡ id)
    × (Envelope.validate o ≡ ok tt)
    × (decision ≡ mutate (put_bead id r s) a)

pub completed-read :
    (c : Completion) (o : OutcomeReady) (now : Time) (id : Str) (i : Issue) (r : BeadRecord)
    → record_of id i ≡ ok r
    → record_of id (completed_row c o now i) ≡ ok (completed_by c r)
unfolding canonical_status Str-discrete
completed-read c o now id i r h =
    let (d, same) = record_of-Reading id i r h in
    record_of-reads id (completed_row c o now i) (record {
      generation = d.generation;
      status = Records.completed;
      event = d.event;
      artifact_refs = c.artifact_refs;
      attempt_failures = d.attempt_failures;
      generation_read = d.generation_read;
      enrolled = d.enrolled;
      version_read = d.version_read;
      status_read = refl;
      event_read = d.event_read;
      artifacts_read = refl;
      failures_read = d.failures_read;
    })
    ∙ ap (λ x. ok (completed_by c x)) same

validated : (c : Completion) → validate_completion c ≡ ok tt → check_completion c ≡ ok tt
unfolding validate_completion check_completion
validated c h = ground arith

completion_replies :
    (c : Completion) (store_ref : Str) (now later : Time) (i : Issue) (r : BeadRecord)
    (s : FileState) (u : Unit {0})
    → find_bead c.bead_id s ≡ some r
    → (m : Result OutcomeReady) → completion_outcome c store_ref now r i ≡ m
    → decide_row_completion c store_ref now later i r ≡ replies (ok u)
    → complete c s ≡ reply (ok u)
unfolding complete
completion_replies c store_ref now later i r s u found (ok o) e h = ground arith
completion_replies c store_ref now later i r s u found (err x) e h = ground arith

completion_updates :
    (c : Completion) (store_ref : Str) (now later : Time) (i j : Issue) (r : BeadRecord)
    (s : FileState) (u : Unit {0})
    → check_completion c ≡ ok tt
    → find_bead c.bead_id s ≡ some r
    → (m : Result OutcomeReady) → completion_outcome c store_ref now r i ≡ m
    → decide_row_completion c store_ref now later i r ≡ updates j u
    → (o : OutcomeReady) × (completion_outcome c store_ref now r i ≡ ok o)
      × (completed_row c o later i ≡ j)
      × (complete c s ≡ mutate (put_bead c.bead_id (completed_by c r) s) u)
unfolding complete
completion_updates c store_ref now later i j r s u checked found (ok o) e h =
    (o, e, ground arith, ground arith)
completion_updates c store_ref now later i j r s u checked found (err x) e h = absurd (ground arith)

new_outcome_ready-valid :
    (p : Producer) (a : AdapterInput) (o : OutcomeReady)
    → new_outcome_ready p a ≡ ok o
    → (o.work_id ≡ a.work_id) × (Envelope.validate o ≡ ok tt)
unfolding new_outcome_ready
new_outcome_ready-valid p a o h =
    let base : OutcomeReady = envelope_of p a in
    let made : OutcomeReady = record base { outcome_id = outcome_ready_id base } in
    let (valid, same) = >>-ok (Envelope.validate made) (ok made) h in
    subst (λ (x : OutcomeReady). (x.work_id ≡ a.work_id) × (Envelope.validate x ≡ ok tt))
      (ok_eq same) (refl, valid)

outcome_built :
    (r : BeadRecord) (c : Completion) (store_ref : Str) (now : Time) (o : OutcomeReady)
    → temporal_completion_outcome r c store_ref now ≡ ok o
    → (o.work_id ≡ r.bead_id) × (Envelope.validate o ≡ ok tt)
unfolding temporal_completion_outcome
outcome_built r c store_ref now o h =
    new_outcome_ready-valid Envelope.temporal (completion_input r c store_ref now) o h

completion_outcome-built :
    (r : BeadRecord) (c : Completion) (store_ref : Str) (now : Time) (i : Issue) (o : OutcomeReady)
    → completion_outcome c store_ref now r i ≡ ok o
    → (o.work_id ≡ r.bead_id) × (Envelope.validate o ≡ ok tt)
completion_outcome-built r c store_ref now i o h =
    let (built, made, rest) =
      >>=-ok (wrap outcome_not_built (temporal_completion_outcome r c store_ref now)) _ h in
    let (existing, found, end) = >>=-ok (outcome_record_from i.outbox) _ rest in
    let (fine, same) = >>-ok (superseded_by built existing) _ end in
    subst (λ (x : OutcomeReady). (x.work_id ≡ r.bead_id) × (Envelope.validate x ≡ ok tt))
      (ok_eq same) (outcome_built r c store_ref now built (wrap-ok outcome_not_built _ made))

record_of-bead_id : (id : Str) (i : Issue) (r : BeadRecord) → record_of id i ≡ ok r → r.bead_id ≡ id
record_of-bead_id id i r h =
    let (d, same) = record_of-Reading id i r h in ap (λ (x : BeadRecord). x.bead_id) (sym same)

-- Where the canonical issue and the file store hold the same record of a bead: a valid completion
-- that the canonical store takes is one that the file store takes. Where it was there before, both
-- write nothing; else the new row reads as the record that the file store writes, and holds a pending
-- outcome that is valid and names the bead.
pub complete-TakesToo :
    (c : Completion) (store_ref : Str) (now later : Time) (i : Issue) (r : BeadRecord)
    (s : FileState)
    → validate_completion c ≡ ok tt
    → record_of c.bead_id i ≡ ok r
    → find_bead c.bead_id s ≡ some r
    → TakesToo c.bead_id s (complete_body c store_ref now later i) (complete c s)
unfolding complete_body
complete-TakesToo c store_ref now later i r s valid h found =
    subst
      (λ m.
        TakesToo c.bead_id s (on_record m (decide_row_completion c store_ref now later i))
          (complete c s))
      (sym h) (go (decide_row_completion c store_ref now later i r) refl)
  where
    go :
        (x : Change (Unit {0}))
        → decide_row_completion c store_ref now later i r ≡ x
        → TakesToo c.bead_id s x (complete c s)
    go (replies (err e)) k = tt
    go (replies (ok u)) k =
        completion_replies c store_ref now later i r s u found
          (completion_outcome c store_ref now r i) refl k
    go (updates j u) k =
        let (o, made, row, decided) =
          completion_updates c store_ref now later i j r s u (validated c valid) found
            (completion_outcome c store_ref now r i) refl k in
        let (names, fine) = completion_outcome-built r c store_ref now i o made in
        (
          completed_by c r,
          o,
          later,
          ap (record_of c.bead_id) (sym row) ∙ completed-read c o later c.bead_id i r h,
          ap (λ (x : Issue). x.outbox) (sym row),
          names ∙ record_of-bead_id c.bead_id i r h,
          fine,
          decided,
        )
