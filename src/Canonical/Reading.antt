-- ===== src/Canonical/Reading.antt =====
-- dolt_bead_store.go: what a record that is read from an issue comes from.
use gas_city.Prelude.{
  ◌==◌, nat_eq, Str, text_eq, ==-refl, ==→≡, int_eq, ℤ, pos, ◌≡◌, refl, subst, true, not, List,
}
use gas_city.Prelude.{
  ◌==◌, nat_eq, Str, text_eq, ==-refl, ==→≡, int_eq, ℤ, pos, ◌≡◌, refl, subst, true, not, List,
}
use gas_city.Errors.{wrap, >>=-ok, wrap-ok, ok_eq, require-ok, ok, formula_snapshot_unreadable}
use gas_city.Canonical.Issue.{
  Issue, record_of, metadata_int, canonical_status, ready_event_from, metadata_list,
}
use gas_city.FileStore.Records.{BeadRecord, BeadStatus}
use gas_city.Contracts.Identifiers.{current_contract_version}
use gas_city.Contracts.Event.{ReadyEvent}
use gas_city.Contracts.Artifact.{ArtifactRef}
use gas_city.Contracts.Payloads.{AttemptFailure}

-- What is read of an issue.
pub record Reading (i : Issue) : Type 0 where
  pub generation : ℤ
  pub status : BeadStatus
  pub event : ReadyEvent
  pub artifact_refs : List ArtifactRef
  pub attempt_failures : List AttemptFailure
  pub generation_read : metadata_int i.generation ≡ ok generation
  pub enrolled : not (generation == pos 0) ≡ true
  pub version_read : metadata_int i.contract_version ≡ ok current_contract_version
  pub status_read : canonical_status i.status ≡ ok status
  pub event_read : ready_event_from i.ready_event ≡ ok event
  pub artifacts_read : metadata_list i.artifact_refs ≡ ok artifact_refs
  pub failures_read : metadata_list i.attempt_failures ≡ ok attempt_failures

-- The record of what is read.
abbrev pub record_from : Str → (i : Issue) → Reading i → BeadRecord
record_from id i d = record {
  city_id = i.city_id;
  run_id = i.run_id;
  bead_id = id;
  generation = d.generation;
  formula = d.event.formula;
  status = d.status;
  workflow_id = i.workflow_id;
  claim_token = i.claim_token;
  session_id = i.session_id;
  outcome = i.outcome;
  artifact_refs = d.artifact_refs;
  attempt_failures = d.attempt_failures;
}

pub record_of-reads :
    (id : Str) (i : Issue) (d : Reading i) → record_of id i ≡ ok (record_from id i d)
unfolding record_of
record_of-reads id i d = rw (d.generation_read) (
    rw (d.enrolled) (
      rw (d.version_read) (
        rw (==-refl current_contract_version) (
          rw (d.status_read)
            (rw (d.event_read) (rw (d.artifacts_read) (rw (d.failures_read) refl)))))))

same_number : (n m : ℤ) → (n == m) ≡ true → n ≡ m
same_number n m h = ==→≡ n m h

pub record_of-Reading :
    (id : Str) (i : Issue) (r : BeadRecord)
    → record_of id i ≡ ok r
    → (d : Reading i) × (record_from id i d ≡ r)
unfolding record_of
record_of-Reading id i r h =
    let (g, eg, h1) = >>=-ok (metadata_int i.generation) _ h in
    let (nz, h2) = require-ok (not (g == pos 0)) _ _ h1 in
    let (v, ev, h3) = >>=-ok (metadata_int i.contract_version) _ h2 in
    let (vv, h4) = require-ok (v == current_contract_version) _ _ h3 in
    let (st, es, h5) = >>=-ok (canonical_status i.status) _ h4 in
    let (e, ee, h6) =
      >>=-ok (wrap formula_snapshot_unreadable (ready_event_from i.ready_event)) _ h5 in
    let (refs, er, h7) = >>=-ok (metadata_list i.artifact_refs) _ h6 in
    let (fails, ef, h8) = >>=-ok (metadata_list i.attempt_failures) _ h7 in
    (
      record {
        generation = g;
        status = st;
        event = e;
        artifact_refs = refs;
        attempt_failures = fails;
        generation_read = eg;
        enrolled = nz;
        version_read =
            subst (λ n. metadata_int i.contract_version ≡ ok n)
              (same_number v current_contract_version vv) ev;
        status_read = es;
        event_read = wrap-ok formula_snapshot_unreadable _ ee;
        artifacts_read = er;
        failures_read = ef;
      },
      ok_eq h8,
    )
