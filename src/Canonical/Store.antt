-- ===== src/Canonical/Store.antt =====
-- dolt_bead_store.go: the operations on beads. Claim stands in Claims.
use gas_city.Prelude.{Str, ℤ, lookup, ℕ, Bool, Option, none, some}
use gas_city.Errors.{Result, ok, err, bead_not_found}
use gas_city.Canonical.Beads.{
  ready_body, complete_body, failure_body, acknowledge_body, validate_completion,
  validate_attempt_failure,
}
use gas_city.Canonical.Transaction.{Attempt, Table, mutate_issue}
use gas_city.Canonical.Issue.{Issue, record_of}
use gas_city.Canonical.Outbox.{guarded}
use gas_city.Contracts.Event.{new_ready_event, ReadyEvent, Time}
use gas_city.FileStore.Records.{BeadRecord}
use gas_city.Contracts.Identifiers.{validate_segment}
use gas_city.Contracts.Payloads.{Completion, AttemptFailure}
use gas_city.Contracts.Formula.{FormulaRef}

abbrev with_event :
    (ℕ → Attempt) → (ℕ → Bool) → Result ReadyEvent → Table → Result ReadyEvent × Table
with_event env done_at (ok event) t = mutate_issue env done_at event.bead_id (ready_body event) t
with_event env done_at (err e) t = (err e, t)

-- TransitionReady
unfoldable pub canonical_transition :
    (ℕ → Attempt)
    → (ℕ → Bool)
    → Time
    → Str
    → Str
    → Str
    → ℤ
    → FormulaRef
    → Table
    → Result ReadyEvent × Table
canonical_transition env done_at now city_id run_id bead_id generation formula t =
    with_event env done_at (new_ready_event city_id run_id bead_id generation formula now) t

-- Complete
unfoldable pub canonical_complete :
    (ℕ → Attempt) → (ℕ → Bool) → Str → Time → Time → Completion → Table → Result (Unit {0}) × Table
canonical_complete env done_at store_ref now later c t =
    guarded (validate_completion c)
      (mutate_issue env done_at c.bead_id (complete_body c store_ref now later) t) t

-- RecordAttemptFailure
unfoldable pub canonical_failure :
    (ℕ → Attempt) → (ℕ → Bool) → AttemptFailure → Table → Result (Unit {0}) × Table
canonical_failure env done_at f t =
    guarded (validate_attempt_failure f) (mutate_issue env done_at f.bead_id (failure_body f) t) t

abbrev record_in : Str → Option Issue → Result BeadRecord
record_in id none = err bead_not_found
record_in id (some i) = record_of id i

-- Inspect
unfoldable pub canonical_inspect : Str → Table → Result BeadRecord
canonical_inspect id t = record_in id (lookup id t)

abbrev at_event :
    (ℕ → Attempt) → (ℕ → Bool) → Time → Str → Result Str → Table → Result (Unit {0}) × Table
at_event env done_at now event_id (ok id) t =
    mutate_issue env done_at id (acknowledge_body event_id now) t
at_event env done_at now event_id (err e) t = (err e, t)

-- AcknowledgeReadyEvent; `found` is what the query of findEventBeadID answers.
unfoldable pub canonical_acknowledge :
    (ℕ → Attempt) → (ℕ → Bool) → Time → Str → Result Str → Table → Result (Unit {0}) × Table
canonical_acknowledge env done_at now event_id found t =
    guarded (validate_segment "event id" event_id) (at_event env done_at now event_id found t) t
