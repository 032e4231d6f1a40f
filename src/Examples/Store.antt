-- ===== src/Examples/Store.antt =====
-- Runs of the file store.
use gas_city.Prelude.{
  none_not_some, all, Str, Str-discrete, ℤ-discrete, ℤ, text, is_trimmed, lookup, insert, merge,
  pos, ℕ, zero, ◌-◌, ◌≡◌, refl, ◌≢◌, inl, true, false, not, none, some, List, [], ◌∷◌, arith,
}
use gas_city.Errors.{ok}
use gas_city.Contracts.Payloads
use gas_city.FileStore.Records
use gas_city.FileStore.Durability.{
  IsHolder, claim_durable, IsSynced, FileHas, IsResult, complete_durable,
}
use gas_city.FileStore.Records.{BeadRecord, FileState, lease_from_record, OutboxRecord}
use gas_city.Contracts.Payloads.{ClaimRequest, Completion, no_outcome}
use gas_city.FileStore.Calls.{run, claims, completes, Call, transitions}
use gas_city.FileStore.Persistence.{
  Env, Store, document, written, execute, encode, open_store, load,
}
use gas_city.FileStore.View.{file_bead, file_event}
use gas_city.FileStore.Operations.{sort_events, complete, claim, pending_ready_events, entries}
use gas_city.Examples.Data.{formula, event_at}
use gas_city.FileStore.Exclusion.{claim_exclusive}
use gas_city.FileStore.Sync.{run-IsSynced}
use gas_city.FileStore.History.{Advances}
use gas_city.FileStore.Ownership.{run-Advances}
use gas_city.FileStore.Pending.{IsListing, pending_ready_events-IsListing}
use gas_city.Contracts.Event.{ReadyEvent}
use gas_city.FileStore.Current.{FileCurrent, run-FileCurrent}

abbrev held_bead : BeadRecord
held_bead = record {
  city_id = text "city";
  run_id = text "run";
  bead_id = text "bead";
  generation = pos 1;
  formula = formula;
  status = Records.claimed;
  workflow_id = text "first";
  claim_token = text "claim-1";
  session_id = [];
  outcome = no_outcome;
  artifact_refs = [];
  attempt_failures = [];
}

abbrev held_state : FileState
held_state = record {
  version = pos 1;
  beads = some ((text "bead", held_bead) ∷ []);
  outbox = some [];
}

abbrev held_store : Store
held_store = record { memory = held_state; file = document (encode held_state) }

abbrev calm : Env
calm = record {
  lockable = true;
  readable = true;
  now = 5;
  superseded_now = λ _. 5;
  write = written;
  reloadable = true;
}

abbrev other_claim : ClaimRequest
other_claim = record { bead_id = text "bead"; generation = pos 1; workflow_id = text "second" }

held : file_bead (text "bead") held_store.file ≡ some held_bead
unfolding lookup gas_city.Prelude.Str-discrete
held = refl

run-Advances_example :
    (q : BeadRecord) × (file_bead
        (text "bead")
        (run ((calm, claims other_claim) ∷ []) held_store).file
      ≡ some q)
    × Advances held_bead q
run-Advances_example =
    run-Advances (text "bead") ((calm, claims other_claim) ∷ []) held_store held_bead held

held-Synced : IsSynced held_state held_store.file
unfolding lookup
held-Synced = record { beads = λ b r h. (r, h); events = λ id r h. absurd (none_not_some h) }

abbrev completion : Completion
completion = record {
  bead_id = text "bead";
  generation = pos 1;
  claim_token = text "claim-1";
  session_id = text "session";
  source_workflow_id = text "workflow";
  source_workflow_run_id = text "workflow-run";
  outcome = Payloads.completed;
  artifact_refs = [];
}

completes_now : (execute calm (complete completion) held_store).0 ≡ ok tt
unfolding complete execute gas_city.Prelude.ℤ-discrete lookup gas_city.Prelude.merge
    gas_city.Prelude.insert gas_city.Prelude.Str-discrete
    gas_city.FileStore.Operations.check_completion gas_city.Contracts.Identifiers.validate_segment
    gas_city.Prelude.is_trimmed gas_city.Contracts.Identifiers.segment_pattern
    Payloads.Outcome-discrete
completes_now = refl

complete_durable_example :
    FileHas
      (text "bead")
      (IsResult completion)
      (execute calm (complete completion) held_store).1.file
complete_durable_example = complete_durable completion calm held_store held-Synced completes_now

opens : open_store true true true held_store.file ≡ ok held_store
unfolding open_store gas_city.Prelude.ℤ-discrete lookup merge insert
opens = refl

run-IsSynced_example :
    IsSynced
      (run ((calm, completes completion) ∷ []) held_store).memory
      (run ((calm, completes completion) ∷ []) held_store).file
run-IsSynced_example =
    run-IsSynced true true true held_store.file held_store ((calm, completes completion) ∷ []) opens
      ((λ h. cc), tt)

refused :
    (execute calm (claim other_claim) (run [] held_store)).0
    ≡ ok (lease_from_record held_bead false)
unfolding run claim execute gas_city.Prelude.ℤ-discrete lookup gas_city.Prelude.merge
    gas_city.Prelude.insert gas_city.Prelude.Str-discrete
refused = refl

claim_exclusive_example : (lease_from_record held_bead false).acquired ≡ false
claim_exclusive_example =
    claim_exclusive other_claim (text "first") held_store [] calm
      (lease_from_record held_bead false) (held_bead, held, refl, refl, inl refl) (λ h. cc) refused

abbrev outbox_record : ReadyEvent → OutboxRecord
outbox_record e = record { event = e; acknowledged_at = 0; superseded_at = 0 }

abbrev listed_state : FileState
listed_state = record {
  version = pos 1;
  beads = some [];
  outbox = some (
      (text "late", outbox_record (event_at 2))
      ∷ (text "done", record (outbox_record (event_at 3)) { acknowledged_at = 4 })
      ∷ (text "early", outbox_record (event_at 1))
      ∷ []);
}

abbrev listed_store : Store
listed_store = record { memory = listed_state; file = document (encode listed_state) }

lists : (execute calm pending_ready_events listed_store).0 ≡ ok (event_at 1 ∷ event_at 2 ∷ [])
unfolding execute pending_ready_events ℤ-discrete gas_city.Prelude.sort_by merge insert Str-discrete
lists = refl

pending_ready_events-IsListing_example :
    IsListing
      (entries (load calm.readable listed_store.file listed_store.memory).1.outbox)
      (event_at 1 ∷ event_at 2 ∷ [])
    × ((execute calm pending_ready_events listed_store).1.file ≡ listed_store.file)
pending_ready_events-IsListing_example =
    pending_ready_events-IsListing calm listed_store (event_at 1 ∷ event_at 2 ∷ []) lists

abbrev first_claim : ClaimRequest
first_claim = record { bead_id = text "bead"; generation = pos 1; workflow_id = text "first" }

granted : (execute calm (claim first_claim) held_store).0 ≡ ok (lease_from_record held_bead true)
unfolding claim execute ℤ-discrete lookup merge insert Str-discrete
granted = refl

claim_durable_example :
    FileHas
      (text "bead")
      (IsHolder first_claim (lease_from_record held_bead true))
      (execute calm (claim first_claim) held_store).1.file
claim_durable_example =
    claim_durable first_claim calm held_store (lease_from_record held_bead true) held-Synced granted
      refl

-- A store whose bead is at the generation of the event that waits.
abbrev current_state : FileState
current_state = record held_state {
  outbox = some ((text "first", outbox_record (event_at 1)) ∷ []);
}

abbrev current_store : Store
current_store = record { memory = current_state; file = document (encode current_state) }

opens_current : open_store true true true current_store.file ≡ ok current_store
unfolding open_store gas_city.Prelude.ℤ-discrete lookup merge insert
opens_current = refl

only_event :
    (id : Str) (r : OutboxRecord)
    → file_event id current_store.file ≡ some r
    → r ≡ outbox_record (event_at 1)
unfolding lookup
only_event id r there = ground arith

bead_held : file_bead (text "bead") current_store.file ≡ some held_bead
unfolding lookup gas_city.Prelude.Str-discrete
bead_held = refl

current_store-FileCurrent : FileCurrent current_store.file
current_store-FileCurrent id r there waits = rw (only_event id r there) (held_bead, bead_held, refl)

-- The bead becomes ready again, at the next generation.
abbrev readies : Call
readies = transitions (text "city") (text "run") (text "bead") (pos 2) formula

not_zero : ◌≢◌ {A = ℕ} 5 0
not_zero h = absurd (omega (arith, h))

run-FileCurrent_example : FileCurrent (run ((calm, readies) ∷ []) current_store).file
run-FileCurrent_example =
    run-FileCurrent true true true current_store.file current_store ((calm, readies) ∷ [])
      opens_current ((λ h. cc), tt) ((λ id. not_zero), tt) current_store-FileCurrent
