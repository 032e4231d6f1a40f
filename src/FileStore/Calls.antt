-- ===== src/FileStore/Calls.antt =====
-- bead_store.go: the calls of a store as data, and histories of calls. Between two calls another
-- process may write the file too, but only by such calls, under the same lock.
use gas_city.Prelude.{Str, ℤ, List, [], ◌∷◌}
use gas_city.Contracts.Formula.{FormulaRef}
use gas_city.Contracts.Payloads.{ClaimRequest, Completion, AttemptFailure}
use gas_city.FileStore.Persistence.{Env, Store, execute}
use gas_city.FileStore.Operations.{
  transition_ready, claim, complete, record_attempt_failure, inspect, pending_ready_events,
  acknowledge_ready_event,
}

pub data Call : Type 0 where
  transitions : Str → Str → Str → ℤ → FormulaRef → Call
  claims : ClaimRequest → Call
  completes : Completion → Call
  records_failure : AttemptFailure → Call
  inspects : Str → Call
  lists_pending : Call
  acknowledges : Str → Call

-- The store after a call.
unfoldable pub perform : Env → Call → Store → Store
perform env (transitions city_id run_id bead_id generation formula) store =
    (execute env (transition_ready env city_id run_id bead_id generation formula) store).1
perform env (claims c) store = (execute env (claim c) store).1
perform env (completes c) store = (execute env (complete c) store).1
perform env (records_failure f) store = (execute env (record_attempt_failure f) store).1
perform env (inspects bead_id) store = (execute env (inspect bead_id) store).1
perform env lists_pending store = (execute env pending_ready_events store).1
perform env (acknowledges id) store = (execute env (acknowledge_ready_event env id) store).1

unfoldable pub run : List (Env × Call) → Store → Store
unfolding perform
run [] store = store
run ((env, call) ∷ calls) store = run calls (perform env call store)
