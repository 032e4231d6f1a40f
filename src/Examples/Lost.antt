-- ===== src/Examples/Lost.antt =====
-- A bead that a failed write loses.
use gas_city.Prelude.{Str, text, lookup, pos, ◌≡◌, refl, none, [], arith}
use gas_city.Errors.{Result, ok, err, persist_failed}
use gas_city.FileStore.LostWrite.{lost_ready, calm, healthy_store}
use gas_city.FileStore.Persistence.{Env, Store, Decision, execute, written, not_renamed}
use gas_city.Examples.Data.{event_at, formula, sound}
use gas_city.Contracts.Event.{ReadyEvent}
use gas_city.FileStore.View.{file_bead, file_event}
use gas_city.FileStore.Records.{FileState}
use gas_city.FileStore.Operations.{transition_ready}
use gas_city.Contracts.Identifiers.{ready_event_id}

abbrev bead_id : Str
bead_id = text "bead"

abbrev ready_body : Env → FileState → Decision ReadyEvent
ready_body env = transition_ready env (text "city") (text "run") bead_id (pos 1) formula

abbrev first : Result ReadyEvent × Store
first =
    execute (calm not_renamed 5 (λ _. 5)) (ready_body (calm not_renamed 5 (λ _. 5)))
      (healthy_store [] [])

abbrev second : Result ReadyEvent × Store
second = execute (calm written 6 (λ _. 5)) (ready_body (calm written 6 (λ _. 5))) first.1

no_bead : {V : Type 0} → (k : Str) → lookup {V = V} k [] ≡ none
unfolding lookup
no_bead k = refl

lost_ready_example :
    (first.0 ≡ err persist_failed)
    × (second.0 ≡ ok (event_at 5))
    × (file_bead bead_id second.1.file ≡ none)
    × (file_event (ready_event_id (text "city") (text "run") bead_id (pos 1)) second.1.file ≡ none)
lost_ready_example =
    lost_ready [] [] (text "city") (text "run") bead_id (pos 1) formula written 5 6 (λ _. 5)
      (no_bead bead_id) (no_bead (ready_event_id (text "city") (text "run") bead_id (pos 1)))
      (sound 5 (ground arith)) (sound 6 (ground arith))
