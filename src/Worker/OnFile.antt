-- ===== src/Worker/OnFile.antt =====
-- activity.go and bead_store.go together: an activity that works on the file store.
use gas_city.Prelude.{before, ◌≡◌, ap, subst, ◌≢◌, some, List}
use gas_city.Errors.{ok}
use gas_city.Contracts.Payloads
use gas_city.FileStore.Persistence.{not_renamed, Env, Store, execute}
use gas_city.FileStore.Operations.{claim, complete, record_attempt_failure}
use gas_city.FileStore.Durability.{IsSynced, FileHas, IsResult, complete_durable}
use gas_city.FileStore.Sync.{execute-IsSynced}
use gas_city.Worker.Interface.{BeadStore, AgentExecutor, Info, AgentExecutionRequest}
use gas_city.Worker.Finish.{execute_bead}
use gas_city.Worker.Executed.{execute_bead-IsDelivered}
use gas_city.Contracts.Event.{ReadyEvent}
use gas_city.Contracts.Payloads.{ActivityResult, Completion, HeartbeatCheckpoint}

-- The file store, with what the environment does in each of the calls.
abbrev pub file_beads : Env → Env → Env → BeadStore Store
file_beads claim_env complete_env failure_env = record {
  claim_bead = λ q. execute claim_env (claim q);
  complete_bead = λ c. execute complete_env (complete c);
  record_failure = λ f. execute failure_env (record_attempt_failure f);
}

abbrev pub SyncedStore : Store → Type 0
SyncedStore s = IsSynced s.memory s.file

-- The file holds the bead of the event, completed with the result.
pub record IsOnFile (event : ReadyEvent) (result : ActivityResult) (store : Store) : Type 0 where
  pub completion : Completion
  pub of_generation : completion.generation ≡ event.generation
  pub same_session : completion.session_id ≡ result.session_id
  pub same_artifacts : completion.artifact_refs ≡ result.artifact_refs
  pub same_outcome : completion.outcome ≡ result.outcome
  pub is_completed : result.outcome ≡ Payloads.completed
  pub of_event : result.event_id ≡ event.event_id
  pub on_file : FileHas event.bead_id (IsResult completion) store.file

-- Where memory has nothing that the file lacks, and the agent leaves it so, and a write of the claim
-- does not fail before its rename: an activity on the file store that answers a result has left the
-- bead of its event in the file as completed, with the session and the artifacts of the result,
-- whatever the file system does in the completion.
pub activity_durable :
    (claim_env complete_env failure_env : Env) (agent : AgentExecutor Store) (info : Info)
    (event : ReadyEvent) (result : ActivityResult) (sent : List HeartbeatCheckpoint)
    (store store' : Store)
    → claim_env.write ≢ not_renamed
    → ((q : AgentExecutionRequest) (s : Store)
        → SyncedStore s
        → SyncedStore (agent.resolve_session q s).1)
    → ((q : AgentExecutionRequest) (s : Store)
        → SyncedStore s
        → SyncedStore (agent.execute_agent q s).1)
    → SyncedStore store
    → execute_bead
        (record {
          beads = some (file_beads claim_env complete_env failure_env);
          agent = some agent;
        })
        info
        event
        store
      ≡ (ok (result, sent), store')
    → IsOnFile event result store'
activity_durable claim_env complete_env failure_env agent info event result sent store store' apart
      resolves executes synced h =
    let (before, there, given) =
      execute_bead-IsDelivered SyncedStore (file_beads claim_env complete_env failure_env) agent
        (record {
          claim_keeps = λ q l s p _. execute-IsSynced (claim q) claim_env s apart p;
          resolve_keeps = resolves;
          execute_keeps = executes;
        })
        info event result sent store store' synced h in
    let taken =
      complete_durable given.completion complete_env before there (ap (λ x. x.0) given.taken) in
    record {
      completion = given.completion;
      of_generation = given.of_generation;
      same_session = given.same_session;
      same_artifacts = given.same_artifacts;
      same_outcome = given.same_outcome;
      is_completed = given.is_completed;
      of_event = given.of_event;
      on_file =
          subst (λ (s : Store). FileHas event.bead_id (IsResult given.completion) s.file)
            (ap (λ x. x.1) given.taken)
            (subst
              (λ id.
                FileHas id (IsResult given.completion)
                  (execute complete_env (complete given.completion) before).1.file)
              given.of_bead taken);
    }
