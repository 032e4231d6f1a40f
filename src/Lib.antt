-- ===== src/Lib.antt =====
-- The beads service of gas_city: services/temporal-maintenance/internal/temporalbeads.
--
-- A bead is a unit of work. A store keeps it and puts a ready event into an outbox when it becomes
-- ready; a bridge delivers the event to a Temporal workflow; the workflow runs one activity for each
-- event; the activity claims the bead and completes it in the store. With the canonical store, the
-- completion emits an outcome; another workflow delivers it to a coordinator until the coordinator
-- acknowledges it, and the work is then finalized.
--
-- Contracts (contracts.go, clock.go, formula_observability.go): payloads and validations. Go texts
--   are lists of bytes, int64 are integers, durations are nanoseconds, instants are natural numbers
--   from the zero time. SHA-256 is computed.
-- FileStore (bead_store.go): the store in a file. `execute` is the frame of each operation with lock,
--   load and write; `Env` says what the file system and the clock do in a call; `load`, `persist` and
--   `persist_mutation` are `load`, `persistLocked` and `persistMutationLocked`. Histories of calls
--   are lists (Calls).
-- Workflow (workflow.go): `start` is the input check and the initial events, `await` the loop over
--   any list of what the selector takes, `finish` the end. The list is finite, so no fuel is needed;
--   a loop that still waits at its end is `waiting`.
-- Bridge (bridge.go, reconciler.go): `Deliver`, `SealRun`, the gateway over a client that is a
--   parameter, and `Reconcile`. OnFile takes the file store as the reconciler's source and acker.
-- Outcomes (outcome_contracts.go, outcome_workflow.go, the records of outcome_store.go): the envelope
--   of an outcome with its identity, and CoordinatorOutcomeWorkflow as a list of rounds; a round holds
--   what the activities answer, what the selector takes in some order and the clock. A run whose
--   rounds are over is `runs`.
-- Canonical (dolt_bead_store.go, outcome_activity.go, the operations of outcome_store.go): the table
--   of issues in Dolt.
--   An issue holds the status and the metadata that the code reads, each missing, malformed or with a
--   value; `mutate_issue` is the loop over transactions with its five attempts, and `Attempt` says
--   what the database does in one, a commit that fails after it took effect included. A call with its
--   attempts is one step of a history, at one time of the clock, but for Claim: its attempts
--   (Claims) let other processes change the table in between, and carry the lease that the code
--   keeps in a variable.
-- Legacy (legacy_outcome_reconciler.go): DiscoverLegacyOutcomes. `Discovery` holds what the queries
--   answer, `Decoding` what JSON and time texts decode to; a metadata value is null, a string, or a
--   value with its printed text. `sift` and `read_row` are the bodies of the loops over rows, `judge`
--   the body of the loop over candidates. Each loop goes down its list, so no fuel is needed.
--   Listing has PendingOutcomes, the canonical PendingReadyEvents and FindSilentOutcomes, over the
--   answers of their queries.
-- Coordinator (outcome_reconciler.go): Ensure, Deliver, the gateway over a client that is a parameter,
--   and Reconcile (`reconcile_outcomes`) over a world with the store and Temporal as records of
--   operations.
-- Worker (activity.go): `execute_bead` over a world W, with the store and the agent as records of
--   operations; `records` are the reports of an agent to the heartbeat tracker. OnFile takes the file
--   store as the store.
-- Prelude and Errors: maps, texts, numbers and results that all parts share. Examples: concrete runs.
--
-- Not modelled: JSON text but for what is hashed or compared, the wiring of Temporal workers,
-- goroutines and locks inside a process (one call is one step), logging, the SQL of the connection
-- and of the queries, the heartbeat pump's ticker, and the commands. A record that goes to JSON text
-- and back is itself: `json.Marshal` writes U+FFFD for bytes that are not valid UTF-8, so records with
-- such texts (a summary, an impact, the uri of an artifact, a delivery reference) are outside the
-- model, as is the part of memory that a JSON text with a value of the wrong type overwrites before
-- `load` fails. The number of a failed attempt, an int32, is not bounded. `sort.Slice` is an insertion
-- sort; ids are unique in an outbox, so both have the same result.
pub mod Prelude
pub mod Errors
pub mod Contracts
pub mod FileStore
pub mod Workflow
pub mod Bridge
pub mod Outcomes
pub mod Canonical
pub mod Legacy
pub mod Coordinator
pub mod Worker
pub mod Examples
