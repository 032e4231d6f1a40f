-- ===== src/Workflow.antt =====
-- workflow.go: BeadOrchestrationWorkflow.
--
-- A workflow is deterministic code that Temporal resumes whenever a signal, a finished activity or a
-- cancellation is there. `Selector.Select` takes one of those that are ready, in an order that the
-- code does not fix. So the loop of `await` is a function over the list of what is selected (Loop),
-- and the theorems hold for every list.
pub mod Run
pub mod Handlers
pub mod Loop
pub mod Counting
pub mod Invariant
pub mod Endings
pub mod Preserved
pub mod Results
pub mod Closure
pub mod Sealing
pub mod Sets
