-- ===== src/Outcomes.antt =====
-- outcome_contracts.go, outcome_store.go and outcome_workflow.go: the outcome of a piece of work, and
-- the workflow that delivers it to a coordinator until it is acknowledged.
pub mod Envelope
pub mod Completed
pub mod Records
pub mod Workflow
pub mod Loop
pub mod Gate
pub mod Ends
pub mod Acknowledged
