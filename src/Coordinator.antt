-- ===== src/Coordinator.antt =====
-- outcome_reconciler.go: how a durable outcome comes to its workflow.
--
-- The store and Temporal are called through interfaces: records of functions over a world.
pub mod Gateway
pub mod Reconcile
pub mod Ensured
pub mod Handled
pub mod Reconciled
