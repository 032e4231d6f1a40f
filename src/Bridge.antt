-- ===== src/Bridge.antt =====
-- bridge.go and reconciler.go: how a durable ready event comes to a workflow.
--
-- The code calls Temporal and the store through interfaces. Here an interface is a record of
-- functions over a world `W`, which is whatever the implementations change.
pub mod World
pub mod Delivery
pub mod Client
pub mod Reconcile
pub mod Accepted
pub mod Repaired
pub mod OnFile
