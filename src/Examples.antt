-- ===== src/Examples.antt =====
-- Concrete runs: each theorem at inputs that meet its conditions.
pub mod Data
pub mod Store
pub mod Lost
pub mod Orchestration
pub mod Outcome
pub mod Delivery
pub mod Bridge
pub mod Beads
pub mod Activity
pub mod Sets
pub mod Worker
pub mod Legacy
pub mod Listing
pub mod Coordinator
pub mod Progress
