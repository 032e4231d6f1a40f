-- ===== src/Canonical.antt =====
-- dolt_bead_store.go, outcome_store.go and outcome_activity.go: the canonical store, one issue to a
-- row of a table.
--
-- The database is what the SQL statements say of it: a call reads one row, and its transaction puts
-- the new row in place or not. An issue's metadata values are JSON texts; a member here is what they
-- decode to (`Coded`).
pub mod Issue
pub mod Transaction
pub mod Outbox
pub mod Finalize
pub mod Respects
pub mod Standing
pub mod Lifecycle
pub mod Calls
pub mod Answers
pub mod Closing
pub mod Beads
pub mod Reading
pub mod Refines
pub mod Completes
pub mod Claims
pub mod StaleLease
pub mod Store
pub mod Recorded
pub mod Activities
pub mod Stored
pub mod Settled
pub mod Progress
pub mod Inspected
