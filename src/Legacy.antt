-- ===== src/Legacy.antt =====
-- legacy_outcome_reconciler.go: outcomes of producers that are not on Temporal, found in the history
-- of the canonical issues.
--
-- The database and JSON are outside of the model: what a query answers and what a text decodes to
-- are arguments.
pub mod Text
pub mod Metadata
pub mod Transition
pub mod Batches
pub mod Envelopes
pub mod Suppression
pub mod Discover
pub mod Introduced
pub mod Batched
pub mod Superseding
pub mod Excluded
pub mod Grounded
pub mod Listing
pub mod Listed
pub mod Finalized
