-- ===== src/FileStore.antt =====
-- bead_store.go: the crash-durable reference store of beads.
--
-- Every operation takes the lock, loads the file into memory, decides from memory alone, and writes
-- the whole state back if it changed something. So an operation is a function from memory to a
-- decision (Operations), and `execute` (Persistence) runs it against the file.
pub mod Records
pub mod Persistence
pub mod Operations
pub mod View
pub mod History
pub mod Inversion
pub mod Calls
pub mod Ownership
pub mod Exclusion
pub mod Durability
pub mod Sync
pub mod Current
pub mod LostWrite
pub mod Outbox
pub mod Pending
