-- ===== src/Contracts.antt =====
-- contracts.go and clock.go: the boundary types and their validation. The children hold the types;
-- what is proved of them stands in Laws and its children.
pub mod Identifiers
pub mod Artifact
pub mod Formula
pub mod Event
pub mod Link
pub mod Requests
pub mod Payloads
