-- ===== src/Dispatch.antt =====
-- crates/murl-core/src/dispatch.rs: from an approved plan to launched handlers.
pub mod Paths
pub mod Argv
pub mod Types
pub mod Execute
pub mod Safety
pub mod Home
pub mod Pieces
pub mod Accepted
pub mod Template
pub mod Explorer
pub mod Outcomes
pub mod Aggregate
mod Tests
