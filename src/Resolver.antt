-- ===== src/Resolver.antt =====
-- crates/murl-core/src/resolver.rs: resolution of a mURL to a plan.
pub mod Types
pub mod Locality
pub mod State
pub mod Locate
pub mod Ingest
pub mod Select
pub mod Sound
pub mod Steps
pub mod Keeps
pub mod Outcome
pub mod Plan
mod Tests
