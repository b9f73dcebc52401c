-- ===== src/Manifest.antt =====
-- crates/murl-core/src/manifest.rs: manifests and their validation.
pub mod Json
pub mod Types
pub mod Strict
pub mod Clean
pub mod Validate
pub mod Target
mod Tests
