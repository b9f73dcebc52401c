-- ===== src/Manifest/Target.antt =====
-- crates/murl-core/src/manifest.rs: the checks of targets.
pub mod Types
pub mod Hosts
pub mod Messages
pub mod Paths
pub mod Check
pub mod Safety
