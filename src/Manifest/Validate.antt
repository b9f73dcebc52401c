-- ===== src/Manifest/Validate.antt =====
-- crates/murl-core/src/manifest.rs: `Manifest::from_slice` and `validate`.
pub mod Types
pub mod Resources
pub mod Relations
pub mod Members
pub mod Document
pub mod Sound
mod Tests
