-- ===== src/Trust.antt =====
-- crates/murl-core/src/trust.rs: trust in manifests.
pub mod Status
pub mod Store
pub mod Pins
pub mod Verify
pub mod Signed
pub mod Verified
mod Tests
mod SignedTests
