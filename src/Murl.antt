-- ===== src/Murl.antt =====
-- crates/murl-core/src/murl.rs: the parser and the model of the `murl:` scheme.
pub mod Types
pub mod Utf8
pub mod Percent
pub mod Version
pub mod Authority
pub mod Selector
pub mod Parse
mod Tests
