-- ===== src/Search/Hints.antt =====
-- crates/search/src/replacement_hints.rs: the hints on replacing declarations.
pub mod Status
pub mod Impact
pub mod Group
pub mod Unused
pub mod Attach
pub mod Requested
mod Tests
