-- ===== src/Search/Scan.antt =====
-- crates/search/src/source_refs.rs: the scan of workspace files for callers (`collect_source_facts`).
pub mod Strip
pub mod Tokens
pub mod Trim
pub mod References
pub mod Collect
mod Tests
