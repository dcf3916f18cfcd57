-- ===== src/Index.antt =====
-- crates/index: the import closures that scope probe verdicts.
pub mod Closure
pub mod Provenance
pub mod Opened
pub mod Lifecycle
