-- ===== src/Index/Lifecycle.antt =====
-- crates/index/src/cache_lifecycle.rs: what is in the cache and what a cleanup removes.
pub mod Disk
pub mod Diagnose
pub mod Cleanup
mod Tests
