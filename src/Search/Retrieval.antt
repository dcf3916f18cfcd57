-- ===== src/Search/Retrieval.antt =====
-- crates/search/src/retrieval.rs: the candidates of each declaration of a workspace.
pub mod Keys
pub mod Heap
pub mod State
pub mod Top
pub mod Accumulate
pub mod Select
pub mod Run
pub mod Tracked
mod Tests
