-- ===== src/Search.antt =====
-- crates/search: candidate declarations, the review policy, ranking and semantic verification.
pub mod Declaration
mod Samples
pub mod Policy
pub mod Evidence
pub mod Sources
pub mod Review
pub mod Retrieval
pub mod Scan
pub mod Ranking
pub mod Hints
pub mod Baseline
pub mod Probe
pub mod Cleanup
