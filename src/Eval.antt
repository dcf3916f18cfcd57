-- ===== src/Eval.antt =====
-- crates/eval: gold labels, and how a run is scored against them.
pub mod Scoring
pub mod Labels
