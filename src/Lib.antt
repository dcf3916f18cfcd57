-- ===== src/Lib.antt =====
-- lean-dup finds duplicate declarations in Lean projects. It indexes the declarations of a workspace
-- and of comparison libraries, retrieves candidate pairs by fingerprints, asks a Lean worker to prove
-- the promising ones, and ranks the pairs into a review queue. This library models the parts of the
-- pipeline that decide: which modules a cached verdict depends on, which pairs are probed and how
-- often, how a failing batch is recovered, and what a reviewer is shown.
--
-- Files and the code that they model:
--   Base            lists, sets, maps, sorting and texts as the standard library of Rust has them
--   Index/Closure   crates/index/src/import_graph.rs: `ModuleClosureResolver`. The caches are the
--                   fields of `Resolver`, passed from call to call; `Walk` holds the variables of the
--                   loop in `closure_members`, and `visit` is one round of it.
--   Index/Lifecycle crates/index/src/cache_lifecycle.rs: `cleanup_cache` (Cleanup) and `diagnose_cache`
--                   (Diagnose) on a disk whose state is passed from call to call (Disk)
--   Index/Opened    crates/index/src/index.rs: the operations of an opened index, as an interface
--   Index/Provenance  crates/index/src/external_provenance.rs: what a comparison origin can prove,
--                   and `resolve`, which settles it from the opened indexes (Resolve)
--   Search/Declaration  the records of crates/index/src/index.rs and crates/search/src/retrieval.rs
--   Search/Policy   crates/search/src/review_policy.rs: the blockers of a pair
--   Search/Evidence crates/search/src/semantic_verification.rs: reading a probe result
--   Search/Sources  crates/search/src/source_refs.rs: the facts that ranking asks for
--   Search/Scan     crates/search/src/source_refs.rs: `collect_source_facts` (Collect), which strips
--                   comments (Strip), searches for names (Tokens) and bounds what it finds (References)
--   Search/Retrieval  crates/search/src/retrieval.rs: the plans of a declaration (Keys), what they add
--                   to its candidates (Accumulate), the bounded selection (Heap, Top, Select), the whole
--                   run over the opened indexes (Run), and one pair (Tracked)
--   Search/Review   crates/search/src/ranking.rs: the types of the queue and `ReviewFilter`
--   Search/Ranking  crates/search/src/ranking.rs: `rank_pair` (Pair), the choice of relation, priority,
--                   confidence and action (Decision), `rank_candidates` (Queue)
--   Search/Hints    crates/search/src/replacement_hints.rs: the summary of the facts (Status), the
--                   impact on callers (Impact), `attach_replacement_hints` (Group)
--   Search/Cleanup  crates/search/src/workspace_cleanup.rs: `cleanup_stale_workspace_files`
--   Search/Baseline crates/search/src/baseline.rs: `diff` of two snapshots
--   Search/Probe    crates/search/src/semantic_verification.rs: `plan_probes` (Eligibility, Quotas,
--                   Classify, Select), its counters (Diagnostics, Counting), `run_probe_chunk` (Chunks),
--                   `verify_candidate_probes` (Verify) and `probe_cache_key` (CacheKey)
--   Eval/Labels     crates/eval/src/eval/labels.rs: `parse_json` after the JSON is read (`gold_labels`)
--   Eval/Scoring    crates/eval/src/eval/scoring.rs: `score_run` and what it computes
--   Cli/Changed     crates/cli/src/changed.rs: `parse_current_ranges`, which reads the ranges of a patch,
--                   and `source_ranges`, which asks git for them (Git)
--
-- How the parts interact: ranking runs twice, first on static evidence to choose the pairs that
-- `plan_probes` may probe, then on the evidence that the probes left. The cache key of a probe holds
-- the closure digests of both modules, so Index/Closure decides when a verdict is still valid.
--
-- Retrieval reads opened indexes, each of which may fail, and ends in a value, an error or a panic
-- (`Attempt` in Base/Results). Hints take the scan of a declaration at its word: what Search/Scan calls
-- complete is what they say about callers.
--
-- Parameters: the file system, the JSON parser and SHA-256 (`Files`), the worker, its error texts and
-- the probe store (Search/Probe/Chunks), the digest of a group id (`suffix`), the cache key of a probe
-- (`key`), the metrics of the stages of a run, the disks of Index/Lifecycle,
-- Search/Scan and Search/Cleanup, git and the file system of Cli/Changed, `canonicalize` in Index/Provenance, an opened
-- index, and the arithmetic of `f64` scores (`FloatOps`, `ScoreOps`), which no theorem assumes anything
-- about.
--
-- Fuel: the walk over imports has fuel above the cost of its module, the number of rounds that a walk
-- without caches takes; the halving of a chunk has fuel for its length, since each half is shorter;
-- the digits of a padded index have fuel for the twenty digits of a `usize`.
-- Counters are natural numbers: a `usize` would need 2^64 candidates to wrap. The product of a budget
-- and a percentage, which the command line can make wrap, is taken modulo 2^64.
-- An index out of range is a panic (`panicked`), as is an `expect` on nothing.
--
-- Not modelled: SQLite storage, the transport to the Lean process, embeddings and the vector index,
-- report rendering, progress and the rest of the command line, which are input and output; the scorer's
-- weights, the stage metrics and the audit that calls the parts one after another.
pub mod Base
pub mod Cli
pub mod Eval
pub mod Index
pub mod Search
