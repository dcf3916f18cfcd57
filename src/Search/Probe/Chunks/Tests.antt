-- ===== src/Search/Probe/Chunks/Tests.antt =====
-- crates/search/src/semantic_verification.rs: a worker that fails on batches of more than one pair.
use lean_dup.Base.{
  String, Bool, true, false, none, List, [], ◌∷◌, any, ◌≡◌, refl, ap, subst, arith, ◌⊎◌, inl, inr,
  ◌==◌, or_intro_left, eq_iff,
}
use lean_dup.Search.Evidence.{ProbeObligation, ProbePair, ProbeResult}
use lean_dup.Search.Samples.{pair, row}
use lean_dup.Search.Probe.{PlannedProbe, ProbePolicy, ProbeRisk}
use lean_dup.Search.Probe.Diagnostics.{initial_diagnostics}
use lean_dup.Search.Probe.Chunks.{
  WorkerError, ProbeCacheEntry, Run, Outcome, recoverable_probe_error, run_probe_chunk,
}
use lean_dup.Search.Probe.Chunks.Recovery.{
  IsComplete, IsRecoverable, IsAnswered, run_probe_chunk-IsAnswered,
}

abbrev flaky : List ProbePair → List ProbeResult ⊎ WorkerError
flaky [] = inl []
flaky (p ∷ []) = inl (row p ∷ [])
flaky (p ∷ q ∷ ps) = inr (WorkerError.timed_out_after 300)

abbrev display : WorkerError → String
display error = "timeout"

abbrev store_all : List ProbeCacheEntry → Bool
store_all entries = true

abbrev probe : String → PlannedProbe
probe id = record {
  pair = pair id "b";
  cache_key = id;
  obligation = ProbeObligation.exact_theorem;
  facts = record {
    source_id = "symbolic-retrieval";
    source_family = "symbolic";
    match_class = "exact-theorem";
    declaration_kind = "theorem+theorem";
    risk = ProbeRisk.ordinary;
  };
  right_module = "M";
  right_origin = "workspace";
  left_module = "M";
  left_origin = "workspace";
  include_private = false;
  include_generated = false;
}

abbrev chunk : List PlannedProbe
chunk = probe "x" ∷ probe "y" ∷ probe "z" ∷ []

abbrev idle : Run
idle = record {
  evidence = [];
  diagnostics = initial_diagnostics true (record {
    policy = ProbePolicy.actionable;
    budget = 3;
    per_declaration_cap = 3;
    chunk_size = 3;
    max_heartbeats = none;
  });
  stored = [];
}

abbrev rows_of : List ProbeResult ⊎ WorkerError → List ProbeResult
rows_of (inl rows) = rows
rows_of (inr error) = []

abbrev error_of : List ProbeResult ⊎ WorkerError → WorkerError
error_of (inl rows) = WorkerError.cancelled
error_of (inr error) = error

flaky-IsComplete : IsComplete flaky
flaky-IsComplete [] rows e = tt
flaky-IsComplete (p ∷ []) rows e = (
  subst (λ found. any (λ r. r.pair_id == p.pair_id) found ≡ true) (ap rows_of e)
      (or_intro_left _ false ((eq_iff p.pair_id p.pair_id).1 refl)),
  tt,
)
flaky-IsComplete (p ∷ q ∷ ps) rows e = cc e

flaky-IsRecoverable : IsRecoverable flaky
unfolding recoverable_probe_error
flaky-IsRecoverable [] error e = cc e
flaky-IsRecoverable (p ∷ []) error e = cc e
flaky-IsRecoverable (p ∷ q ∷ ps) error e =
    subst (λ found. recoverable_probe_error found ≡ true) (ap error_of e) refl

run_probe_chunk-IsAnswered_example :
    (r : Run) × (run_probe_chunk flaky display store_all 3 chunk idle ≡ Outcome.done r)
    × IsAnswered chunk idle r
run_probe_chunk-IsAnswered_example =
    run_probe_chunk-IsAnswered flaky display store_all flaky-IsComplete flaky-IsRecoverable
      (λ entries. refl) 3 chunk idle (omega arith) (omega arith)
