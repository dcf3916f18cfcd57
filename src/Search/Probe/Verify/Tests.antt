-- ===== src/Search/Probe/Verify/Tests.antt =====
-- crates/search/src/semantic_verification.rs: a worker that answers, and a store that knows one pair.
use lean_dup.Base.{
  ℕ, String, Bool, true, false, none, List, [], ◌∷◌, map, any, All, All-imp, if◌then◌else◌, ◌==◌,
  ◌⊎◌, inl, inr, ◌≡◌, refl, ap, subst, arith, or_intro_left, or_intro_right, eq_iff, text_ord,
  nat_ord, pair_ord,
}
use lean_dup.Search.Declaration.{HydratedDeclaration}
use lean_dup.Search.Evidence.{ProbePair, ProbeResult, ProbeObligation}
use lean_dup.Search.Ranking.Queue.{rank_candidates}
use lean_dup.Search.Samples.{
  number_ops, suffix, ranking_input, candidate_sets, proved_origins, pair, row,
}
use lean_dup.Search.Probe.{ProbePolicy, ProbeSettings, PlannedProbe}
use lean_dup.Search.Probe.Classify.{SemanticVerificationInput}
use lean_dup.Search.Probe.Chunks.{WorkerError, ProbeCacheEntry, Run, Outcome}
use lean_dup.Search.Probe.Verify.{ProbeBatch, Lookup, chunks, chunks_from}
use lean_dup.Search.Probe.Verify.Chunked.{AreAnswered}
use lean_dup.Search.Probe.Verify.Resolved.{is_readable, is_hit}
use lean_dup.Search.Probe.Verify.Answers.{
  HasRows, IsKeyed, plan, begun, verified, verify_candidate_probes-AreAnswered,
  verify_candidate_probes-hits,
}

abbrev settings : ProbeSettings
settings = record {
  policy = ProbePolicy.actionable;
  budget = 8;
  per_declaration_cap = 4;
  chunk_size = 1;
  max_heartbeats = none;
}

abbrev input : SemanticVerificationInput ℕ
input = record {
  candidate_sets = candidate_sets;
  groups = (rank_candidates number_ops suffix ranking_input).groups;
  comparison_policy = proved_origins;
  enabled = true;
  include_private = false;
  include_generated = false;
  settings = settings;
}

abbrev key : ProbePair → HydratedDeclaration → HydratedDeclaration → ProbeObligation → String
key pair left right obligation = pair.pair_id

abbrev answers : ProbeBatch → List ProbeResult ⊎ WorkerError
answers batch = inl (map row batch.pairs)

abbrev display : WorkerError → String
display error = "timeout"

abbrev store_all : List ProbeCacheEntry → Bool
store_all entries = true

abbrev one_known : String → Lookup
one_known k = if k == "a-b" then Lookup.hit (row (pair "a-b" "b")) else Lookup.miss

abbrev all_known : String → Lookup
all_known k = Lookup.hit (row (pair k "b"))

one_readable : (k : String) → is_readable (one_known k) ≡ true
one_readable k = ground arith

one-IsKeyed : IsKeyed key one_known
one-IsKeyed pair left right obligation row e = ground (arith, eq_iff pair.pair_id "a-b")

abbrev rows_of : List ProbeResult ⊎ WorkerError → List ProbeResult
rows_of (inl rows) = rows
rows_of (inr error) = []

own_rows :
    (pairs : List ProbePair)
    → All (λ p. any (λ r. r.pair_id == p.pair_id) (map row pairs) ≡ true) pairs
own_rows [] = tt
own_rows (p ∷ ps) = (
  or_intro_left _ _ ((eq_iff p.pair_id p.pair_id).1 refl),
  All-imp (λ q h. or_intro_right _ _ h) ps (own_rows ps),
)

answers-HasRows : HasRows answers
answers-HasRows batch rows e =
    subst (λ found. All (λ p. any (λ r. r.pair_id == p.pair_id) found ≡ true) batch.pairs)
      (ap rows_of e) (own_rows batch.pairs)

two_and_one : chunks {A = ℕ} 2 (1 ∷ 2 ∷ 3 ∷ []) ≡ (1 ∷ 2 ∷ []) ∷ (3 ∷ []) ∷ []
unfolding chunks chunks_from
two_and_one = refl

verify_candidate_probes-AreAnswered_example :
    (r : Run) × (verified input number_ops key one_known "w" ("M" ∷ []) answers display store_all
      ≡ Outcome.done r)
    × AreAnswered
        (plan input number_ops key one_known "w" ("M" ∷ []) answers display store_all).0.planned
        (begun input number_ops key one_known "w" ("M" ∷ []) answers display store_all)
        r
verify_candidate_probes-AreAnswered_example =
    verify_candidate_probes-AreAnswered input number_ops key one_known "w" ("M" ∷ []) answers
      display store_all refl (omega arith) (omega arith) one_readable one-IsKeyed answers-HasRows
      (λ batch error e. cc e) (λ entries. refl)

every_hit : (ps : List PlannedProbe) → All (λ p. is_hit (all_known p.cache_key) ≡ true) ps
every_hit [] = tt
every_hit (p ∷ ps) = (refl, every_hit ps)

verify_candidate_probes-hits_example :
    (r : Run) × (verified input number_ops key all_known "w" ("M" ∷ []) answers display store_all
      ≡ Outcome.done r)
    × (r.diagnostics.worker_batches
        ≡ (plan input number_ops key all_known "w"
            ("M" ∷ [])
            answers
            display
            store_all).1.worker_batches)
    × (r.stored ≡ [])
verify_candidate_probes-hits_example =
    verify_candidate_probes-hits input number_ops key all_known "w" ("M" ∷ []) answers display
      store_all refl (omega arith) (omega arith) (every_hit _)
