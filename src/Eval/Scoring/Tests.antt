-- ===== src/Eval/Scoring/Tests.antt =====
-- crates/eval/src/eval/scoring.rs: a run that finds one of two positive pairs.
use lean_dup.Base.{
  ℕ, String, Bool, true, some, List, [], ◌∷◌, map, All, ◌≤◌, arith, nat_ord, text_ord,
}
use lean_dup.Base.Sets
use lean_dup.Eval.Scoring.{ObservedPair, GoldSets, recall_at, score_run}
use lean_dup.Eval.Scoring.Recall.{IsRecall, score_run-IsRecall, recall_at_mono}

abbrev observed : String → String → ℕ → ObservedPair
observed left right rank = record {
  pair = (left, right);
  generated = true;
  symbolic_generated = true;
  merged_generated = true;
  ranked = true;
  generation_policy = "all";
  rank = some rank;
  shown = true;
  origin = "workspace";
  feature_families = [];
  candidate_sources = [];
  survived_shown_filter = true;
}

abbrev labels : GoldSets
labels = record { positives = ("a", "b") ∷ ("a", "c") ∷ []; hard_negatives = [] }

abbrev pairs : List ObservedPair
pairs = observed "a" "b" 7 ∷ observed "a" "b" 3 ∷ []

abbrev no_stages : GoldSets → List ObservedPair → List ℕ → Bool
no_stages gold os ks = true

score_run-IsRecall_example :
    Sets.IsAscending (map (λ row. row.k) (score_run no_stages labels pairs (5 ∷ 1 ∷ 5 ∷ [])).recall)
    × All (IsRecall labels pairs) (score_run no_stages labels pairs (5 ∷ 1 ∷ 5 ∷ [])).recall
score_run-IsRecall_example = score_run-IsRecall labels pairs no_stages (5 ∷ 1 ∷ 5 ∷ [])

recall_at_mono_example : (recall_at labels pairs 1).found ≤ (recall_at labels pairs 5).found
recall_at_mono_example = recall_at_mono labels pairs 1 5 (omega arith)
