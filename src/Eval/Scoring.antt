-- ===== src/Eval/Scoring.antt =====
-- crates/eval/src/eval/scoring.rs: `score_run`. A set is an ascending list. The metrics of the stages,
-- of crates/eval/src/eval/stage_metrics.rs, are a parameter; what `score_run` only copies is left out.
pub mod Recall
mod Tests
use lean_dup.Base.{
  ℕ, min, String, Bool, true, false, Option, none, some, List, [], ◌∷◌, map, filter, length,
  is_empty, leb, ltb, if◌then◌else◌, is_gt, Ord, nat_ord, text_ord, pair_ord,
}
use lean_dup.Base.Maps
use lean_dup.Base.Sets

-- `GoldPair`, whose derived order compares `left`, then `right`.
abbrev pub GoldPair : Type 0
GoldPair = String × String

unfoldable pub gold_pair : String → String → GoldPair
gold_pair left right = if is_gt (text_ord.cmp left right) then (right, left) else (left, right)

pub record ObservedCandidateSource : Type 0 where
  pub source_id : String
  pub source_family : String
  pub pair_id : String
  pub left_declaration_id : String
  pub right_declaration_id : String
  pub origin : String
  pub generation_rank : Option ℕ
  pub top_k_status : String
  pub top_k_saturated : Bool
  pub feature_families : List String

pub record ObservedPair : Type 0 where
  pub pair : GoldPair
  pub generated : Bool
  pub symbolic_generated : Bool
  pub merged_generated : Bool
  pub ranked : Bool
  pub generation_policy : String
  pub rank : Option ℕ
  pub shown : Bool
  pub origin : String
  pub feature_families : List String
  pub candidate_sources : List ObservedCandidateSource
  pub survived_shown_filter : Bool

pub record RecallAtK : Type 0 where
  pub k : ℕ
  pub found : ℕ
  pub total : ℕ

pub record CountMetric : Type 0 where
  pub found : ℕ
  pub total : ℕ

pub record GoldSets : Type 0 where
  pub positives : List GoldPair
  pub hard_negatives : List GoldPair

abbrev pub lower : Option ℕ → ℕ → ℕ
lower none rank = rank
lower (some best) rank = min best rank

abbrev pub note_rank : GoldPair → Option ℕ → List (GoldPair × ℕ) → List (GoldPair × ℕ)
note_rank pair none ranks = ranks
note_rank pair (some rank) ranks = Maps.insert pair (lower (Maps.get pair ranks) rank) ranks

-- The loop of `best_rank_by_pair`.
unfoldable pub best_from : List ObservedPair → List (GoldPair × ℕ) → List (GoldPair × ℕ)
best_from [] ranks = ranks
best_from (o ∷ os) ranks = best_from os (note_rank o.pair o.rank ranks)

unfoldable pub best_rank_by_pair : List ObservedPair → List (GoldPair × ℕ)
best_rank_by_pair pairs = best_from pairs []

unfoldable pub normalized_k_values : List ℕ → List ℕ
normalized_k_values k_values =
    Sets.extend (if is_empty k_values then 1 ∷ 5 ∷ 10 ∷ [] else filter (ltb 0) k_values) []

-- `is_some_and(|rank| *rank <= k)`.
abbrev pub within : ℕ → Option ℕ → Bool
within k none = false
within k (some rank) = leb rank k

unfoldable pub shown_pairs : List ObservedPair → List GoldPair
shown_pairs pairs = Sets.extend (map (λ o. o.pair) (filter (λ o. o.shown) pairs)) []

pub record EvaluationMetrics (M : Type 0) : Type 0 where
  pub recall : List RecallAtK
  pub shown_queue_precision : CountMetric
  pub hard_negative_hits : CountMetric
  pub stage_metrics : M
  pub candidate_count : ℕ

unfoldable pub recall_at : GoldSets → List ObservedPair → ℕ → RecallAtK
recall_at labels pairs k = record {
  k = k;
  found =
      length (filter (λ pair. within k (Maps.get pair (best_rank_by_pair pairs))) labels.positives);
  total = length labels.positives;
}

unfoldable pub score_run :
    {M : Type 0}
    → (GoldSets → List ObservedPair → List ℕ → M)
    → GoldSets
    → List ObservedPair
    → List ℕ
    → EvaluationMetrics M
score_run score_stages labels pairs k_values =
    let shown = shown_pairs pairs in
    record {
      recall = map (recall_at labels pairs) (normalized_k_values k_values);
      shown_queue_precision = record {
        found = length (filter (λ pair. Sets.contains pair labels.positives) shown);
        total = length shown;
      };
      hard_negative_hits = record {
        found = length (filter (λ pair. Sets.contains pair labels.hard_negatives) shown);
        total = length labels.hard_negatives;
      };
      stage_metrics = score_stages labels pairs k_values;
      candidate_count = length (filter (λ o. o.ranked) pairs);
    }
