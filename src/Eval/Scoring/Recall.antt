-- ===== src/Eval/Scoring/Recall.antt =====
-- crates/eval/src/eval/scoring.rs: what recall at k counts.
use lean_dup.Base.{
  ℕ, min, ◌≤◌, Bool, true, false, ◌&&◌, ◌||◌, Option, none, some, List, [], ◌∷◌, map, filter,
  length, any, All, leb, ◌≡◌, refl, sym, ap, ◌∙◌, arith, nat_ord, text_ord, pair_ord, or_false,
  Bool-cases, inl, inr, length-filter_le,
}
use lean_dup.Base.Maps
use lean_dup.Base.Sets
use lean_dup.Base.Sets.{same, same_iff}
use lean_dup.Eval.Scoring.{
  GoldPair, ObservedPair, RecallAtK, GoldSets, lower, note_rank, best_from, best_rank_by_pair,
  normalized_k_values, within, recall_at, score_run,
}

-- Whether an observation ranks a pair within the first `k`.
abbrev pub ranks_within : ℕ → GoldPair → ObservedPair → Bool
ranks_within k pair o = same pair o.pair && within k o.rank

within-min : (k a b : ℕ) → leb (min a b) k ≡ (leb a k || leb b k)
within-min k a b = ground arith

within-lower : (k : ℕ) (o : Option ℕ) (rank : ℕ) → leb (lower o rank) k ≡ (within k o || leb rank k)
within-lower k none rank = refl
within-lower k (some a) rank = within-min k a rank

note_rank-within :
    (k : ℕ) (z pair : GoldPair) (rank : Option ℕ) (ranks : List (GoldPair × ℕ))
    → within k (Maps.get z (note_rank pair rank ranks))
      ≡ (within k (Maps.get z ranks) || same z pair && within k rank)
note_rank-within k z pair none ranks = ground arith
note_rank-within k z pair (some rank) ranks = elim (Bool-cases (same z pair)) [
  | inl e ↦
      rw (Maps.get-insert z pair (lower (Maps.get pair ranks) rank) ranks, e)
        (within-lower k (Maps.get pair ranks) rank
          ∙ ap (λ w. within k (Maps.get w ranks) || leb rank k) (sym ((same_iff z pair).0 e)))
  | inr e ↦
      rw (Maps.get-insert z pair (lower (Maps.get pair ranks) rank) ranks, e) (sym (or_false _))
]

best_from-within :
    (k : ℕ) (z : GoldPair) (os : List ObservedPair) (ranks : List (GoldPair × ℕ))
    → within k (Maps.get z (best_from os ranks))
      ≡ (within k (Maps.get z ranks) || any (ranks_within k z) os)
unfolding best_from
best_from-within k z [] ranks = ground arith
best_from-within k z (o ∷ os) ranks = ground (
  arith,
  best_from-within k z os (note_rank o.pair o.rank ranks),
  note_rank-within k z o.pair o.rank ranks,
)

filter_ext :
    (p q : GoldPair → Bool) (xs : List GoldPair)
    → ((x : GoldPair) → p x ≡ q x)
    → filter p xs ≡ filter q xs
filter_ext p q [] h = refl
filter_ext p q (x ∷ xs) h = rw (h x, filter_ext p q xs h) refl

length-filter_mono :
    (p q : GoldPair → Bool) (xs : List GoldPair)
    → ((x : GoldPair) → p x ≡ true → q x ≡ true)
    → length (filter p xs) ≤ length (filter q xs)
length-filter_mono p q [] h = omega arith
length-filter_mono p q (x ∷ xs) h = ground (arith, h x, length-filter_mono p q xs h)

-- What a row of the recall counts.
pub record IsRecall (labels : GoldSets) (pairs : List ObservedPair) (row : RecallAtK) : Type 0 where
  pub counts_ranked :
      row.found ≡ length (filter (λ pair. any (ranks_within row.k pair) pairs) labels.positives)
  pub within_total : row.found ≤ row.total
  pub all_positives : row.total ≡ length labels.positives

no_rank : (k : ℕ) (z : GoldPair) → within k (Maps.get z []) ≡ false
unfolding Maps.get
no_rank k z = refl

best-ranks_within :
    (pairs : List ObservedPair) (k : ℕ) (z : GoldPair)
    → within k (Maps.get z (best_rank_by_pair pairs)) ≡ any (ranks_within k z) pairs
unfolding best_rank_by_pair
best-ranks_within pairs k z =
    best_from-within k z pairs [] ∙ ap (λ b. b || any (ranks_within k z) pairs) (no_rank k z)

module _ (labels : GoldSets) (pairs : List ObservedPair) where
  recall_at-IsRecall : (k : ℕ) → IsRecall labels pairs (recall_at labels pairs k)
  unfolding recall_at
  recall_at-IsRecall k = record {
    counts_ranked = ap length (filter_ext _ _ labels.positives (best-ranks_within pairs k));
    within_total = length-filter_le _ labels.positives;
    all_positives = refl;
  }

  rows : (ks : List ℕ) → All (IsRecall labels pairs) (map (recall_at labels pairs) ks)
  rows [] = tt
  rows (k ∷ ks) = (recall_at-IsRecall k, rows ks)

  row_ks : (ks : List ℕ) → map (λ row. row.k) (map (recall_at labels pairs) ks) ≡ ks
  unfolding recall_at
  row_ks [] = refl
  row_ks (k ∷ ks) = ap (◌∷◌ k) (row_ks ks)

  normalized-IsAscending : (ks : List ℕ) → Sets.IsAscending (normalized_k_values ks)
  unfolding normalized_k_values
  normalized-IsAscending ks = Sets.extend-IsAscending _ [] tt

  -- The rows of the recall have strictly ascending `k`, and each counts the positive labels for which
  -- some observation of the pair has a rank of at most `k`, out of all positive labels.
  pub score_run-IsRecall :
      {M : Type 0} (score_stages : GoldSets → List ObservedPair → List ℕ → M) (k_values : List ℕ)
      → Sets.IsAscending (map (λ row. row.k) (score_run score_stages labels pairs k_values).recall)
        × All (IsRecall labels pairs) (score_run score_stages labels pairs k_values).recall
  unfolding score_run
  score_run-IsRecall score_stages k_values =
      let ks = normalized_k_values k_values in
      (rw (row_ks ks) (normalized-IsAscending k_values), rows ks)

  within_mono : (k k' : ℕ) (o : Option ℕ) → k ≤ k' → within k o ≡ true → within k' o ≡ true
  within_mono k k' none h e = e
  within_mono k k' (some rank) h e = ground arith

  -- Recall does not fall as `k` grows.
  pub recall_at_mono :
      (k k' : ℕ) → k ≤ k' → (recall_at labels pairs k).found ≤ (recall_at labels pairs k').found
  unfolding recall_at
  recall_at_mono k k' h = length-filter_mono _ _ labels.positives (λ pair e. within_mono k k' _ h e)
