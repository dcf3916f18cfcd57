-- ===== src/Search/Retrieval/Top/Refines.antt =====
-- crates/search/src/retrieval.rs: `select_subset_by_score` as a sort of all its entries.
use lean_dup.Base.{
  ℕ, zero, suc, Option, none, some, [], ◌∷◌, Holds, All, All-prepend, All-sort_by, get_elem?, ◌-◌,
  ◌≤◌, List, map, length, drop, Ord, pair_ord, text_ord, nat_ord, ◌≡◌, ap, arith, length-sort_by,
  length-map, length-drop,
}
use lean_dup.Search.Retrieval.State.{ScoreOps, CandidateAccumulator}
use lean_dup.Search.Retrieval.Top.{entry_of, entries, in_final_order, select_subset_by_score}
use lean_dup.Search.Retrieval.Heap.Refines.{sorted, fill_refines}

All-map {ℓ κ μ} :
    {A : Type ℓ} {B : Type κ} (f : A → B) (P : B → Type μ) (xs : List A)
    → All (λ x. P (f x)) xs
    → All P (map f xs)
All-map f P [] h = tt
All-map f P (x ∷ xs) h = (h.0, All-map f P xs h.1)

All-drop {ℓ κ} : {A : Type ℓ} (P : A → Type κ) (n : ℕ) (xs : List A) → All P xs → All P (drop n xs)
All-drop P zero xs h = h
All-drop P (suc n) [] h = tt
All-drop P (suc n) (x ∷ xs) h = All-drop P n xs h.1

module _ {S M : Type 0} ⦃o : Ord M⦄ (ops : ScoreOps S M)
    (candidates : List (CandidateAccumulator S)) (indices : List ℕ) (limit : ℕ)
    (score : CandidateAccumulator S → S) where
  -- The selection with a bounded heap is the one that sorts every entry by score, sort key and
  -- index, forgets the first ones beyond the limit, and puts the rest in the final order.
  pub select_subset_by_score_refines :
      select_subset_by_score ops candidates indices limit score
      ≡ in_final_order ops candidates score (
          drop
            (length (entries ops candidates indices score) - limit)
            (sorted (entries ops candidates indices score)))
  unfolding select_subset_by_score
  select_subset_by_score_refines =
      ap (in_final_order ops candidates score)
        (fill_refines limit (entries ops candidates indices score))

  pub length-select_subset_by_score :
      length (select_subset_by_score ops candidates indices limit score) ≤ limit
  length-select_subset_by_score =
      let es = entries ops candidates indices score in
      let kept = drop (length es - limit) (sorted es) in
      rw select_subset_by_score_refines (
        rw (length-sort_by _ (map (λ e. e.1.1) kept)) (
          rw (length-map (λ e. e.1.1) kept) (
            omega (
              arith,
              length-drop (length es - limit) (sorted es),
              length-sort_by (pair_ord.cmp) es,
            ))))

  entry_of-At :
      (P : ℕ → Type 0) (i : ℕ) (c : Option (CandidateAccumulator S))
      → P i
      → Holds (λ e. P e.1.1) (entry_of ops score i c)
  entry_of-At P i none h = tt
  entry_of-At P i (some c) h = h

  entries-All :
      (P : ℕ → Type 0) (is : List ℕ)
      → All P is
      → All (λ e. P e.1.1) (entries ops candidates is score)
  entries-All P [] h = tt
  entries-All P (i ∷ is) h =
      All-prepend (λ e. P e.1.1) (entry_of ops score i (get_elem? candidates i))
        (entries ops candidates is score) (entry_of-At P i (get_elem? candidates i) h.0)
        (entries-All P is h.1)

  -- What is true of the indices is true of those that are kept.
  pub select_subset_by_score-All :
      (P : ℕ → Type 0)
      → All P indices
      → All P (select_subset_by_score ops candidates indices limit score)
  select_subset_by_score-All P h =
      let es = entries ops candidates indices score in
      let kept = drop (length es - limit) (sorted es) in
      rw select_subset_by_score_refines (
        All-sort_by _ P (map (λ e. e.1.1) kept) (
          All-map (λ e. e.1.1) P kept
            (All-drop (λ e. P e.1.1) (length es - limit) (sorted es)
              (All-sort_by pair_ord.cmp (λ e. P e.1.1) es (entries-All P indices h)))))
