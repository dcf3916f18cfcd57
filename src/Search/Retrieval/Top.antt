-- ===== src/Search/Retrieval/Top.antt =====
-- crates/search/src/retrieval.rs: the best candidates of a declaration (`select_subset_by_score`).
pub mod Refines
use lean_dup.Base.{
  ℕ, zero, suc, refl, ◌≡◌, Ordering, String, Option, none, some, List, [], ◌∷◌, map, filter_map,
  and_then, sort_by, Ord, text_ord, nat_ord, pair_ord, length, get_elem?,
}
use lean_dup.Search.Retrieval.Keys.{or_equal}
use lean_dup.Search.Retrieval.State.{
  ScoreOps, CandidateAccumulator, CandidateId, candidate_sort_key,
}
use lean_dup.Search.Retrieval.Heap.{fill}

-- `HeapEntry`: the score, the tie breaker and the index, compared in this order.
abbrev pub HeapEntry : Type 0 → Type 0
HeapEntry M = M × (String × ℕ)

-- By the score, the greater one first.
abbrev pub by_score : {S M : Type 0} → ScoreOps S M → S → S → Ordering
by_score ops l r = or_equal (ops.float.partial_cmp r l)

-- `.then_with(…)` on the sort keys.
abbrev pub by_id : CandidateId → CandidateId → Ordering
by_id l r = text_ord.cmp (candidate_sort_key l) (candidate_sort_key r)

module _ {S M : Type 0} ⦃o : Ord M⦄ (ops : ScoreOps S M) where
  abbrev pub by_score_and_id :
      (CandidateAccumulator S → S) → CandidateAccumulator S → CandidateAccumulator S → Ordering
  by_score_and_id score l r = and_then (by_score ops (score l) (score r)) (by_id l.id r.id)

  abbrev pub final_order :
      (CandidateAccumulator S → S)
      → Option (CandidateAccumulator S)
      → Option (CandidateAccumulator S)
      → Ordering
  final_order score none r = Ordering.eq
  final_order score (some l) none = Ordering.eq
  final_order score (some l) (some r) = by_score_and_id score l r

  abbrev pub entry_of :
      (CandidateAccumulator S → S) → ℕ → Option (CandidateAccumulator S) → Option (HeapEntry M)
  entry_of score i none = none
  entry_of score i (some c) = some (ops.micros (score c), (candidate_sort_key c.id, i))

  abbrev pub entries :
      List (CandidateAccumulator S) → List ℕ → (CandidateAccumulator S → S) → List (HeapEntry M)
  entries candidates indices score =
      filter_map (λ i. entry_of score i (get_elem? candidates i)) indices

  abbrev pub in_final_order :
      List (CandidateAccumulator S) → (CandidateAccumulator S → S) → List (HeapEntry M) → List ℕ
  in_final_order candidates score es =
      sort_by (λ i j. final_order score (get_elem? candidates i) (get_elem? candidates j))
        (map (λ e. e.1.1) es)

  -- At an index out of range the source panics; here it is passed over, and the calls of `select_top`
  -- test the indices first.
  unfoldable pub select_subset_by_score :
      List (CandidateAccumulator S) → List ℕ → ℕ → (CandidateAccumulator S → S) → List ℕ
  select_subset_by_score candidates indices limit score =
      in_final_order candidates score (fill limit (entries candidates indices score) [])
