-- ===== src/Search/Retrieval/Heap.antt =====
-- crates/search/src/retrieval.rs: the bounded heap of `select_subset_by_score`. A
-- `BinaryHeap<Reverse<_>>` of the standard library is its entries in ascending order, so that the
-- entry that `peek_mut` shows comes first.
pub mod Refines
use lean_dup.Base.{ℕ, List, [], ◌∷◌, length, ltb, if◌then◌else◌, Ord, sort_by, insert_by, is_gt}

module _ {ℓ} {K : Type ℓ} ⦃o : Ord K⦄ where
  abbrev pub push : K → List K → List K
  push e heap = insert_by o.cmp e heap

  -- `*smallest = Reverse(entry)` if the entry is greater.
  abbrev pub replace_smallest : K → List K → List K
  replace_smallest e [] = []
  replace_smallest e (smallest ∷ rest) =
      if is_gt (o.cmp e smallest) then push e rest else smallest ∷ rest

  unfoldable pub offer : ℕ → K → List K → List K
  offer limit e heap = if ltb (length heap) limit then push e heap else replace_smallest e heap

  unfoldable pub fill : ℕ → List K → List K → List K
  fill limit [] heap = heap
  fill limit (e ∷ es) heap = fill limit es (offer limit e heap)
