-- ===== src/Search/Retrieval/Select/Members.antt =====
-- crates/search/src/retrieval.rs: `select_top` keeps candidates that it was given.
use lean_dup.Base.{
  ℕ, suc, String, Bool, List, [], ◌∷◌, filter, All, All-sort_by, get_elem?, Ord, arith, length,
  length-sort_by, ◌≤◌, ◌≡◌, refl, ap, expect, traverse, Ends, Ends->>=,
}
use lean_dup.Search.Declaration.{CandidateSourceEvidence}
use lean_dup.Search.Retrieval.State.{
  ScoreOps, CandidateId, CandidateAccumulator, SelectedCandidate, RetrievalDiagnostics,
}
use lean_dup.Search.Retrieval.Select.{
  EvidenceMap, selected_at, selection_order, source_evidence_by_index, select_admitted, select_top,
  values,
}
use lean_dup.Search.Retrieval.Select.Bounds.{
  IsBelow, IsIndexed, get_elem-Ends, source_evidence_by_index-IsIndexed,
}
use lean_dup.Search.Retrieval.Accumulate.Members.{Values}

module _ {S M : Type 0} ⦃o : Ord M⦄ (ops : ScoreOps S M) (P : CandidateId → Type 0) where
  Ids : List (CandidateAccumulator S) → Type 0
  Ids candidates = All (λ c. P c.id) candidates

  pub values-Ids :
      (m : List (CandidateId × CandidateAccumulator S))
      → Values (λ a. P a.id) m
      → All (λ c. P c.id) (values m)
  values-Ids [] h = tt
  values-Ids (e ∷ m) h = (h.0, values-Ids m h.1)

  filter-Ids :
      (p : CandidateAccumulator S → Bool) (candidates : List (CandidateAccumulator S))
      → All (λ c. P c.id) candidates
      → All (λ c. P c.id) (filter p candidates)
  filter-Ids p [] h = tt
  filter-Ids p (c ∷ cs) h = let rest = filter-Ids p cs h.1 in ground (arith, rest)

  -- A selection that keeps at most 128 candidates, all of them with a property of ids.
  abbrev pub IsKept : List (SelectedCandidate S) × RetrievalDiagnostics → Type 0
  IsKept r = (length r.0 ≤ 128) × All (λ s. P s.id) r.0

  selected_at-Ids :
      (E : Type 0) (candidates : List (CandidateAccumulator S))
      (entry : ℕ × List CandidateSourceEvidence)
      → All (λ c. P c.id) candidates
      → IsBelow (length candidates) entry
      → Ends {E = E} (λ s. P s.id) (selected_at ops candidates entry)
  selected_at-Ids E candidates (i, evidence) h b =
      Ends->>= (λ c. P c.id) (λ s. P s.id) (expect (get_elem? candidates i)) _
        (get_elem-Ends E (λ c. P c.id) candidates i h b) (λ c p. p)

  all_selected_at-Ids :
      (E : Type 0) (candidates : List (CandidateAccumulator S)) (m : EvidenceMap)
      → All (λ c. P c.id) candidates
      → All (IsBelow (length candidates)) m
      → Ends {E = E}
          (λ ss. (length ss ≡ length m) × All (λ s. P s.id) ss)
          (traverse (selected_at ops candidates) m)
  all_selected_at-Ids E candidates [] h b = (refl, tt)
  all_selected_at-Ids E candidates (entry ∷ m) h b =
      Ends->>= (λ s. P s.id) (λ ss. (length ss ≡ suc (length m)) × All (λ s. P s.id) ss)
        (selected_at ops candidates entry) _ (selected_at-Ids E candidates entry h b.0)
        (λ s p.
          Ends->>= (λ ss. (length ss ≡ length m) × All (λ s. P s.id) ss)
            (λ ss. (length ss ≡ suc (length m)) × All (λ s. P s.id) ss)
            (traverse (selected_at ops candidates) m) _ (all_selected_at-Ids E candidates m h b.1)
            (λ ss k. (ap suc k.0, (p, k.1))))

  select_admitted-IsKept :
      (E : Type 0) (anchor_id : String) (candidates : List (CandidateAccumulator S))
      (d : RetrievalDiagnostics)
      → All (λ c. P c.id) candidates
      → Ends {E = E} IsKept (select_admitted ops anchor_id candidates d)
  unfolding select_admitted
  select_admitted-IsKept E anchor_id candidates d h =
      Ends->>= (IsIndexed E ops candidates 128) IsKept (source_evidence_by_index ops candidates) _
        (source_evidence_by_index-IsIndexed E ops candidates)
        (λ m b.
          Ends->>= (λ ss. (length ss ≡ length m) × All (λ s. P s.id) ss) IsKept
            (traverse (selected_at ops candidates) m) _ (all_selected_at-Ids E candidates m h b.1)
            (λ ss k. (
              omega (arith, b.0, k.0, length-sort_by (selection_order ops) ss),
              All-sort_by (selection_order ops) (λ s. P s.id) ss k.1,
            )))

  -- No index is out of range, so that the selection does not panic.
  pub select_top-IsKept :
      (E : Type 0) (anchor_id : String) (candidates : List (CandidateAccumulator S))
      (d : RetrievalDiagnostics)
      → All (λ c. P c.id) candidates
      → Ends {E = E} IsKept (select_top ops anchor_id candidates d)
  unfolding select_top
  select_top-IsKept E anchor_id candidates d h =
      select_admitted-IsKept E anchor_id (filter (λ c. c.admitted) candidates) d
        (filter-Ids (λ c. c.admitted) candidates h)
