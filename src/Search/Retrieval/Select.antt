-- ===== src/Search/Retrieval/Select.antt =====
-- crates/search/src/retrieval.rs: the candidates that a declaration keeps (`select_top`): the best by
-- their whole score, and the best of each semantic lane.
mod Lanes
pub mod Bounds
pub mod Members
unfoldable pub use Lanes.*
use lean_dup.Base.{
  ℕ, suc, ◌+◌, ◌-◌, Ordering, and_then, String, Bool, true, false, ◌&&◌, Option, none, some, List,
  [], ◌∷◌, ◌++◌, map, filter, filter_map, length, ltb, is_empty, one_of, if◌then◌else◌, ◌==◌,
  enumerate_from, get_elem?, sort_by, indices_from, Attempt, done, panicked, ◌>>=◌, expect,
  traverse, Ord, nat_ord, text_ord,
}
use lean_dup.Base.Maps
use lean_dup.Base.Sets
use lean_dup.Search.Declaration.{
  KeyContribution, CandidateSourceEvidence, CandidateSourceFamily, CandidateTopKStatus,
}
use lean_dup.Search.Retrieval.Keys.{feature_family}
use lean_dup.Search.Retrieval.State.{
  ScoreOps, CandidateAccumulator, SelectedCandidate, RetrievalDiagnostics, label, top_k, lane_top_k,
}
use lean_dup.Search.Retrieval.Top.{select_subset_by_score, by_score, by_id}

-- The indices at which the slice has a candidate.
abbrev pub all_in_range : {S : Type 0} → List (CandidateAccumulator S) → List ℕ → Bool
all_in_range candidates [] = true
all_in_range candidates (i ∷ is) = ltb i (length candidates) && all_in_range candidates is

module _ {S M : Type 0} ⦃o : Ord M⦄ (ops : ScoreOps S M) where
  -- A sum from the left.
  abbrev pub sum_scores : S → List (KeyContribution S) → S
  sum_scores s [] = s
  sum_scores s (c ∷ cs) = sum_scores (ops.float.add s c.score) cs

  unfoldable pub semantic_lane_score : CandidateAccumulator S → SemanticCandidateLane → S
  semantic_lane_score candidate lane =
      sum_scores (ops.float.literal 0) (filter (accepts lane) (values candidate.contributions))

  abbrev pub in_lane : SemanticCandidateLane → CandidateAccumulator S → Bool
  in_lane lane candidate = ops.float.less (ops.float.literal 0) (semantic_lane_score candidate lane)

  abbrev pub lane_candidates : SemanticCandidateLane → List (ℕ × CandidateAccumulator S) → List ℕ
  lane_candidates lane candidates =
      map (λ entry. entry.0) (filter (λ entry. in_lane lane entry.1) candidates)

  -- The loop over a selection; the rank of its first index is given. An index out of range is a
  -- panic.
  unfoldable pub note_selection :
      {E : Type 0}
      → List (CandidateAccumulator S)
      → (ℕ → CandidateAccumulator S → CandidateSourceEvidence)
      → List (ℕ × ℕ)
      → EvidenceMap
      → Attempt E EvidenceMap
  note_selection candidates evidence [] m = done m
  note_selection candidates evidence ((rank, i) ∷ rest) m = do
    c ← expect (get_elem? candidates i)
    note_selection candidates evidence rest (note_evidence i (evidence rank c) m)

  -- `select_subset_by_score`, which looks every index up.
  unfoldable pub select_subset :
      {E : Type 0}
      → List (CandidateAccumulator S)
      → List ℕ
      → ℕ
      → (CandidateAccumulator S → S)
      → Attempt E (List ℕ)
  select_subset candidates indices limit score =
      if all_in_range candidates indices
      then done (select_subset_by_score ops candidates indices limit score)
      else panicked

  abbrev pub symbolic_evidence : Bool → ℕ → CandidateAccumulator S → CandidateSourceEvidence
  symbolic_evidence saturated rank c =
      selected_source_evidence "symbolic-retrieval" CandidateSourceFamily.symbolic rank saturated
        (values c.contributions)

  abbrev pub semantic_evidence_of :
      SemanticCandidateLane → Bool → ℕ → CandidateAccumulator S → CandidateSourceEvidence
  semantic_evidence_of lane saturated rank c =
      selected_source_evidence (source_id lane) CandidateSourceFamily.lean_semantic rank saturated
        (filter (accepts lane) (values c.contributions))

  abbrev pub lane_selection :
      {E : Type 0} → List (CandidateAccumulator S) → SemanticCandidateLane → Attempt E (List ℕ)
  lane_selection candidates lane =
      select_subset candidates (lane_candidates lane (enumerate_from 0 candidates)) lane_top_k
        (λ c. semantic_lane_score c lane)

  abbrev pub lane_saturated : List (CandidateAccumulator S) → SemanticCandidateLane → Bool
  lane_saturated candidates lane =
      ltb lane_top_k (length (lane_candidates lane (enumerate_from 0 candidates)))

  unfoldable pub note_lane :
      {E : Type 0}
      → List (CandidateAccumulator S)
      → SemanticCandidateLane
      → EvidenceMap
      → Attempt E EvidenceMap
  note_lane candidates lane m =
      if is_empty (lane_candidates lane (enumerate_from 0 candidates))
      then done m
      else lane_selection candidates lane >>= (λ selection.
        note_selection candidates (semantic_evidence_of lane (lane_saturated candidates lane))
          (enumerate_from 1 selection) m)

  abbrev pub count_lane :
      List (CandidateAccumulator S) → SemanticCandidateLane → List (String × ℕ) → List (String × ℕ)
  count_lane candidates lane counts =
      if is_empty (lane_candidates lane (enumerate_from 0 candidates))
      then counts
      else if lane_saturated candidates lane
      then count_one (source_id lane) counts
      else counts

  abbrev pub select_by_score :
      {E : Type 0}
      → List (CandidateAccumulator S)
      → ℕ
      → (CandidateAccumulator S → S)
      → Attempt E (List ℕ)
  select_by_score candidates limit score =
      select_subset candidates (indices_from 0 candidates) limit score

  unfoldable pub source_evidence_by_index :
      {E : Type 0} → List (CandidateAccumulator S) → Attempt E EvidenceMap
  source_evidence_by_index candidates = do
    selection ← select_by_score candidates top_k (λ c. c.score)
    symbolic ←
        note_selection candidates (symbolic_evidence (ltb top_k (length candidates)))
          (enumerate_from 1 selection) []
    with_statements ← note_lane candidates statement_meaning symbolic
    note_lane candidates binder_role_shape with_statements

  abbrev pub selected_of :
      List CandidateSourceEvidence → CandidateAccumulator S → SelectedCandidate S
  selected_of evidence c = record {
    id = c.id;
    score = c.score;
    contributions = values c.contributions;
    source_evidence = evidence;
  }

  abbrev pub selected_at :
      {E : Type 0}
      → List (CandidateAccumulator S)
      → ℕ × List CandidateSourceEvidence
      → Attempt E (SelectedCandidate S)
  selected_at candidates (i, evidence) =
      expect (get_elem? candidates i) >>= (λ c. done (selected_of evidence c))

  abbrev pub selection_order : SelectedCandidate S → SelectedCandidate S → Ordering
  selection_order l r = and_then (by_score ops l.score r.score) (by_id l.id r.id)

  -- The counters of a selection that keeps `kept` candidates.
  abbrev pub count_selected :
      List (CandidateAccumulator S) → ℕ → RetrievalDiagnostics → RetrievalDiagnostics
  count_selected candidates kept d = record d {
    top_k_saturation_by_source_id =
        count_lane candidates binder_role_shape
          (count_lane candidates statement_meaning d.top_k_saturation_by_source_id);
    ranked_candidate_count = d.ranked_candidate_count + kept;
  }

  unfoldable pub select_admitted :
      {E : Type 0}
      → String
      → List (CandidateAccumulator S)
      → RetrievalDiagnostics
      → Attempt E (List (SelectedCandidate S) × RetrievalDiagnostics)
  select_admitted anchor_id candidates d = do
    noted ← source_evidence_by_index candidates
    selected ← traverse (selected_at candidates) noted
    done (
      sort_by selection_order selected,
      count_selected candidates (length selected) (count_generated anchor_id candidates d),
    )

  unfoldable pub select_top :
      {E : Type 0}
      → String
      → List (CandidateAccumulator S)
      → RetrievalDiagnostics
      → Attempt E (List (SelectedCandidate S) × RetrievalDiagnostics)
  select_top anchor_id accumulators d =
      select_admitted anchor_id (filter (λ c. c.admitted) accumulators) d
