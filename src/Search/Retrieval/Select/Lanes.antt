-- ===== src/Search/Retrieval/Select/Lanes.antt =====
-- crates/search/src/retrieval.rs: the semantic lanes, the evidence of a selection and the counters with
-- which `select_top` begins.
use lean_dup.Base.{
  ℕ, suc, ◌+◌, ◌-◌, String, Bool, false, Option, none, some, List, [], ◌∷◌, ◌++◌, map, filter,
  filter_map, length, ltb, is_empty, one_of, if◌then◌else◌, ◌==◌, nat_ord, text_ord,
}
use lean_dup.Base.Maps
use lean_dup.Base.Sets
use lean_dup.Search.Declaration.{
  KeyContribution, CandidateSourceEvidence, CandidateSourceFamily, CandidateTopKStatus,
}
use lean_dup.Search.Retrieval.Keys.{feature_family}
use lean_dup.Search.Retrieval.State.{CandidateAccumulator, RetrievalDiagnostics, label, top_k}

pub data SemanticCandidateLane : Type 0 where
  statement_meaning : SemanticCandidateLane
  binder_role_shape : SemanticCandidateLane

abbrev pub all_lanes : List SemanticCandidateLane
all_lanes = statement_meaning ∷ binder_role_shape ∷ []

abbrev pub source_id : SemanticCandidateLane → String
source_id statement_meaning = "lean-semantic.statement-meaning.v1"
source_id binder_role_shape = "lean-semantic.binder-role-shape.v1"

abbrev pub accepts : {S : Type 0} → SemanticCandidateLane → KeyContribution S → Bool
accepts statement_meaning c = one_of c.kind (
    "statement-fingerprint" ∷ "safe-permutation-fingerprint" ∷ "connective-fingerprint"
    ∷ "conclusion-fingerprint" ∷ [])
accepts binder_role_shape c = c.kind == "role-feature"

unfoldable pub feature_families_from_contributions :
    {S : Type 0} → List (KeyContribution S) → List String
feature_families_from_contributions contributions =
    Sets.extend (map feature_family contributions) []

unfoldable pub selected_source_evidence :
    {S : Type 0}
    → String
    → CandidateSourceFamily
    → ℕ
    → Bool
    → List (KeyContribution S)
    → CandidateSourceEvidence
selected_source_evidence id family rank saturated contributions = record {
  source_id = id;
  source_family = family;
  generation_rank = some rank;
  top_k_status = CandidateTopKStatus.selected;
  top_k_saturated = saturated;
  feature_families = feature_families_from_contributions contributions;
}

abbrev pub generated_evidence :
    String → CandidateSourceFamily → List String → CandidateSourceEvidence
generated_evidence id family families = record {
  source_id = id;
  source_family = family;
  generation_rank = none;
  top_k_status = CandidateTopKStatus.generated_not_selected;
  top_k_saturated = false;
  feature_families = families;
}

abbrev pub lane_evidence :
    {S : Type 0} → List (KeyContribution S) → SemanticCandidateLane → Option CandidateSourceEvidence
lane_evidence contributions lane =
    let families = feature_families_from_contributions (filter (accepts lane) contributions) in
    if is_empty families
    then none
    else some (generated_evidence (source_id lane) CandidateSourceFamily.lean_semantic families)

unfoldable pub generated_pair_source_evidence :
    {S : Type 0} → List (KeyContribution S) → List CandidateSourceEvidence
generated_pair_source_evidence contributions =
    generated_evidence "symbolic-retrieval" CandidateSourceFamily.symbolic
      (feature_families_from_contributions contributions)
    ∷ filter_map (lane_evidence contributions) all_lanes

abbrev pub values {ℓ} : {K : Type 0} {V : Type ℓ} → List (K × V) → List V
values m = map (λ entry. entry.1) m

-- `source_evidence_by_index`.
abbrev pub EvidenceMap : Type 0
EvidenceMap = List (ℕ × List CandidateSourceEvidence)

abbrev pub note_evidence : ℕ → CandidateSourceEvidence → EvidenceMap → EvidenceMap
note_evidence i e m = Maps.update i [] (λ es. es ++ (e ∷ [])) m

abbrev pub count_one : String → List (String × ℕ) → List (String × ℕ)
count_one key counts = Maps.update key 0 suc counts

abbrev pub count_policies :
    {S : Type 0} → List (CandidateAccumulator S) → List (String × ℕ) → List (String × ℕ)
count_policies [] counts = counts
count_policies (c ∷ cs) counts = count_policies cs (count_one (label c.policy) counts)

-- The counters that `select_top` begins with.
abbrev pub count_generated :
    {S : Type 0}
    → String
    → List (CandidateAccumulator S)
    → RetrievalDiagnostics
    → RetrievalDiagnostics
count_generated anchor_id candidates d =
    let saturated = ltb top_k (length candidates) in
    record d {
      generated_candidate_count = d.generated_candidate_count + length candidates;
      candidate_count_by_generation_policy =
          count_policies candidates d.candidate_count_by_generation_policy;
      heap_truncations =
          if saturated
          then d.heap_truncations
            ++ (record {
              anchor_declaration_id = anchor_id;
              dropped_count = length candidates - top_k;
            }
                ∷ [])
          else d.heap_truncations;
      top_k_saturation_by_source_id =
          if saturated
          then count_one "symbolic-retrieval" d.top_k_saturation_by_source_id
          else d.top_k_saturation_by_source_id;
    }
