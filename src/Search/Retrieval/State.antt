-- ===== src/Search/Retrieval/State.antt =====
-- crates/search/src/retrieval.rs: what retrieval keeps while it looks for candidates
-- (`CandidateAccumulator`, `RetrievalDiagnostics`), and the scores that it computes with.
use Prim.Native.String.{◌++◌ as append}
use lean_dup.Base.{
  refl, ℕ, zero, suc, ◌-◌, ◌/◌, ◌%◌, ◌≡◌, String, Bool, Option, List, [], ◌∷◌, ltb, if◌then◌else◌,
  ◌==◌, FloatOps, Ord, get_elem?, ord_by_code, nat_ord, text_ord, pair_ord,
}
use lean_dup.Base.Maps.{get_or_default}
use lean_dup.Search.Declaration.{KeyContribution, CandidateSourceEvidence, CandidateSet}
use lean_dup.Index.Opened.{OpenedIndexFacts, IndexProvenanceKind}
use lean_dup.Index.Opened.IndexProvenanceKind.{static_index, source_backed}

-- The operations on scores beyond `FloatOps`; `micros` is `(score * 1_000_000.0).round() as i64`.
pub record ScoreOps (S M : Type 0) : Type 0 where
  pub float : FloatOps S
  pub multiply : S → S → S
  pub ln : S → S
  pub max : S → S → S
  pub micros : S → M

pub data CandidateId : Type 0 where
  workspace : ℕ → CandidateId
  external : ℕ → String → CandidateId

abbrev pub id_code : CandidateId → ℕ × (ℕ × String)
id_code (workspace i) = (0, (i, ""))
id_code (external i handle) = (1, (i, handle))

abbrev pub id_of_code : ℕ × (ℕ × String) → CandidateId
id_of_code (zero, (i, handle)) = workspace i
id_of_code (suc n, (i, handle)) = external i handle

pub id_of_code-id_code : (id : CandidateId) → id_of_code (id_code id) ≡ id
id_of_code-id_code (workspace i) = refl
id_of_code-id_code (external i handle) = refl

instance abbrev pub id_ord : Ord CandidateId
id_ord = ord_by_code id_code id_of_code id_of_code-id_code

pub data CandidateGenerationPolicy : Type 0 where
  local_duplicate_audit : CandidateGenerationPolicy
  mathlib_comparison : CandidateGenerationPolicy
  static_external_comparison : CandidateGenerationPolicy
  source_backed_external_comparison : CandidateGenerationPolicy

abbrev pub label : CandidateGenerationPolicy → String
label local_duplicate_audit = "local_duplicate_audit"
label mathlib_comparison = "mathlib_comparison"
label static_external_comparison = "static_external_comparison"
label source_backed_external_comparison = "source_backed_external_comparison"

abbrev pub policy_of_kind : IndexProvenanceKind → CandidateGenerationPolicy
policy_of_kind static_index = static_external_comparison
policy_of_kind source_backed = source_backed_external_comparison

unfoldable pub policy_for_external : OpenedIndexFacts → CandidateGenerationPolicy
policy_for_external facts =
    if facts.origin == "mathlib" then mathlib_comparison else policy_of_kind facts.provenance.kind

pub record CandidateAccumulator (S : Type 0) : Type 0 where
  pub id : CandidateId
  pub policy : CandidateGenerationPolicy
  pub score : S
  pub admitted : Bool
  pub contributions : List (String × KeyContribution S)

pub record SelectedCandidate (S : Type 0) : Type 0 where
  pub id : CandidateId
  pub score : S
  pub contributions : List (KeyContribution S)
  pub source_evidence : List CandidateSourceEvidence

pub record PrunedPosting : Type 0 where
  pub anchor_declaration_id : String
  pub source : String
  pub reason : String
  pub kind : String
  pub role : Option String
  pub display : Option String
  pub count : ℕ

pub record PrunedFeatureFanout : Type 0 where
  pub policy : String
  pub source : String
  pub reason : String
  pub feature_family : String
  pub count : ℕ

pub record HeapTruncation : Type 0 where
  pub anchor_declaration_id : String
  pub dropped_count : ℕ

pub record FanoutPolicySummary : Type 0 where
  pub policy_id : String
  pub symbolic_top_k_per_anchor : ℕ
  pub semantic_lane_top_k_per_anchor : ℕ
  pub role_posting_limit : ℕ
  pub broad_head_posting_limit : ℕ

abbrev pub top_k : ℕ
top_k = 80

abbrev pub lane_top_k : ℕ
lane_top_k = 24

pub record RetrievalDiagnostics : Type 0 where
  pub fanout_policy : FanoutPolicySummary
  pub candidate_count : ℕ
  pub generated_candidate_count : ℕ
  pub ranked_candidate_count : ℕ
  pub hydrated_external_count : ℕ
  pub pruned_postings : List PrunedPosting
  pub pruned_feature_fanouts : List PrunedFeatureFanout
  pub heap_truncations : List HeapTruncation
  pub candidate_count_by_generation_policy : List (String × ℕ)
  pub top_k_saturation_by_source_id : List (String × ℕ)

abbrev pub default_diagnostics : RetrievalDiagnostics
default_diagnostics = record {
  fanout_policy = record {
    policy_id = "lean-dup.fanout-policy.v1";
    symbolic_top_k_per_anchor = top_k;
    semantic_lane_top_k_per_anchor = lane_top_k;
    role_posting_limit = 512;
    broad_head_posting_limit = 64;
  };
  candidate_count = 0;
  generated_candidate_count = 0;
  ranked_candidate_count = 0;
  hydrated_external_count = 0;
  pruned_postings = [];
  pruned_feature_fanouts = [];
  heap_truncations = [];
  candidate_count_by_generation_policy = [];
  top_k_saturation_by_source_id = [];
}

pub record RetrievalOutput (S : Type 0) : Type 0 where
  pub candidate_sets : List (CandidateSet S)
  pub diagnostics : RetrievalDiagnostics

abbrev pub digit : ℕ → String
digit n =
    get_or_default "9"
      (get_elem? ("0" ∷ "1" ∷ "2" ∷ "3" ∷ "4" ∷ "5" ∷ "6" ∷ "7" ∷ "8" ∷ "9" ∷ []) n)

-- `{:010}`: twenty digits hold a `usize`.
unfoldable pub padded : ℕ → ℕ → ℕ → String → String
padded zero width n text = text
padded (suc fuel) width n text =
    let rest = padded fuel (width - 1) (n / 10) (append (digit (n % 10)) text) in
    if ltb 0 n then rest else if ltb 0 width then rest else text

unfoldable pub candidate_sort_key : CandidateId → String
candidate_sort_key (workspace i) = append "workspace:" (padded 20 10 i "")
candidate_sort_key (external i handle) =
    append "external:" (append (padded 20 10 i "") (append ":" handle))
