-- ===== src/Search/Retrieval/Tests.antt =====
-- Tests of the models of crates/search/src/retrieval.rs, on scores that are numbers.
use lean_dup.Base.{
  ℕ, ◌*◌, pair_ord, ap, sym, subst, ◌∙◌, text_ord, max, ◌≡◌, refl, ◌-◌, ◌≤◌, List, [], ◌∷◌, All,
  Option, none, some, length, drop, String, inl, inr, ◌⊎◌, Attempt, done, Ends, nat_ord, true, map,
  all, Bool,
}
use lean_dup.Base.Sets
use lean_dup.Search.Samples.{number_ops, declaration}
use lean_dup.Search.Declaration.{HydratedDeclaration}
use lean_dup.Index.Opened.{
  OpenedIndex, OpenedIndexFacts, IndexProvenanceKind, SemanticFeatureKey, FingerprintKind,
}
use lean_dup.Search.Retrieval.State.{
  ScoreOps, CandidateAccumulator, CandidateId, CandidateGenerationPolicy, RetrievalOutput,
  default_diagnostics, candidate_sort_key,
}
use lean_dup.Search.Retrieval.Top.{select_subset_by_score, entries, in_final_order}
use lean_dup.Search.Retrieval.Top.Refines.{select_subset_by_score_refines}
use lean_dup.Search.Retrieval.Heap.Refines.{sorted}
use lean_dup.Search.Retrieval.Run.{Tables, select_for, retrieve_candidates_inner}
use lean_dup.Search.Retrieval.Run.Own.{IsOther, select_for-IsOther}
use lean_dup.Search.Retrieval.Run.Hydrates.{HydratesAll, handles_of}
use lean_dup.Search.Retrieval.Run.Total.{IsOutput, retrieve_candidates_inner-IsOutput}

abbrev numbers : ScoreOps ℕ ℕ
numbers = record {
  float = number_ops;
  multiply = ◌*◌;
  ln = λ n. n;
  max = max;
  micros = λ n. n * 1000000;
}

abbrev scored : CandidateId → ℕ → CandidateAccumulator ℕ
scored id score = record {
  id = id;
  policy = CandidateGenerationPolicy.local_duplicate_audit;
  score = score;
  admitted = true;
  contributions = [];
}

abbrev three : List (CandidateAccumulator ℕ)
three =
    scored (CandidateId.workspace 4) 10
    ∷ scored (CandidateId.workspace 7) 30
    ∷ scored (CandidateId.external 0 "x") 20
    ∷ []

sort_key : candidate_sort_key (CandidateId.external 12 "h") ≡ "external:0000000012:h"
unfolding candidate_sort_key lean_dup.Search.Retrieval.State.padded
sort_key = refl

best_two : select_subset_by_score numbers three (0 ∷ 1 ∷ 2 ∷ []) 2 (λ c. c.score) ≡ 1 ∷ 2 ∷ []
unfolding select_subset_by_score lean_dup.Base.sort_by lean_dup.Search.Retrieval.Heap.fill
    lean_dup.Search.Retrieval.Heap.offer lean_dup.Base.insert_by
best_two = refl

select_subset_by_score_refines_example :
    select_subset_by_score numbers three (0 ∷ 1 ∷ 2 ∷ []) 2 (λ c. c.score)
    ≡ in_final_order numbers three
        (λ c. c.score)
        (drop
          (length (entries numbers three (0 ∷ 1 ∷ 2 ∷ []) (λ c. c.score)) - 2)
          (sorted (entries numbers three (0 ∷ 1 ∷ 2 ∷ []) (λ c. c.score))))
select_subset_by_score_refines_example =
    select_subset_by_score_refines numbers three (0 ∷ 1 ∷ 2 ∷ []) 2 (λ c. c.score)

abbrev two : List HydratedDeclaration
two = declaration "a" "workspace" "theorem" [] ∷ declaration "b" "workspace" "theorem" [] ∷ []

abbrev library_facts : OpenedIndexFacts
library_facts = record {
  origin = "mathlib";
  label = none;
  declaration_count = 1;
  path = "mathlib.sqlite" ∷ [];
  provenance = record {
    version = "1";
    kind = IndexProvenanceKind.static_index;
    source_root = none;
    execution_root = none;
    execution_policy = "none";
    module_root = "Mathlib";
    protocol_version = none;
    worker_version = none;
    extract_version = none;
    features_version = none;
    probe_version = none;
  };
}

-- A library with one declaration, `c`, whose fingerprints are those of the samples.
abbrev from_library : String → HydratedDeclaration
from_library handle = declaration handle "mathlib" "theorem" []

abbrev library : OpenedIndex String
library = record {
  facts = inr library_facts;
  feature_fanout = λ keys. inr (map (λ key. (key, 1)) keys);
  handles_matching_features = λ keys. inr (map (λ key. (key, "c" ∷ [])) keys);
  hydrate = λ handles. inr (map from_library handles);
}

handles-from_library : (handles : List String) → handles_of (map from_library handles) ≡ handles
handles-from_library [] = refl
handles-from_library (h ∷ hs) = ap (◌∷◌ h) (handles-from_library hs)

library-HydratesAll : HydratesAll library
library-HydratesAll handles ds p handle h =
    subst (λ xs. Sets.contains handle xs ≡ true)
      (sym (handles-from_library handles) ∙ ap answered p) h
  where
    answered : String ⊎ List HydratedDeclaration → List String
    answered (inl e) = []
    answered (inr ds) = handles_of ds

retrieve_candidates_inner-IsOutput_example :
    Ends (IsOutput none) (retrieve_candidates_inner numbers (library ∷ []) two none)
retrieve_candidates_inner-IsOutput_example =
    retrieve_candidates_inner-IsOutput numbers (library ∷ []) two (library-HydratesAll, tt) none

abbrev small_tables : Tables
small_tables = record {
  postings = (SemanticFeatureKey.fingerprint FingerprintKind.statement_kind "s", 0 ∷ 1 ∷ []) ∷ [];
  counts = (SemanticFeatureKey.fingerprint FingerprintKind.statement_kind "s", 2) ∷ [];
  facts = (0, library_facts) ∷ [];
  external_counts = [];
  external_postings = [];
}

select_for-IsOther_example :
    Ends
      (λ r. All (λ s. IsOther 0 s.id) r.0)
      (select_for numbers
        (library ∷ [])
        two
        small_tables
        0
        (declaration "a" "workspace" "theorem" [])
        default_diagnostics)
select_for-IsOther_example =
    select_for-IsOther numbers (library ∷ []) two small_tables 0
      (declaration "a" "workspace" "theorem" []) default_diagnostics
