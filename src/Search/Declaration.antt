-- ===== src/Search/Declaration.antt =====
-- crates/index/src/index.rs (`HydratedDeclaration`), crates/worker/src/worker/mod.rs (its parts) and
-- crates/search/src/retrieval.rs (candidates). A score is an `f64`: an element of any carrier.
use lean_dup.Base.{ℕ, String, Option, List, Bool, any, ◌==◌}

pub record SourcePoint : Type 0 where
  pub line : ℕ
  pub column : ℕ

pub record SourceSpan : Type 0 where
  pub file : String
  pub start : SourcePoint
  pub end : SourcePoint

pub record Fingerprints : Type 0 where
  pub statement : String
  pub safe_binder_permutation : String
  pub connective_shape : String
  pub conclusion_shape : String

pub record RoleFeature : Type 0 where
  pub role : String
  pub key : String
  pub display : Option String

pub record HydratedDeclaration : Type 0 where
  pub handle : String
  pub declaration_id : String
  pub origin : String
  pub module_name : String
  pub qualified_name : String
  pub display_name : String
  pub kind : String
  pub visibility : String
  pub modifiers : List String
  pub source_span : Option SourceSpan
  pub statement_text : String
  pub docstring_text : Option String
  pub definition_body_summary : Option String
  pub status_flags : List String
  pub feature_version : String
  pub fingerprints : Fingerprints
  pub role_features : List RoleFeature
  pub binder_count : ℕ
  pub low_signal_markers : List String

pub data CandidateSourceFamily : Type 0 where
  symbolic : CandidateSourceFamily
  lean_semantic : CandidateSourceFamily

pub data CandidateTopKStatus : Type 0 where
  selected : CandidateTopKStatus
  generated_not_selected : CandidateTopKStatus

pub record CandidateSourceEvidence : Type 0 where
  pub source_id : String
  pub source_family : CandidateSourceFamily
  pub generation_rank : Option ℕ
  pub top_k_status : CandidateTopKStatus
  pub top_k_saturated : Bool
  pub feature_families : List String

pub record KeyContribution (S : Type 0) : Type 0 where
  pub kind : String
  pub role : Option String
  pub display : Option String
  pub key : String
  pub score : S

pub record RetrievedCandidate (S : Type 0) : Type 0 where
  pub pair_id : String
  pub declaration : HydratedDeclaration
  pub score : S
  pub contributions : List (KeyContribution S)
  pub source_evidence : List CandidateSourceEvidence

pub record CandidateSet (S : Type 0) : Type 0 where
  pub anchor : HydratedDeclaration
  pub candidates : List (RetrievedCandidate S)

unfoldable pub has_contribution : {S : Type 0} → List (KeyContribution S) → String → Bool
has_contribution contributions kind = any (λ c. c.kind == kind) contributions
