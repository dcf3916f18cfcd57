-- ===== src/Index/Opened.antt =====
-- crates/index/src/index.rs: what retrieval sees of an opened index (`OpenedIndex`). The index reads
-- SQLite: its operations are the fields of an interface.
use lean_dup.Base.{
  zero, suc, refl, ℕ, ◌≡◌, String, Option, List, Ord, ord_by_code, text_ord, nat_ord, pair_ord, ◌⊎◌,
}
use lean_dup.Search.Declaration.{HydratedDeclaration}

pub data FingerprintKind : Type 0 where
  statement_kind : FingerprintKind
  safe_permutation_kind : FingerprintKind
  connective_kind : FingerprintKind
  conclusion_kind : FingerprintKind

pub data SemanticFeatureKey : Type 0 where
  fingerprint : FingerprintKind → String → SemanticFeatureKey
  role_feature : String → String → SemanticFeatureKey

-- The derived order: fingerprints by kind and key, then role features by role and key.
abbrev pub key_code : SemanticFeatureKey → ℕ × (String × String)
key_code (fingerprint statement_kind k) = (0, (k, ""))
key_code (fingerprint safe_permutation_kind k) = (1, (k, ""))
key_code (fingerprint connective_kind k) = (2, (k, ""))
key_code (fingerprint conclusion_kind k) = (3, (k, ""))
key_code (role_feature role k) = (4, (role, k))

abbrev pub key_of_code : ℕ × (String × String) → SemanticFeatureKey
key_of_code (zero, (k, l)) = fingerprint statement_kind k
key_of_code (suc zero, (k, l)) = fingerprint safe_permutation_kind k
key_of_code (suc (suc zero), (k, l)) = fingerprint connective_kind k
key_of_code (suc (suc (suc zero)), (k, l)) = fingerprint conclusion_kind k
key_of_code (suc (suc (suc (suc n))), (k, l)) = role_feature k l

pub key_of_code-key_code : (k : SemanticFeatureKey) → key_of_code (key_code k) ≡ k
key_of_code-key_code (fingerprint statement_kind k) = refl
key_of_code-key_code (fingerprint safe_permutation_kind k) = refl
key_of_code-key_code (fingerprint connective_kind k) = refl
key_of_code-key_code (fingerprint conclusion_kind k) = refl
key_of_code-key_code (role_feature role k) = refl

instance abbrev pub feature_key_ord : Ord SemanticFeatureKey
feature_key_ord = ord_by_code key_code key_of_code key_of_code-key_code

abbrev pub key_text : SemanticFeatureKey → String
key_text (fingerprint kind k) = k
key_text (role_feature role k) = k

pub data IndexProvenanceKind : Type 0 where
  static_index : IndexProvenanceKind
  source_backed : IndexProvenanceKind

pub record IndexProvenance : Type 0 where
  pub version : String
  pub kind : IndexProvenanceKind
  pub source_root : Option (List String)
  pub execution_root : Option (List String)
  pub execution_policy : String
  pub module_root : String
  pub protocol_version : Option String
  pub worker_version : Option String
  pub extract_version : Option String
  pub features_version : Option String
  pub probe_version : Option String

pub record OpenedIndexFacts : Type 0 where
  pub origin : String
  pub label : Option String
  pub declaration_count : ℕ
  pub path : List String
  pub provenance : IndexProvenance

-- `SemanticFeatureFanout` and `SemanticFeatureMatches` are maps from the keys.
pub record OpenedIndex (E : Type 0) : Type 0 where
  pub facts : E ⊎ OpenedIndexFacts
  pub feature_fanout : List SemanticFeatureKey → E ⊎ List (SemanticFeatureKey × ℕ)
  pub handles_matching_features :
      List SemanticFeatureKey → E ⊎ List (SemanticFeatureKey × List String)
  pub hydrate : List String → E ⊎ List HydratedDeclaration
