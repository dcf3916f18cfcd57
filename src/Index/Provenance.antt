-- ===== src/Index/Provenance.antt =====
-- crates/index/src/external_provenance.rs: which evidence a comparison origin can give.
pub mod Resolve
use lean_dup.Base.{String, Bool, true, false, Option, none, some, List, if◌then◌else◌, text_ord}
use lean_dup.Base.Maps

pub data ComparisonEvidenceMode : Type 0 where
  static_evidence : ComparisonEvidenceMode
  source_backed_not_importable : ComparisonEvidenceMode
  proof_grade_evidence : ComparisonEvidenceMode

pub record OriginPolicy : Type 0 where
  pub mode : ComparisonEvidenceMode
  pub source_root : Option (List String)

pub record ModuleDescriptor : Type 0 where
  pub module_name : String
  pub origin : String
  pub source_root : Option (List String)

-- `ComparisonEvidencePolicy.origins`.
abbrev pub ComparisonEvidencePolicy : Type 0
ComparisonEvidencePolicy = List (String × OriginPolicy)

abbrev pub mode_of : Option OriginPolicy → ComparisonEvidenceMode
mode_of none = static_evidence
mode_of (some policy) = policy.mode

unfoldable pub evidence_mode : ComparisonEvidencePolicy → String → ComparisonEvidenceMode
evidence_mode origins origin = mode_of (Maps.get origin origins)

abbrev pub is_proof_grade : ComparisonEvidenceMode → Bool
is_proof_grade static_evidence = false
is_proof_grade source_backed_not_importable = false
is_proof_grade proof_grade_evidence = true

unfoldable pub requires_semantic_evidence : ComparisonEvidencePolicy → String → Bool
requires_semantic_evidence origins origin = is_proof_grade (evidence_mode origins origin)

abbrev pub describe : String → String → OriginPolicy → Option ModuleDescriptor
describe origin module_name policy =
    if is_proof_grade policy.mode
    then some
        (record { module_name = module_name; origin = origin; source_root = policy.source_root })
    else none

unfoldable pub probe_module : ComparisonEvidencePolicy → String → String → Option ModuleDescriptor
probe_module origins origin module_name = elim (Maps.get origin origins) [
  | none ↦ none
  | some policy ↦ describe origin module_name policy
]
