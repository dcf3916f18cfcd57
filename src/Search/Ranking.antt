-- ===== src/Search/Ranking.antt =====
-- crates/search/src/ranking.rs: `rank_candidates` and `rank_pair`, with the score facts of
-- crates/search/src/scorer.rs. The digest of a group id (JSON and SHA-256) and the arithmetic of
-- scores are parameters.
pub mod Decision
pub mod Pair
pub mod Queue
pub mod Soundness
pub mod Order
pub mod Suppressed
mod Tests
use Prim.Native.String.{◌++◌ as append}
use lean_dup.Base.{
  ℕ, ◌+◌, String, Ordering, Bool, true, false, ◌&&◌, ◌||◌, not, Option, none, some, List, [], ◌∷◌,
  ◌++◌, map, any, all, filter, length, sum, is_empty, ltb, nat_eq, if◌then◌else◌, ◌==◌, one_of,
  FloatOps, text_ord, sort_by, by_key, is_gt, nat_ord, pair_ord,
}
use lean_dup.Base.Maps
use lean_dup.Base.Sets
use lean_dup.Index.Provenance.{
  ComparisonEvidenceMode, ComparisonEvidencePolicy, evidence_mode, requires_semantic_evidence,
}
use lean_dup.Search.Declaration.{
  HydratedDeclaration, KeyContribution, RetrievedCandidate, CandidateSet, has_contribution,
}
use lean_dup.Search.Evidence.{
  EvidenceKind, EvidenceStatus, SemanticEvidence, proof_grade, semantic_obligation_fact,
}
use lean_dup.Search.Policy.{
  theorem_like, visibility_blockers, strong_low_signal_symbolic_support, insert_if,
}
use lean_dup.Search.Review.{
  ReviewRelation, ReviewAction, Tier, tier_rank, is_noise, ReviewEvidenceMode, ReviewMember,
  ReviewEvidence, RankedGroup, SuppressedGroup, RankedReview, relation_rank,
}
use lean_dup.Search.Sources.{
  ImportStatus, SourceFacts, caller_count, source_fingerprint, import_status_for,
}

pub record RankingInput (S : Type 0) : Type 0 where
  pub candidate_sets : List (CandidateSet S)
  pub semantic_evidence : List (String × SemanticEvidence)
  pub source_facts : SourceFacts
  pub min_near_score : S
  pub transitional_alias_callers : ℕ
  pub comparison_policy : ComparisonEvidencePolicy

pub record RankingScoreFacts : Type 0 where
  pub exact_static : Bool
  pub permuted_static : Bool
  pub connective_static : Bool
  pub near : Bool
  pub strong_static_semantic_candidate : Bool

-- `evidence_kind == kind`.
abbrev pub kind_rank : EvidenceKind → ℕ
kind_rank EvidenceKind.evidence_exact_theorem = 0
kind_rank EvidenceKind.evidence_permuted_theorem = 1
kind_rank EvidenceKind.evidence_replacement = 2
kind_rank EvidenceKind.evidence_reducible_definition = 3
kind_rank EvidenceKind.evidence_specialization = 4
kind_rank EvidenceKind.evidence_local_duplicate = 5
kind_rank EvidenceKind.evidence_unavailable = 6

abbrev pub verified_kind : Option SemanticEvidence → EvidenceKind → Bool
verified_kind none kind = false
verified_kind (some evidence) kind =
    nat_eq (kind_rank evidence.kind) (kind_rank kind) && proof_grade evidence

abbrev pub is_proof_grade : Option SemanticEvidence → Bool
is_proof_grade none = false
is_proof_grade (some evidence) = proof_grade evidence

abbrev pub equal_fingerprints : Option String → Option String → Bool
equal_fingerprints (some left) (some right) = not (left == "") && (left == right)
equal_fingerprints left right = false

unfoldable pub same_source_fingerprint :
    HydratedDeclaration → HydratedDeclaration → SourceFacts → Bool
same_source_fingerprint left right facts =
    equal_fingerprints (source_fingerprint facts left.declaration_id)
      (source_fingerprint facts right.declaration_id)

abbrev pub priority_of_origin : String → ℕ
priority_of_origin origin =
    if origin == "mathlib" then 0 else if origin == "workspace" then 2 else 1

unfoldable pub recommended_target : HydratedDeclaration → HydratedDeclaration → HydratedDeclaration
recommended_target anchor candidate =
    if is_gt (
      by_key {K = ℕ × String} (λ d. (priority_of_origin d.origin, d.qualified_name)) anchor
        candidate)
    then candidate
    else anchor

unfoldable pub target_module : HydratedDeclaration → Option String
target_module d = if d.module_name == "" then none else some d.module_name

abbrev pub workspace_members : HydratedDeclaration → HydratedDeclaration → List HydratedDeclaration
workspace_members anchor candidate = filter (λ d. d.origin == "workspace") (anchor ∷ candidate ∷ [])

unfoldable pub local_caller_count : HydratedDeclaration → HydratedDeclaration → SourceFacts → ℕ
local_caller_count anchor candidate facts =
    sum (map (λ d. caller_count facts d.declaration_id) (workspace_members anchor candidate))

abbrev pub is_direct : ImportStatus → Bool
is_direct ImportStatus.direct = true
is_direct other = false

abbrev pub is_missing : ImportStatus → Bool
is_missing ImportStatus.missing = true
is_missing other = false

unfoldable pub local_import_status :
    HydratedDeclaration → HydratedDeclaration → String → SourceFacts → ImportStatus
local_import_status anchor candidate target facts =
    let statuses =
      map (λ d. import_status_for facts d.declaration_id target)
        (workspace_members anchor candidate) in
    if is_empty statuses
    then ImportStatus.unknown_import
    else if all is_direct statuses
    then ImportStatus.direct
    else if any is_missing statuses
    then ImportStatus.missing
    else ImportStatus.unknown_import

unfoldable pub member : HydratedDeclaration → ReviewMember
member d = record {
  declaration_id = d.declaration_id;
  origin = d.origin;
  module_name = d.module_name;
  qualified_name = d.qualified_name;
  display_name = d.display_name;
  kind = d.kind;
  visibility = d.visibility;
  source_span = d.source_span;
  status_flags = d.status_flags;
}

abbrev pub status_label : EvidenceStatus → String
status_label EvidenceStatus.verified = "verified"
status_label EvidenceStatus.unavailable = "unavailable"
status_label EvidenceStatus.rejected = "rejected"

abbrev pub kind_label : EvidenceKind → String
kind_label EvidenceKind.evidence_exact_theorem = "exact-theorem"
kind_label EvidenceKind.evidence_permuted_theorem = "permuted-theorem"
kind_label EvidenceKind.evidence_replacement = "replacement"
kind_label EvidenceKind.evidence_reducible_definition = "reducible-definition"
kind_label EvidenceKind.evidence_specialization = "specialization"
kind_label EvidenceKind.evidence_local_duplicate = "local-duplicate"
kind_label EvidenceKind.evidence_unavailable = "unavailable"

abbrev pub proof_signals : EvidenceKind → List String
proof_signals EvidenceKind.evidence_exact_theorem = "probe:same-statement" ∷ []
proof_signals EvidenceKind.evidence_permuted_theorem = "probe:same-up-to-safe-reordering" ∷ []
proof_signals EvidenceKind.evidence_replacement = "probe:replacement" ∷ []
proof_signals EvidenceKind.evidence_reducible_definition = "probe:same-reducible-definition" ∷ []
proof_signals EvidenceKind.evidence_specialization = "probe:specialization" ∷ []
proof_signals EvidenceKind.evidence_local_duplicate = []
proof_signals EvidenceKind.evidence_unavailable = []

unfoldable pub semantic_signals : SemanticEvidence → List String
semantic_signals evidence =
    append "probe:" (append (status_label evidence.status) (append ":" (kind_label evidence.kind)))
    ∷ (if proof_grade evidence then proof_signals evidence.kind else [])

abbrev pub default_summary : EvidenceStatus → String
default_summary EvidenceStatus.verified = "Lean verified semantic evidence"
default_summary EvidenceStatus.unavailable = "Lean probe unavailable"
default_summary EvidenceStatus.rejected = "Lean probe rejected the planned obligation"

unfoldable pub semantic_summary : SemanticEvidence → Option String
semantic_summary evidence = elim evidence.summary [
  | some summary ↦ some summary
  | none ↦ some (default_summary evidence.status)
]

abbrev pub is_not_importable : ComparisonEvidenceMode → Bool
is_not_importable ComparisonEvidenceMode.static_evidence = false
is_not_importable ComparisonEvidenceMode.source_backed_not_importable = true
is_not_importable ComparisonEvidenceMode.proof_grade_evidence = false

unfoldable pub review_evidence_mode :
    String → String → Option SemanticEvidence → ComparisonEvidencePolicy → ReviewEvidenceMode
review_evidence_mode anchor_origin candidate_origin semantic policy =
    if is_proof_grade semantic
    then ReviewEvidenceMode.proof_grade_mode
    else if is_not_importable (evidence_mode policy anchor_origin)
        || is_not_importable (evidence_mode policy candidate_origin)
    then ReviewEvidenceMode.not_importable_mode
    else if requires_semantic_evidence policy anchor_origin
        || requires_semantic_evidence policy candidate_origin
    then ReviewEvidenceMode.proof_grade_mode
    else ReviewEvidenceMode.static_mode
