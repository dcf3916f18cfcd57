-- ===== src/Search/Probe.antt =====
-- crates/search/src/semantic_verification.rs: the types of a probe plan.
pub mod Diagnostics
pub mod Counting
pub mod Quotas
pub mod Eligibility
pub mod Classify
pub mod Select
pub mod Bounds
pub mod Budget
pub mod Chunks
pub mod Classified
pub mod Answered
pub mod Accounting
pub mod Verify
pub mod CacheKey
mod Tests
use lean_dup.Base.{
  ℕ, String, Bool, true, false, Option, none, some, List, any, ◌==◌, ◌||◌, one_of, [], ◌∷◌,
}
use lean_dup.Base.Maps.{is_some}
use lean_dup.Index.Provenance.{ComparisonEvidencePolicy, probe_module}
use lean_dup.Search.Declaration.{HydratedDeclaration}
use lean_dup.Search.Evidence.{
  ProbeObligation, ProbePair, SearchSemanticUnavailableReason, SearchSemanticObligationKind,
  semantic_kind,
}

pub data ProbePolicy : Type 0 where
  actionable : ProbePolicy
  broad : ProbePolicy

abbrev pub is_broad : ProbePolicy → Bool
is_broad actionable = false
is_broad broad = true

pub record ProbeSettings : Type 0 where
  pub policy : ProbePolicy
  pub budget : ℕ
  pub per_declaration_cap : ℕ
  pub chunk_size : ℕ
  pub max_heartbeats : Option ℕ

pub data ProbeRisk : Type 0 where
  ordinary : ProbeRisk
  hard_negative_risk : ProbeRisk
  reducible_definition_risk : ProbeRisk

abbrev pub risk_label : ProbeRisk → String
risk_label ordinary = "ordinary"
risk_label hard_negative_risk = "hard-negative-risk"
risk_label reducible_definition_risk = "reducible-definition-risk"

abbrev pub risk_order : ProbeRisk → ℕ
risk_order ordinary = 0
risk_order reducible_definition_risk = 1
risk_order hard_negative_risk = 2

pub record ProbePlanningFacts : Type 0 where
  pub source_id : String
  pub source_family : String
  pub match_class : String
  pub declaration_kind : String
  pub risk : ProbeRisk

pub record PlannedProbe : Type 0 where
  pub pair : ProbePair
  pub cache_key : String
  pub obligation : ProbeObligation
  pub facts : ProbePlanningFacts
  pub right_module : String
  pub right_origin : String
  pub left_module : String
  pub left_origin : String
  pub include_private : Bool
  pub include_generated : Bool

pub data ProbeStatus : Type 0 where
  planned : ProbeStatus
  cached : ProbeStatus
  worker : ProbeStatus
  verified_probe : ProbeStatus
  rejected_probe : ProbeStatus
  unavailable_probe : ProbeStatus
  skipped_by_policy : ProbeStatus
  skipped_by_budget : ProbeStatus
  timed_out : ProbeStatus

pub data UnavailableReason : Type 0 where
  reason_missing_declaration : UnavailableReason
  reason_unsupported : UnavailableReason
  reason_opaque_or_unreducible : UnavailableReason
  reason_timeout : UnavailableReason
  reason_internal_error : UnavailableReason

pub data ProbeDecision : Type 0 where
  worker_decision : ProbeObligation → ProbeDecision
  unavailable_decision : UnavailableReason → ProbeDecision

abbrev pub obligation_rank : ProbeObligation → ℕ
obligation_rank ProbeObligation.exact_theorem = 0
obligation_rank ProbeObligation.permuted_theorem = 1
obligation_rank ProbeObligation.replacement = 2
obligation_rank ProbeObligation.reducible_definition = 3
obligation_rank ProbeObligation.specialization = 4
obligation_rank ProbeObligation.local_duplicate = 5

abbrev pub order_key : ProbeDecision → ProbeObligation
order_key (worker_decision obligation) = obligation
order_key (unavailable_decision reason) = ProbeObligation.local_duplicate

abbrev pub reason_label : UnavailableReason → String
reason_label reason_missing_declaration = "missing-declaration"
reason_label reason_unsupported = "unsupported"
reason_label reason_opaque_or_unreducible = "opaque-or-unreducible"
reason_label reason_timeout = "timeout"
reason_label reason_internal_error = "internal-error"

abbrev pub semantic_reason : UnavailableReason → SearchSemanticUnavailableReason
semantic_reason reason_missing_declaration = SearchSemanticUnavailableReason.missing_declaration
semantic_reason reason_unsupported = SearchSemanticUnavailableReason.unsupported
semantic_reason reason_opaque_or_unreducible = SearchSemanticUnavailableReason.opaque_or_unreducible
semantic_reason reason_timeout = SearchSemanticUnavailableReason.timeout
semantic_reason reason_internal_error = SearchSemanticUnavailableReason.internal_error

abbrev pub kind_label : SearchSemanticObligationKind → String
kind_label SearchSemanticObligationKind.exact_theorem_kind = "exact-theorem"
kind_label SearchSemanticObligationKind.permuted_theorem_kind = "permuted-theorem"
kind_label SearchSemanticObligationKind.replacement_kind = "replacement"
kind_label SearchSemanticObligationKind.reducible_definition_kind = "reducible-definition"
kind_label SearchSemanticObligationKind.specialization_kind = "specialization"
kind_label SearchSemanticObligationKind.local_duplicate_kind = "local-duplicate"

abbrev pub obligation_label : ProbeObligation → String
obligation_label obligation = kind_label (semantic_kind obligation)

pub record DeclarationProbeSummary : Type 0 where
  pub origin : String
  pub module_name : String
  pub kind : String
  pub visibility : String
  pub generated : Bool
  pub importable : Bool

unfoldable pub probe_supported_origin : HydratedDeclaration → ComparisonEvidencePolicy → Bool
probe_supported_origin d policy =
    (d.origin == "workspace") || is_some (probe_module policy d.origin d.module_name)

unfoldable pub from_declaration :
    HydratedDeclaration → ComparisonEvidencePolicy → DeclarationProbeSummary
from_declaration d policy = record {
  origin = d.origin;
  module_name = d.module_name;
  kind = d.kind;
  visibility = d.visibility;
  generated = any (λ flag. flag == "generated") d.status_flags;
  importable = probe_supported_origin d policy;
}

abbrev pub theorem_like : DeclarationProbeSummary → Bool
theorem_like s = one_of s.kind ("theorem" ∷ "axiom" ∷ [])

abbrev pub definition_like : DeclarationProbeSummary → Bool
definition_like s = one_of s.kind ("def" ∷ "abbrev" ∷ [])

abbrev pub probe_supported_kind : DeclarationProbeSummary → Bool
probe_supported_kind s = one_of s.kind ("theorem" ∷ "axiom" ∷ "def" ∷ "abbrev" ∷ [])

abbrev pub needs_private_filter : DeclarationProbeSummary → Bool
needs_private_filter s = s.visibility == "private"
