-- ===== src/Search/Review.antt =====
-- crates/search/src/ranking.rs (the types of a review queue and `ReviewFilter`) and
-- crates/search/src/replacement_hints.rs (`ReplacementHint`).
pub mod Filter
use lean_dup.Base.{
  ℕ, String, Bool, true, false, ◌&&◌, not, Option, List, [], ◌∷◌, any, filter, if◌then◌else◌, ◌==◌,
  one_of, leb, nat_eq,
}
use lean_dup.Search.Declaration.{SourceSpan}
use lean_dup.Search.Evidence.{SearchSemanticObligationFact}
use lean_dup.Search.Sources.{ImportStatus, SourceReference}

pub data ReviewRelation : Type 0 where
  exact_statement : ReviewRelation
  permuted_statement : ReviewRelation
  connective_equivalent : ReviewRelation
  specialization_relation : ReviewRelation
  source_clone : ReviewRelation
  subsumption_candidate : ReviewRelation
  near_statement : ReviewRelation

-- The derived order of the source's enumerations is that of their constructors.
abbrev pub relation_rank : ReviewRelation → ℕ
relation_rank exact_statement = 0
relation_rank permuted_statement = 1
relation_rank connective_equivalent = 2
relation_rank specialization_relation = 3
relation_rank source_clone = 4
relation_rank subsumption_candidate = 5
relation_rank near_statement = 6

pub data ReviewAction : Type 0 where
  already_in_mathlib : ReviewAction
  local_alias : ReviewAction
  replace_local_uses : ReviewAction
  inline_private_helper : ReviewAction
  merge_generalization : ReviewAction
  specialization_of : ReviewAction
  probable_source_clone : ReviewAction
  manual_review : ReviewAction

-- The constructors of `ConfidenceTier` and of `ReviewPriority` are the same.
pub data Tier : Type 0 where
  high : Tier
  medium : Tier
  low : Tier
  noise : Tier

abbrev pub tier_rank : Tier → ℕ
tier_rank high = 0
tier_rank medium = 1
tier_rank low = 2
tier_rank noise = 3

abbrev pub is_noise : Tier → Bool
is_noise t = nat_eq (tier_rank t) 3

pub data ReviewEvidenceMode : Type 0 where
  static_mode : ReviewEvidenceMode
  not_importable_mode : ReviewEvidenceMode
  proof_grade_mode : ReviewEvidenceMode

pub data CallerImpact : Type 0 where
  no_callers : CallerImpact
  wrapper_only_callers : CallerImpact
  bounded_callers : CallerImpact
  truncated_callers : CallerImpact
  unknown_callers : CallerImpact
  missing_source_callers : CallerImpact

pub record ReplacementHint : Type 0 where
  pub target_decl : String
  pub target_module : String
  pub import_status : ImportStatus
  pub caller_impact : CallerImpact
  pub caller_count : ℕ
  pub displayed_callers : List SourceReference
  pub callers_truncated : Bool
  pub notes : List String
  pub blockers : List String

pub record ReviewMember : Type 0 where
  pub declaration_id : String
  pub origin : String
  pub module_name : String
  pub qualified_name : String
  pub display_name : String
  pub kind : String
  pub visibility : String
  pub source_span : Option SourceSpan
  pub status_flags : List String

pub record ReviewEvidence (S : Type 0) : Type 0 where
  pub kind : String
  pub role : Option String
  pub display : Option String
  pub score : S

pub record RankedGroup (S : Type 0) : Type 0 where
  pub id : String
  pub pair_id : String
  pub relation : ReviewRelation
  pub members : List ReviewMember
  pub evidence : List (ReviewEvidence S)
  pub signals : List String
  pub blockers : List String
  pub confidence : Tier
  pub review_priority : Tier
  pub recommended_action : ReviewAction
  pub target_decl : Option String
  pub target_module : Option String
  pub evidence_mode : ReviewEvidenceMode
  pub probe_summary : Option String
  pub semantic_obligations : List SearchSemanticObligationFact
  pub local_caller_count : ℕ
  pub replacement_hint : Option ReplacementHint

pub record SuppressedGroup : Type 0 where
  pub pair_id : String
  pub suppressed_relation : ReviewRelation
  pub covered_by : ReviewRelation
  pub reason : String

pub record RankingDiagnostics : Type 0 where
  pub candidate_pairs : ℕ
  pub emitted_groups : ℕ
  pub suppressed_groups : ℕ

pub record RankedReview (S : Type 0) : Type 0 where
  pub groups : List (RankedGroup S)
  pub suppressed : List SuppressedGroup
  pub diagnostics : RankingDiagnostics

pub record ReviewFilter : Type 0 where
  pub include_generated : Bool
  pub include_private : Bool
  pub include_diagnostics : Bool
  pub min_priority : Tier

module _ {S : Type 0} where
  unfoldable pub includes : ReviewFilter → RankedGroup S → Bool
  includes f group =
      if is_noise group.review_priority && not f.include_diagnostics
      then false
      else if not f.include_generated
          && any (λ blocker. blocker == "generated-declaration") group.blockers
      then false
      else if not f.include_private
          && any (λ member. not (member.visibility == "public")) group.members
      then false
      else if not f.include_diagnostics
          && any (λ blocker. one_of blocker ("lean-probe-rejected" ∷ "lean-probe-unavailable" ∷ []))
              group.blockers
      then false
      else leb (tier_rank group.review_priority) (tier_rank f.min_priority)

  unfoldable pub visible_groups : ReviewFilter → RankedReview S → List (RankedGroup S)
  visible_groups f review = filter (includes f) review.groups
