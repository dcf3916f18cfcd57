-- ===== src/Search/Probe/Eligibility.antt =====
-- crates/search/src/semantic_verification.rs: which pairs deserve a probe, with which obligation.
use Prim.Native.String.{◌++◌ as append}
use lean_dup.Base.{
  String, Bool, true, false, ◌&&◌, ◌||◌, not, Option, none, some, List, [], ◌∷◌, any, find, filter,
  filter_map, leb, if◌then◌else◌, ◌==◌, one_of, text_ord, is_gt,
}
use lean_dup.Search.Declaration.{
  HydratedDeclaration, RetrievedCandidate, CandidateSet, CandidateSourceFamily,
  CandidateSourceEvidence, has_contribution,
}
use lean_dup.Search.Evidence.{ProbeObligation}
use lean_dup.Search.Review.{RankedGroup, ReviewRelation, ReviewAction, tier_rank}
use lean_dup.Search.Probe.{
  ProbePolicy, is_broad, ProbeRisk, ProbePlanningFacts, DeclarationProbeSummary, theorem_like,
  definition_like, obligation_label,
}

abbrev pub hard_blockers : List String
hard_blockers = "generated-declaration" ∷ "broad-head-only" ∷ "weak-feature-overlap" ∷ []

abbrev pub is_hard : List String → Bool
is_hard blockers = any (λ blocker. one_of blocker hard_blockers) blockers

abbrev pub is_specialization : ReviewRelation → Bool
is_specialization ReviewRelation.specialization_relation = true
is_specialization other = false

abbrev pub is_equivalence : ReviewRelation → Bool
is_equivalence ReviewRelation.exact_statement = true
is_equivalence ReviewRelation.permuted_statement = true
is_equivalence ReviewRelation.connective_equivalent = true
is_equivalence other = false

abbrev pub is_actionable : ReviewAction → Bool
is_actionable ReviewAction.already_in_mathlib = true
is_actionable ReviewAction.replace_local_uses = true
is_actionable ReviewAction.local_alias = true
is_actionable other = false

abbrev pub family_label : CandidateSourceFamily → String
family_label CandidateSourceFamily.symbolic = "symbolic"
family_label CandidateSourceFamily.lean_semantic = "lean-semantic"

abbrev pub is_lean_semantic : CandidateSourceFamily → Bool
is_lean_semantic CandidateSourceFamily.symbolic = false
is_lean_semantic CandidateSourceFamily.lean_semantic = true

abbrev pub first_of : List CandidateSourceEvidence → Option CandidateSourceEvidence
first_of [] = none
first_of (source ∷ sources) = some source

abbrev pub source_labels : Option CandidateSourceEvidence → String × String
source_labels none = ("symbolic-retrieval", "symbolic")
source_labels (some source) = (source.source_id, family_label source.source_family)

abbrev pub preferred_source : List CandidateSourceEvidence → Option CandidateSourceEvidence
preferred_source sources = elim (find (λ s. is_lean_semantic s.source_family) sources) [
  | some s ↦ some s
  | none ↦ first_of sources
]

unfoldable pub declaration_kind_pair : String → String → String
declaration_kind_pair left right =
    if is_gt (text_ord.cmp left right)
    then append right (append "+" left)
    else append left (append "+" right)

abbrev pub near_class : DeclarationProbeSummary → DeclarationProbeSummary → String
near_class left right =
    if definition_like left && definition_like right
    then "reducible-definition"
    else "near-statement"

unfoldable pub review_match_class :
    ReviewRelation → DeclarationProbeSummary → DeclarationProbeSummary → String
review_match_class ReviewRelation.exact_statement left right = "exact-theorem"
review_match_class ReviewRelation.permuted_statement left right = "permuted-theorem"
review_match_class ReviewRelation.connective_equivalent left right = "replacement"
review_match_class ReviewRelation.specialization_relation left right = "specialization"
review_match_class ReviewRelation.source_clone left right = "source-clone"
review_match_class ReviewRelation.subsumption_candidate left right = "subsumption-candidate"
review_match_class ReviewRelation.near_statement left right = near_class left right

abbrev pub class_of :
    Option ProbeObligation
    → ReviewRelation
    → DeclarationProbeSummary
    → DeclarationProbeSummary
    → String
class_of none relation left right = review_match_class relation left right
class_of (some obligation) relation left right = obligation_label obligation

module _ {S : Type 0} where
  unfoldable pub strong_static_evidence : RetrievedCandidate S → Bool
  strong_static_evidence candidate =
      one_of candidate.declaration.kind ("theorem" ∷ "axiom" ∷ "def" ∷ "abbrev" ∷ [])
      && any
          (λ c. one_of c.kind (
            "statement-fingerprint" ∷ "safe-permutation-fingerprint" ∷ "connective-fingerprint"
            ∷ []))
          candidate.contributions

  unfoldable pub eligible_for_policy : ProbePolicy → RetrievedCandidate S → RankedGroup S → Bool
  eligible_for_policy policy candidate group =
      if is_broad policy
      then true
      else if is_hard group.blockers
      then false
      else if strong_static_evidence candidate
      then true
      else if is_equivalence group.relation
      then true
      else is_actionable group.recommended_action
        && leb (tier_rank group.confidence) 1
        && leb (tier_rank group.review_priority) 1

  unfoldable pub primary_candidate_source : RetrievedCandidate S → String × String
  primary_candidate_source candidate = source_labels (preferred_source candidate.source_evidence)

  unfoldable pub probe_planning_facts_without_group :
      HydratedDeclaration → RetrievedCandidate S → ProbePlanningFacts
  probe_planning_facts_without_group anchor candidate =
      let (source_id, source_family) = primary_candidate_source candidate in
      record {
        source_id = source_id;
        source_family = source_family;
        match_class = "unranked";
        declaration_kind = declaration_kind_pair anchor.kind candidate.declaration.kind;
        risk = ProbeRisk.ordinary;
      }

  unfoldable pub probe_planning_facts :
      DeclarationProbeSummary
      → DeclarationProbeSummary
      → RetrievedCandidate S
      → RankedGroup S
      → Option ProbeObligation
      → ProbePlanningFacts
  probe_planning_facts left right candidate group obligation =
      let (source_id, source_family) = primary_candidate_source candidate in
      let match_class = class_of obligation group.relation left right in
      record {
        source_id = source_id;
        source_family = source_family;
        match_class = match_class;
        declaration_kind = declaration_kind_pair left.kind right.kind;
        risk =
            if is_hard group.blockers
            then ProbeRisk.hard_negative_risk
            else if (match_class == "reducible-definition")
                || definition_like left && definition_like right
            then ProbeRisk.reducible_definition_risk
            else ProbeRisk.ordinary;
      }

  abbrev pub theorem_obligation : RetrievedCandidate S → RankedGroup S → Option ProbeObligation
  theorem_obligation candidate group =
      if has_contribution candidate.contributions "statement-fingerprint"
      then some ProbeObligation.exact_theorem
      else if has_contribution candidate.contributions "safe-permutation-fingerprint"
      then some ProbeObligation.permuted_theorem
      else if is_specialization group.relation
          || has_contribution candidate.contributions "conclusion-fingerprint"
      then some ProbeObligation.specialization
      else if has_contribution candidate.contributions "connective-fingerprint"
      then some ProbeObligation.replacement
      else none

  unfoldable pub probe_obligation :
      ProbePolicy
      → DeclarationProbeSummary
      → DeclarationProbeSummary
      → RetrievedCandidate S
      → RankedGroup S
      → Option ProbeObligation
  probe_obligation policy anchor right candidate group =
      let both_theorems = theorem_like anchor && theorem_like right in
      elim (if both_theorems then theorem_obligation candidate group else none) [
        | some obligation ↦ some obligation
        | none ↦
            if definition_like anchor && definition_like right && strong_static_evidence candidate
            then some ProbeObligation.reducible_definition
            else if is_broad policy
            then some ProbeObligation.local_duplicate
            else none
      ]

  abbrev pub kept_set : CandidateSet S → List (RetrievedCandidate S) → Option (CandidateSet S)
  kept_set set [] = none
  kept_set set (c ∷ cs) = some (record { anchor = set.anchor; candidates = c ∷ cs })

  unfoldable pub candidate_sets_for_review :
      List (CandidateSet S) → Bool → Bool → List (CandidateSet S)
  candidate_sets_for_review sets compare_mathlib diagnostics =
      if diagnostics
      then sets
      else filter_map
          (λ set. kept_set set (
            filter strong_static_evidence (
              filter (λ c. not compare_mathlib || (c.declaration.origin == "mathlib"))
                set.candidates)))
          sets
