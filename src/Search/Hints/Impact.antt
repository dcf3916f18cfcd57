-- ===== src/Search/Hints/Impact.antt =====
-- crates/search/src/replacement_hints.rs: which groups get a hint, and what a change would do to
-- the callers.
use lean_dup.Base.{
  String, Bool, false, ◌&&◌, not, Option, none, some, List, [], ◌∷◌, any, all, filter, find,
  filter_map, flat_map, is_empty, if◌then◌else◌, ◌==◌, one_of, leb, text_ord, nat_ord, pair_ord,
}
use lean_dup.Search.Declaration.{SourceSpan}
use lean_dup.Search.Sources.{
  reference_ord, SourceReference, SourceReferenceStatus, DeclarationSourceFact, SourceFacts,
}
use lean_dup.Search.Review.{CallerImpact, ReviewMember, RankedGroup, tier_rank}
use lean_dup.Search.Hints.Status.{
  span_contains, member_fact, is_local, is_public, is_inline, can_inline, hints_action, is_complete,
}

-- All references of the private members lie in the span of the target.
abbrev pub within_span : Option SourceSpan → List SourceReference → Bool
within_span none references = false
within_span (some span) references = all (span_contains span) references

abbrev pub only_in_wrapper : Option SourceSpan → List ReviewMember → SourceFacts → Bool
only_in_wrapper span [] facts = false
only_in_wrapper span (m ∷ []) facts = elim (member_fact facts m) [
  | none ↦ false
  | some fact ↦
      is_complete fact && not (is_empty fact.references) && within_span span fact.references
]
only_in_wrapper span (m ∷ n ∷ ms) facts = false

abbrev pub has_name : String → ReviewMember → Bool
has_name target_decl m = is_public m && (m.qualified_name == target_decl)

abbrev pub find_target :
    (String → ReviewMember → Bool) → Option String → List ReviewMember → Option ReviewMember
find_target p none members = none
find_target p (some target_decl) members = find (p target_decl) members

abbrev pub private_facts : List ReviewMember → SourceFacts → List DeclarationSourceFact
private_facts local_members facts =
    filter_map (member_fact facts) (filter (λ m. not (is_public m)) local_members)

abbrev pub impact_of : Bool → SourceReferenceStatus → List SourceReference → CallerImpact
impact_of wrapped SourceReferenceStatus.missing_source callers = CallerImpact.missing_source_callers
impact_of wrapped SourceReferenceStatus.not_requested callers = CallerImpact.unknown_callers
impact_of wrapped SourceReferenceStatus.source_unavailable callers = CallerImpact.unknown_callers
impact_of wrapped SourceReferenceStatus.truncated callers = CallerImpact.truncated_callers
impact_of wrapped SourceReferenceStatus.complete callers =
    if is_empty callers
    then CallerImpact.no_callers
    else if wrapped
    then CallerImpact.wrapper_only_callers
    else CallerImpact.bounded_callers

module _ {S : Type 0} where
  unfoldable pub eligible : RankedGroup S → Bool
  eligible group =
      not (leb 2 (tier_rank group.confidence))
      && not (
          any
            (λ blocker.
              one_of blocker
                ("generated-declaration" ∷ "broad-head-only" ∷ "weak-feature-overlap" ∷ []))
            group.blockers)
      && hints_action group.recommended_action

  unfoldable pub private_helper_wrapper_cleanup : RankedGroup S → SourceFacts → Bool
  private_helper_wrapper_cleanup group facts =
      any (λ blocker. blocker == "non-public-declaration") group.blockers
      && can_inline group.recommended_action
      && elim (find_target (λ d m. is_local m && has_name d m) group.target_decl group.members) [
        | none ↦ false
        | some target ↦
            only_in_wrapper target.source_span
              (filter (λ m. is_local m && not (is_public m)) group.members) facts
      ]

  unfoldable pub wrapper_only : RankedGroup S → List ReviewMember → SourceFacts → Bool
  wrapper_only group local_members facts =
      elim (find_target has_name group.target_decl local_members) [
        | none ↦ false
        | some target ↦
            let known = private_facts local_members facts in
            not (is_empty known)
            && all is_complete known
            && within_span target.source_span (flat_map (λ fact. fact.references) known)
      ]

  unfoldable pub caller_impact :
      RankedGroup S
      → List ReviewMember
      → SourceFacts
      → SourceReferenceStatus
      → List SourceReference
      → CallerImpact
  caller_impact group local_members facts status callers =
      impact_of (is_inline group.recommended_action && wrapper_only group local_members facts)
        status callers
