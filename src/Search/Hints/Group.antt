-- ===== src/Search/Hints/Group.antt =====
-- crates/search/src/replacement_hints.rs: the hint of a group and the hints of a review.
use Prim.Native.String.{◌++◌ as append}
use mathlib.Core.Option
use lean_dup.Base.{
  String, Bool, true, false, ◌&&◌, ◌||◌, not, Option, none, some, List, [], ◌∷◌, ◌++◌, filter, take,
  map, filter_map, flat_map, length, is_empty, if◌then◌else◌, leb, ltb, text_ord, nat_ord, pair_ord,
}
use lean_dup.Base.Sets
use lean_dup.Search.Sources.{
  reference_ord, ImportStatus, SourceReference, SourceReferenceStatus, SourceFacts,
  import_status_for,
}
use lean_dup.Search.Review.{
  ReviewAction, ReviewEvidenceMode, CallerImpact, ReplacementHint, ReviewMember, RankedGroup,
  RankedReview, ReviewFilter, visible_groups,
}
use lean_dup.Search.Hints.Status.{
  ReplacementHintProfile, aggregate_import_status, aggregate_reference_status, is_none, member_fact,
  is_local, is_inline, is_local_alias,
}
use lean_dup.Search.Hints.Impact.{eligible, private_helper_wrapper_cleanup, caller_impact}

abbrev pub reference_statuses :
    SourceFacts → List ReviewMember → List (Option SourceReferenceStatus)
reference_statuses facts members =
    map (λ m. Option.map (λ fact. fact.reference_status) (member_fact facts m)) members

abbrev pub references_of : SourceFacts → List ReviewMember → List SourceReference
references_of facts members =
    flat_map (λ fact. fact.references) (filter_map (member_fact facts) members)

abbrev pub import_blockers : ImportStatus → List String
import_blockers ImportStatus.missing = "missing-import" ∷ []
import_blockers ImportStatus.not_importable = "source-backed-not-importable" ∷ []
import_blockers other = []

abbrev pub import_notes : String → ImportStatus → List String
import_notes target_module ImportStatus.missing =
    append "add `import " (append target_module "` before replacing local uses") ∷ []
import_notes target_module ImportStatus.not_importable =
    "source-backed evidence is not importable in this workspace; review before replacing uses" ∷ []
import_notes target_module other = []

abbrev pub impact_blockers : CallerImpact → List String
impact_blockers CallerImpact.truncated_callers = "caller-scan-truncated" ∷ []
impact_blockers CallerImpact.unknown_callers = "caller-impact-unknown" ∷ []
impact_blockers CallerImpact.missing_source_callers = "missing-source" ∷ []
impact_blockers other = []

abbrev pub impact_notes : CallerImpact → List String
impact_notes CallerImpact.no_callers = "no local callers were found in the bounded source scan" ∷ []
impact_notes CallerImpact.wrapper_only_callers =
    "caller impact is wrapper-only; do not replace uses outside the wrapper" ∷ []
impact_notes CallerImpact.bounded_callers = []
impact_notes CallerImpact.truncated_callers =
    "caller scan reached its bound; inspect remaining uses before replacing" ∷ []
impact_notes CallerImpact.unknown_callers =
    "caller impact is unknown because source-use facts are incomplete" ∷ []
impact_notes CallerImpact.missing_source_callers =
    "caller impact is unknown because source location is missing" ∷ []

abbrev pub note_if : Bool → String → List String
note_if test note = if test then note ∷ [] else []

abbrev pub is_truncated : CallerImpact → Bool
is_truncated CallerImpact.truncated_callers = true
is_truncated other = false

abbrev pub is_not_importable : ReviewEvidenceMode → Bool
is_not_importable ReviewEvidenceMode.not_importable_mode = true
is_not_importable other = false

module _ {S : Type 0} where
  unfoldable pub hint_of :
      RankedGroup S
      → SourceFacts
      → ReplacementHintProfile
      → String
      → String
      → List ReviewMember
      → ReplacementHint
  hint_of group facts profile target_decl target_module local_members =
      let statuses =
        map (λ m. import_status_for facts m.declaration_id target_module) local_members in
      let import_status =
        if is_not_importable group.evidence_mode
        then ImportStatus.not_importable
        else aggregate_import_status statuses in
      let caller_status = aggregate_reference_status (reference_statuses facts local_members) in
      let callers = Sets.extend (references_of facts local_members) [] in
      let impact = caller_impact group local_members facts caller_status callers in
      record {
        target_decl = target_decl;
        target_module = target_module;
        import_status = import_status;
        caller_impact = impact;
        caller_count = length callers;
        displayed_callers = take profile.max_displayed_callers callers;
        callers_truncated =
            is_truncated impact || ltb profile.max_displayed_callers (length callers);
        notes =
            import_notes target_module import_status
            ++ impact_notes impact
            ++ note_if (leb profile.transitional_alias_callers (length callers))
                "many local callers; keep a transitional alias during cleanup"
            ++ note_if (is_local_alias group.recommended_action)
                "alias-first cleanup is safer than deleting the local declaration"
            ++ note_if (is_inline group.recommended_action)
                "only the public wrapper calls the private helper; inline the helper body into the wrapper";
        blockers = import_blockers import_status ++ impact_blockers impact;
      }

  unfoldable pub hint_for_group :
      RankedGroup S → SourceFacts → ReplacementHintProfile → Option ReplacementHint
  hint_for_group group facts profile =
      let local_members = filter is_local group.members in
      if not (eligible group) then none else elim group.target_decl [
        | none ↦ none
        | some target_decl ↦ elim group.target_module [
          | none ↦ none
          | some target_module ↦
              if is_empty local_members
              then none
              else some (hint_of group facts profile target_decl target_module local_members)
        ]
      ]

  unfoldable pub with_hint : SourceFacts → ReplacementHintProfile → RankedGroup S → RankedGroup S
  with_hint facts profile group =
      let action =
        if private_helper_wrapper_cleanup group facts
        then ReviewAction.inline_private_helper
        else group.recommended_action in
      let cleaned = record group { recommended_action = action } in
      record cleaned { replacement_hint = hint_for_group cleaned facts profile }

  unfoldable pub attach_replacement_hints :
      RankedReview S → SourceFacts → ReplacementHintProfile → RankedReview S
  attach_replacement_hints review facts profile = record review {
    groups = map (with_hint facts profile) review.groups;
  }

  unfoldable pub reference_declarations_for_hints : RankedReview S → ReviewFilter → List String
  reference_declarations_for_hints review f =
      let groups =
        filter
          (λ group.
            eligible group && not (is_none group.target_decl) && not (is_none group.target_module))
          (visible_groups f review) in
      Sets.extend
        (map (λ m. m.declaration_id) (filter is_local (flat_map (λ group. group.members) groups)))
        []
