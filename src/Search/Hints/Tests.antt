-- ===== src/Search/Hints/Tests.antt =====
-- crates/search/src/replacement_hints.rs: a duplicate with one caller, and a private helper.
use lean_dup.Base.{
  ℕ, ◌≤◌, String, true, false, none, some, List, [], ◌∷◌, ◌++◌, filter, length, nat_eq, ◌||◌,
  text_ord, All, ◌≡◌, refl,
}
use lean_dup.Base.Maps
use lean_dup.Base.Sets
use lean_dup.Search.Declaration.{SourceSpan}
use lean_dup.Search.Sources.{
  SourceFacts, SourceReference, SourceReferenceStatus, DeclarationSourceFact, declaration_fact,
  import_status_for, ImportStatus,
}
use lean_dup.Search.Review.{
  ReviewRelation, ReviewAction, ReviewEvidenceMode, CallerImpact, ReplacementHint, ReviewMember,
  RankedGroup, RankedReview, ReviewFilter, Tier, visible_groups, includes,
}
use lean_dup.Search.Hints.Status.{
  ReplacementHintProfile, is_local, aggregate_import_status, aggregate_reference_status,
  span_contains,
}
use lean_dup.Search.Hints.Impact.{
  eligible, private_helper_wrapper_cleanup, caller_impact, wrapper_only,
}
use lean_dup.Search.Hints.Group.{
  hint_of, hint_for_group, with_hint, attach_replacement_hints, reference_declarations_for_hints,
}
use lean_dup.Search.Hints.Unused.{AreUnused, hint_for_group-AreUnused, hint_for_group-displayed}
use lean_dup.Search.Hints.Attach.{attach_replacement_hints_twice}
use lean_dup.Search.Hints.Requested.{reference_declarations_for_hints_lem}

abbrev span : SourceSpan
span = record {
  file = "M.lean";
  start = record { line = 3; column = 0 };
  end = record { line = 5; column = 0 };
}

abbrev reference : ℕ → SourceReference
reference line = record { file = "M.lean"; line = line; column = 2; text = "helper" }

abbrev fact : String → List SourceReference → DeclarationSourceFact
fact id references = record {
  declaration_id = id;
  qualified_name = id;
  module_name = "M";
  source_file = some "M.lean";
  source_fingerprint = none;
  references = references;
  reference_status = SourceReferenceStatus.complete;
}

abbrev facts : SourceFacts
facts = record {
  declarations =
      ("M.helper", fact "M.helper" (reference 4 ∷ []))
      ∷ ("M.unused", fact "M.unused" [])
      ∷ ("M.wrapper", fact "M.wrapper" [])
      ∷ [];
  files = ("M.lean", record { path = "M.lean"; imports = "Lib" ∷ []; is_unavailable = false }) ∷ [];
  diagnostics = [];
}

abbrev profile : ReplacementHintProfile
profile = record { max_displayed_callers = 12; transitional_alias_callers = 8 }

abbrev member : String → String → String → ReviewMember
member origin visibility id = record {
  declaration_id = id;
  origin = origin;
  module_name = "M";
  qualified_name = id;
  display_name = id;
  kind = "theorem";
  visibility = visibility;
  source_span = some span;
  status_flags = [];
}

abbrev group : List ReviewMember → List String → String → String → RankedGroup ℕ
group members blockers decl name = record {
  id = "g";
  pair_id = "p";
  relation = ReviewRelation.exact_statement;
  members = members;
  evidence = [];
  signals = [];
  blockers = blockers;
  confidence = Tier.high;
  review_priority = Tier.high;
  recommended_action = ReviewAction.replace_local_uses;
  target_decl = some decl;
  target_module = some name;
  evidence_mode = ReviewEvidenceMode.static_mode;
  probe_summary = none;
  semantic_obligations = [];
  local_caller_count = 0;
  replacement_hint = none;
}

abbrev duplicate : RankedGroup ℕ
duplicate =
    group (member "workspace" "public" "M.unused" ∷ member "mathlib" "public" "Lib.thm" ∷ []) []
      "Lib.thm" "Lib"

abbrev helper : RankedGroup ℕ
helper =
    group (member "workspace" "private" "M.helper" ∷ member "workspace" "public" "M.wrapper" ∷ [])
      ("non-public-declaration" ∷ []) "M.wrapper" "M"

abbrev review : RankedReview ℕ
review = record {
  groups = helper ∷ duplicate ∷ [];
  suppressed = [];
  diagnostics = record { candidate_pairs = 2; emitted_groups = 2; suppressed_groups = 0 };
}

abbrev review_filter : ReviewFilter
review_filter = record {
  include_generated = false;
  include_private = true;
  include_diagnostics = false;
  min_priority = Tier.low;
}

abbrev unused_hint : ReplacementHint
unused_hint = record {
  target_decl = "Lib.thm";
  target_module = "Lib";
  import_status = ImportStatus.direct;
  caller_impact = CallerImpact.no_callers;
  caller_count = 0;
  displayed_callers = [];
  callers_truncated = false;
  notes = "no local callers were found in the bounded source scan" ∷ [];
  blockers = [];
}

duplicate_hint : hint_for_group duplicate facts profile ≡ some unused_hint
unfolding hint_for_group hint_of eligible caller_impact wrapper_only aggregate_import_status
    aggregate_reference_status import_status_for declaration_fact Maps.get Sets.extend
duplicate_hint = refl

-- A private helper that only its public wrapper calls is inlined.
helper_inlined :
    (with_hint facts profile helper).recommended_action ≡ ReviewAction.inline_private_helper
unfolding with_hint private_helper_wrapper_cleanup span_contains declaration_fact Maps.get
helper_inlined = refl

duplicate-with_hint : (with_hint facts profile duplicate).replacement_hint ≡ some unused_hint
unfolding with_hint private_helper_wrapper_cleanup
duplicate-with_hint = duplicate_hint

both_visible : visible_groups review_filter review ≡ (helper ∷ []) ++ duplicate ∷ []
unfolding visible_groups includes
both_visible = refl

hint_for_group-AreUnused_example : AreUnused facts (filter is_local duplicate.members)
hint_for_group-AreUnused_example =
    hint_for_group-AreUnused duplicate facts profile unused_hint duplicate_hint refl

hint_for_group-displayed_example :
    (length unused_hint.displayed_callers ≤ 12)
    × ((unused_hint.callers_truncated
          || nat_eq (length unused_hint.displayed_callers) unused_hint.caller_count)
        ≡ true)
hint_for_group-displayed_example =
    hint_for_group-displayed duplicate facts profile unused_hint duplicate_hint

attach_replacement_hints_twice_example :
    attach_replacement_hints (attach_replacement_hints review facts profile) facts profile
    ≡ attach_replacement_hints review facts profile
attach_replacement_hints_twice_example = attach_replacement_hints_twice facts profile review

reference_declarations_for_hints_lem_example :
    All
      (λ m.
        Sets.contains m.declaration_id (reference_declarations_for_hints review review_filter)
        ≡ true)
      (filter is_local duplicate.members)
reference_declarations_for_hints_lem_example =
    reference_declarations_for_hints_lem review review_filter (helper ∷ []) duplicate []
      both_visible facts profile unused_hint duplicate-with_hint
