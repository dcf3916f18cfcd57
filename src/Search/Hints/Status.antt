-- ===== src/Search/Hints/Status.antt =====
-- crates/search/src/replacement_hints.rs: what the facts about the members of a group add up to.
use lean_dup.Base.{
  ℕ, Bool, true, false, ◌&&◌, ◌||◌, Option, none, some, List, any, all, is_empty, if◌then◌else◌,
  ◌==◌, leb, nat_eq, text_ord, nat_ord, pair_ord,
}
use lean_dup.Search.Declaration.{SourceSpan}
use lean_dup.Search.Sources.{
  reference_ord, ImportStatus, SourceReference, SourceReferenceStatus, DeclarationSourceFact,
  SourceFacts, declaration_fact,
}
use lean_dup.Search.Review.{ReviewAction, ReviewMember}

pub record ReplacementHintProfile : Type 0 where
  pub max_displayed_callers : ℕ
  pub transitional_alias_callers : ℕ

-- The derived order of `SourceReference`: by file, line, column and text.
unfoldable pub span_contains : SourceSpan → SourceReference → Bool
span_contains span r =
    (r.file == span.file) && leb span.start.line r.line && leb r.line span.end.line

abbrev pub import_rank : ImportStatus → ℕ
import_rank ImportStatus.direct = 0
import_rank ImportStatus.missing = 1
import_rank ImportStatus.unknown_import = 2
import_rank ImportStatus.not_importable = 3

abbrev pub same_import : ImportStatus → ImportStatus → Bool
same_import s t = nat_eq (import_rank s) (import_rank t)

unfoldable pub aggregate_import_status : List ImportStatus → ImportStatus
aggregate_import_status statuses =
    if is_empty statuses
    then ImportStatus.unknown_import
    else if any (same_import ImportStatus.not_importable) statuses
    then ImportStatus.not_importable
    else if all (same_import ImportStatus.direct) statuses
    then ImportStatus.direct
    else if any (same_import ImportStatus.missing) statuses
    then ImportStatus.missing
    else ImportStatus.unknown_import

abbrev pub status_rank : SourceReferenceStatus → ℕ
status_rank SourceReferenceStatus.not_requested = 0
status_rank SourceReferenceStatus.missing_source = 1
status_rank SourceReferenceStatus.source_unavailable = 2
status_rank SourceReferenceStatus.complete = 3
status_rank SourceReferenceStatus.truncated = 4

abbrev pub has_status : SourceReferenceStatus → Option SourceReferenceStatus → Bool
has_status s none = false
has_status s (some t) = nat_eq (status_rank s) (status_rank t)

abbrev pub is_none : {A : Type 0} → Option A → Bool
is_none none = true
is_none (some a) = false

unfoldable pub aggregate_reference_status :
    List (Option SourceReferenceStatus) → SourceReferenceStatus
aggregate_reference_status statuses =
    if is_empty statuses || any is_none statuses
    then SourceReferenceStatus.not_requested
    else if any (has_status SourceReferenceStatus.missing_source) statuses
    then SourceReferenceStatus.missing_source
    else if any (has_status SourceReferenceStatus.source_unavailable) statuses
    then SourceReferenceStatus.source_unavailable
    else if any (has_status SourceReferenceStatus.truncated) statuses
    then SourceReferenceStatus.truncated
    else if any (has_status SourceReferenceStatus.not_requested) statuses
    then SourceReferenceStatus.not_requested
    else SourceReferenceStatus.complete

abbrev pub member_fact : SourceFacts → ReviewMember → Option DeclarationSourceFact
member_fact facts m = declaration_fact facts m.declaration_id

abbrev pub is_local : ReviewMember → Bool
is_local m = m.origin == "workspace"

abbrev pub is_public : ReviewMember → Bool
is_public m = m.visibility == "public"

abbrev pub is_inline : ReviewAction → Bool
is_inline ReviewAction.inline_private_helper = true
is_inline other = false

abbrev pub is_local_alias : ReviewAction → Bool
is_local_alias ReviewAction.local_alias = true
is_local_alias other = false

-- The actions that `private_helper_wrapper_cleanup` turns into an inlining.
abbrev pub can_inline : ReviewAction → Bool
can_inline ReviewAction.replace_local_uses = true
can_inline ReviewAction.local_alias = true
can_inline other = false

abbrev pub hints_action : ReviewAction → Bool
hints_action ReviewAction.already_in_mathlib = true
hints_action ReviewAction.replace_local_uses = true
hints_action ReviewAction.local_alias = true
hints_action ReviewAction.inline_private_helper = true
hints_action other = false

abbrev pub is_complete : DeclarationSourceFact → Bool
is_complete fact = has_status SourceReferenceStatus.complete (some fact.reference_status)
