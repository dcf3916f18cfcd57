-- ===== src/Search/Ranking/Decision.antt =====
-- crates/search/src/ranking.rs: the relation, priority, confidence and action of a pair.
use lean_dup.Base.{
  ℕ, String, Bool, true, false, ◌&&◌, ◌||◌, not, Option, none, some, List, [], ◌∷◌, any, ltb,
  if◌then◌else◌, one_of, text_ord,
}
use lean_dup.Base.Sets
use lean_dup.Search.Review.{ReviewRelation, ReviewAction, Tier, is_noise}
use lean_dup.Search.Sources.{ImportStatus}
use lean_dup.Search.Ranking.{is_missing}

abbrev pub forcing : List String
forcing =
    "generated-declaration" ∷ "broad-head-only" ∷ "typeclass-instance-noise"
    ∷ "non-theorem-static-only" ∷ "unverified-proof-grade-evidence" ∷ []

abbrev pub is_exact_or_permuted : ReviewRelation → Bool
is_exact_or_permuted ReviewRelation.exact_statement = true
is_exact_or_permuted ReviewRelation.permuted_statement = true
is_exact_or_permuted other = false

unfoldable pub blockers_force_noise : List String → ReviewRelation → Bool → Bool → Bool → Bool
blockers_force_noise blockers relation source_clone proof_grade strong_support =
    if any (λ blocker. one_of blocker forcing) blockers
    then true
    else if Sets.contains "low-signal-declaration" blockers
    then not (proof_grade || source_clone || strong_support && is_exact_or_permuted relation)
    else false

unfoldable pub relation_for : Bool → Bool → Bool → Bool → Bool → Bool → ReviewRelation
relation_for exact specialization permuted connective source_clone near =
    if exact
    then ReviewRelation.exact_statement
    else if specialization
    then ReviewRelation.specialization_relation
    else if permuted
    then ReviewRelation.permuted_statement
    else if connective
    then ReviewRelation.connective_equivalent
    else if source_clone
    then ReviewRelation.source_clone
    else if near
    then ReviewRelation.subsumption_candidate
    else ReviewRelation.near_statement

abbrev pub alias_or_replace : ℕ → Bool → ℕ → ReviewAction
alias_or_replace local_caller_count import_missing transitional_alias_callers =
    if ltb 0 local_caller_count
      && ltb local_caller_count transitional_alias_callers
      && not import_missing
    then ReviewAction.replace_local_uses
    else ReviewAction.local_alias

abbrev pub missing_import : Option ImportStatus → Bool
missing_import none = false
missing_import (some status) = is_missing status

unfoldable pub action_for : ReviewRelation → Bool → ℕ → Option ImportStatus → ℕ → ReviewAction
action_for ReviewRelation.exact_statement has_mathlib local_caller_count import_status
      transitional_alias_callers =
    if has_mathlib
    then ReviewAction.already_in_mathlib
    else alias_or_replace local_caller_count (missing_import import_status)
        transitional_alias_callers
action_for ReviewRelation.permuted_statement has_mathlib callers status bound =
    ReviewAction.local_alias
action_for ReviewRelation.connective_equivalent has_mathlib callers status bound =
    ReviewAction.local_alias
action_for ReviewRelation.specialization_relation has_mathlib callers status bound =
    ReviewAction.specialization_of
action_for ReviewRelation.source_clone has_mathlib callers status bound =
    ReviewAction.probable_source_clone
action_for ReviewRelation.subsumption_candidate has_mathlib callers status bound =
    ReviewAction.merge_generalization
action_for ReviewRelation.near_statement has_mathlib callers status bound =
    ReviewAction.manual_review

abbrev pub priority_of_relation : ReviewRelation → Bool → Tier
priority_of_relation ReviewRelation.exact_statement has_mathlib = Tier.high
priority_of_relation ReviewRelation.permuted_statement has_mathlib = Tier.medium
priority_of_relation ReviewRelation.connective_equivalent has_mathlib = Tier.medium
priority_of_relation ReviewRelation.specialization_relation has_mathlib = Tier.medium
priority_of_relation ReviewRelation.source_clone has_mathlib = Tier.low
priority_of_relation ReviewRelation.subsumption_candidate has_mathlib =
    if has_mathlib then Tier.low else Tier.medium
priority_of_relation ReviewRelation.near_statement has_mathlib = Tier.low

-- The last argument is `score < min_near_score`.
unfoldable pub priority_for : ReviewRelation → Bool → List String → Bool → Tier
priority_for relation has_mathlib blockers below_near =
    if Sets.contains "weak-feature-overlap" blockers || below_near
    then Tier.low
    else priority_of_relation relation has_mathlib

abbrev pub confidence_of_relation : ReviewRelation → Tier
confidence_of_relation ReviewRelation.exact_statement = Tier.high
confidence_of_relation ReviewRelation.permuted_statement = Tier.medium
confidence_of_relation ReviewRelation.connective_equivalent = Tier.medium
confidence_of_relation ReviewRelation.specialization_relation = Tier.medium
confidence_of_relation ReviewRelation.source_clone = Tier.medium
confidence_of_relation ReviewRelation.subsumption_candidate = Tier.medium
confidence_of_relation ReviewRelation.near_statement = Tier.low

unfoldable pub confidence_for : ReviewRelation → Tier → Tier
confidence_for relation priority =
    if is_noise priority then Tier.noise else confidence_of_relation relation
