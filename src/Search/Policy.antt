-- ===== src/Search/Policy.antt =====
-- crates/search/src/review_policy.rs: which pairs a reviewer sees on symbolic evidence alone, and
-- the blockers that hide a pair.
pub mod Blockers
pub mod Visible
mod Tests
use lean_dup.Base.{
  String, Bool, true, false, ◌&&◌, ◌||◌, not, Option, none, some, List, [], ◌∷◌, ◌++◌, any, all,
  is_empty, filter_map, ◌==◌, if◌then◌else◌, one_of, strip_prefix, starts_with, text_ord,
}
use lean_dup.Base.Sets
use lean_dup.Search.Declaration.{HydratedDeclaration, KeyContribution, has_contribution}

pub data DeclarationKindClass : Type 0 where
  theorem_like_class : DeclarationKindClass
  definition_like_class : DeclarationKindClass
  typeclass_instance : DeclarationKindClass
  data_type : DeclarationKindClass
  constructor_or_projection : DeclarationKindClass
  unsupported_class : DeclarationKindClass

unfoldable pub kind_class : HydratedDeclaration → DeclarationKindClass
kind_class d =
    if (d.kind == "instance") || starts_with d.display_name "inst"
    then typeclass_instance
    else if one_of d.kind ("theorem" ∷ "axiom" ∷ [])
    then theorem_like_class
    else if one_of d.kind ("def" ∷ "abbrev" ∷ "opaque" ∷ [])
    then definition_like_class
    else if one_of d.kind ("inductive" ∷ "structure" ∷ "class" ∷ [])
    then data_type
    else if one_of d.kind ("constructor" ∷ "projection" ∷ "recursor" ∷ [])
    then constructor_or_projection
    else unsupported_class

abbrev pub is_theorem_class : DeclarationKindClass → Bool
is_theorem_class theorem_like_class = true
is_theorem_class other = false

abbrev pub is_instance_class : DeclarationKindClass → Bool
is_instance_class typeclass_instance = true
is_instance_class other = false

unfoldable pub theorem_like : HydratedDeclaration → Bool
theorem_like d = is_theorem_class (kind_class d)

unfoldable pub typeclass_like : HydratedDeclaration → Bool
typeclass_like d = is_instance_class (kind_class d)

abbrev pub generated_names : List String
generated_names =
    ("recOn" ∷ "casesOn" ∷ "brecOn" ∷ "binductionOn" ∷ "below" ∷ "noConfusion" ∷ "noConfusionType"
      ∷ "ctorIdx" ∷ [])

unfoldable pub is_generated : HydratedDeclaration → Bool
is_generated d =
    any (λ flag. flag == "generated") d.status_flags || one_of d.display_name generated_names

unfoldable pub non_public : HydratedDeclaration → Bool
non_public d = not (d.visibility == "public")

unfoldable pub low_signal : HydratedDeclaration → Bool
low_signal d = not (is_empty d.low_signal_markers)

unfoldable pub broad_heads : HydratedDeclaration → HydratedDeclaration → List String
broad_heads left right =
    Sets.extend
      (filter_map (strip_prefix "broad_head:")
        (left.low_signal_markers ++ right.low_signal_markers))
      []

abbrev pub insert_if : Bool → String → List String → List String
insert_if condition blocker blockers = if condition then Sets.insert blocker blockers else blockers

-- `is_some_and(|display| heads.contains(display))`.
abbrev pub shows_one_of : List String → Option String → Bool
shows_one_of heads none = false
shows_one_of heads (some display) = Sets.contains display heads

abbrev pub hiding : List String
hiding =
    "generated-declaration" ∷ "broad-head-only" ∷ "typeclass-instance-noise"
    ∷ "non-theorem-static-only" ∷ "non-public-declaration" ∷ []

unfoldable pub hides : List String → Bool
hides blockers = any (λ blocker. one_of blocker hiding) blockers

module _ {S : Type 0} (contributions : List (KeyContribution S)) where
  unfoldable pub broad_head_only : HydratedDeclaration → HydratedDeclaration → Bool
  broad_head_only left right =
      let heads = broad_heads left right in
      not (is_empty contributions)
      && not (is_empty heads)
      && all (λ c. (c.kind == "role-feature") && shows_one_of heads c.display) contributions

  unfoldable pub proof_grade_or_source_clone : Bool
  proof_grade_or_source_clone =
      has_contribution contributions "source-fingerprint"
      || has_contribution contributions "semantic-proof-grade"

  unfoldable pub visibility_blockers : HydratedDeclaration → HydratedDeclaration → List String
  visibility_blockers left right =
      insert_if (not ((theorem_like left && theorem_like right) || proof_grade_or_source_clone))
        "non-theorem-static-only"
        (insert_if (typeclass_like left || typeclass_like right) "typeclass-instance-noise" (
          insert_if (broad_head_only left right) "broad-head-only" (
            insert_if (low_signal left || low_signal right) "low-signal-declaration" (
              insert_if (non_public left || non_public right) "non-public-declaration"
                (insert_if (is_generated left || is_generated right) "generated-declaration" [])))))

  unfoldable pub symbolic_observation_visible : HydratedDeclaration → HydratedDeclaration → Bool
  symbolic_observation_visible left right =
      let blockers = visibility_blockers left right in
      if hides blockers
      then false
      else if Sets.contains "low-signal-declaration" blockers
      then false
      else if theorem_like left && theorem_like right
      then has_contribution contributions "statement-fingerprint"
        || has_contribution contributions "safe-permutation-fingerprint"
      else false

  unfoldable pub strong_low_signal_symbolic_support : Bool
  strong_low_signal_symbolic_support =
      has_contribution contributions "statement-fingerprint"
      && has_contribution contributions "safe-permutation-fingerprint"
