-- ===== src/Search/Policy/Visible.antt =====
-- crates/search/src/review_policy.rs: `symbolic_observation_visible`.
use lean_dup.Base.{
  String, List, [], ◌∷◌, true, false, ◌&&◌, ◌||◌, not, ◌≡◌, refl, or_false, any-one_of, text_ord,
  arith, one_of, Bool-cases, inl, inr, ◌∙◌, if◌then◌else◌, is_empty, Bool, ◌==◌, starts_with,
  eq_iff, sym, subst,
}
use lean_dup.Base.Sets
use lean_dup.Search.Declaration.{HydratedDeclaration, KeyContribution, has_contribution}
use lean_dup.Search.Policy.{
  kind_class, DeclarationKindClass, is_theorem_class, is_instance_class, theorem_like,
  typeclass_like, is_generated, non_public, low_signal, broad_head_only, broad_heads, hides, hiding,
  symbolic_observation_visible,
}
use lean_dup.Search.Policy.DeclarationKindClass.{
  typeclass_instance, theorem_like_class, definition_like_class, data_type,
  constructor_or_projection, unsupported_class,
}
use lean_dup.Search.Policy.Blockers.{visibility_blockers_lem}

theorem_not_instance :
    (c : DeclarationKindClass) → is_theorem_class c ≡ true → is_instance_class c ≡ false
theorem_not_instance DeclarationKindClass.theorem_like_class h = refl
theorem_not_instance DeclarationKindClass.definition_like_class h = cc h
theorem_not_instance DeclarationKindClass.typeclass_instance h = cc h
theorem_not_instance DeclarationKindClass.data_type h = cc h
theorem_not_instance DeclarationKindClass.constructor_or_projection h = cc h
theorem_not_instance DeclarationKindClass.unsupported_class h = cc h

-- A theorem or an axiom, with a name that is not taken for the one of an instance.
abbrev pub is_plain_theorem : HydratedDeclaration → Bool
is_plain_theorem d =
    one_of d.kind ("theorem" ∷ "axiom" ∷ []) && not (starts_with d.display_name "inst")

not_instance :
    (k a : String) → (a == "instance") ≡ false → (k == a) ≡ true → (k == "instance") ≡ false
not_instance k a apart h = subst (λ x. (x == "instance") ≡ false) (sym ((eq_iff k a).0 h)) apart

not_instance_of :
    (k a b : String)
    → (a == "instance") ≡ false
    → (b == "instance") ≡ false
    → one_of k (a ∷ b ∷ []) ≡ true
    → (k == "instance") ≡ false
not_instance_of k a b h h' t = elim (Bool-cases (k == a)) [
  | inl first ↦ not_instance k a h first
  | inr other ↦ not_instance k b h' (sym (or_false (k == b)) ∙ (rw other at t))
]

-- The tests of `kind_class`, the instance's first.
is_theorem_class_lem :
    (instance? named theorem? definition? data? constructor? : Bool)
    → (theorem? ≡ true → instance? ≡ false)
    → is_theorem_class (
        if instance? || named
        then typeclass_instance
        else if theorem?
        then theorem_like_class
        else if definition?
        then definition_like_class
        else if data?
        then data_type
        else if constructor?
        then constructor_or_projection
        else unsupported_class)
      ≡ (theorem? && not named)
is_theorem_class_lem true named true definition? data? constructor? h = cc (h refl)
is_theorem_class_lem true named false definition? data? constructor? h = refl
is_theorem_class_lem false true true definition? data? constructor? h = refl
is_theorem_class_lem false true false definition? data? constructor? h = refl
is_theorem_class_lem false false true definition? data? constructor? h = refl
is_theorem_class_lem false false false true data? constructor? h = refl
is_theorem_class_lem false false false false true constructor? h = refl
is_theorem_class_lem false false false false false true h = refl
is_theorem_class_lem false false false false false false h = refl

theorem_like_lem : (d : HydratedDeclaration) → theorem_like d ≡ is_plain_theorem d
unfolding theorem_like kind_class
theorem_like_lem d =
    is_theorem_class_lem (d.kind == "instance") (starts_with d.display_name "inst")
      (one_of d.kind ("theorem" ∷ "axiom" ∷ [])) (one_of d.kind ("def" ∷ "abbrev" ∷ "opaque" ∷ []))
      (one_of d.kind ("inductive" ∷ "structure" ∷ "class" ∷ []))
      (one_of d.kind ("constructor" ∷ "projection" ∷ "recursor" ∷ []))
      (not_instance_of d.kind "theorem" "axiom" refl refl)

theorem_like-typeclass_like :
    (d : HydratedDeclaration) → theorem_like d ≡ true → typeclass_like d ≡ false
unfolding theorem_like typeclass_like
theorem_like-typeclass_like d h = theorem_not_instance (kind_class d) h

no_heads :
    (left right : HydratedDeclaration)
    → low_signal left ≡ false
    → low_signal right ≡ false
    → broad_heads left right ≡ []
unfolding low_signal broad_heads Sets.extend
no_heads left right h k =
    rw (empty_of left.low_signal_markers h, empty_of right.low_signal_markers k) refl
  where
    empty_of : (xs : List String) → not (is_empty xs) ≡ false → xs ≡ []
    empty_of [] e = refl
    empty_of (x ∷ xs) e = cc e

hides_lem :
    (blockers : List String)
    → hides blockers ≡ (
        Sets.contains "generated-declaration" blockers
        || (Sets.contains "broad-head-only" blockers
            || (Sets.contains "typeclass-instance-noise" blockers
                || (Sets.contains "non-theorem-static-only" blockers
                    || (Sets.contains "non-public-declaration" blockers || false)))))
unfolding hides
hides_lem blockers = any-one_of hiding blockers

module _ {S : Type 0} (contributions : List (KeyContribution S))
    (left right : HydratedDeclaration) where
  no_broad_head :
      low_signal left ≡ false
      → low_signal right ≡ false
      → broad_head_only contributions left right ≡ false
  unfolding broad_head_only
  no_broad_head h k = rw (no_heads left right h k) (ground arith)

module _ {S : Type 0} (contributions : List (KeyContribution S)) where
  visible_by_class :
      (left right : HydratedDeclaration)
      → symbolic_observation_visible contributions left right ≡ (
          (theorem_like left && theorem_like right)
          && (not (is_generated left || is_generated right)
              && (not (non_public left || non_public right)
                  && (not (low_signal left || low_signal right)
                      && (has_contribution contributions "statement-fingerprint"
                          || has_contribution contributions "safe-permutation-fingerprint")))))
  unfolding symbolic_observation_visible
  visible_by_class left right =
      simp (hides_lem, visibility_blockers_lem contributions left right, or_false)
        (ground (
          arith,
          theorem_like-typeclass_like left,
          theorem_like-typeclass_like right,
          no_broad_head contributions left right,
        ))

  -- A pair is visible on symbolic evidence exactly if both declarations are theorems or axioms whose
  -- displayed names do not begin with `inst`, are not generated, are public and carry no low-signal
  -- marker, and the pair shares the fingerprint of the statement or the one of the statement up to
  -- safe permutation.
  pub symbolic_observation_visible_lem :
      (left right : HydratedDeclaration)
      → symbolic_observation_visible contributions left right ≡ (
          (is_plain_theorem left && is_plain_theorem right)
          && (not (is_generated left || is_generated right)
              && (not (non_public left || non_public right)
                  && (not (low_signal left || low_signal right)
                      && (has_contribution contributions "statement-fingerprint"
                          || has_contribution contributions "safe-permutation-fingerprint")))))
  symbolic_observation_visible_lem left right =
      rw (theorem_like_lem left, theorem_like_lem right) at (visible_by_class left right)
