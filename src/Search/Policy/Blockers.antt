-- ===== src/Search/Policy/Blockers.antt =====
-- crates/search/src/review_policy.rs: which blockers `visibility_blockers` sets.
use lean_dup.Base.{
  String, List, [], ◌∷◌, Bool, true, false, ◌&&◌, ◌||◌, not, ◌≡◌, refl, ap, ◌∙◌, or_false, or_comm,
  and_comm, ◌++◌, filter_map, strip_prefix, any-append, prepend?, Option, some, none, text_ord,
}
use lean_dup.Base.Sets
use lean_dup.Search.Declaration.{HydratedDeclaration, KeyContribution}
use lean_dup.Search.Policy.{
  insert_if, theorem_like, typeclass_like, is_generated, non_public, low_signal, broad_head_only,
  proof_grade_or_source_clone, visibility_blockers, broad_heads,
}

pub contains-insert_if :
    (z : String) (condition : Bool) (blocker : String) (blockers : List String)
    → Sets.contains z (insert_if condition blocker blockers)
      ≡ (condition && Sets.same z blocker || Sets.contains z blockers)
contains-insert_if z true blocker blockers = Sets.contains-insert z blocker blockers
contains-insert_if z false blocker blockers = refl

pub contains-empty : (z : String) → Sets.contains z [] ≡ false
unfolding Sets.contains
contains-empty z = refl

pub insert_if-IsAscending :
    (condition : Bool) (blocker : String) (blockers : List String)
    → Sets.IsAscending blockers
    → Sets.IsAscending (insert_if condition blocker blockers)
insert_if-IsAscending true blocker blockers h = Sets.insert-IsAscending blocker blockers h
insert_if-IsAscending false blocker blockers h = h

module _ {S : Type 0} (contributions : List (KeyContribution S))
    (left right : HydratedDeclaration) where
  pub visibility_blockers_lem :
      (z : String)
      → Sets.contains z (visibility_blockers contributions left right) ≡ (
          not (
              (theorem_like left && theorem_like right)
              || proof_grade_or_source_clone contributions)
            && Sets.same z "non-theorem-static-only"
          || ((typeclass_like left || typeclass_like right)
                && Sets.same z "typeclass-instance-noise"
              || (broad_head_only contributions left right && Sets.same z "broad-head-only"
                  || ((low_signal left || low_signal right) && Sets.same z "low-signal-declaration"
                      || ((non_public left || non_public right)
                            && Sets.same z "non-public-declaration"
                          || (is_generated left || is_generated right)
                            && Sets.same z "generated-declaration")))))
  unfolding visibility_blockers
  visibility_blockers_lem z = simp (contains-insert_if, contains-empty, or_false)

module _ {A B : Type 0} (f : A → Option B) where
  prepend-append : (o : Option B) (ys zs : List B) → prepend? o (ys ++ zs) ≡ prepend? o ys ++ zs
  prepend-append none ys zs = refl
  prepend-append (some y) ys zs = refl

  filter_map-append :
      (xs ys : List A) → filter_map f (xs ++ ys) ≡ filter_map f xs ++ filter_map f ys
  filter_map-append [] ys = refl
  filter_map-append (x ∷ xs) ys =
      ap (prepend? (f x)) (filter_map-append xs ys)
      ∙ prepend-append (f x) (filter_map f xs) (filter_map f ys)

module _ (left right : HydratedDeclaration) where
  heads_member :
      (z : String)
      → Sets.contains z (broad_heads left right) ≡ (
          Sets.contains z (filter_map (strip_prefix "broad_head:") left.low_signal_markers)
          || Sets.contains z (filter_map (strip_prefix "broad_head:") right.low_signal_markers))
  unfolding broad_heads
  heads_member z =
      let found = filter_map (strip_prefix "broad_head:") in
      rw
        (
          Sets.contains-extend z (found (left.low_signal_markers ++ right.low_signal_markers)) [],
          contains-empty z,
          or_false,
          filter_map-append (strip_prefix "broad_head:") left.low_signal_markers
              right.low_signal_markers,
        )
        (unfold Sets.contains in
          any-append (Sets.same z) (found left.low_signal_markers) (found right.low_signal_markers))

heads-IsAscending : (left right : HydratedDeclaration) → Sets.IsAscending (broad_heads left right)
unfolding broad_heads
heads-IsAscending left right = Sets.extend-IsAscending _ [] tt

pub broad_heads_comm :
    (left right : HydratedDeclaration) → broad_heads left right ≡ broad_heads right left
broad_heads_comm left right =
    Sets.IsAscending-ext _ _ (heads-IsAscending left right) (heads-IsAscending right left)
      (λ z. rw (heads_member left right z, heads_member right left z) (search or_comm))

module _ {S : Type 0} (contributions : List (KeyContribution S)) where
  pub broad_head_only_comm :
      (left right : HydratedDeclaration)
      → broad_head_only contributions left right ≡ broad_head_only contributions right left
  unfolding broad_head_only
  broad_head_only_comm left right = rw (broad_heads_comm left right) refl

  -- The blockers of a pair do not depend on which declaration comes first.
  pub visibility_blockers_comm :
      (left right : HydratedDeclaration)
      → visibility_blockers contributions left right ≡ visibility_blockers contributions right left
  unfolding visibility_blockers
  visibility_blockers_comm left right =
      rw
        (
          broad_head_only_comm left right,
          or_comm (is_generated left) (is_generated right),
          or_comm (non_public left) (non_public right),
          or_comm (low_signal left) (low_signal right),
          or_comm (typeclass_like left) (typeclass_like right),
          and_comm (theorem_like left) (theorem_like right),
        )
        refl

  pub visibility_blockers-IsAscending :
      (left right : HydratedDeclaration)
      → Sets.IsAscending (visibility_blockers contributions left right)
  unfolding visibility_blockers
  visibility_blockers-IsAscending left right = search (insert_if-IsAscending, tt) depth 8
