-- ===== src/Search/Hints/Requested.antt =====
-- crates/search/src/replacement_hints.rs: the scans that are asked for and the hints that read them.
use lean_dup.Base.{
  String, Bool, true, false, ◌&&◌, ◌||◌, not, Option, none, some, List, [], ◌∷◌, ◌++◌, map, filter,
  flat_map, if◌then◌else◌, ◌≡◌, refl, ap, arith, Bool-cases, inl, inr, All, All-imp, text_ord,
}
use lean_dup.Base.Sets
use lean_dup.Search.Sources.{SourceFacts}
use lean_dup.Search.Review.{
  ReviewAction, ReplacementHint, ReviewMember, RankedGroup, RankedReview, ReviewFilter,
  visible_groups,
}
use lean_dup.Search.Hints.Status.{
  ReplacementHintProfile, is_none, is_local, can_inline, hints_action,
}
use lean_dup.Search.Hints.Impact.{eligible, private_helper_wrapper_cleanup}
use lean_dup.Search.Hints.Group.{hint_for_group, with_hint, reference_declarations_for_hints}

contains-append :
    (z : String) (xs ys : List String)
    → Sets.contains z (xs ++ ys) ≡ (Sets.contains z xs || Sets.contains z ys)
unfolding Sets.contains
contains-append z [] ys = refl
contains-append z (x ∷ xs) ys = ground (arith, contains-append z xs ys)

abbrev local_ids : List ReviewMember → List String
local_ids ms = map (λ m. m.declaration_id) (filter is_local ms)

local_ids-append : (ms ns : List ReviewMember) → local_ids (ms ++ ns) ≡ local_ids ms ++ local_ids ns
local_ids-append [] ns = refl
local_ids-append (m ∷ ms) ns = ground (arith, local_ids-append ms ns)

own_ids :
    (ms : List ReviewMember)
    → All (λ m. Sets.contains m.declaration_id (map (λ m. m.declaration_id) ms) ≡ true) ms
own_ids [] = tt
own_ids (m ∷ ms) = (
  Sets.contains_head m.declaration_id _,
  All-imp (λ n h. Sets.contains_later n.declaration_id m.declaration_id _ h) ms (own_ids ms),
)

can_inline-hints : (a : ReviewAction) → can_inline a ≡ true → hints_action a ≡ true
can_inline-hints a h = ground arith

named :
    {A : Type 0} (is_eligible : Bool) (decl name : Option String) (lacks_local : Bool)
    → (make : String → String → A) (a : A)
    → (if not is_eligible then none else elim decl [
      | none ↦ none
      | some d ↦ elim name [ none ↦ none | some n ↦ if lacks_local then none else some (make d n) ]
    ])
      ≡ some a
    → (is_eligible && not (is_none decl) && not (is_none name)) ≡ true
named false decl name lacks make a h = absurd cc
named true none name lacks make a h = absurd cc
named true (some d) none lacks make a h = absurd cc
named true (some d) (some n) lacks make a h = refl

module _ {S : Type 0} where
  -- The test of `reference_declarations_for_hints`.
  abbrev asks : RankedGroup S → Bool
  asks group =
      eligible group && not (is_none group.target_decl) && not (is_none group.target_module)

  abbrev ids : List (RankedGroup S) → List String
  ids groups = local_ids (flat_map (λ group. group.members) (filter asks groups))

  ids-head :
      (z : String) (group : RankedGroup S) (after : List (RankedGroup S))
      → asks group ≡ true
      → Sets.contains z (local_ids group.members) ≡ true
      → Sets.contains z (ids (group ∷ after)) ≡ true
  ids-head z group after h k =
      let rest = flat_map (λ group. group.members) (filter asks after) in
      rw (h, local_ids-append group.members rest)
        (ground (arith, contains-append z (local_ids group.members) (local_ids rest), k))

  ids-later :
      (z : String) (group : RankedGroup S) (after : List (RankedGroup S))
      → Sets.contains z (ids after) ≡ true
      → Sets.contains z (ids (group ∷ after)) ≡ true
  ids-later z group after k = elim (Bool-cases (asks group)) [
    | inl asked ↦
        let rest = flat_map (λ group. group.members) (filter asks after) in
        rw (asked, local_ids-append group.members rest)
          (ground (arith, contains-append z (local_ids group.members) (local_ids rest), k))
    | inr skipped ↦ rw skipped k
  ]

  ids-middle :
      (z : String) (before : List (RankedGroup S)) (group : RankedGroup S)
      → (after : List (RankedGroup S)) → asks group ≡ true
      → Sets.contains z (local_ids group.members) ≡ true
      → Sets.contains z (ids (before ++ group ∷ after)) ≡ true
  ids-middle z [] group after h k = ids-head z group after h k
  ids-middle z (b ∷ bs) group after h k =
      ids-later z b (bs ++ group ∷ after) (ids-middle z bs group after h k)

  asks_of_hint :
      (facts : SourceFacts) (profile : ReplacementHintProfile) (group : RankedGroup S)
      → (hint : ReplacementHint) → hint_for_group group facts profile ≡ some hint
      → asks group ≡ true
  unfolding hint_for_group
  asks_of_hint facts profile group hint h =
      named (eligible group) group.target_decl group.target_module _ _ hint h

  -- Inlining a private helper does not change whether the scans of a group are asked for.
  asks_before :
      (facts : SourceFacts) (group : RankedGroup S)
      → private_helper_wrapper_cleanup group facts ≡ true
      → asks (record group { recommended_action = ReviewAction.inline_private_helper }) ≡ true
      → asks group ≡ true
  unfolding eligible private_helper_wrapper_cleanup
  asks_before facts group h k = ground (arith, can_inline-hints group.recommended_action, h, k)

  asks_of_with_hint :
      (facts : SourceFacts) (profile : ReplacementHintProfile) (group : RankedGroup S)
      → (hint : ReplacementHint) → (with_hint facts profile group).replacement_hint ≡ some hint
      → asks group ≡ true
  unfolding with_hint
  asks_of_with_hint facts profile group hint h =
      elim (Bool-cases (private_helper_wrapper_cleanup group facts)) [
        | inl cleaned ↦ asks_before facts group cleaned (
            asks_of_hint facts profile
              (record group { recommended_action = ReviewAction.inline_private_helper }) hint
              (rw cleaned at h))
        | inr kept ↦ asks_of_hint facts profile group hint (rw kept at h)
      ]

  requested-members :
      (review : RankedReview S) (f : ReviewFilter) (before : List (RankedGroup S))
      → (group : RankedGroup S) (after : List (RankedGroup S))
      → visible_groups f review ≡ before ++ group ∷ after
      → asks group ≡ true
      → All
          (λ m. Sets.contains m.declaration_id (reference_declarations_for_hints review f) ≡ true)
          (filter is_local group.members)
  unfolding reference_declarations_for_hints
  requested-members review f before group after e h =
      All-imp
        (λ m k.
          let found = ids-middle m.declaration_id before group after h k in
          let asked = ap (λ groups. Sets.contains m.declaration_id (ids groups)) e in
          let all = Sets.contains-extend m.declaration_id (ids (visible_groups f review)) [] in
          ground (arith, found, asked, all))
        (filter is_local group.members) (own_ids (filter is_local group.members))

  -- Every workspace member of a visible group that gets a hint is among the declarations whose
  -- callers are scanned for.
  pub reference_declarations_for_hints_lem :
      (review : RankedReview S) (f : ReviewFilter) (before : List (RankedGroup S))
      → (group : RankedGroup S) (after : List (RankedGroup S))
      → visible_groups f review ≡ before ++ group ∷ after
      → (facts : SourceFacts) (profile : ReplacementHintProfile) (hint : ReplacementHint)
      → (with_hint facts profile group).replacement_hint ≡ some hint
      → All
          (λ m. Sets.contains m.declaration_id (reference_declarations_for_hints review f) ≡ true)
          (filter is_local group.members)
  reference_declarations_for_hints_lem review f before group after e facts profile hint h =
      requested-members review f before group after e (asks_of_with_hint facts profile group hint h)
