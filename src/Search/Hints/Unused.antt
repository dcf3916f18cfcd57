-- ===== src/Search/Hints/Unused.antt =====
-- crates/search/src/replacement_hints.rs: what a hint promises that says that there are no callers.
use mathlib.Core.Option
use lean_dup.Base.{
  ◌≤◌, String, Bool, true, false, ◌||◌, not, Option, none, some, List, [], ◌∷◌, ◌++◌, filter,
  filter_map, flat_map, prepend?, length, length-take, any, is_empty, nat_eq, if◌then◌else◌, ◌≡◌,
  refl, subst, ap, ◌∙◌, arith, All,
}
use lean_dup.Base.Sets
use lean_dup.Search.Sources.{
  reference_ord, SourceFacts, SourceReference, SourceReferenceStatus, DeclarationSourceFact,
}
use lean_dup.Search.Review.{CallerImpact, ReplacementHint, ReviewMember, RankedGroup}
use lean_dup.Search.Hints.Status.{
  ReplacementHintProfile, aggregate_reference_status, has_status, is_none, member_fact, is_local,
}
use lean_dup.Search.Hints.Impact.{eligible, impact_of, caller_impact}
use lean_dup.Search.Hints.Group.{hint_of, hint_for_group, reference_statuses, references_of}

extend-empty : (xs : List SourceReference) → Sets.extend xs [] ≡ [] → xs ≡ []
extend-empty [] h = refl
extend-empty (x ∷ xs) h =
    let found = Sets.contains-extend x (x ∷ xs) [] in
    let head = Sets.contains_head x xs in
    let missing = Sets.not_contains-nil x in
    absurd (missing (ground (arith, ap (Sets.contains x) h, found, head)))

impact_of-unused :
    (wrapped : Bool) (status : SourceReferenceStatus) (callers : List SourceReference)
    → impact_of wrapped status callers ≡ CallerImpact.no_callers
    → (status ≡ SourceReferenceStatus.complete) × (callers ≡ [])
impact_of-unused wrapped status callers h = ground arith

none_else :
    (o : Option SourceReferenceStatus)
    → is_none o ≡ false
    → has_status SourceReferenceStatus.missing_source o ≡ false
    → has_status SourceReferenceStatus.source_unavailable o ≡ false
    → has_status SourceReferenceStatus.truncated o ≡ false
    → has_status SourceReferenceStatus.not_requested o ≡ false
    → o ≡ some SourceReferenceStatus.complete
none_else o a b c d e = ground arith

all_complete :
    (os : List (Option SourceReferenceStatus))
    → any is_none os ≡ false
    → any (has_status SourceReferenceStatus.missing_source) os ≡ false
    → any (has_status SourceReferenceStatus.source_unavailable) os ≡ false
    → any (has_status SourceReferenceStatus.truncated) os ≡ false
    → any (has_status SourceReferenceStatus.not_requested) os ≡ false
    → All (λ o. o ≡ some SourceReferenceStatus.complete) os
all_complete [] a b c d e = tt
all_complete (o ∷ os) a b c d e = ground (arith, none_else o, all_complete os)

aggregate-complete :
    (os : List (Option SourceReferenceStatus))
    → aggregate_reference_status os ≡ SourceReferenceStatus.complete
    → All (λ o. o ≡ some SourceReferenceStatus.complete) os
unfolding aggregate_reference_status
aggregate-complete os h = ground (arith, all_complete os)

-- What the scan of a declaration found.
abbrev pub scanned : DeclarationSourceFact → SourceReferenceStatus × List SourceReference
scanned fact = (fact.reference_status, fact.references)

-- The scan of every member was complete and found nothing.
abbrev pub AreUnused : SourceFacts → List ReviewMember → Type 0
AreUnused facts ms =
    All (λ m. Option.map scanned (member_fact facts m) ≡ some (SourceReferenceStatus.complete, []))
      ms

append-empty : {A : Type 0} (xs ys : List A) → xs ++ ys ≡ [] → (xs ≡ []) × (ys ≡ [])
append-empty [] ys h = (refl, h)
append-empty (x ∷ xs) ys h = absurd cc

unused_head :
    (known : Option DeclarationSourceFact) (facts : List DeclarationSourceFact)
    → Option.map (λ fact. fact.reference_status) known ≡ some SourceReferenceStatus.complete
    → flat_map (λ fact. fact.references) (prepend? known facts) ≡ []
    → (Option.map scanned known ≡ some (SourceReferenceStatus.complete, []))
      × (flat_map (λ fact. fact.references) facts ≡ [])
unused_head none facts h k = absurd cc
unused_head (some fact) facts h k =
    let both = append-empty fact.references _ k in (cc (h, both.0), both.1)

unused_members :
    (facts : SourceFacts) (ms : List ReviewMember)
    → All (λ o. o ≡ some SourceReferenceStatus.complete) (reference_statuses facts ms)
    → references_of facts ms ≡ []
    → AreUnused facts ms
unused_members facts [] h k = tt
unused_members facts (m ∷ ms) h k =
    let head = unused_head (member_fact facts m) (filter_map (member_fact facts) ms) h.0 k in
    (head.0, unused_members facts ms h.1 head.1)

from_some : {A : Type 0} (a b : A) → some a ≡ some b → a ≡ b
from_some a b h = cc

built :
    (is_eligible : Bool) (decl name : Option String) (lacks_local : Bool)
    → (make : String → String → ReplacementHint) (hint : ReplacementHint)
    → (if not is_eligible then none else elim decl [
      | none ↦ none
      | some d ↦ elim name [ none ↦ none | some n ↦ if lacks_local then none else some (make d n) ]
    ])
      ≡ some hint
    → (d : String) × (n : String) × (make d n ≡ hint)
built false decl name lacks make hint h = absurd cc
built true none name lacks make hint h = absurd cc
built true (some d) none lacks make hint h = absurd cc
built true (some d) (some n) true make hint h = absurd cc
built true (some d) (some n) false make hint h = (d, n, from_some (make d n) hint h)

module _ {S : Type 0} (group : RankedGroup S) (facts : SourceFacts)
    (profile : ReplacementHintProfile) where
  source_of :
      (hint : ReplacementHint)
      → hint_for_group group facts profile ≡ some hint
      → (d : String) × (n : String) × (hint_of group facts profile d n
            (filter is_local group.members)
          ≡ hint)
  unfolding hint_for_group
  source_of hint h =
      built (eligible group) group.target_decl group.target_module
        (is_empty (filter is_local group.members))
        (λ d n. hint_of group facts profile d n (filter is_local group.members)) hint h

  hint_of-unused :
      (decl name : String) (ms : List ReviewMember)
      → (hint_of group facts profile decl name ms).caller_impact ≡ CallerImpact.no_callers
      → AreUnused facts ms
  unfolding hint_of caller_impact
  hint_of-unused decl name ms h =
      let seen = impact_of-unused _ _ _ h in
      unused_members facts ms (aggregate-complete (reference_statuses facts ms) seen.0)
        (extend-empty (references_of facts ms) seen.1)

  -- A hint that says that there are no callers is about declarations whose scans were all complete
  -- and found no reference.
  pub hint_for_group-AreUnused :
      (hint : ReplacementHint)
      → hint_for_group group facts profile ≡ some hint
      → hint.caller_impact ≡ CallerImpact.no_callers
      → AreUnused facts (filter is_local group.members)
  hint_for_group-AreUnused hint h k =
      let (d, n, computed) = source_of hint h in
      hint_of-unused d n (filter is_local group.members)
        (ap (λ (x : ReplacementHint). x.caller_impact) computed ∙ k)

  hint_of-displayed :
      (decl name : String) (ms : List ReviewMember)
      → let hint = hint_of group facts profile decl name ms in
        (length hint.displayed_callers ≤ profile.max_displayed_callers)
        × ((hint.callers_truncated || nat_eq (length hint.displayed_callers) hint.caller_count)
            ≡ true)
  unfolding hint_of
  hint_of-displayed decl name ms =
      let shown =
        length-take profile.max_displayed_callers (Sets.extend (references_of facts ms) []) in
      (omega (arith, shown), ground (arith, shown))

  -- A hint displays no more callers than the profile allows, and it says that callers are left out
  -- or displays as many as it counts.
  pub hint_for_group-displayed :
      (hint : ReplacementHint)
      → hint_for_group group facts profile ≡ some hint
      → (length hint.displayed_callers ≤ profile.max_displayed_callers)
        × ((hint.callers_truncated || nat_eq (length hint.displayed_callers) hint.caller_count)
            ≡ true)
  hint_for_group-displayed hint h =
      let (d, n, computed) = source_of hint h in
      subst
        (λ (x : ReplacementHint).
          (length x.displayed_callers ≤ profile.max_displayed_callers)
          × ((x.callers_truncated || nat_eq (length x.displayed_callers) x.caller_count) ≡ true))
        computed (hint_of-displayed d n (filter is_local group.members))
