-- ===== src/Search/Baseline/Symmetry.antt =====
-- crates/search/src/baseline.rs: a diff read from either side, and a diff of a snapshot with itself.
use mathlib.Core.Option
use lean_dup.Base.{
  String, Bool, true, false, ◌&&◌, not, Option, none, some, List, [], ◌∷◌, map, filter, filter_map,
  prepend?, ◌==◌, Ord, text_ord, ◌≡◌, refl, sym, ap, ◌∙◌, arith, text_same,
}
use lean_dup.Base.Maps
use lean_dup.Base.Sets
use lean_dup.Search.Baseline.{
  BaselineGroup, BaselineSnapshot, BaselineChange, GroupMap, ids_of, difference, intersection,
  change_of, changes, collect_groups, diff,
}

module _ {ℓ} {K : Type ℓ} ⦃o : Ord K⦄ where
  contains-filter :
      (p : K → Bool) (z : K) (s : List K)
      → Sets.contains z (filter p s) ≡ (Sets.contains z s && p z)
  unfolding Sets.contains
  contains-filter p z [] = refl
  contains-filter p z (x ∷ xs) = ground (arith, contains-filter p z xs, Sets.same_iff z x, ap p)

  Above-filter : (p : K → Bool) (a : K) (s : List K) → Sets.Above a s → Sets.Above a (filter p s)
  Above-filter p a [] h = tt
  Above-filter p a (x ∷ xs) h = ground (arith, Above-filter p a xs h.1)

  filter-IsAscending :
      (p : K → Bool) (s : List K) → Sets.IsAscending s → Sets.IsAscending (filter p s)
  filter-IsAscending p [] h = tt
  filter-IsAscending p (x ∷ xs) h =
      ground (arith, filter-IsAscending p xs h.1, Above-filter p x xs h.0)

  intersection_comm :
      (s t : List K) → Sets.IsAscending s → Sets.IsAscending t → intersection s t ≡ intersection t s
  unfolding intersection
  intersection_comm s t h k =
      Sets.IsAscending-ext _ _ (filter-IsAscending (λ x. Sets.contains x t) s h)
        (filter-IsAscending (λ x. Sets.contains x s) t k)
        (λ z.
          let left = contains-filter (λ x. Sets.contains x t) z s in
          let right = contains-filter (λ x. Sets.contains x s) z t in ground arith)

  filter-none :
      (p : K → Bool) (s : List K)
      → ((x : K) → Sets.contains x s ≡ true → p x ≡ false)
      → filter p s ≡ []
  filter-none p [] f = refl
  filter-none p (x ∷ xs) f =
      let head = f x (Sets.contains_head x xs) in
      let rest = filter-none p xs (λ y h. f y (Sets.contains_later y x xs h)) in ground arith

  difference_self : (s : List K) → difference s s ≡ []
  unfolding difference
  difference_self s = filter-none (λ x. not (Sets.contains x s)) s (λ x h. ground arith)

ids_of-IsAscending : (m : GroupMap) → Sets.IsAscending (ids_of m)
unfolding ids_of
ids_of-IsAscending m = Sets.extend-IsAscending (map (λ entry. entry.0) m) [] tt

abbrev pub swap : BaselineChange → BaselineChange
swap c = record { id = c.id; before = c.after; after = c.before }

same_digest : (s t : String) → (s == t) ≡ (t == s)
same_digest s t = text_same s t ∙ Sets.same_comm t s ∙ sym (text_same t s)

change_of-swap :
    (id : String) (x y : Option BaselineGroup)
    → change_of id y x ≡ Option.map swap (change_of id x y)
change_of-swap id none none = refl
change_of-swap id none (some y) = refl
change_of-swap id (some x) none = refl
change_of-swap id (some x) (some y) =
    ground (arith, same_digest x.evidence_digest y.evidence_digest)

change_of_self : (id : String) (x : Option BaselineGroup) → change_of id x x ≡ none
change_of_self id none = refl
change_of_self id (some x) = ground (
  arith,
  text_same x.evidence_digest x.evidence_digest,
  Sets.same_iff x.evidence_digest x.evidence_digest,
)

prepend-map :
    (c : Option BaselineChange) (cs : List BaselineChange)
    → prepend? (Option.map swap c) (map swap cs) ≡ map swap (prepend? c cs)
prepend-map none cs = refl
prepend-map (some c) cs = refl

changes-swap :
    (before after : GroupMap) (ids : List String)
    → changes after before ids ≡ map swap (changes before after ids)
unfolding changes
changes-swap before after [] = refl
changes-swap before after (id ∷ ids) =
    let x = Maps.get id before in
    let y = Maps.get id after in
    ap (λ c. prepend? c (changes after before ids)) (change_of-swap id x y)
    ∙ ap (prepend? (Option.map swap (change_of id x y))) (changes-swap before after ids)
    ∙ prepend-map (change_of id x y) (changes before after ids)

changes_self : (m : GroupMap) (ids : List String) → changes m m ids ≡ []
unfolding changes
changes_self m [] = refl
changes_self m (id ∷ ids) =
    ap (λ c. prepend? c (changes m m ids)) (change_of_self id (Maps.get id m)) ∙ changes_self m ids

-- What appeared in one direction disappeared in the other, and the changes are the same, with their
-- sides exchanged.
pub diff-swap :
    (name path : String) (a b : BaselineSnapshot)
    → ((diff name path b a).appeared ≡ (diff name path a b).disappeared)
      × ((diff name path b a).disappeared ≡ (diff name path a b).appeared)
      × ((diff name path b a).changed ≡ map swap (diff name path a b).changed)
unfolding diff
diff-swap name path a b =
    let m = collect_groups a.groups [] in
    let n = collect_groups b.groups [] in
    (
      refl,
      refl,
      ap (changes n m)
            (intersection_comm (ids_of n) (ids_of m) (ids_of-IsAscending n) (ids_of-IsAscending m))
          ∙ changes-swap m n (intersection (ids_of m) (ids_of n)),
    )

-- A snapshot compared with itself shows nothing, also if two of its groups share an identity.
pub diff_self :
    (name path : String) (a : BaselineSnapshot)
    → ((diff name path a a).appeared ≡ [])
      × ((diff name path a a).disappeared ≡ [])
      × ((diff name path a a).changed ≡ [])
unfolding diff
diff_self name path a =
    let m = collect_groups a.groups [] in
    let empty = ap (filter_map (λ id. Maps.get id m)) (difference_self (ids_of m)) in
    (empty, empty, changes_self m (intersection (ids_of m) (ids_of m)))
