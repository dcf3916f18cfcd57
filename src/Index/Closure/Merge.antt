-- ===== src/Index/Closure/Merge.antt =====
-- crates/index/src/import_graph.rs: the union of the memoized sets of a module's imports.
use lean_dup.Base.{
  ◌≡◌, sym, ◌∙◌, subst, inl, inr, String, true, List, [], ◌∷◌, Option-cases, or_true, or_intro_left,
  or_intro_right, text_ord,
}
use lean_dup.Base.Maps
use lean_dup.Base.Maps.{get_or_default, get-insert}
use lean_dup.Base.Sets
use lean_dup.Base.Sets.{
  same, same_iff, contains-insert, contains-extend, insert-IsAscending, extend-IsAscending,
  IsAscending,
}
use lean_dup.Index.Closure.{Files, Resolver, is_member, merge_members}
use lean_dup.Index.Closure.Reach.{Reaches, IsKey, IsSound}

module _ (files : Files) where
  -- The union that `finish` builds.
  pub merge-IsAscending :
      (is : List String) (r : Resolver) (merged : List String)
      → IsAscending merged
      → IsAscending (merge_members is r merged)
  unfolding merge_members
  merge-IsAscending [] r merged h = h
  merge-IsAscending (i ∷ is) r merged h =
      merge-IsAscending is r _
        (extend-IsAscending (get_or_default [] (Maps.get i r.members)) merged h)

  memo : String → Resolver → List String
  memo i r = get_or_default [] (Maps.get i r.members)

  memo_sound :
      (i y : String) (r : Resolver)
      → IsSound files r
      → Sets.contains y (memo i r) ≡ true
      → Reaches files y i
  unfolding memo
  memo_sound i y r s h = elim (Option-cases (Maps.get i r.members)) [
    | inl absent ↦ absurd (Sets.not_contains-nil y (rw absent at h))
    | inr (t, present) ↦ (s.members_true i t present).sound y (rw present at h)
  ]

  memo_complete :
      (i y : String) (r : Resolver)
      → IsSound files r
      → IsKey i r
      → Reaches files y i
      → Sets.contains y (memo i r) ≡ true
  unfolding memo is_member Maps.contains_key
  memo_complete i y r s k h = elim (Option-cases (Maps.get i r.members)) [
    | inl absent ↦ absurd (cc (absent, k))
    | inr (t, present) ↦ rw present ((s.members_true i t present).complete y h)
  ]

  pub merge_sound :
      (P : String → Type 0) (is : List String) (r : Resolver) (merged : List String)
      → IsSound files r
      → ((i x : String) → Sets.contains i is ≡ true → Reaches files x i → P x)
      → ((x : String) → Sets.contains x merged ≡ true → P x)
      → (x : String) → Sets.contains x (merge_members is r merged) ≡ true
      → P x
  unfolding merge_members memo
  merge_sound P [] r merged s f g x h = g x h
  merge_sound P (i ∷ is) r merged s f g x h =
      merge_sound P is r (Sets.extend (memo i r) merged) s
        (λ j y e. f j y (Sets.contains_later j i is e))
        (λ y e. elim (or_true _ _ (sym (contains-extend y (memo i r) merged) ∙ e)) [
          | inl found ↦ f i y (Sets.contains_head i is) (memo_sound i y r s found)
          | inr old ↦ g y old
        ])
        x h

  merge_keeps :
      (is : List String) (r : Resolver) (merged : List String) (x : String)
      → Sets.contains x merged ≡ true
      → Sets.contains x (merge_members is r merged) ≡ true
  unfolding merge_members memo
  merge_keeps [] r merged x h = h
  merge_keeps (i ∷ is) r merged x h =
      merge_keeps is r (Sets.extend (memo i r) merged) x
        (contains-extend x (memo i r) merged ∙ or_intro_right _ _ h)

  pub merge_complete :
      (is : List String) (r : Resolver) (merged : List String) (i x : String)
      → IsSound files r
      → Sets.contains i is ≡ true
      → IsKey i r
      → Reaches files x i
      → Sets.contains x (merge_members is r merged) ≡ true
  unfolding merge_members memo
  merge_complete [] r merged i x s m k h = absurd (Sets.not_contains-nil i m)
  merge_complete (j ∷ is) r merged i x s m k h =
      elim (or_true _ _ (sym (Sets.contains-cons i j is) ∙ m)) [
        | inl e ↦
            let k' = subst (λ w. IsKey w r) ((same_iff i j).0 e) k in
            let h' = subst (λ w. Reaches files x w) ((same_iff i j).0 e) h in
            merge_keeps is r (Sets.extend (memo j r) merged) x (
              contains-extend x (memo j r) merged ∙ or_intro_left _ _ (memo_complete j x r s k' h'))
        | inr later ↦ merge_complete is r (Sets.extend (memo j r) merged) i x s later k h
      ]
