-- ===== src/Index/Closure/Store.antt =====
-- crates/index/src/import_graph.rs: the branch of the walk that memoizes a finished module.
use lean_dup.Base.{
  ◌≡◌, refl, sym, ◌∙◌, subst, subst₂, ◌⊎◌, inl, inr, String, Bool, true, false, ◌||◌, some, List,
  [], arith, Bool-cases, or_true, or_intro_left, or_intro_right, text_ord,
}
use lean_dup.Base.Maps
use lean_dup.Base.Maps.{get_or_default, get-insert}
use lean_dup.Base.Sets
use lean_dup.Base.Sets.{
  same, same_iff, contains-insert, contains-extend, insert-IsAscending, extend-IsAscending,
  IsAscending,
}
use lean_dup.Index.Closure.{Files, Resolver, imports, is_member, merge_members, memoize}
use lean_dup.Index.Closure.Reach.{Reaches, here, there, IsKey, IsClosure, IsSound, IsSoundWalk}
use lean_dup.Index.Closure.Merge.{merge-IsAscending, merge_sound, merge_complete}

module _ (files : Files) where
  -- All that is known when a module is finished: its imports are memoized.
  module _ (m : String) (r : Resolver) (sound : IsSound files r)
      (ready : (i : String) → Sets.contains i (imports files m) ≡ true → IsKey i r) where
    pub merged : List String
    merged = Sets.insert m (merge_members (imports files m) r [])

    pub merged-IsClosure : IsClosure files m merged
    unfolding merged
    merged-IsClosure = record {
      ascending = insert-IsAscending m _ (merge-IsAscending files (imports files m) r [] tt);
      sound = λ x h.
          elim (or_true _ _
            (sym (contains-insert x m (merge_members (imports files m) r [])) ∙ h)) [
              | inl e ↦ here (sym ((same_iff x m).0 e))
              | inr deep ↦
                  merge_sound files (λ y. Reaches files y m) (imports files m) r [] sound
                    (λ i y k h'. there i k h') (λ y n. absurd (Sets.not_contains-nil y n)) x deep
            ];
      complete = λ x h. found x h;
    }
      where
        found : (x : String) → Reaches files x m → Sets.contains x merged ≡ true
        found x (here e) =
            subst (λ w. Sets.contains w merged ≡ true) e (Sets.contains-insert_self m _)
        found x (there i k h) =
            contains-insert x m _
            ∙ or_intro_right _ _
                (merge_complete files (imports files m) r [] i x sound k (ready i k) h)

    pub stored : Resolver
    stored = record r { members = Maps.insert m merged r.members }

    pub key-stored : (x : String) → is_member x stored ≡ (same x m || is_member x r)
    unfolding stored is_member Maps.contains_key
    key-stored x = ground (arith, get-insert x m merged r.members)

    stored_closed : (x : String) → Reaches files x m → IsKey x stored
    stored_closed x (here e) = key-stored x ∙ or_intro_left _ _ ((same_iff x m).1 (sym e))
    stored_closed x (there i k h) =
        key-stored x ∙ or_intro_right _ _ (sound.closed i x (ready i k) h)

    stored_hit :
        (j : String) (s : List String)
        → Maps.get j stored.members ≡ some s
        → same j m ≡ true
        → s ≡ merged
    unfolding stored
    stored_hit j s e hit = ground (arith, get-insert j m merged r.members)

    stored_miss :
        (j : String) (s : List String)
        → Maps.get j stored.members ≡ some s
        → same j m ≡ false
        → Maps.get j r.members ≡ some s
    unfolding stored
    stored_miss j s e miss = ground (arith, get-insert j m merged r.members)

    stored-IsSound : IsSound files stored
    unfolding stored
    stored-IsSound = record {
      direct_true = sound.direct_true;
      members_true = λ j s e. kept j s e (Bool-cases (same j m));
      closed = λ j x k h. closed j x h (or_true _ _ (sym (key-stored j) ∙ k));
      content_true = sound.content_true;
    }
      where
        kept :
            (j : String) (s : List String)
            → Maps.get j stored.members ≡ some s
            → (same j m ≡ true) ⊎ (same j m ≡ false)
            → IsClosure files j s
        kept j s e (inl hit) =
            let p : s ≡ merged = stored_hit j s e hit in
            subst₂ (λ w t. IsClosure files w t) (sym ((same_iff j m).0 hit)) (sym p)
              merged-IsClosure
        kept j s e (inr miss) = sound.members_true j s (stored_miss j s e miss)

        closed :
            (j x : String)
            → Reaches files x j
            → (same j m ≡ true) ⊎ (is_member j r ≡ true)
            → IsKey x stored
        closed j x h (inl hit) =
            stored_closed x (subst (λ w. Reaches files x w) ((same_iff j m).0 hit) h)
        closed j x h (inr old) = key-stored x ∙ or_intro_right _ _ (sound.closed j x old h)

    pub memoize_sound :
        (stack : List (String × Bool)) (result : List String)
        → ((x : String) → Sets.contains x result ≡ true → IsKey x r)
        → IsSoundWalk files (memoize m (imports files m) stack result r)
          × IsKey m (memoize m (imports files m) stack result r).resolver
          × ((x : String)
              → IsKey x r
              → IsKey x (memoize m (imports files m) stack result r).resolver)
    unfolding memoize stored merged
    memoize_sound stack result known = (
      record {
        resolver_sound = stored-IsSound;
        result_known = λ x h.
            elim (or_true _ _ (sym (contains-extend x merged (Sets.insert m result)) ∙ h)) [
              | inl deep ↦ stored_closed x (merged-IsClosure.sound x deep)
              | inr shallow ↦ elim (or_true _ _ (sym (contains-insert x m result) ∙ shallow)) [
                | inl e ↦ stored_closed x (here (sym ((same_iff x m).0 e)))
                | inr old ↦ key-stored x ∙ or_intro_right _ _ (known x old)
              ]
            ];
      },
      stored_closed m (here refl),
      λ x k. key-stored x ∙ or_intro_right _ _ k,
    )
