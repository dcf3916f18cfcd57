-- ===== src/Index/Closure/Members.antt =====
-- crates/index/src/import_graph.rs: `closure_members` and the digests that it determines.
use mathlib.Core.Option
use lean_dup.Base.{
  ℕ, suc, ◌<◌, ◌≡◌, ap, ◌∙◌, inl, inr, String, List, [], ◌∷◌, some, Bool, false, arith,
  Option-cases, text_ord,
}
use lean_dup.Base.Maps
use lean_dup.Base.Sets
use lean_dup.Index.Closure.{Files, Resolver, is_member, answer, closure_members}
use lean_dup.Index.Closure.Reach.{IsKey, IsSound, IsAcyclic, IsClosure}
use lean_dup.Index.Closure.Traversal.{cost, walk-run, at}
use lean_dup.Index.Closure.Visit.{visits}

module _ (files : Files) (rank : String → ℕ) (acyclic : IsAcyclic files rank) where
  found_member :
      (m : String) (result : List String) (r : Resolver)
      → IsKey m r
      → IsSound files r
      → IsClosure files m (answer m (at [] result r)).0
  unfolding is_member Maps.contains_key answer
  found_member m result r k s = elim (Option-cases (Maps.get m r.members)) [
    | inl e ↦ absurd (cc (e, k))
    | inr (t, e) ↦ rw e (s.members_true m t e)
  ]

  -- With an acyclic import relation, from a resolver whose caches tell the truth and with fuel above
  -- the cost of the module, the walk ends. Its answer is ascending and holds exactly the modules that
  -- are reachable, and the caches that it leaves tell the truth.
  pub closure_members_lem :
      (m : String) (r : Resolver) (fuel : ℕ)
      → IsSound files r
      → cost files (suc (rank m)) m < fuel
      → (s : List String) × (r' : Resolver) × (closure_members files fuel m r ≡ some (s, r'))
        × IsClosure files m s
        × IsSound files r'
  unfolding closure_members answer
  closure_members_lem m r fuel s h = elim (Option-cases (Maps.get m r.members)) [
    | inr (t, e) ↦ (t, r, rw (e, closure_members), s.members_true m t e, s)
    | inl e ↦
        let start : List (String × Bool) = (m, false) ∷ [] in
        let (p, key) = visits files rank acyclic (suc (rank m)) m (omega arith) [] [] r (record {
          resolver_sound = s;
          result_known = λ x n. absurd (Sets.not_contains-nil x n);
        }) in
        let stopped =
          walk-run files p.steps fuel start [] r (omega (arith, p.within))
            (ap (λ w. w.stack) p.ends) in
        let out = answer m (at [] p.result p.resolver) in
        (
          out.0,
          out.1,
          rw (e, closure_members) (ap (Option.map (answer m)) (stopped ∙ ap some p.ends)),
          found_member m p.result p.resolver key p.sound.resolver_sound,
          p.sound.resolver_sound,
        )
  ]
