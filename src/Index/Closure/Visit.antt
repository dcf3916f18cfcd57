-- ===== src/Index/Closure/Visit.antt =====
-- crates/index/src/import_graph.rs: what the walk does with one module of an acyclic import relation.
use lean_dup.Base.{
  ℕ, zero, suc, ◌<◌, ◌≡◌, ap, inl, inr, String, Bool, true, false, List, ◌∷◌, arith, Bool-cases,
  text_ord,
}
use lean_dup.Base.Sets
use lean_dup.Index.Closure.{
  Files, Resolver, Walk, imports, direct_imports, is_member, push_imports, memoize, expand, finish,
  visit, round,
}
use lean_dup.Index.Closure.Reach.{IsKey, IsSound, IsSoundWalk, IsAcyclic, direct_imports_lem}
use lean_dup.Index.Closure.Store.{memoize_sound}
use lean_dup.Index.Closure.Traversal.{at, cost, Pass, Visits, after, relax, children, run}

module _ (files : Files) where
  -- The keys of the memo depend on nothing else.
  same_keys : (r r' : Resolver) → r'.members ≡ r.members → (x : String) → IsKey x r → IsKey x r'
  unfolding is_member
  same_keys r r' e x k = rw e k

  skip :
      (m : String) (b : Bool) (rest : List (String × Bool)) (result : List String) (r : Resolver)
      → Sets.contains m result ≡ true
      → round files (at ((m, b) ∷ rest) result r) ≡ at rest result r
  unfolding round visit
  skip m b rest result r h = rw h

  skip_member :
      (m : String) (rest : List (String × Bool)) (result : List String) (r : Resolver)
      → Sets.contains m result ≡ false
      → is_member m r ≡ true
      → round files (at ((m, false) ∷ rest) result r) ≡ at rest result r
  unfolding round visit
  skip_member m rest result r h k = rw (h, k)

  grow :
      (m : String) (rest : List (String × Bool)) (result : List String) (r : Resolver)
      → Sets.contains m result ≡ false
      → is_member m r ≡ false
      → IsSound files r
      → round files (at ((m, false) ∷ rest) result r)
        ≡ at
            (push_imports (imports files m) result (direct_imports files m r).1 ((m, true) ∷ rest))
            result
            (direct_imports files m r).1
  unfolding round visit expand
  grow m rest result r h k s =
      rw (h, k)
        (ap
          (λ found.
            at (push_imports found result (direct_imports files m r).1 ((m, true) ∷ rest)) result
              (direct_imports files m r).1)
          (direct_imports_lem files m r s).0)

  close :
      (m : String) (rest : List (String × Bool)) (result : List String) (r : Resolver)
      → Sets.contains m result ≡ false
      → IsSound files r
      → round files (at ((m, true) ∷ rest) result r)
        ≡ memoize m (imports files m) rest result (direct_imports files m r).1
  unfolding round visit finish
  close m rest result r h s = rw h (
      ap (λ found. memoize m found rest result (direct_imports files m r).1)
        (direct_imports_lem files m r s).0)

  -- One round that leads to a sound walk over `rest`.
  one_round :
      (rest : List (String × Bool)) (w : Walk) (result : List String) (r : Resolver)
      → round files w ≡ at rest result r
      → IsSoundWalk files (at rest result r)
      → ((x : String) → IsKey x w.resolver → IsKey x r)
      → Pass files rest 1 w
  unfolding run
  one_round rest w result r e s keeps = record {
    steps = 1;
    result = result;
    resolver = r;
    within = omega arith;
    ends = e;
    sound = s;
    keeps = keeps;
  }

  -- The second visit of a module, when its imports are memoized.
  closing :
      (m : String) (rest : List (String × Bool)) (result : List String) (r : Resolver)
      → IsSoundWalk files (at ((m, true) ∷ rest) result r)
      → ((i : String) → Sets.contains i (imports files m) ≡ true → IsKey i r)
      → (p : Pass files rest 1 (at ((m, true) ∷ rest) result r)) × IsKey m p.resolver
  unfolding one_round memoize
  closing m rest result r s ready = elim (Bool-cases (Sets.contains m result)) [
    | inl h ↦ (
      one_round rest _ result r (skip m true rest result r h)
          (record { resolver_sound = s.resolver_sound; result_known = s.result_known }) (λ x k. k),
      s.result_known m h,
    )
    | inr h ↦
        let (answered, sound', same) = direct_imports_lem files m r s.resolver_sound in
        let r' = (direct_imports files m r).1 in
        let keep = same_keys r r' same in
        let (sound, done, kept) =
          memoize_sound files m r' sound' (λ i k. keep i (ready i k)) rest result
            (λ x k. keep x (s.result_known x k)) in
        let w = memoize m (imports files m) rest result r' in
        (
          one_round rest (at ((m, true) ∷ rest) result r) w.result w.resolver
              (close m rest result r h s.resolver_sound) sound (λ x k. kept x (keep x k)),
          done,
        )
  ]

  -- Every module of an acyclic import relation is visited within its cost.
  module _ (rank : String → ℕ) (acyclic : IsAcyclic files rank) where
    pub visits : (r : ℕ) (m : String) → rank m < r → Visits files (cost files r m) m
    unfolding cost one_round after relax
    visits zero m h rest result res s = absurd (omega arith)
    visits (suc r) m h rest result res s = elim (Bool-cases (Sets.contains m result)) [
      | inl hit ↦ (
        relax files (omega arith) (
            one_round rest _ result res (skip m false rest result res hit)
              (record { resolver_sound = s.resolver_sound; result_known = s.result_known })
              (λ x k. k)),
        s.result_known m hit,
      )
      | inr miss ↦ elim (Bool-cases (is_member m res)) [
        | inl old ↦ (
          relax files (omega arith) (
              one_round rest _ result res (skip_member m rest result res miss old)
                (record { resolver_sound = s.resolver_sound; result_known = s.result_known })
                (λ x k. k)),
          old,
        )
        | inr new ↦
            let (answered, sound', same) = direct_imports_lem files m res s.resolver_sound in
            let res' = (direct_imports files m res).1 in
            let keep = same_keys res res' same in
            let (p, ready) =
              children files r (imports files m) result result res' res' ((m, true) ∷ rest)
                (λ i k. visits r i (omega (arith, acyclic.falls m i k))) (λ x k. k)
                (λ x k. keep x (s.result_known x k))
                (record {
                  resolver_sound = sound';
                  result_known = λ x k. keep x (s.result_known x k);
                }) in
            let (q, done) = closing m rest p.result p.resolver p.sound ready in
            let step =
              one_round (push_imports (imports files m) result res' ((m, true) ∷ rest))
                (at ((m, false) ∷ rest) result res) result res'
                (grow m rest result res miss new s.resolver_sound)
                (record {
                  resolver_sound = sound';
                  result_known = λ x k. keep x (s.result_known x k);
                })
                keep in
            (relax files (omega arith) (after files (after files step p) q), done)
      ]
    ]
