-- ===== src/Index/Closure/Traversal.antt =====
-- crates/index/src/import_graph.rs: the walk of `closure_members` from one stack to a shorter one.
use lean_dup.Base.{
  ℕ, zero, suc, ◌+◌, ◌≤◌, ◌<◌, ◌≡◌, refl, sym, ap, ◌∙◌, subst, inl, inr, String, Bool, true, false,
  ◌&&◌, not, List, [], ◌∷◌, some, map, sum, arith, Bool-cases, or_true, text_ord,
}
use lean_dup.Base.Sets
use lean_dup.Base.Sets.{same, same_iff}
use lean_dup.Index.Closure.{Files, Resolver, Walk, imports, is_member, push_imports, round, walk}
use lean_dup.Index.Closure.Reach.{IsKey, IsSoundWalk}

abbrev pub at : List (String × Bool) → List String → Resolver → Walk
at stack result resolver = record { stack = stack; result = result; resolver = resolver }

module _ (files : Files) where
  -- The number of rounds that a module costs at most: one to expand it, one to finish it, and those
  -- of its imports, to the depth `r`.
  unfoldable pub cost : ℕ → String → ℕ
  cost zero m = 0
  cost (suc r) m = 2 + sum (map (cost r) (imports files m))

  unfoldable pub run : ℕ → Walk → Walk
  run zero w = w
  run (suc k) w = run k (round files w)

  pub run-add : (a b : ℕ) (w : Walk) → run (a + b) w ≡ run b (run a w)
  unfolding run
  run-add zero b w = let e : zero + b ≡ b = omega arith in ap (λ n. run n w) e
  run-add (suc a) b w =
      let e : suc a + b ≡ suc (a + b) = omega arith in
      ap (λ n. run n w) e ∙ run-add a b (round files w)

  round_empty :
      (result : List String) (r : Resolver) → round files (at [] result r) ≡ at [] result r
  unfolding round
  round_empty result r = refl

  run_empty :
      (k : ℕ) (result : List String) (r : Resolver) → run k (at [] result r) ≡ at [] result r
  unfolding run
  run_empty zero result r = refl
  run_empty (suc k) result r = ap (run k) (round_empty result r) ∙ run_empty k result r

  -- Fuel above the number of rounds gives the walk's end.
  pub walk-run :
      (k f : ℕ) (stack : List (String × Bool)) (result : List String) (r : Resolver)
      → k < f
      → (run k (at stack result r)).stack ≡ []
      → walk files f (at stack result r) ≡ some (run k (at stack result r))
  unfolding walk run
  walk-run k zero stack result r h e = absurd (omega arith)
  walk-run k (suc f) [] result r h e = ap some (sym (run_empty k result r))
  walk-run zero (suc f) (x ∷ stack) result r h e = cc
  walk-run (suc k) (suc f) (x ∷ stack) result r h e =
      let w = round files (at (x ∷ stack) result r) in
      walk-run k f w.stack w.result w.resolver (omega arith) e

  -- A run that takes the stack down to `rest`.
  pub record Pass (rest : List (String × Bool)) (bound : ℕ) (w : Walk) : Type 0 where
    pub steps : ℕ
    pub result : List String
    pub resolver : Resolver
    pub within : steps ≤ bound
    pub ends : run steps w ≡ at rest result resolver
    pub sound : IsSoundWalk files (at rest result resolver)
    pub keeps : (x : String) → IsKey x w.resolver → IsKey x resolver

  unfoldable pub stay :
      (rest : List (String × Bool)) (result : List String) (r : Resolver)
      → IsSoundWalk files (at rest result r)
      → Pass rest 0 (at rest result r)
  unfolding run
  stay rest result r s = record {
    steps = 0;
    result = result;
    resolver = r;
    within = omega arith;
    ends = refl;
    sound = s;
    keeps = λ x k. k;
  }

  unfoldable pub after :
      {mid rest : List (String × Bool)} {a b : ℕ} {w : Walk} (p : Pass mid a w)
      → Pass rest b (at mid p.result p.resolver)
      → Pass rest (a + b) w
  after {w = w} p q = record {
    steps = p.steps + q.steps;
    result = q.result;
    resolver = q.resolver;
    within = omega (arith, p.within, q.within);
    ends = run-add p.steps q.steps w ∙ ap (run q.steps) p.ends ∙ q.ends;
    sound = q.sound;
    keeps = λ x k. q.keeps x (p.keeps x k);
  }

  -- The bound may be read more generously.
  unfoldable pub relax :
      {rest : List (String × Bool)} {a b : ℕ} {w : Walk} → a ≤ b → Pass rest a w → Pass rest b w
  relax h p = record {
    steps = p.steps;
    result = p.result;
    resolver = p.resolver;
    within = omega (arith, p.within);
    ends = p.ends;
    sound = p.sound;
    keeps = p.keeps;
  }

  abbrev pub Visits : ℕ → String → Type 0
  Visits b m =
      (rest : List (String × Bool)) (result : List String) (r : Resolver)
      → IsSoundWalk files (at ((m, false) ∷ rest) result r)
      → (p : Pass rest b (at ((m, false) ∷ rest) result r)) × IsKey m p.resolver

  -- The imports that are pushed are visited one after the other, and those that are not pushed are
  -- memoized already.
  pub children :
      (r : ℕ) (is : List String) (result₀ result : List String) (r₀ res : Resolver)
      (stack : List (String × Bool))
      → ((i : String) → Sets.contains i is ≡ true → Visits (cost r i) i)
      → ((x : String) → IsKey x r₀ → IsKey x res)
      → ((x : String) → Sets.contains x result₀ ≡ true → IsKey x res)
      → IsSoundWalk files (at stack result res)
      → (p : Pass stack (sum (map (cost r) is)) (at (push_imports is result₀ r₀ stack) result res))
        × ((i : String) → Sets.contains i is ≡ true → IsKey i p.resolver)
  unfolding push_imports relax after
  children r [] result₀ result r₀ res stack visits old known s =
      (stay stack result res s, λ i n. absurd (Sets.not_contains-nil i n))
  children r (i ∷ is) result₀ result r₀ res stack visits old known s =
      elim (Bool-cases (not (is_member i r₀) && not (Sets.contains i result₀))) [
        | inl fresh ↦
            let (p, ready) =
              children r is result₀ result r₀ res ((i, false) ∷ stack)
                (λ j h. visits j (Sets.contains_later j i is h)) old known
                (record { resolver_sound = s.resolver_sound; result_known = s.result_known }) in
            let (q, done) = visits i (Sets.contains_head i is) stack p.result p.resolver p.sound in
            rw fresh (
              relax (omega arith) (after p q),
              λ j h. elim (or_true _ _ (sym (Sets.contains-cons j i is) ∙ h)) [
                | inl e ↦ subst (λ w. IsKey w q.resolver) (sym ((same_iff j i).0 e)) done
                | inr later ↦ q.keeps j (ready j later)
              ],
            )
        | inr seen ↦
            let (p, ready) =
              children r is result₀ result r₀ res stack
                (λ j h. visits j (Sets.contains_later j i is h)) old known s in
            rw seen (
              relax (omega arith) p,
              λ j h. elim (or_true _ _ (sym (Sets.contains-cons j i is) ∙ h)) [
                | inl e ↦
                    p.keeps j
                      (subst (λ w. IsKey w res) (sym ((same_iff j i).0 e)) (seen_key i seen))
                | inr later ↦ ready j later
              ],
            )
      ]
    where
      seen_key :
          (i : String)
          → (not (is_member i r₀) && not (Sets.contains i result₀)) ≡ false
          → IsKey i res
      seen_key i e = elim (Bool-cases (is_member i r₀)) [
        | inl k ↦ old i k
        | inr k ↦ known i (ground arith)
      ]
