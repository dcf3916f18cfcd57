-- ===== src/Index/Closure/Local.antt =====
-- crates/index/src/import_graph.rs: edits outside the import closure of a module do not move its
-- digest.
use Prim.Native.String.{◌++◌ as append}
use lean_dup.Base.{
  ℕ, suc, ◌<◌, ◌≡◌, refl, sym, ap, ◌∙◌, subst, String, List, [], ◌∷◌, some, true, Bool-ext,
  text_ord, All,
}
use lean_dup.Base.Sets
use lean_dup.Base.Sets.{IsAscending-ext, All-of_contains}
use lean_dup.Index.Closure.{Files, Resolver, imports, fresh_digest, closure_digest}
use lean_dup.Index.Closure.Reach.{Reaches, here, there, IsSound, IsAcyclic, IsClosure}
use lean_dup.Index.Closure.Traversal.{cost}
use lean_dup.Index.Closure.Digest.{plain_ingredients, closure_digest_lem}

-- Two states of the disk that agree on the modules reachable from `m`.
pub record Agree (files files' : Files) (m : String) : Type 0 where
  pub same_imports : (x : String) → Reaches files x m → imports files x ≡ imports files' x
  pub same_content : (x : String) → Reaches files x m → fresh_digest files x ≡ fresh_digest files' x

module _ (files files' : Files) where
  Agree-import :
      (m i : String)
      → Agree files files' m
      → Sets.contains i (imports files m) ≡ true
      → Agree files files' i
  Agree-import m i a k = record {
    same_imports = λ x h. a.same_imports x (there i k h);
    same_content = λ x h. a.same_content x (there i k h);
  }

  forth : (x m : String) → Agree files files' m → Reaches files x m → Reaches files' x m
  forth x m a (here e) = here e
  forth x m a (there i k h) =
      there i (subst (λ s. Sets.contains i s ≡ true) (a.same_imports m (here refl)) k)
        (forth x i (Agree-import m i a k) h)

  back : (x m : String) → Agree files files' m → Reaches files' x m → Reaches files x m
  back x m a (here e) = here e
  back x m a (there i k h) =
      let k' = subst (λ s. Sets.contains i s ≡ true) (sym (a.same_imports m (here refl))) k in
      there i k' (back x i (Agree-import m i a k') h)

  IsClosure-eq :
      (m : String) (s t : List String)
      → Agree files files' m
      → IsClosure files m s
      → IsClosure files' m t
      → s ≡ t
  IsClosure-eq m s t a c d = IsAscending-ext s t c.ascending d.ascending λ z.
      Bool-ext _ _ (λ h. d.complete z (forth z m a (c.sound z h)))
        (λ h. c.complete z (back z m a (d.sound z h)))

  plain-eq :
      (s : List String) (text : String)
      → All (λ x. fresh_digest files x ≡ fresh_digest files' x) s
      → plain_ingredients files s text ≡ plain_ingredients files' s text
  unfolding plain_ingredients
  plain-eq [] text h = refl
  plain-eq (x ∷ xs) text h =
      ap (λ d. plain_ingredients files xs (append text (append x (append "\n" (append d "\n")))))
        h.0
      ∙ plain-eq xs _ h.1

  -- The digests of two such runs, with the caches that they leave.
  pub closure_digest_twins :
      (rank rank' : String → ℕ) (m : String) (r r' : Resolver) (fuel fuel' : ℕ)
      → IsAcyclic files rank
      → IsAcyclic files' rank'
      → IsSound files r
      → IsSound files' r'
      → cost files (suc (rank m)) m < fuel
      → cost files' (suc (rank' m)) m < fuel'
      → Agree files files' m
      → files.hex_digest ≡ files'.hex_digest
      → files.bytes ≡ files'.bytes
      → (digest : String) × (q q' : Resolver) × (closure_digest files fuel m r ≡ some (digest, q))
        × (closure_digest files' fuel' m r' ≡ some (digest, q'))
        × IsSound files q
        × IsSound files' q'
  closure_digest_twins rank rank' m r r' fuel fuel' ac ac' s s' f f' agree hash bytes =
      let (ms, q, c, e, h) = closure_digest_lem files rank ac m r fuel s f in
      let (ms', q', c', e', h') = closure_digest_lem files' rank' ac' m r' fuel' s' f' in
      let text =
        plain-eq ms "" (All-of_contains _ ms (λ x h. agree.same_content x (c.sound x h)))
        ∙ ap (λ t. plain_ingredients files' t "") (IsClosure-eq m ms ms' agree c c') in
      let same : files.hex_digest (files.bytes (plain_ingredients files ms ""))
          ≡ files'.hex_digest (files'.bytes (plain_ingredients files' ms' "")) =
        (λ i. hash i (bytes i (text i))) in
      (
        files'.hex_digest (files'.bytes (plain_ingredients files' ms' "")),
        q,
        q',
        e ∙ ap (λ d. some (d, q)) same,
        e',
        h,
        h',
      )

  -- Two runs that see the same closure and hash alike produce the same digest, whatever the caches
  -- of the two resolvers hold and whatever else differs on the disk. Each run has fuel above the
  -- cost of the module, and each import relation is acyclic.
  pub closure_digest_local :
      (rank rank' : String → ℕ) (m : String) (r r' : Resolver) (fuel fuel' : ℕ)
      → IsAcyclic files rank
      → IsAcyclic files' rank'
      → IsSound files r
      → IsSound files' r'
      → cost files (suc (rank m)) m < fuel
      → cost files' (suc (rank' m)) m < fuel'
      → Agree files files' m
      → files.hex_digest ≡ files'.hex_digest
      → files.bytes ≡ files'.bytes
      → (digest : String) × (q q' : Resolver) × (closure_digest files fuel m r ≡ some (digest, q))
        × (closure_digest files' fuel' m r' ≡ some (digest, q'))
  closure_digest_local rank rank' m r r' fuel fuel' ac ac' s s' f f' agree hash bytes =
      let (digest, q, q', e, e', h, h') =
        closure_digest_twins rank rank' m r r' fuel fuel' ac ac' s s' f f' agree hash bytes in
      (digest, q, q', e, e')
