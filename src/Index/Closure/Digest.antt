-- ===== src/Index/Closure/Digest.antt =====
-- crates/index/src/import_graph.rs: the digest of a closure depends on the closure alone.
use mathlib.Core.Option
use Prim.Native.String.{◌++◌ as append}
use lean_dup.Base.{
  ℕ, suc, ◌<◌, ◌≡◌, refl, ap, ◌∙◌, inl, inr, String, List, [], ◌∷◌, some, arith, Option-cases,
  text_ord,
}
use lean_dup.Base.Maps
use lean_dup.Base.Maps.{get-insert}
use lean_dup.Base.Sets.{same_iff}
use lean_dup.Index.Closure.{
  Files, Resolver, is_member, fresh_digest, content_digest, ingredients, digest_members,
  closure_digest,
}
use lean_dup.Index.Closure.Reach.{IsSound, IsAcyclic, IsClosure}
use lean_dup.Index.Closure.Traversal.{cost}
use lean_dup.Index.Closure.Members.{closure_members_lem}

-- The text that is hashed, without the cache.
unfoldable pub plain_ingredients : Files → List String → String → String
plain_ingredients files [] text = text
plain_ingredients files (m ∷ ms) text =
    plain_ingredients files ms
      (append text (append m (append "\n" (append (fresh_digest files m) "\n"))))

module _ (files : Files) where
  stored_content :
      (m : String) (r : Resolver)
      → IsSound files r
      → IsSound files (record r { content = Maps.insert m (fresh_digest files m) r.content })
  unfolding is_member
  stored_content m r h = record {
    direct_true = h.direct_true;
    members_true = h.members_true;
    closed = h.closed;
    content_true = λ j v e. ground (
      arith,
      get-insert j m (fresh_digest files m) r.content,
      same_iff j m,
      h.content_true j v,
      cong j,
    );
  }
    where
      cong : (j : String) → j ≡ m → fresh_digest files j ≡ fresh_digest files m
      cong j e = ap (fresh_digest files) e

  content_digest_lem :
      (m : String) (r : Resolver)
      → IsSound files r
      → ((content_digest files m r).0 ≡ fresh_digest files m)
        × IsSound files (content_digest files m r).1
  unfolding content_digest
  content_digest_lem m r h = elim (Option-cases (Maps.get m r.content)) [
    | inl e ↦ rw (e, content_digest) (refl, stored_content m r h)
    | inr (v, e) ↦ rw (e, content_digest) (h.content_true m v e, h)
  ]

  ingredients_lem :
      (ms : List String) (text : String) (r : Resolver)
      → IsSound files r
      → ((ingredients files ms text r).0 ≡ plain_ingredients files ms text)
        × IsSound files (ingredients files ms text r).1
  unfolding ingredients plain_ingredients
  ingredients_lem [] text r h = (refl, h)
  ingredients_lem (m ∷ ms) text r h =
      let (e, h') = content_digest_lem m r h in
      let (p, q) =
        ingredients_lem ms
          (append text (append m (append "\n" (append (content_digest files m r).0 "\n"))))
          (content_digest files m r).1 h' in
      (
        p
            ∙ ap
                (λ d.
                  plain_ingredients files ms (append text (append m (append "\n" (append d "\n")))))
                e,
        q,
      )

  module _ (rank : String → ℕ) (acyclic : IsAcyclic files rank) where
    pub closure_digest_lem :
        (m : String) (r : Resolver) (fuel : ℕ)
        → IsSound files r
        → cost files (suc (rank m)) m < fuel
        → (s : List String) × (r' : Resolver) × IsClosure files m s
          × (closure_digest files fuel m r
              ≡ some (files.hex_digest (files.bytes (plain_ingredients files s "")), r'))
          × IsSound files r'
    unfolding closure_digest digest_members
    closure_digest_lem m r fuel h f =
        let (s, r', e, c, h') = closure_members_lem files rank acyclic m r fuel h f in
        (
          s,
          (ingredients files s "" r').1,
          c,
          ap (Option.map (digest_members files)) e
              ∙ ap (λ t. some (files.hex_digest (files.bytes t), (ingredients files s "" r').1))
                  (ingredients_lem s "" r' h').0,
          (ingredients_lem s "" r' h').1,
        )
