-- ===== src/Index/Closure/Reach.antt =====
-- crates/index/src/import_graph.rs: reachable modules, what the caches of a resolver must say, and
-- that the cache of direct imports never changes an answer.
use lean_dup.Base.{
  ℕ, ◌<◌, ◌≡◌, refl, ap, inl, inr, String, true, Option, some, List, [], arith, Option-cases,
  text_ord,
}
use lean_dup.Base.Maps
use lean_dup.Base.Maps.{get_or_default, get-insert}
use lean_dup.Base.Sets
use lean_dup.Base.Sets.{
  same, same_iff, contains-insert, contains-extend, insert-IsAscending, extend-IsAscending,
  IsAscending,
}
use lean_dup.Index.Closure.{
  Files, Resolver, Walk, read_imports, imports, direct_imports, is_member, fresh_digest,
}

-- `Reaches files x m`: the module `x` is `m` or one of its transitive imports.
pub data Reaches (files : Files) (x : String) : String → Type 0 where
  here : {m : String} → m ≡ x → Reaches files x m
  there :
      {m : String} (i : String)
      → Sets.contains i (imports files m) ≡ true
      → Reaches files x i
      → Reaches files x m

abbrev pub IsKey : String → Resolver → Type 0
IsKey x r = is_member x r ≡ true

-- Lean rejects import cycles: every import has a smaller rank than its importer.
pub record IsAcyclic (files : Files) (rank : String → ℕ) : Type 0 where
  pub falls : (m i : String) → Sets.contains i (imports files m) ≡ true → rank i < rank m

-- An ascending set that holds the modules reachable from `m`, and no other.
pub record IsClosure (files : Files) (m : String) (s : List String) : Type 0 where
  pub ascending : IsAscending s
  pub sound : (x : String) → Sets.contains x s ≡ true → Reaches files x m
  pub complete : (x : String) → Reaches files x m → Sets.contains x s ≡ true

-- What every call leaves behind: the caches tell the truth, and the memo is closed under imports.
pub record IsSound (files : Files) (r : Resolver) : Type 0 where
  pub direct_true :
      (m : String) (v : Option (List String))
      → Maps.get m r.direct ≡ some v
      → v ≡ read_imports files m
  pub members_true :
      (m : String) (s : List String) → Maps.get m r.members ≡ some s → IsClosure files m s
  pub closed : (m x : String) → IsKey m r → Reaches files x m → IsKey x r
  pub content_true : (m d : String) → Maps.get m r.content ≡ some d → d ≡ fresh_digest files m

pub record IsSoundWalk (files : Files) (w : Walk) : Type 0 where
  pub resolver_sound : IsSound files w.resolver
  pub result_known : (x : String) → Sets.contains x w.result ≡ true → IsKey x w.resolver

module _ (files : Files) where
  pub fresh-IsSound : IsSound files (record { direct = []; members = []; content = [] })
  unfolding Maps.get is_member Maps.contains_key
  fresh-IsSound = record {
    direct_true = λ m v h. cc;
    members_true = λ m s h. absurd (cc h);
    closed = λ m x h k. cc;
    content_true = λ m d h. cc;
  }

  cached-IsSound :
      (m : String) (r : Resolver)
      → IsSound files r
      → IsSound files (record r { direct = Maps.insert m (read_imports files m) r.direct })
  unfolding is_member
  cached-IsSound m r h = record {
    direct_true = λ j v e. ground (
      arith,
      get-insert j m (read_imports files m) r.direct,
      same_iff j m,
      h.direct_true j v,
      cong j,
    );
    members_true = h.members_true;
    closed = h.closed;
    content_true = h.content_true;
  }
    where
      cong : (j : String) → j ≡ m → read_imports files j ≡ read_imports files m
      cong j e = ap (read_imports files) e

  -- The import cache never changes an answer.
  pub direct_imports_lem :
      (m : String) (r : Resolver)
      → IsSound files r
      → ((direct_imports files m r).0 ≡ imports files m)
        × IsSound files (direct_imports files m r).1
        × ((direct_imports files m r).1.members ≡ r.members)
  unfolding direct_imports imports
  direct_imports_lem m r h = elim (Option-cases (Maps.get m r.direct)) [
    | inl e ↦ rw (e, direct_imports) (refl, cached-IsSound m r h, refl)
    | inr (v, e) ↦ rw (e, direct_imports) (ap (get_or_default []) (h.direct_true m v e), h, refl)
  ]
