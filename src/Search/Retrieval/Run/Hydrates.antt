-- ===== src/Search/Retrieval/Run/Hydrates.antt =====
-- crates/search/src/retrieval.rs: `hydrate_external` has a declaration for every handle it is asked for.
use lean_dup.Base.{
  ℕ, zero, suc, ◌<◌, ◌≡◌, refl, sym, ap, ◌∙◌, String, true, ◌||◌, List, [], ◌∷◌, map, All, length,
  get_elem?, nat_ord, text_ord, pair_ord, Attempt, done, ask, expect, Ends, Ends->>=, ◌⊎◌, inl, inr,
  Bool-cases, arith,
}
use lean_dup.Base.Maps
use lean_dup.Base.Maps.{get_or_default, is_some, contains_key-insert}
use lean_dup.Base.Sets
use lean_dup.Base.Sets.{same, same_iff, contains-extend, contains-cons, not_contains-nil}
use lean_dup.Search.Declaration.{HydratedDeclaration}
use lean_dup.Index.Opened.{OpenedIndex}
use lean_dup.Search.Retrieval.State.{RetrievalDiagnostics}
use lean_dup.Search.Retrieval.Run.{Hydrated, insert_hydrated, hydrate_external}

-- The handles of a list of declarations.
abbrev pub handles_of : List HydratedDeclaration → List String
handles_of ds = map (λ d. d.handle) ds

-- If an index hydrates a list of handles, the answer has a declaration for each of them.
abbrev pub HydratesAll : {E : Type 0} → OpenedIndex E → Type 0
HydratesAll opened =
    (handles : List String) (ds : List HydratedDeclaration)
    → opened.hydrate handles ≡ inr ds
    → (handle : String) → Sets.contains handle handles ≡ true
    → Sets.contains handle (handles_of ds) ≡ true

abbrev pub IsHydrated : Hydrated → ℕ → String → Type 0
IsHydrated hydrated index handle = Maps.contains_key (index, handle) hydrated ≡ true

insert_hydrated-keeps :
    (index : ℕ) (ds : List HydratedDeclaration) (hydrated : Hydrated) (i : ℕ) (handle : String)
    → IsHydrated hydrated i handle
    → IsHydrated (insert_hydrated index ds hydrated) i handle
insert_hydrated-keeps index [] hydrated i handle h = h
insert_hydrated-keeps index (d ∷ ds) hydrated i handle h =
    insert_hydrated-keeps index ds _ i handle
      (ground (arith, contains_key-insert (i, handle) (index, d.handle) d hydrated))

insert_hydrated-adds :
    (index : ℕ) (ds : List HydratedDeclaration) (hydrated : Hydrated) (handle : String)
    → Sets.contains handle (handles_of ds) ≡ true
    → IsHydrated (insert_hydrated index ds hydrated) index handle
insert_hydrated-adds index [] hydrated handle h = absurd (not_contains-nil handle h)
insert_hydrated-adds index (d ∷ ds) hydrated handle h = elim (Bool-cases (same handle d.handle)) [
  | inl this ↦ insert_hydrated-keeps index ds _ index handle (
      contains_key-insert (index, handle) (index, d.handle) d hydrated
      ∙ ap (λ b. b || Maps.contains_key (index, handle) hydrated)
          ((same_iff {K = ℕ × String} (index, handle) (index, d.handle)).1
            (ap (λ s. (index, s)) ((same_iff handle d.handle).0 this))))
  | inr other ↦ insert_hydrated-adds index ds _ handle (
      ap (λ b. b || Sets.contains handle (handles_of ds)) (sym other)
      ∙ sym (contains-cons handle d.handle (handles_of ds))
      ∙ h)
]

module _ {E : Type 0} (indexes : List (OpenedIndex E)) (answers : All HydratesAll indexes) where
  get_elem-HydratesAll :
      (xs : List (OpenedIndex E)) (i : ℕ)
      → All HydratesAll xs
      → i < length xs
      → Ends {E = E} HydratesAll (expect (get_elem? xs i))
  get_elem-HydratesAll [] i h b = absurd (omega arith)
  get_elem-HydratesAll (x ∷ xs) zero h b = h.0
  get_elem-HydratesAll (x ∷ xs) (suc i) h b = get_elem-HydratesAll xs i h.1 (omega arith)

  ask-hydrate :
      (opened : OpenedIndex E) (handles : List String)
      → HydratesAll opened
      → Ends
          (λ ds.
            (handle : String)
            → Sets.contains handle handles ≡ true
            → Sets.contains handle (handles_of ds) ≡ true)
          (ask (opened.hydrate handles))
  ask-hydrate opened handles h = go (opened.hydrate handles) refl
    where
      go :
          (answer : E ⊎ List HydratedDeclaration)
          → opened.hydrate handles ≡ answer
          → Ends
              (λ ds.
                (handle : String)
                → Sets.contains handle handles ≡ true
                → Sets.contains handle (handles_of ds) ≡ true)
              (ask answer)
      go (inl e) p = tt
      go (inr ds) p = h handles ds p

  -- Nothing is lost, and what each entry needs is there.
  abbrev pub Covers : List (ℕ × List String) → Hydrated → Hydrated × RetrievalDiagnostics → Type 0
  Covers needed hydrated result =
      ((i : ℕ) (handle : String) → IsHydrated hydrated i handle → IsHydrated result.0 i handle)
      × All
          (λ entry.
            (handle : String)
            → Sets.contains handle entry.1 ≡ true
            → IsHydrated result.0 entry.0 handle)
          needed

  pub hydrate_external-Covers :
      (needed : List (ℕ × List String)) (hydrated : Hydrated) (d : RetrievalDiagnostics)
      → All (λ entry. entry.0 < length indexes) needed
      → Ends (Covers needed hydrated) (hydrate_external indexes needed hydrated d)
  unfolding hydrate_external
  hydrate_external-Covers [] hydrated d b = (λ i handle h. h, tt)
  hydrate_external-Covers ((index, handles) ∷ rest) hydrated d b =
      let wanted = Sets.extend handles [] in
      Ends->>= HydratesAll (Covers ((index, handles) ∷ rest) hydrated)
        (expect (get_elem? indexes index)) _ (get_elem-HydratesAll indexes index answers b.0)
        (λ opened h.
          Ends->>=
            (λ ds.
              (handle : String)
              → Sets.contains handle wanted ≡ true
              → Sets.contains handle (handles_of ds) ≡ true)
            (Covers ((index, handles) ∷ rest) hydrated) (ask (opened.hydrate wanted)) _
            (ask-hydrate opened wanted h)
            (λ ds k.
              later index handles rest hydrated ds _ k
                (hydrate_external-Covers rest (insert_hydrated index ds hydrated) _ b.1)))
    where
      wanted_all :
          (handle : String) (handles : List String)
          → Sets.contains handle handles ≡ true
          → Sets.contains handle (Sets.extend handles []) ≡ true
      wanted_all handle handles h =
          contains-extend handle handles [] ∙ ap (λ b. b || Sets.contains handle []) h

      later :
          (index : ℕ) (handles : List String) (rest : List (ℕ × List String)) (hydrated : Hydrated)
          (ds : List HydratedDeclaration) (m : Attempt E (Hydrated × RetrievalDiagnostics))
          → ((handle : String)
              → Sets.contains handle (Sets.extend handles []) ≡ true
              → Sets.contains handle (handles_of ds) ≡ true)
          → Ends (Covers rest (insert_hydrated index ds hydrated)) m
          → Ends (Covers ((index, handles) ∷ rest) hydrated) m
      later index handles rest hydrated ds (done r) k h = (
        λ i handle there. h.0 i handle (insert_hydrated-keeps index ds hydrated i handle there),
        (
          λ handle needed. h.0 index handle (
              insert_hydrated-adds index ds hydrated handle
                (k handle (wanted_all handle handles needed))),
          h.1,
        ),
      )
      later index handles rest hydrated ds (Attempt.failed e) k h = tt
      later index handles rest hydrated ds Attempt.panicked k h = absurd h
