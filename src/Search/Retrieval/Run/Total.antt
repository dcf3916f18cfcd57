-- ===== src/Search/Retrieval/Run/Total.antt =====
-- crates/search/src/retrieval.rs: how `retrieve_candidates_inner` ends.
use lean_dup.Base.{
  ℕ, zero, suc, ◌≤◌, ◌<◌, ◌≡◌, refl, sym, subst, String, true, Option, none, some, List, [], ◌∷◌,
  map, All, All-imp, sum, length, get_elem?, enumerate_from, Ord, nat_ord, text_ord, pair_ord,
  expect, traverse, Ends, Ends->>=, traverse-length, inl, inr, Bool-cases, Option, arith,
}
use lean_dup.Base.Maps
use lean_dup.Search.Declaration.{HydratedDeclaration, RetrievedCandidate, CandidateSet}
use lean_dup.Index.Opened.{OpenedIndex}
use lean_dup.Search.Retrieval.State.{
  ScoreOps, CandidateId, SelectedCandidate, RetrievalDiagnostics, RetrievalOutput,
  default_diagnostics,
}
use lean_dup.Search.Retrieval.State.CandidateId.{workspace, external}
use lean_dup.Search.Retrieval.Run.{
  Selection, Hydrated, is_anchor, select_all, need_all, hydrate_external, declaration_of,
  candidate_of, set_if_found, candidate_sets, tables, finish, is_idle, retrieve_candidates_inner,
}
use lean_dup.Search.Retrieval.Run.Hydrates.{
  HydratesAll, IsHydrated, Covers, hydrate_external-Covers,
}
use lean_dup.Search.Retrieval.Run.Needs.{
  IsKnown, Requires, need_all-adds, need_all-KeysBelow, Wants-IsHydrated,
}
use lean_dup.Search.Retrieval.Run.Lookups.{
  IsSelection, IsInRange, AreSelections, tables-IsInRange, select_all-AreSelections,
}

-- One to 128 candidates of an anchor that the caller asked for.
abbrev pub IsBounded : {S : Type 0} → Option (List String) → CandidateSet S → Type 0
IsBounded ids set =
    (1 ≤ length set.candidates) × (length set.candidates ≤ 128) × (is_anchor ids set.anchor ≡ true)

abbrev pub IsOutput : {S : Type 0} → Option (List String) → RetrievalOutput S → Type 0
IsOutput ids output =
    All (IsBounded ids) output.candidate_sets
    × (output.diagnostics.candidate_count
        ≡ sum (map (λ set. length set.candidates) output.candidate_sets))

expect-Ends {ℓ κ} :
    (E : Type ℓ) {A : Type κ} (found : Option A)
    → Maps.is_some found ≡ true
    → Ends {E = E} (λ a. Unit) (expect found)
expect-Ends E none h = cc
expect-Ends E (some a) h = tt

get_elem-some :
    {A : Type 0} (xs : List A) (i : ℕ) → i < length xs → Maps.is_some (get_elem? xs i) ≡ true
get_elem-some [] i b = absurd (omega arith)
get_elem-some (x ∷ xs) zero b = refl
get_elem-some (x ∷ xs) (suc i) b = get_elem-some xs i (omega arith)

-- A candidate whose declaration is at hand.
abbrev pub IsAtHand : List HydratedDeclaration → Hydrated → CandidateId → Type 0
IsAtHand declarations hydrated id = Maps.is_some (declaration_of declarations hydrated id) ≡ true

set_if_found-IsBounded :
    {S : Type 0} (ids : Option (List String)) (anchor : HydratedDeclaration)
    (candidates : List (RetrievedCandidate S)) (sets : List (CandidateSet S))
    → length candidates ≤ 128
    → is_anchor ids anchor ≡ true
    → All (IsBounded ids) sets
    → All (IsBounded ids) (set_if_found anchor candidates sets)
set_if_found-IsBounded ids anchor [] sets b a h = h
set_if_found-IsBounded ids anchor (c ∷ cs) sets b a h = ((omega arith, b, a), h)

module _ (E : Type 0) {S : Type 0} (declarations : List HydratedDeclaration)
    (hydrated : Hydrated) where
  candidate_of-Ends :
      (anchor : HydratedDeclaration) (selected : List (SelectedCandidate S))
      → All (λ c. IsAtHand declarations hydrated c.id) selected
      → All (λ c. Ends {E = E} (λ r. Unit) (candidate_of declarations hydrated anchor c)) selected
  candidate_of-Ends anchor [] h = tt
  candidate_of-Ends anchor (c ∷ cs) h = (
    Ends->>= (λ a. Unit) (λ r. Unit) (expect (declaration_of declarations hydrated c.id)) _
        (expect-Ends E (declaration_of declarations hydrated c.id) h.0) (λ d u. tt),
    candidate_of-Ends anchor cs h.1,
  )

  pub candidate_sets-IsBounded :
      (ids : Option (List String)) (selections : List (Selection S))
      → All (λ s. All (λ c. IsAtHand declarations hydrated c.id) s.1) selections
      → All (λ s. (length s.1 ≤ 128) × (is_anchor ids s.0 ≡ true)) selections
      → Ends {E = E} (All (IsBounded ids)) (candidate_sets declarations hydrated selections)
  unfolding candidate_sets
  candidate_sets-IsBounded ids [] h k = tt
  candidate_sets-IsBounded ids ((anchor, selected) ∷ rest) h k =
      Ends->>= (λ cs. length cs ≡ length selected) (All (IsBounded ids))
        (traverse (candidate_of declarations hydrated anchor) selected) _
        (traverse-length (candidate_of declarations hydrated anchor) selected
          (candidate_of-Ends anchor selected h.0))
        (λ cs same_length.
          Ends->>= (All (IsBounded ids)) (All (IsBounded ids))
            (candidate_sets declarations hydrated rest) _
            (candidate_sets-IsBounded ids rest h.1 k.1)
            (λ sets bounded.
              set_if_found-IsBounded ids anchor cs sets
                (subst (λ l. l ≤ 128) (sym same_length) k.0.0) k.0.1 bounded))

-- A known candidate that is hydrated if it is external is at hand.
known-IsAtHand :
    (declarations : List HydratedDeclaration) (hydrated : Hydrated)
    (needed : List (ℕ × List String)) (m : ℕ) (id : CandidateId)
    → ((i : ℕ) (handle : String)
        → Requires needed (external i handle)
        → IsHydrated hydrated i handle)
    → IsKnown (length declarations) m id
    → Requires needed id
    → IsAtHand declarations hydrated id
known-IsAtHand declarations hydrated needed m (workspace i) f k r = get_elem-some declarations i k
known-IsAtHand declarations hydrated needed m (external i handle) f k r =
    unfold Maps.contains_key in f i handle r

all-IsAtHand :
    {S : Type 0} (declarations : List HydratedDeclaration) (hydrated : Hydrated)
    (needed : List (ℕ × List String)) (m : ℕ) (cs : List (SelectedCandidate S))
    → ((i : ℕ) (handle : String)
        → Requires needed (external i handle)
        → IsHydrated hydrated i handle)
    → All (λ c. IsKnown (length declarations) m c.id) cs
    → All (λ c. Requires needed c.id) cs
    → All (λ c. IsAtHand declarations hydrated c.id) cs
all-IsAtHand declarations hydrated needed m [] f k r = tt
all-IsAtHand declarations hydrated needed m (c ∷ cs) f k r = (
  known-IsAtHand declarations hydrated needed m c.id f k.0 r.0,
  all-IsAtHand declarations hydrated needed m cs f k.1 r.1,
)

selections-IsAtHand :
    {S : Type 0} (declarations : List HydratedDeclaration) (hydrated : Hydrated)
    (needed : List (ℕ × List String)) (m : ℕ) (ids : Option (List String))
    (selections : List (Selection S))
    → ((i : ℕ) (handle : String)
        → Requires needed (external i handle)
        → IsHydrated hydrated i handle)
    → All (IsSelection (length declarations) m ids) selections
    → All (λ s. All (λ c. Requires needed c.id) s.1) selections
    → All (λ s. All (λ c. IsAtHand declarations hydrated c.id) s.1) selections
selections-IsAtHand declarations hydrated needed m ids [] f k r = tt
selections-IsAtHand declarations hydrated needed m ids (s ∷ ss) f k r = (
  all-IsAtHand declarations hydrated needed m s.1 f k.0.0 r.0,
  selections-IsAtHand declarations hydrated needed m ids ss f k.1 r.1,
)

module _ {E S M : Type 0} ⦃o : Ord M⦄ (ops : ScoreOps S M) (indexes : List (OpenedIndex E))
    (declarations : List HydratedDeclaration) (answers : All HydratesAll indexes) where
  finish-IsOutput :
      (ids : Option (List String)) (selections : List (Selection S)) (d : RetrievalDiagnostics)
      → All (IsSelection (length declarations) (length indexes) ids) selections
      → Ends (IsOutput ids) (finish ops indexes declarations (selections, d))
  finish-IsOutput ids selections d h =
      let needed = need_all selections [] in
      Ends->>= (Covers indexes answers needed []) (IsOutput ids)
        (hydrate_external indexes needed [] d) _
        (hydrate_external-Covers indexes answers needed [] d (
          need_all-KeysBelow (length declarations) (length indexes) selections []
            (All-imp (λ s k. k.0) selections h) tt))
        (λ hydration covers.
          Ends->>= (All (IsBounded ids)) (IsOutput ids)
            (candidate_sets declarations hydration.0 selections) _
            (candidate_sets-IsBounded E declarations hydration.0 ids selections
              (selections-IsAtHand declarations hydration.0 needed (length indexes) ids selections
                (λ i handle w. Wants-IsHydrated needed hydration.0 i handle covers.1 w) h
                (need_all-adds selections []))
              (All-imp (λ s k. (k.1, k.2)) selections h))
            (λ sets bounded. (bounded, refl)))

  -- If every index that hydrates some handles returns a declaration for each of them, retrieval does
  -- not panic. Where it returns, each set has one to 128 candidates and an anchor that the caller
  -- asked for, and the candidate count is the number of candidates in the sets.
  pub retrieve_candidates_inner-IsOutput :
      (ids : Option (List String))
      → Ends (IsOutput ids) (retrieve_candidates_inner ops indexes declarations ids)
  unfolding retrieve_candidates_inner
  retrieve_candidates_inner-IsOutput ids =
      elim (Bool-cases (is_idle ops indexes declarations ids)) [
        | inl idle ↦ rw idle (tt, refl)
        | inr busy ↦ rw busy (
            Ends->>= (IsInRange ops indexes declarations) (IsOutput ids)
              (tables ops indexes declarations) _ (tables-IsInRange ops indexes declarations)
              (λ t h.
                Ends->>= (AreSelections ops indexes declarations t h ids) (IsOutput ids)
                  (select_all ops indexes declarations t ids (enumerate_from 0 declarations)
                    default_diagnostics)
                  _
                  (select_all-AreSelections ops indexes declarations t h ids
                    (enumerate_from 0 declarations) default_diagnostics)
                  (λ selections k. finish-IsOutput ids selections.0 selections.1 k)))
      ]
