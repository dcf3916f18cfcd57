-- ===== src/Search/Retrieval/Run/Lookups.antt =====
-- crates/search/src/retrieval.rs: the tables of a run and the selections that they lead to.
use lean_dup.Base.{
  ℕ, suc, ◌+◌, ◌≤◌, ◌<◌, ◌≡◌, String, true, Option, List, [], ◌∷◌, map, All, All-imp, length,
  length-map, enumerate_from, Ord, nat_ord, text_ord, pair_ord, ask, traverse, Ends, Ends->>=,
  ask-Ends, traverse-length, arith, Bool, false, refl, All-append,
}
use lean_dup.Search.Declaration.{HydratedDeclaration}
use lean_dup.Index.Opened.{OpenedIndex, SemanticFeatureKey}
use lean_dup.Search.Retrieval.Keys.{PlannedKey, planned_keys}
use lean_dup.Search.Retrieval.State.{ScoreOps, RetrievalDiagnostics}
use lean_dup.Search.Retrieval.Accumulate.{ExternalPostings, unique_keys}
use lean_dup.Search.Retrieval.Accumulate.Members.{Values}
use lean_dup.Search.Retrieval.Accumulate.Range.{IsWithin, local_postings-IsWithin}
use lean_dup.Search.Retrieval.Select.Members.{IsKept}
use lean_dup.Search.Retrieval.Run.{
  Tables, Selection, ExternalCounts, is_anchor, select_all, select_if, select_for, external_counts,
  external_postings, tables,
}
use lean_dup.Search.Retrieval.Run.Own.{select_for-IsKept}
use lean_dup.Search.Retrieval.Run.Needs.{IsKnown}

-- What a selection is known to be: its candidates can be looked up, and they are not too many.
abbrev pub IsSelection : {S : Type 0} → ℕ → ℕ → Option (List String) → Selection S → Type 0
IsSelection n m ids s =
    All (λ c. IsKnown n m c.id) s.1 × (length s.1 ≤ 128) × (is_anchor ids s.0 ≡ true)

enumerated :
    {A : Type 0} (m i : ℕ) (xs : List A)
    → i + length xs ≤ m
    → All (λ e. e.0 < m) (enumerate_from i xs)
enumerated m i [] b = tt
enumerated m i (x ∷ xs) b = (omega arith, enumerated m (suc i) xs (omega arith))

external_counts-Ends :
    {E : Type 0} (opened : List (ℕ × OpenedIndex E)) (keys : List SemanticFeatureKey)
    (counts : ExternalCounts)
    → Ends (λ c. Unit) (external_counts opened keys counts)
unfolding external_counts
external_counts-Ends [] keys counts = tt
external_counts-Ends ((i, opened) ∷ rest) keys counts =
    Ends->>= (λ a. Unit) (λ c. Unit) (ask (opened.feature_fanout keys)) _
      (ask-Ends (opened.feature_fanout keys)) (λ fanout u. external_counts-Ends rest keys _)

external_postings-Ends :
    {E S : Type 0} (opened : List (ℕ × OpenedIndex E)) (plans : List (List (PlannedKey S)))
    (counts : ExternalCounts) (postings : ExternalPostings)
    → Ends (λ c. Unit) (external_postings opened plans counts postings)
unfolding external_postings
external_postings-Ends [] plans counts postings = tt
external_postings-Ends ((i, opened) ∷ rest) plans counts postings =
    Ends->>= (λ a. Unit) (λ c. Unit) (ask (opened.handles_matching_features _)) _
      (ask-Ends (opened.handles_matching_features _))
      (λ matches u. external_postings-Ends rest plans counts _)

module _ {E S M : Type 0} ⦃o : Ord M⦄ (ops : ScoreOps S M) (indexes : List (OpenedIndex E))
    (declarations : List HydratedDeclaration) where
  -- Every number that leads to a declaration or to an index is within range.
  abbrev pub IsInRange : Tables → Type 0
  IsInRange t =
      Values (IsWithin (length declarations)) t.postings × All (λ f. f.0 < length indexes) t.facts

  all_facts : (opened : List (OpenedIndex E)) → All (λ i. Ends (λ b. Unit) (ask i.facts)) opened
  all_facts [] = tt
  all_facts (i ∷ is) = (ask-Ends i.facts, all_facts is)

  pub tables-IsInRange : Ends IsInRange (tables ops indexes declarations)
  unfolding tables
  tables-IsInRange =
      let plans = map (planned_keys ops.float) declarations in
      Ends->>= (λ facts. length facts ≡ length indexes) IsInRange
        (traverse (λ opened. ask opened.facts) indexes) _
        (traverse-length (λ opened. ask opened.facts) indexes (all_facts indexes))
        (λ facts same_length.
          Ends->>= (λ c. Unit) IsInRange
            (external_counts (enumerate_from 0 indexes) (unique_keys plans) []) _
            (external_counts-Ends (enumerate_from 0 indexes) (unique_keys plans) [])
            (λ counts u.
              Ends->>= (λ c. Unit) IsInRange
                (external_postings (enumerate_from 0 indexes) plans counts []) _
                (external_postings-Ends (enumerate_from 0 indexes) plans counts [])
                (λ postings v. (
                  local_postings-IsWithin (length declarations) plans
                      (omega (arith, length-map (planned_keys ops.float) declarations)),
                  enumerated (length indexes) 0 facts (omega arith),
                ))))

  module _ (t : Tables) (t_in_range : IsInRange t) where
    select_for-IsKnown :
        (i : ℕ) (anchor : HydratedDeclaration) (d : RetrievalDiagnostics)
        → Ends
            (IsKept ops (IsKnown (length declarations) (length indexes)))
            (select_for ops indexes declarations t i anchor d)
    select_for-IsKnown i anchor d =
        select_for-IsKept ops indexes declarations (IsKnown (length declarations) (length indexes))
          t i (All-imp (λ entry h. All-imp (λ j b other. b) entry.1 h) t.postings t_in_range.0)
          (All-imp (λ f b handle. b) t.facts t_in_range.1) anchor d

    abbrev pub AreSelections :
        Option (List String) → List (Selection S) × RetrievalDiagnostics → Type 0
    AreSelections ids r = All (IsSelection (length declarations) (length indexes) ids) r.0

    select_if-AreSelections :
        (ids : Option (List String)) (b : Bool) (i : ℕ) (anchor : HydratedDeclaration)
        (d : RetrievalDiagnostics)
        → is_anchor ids anchor ≡ b
        → Ends (AreSelections ids) (select_if ops indexes declarations b t i anchor d)
    select_if-AreSelections ids true i anchor d asked =
        Ends->>= (IsKept ops (IsKnown (length declarations) (length indexes))) (AreSelections ids)
          (select_for ops indexes declarations t i anchor d) _ (select_for-IsKnown i anchor d)
          (λ one k. ((k.1, k.0, asked), tt))
    select_if-AreSelections ids false i anchor d ignored = tt

    pub select_all-AreSelections :
        (ids : Option (List String)) (anchors : List (ℕ × HydratedDeclaration))
        (d : RetrievalDiagnostics)
        → Ends (AreSelections ids) (select_all ops indexes declarations t ids anchors d)
    unfolding select_all
    select_all-AreSelections ids [] d = tt
    select_all-AreSelections ids ((i, anchor) ∷ rest) d =
        Ends->>= (AreSelections ids) (AreSelections ids)
          (select_if ops indexes declarations (is_anchor ids anchor) t i anchor d) _
          (select_if-AreSelections ids (is_anchor ids anchor) i anchor d refl)
          (λ one h.
            Ends->>= (AreSelections ids) (AreSelections ids)
              (select_all ops indexes declarations t ids rest one.1) _
              (select_all-AreSelections ids rest one.1)
              (λ others k.
                All-append (IsSelection (length declarations) (length indexes) ids) one.0 others.0 h
                  k))
