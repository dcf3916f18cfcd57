-- ===== src/Search/Retrieval/Run/Own.antt =====
-- crates/search/src/retrieval.rs: which candidates the selection of a declaration can hold.
use lean_dup.Base.{ℕ, ◌≡◌, String, false, List, [], ◌∷◌, All, length, nat_eq, Ord, Ends, Ends-imp}
use lean_dup.Search.Declaration.{HydratedDeclaration}
use lean_dup.Index.Opened.{OpenedIndex}
use lean_dup.Search.Retrieval.Keys.{PlannedKey, planned_keys, sorted_plans}
use lean_dup.Search.Retrieval.State.{ScoreOps, CandidateId, RetrievalDiagnostics}
use lean_dup.Search.Retrieval.State.CandidateId.{workspace, external}
use lean_dup.Search.Retrieval.Accumulate.{Found}
use lean_dup.Search.Retrieval.Accumulate.Members.{
  Values, Offers, Admits, FoundIn, add_local_matches-FoundIn, add_external_matches-FoundIn,
}
use lean_dup.Search.Retrieval.Select.{values}
use lean_dup.Search.Retrieval.Select.Members.{values-Ids, IsKept, select_top-IsKept}
use lean_dup.Search.Retrieval.Run.{Tables, match_plans, found_by, select_for}

abbrev pub IsOther : ℕ → CandidateId → Type 0
IsOther anchor_index (workspace i) = nat_eq i anchor_index ≡ false
IsOther anchor_index (external i handle) = Unit

all_of {κ} : {A : Type 0} {P : A → Type κ} → ((a : A) → P a) → (xs : List A) → All P xs
all_of f [] = tt
all_of f (x ∷ xs) = (f x, all_of f xs)

module _ {E S M : Type 0} ⦃o : Ord M⦄ (ops : ScoreOps S M) (indexes : List (OpenedIndex E))
    (declarations : List HydratedDeclaration) where
  module _ (P : CandidateId → Type 0) (t : Tables) (anchor_index : ℕ)
      (offers : Values (Offers ops P anchor_index) t.postings) (admits : Admits ops P t.facts) where
    match_plans-FoundIn :
        (anchor_id : String) (plans : List (PlannedKey S)) (found : Found S)
        → FoundIn ops P found
        → FoundIn ops P (match_plans ops indexes declarations t anchor_index anchor_id plans found)
    match_plans-FoundIn anchor_id [] found h = h
    match_plans-FoundIn anchor_id (plan ∷ plans) found h = match_plans-FoundIn anchor_id plans _ (
        add_external_matches-FoundIn ops P anchor_id plan t.external_counts t.external_postings
          t.facts _ admits
          (add_local_matches-FoundIn ops P (length declarations) anchor_id anchor_index plan
            t.postings t.counts found offers h))

    pub select_for-IsKept :
        (anchor : HydratedDeclaration) (d : RetrievalDiagnostics)
        → Ends (IsKept ops P) (select_for ops indexes declarations t anchor_index anchor d)
    select_for-IsKept anchor d =
        let found = found_by ops indexes declarations t anchor_index anchor d in
        select_top-IsKept ops P E anchor.declaration_id (values found.accumulators)
          found.diagnostics
          (values-Ids ops P found.accumulators (
            match_plans-FoundIn anchor.declaration_id
              (sorted_plans ops.float (planned_keys ops.float anchor))
              (record { accumulators = []; diagnostics = d }) tt))

  -- Selecting the candidates of a declaration does not panic, and none of them is the declaration
  -- itself, whatever the tables of the run hold.
  pub select_for-IsOther :
      (t : Tables) (anchor_index : ℕ) (anchor : HydratedDeclaration) (d : RetrievalDiagnostics)
      → Ends
          (λ r. All (λ s. IsOther anchor_index s.id) r.0)
          (select_for ops indexes declarations t anchor_index anchor d)
  select_for-IsOther t anchor_index anchor d =
      Ends-imp (IsKept ops (IsOther anchor_index)) (λ r. All (λ s. IsOther anchor_index s.id) r.0)
        (select_for ops indexes declarations t anchor_index anchor d) (λ r k. k.1)
        (select_for-IsKept (IsOther anchor_index) t anchor_index
          (all_of (λ entry. all_of (λ j other. other) entry.1) t.postings)
          (all_of (λ f handle. tt) t.facts) anchor d)
