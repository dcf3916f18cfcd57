-- ===== src/Search/Retrieval/Accumulate/Range.antt =====
-- crates/search/src/retrieval.rs: the postings of a workspace name its declarations.
use lean_dup.Base.{
  ℕ, suc, ◌+◌, ◌≤◌, ◌<◌, List, [], ◌∷◌, ◌++◌, All, All-append, length, enumerate_from, Bool-cases,
  inl, inr, arith,
}
use lean_dup.Base.Sets
use lean_dup.Index.Opened.{SemanticFeatureKey, feature_key_ord}
use lean_dup.Search.Retrieval.Keys.{PlannedKey}
use lean_dup.Search.Retrieval.Accumulate.{Postings, post_plans, post_all, local_postings}
use lean_dup.Search.Retrieval.Accumulate.Members.{Values, update-Values}

abbrev pub IsWithin : ℕ → List ℕ → Type 0
IsWithin n js = All (λ j. j < n) js

module _ {S : Type 0} (n : ℕ) where
  post_plans-IsWithin :
      (index : ℕ) (plans : List (PlannedKey S)) (seen : List SemanticFeatureKey)
      (postings : Postings)
      → index < n
      → Values (IsWithin n) postings
      → Values (IsWithin n) (post_plans index plans seen postings)
  post_plans-IsWithin index [] seen postings i h = h
  post_plans-IsWithin index (plan ∷ plans) seen postings i h =
      elim (Bool-cases (Sets.contains plan.key seen)) [
        | inl again ↦ rw again (post_plans-IsWithin index plans seen postings i h)
        | inr first ↦
            let posted =
              update-Values (IsWithin n) plan.key [] (λ js. js ++ (index ∷ [])) postings tt
                (λ js k. All-append (λ j. j < n) js (index ∷ []) k (i, tt)) h in
            rw first (post_plans-IsWithin index plans (Sets.insert plan.key seen) _ i posted)
      ]

  post_all-IsWithin :
      (first : ℕ) (all_plans : List (List (PlannedKey S))) (postings : Postings)
      → first + length all_plans ≤ n
      → Values (IsWithin n) postings
      → Values (IsWithin n) (post_all (enumerate_from first all_plans) postings)
  post_all-IsWithin first [] postings b h = h
  post_all-IsWithin first (plans ∷ rest) postings b h =
      post_all-IsWithin (suc first) rest (post_plans first plans [] postings) (omega arith)
        (post_plans-IsWithin first plans [] postings (omega arith) h)

  pub local_postings-IsWithin :
      (all_plans : List (List (PlannedKey S)))
      → length all_plans ≤ n
      → Values (IsWithin n) (local_postings all_plans)
  unfolding local_postings
  local_postings-IsWithin all_plans b = post_all-IsWithin 0 all_plans [] (omega arith) tt
