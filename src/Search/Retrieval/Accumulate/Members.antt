-- ===== src/Search/Retrieval/Accumulate/Members.antt =====
-- crates/search/src/retrieval.rs: which candidates the plans of a declaration can add.
use lean_dup.Base.{
  ℕ, ◌≡◌, String, false, not, ◌&&◌, Option, none, some, List, [], ◌∷◌, inl, inr, All, ltb, nat_eq,
  Bool-cases, Ord, nat_ord, pair_ord, arith,
}
use lean_dup.Base.Maps
use lean_dup.Base.Maps.{get_or_default}
use lean_dup.Index.Opened.{SemanticFeatureKey, OpenedIndexFacts, feature_key_ord}
use lean_dup.Search.Retrieval.Keys.{PlannedKey, posting_limit}
use lean_dup.Search.Retrieval.State.{
  ScoreOps, CandidateId, CandidateGenerationPolicy, id_ord, policy_for_external,
}
use lean_dup.Search.Retrieval.State.CandidateId.{workspace, external}
use lean_dup.Search.Retrieval.Accumulate.{
  Accumulators, Postings, ExternalPostings, Found, add_contribution, new_accumulator, contribute,
  add_local, match_local, match_posting, add_local_matches, add_handles, match_external,
  add_external_matches,
}

-- Every value of a map.
abbrev pub Values {ℓ κ} : {K : Type 0} {V : Type ℓ} → (V → Type κ) → List (K × V) → Type κ
Values P m = All (λ entry. P entry.1) m

module _ {ℓ κ} {K : Type 0} {V : Type ℓ} ⦃o : Ord K⦄ (P : V → Type κ) where
  pub insert-Values :
      (k : K) (v : V) (m : List (K × V)) → P v → Values P m → Values P (Maps.insert k v m)
  unfolding Maps.insert
  insert-Values k v [] p h = (p, tt)
  insert-Values k v ((j, w) ∷ m) p h = let rest = insert-Values k v m p h.1 in ground (arith, rest)

  pub get-Values :
      (k : K) (d : V) (m : List (K × V)) → P d → Values P m → P (get_or_default d (Maps.get k m))
  unfolding Maps.get
  get-Values k d [] p h = p
  get-Values k d ((j, w) ∷ m) p h = let rest = get-Values k d m p h.1 in ground (arith, rest)

  pub update-Values :
      (k : K) (d : V) (f : V → V) (m : List (K × V))
      → P d
      → ((v : V) → P v → P (f v))
      → Values P m
      → Values P (Maps.update k d f m)
  unfolding Maps.update
  update-Values k d f m p g h = insert-Values k _ m (g _ (get-Values k d m p h)) h

module _ {κ} {S M : Type 0} (ops : ScoreOps S M) (P : CandidateId → Type κ) where
  abbrev pub FoundIn : Found S → Type κ
  FoundIn found = Values (λ a. P a.id) found.accumulators

  pub add_contribution-FoundIn :
      (id : CandidateId) (policy : CandidateGenerationPolicy) (plan : PlannedKey S) (score : S)
      (accumulators : Accumulators S)
      → P id
      → Values (λ a. P a.id) accumulators
      → Values (λ a. P a.id) (add_contribution ops id policy plan score accumulators)
  unfolding add_contribution
  add_contribution-FoundIn id policy plan score accumulators p h =
      let added =
        update-Values (λ a. P a.id) id (new_accumulator ops id policy) (contribute ops plan score)
          accumulators p (λ a q. q) h in
      elim (Bool-cases (not plan.admits_candidate && not (Maps.contains_key id accumulators))) [
        | inl out ↦ rw out h
        | inr joined ↦ rw joined added
      ]

  -- The declarations of a posting, without the anchor itself.
  abbrev pub Offers : ℕ → List ℕ → Type κ
  Offers anchor_index matches = All (λ j. nat_eq j anchor_index ≡ false → P (workspace j)) matches

  add_local-FoundIn :
      (anchor_index : ℕ) (plan : PlannedKey S) (score : S) (matches : List ℕ)
      (accumulators : Accumulators S)
      → Offers anchor_index matches
      → Values (λ a. P a.id) accumulators
      → Values (λ a. P a.id) (add_local ops anchor_index plan score matches accumulators)
  add_local-FoundIn anchor_index plan score [] accumulators offers h = h
  add_local-FoundIn anchor_index plan score (j ∷ js) accumulators offers h =
      elim (Bool-cases (nat_eq j anchor_index)) [
        | inl own ↦ rw own (add_local-FoundIn anchor_index plan score js accumulators offers.1 h)
        | inr other ↦
            let joined =
              add_contribution-FoundIn (workspace j) CandidateGenerationPolicy.local_duplicate_audit
                plan score accumulators (offers.0 other) h in
            rw other (add_local-FoundIn anchor_index plan score js _ offers.1 joined)
      ]

  match_local-FoundIn :
      (size : ℕ) (anchor_id : String) (anchor_index : ℕ) (plan : PlannedKey S) (count : ℕ)
      (matches : List ℕ) (found : Found S)
      → Offers anchor_index matches
      → FoundIn found
      → FoundIn (match_local ops size anchor_id anchor_index plan count matches found)
  match_local-FoundIn size anchor_id anchor_index plan count matches found offers h =
      elim (Bool-cases (ltb (posting_limit plan) count)) [
        | inl wide ↦ rw wide h
        | inr kept ↦
            rw kept (add_local-FoundIn anchor_index plan _ matches found.accumulators offers h)
      ]

  match_posting-FoundIn :
      (size : ℕ) (anchor_id : String) (anchor_index : ℕ) (plan : PlannedKey S)
      (counts : List (SemanticFeatureKey × ℕ)) (matches? : Option (List ℕ)) (found : Found S)
      → Offers anchor_index (get_or_default [] matches?)
      → FoundIn found
      → FoundIn (match_posting ops size anchor_id anchor_index plan counts matches? found)
  match_posting-FoundIn size anchor_id anchor_index plan counts none found offers h = h
  match_posting-FoundIn size anchor_id anchor_index plan counts (some matches) found offers h =
      match_local-FoundIn size anchor_id anchor_index plan _ matches found offers h

  pub add_local_matches-FoundIn :
      (size : ℕ) (anchor_id : String) (anchor_index : ℕ) (plan : PlannedKey S) (postings : Postings)
      (counts : List (SemanticFeatureKey × ℕ)) (found : Found S)
      → Values (Offers anchor_index) postings
      → FoundIn found
      → FoundIn (add_local_matches ops size anchor_id anchor_index plan postings counts found)
  unfolding add_local_matches
  add_local_matches-FoundIn size anchor_id anchor_index plan postings counts found offers h =
      match_posting-FoundIn size anchor_id anchor_index plan counts (Maps.get plan.key postings)
        found (get-Values (Offers anchor_index) plan.key [] postings tt offers) h

  add_handles-FoundIn :
      (index : ℕ) (policy : CandidateGenerationPolicy) (plan : PlannedKey S) (score : S)
      (handles : List String) (accumulators : Accumulators S)
      → ((handle : String) → P (external index handle))
      → Values (λ a. P a.id) accumulators
      → Values (λ a. P a.id) (add_handles ops index policy plan score handles accumulators)
  add_handles-FoundIn index policy plan score [] accumulators p h = h
  add_handles-FoundIn index policy plan score (handle ∷ handles) accumulators p h =
      add_handles-FoundIn index policy plan score handles _ p (
        add_contribution-FoundIn (external index handle) policy plan score accumulators (p handle)
          h)

  match_external-FoundIn :
      (anchor_id : String) (plan : PlannedKey S) (counts : List ((ℕ × SemanticFeatureKey) × ℕ))
      (postings : ExternalPostings) (index : ℕ) (facts : OpenedIndexFacts) (found : Found S)
      → ((handle : String) → P (external index handle))
      → FoundIn found
      → FoundIn (match_external ops anchor_id plan counts postings index facts found)
  match_external-FoundIn anchor_id plan counts postings index facts found p h =
      let count = get_or_default 0 (Maps.get (index, plan.key) counts) in
      let handles = get_or_default [] (Maps.get (index, plan.key) postings) in
      elim (Bool-cases (nat_eq count 0)) [
        | inl none_there ↦ rw none_there h
        | inr some_there ↦ elim (Bool-cases (ltb (posting_limit plan) count)) [
          | inl wide ↦ rw (some_there, wide) h
          | inr kept ↦
              rw (some_there, kept)
                (add_handles-FoundIn index (policy_for_external facts) plan _ handles
                  found.accumulators p h)
        ]
      ]

  -- Every index of the run may add any of its handles.
  abbrev pub Admits : List (ℕ × OpenedIndexFacts) → Type κ
  Admits facts = All (λ f. (handle : String) → P (external f.0 handle)) facts

  pub add_external_matches-FoundIn :
      (anchor_id : String) (plan : PlannedKey S) (counts : List ((ℕ × SemanticFeatureKey) × ℕ))
      (postings : ExternalPostings) (facts : List (ℕ × OpenedIndexFacts)) (found : Found S)
      → Admits facts
      → FoundIn found
      → FoundIn (add_external_matches ops anchor_id plan counts postings facts found)
  unfolding add_external_matches
  add_external_matches-FoundIn anchor_id plan counts postings [] found p h = h
  add_external_matches-FoundIn anchor_id plan counts postings ((index, facts) ∷ rest) found p h =
      add_external_matches-FoundIn anchor_id plan counts postings rest _ p.1
        (match_external-FoundIn anchor_id plan counts postings index facts found p.0 h)
