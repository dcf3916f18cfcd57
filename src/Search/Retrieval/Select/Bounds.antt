-- ===== src/Search/Retrieval/Select/Bounds.antt =====
-- crates/search/src/retrieval.rs: the indices of `select_top` are in range, and how many it keeps.
use lean_dup.Base.{
  ℕ, suc, zero, ◌+◌, ◌≤◌, ◌<◌, true, List, [], ◌∷◌, length, indices_from, enumerate_from, is_empty,
  get_elem?, Ord, nat_ord, arith, Bool-cases, All, inl, inr, ◌≡◌, refl, ap, ltb, Attempt, done,
  failed, panicked, ◌>>=◌, expect, Ends, Ends->>=, Ends-imp,
}
use lean_dup.Base.Maps
use lean_dup.Search.Declaration.{CandidateSourceEvidence}
use lean_dup.Search.Retrieval.State.{ScoreOps, CandidateAccumulator, top_k, lane_top_k}
use lean_dup.Search.Retrieval.Top.Refines.{
  length-select_subset_by_score, select_subset_by_score-All,
}
use lean_dup.Search.Retrieval.Select.{
  EvidenceMap, SemanticCandidateLane, all_in_range, note_selection, select_subset, note_lane,
  lane_candidates, lane_selection, lane_saturated, in_lane, semantic_evidence_of, symbolic_evidence,
  source_evidence_by_index, semantic_lane_score, note_evidence, select_by_score,
}
use lean_dup.Search.Retrieval.Select.SemanticCandidateLane.{statement_meaning, binder_role_shape}

abbrev pub IsBelow {ℓ} : {V : Type ℓ} → ℕ → ℕ × V → Type 0
IsBelow n e = e.0 < n

length-insert :
    {V : Type 0} (k : ℕ) (v : V) (m : List (ℕ × V)) → length (Maps.insert k v m) ≤ suc (length m)
unfolding Maps.insert
length-insert k v [] = omega arith
length-insert k v ((j, w) ∷ m) = ground (arith, length-insert k v m)

insert-IsBelow :
    {V : Type 0} (n k : ℕ) (v : V) (m : List (ℕ × V))
    → k < n
    → All (IsBelow n) m
    → All (IsBelow n) (Maps.insert k v m)
unfolding Maps.insert
insert-IsBelow n k v [] h b = (h, tt)
insert-IsBelow n k v ((j, w) ∷ m) h b =
    let rest = insert-IsBelow n k v m h b.1 in ground (arith, rest)

length-enumerate_from {ℓ} :
    {A : Type ℓ} (i : ℕ) (xs : List A) → length (enumerate_from i xs) ≡ length xs
length-enumerate_from i [] = refl
length-enumerate_from i (x ∷ xs) = ap suc (length-enumerate_from (suc i) xs)

enumerate_from-All {ℓ κ} :
    {A : Type ℓ} (P : A → Type κ) (i : ℕ) (xs : List A)
    → All P xs
    → All (λ e. P e.1) (enumerate_from i xs)
enumerate_from-All P i [] h = tt
enumerate_from-All P i (x ∷ xs) h = (h.0, enumerate_from-All P (suc i) xs h.1)

enumerate_from-IsBelow {ℓ} :
    {A : Type ℓ} (n i : ℕ) (xs : List A) → i + length xs ≤ n → All (IsBelow n) (enumerate_from i xs)
enumerate_from-IsBelow n i [] h = tt
enumerate_from-IsBelow n i (x ∷ xs) h =
    (omega (arith, h), enumerate_from-IsBelow n (suc i) xs (omega (arith, h)))

indices_from-below {ℓ} :
    {A : Type ℓ} (n i : ℕ) (xs : List A) → i + length xs ≤ n → All (λ j. j < n) (indices_from i xs)
indices_from-below n i [] h = tt
indices_from-below n i (x ∷ xs) h =
    (omega (arith, h), indices_from-below n (suc i) xs (omega (arith, h)))

pub get_elem-Ends :
    (E : Type 0) {A : Type 0} (P : A → Type 0) (xs : List A) (i : ℕ)
    → All P xs
    → i < length xs
    → Ends {E = E} P (expect (get_elem? xs i))
get_elem-Ends E P [] i h b = absurd (omega arith)
get_elem-Ends E P (x ∷ xs) zero h b = h.0
get_elem-Ends E P (x ∷ xs) (suc i) h b = get_elem-Ends E P xs i h.1 (omega arith)

any_of : {A : Type 0} (xs : List A) → All (λ x. Unit {0}) xs
any_of [] = tt
any_of (x ∷ xs) = (tt, any_of xs)

in_range :
    {S : Type 0} (candidates : List (CandidateAccumulator S)) (is : List ℕ)
    → All (λ i. i < length candidates) is
    → all_in_range candidates is ≡ true
in_range candidates [] h = refl
in_range candidates (i ∷ is) h = let rest = in_range candidates is h.1 in ground (arith, h.0, rest)

module _ (E : Type 0) {S M : Type 0} ⦃o : Ord M⦄ (ops : ScoreOps S M)
    (candidates : List (CandidateAccumulator S)) where
  -- At most `n` entries, at indices in range.
  abbrev pub IsIndexed : ℕ → EvidenceMap → Type 0
  IsIndexed n m = (length m ≤ n) × All (IsBelow (length candidates)) m

  note_evidence-IsIndexed :
      (n i : ℕ) (e : CandidateSourceEvidence) (m : EvidenceMap)
      → i < length candidates
      → IsIndexed n m
      → IsIndexed (suc n) (note_evidence i e m)
  unfolding Maps.update
  note_evidence-IsIndexed n i e m b h =
      (omega (arith, h.0, length-insert i _ m), insert-IsBelow (length candidates) i _ m b h.1)

  note_selection-IsIndexed :
      (evidence : ℕ → CandidateAccumulator S → CandidateSourceEvidence) (s : List (ℕ × ℕ)) (n : ℕ)
      (m : EvidenceMap)
      → All (λ e. e.1 < length candidates) s
      → IsIndexed n m
      → Ends {E = E} (IsIndexed (length s + n)) (note_selection ops candidates evidence s m)
  unfolding note_selection
  note_selection-IsIndexed evidence [] n m b h = (omega (arith, h.0), h.1)
  note_selection-IsIndexed evidence ((rank, i) ∷ s) n m b h =
      Ends->>= (λ c. Unit {0}) (IsIndexed (suc (length s) + n)) (expect (get_elem? candidates i)) _
        (get_elem-Ends E (λ c. Unit {0}) candidates i (any_of candidates) b.0)
        (λ c u.
          Ends-imp (IsIndexed (length s + suc n)) (IsIndexed (suc (length s) + n))
            (note_selection ops candidates evidence s (note_evidence i (evidence rank c) m))
            (λ m' k. (omega (arith, k.0), k.1))
            (note_selection-IsIndexed evidence s (suc n) (note_evidence i (evidence rank c) m) b.1
              (note_evidence-IsIndexed n i (evidence rank c) m b.0 h)))

  -- At most `limit` indices, all in range.
  abbrev pub IsSubset : ℕ → List ℕ → Type 0
  IsSubset limit is = (length is ≤ limit) × All (λ i. i < length candidates) is

  select_subset-IsSubset :
      (indices : List ℕ) (limit : ℕ) (score : CandidateAccumulator S → S)
      → All (λ i. i < length candidates) indices
      → Ends {E = E} (IsSubset limit) (select_subset ops candidates indices limit score)
  unfolding select_subset
  select_subset-IsSubset indices limit score h = rw (in_range candidates indices h) (
    length-select_subset_by_score ops candidates indices limit score,
    select_subset_by_score-All ops candidates indices limit score (λ i. i < length candidates) h,
  )

  -- A selection is noted at its indices.
  noted-IsIndexed :
      (evidence : ℕ → CandidateAccumulator S → CandidateSourceEvidence) (limit n : ℕ)
      (m : EvidenceMap) (selected : Attempt E (List ℕ))
      → IsIndexed n m
      → Ends (IsSubset limit) selected
      → Ends
          (IsIndexed (limit + n))
          (selected >>= (λ is. note_selection ops candidates evidence (enumerate_from 1 is) m))
  noted-IsIndexed evidence limit n m selected h k =
      Ends->>= (IsSubset limit) (IsIndexed (limit + n)) selected _ k (λ is s.
        Ends-imp (IsIndexed (length (enumerate_from 1 is) + n)) (IsIndexed (limit + n))
          (note_selection ops candidates evidence (enumerate_from 1 is) m)
          (λ m' i. (omega (arith, i.0, s.0, length-enumerate_from 1 is), i.1))
          (note_selection-IsIndexed evidence (enumerate_from 1 is) n m
            (enumerate_from-All (λ j. j < length candidates) 1 is s.1) h))

  lane_candidates-below :
      (lane : SemanticCandidateLane) (entries : List (ℕ × CandidateAccumulator S))
      → All (IsBelow (length candidates)) entries
      → All (λ i. i < length candidates) (lane_candidates ops lane entries)
  lane_candidates-below lane [] h = tt
  lane_candidates-below lane (e ∷ es) h =
      let rest = lane_candidates-below lane es h.1 in
      elim (Bool-cases (in_lane ops lane e.1)) [
        | inl inside ↦ rw inside (h.0, rest)
        | inr outside ↦ rw outside rest
      ]

  note_lane-IsIndexed :
      (lane : SemanticCandidateLane) (n : ℕ) (m : EvidenceMap)
      → IsIndexed n m
      → Ends {E = E} (IsIndexed (lane_top_k + n)) (note_lane ops candidates lane m)
  unfolding note_lane
  note_lane-IsIndexed lane n m h =
      elim (Bool-cases (is_empty (lane_candidates ops lane (enumerate_from 0 candidates)))) [
        | inl nobody ↦ rw nobody (omega (arith, h.0), h.1)
        | inr somebody ↦ rw somebody (
            noted-IsIndexed (semantic_evidence_of ops lane (lane_saturated ops candidates lane))
              lane_top_k n m (lane_selection ops candidates lane) h
              (select_subset-IsSubset (lane_candidates ops lane (enumerate_from 0 candidates))
                lane_top_k (λ c. semantic_lane_score ops c lane)
                (lane_candidates-below lane (enumerate_from 0 candidates)
                  (enumerate_from-IsBelow (length candidates) 0 candidates (omega arith)))))
      ]

  pub source_evidence_by_index-IsIndexed :
      Ends {E = E} (IsIndexed 128) (source_evidence_by_index ops candidates)
  unfolding source_evidence_by_index
  source_evidence_by_index-IsIndexed =
      let saturated = ltb top_k (length candidates) in
      regroup (select_by_score ops candidates top_k (λ c. c.score))
        (symbolic_evidence ops saturated)
        (noted-IsIndexed (symbolic_evidence ops saturated) top_k 0 []
          (select_by_score ops candidates top_k (λ c. c.score)) (omega arith, tt)
          (select_subset-IsSubset (indices_from 0 candidates) top_k (λ c. c.score)
            (indices_from-below (length candidates) 0 candidates (omega arith))))
    where
      lanes :
          (noted : Attempt E EvidenceMap)
          → Ends (IsIndexed 80) noted
          → Ends (IsIndexed 128) (do
            symbolic ← noted
            with_statements ← note_lane ops candidates statement_meaning symbolic
            note_lane ops candidates binder_role_shape with_statements)
      lanes noted h = Ends->>= (IsIndexed 80) (IsIndexed 128) noted _ h (λ m k.
          Ends->>= (IsIndexed 104) (IsIndexed 128) (note_lane ops candidates statement_meaning m) _
            (note_lane-IsIndexed statement_meaning 80 m k)
            (λ w l. note_lane-IsIndexed binder_role_shape 104 w l))

      regroup :
          (selected : Attempt E (List ℕ))
          (evidence : ℕ → CandidateAccumulator S → CandidateSourceEvidence)
          → Ends
              (IsIndexed 80)
              (selected >>= (λ is. note_selection ops candidates evidence (enumerate_from 1 is) []))
          → Ends (IsIndexed 128) (do
            selection ← selected
            symbolic ← note_selection ops candidates evidence (enumerate_from 1 selection) []
            with_statements ← note_lane ops candidates statement_meaning symbolic
            note_lane ops candidates binder_role_shape with_statements)
      regroup (done is) evidence h =
          lanes (note_selection ops candidates evidence (enumerate_from 1 is) []) h
      regroup (failed e) evidence h = tt
      regroup panicked evidence h = h
