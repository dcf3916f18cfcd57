-- ===== src/Search/Probe/Answered.antt =====
-- crates/search/src/semantic_verification.rs: the pairs that `plan_probes` answers itself.
use lean_dup.Base.{
  ℕ, suc, ◌≡◌, refl, sym, ap, subst, ◌∙◌, String, Bool, true, false, ◌||◌, not, Ordering, Option,
  none, some, List, [], ◌∷◌, map, length, All, All-prepend, All-imp, Holds, Ord, text_ord,
  Bool-cases, inl, inr, if◌then◌else◌,
}
use lean_dup.Base.Maps
use lean_dup.Base.Sets
use lean_dup.Search.Declaration.{HydratedDeclaration, RetrievedCandidate}
use lean_dup.Search.Evidence.{
  ProbeObligation, ProbePair, SemanticEvidence, EvidenceStatus, SearchSemanticObligationKind,
  SearchSemanticObligationStatus,
}
use lean_dup.Search.Review.{RankedGroup}
use lean_dup.Search.Probe.{ProbeStatus, ProbeDecision, from_declaration, probe_supported_kind}
use lean_dup.Search.Probe.Diagnostics.{ProbeDiagnostics, record_probe_status}
use lean_dup.Search.Probe.Counting.{increment_yield}
use lean_dup.Search.Probe.Eligibility.{eligible_for_policy, probe_obligation}
use lean_dup.Search.Probe.Classify.{
  SemanticVerificationInput, Prospect, group_of, with_group, by_obligation, classify_one, classify,
}
use lean_dup.Search.Probe.Classified.{
  counts-planned, one_more, counts-yield, counts-unavailable, started,
}
use lean_dup.Search.Probe.Select.{
  Selection, charge, admit, is_skipped, select_one, select, synthetic_probe, preflight,
}

insert-All {ℓ κ μ} :
    {K : Type ℓ} {V : Type κ} ⦃o : Ord K⦄ (P : K × V → Type μ) (k : K) (v : V) (m : List (K × V))
    → P (k, v)
    → All P m
    → All P (Maps.insert k v m)
unfolding Maps.insert
insert-All P k v [] h a = (h, tt)
insert-All ⦃o⦄ P k v ((j, w) ∷ m) h a = place (o.cmp k j) refl (insert-All P k v m h a.1)
  where
    place :
        (c : Ordering)
        → o.cmp k j ≡ c
        → All P (Maps.insert k v m)
        → All P (elim c [
          | Ordering.lt ↦ (k, v) ∷ (j, w) ∷ m
          | Ordering.eq ↦ (j, v) ∷ m
          | Ordering.gt ↦ (j, w) ∷ Maps.insert k v m
        ])
    place Ordering.lt e rest = (h, a)
    place Ordering.eq e rest = (subst (λ i. P (i, v)) (o.eq_of_cmp k j e) h, a.1)
    place Ordering.gt e rest = (a.0, rest)

-- Evidence that a pair cannot be probed, under the id of the pair.
abbrev pub IsUnavailable : String × SemanticEvidence → Type 0
IsUnavailable (id, evidence) =
    (evidence.pair_id ≡ id) × (evidence.status ≡ EvidenceStatus.unavailable)

-- The evidence is of `n` pairs, counted with repetition, whose ids are among the known ones: each has
-- evidence, and there is no other.
abbrev pub AreAnswered : List String → ℕ → List (String × SemanticEvidence) → Type 0
AreAnswered known n evidence =
    (ids : List String) × (length ids ≡ n)
    × All (λ id. Sets.contains id known ≡ true) ids
    × ((id : String) → Maps.contains_key id evidence ≡ Sets.contains id ids)
    × All IsUnavailable evidence

pub none-AreAnswered : (known : List String) (n : ℕ) → n ≡ 0 → AreAnswered known n []
unfolding Maps.contains_key Maps.get Sets.contains
none-AreAnswered known n e = ([], sym e, tt, (λ id. refl), tt)

insert-AreAnswered :
    (known : List String) (n : ℕ) (id : String) (e : SemanticEvidence)
    (m : List (String × SemanticEvidence))
    → Sets.contains id known ≡ true
    → IsUnavailable (id, e)
    → AreAnswered known n m
    → AreAnswered known (suc n) (Maps.insert id e m)
insert-AreAnswered known n id e m k u (ids, size, all_known, same_keys, all_unavailable) = (
  id ∷ ids,
  ap suc size,
  (k, all_known),
  (λ z.
      Maps.contains_key-insert z id e m
      ∙ ap (λ b. Sets.same z id || b) (same_keys z)
      ∙ sym (Sets.contains-cons z id ids)),
  insert-All IsUnavailable id e m u all_unavailable,
)

module _ {S : Type 0} (input : SemanticVerificationInput S) where
  -- What is found for a candidate is a prospect of it.
  abbrev pub IsOf : RetrievedCandidate S → Option (Prospect S) → Type 0
  IsOf candidate found = Holds (λ p. p.candidate.pair_id ≡ candidate.pair_id) found

  with_group-IsOf :
      (anchor : HydratedDeclaration) (candidate : RetrievedCandidate S) (o : Option (RankedGroup S))
      (d : ProbeDiagnostics)
      → IsOf candidate (with_group input anchor candidate o d).0
  with_group-IsOf anchor candidate none d = tt
  with_group-IsOf anchor candidate (some group) d =
      let left = from_declaration anchor input.comparison_policy in
      let right = from_declaration candidate.declaration input.comparison_policy in
      elim (Bool-cases (eligible_for_policy input.settings.policy candidate group)) [
        | inr e ↦ rw e tt
        | inl e ↦ elim (Bool-cases (not left.importable || not right.importable)) [
          | inl i ↦ rw (e, i) refl
          | inr i ↦
              elim (Bool-cases
                (not (probe_supported_kind left) || not (probe_supported_kind right))) [
                  | inl k ↦ rw (e, i, k) refl
                  | inr k ↦
                      rw (e, i, k)
                        (by (probe_obligation input.settings.policy left right candidate group))
                ]
        ]
      ]
    where
      by :
          (o : Option ProbeObligation)
          → IsOf candidate
              (by_obligation input anchor candidate group
                (from_declaration anchor input.comparison_policy)
                (from_declaration candidate.declaration input.comparison_policy)
                o
                d).0
      by none = tt
      by (some obligation) = refl

  pub classify-All :
      (P : String → Type 0) (pairs : List (HydratedDeclaration × RetrievedCandidate S))
      (d : ProbeDiagnostics)
      → All (λ pair. P pair.1.pair_id) pairs
      → All (λ p. P p.candidate.pair_id) (classify input pairs d).0
  unfolding classify classify_one
  classify-All P [] d h = tt
  classify-All P ((anchor, candidate) ∷ pairs) d h =
      let one =
        with_group input anchor candidate (group_of candidate.pair_id input.groups) (started d) in
      All-prepend (λ p. P p.candidate.pair_id) one.0 (classify input pairs one.1).0
        (carried one.0
          (with_group-IsOf anchor candidate (group_of candidate.pair_id input.groups) (started d)))
        (classify-All P pairs one.1 h.1)
    where
      carried :
          (found : Option (Prospect S))
          → IsOf candidate found
          → Holds (λ p. P p.candidate.pair_id) found
      carried none e = tt
      carried (some p) e = subst P (sym e) h.0

  module _ (key : ProbePair → HydratedDeclaration → HydratedDeclaration → ProbeObligation → String)
      (known : List String) where
    abbrev pub Answers : Selection → Type 0
    Answers s = AreAnswered known s.diagnostics.unavailable_results s.preflight_evidence

    admit-Answers :
        (decision : ProbeDecision) (p : Prospect S) (s : Selection)
        → Sets.contains p.candidate.pair_id known ≡ true
        → Answers s
        → Answers (admit input key decision p (charge input key p s))
    unfolding record_probe_status
    admit-Answers (ProbeDecision.worker_decision obligation) p s k h =
        subst (λ n. AreAnswered known n s.preflight_evidence)
          (sym (ap (λ c. c.unavailable) (counts-planned obligation s.diagnostics))) h
    admit-Answers (ProbeDecision.unavailable_decision reason) p s k h =
        let planned =
          record_probe_status
            (increment_yield SearchSemanticObligationKind.local_duplicate_kind
              SearchSemanticObligationStatus.status_planned s.diagnostics)
            p.facts ProbeStatus.planned in
        let e =
          counts-unavailable reason (synthetic_probe input key p) planned
          ∙ ap one_more (counts-yield s.diagnostics p.facts) in
        subst
          (λ n.
            AreAnswered known n
              (Maps.insert p.candidate.pair_id (preflight input key p reason) s.preflight_evidence))
          (sym (ap (λ c. c.unavailable) e))
          (insert-AreAnswered known s.diagnostics.unavailable_results p.candidate.pair_id
            (preflight input key p reason) s.preflight_evidence k (refl, refl) h)

    by_test :
        (b : Bool) (taken left : Selection)
        → Answers taken
        → Answers left
        → Answers (if b then taken else left)
    by_test true taken left h k = h
    by_test false taken left h k = k

    select_one-Answers :
        (p : Prospect S) (s : Selection)
        → Sets.contains p.candidate.pair_id known ≡ true
        → Answers s
        → Answers (select_one input key p s)
    unfolding select_one record_probe_status
    select_one-Answers p s k h =
        by_test (is_skipped input key p s) _ _ h (admit-Answers p.decision p s k h)

    pub select-Answers :
        (ps : List (Prospect S)) (s : Selection)
        → All (λ p. Sets.contains p.candidate.pair_id known ≡ true) ps
        → Answers s
        → Answers (select input key ps s)
    unfolding select
    select-Answers [] s k h = h
    select-Answers (p ∷ ps) s k h =
        select-Answers ps (select_one input key p s) k.1 (select_one-Answers p s k.0 h)

-- The ids of the pairs.
abbrev pub ids_of : {S : Type 0} → List (HydratedDeclaration × RetrievedCandidate S) → List String
ids_of pairs = map (λ pair. pair.1.pair_id) pairs

pub all_ids :
    {S : Type 0} (pairs : List (HydratedDeclaration × RetrievedCandidate S))
    → All (λ pair. Sets.contains pair.1.pair_id (ids_of pairs) ≡ true) pairs
all_ids [] = tt
all_ids (pair ∷ pairs) = (
  Sets.contains_head pair.1.pair_id (ids_of pairs),
  All-imp (λ q h. Sets.contains_later q.1.pair_id pair.1.pair_id (ids_of pairs) h) pairs
      (all_ids pairs),
)
