-- ===== src/Search/Probe/Classified.antt =====
-- crates/search/src/semantic_verification.rs: how the first pass of a probe plan counts the candidates.
use lean_dup.Base.{
  ℕ, suc, ◌+◌, not, Option, none, some, List, [], ◌∷◌, length, ◌≡◌, refl, ◌∙◌, arith, Bool-cases,
  inl, inr, prepend?, text_ord, ◌||◌,
}
use lean_dup.Search.Declaration.{HydratedDeclaration, RetrievedCandidate}
use lean_dup.Search.Evidence.{
  ProbeObligation, SearchSemanticObligationKind, SearchSemanticObligationStatus,
}
use lean_dup.Search.Review.{RankedGroup}
use lean_dup.Search.Probe.{
  ProbePlanningFacts, PlannedProbe, ProbeStatus, UnavailableReason, from_declaration,
  probe_supported_kind,
}
use lean_dup.Search.Probe.Diagnostics.{ProbeDiagnostics, record_probe_status}
use lean_dup.Search.Probe.Counting.{
  increment_yield, record_planned_obligation, record_unavailable_reason,
}
use lean_dup.Search.Probe.Eligibility.{eligible_for_policy, probe_obligation}
use lean_dup.Search.Probe.Classify.{
  SemanticVerificationInput, Prospect, group_of, policy_skip, cheap_reject, with_group,
  by_obligation, classify_one, classify,
}

-- The counters of the plan that the statements are about.
pub record Counts : Type 0 where
  pub considered : ℕ
  pub by_policy : ℕ
  pub by_budget : ℕ
  pub rejects : ℕ
  pub unavailable : ℕ

abbrev pub counts : ProbeDiagnostics → Counts
counts d = record {
  considered = d.candidates_considered;
  by_policy = d.skipped_by_policy;
  by_budget = d.skipped_by_budget;
  rejects = d.cheap_summary_rejects;
  unavailable = d.unavailable_results;
}

counts-status :
    (d : ProbeDiagnostics) (facts : ProbePlanningFacts) (status : ProbeStatus)
    → counts (record_probe_status d facts status) ≡ counts d
unfolding record_probe_status
counts-status d facts status = refl

pub counts-planned :
    (obligation : ProbeObligation) (d : ProbeDiagnostics)
    → counts (record_planned_obligation obligation d) ≡ counts d
unfolding record_planned_obligation increment_yield
counts-planned ProbeObligation.exact_theorem d = refl
counts-planned ProbeObligation.permuted_theorem d = refl
counts-planned ProbeObligation.replacement d = refl
counts-planned ProbeObligation.reducible_definition d = refl
counts-planned ProbeObligation.specialization d = refl
counts-planned ProbeObligation.local_duplicate d = refl

abbrev pub one_more : Counts → Counts
one_more c = record c { unavailable = suc c.unavailable }

pub counts-yield :
    (d : ProbeDiagnostics) (facts : ProbePlanningFacts)
    → counts (
        record_probe_status
          (increment_yield SearchSemanticObligationKind.local_duplicate_kind
            SearchSemanticObligationStatus.status_planned d)
          facts
          ProbeStatus.planned)
      ≡ counts d
unfolding record_probe_status increment_yield
counts-yield d facts = refl

pub counts-unavailable :
    (reason : UnavailableReason) (probe : PlannedProbe) (d : ProbeDiagnostics)
    → counts (record_unavailable_reason reason probe d) ≡ one_more (counts d)
unfolding record_unavailable_reason increment_yield record_probe_status
counts-unavailable UnavailableReason.reason_missing_declaration probe d = refl
counts-unavailable UnavailableReason.reason_unsupported probe d = refl
counts-unavailable UnavailableReason.reason_opaque_or_unreducible probe d = refl
counts-unavailable UnavailableReason.reason_timeout probe d = refl
counts-unavailable UnavailableReason.reason_internal_error probe d = refl

abbrev pub found_count {ℓ} : {A : Type ℓ} → Option A → ℕ
found_count none = 0
found_count (some a) = 1

-- What one round of the classifying loop adds up to.
pub record IsCounted (d : ProbeDiagnostics) (n : ℕ) (found : ℕ) (d' : ProbeDiagnostics)
    : Type 0 where
  pub considers : d'.candidates_considered ≡ d.candidates_considered + n
  pub places :
      found + d'.skipped_by_policy + d'.cheap_summary_rejects
      ≡ n + d.skipped_by_policy + d.cheap_summary_rejects
  pub same_budget : d'.skipped_by_budget ≡ d.skipped_by_budget
  pub same_unavailable : d'.unavailable_results ≡ d.unavailable_results

abbrev pub started : ProbeDiagnostics → ProbeDiagnostics
started d = record d { candidates_considered = suc d.candidates_considered }

skip-IsCounted :
    (facts : ProbePlanningFacts) (d : ProbeDiagnostics)
    → IsCounted d 1 0 (policy_skip facts (started d))
unfolding record_probe_status
skip-IsCounted facts d = record {
  considers = omega arith;
  places = omega arith;
  same_budget = refl;
  same_unavailable = refl;
}

reject-IsCounted :
    (facts : ProbePlanningFacts) (d : ProbeDiagnostics)
    → IsCounted d 1 0 (cheap_reject facts (started d))
unfolding record_probe_status
reject-IsCounted facts d = record {
  considers = omega arith;
  places = omega arith;
  same_budget = refl;
  same_unavailable = refl;
}

found-IsCounted : (d : ProbeDiagnostics) → IsCounted d 1 1 (started d)
found-IsCounted d = record {
  considers = omega arith;
  places = omega arith;
  same_budget = refl;
  same_unavailable = refl;
}

IsCounted-chain :
    (d d' d'' : ProbeDiagnostics) (n m k : ℕ)
    → IsCounted d 1 k d'
    → IsCounted d' n m d''
    → IsCounted d (suc n) (k + m) d''
IsCounted-chain d d' d'' n m k h h' = record {
  considers = omega (arith, h.considers, h'.considers);
  places = omega (arith, h.places, h'.places);
  same_budget = h'.same_budget ∙ h.same_budget;
  same_unavailable = h'.same_unavailable ∙ h.same_unavailable;
}

length-prepend {ℓ} :
    {A : Type ℓ} (o : Option A) (xs : List A) → length (prepend? o xs) ≡ found_count o + length xs
length-prepend none xs = omega arith
length-prepend (some x) xs = omega arith

module _ {S : Type 0} (input : SemanticVerificationInput S) where
  abbrev pub Counted : ProbeDiagnostics → Option (Prospect S) × ProbeDiagnostics → Type 0
  Counted d out = IsCounted d 1 (found_count out.0) out.1

  with_group-Counted :
      (anchor : HydratedDeclaration) (candidate : RetrievedCandidate S) (o : Option (RankedGroup S))
      (d : ProbeDiagnostics)
      → Counted d (with_group input anchor candidate o (started d))
  with_group-Counted anchor candidate none d = skip-IsCounted _ d
  with_group-Counted anchor candidate (some group) d =
      let left = from_declaration anchor input.comparison_policy in
      let right = from_declaration candidate.declaration input.comparison_policy in
      elim (Bool-cases (eligible_for_policy input.settings.policy candidate group)) [
        | inr e ↦ rw e (skip-IsCounted _ d)
        | inl e ↦ elim (Bool-cases (not left.importable || not right.importable)) [
          | inl i ↦ rw (e, i) (found-IsCounted d)
          | inr i ↦
              elim (Bool-cases
                (not (probe_supported_kind left) || not (probe_supported_kind right))) [
                  | inl k ↦ rw (e, i, k) (found-IsCounted d)
                  | inr k ↦
                      rw (e, i, k)
                        (by (probe_obligation input.settings.policy left right candidate group))
                ]
        ]
      ]
    where
      by :
          (o : Option ProbeObligation)
          → Counted d (
              by_obligation input anchor candidate group
                (from_declaration anchor input.comparison_policy)
                (from_declaration candidate.declaration input.comparison_policy)
                o
                (started d))
      by none = reject-IsCounted _ d
      by (some obligation) = found-IsCounted d

  pub classify-IsCounted :
      (pairs : List (HydratedDeclaration × RetrievedCandidate S)) (d : ProbeDiagnostics)
      → IsCounted d (length pairs) (length (classify input pairs d).0) (classify input pairs d).1
  unfolding classify classify_one
  classify-IsCounted [] d = record {
    considers = omega arith;
    places = omega arith;
    same_budget = refl;
    same_unavailable = refl;
  }
  classify-IsCounted ((anchor, candidate) ∷ pairs) d =
      let group = group_of candidate.pair_id input.groups in
      let one = with_group input anchor candidate group (started d) in
      rw (length-prepend one.0 (classify input pairs one.1).0) (
        IsCounted-chain d one.1 (classify input pairs one.1).1 _ _ _
          (with_group-Counted anchor candidate group d) (classify-IsCounted pairs one.1))
