-- ===== src/Search/Probe/Classify.antt =====
-- crates/search/src/semantic_verification.rs: the first loop of `plan_probes`, which tells the
-- candidates that can be probed from the others.
use lean_dup.Base.{
  suc, String, Bool, ◌||◌, not, Option, none, some, List, [], ◌∷◌, if◌then◌else◌, ◌==◌, nat_ord,
  text_ord, prepend?,
}
use lean_dup.Index.Provenance.{ComparisonEvidencePolicy}
use lean_dup.Search.Declaration.{HydratedDeclaration, RetrievedCandidate, CandidateSet}
use lean_dup.Search.Evidence.{ProbeObligation}
use lean_dup.Search.Review.{RankedGroup}
use lean_dup.Search.Probe.{
  ProbeSettings, ProbePlanningFacts, ProbeStatus, ProbeDecision, UnavailableReason,
  DeclarationProbeSummary, from_declaration, probe_supported_kind,
}
use lean_dup.Search.Probe.Diagnostics.{ProbeDiagnostics, record_probe_status}
use lean_dup.Search.Probe.Eligibility.{
  eligible_for_policy, probe_planning_facts_without_group, probe_planning_facts, probe_obligation,
}

pub record SemanticVerificationInput (S : Type 0) : Type 0 where
  pub candidate_sets : List (CandidateSet S)
  pub groups : List (RankedGroup S)
  pub comparison_policy : ComparisonEvidencePolicy
  pub enabled : Bool
  pub include_private : Bool
  pub include_generated : Bool
  pub settings : ProbeSettings

-- An entry of the vector `candidates`.
pub record Prospect (S : Type 0) : Type 0 where
  pub anchor : HydratedDeclaration
  pub candidate : RetrievedCandidate S
  pub group : RankedGroup S
  pub decision : ProbeDecision
  pub left : DeclarationProbeSummary
  pub right : DeclarationProbeSummary
  pub facts : ProbePlanningFacts

-- `collect` into a map: the last group of a pair stays.
unfoldable pub group_of : {S : Type 0} → String → List (RankedGroup S) → Option (RankedGroup S)
group_of pair_id [] = none
group_of pair_id (g ∷ gs) = elim (group_of pair_id gs) [
  | some group ↦ some group
  | none ↦ if g.pair_id == pair_id then some g else none
]

abbrev pub policy_skip : ProbePlanningFacts → ProbeDiagnostics → ProbeDiagnostics
policy_skip facts d =
    record_probe_status (record d { skipped_by_policy = suc d.skipped_by_policy }) facts
      ProbeStatus.skipped_by_policy

abbrev pub cheap_reject : ProbePlanningFacts → ProbeDiagnostics → ProbeDiagnostics
cheap_reject facts d =
    record_probe_status (record d { cheap_summary_rejects = suc d.cheap_summary_rejects }) facts
      ProbeStatus.skipped_by_policy

module _ {S : Type 0} (input : SemanticVerificationInput S) where
  abbrev pub prospect :
      HydratedDeclaration
      → RetrievedCandidate S
      → RankedGroup S
      → DeclarationProbeSummary
      → DeclarationProbeSummary
      → ProbeDecision
      → Option ProbeObligation
      → Prospect S
  prospect anchor candidate group left right decision obligation = record {
    anchor = anchor;
    candidate = candidate;
    group = group;
    decision = decision;
    left = left;
    right = right;
    facts = probe_planning_facts left right candidate group obligation;
  }

  -- The end of the loop body, once the pair is known to be supported.
  abbrev pub by_obligation :
      HydratedDeclaration
      → RetrievedCandidate S
      → RankedGroup S
      → DeclarationProbeSummary
      → DeclarationProbeSummary
      → Option ProbeObligation
      → ProbeDiagnostics
      → Option (Prospect S) × ProbeDiagnostics
  by_obligation anchor candidate group left right none d =
      (none, cheap_reject (probe_planning_facts left right candidate group none) d)
  by_obligation anchor candidate group left right (some obligation) d = (
    some (
        prospect anchor candidate group left right (ProbeDecision.worker_decision obligation)
          (some obligation)),
    d,
  )

  abbrev pub with_group :
      HydratedDeclaration
      → RetrievedCandidate S
      → Option (RankedGroup S)
      → ProbeDiagnostics
      → Option (Prospect S) × ProbeDiagnostics
  with_group anchor candidate none d =
      (none, policy_skip (probe_planning_facts_without_group anchor candidate) d)
  with_group anchor candidate (some group) d =
      let left = from_declaration anchor input.comparison_policy in
      let right = from_declaration candidate.declaration input.comparison_policy in
      let local = some ProbeObligation.local_duplicate in
      if not (eligible_for_policy input.settings.policy candidate group)
      then (none, policy_skip (probe_planning_facts left right candidate group none) d)
      else if not left.importable || not right.importable
      then (
        some (
            prospect anchor candidate group left right
              (ProbeDecision.unavailable_decision UnavailableReason.reason_missing_declaration)
              local),
        d,
      )
      else if not (probe_supported_kind left) || not (probe_supported_kind right)
      then (
        some (
            prospect anchor candidate group left right
              (ProbeDecision.unavailable_decision UnavailableReason.reason_unsupported) local),
        d,
      )
      else by_obligation anchor candidate group left right
          (probe_obligation input.settings.policy left right candidate group) d

  -- The body of the loop over the candidates.
  unfoldable pub classify_one :
      HydratedDeclaration
      → RetrievedCandidate S
      → ProbeDiagnostics
      → Option (Prospect S) × ProbeDiagnostics
  classify_one anchor candidate d =
      with_group anchor candidate (group_of candidate.pair_id input.groups)
        (record d { candidates_considered = suc d.candidates_considered })

  unfoldable pub classify :
      List (HydratedDeclaration × RetrievedCandidate S)
      → ProbeDiagnostics
      → List (Prospect S) × ProbeDiagnostics
  classify [] d = ([], d)
  classify ((anchor, candidate) ∷ pairs) d =
      let (found, d') = classify_one anchor candidate d in
      let (rest, d'') = classify pairs d' in (prepend? found rest, d'')
