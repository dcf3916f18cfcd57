-- ===== src/Search/Probe/Select.antt =====
-- crates/search/src/semantic_verification.rs: `plan_probes`. The cache key of a probe is a parameter
-- here.
use lean_dup.Base.{
  ℕ, suc, String, Ordering, Bool, false, ◌||◌, not, Option, none, some, List, [], ◌∷◌, ◌++◌, leb,
  if◌then◌else◌, FloatOps, and_then, nat_ord, text_ord, sort_by,
}
use lean_dup.Base.Maps
use lean_dup.Base.Maps.{get_or_default}
use lean_dup.Search.Declaration.{HydratedDeclaration}
use lean_dup.Search.Evidence.{
  ProbeObligation, ProbePair, SemanticEvidence, EvidenceKind, EvidenceStatus,
  SearchSemanticObligationKind, SearchSemanticObligationStatus,
}
use lean_dup.Search.Review.{tier_rank}
use lean_dup.Search.Ranking.Queue.{pairs_of}
use lean_dup.Search.Probe.{
  ProbePlanningFacts, PlannedProbe, ProbeStatus, ProbeDecision, UnavailableReason, obligation_rank,
  order_key, risk_order, reason_label, semantic_reason, needs_private_filter,
}
use lean_dup.Search.Probe.Diagnostics.{ProbeDiagnostics, record_probe_status}
use lean_dup.Search.Probe.Counting.{
  increment_yield, record_planned_obligation, record_unavailable_reason,
}
use lean_dup.Search.Probe.Quotas.{
  ProbeQuotaState, no_quota_use, count_at, quota_allows, record_quota_use,
}
use lean_dup.Search.Probe.Classify.{SemanticVerificationInput, Prospect, classify}

-- The variables of the selecting loop.
pub record Selection : Type 0 where
  pub planned : List PlannedProbe
  pub preflight_evidence : List (String × SemanticEvidence)
  pub per_declaration : List (String × ℕ)
  pub quotas : ProbeQuotaState
  pub selected_count : ℕ
  pub diagnostics : ProbeDiagnostics

pub record ProbePlan : Type 0 where
  pub planned : List PlannedProbe
  pub preflight_evidence : List (String × SemanticEvidence)

abbrev pub budget_skip : ProbePlanningFacts → ProbeDiagnostics → ProbeDiagnostics
budget_skip facts d =
    record_probe_status (record d { skipped_by_budget = suc d.skipped_by_budget }) facts
      ProbeStatus.skipped_by_budget

module _ {S : Type 0} (input : SemanticVerificationInput S) where
  -- `key` is `probe_cache_key` with the policy and the resolver of the run.
  module _
      (key : ProbePair → HydratedDeclaration → HydratedDeclaration → ProbeObligation → String) where
    abbrev pub pair_of : Prospect S → ProbePair
    pair_of p = record {
      pair_id = p.candidate.pair_id;
      left_declaration_id = p.anchor.declaration_id;
      right_declaration_id = p.candidate.declaration.declaration_id;
    }

    abbrev pub worker_probe : Prospect S → ProbeObligation → PlannedProbe
    worker_probe p obligation = record {
      pair = pair_of p;
      cache_key = key (pair_of p) p.anchor p.candidate.declaration obligation;
      obligation = obligation;
      facts = p.facts;
      right_module = p.right.module_name;
      right_origin = p.right.origin;
      left_module = p.left.module_name;
      left_origin = p.left.origin;
      include_private =
          input.include_private || needs_private_filter p.left || needs_private_filter p.right;
      include_generated = input.include_generated || p.left.generated || p.right.generated;
    }

    abbrev pub synthetic_probe : Prospect S → PlannedProbe
    synthetic_probe p = record {
      pair = pair_of p;
      cache_key = "";
      obligation = ProbeObligation.local_duplicate;
      facts = p.facts;
      right_module = p.right.module_name;
      right_origin = p.right.origin;
      left_module = p.left.module_name;
      left_origin = p.left.origin;
      include_private = false;
      include_generated = false;
    }

    abbrev pub preflight : Prospect S → UnavailableReason → SemanticEvidence
    preflight p reason = record {
      pair_id = p.candidate.pair_id;
      kind = EvidenceKind.evidence_unavailable;
      status = EvidenceStatus.unavailable;
      obligation = SearchSemanticObligationKind.local_duplicate_kind;
      unavailable_reason = some (semantic_reason reason);
      summary = some (reason_label reason);
    }

    -- The selected prospect is counted against its declaration and its quotas.
    abbrev pub charge : Prospect S → Selection → Selection
    charge p s = record s {
      per_declaration = Maps.update p.anchor.declaration_id 0 suc s.per_declaration;
      quotas = record_quota_use p.facts s.quotas;
      selected_count = suc s.selected_count;
    }

    abbrev pub admit : ProbeDecision → Prospect S → Selection → Selection
    admit (ProbeDecision.worker_decision obligation) p s = record s {
      planned = s.planned ++ worker_probe p obligation ∷ [];
      diagnostics =
          record_probe_status (record_planned_obligation obligation s.diagnostics) p.facts
            ProbeStatus.planned;
    }
    admit (ProbeDecision.unavailable_decision reason) p s = record s {
      preflight_evidence =
          Maps.insert p.candidate.pair_id (preflight p reason) s.preflight_evidence;
      diagnostics = record_unavailable_reason reason (synthetic_probe p) (
          record_probe_status
            (increment_yield SearchSemanticObligationKind.local_duplicate_kind
              SearchSemanticObligationStatus.status_planned s.diagnostics)
            p.facts ProbeStatus.planned);
    }

    unfoldable pub is_skipped : Prospect S → Selection → Bool
    is_skipped p s =
        leb input.settings.budget s.selected_count
        || leb input.settings.per_declaration_cap
            (count_at p.anchor.declaration_id s.per_declaration)
        || not (quota_allows input.settings p.facts s.quotas)

    -- The body of the selecting loop: the three guards do the same.
    unfoldable pub select_one : Prospect S → Selection → Selection
    select_one p s =
        if is_skipped p s
        then record s { diagnostics = budget_skip p.facts s.diagnostics }
        else admit p.decision p (charge p s)

    unfoldable pub select : List (Prospect S) → Selection → Selection
    select [] s = s
    select (p ∷ ps) s = select ps (select_one p s)

    abbrev pub or_equal : Option Ordering → Ordering
    or_equal none = Ordering.eq
    or_equal (some o) = o

    unfoldable pub probe_order : FloatOps S → Prospect S → Prospect S → Ordering
    probe_order float l r =
        and_then
          (nat_ord.cmp (obligation_rank (order_key l.decision))
            (obligation_rank (order_key r.decision)))
          (and_then (nat_ord.cmp (risk_order l.facts.risk) (risk_order r.facts.risk)) (
            and_then (text_ord.cmp l.facts.source_family r.facts.source_family) (
              and_then
                (nat_ord.cmp (tier_rank l.group.review_priority)
                  (tier_rank r.group.review_priority))
                (and_then
                  (nat_ord.cmp (tier_rank l.group.confidence) (tier_rank r.group.confidence))
                  (and_then (or_equal (float.partial_cmp r.candidate.score l.candidate.score))
                    (text_ord.cmp l.candidate.pair_id r.candidate.pair_id))))))

    abbrev pub unselected : ProbeDiagnostics → Selection
    unselected d = record {
      planned = [];
      preflight_evidence = [];
      per_declaration = [];
      quotas = no_quota_use;
      selected_count = 0;
      diagnostics = d;
    }

    -- The selection that `plan_probes` ends with.
    unfoldable pub selection : FloatOps S → ProbeDiagnostics → Selection
    selection float d =
        let (prospects, d') = classify input (pairs_of input.candidate_sets) d in
        select (sort_by (probe_order float) prospects) (unselected d')

    unfoldable pub plan_probes : FloatOps S → ProbeDiagnostics → ProbePlan × ProbeDiagnostics
    plan_probes float d =
        let s = selection float d in
        (
          record { planned = s.planned; preflight_evidence = s.preflight_evidence },
          record s.diagnostics { planned_pairs = s.selected_count },
        )
