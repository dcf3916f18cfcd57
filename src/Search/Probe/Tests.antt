-- ===== src/Search/Probe/Tests.antt =====
-- crates/search/src/semantic_verification.rs: plans of small queues.
use lean_dup.Base.{
  ℕ, ◌+◌, ◌*◌, ◌≤◌, ◌<◌, ◌⊎◌, max, String, true, false, none, length, ◌≡◌, refl, arith, text_ord,
  [],
}
use lean_dup.Search.Declaration.{HydratedDeclaration}
use lean_dup.Search.Evidence.{ProbePair, ProbeObligation}
use lean_dup.Search.Ranking.Queue.{rank_candidates}
use lean_dup.Search.Samples.{number_ops, suffix, ranking_input, candidate_sets, proved_origins}
use lean_dup.Search.Probe.{ProbePolicy, ProbeSettings}
use lean_dup.Search.Probe.Diagnostics.{initial_diagnostics}
use lean_dup.Search.Probe.Quotas.{percentage_quota, match_class_quota, declaration_kind_quota}
use lean_dup.Search.Probe.Classify.{SemanticVerificationInput}
use lean_dup.Search.Probe.Select.{plan_probes}
use lean_dup.Search.Probe.Bounds.{tally, percentage_quota_lem}
use lean_dup.Search.Probe.Budget.{
  anchor_of, class_of, kind_of, plan_probes-IsWithin, plan_probes-IsRationed,
}

abbrev settings : ProbeSettings
settings = record {
  policy = ProbePolicy.actionable;
  budget = 2;
  per_declaration_cap = 1;
  chunk_size = 8;
  max_heartbeats = none;
}

abbrev input : SemanticVerificationInput ℕ
input = record {
  candidate_sets = candidate_sets;
  groups = (rank_candidates number_ops suffix ranking_input).groups;
  comparison_policy = proved_origins;
  enabled = true;
  include_private = false;
  include_generated = false;
  settings = settings;
}

abbrev key : ProbePair → HydratedDeclaration → HydratedDeclaration → ProbeObligation → String
key pair left right obligation = pair.pair_id

-- A broad plan in which the library cannot be imported: one of its three pairs is unavailable.
abbrev broad_settings : ProbeSettings
broad_settings = record settings { policy = ProbePolicy.broad; budget = 9; per_declaration_cap = 9 }

abbrev not_importable : SemanticVerificationInput ℕ
not_importable = record input { comparison_policy = []; settings = broad_settings }

plan_probes-IsWithin_example :
    let (plan, d) = plan_probes input key number_ops (initial_diagnostics true settings) in
    (d.planned_pairs ≤ 2)
    × (length plan.planned ≤ d.planned_pairs)
    × ((anchor : String) → tally anchor_of anchor plan.planned ≤ 1)
plan_probes-IsWithin_example =
    plan_probes-IsWithin input key number_ops (initial_diagnostics true settings)

plan_probes-IsRationed_example :
    let (plan, d) = plan_probes input key number_ops (initial_diagnostics true settings) in
    ((z : String) → tally class_of z plan.planned ≤ match_class_quota (max 2 1) z)
    × ((z : String) → tally kind_of z plan.planned ≤ declaration_kind_quota (max 2 1) z)
plan_probes-IsRationed_example =
    plan_probes-IsRationed input key number_ops (initial_diagnostics true settings) refl

percentage_quota_lem_example :
    (1 ≤ percentage_quota 50 30)
    × (percentage_quota 50 30 ≤ 50)
    × (50 * 30 ≤ 100 * percentage_quota 50 30)
    × ((percentage_quota 50 30 ≡ 1) ⊎ (100 * percentage_quota 50 30 < 50 * 30 + 100))
percentage_quota_lem_example = percentage_quota_lem 50 30 (omega arith) (omega arith) (omega arith)
