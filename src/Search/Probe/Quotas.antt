-- ===== src/Search/Probe/Quotas.antt =====
-- crates/search/src/semantic_verification.rs: the budget quotas of the actionable policy.
use lean_dup.Base.{
  ℕ, suc, ◌+◌, ◌*◌, ◌/◌, ◌%◌, ◌^◌, min, max, String, Bool, ◌&&◌, ◌||◌, List, [], ltb, if◌then◌else◌,
  ◌==◌, text_ord,
}
use lean_dup.Base.Maps
use lean_dup.Base.Maps.{get_or_default}
use lean_dup.Search.Probe.{ProbeSettings, ProbePlanningFacts, ProbeRisk, is_broad, risk_label}

pub record ProbeQuotaState : Type 0 where
  pub by_source : List (String × ℕ)
  pub by_match_class : List (String × ℕ)
  pub by_declaration_kind : List (String × ℕ)
  pub by_risk : List (String × ℕ)

abbrev pub no_quota_use : ProbeQuotaState
no_quota_use = record {
  by_source = [];
  by_match_class = [];
  by_declaration_kind = [];
  by_risk = [];
}

unfoldable pub count_at : String → List (String × ℕ) → ℕ
count_at key counts = get_or_default 0 (Maps.get key counts)

-- `(budget * percent).div_ceil(100).max(1).min(budget)`; the product of two `usize` wraps.
unfoldable pub percentage_quota : ℕ → ℕ → ℕ
percentage_quota budget percent = min (max (((budget * percent) % 2 ^ 64 + 99) / 100) 1) budget

unfoldable pub match_class_quota : ℕ → String → ℕ
match_class_quota budget match_class =
    if match_class == "reducible-definition"
    then percentage_quota budget 30
    else if match_class == "local-duplicate"
    then percentage_quota budget 10
    else budget

unfoldable pub declaration_kind_quota : ℕ → String → ℕ
declaration_kind_quota budget kind_pair =
    if (kind_pair == "abbrev+abbrev") || (kind_pair == "abbrev+def") || (kind_pair == "def+def")
    then percentage_quota budget 30
    else budget

unfoldable pub risk_quota : ℕ → ProbeRisk → ℕ
risk_quota budget ProbeRisk.ordinary = budget
risk_quota budget ProbeRisk.reducible_definition_risk = percentage_quota budget 30
risk_quota budget ProbeRisk.hard_negative_risk = percentage_quota budget 10

unfoldable pub quota_allows : ProbeSettings → ProbePlanningFacts → ProbeQuotaState → Bool
quota_allows settings facts quotas =
    let budget = max settings.budget 1 in
    is_broad settings.policy
    || (ltb (count_at facts.source_id quotas.by_source) budget
        && ltb (count_at facts.match_class quotas.by_match_class)
            (match_class_quota budget facts.match_class)
        && ltb (count_at facts.declaration_kind quotas.by_declaration_kind)
            (declaration_kind_quota budget facts.declaration_kind)
        && ltb (count_at (risk_label facts.risk) quotas.by_risk) (risk_quota budget facts.risk))

unfoldable pub record_quota_use : ProbePlanningFacts → ProbeQuotaState → ProbeQuotaState
record_quota_use facts quotas = record {
  by_source = Maps.update facts.source_id 0 suc quotas.by_source;
  by_match_class = Maps.update facts.match_class 0 suc quotas.by_match_class;
  by_declaration_kind = Maps.update facts.declaration_kind 0 suc quotas.by_declaration_kind;
  by_risk = Maps.update (risk_label facts.risk) 0 suc quotas.by_risk;
}
