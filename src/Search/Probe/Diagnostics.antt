-- ===== src/Search/Probe/Diagnostics.antt =====
-- crates/search/src/semantic_verification.rs: `ProbeDiagnostics` and the functions that count in it.
use lean_dup.Base.{ℕ, suc, String, Bool, List, [], ◌∷◌, nat_eq, if◌then◌else◌, text_ord}
use lean_dup.Base.Maps
use lean_dup.Search.Evidence.{SearchSemanticObligationKind, SearchSemanticObligationStatus}
use lean_dup.Search.Probe.{ProbePolicy, ProbeSettings, ProbePlanningFacts, ProbeStatus}

pub record ProbeStatusBreakdown : Type 0 where
  pub planned : ℕ
  pub cached : ℕ
  pub worker : ℕ
  pub verified : ℕ
  pub rejected : ℕ
  pub unavailable : ℕ
  pub skipped_by_policy : ℕ
  pub skipped_by_budget : ℕ
  pub timeout : ℕ

abbrev pub no_breakdown : ProbeStatusBreakdown
no_breakdown = record {
  planned = 0;
  cached = 0;
  worker = 0;
  verified = 0;
  rejected = 0;
  unavailable = 0;
  skipped_by_policy = 0;
  skipped_by_budget = 0;
  timeout = 0;
}

pub record SearchSemanticObligationYield : Type 0 where
  pub kind : SearchSemanticObligationKind
  pub planned : ℕ
  pub verified : ℕ
  pub rejected : ℕ
  pub unavailable : ℕ
  pub cached : ℕ
  pub worker_pairs : ℕ

pub record ProbeDiagnostics : Type 0 where
  pub enabled : Bool
  pub policy : String
  pub budget : ℕ
  pub per_declaration_cap : ℕ
  pub chunk_size : ℕ
  pub candidates_considered : ℕ
  pub planned_pairs : ℕ
  pub skipped_by_policy : ℕ
  pub skipped_by_budget : ℕ
  pub cheap_summary_rejects : ℕ
  pub planned_exact_theorem : ℕ
  pub planned_permuted_theorem : ℕ
  pub planned_replacement : ℕ
  pub planned_reducible_definition : ℕ
  pub planned_specialization : ℕ
  pub planned_local_duplicate : ℕ
  pub cached_hits : ℕ
  pub worker_pairs : ℕ
  pub worker_batches : ℕ
  pub recovered_failures : ℕ
  pub unavailable_results : ℕ
  pub unavailable_unsupported : ℕ
  pub unavailable_missing : ℕ
  pub unavailable_timeout : ℕ
  pub unavailable_internal : ℕ
  pub unavailable_by_reason : List (String × ℕ)
  pub unavailable_by_obligation : List (String × ℕ)
  pub unavailable_by_module : List (String × ℕ)
  pub unavailable_by_origin : List (String × ℕ)
  pub status_by_source : List (String × ProbeStatusBreakdown)
  pub status_by_match_class : List (String × ProbeStatusBreakdown)
  pub verified_results : ℕ
  pub rejected_results : ℕ
  pub obligation_yield : List SearchSemanticObligationYield

abbrev pub probe_policy_label : ProbePolicy → String
probe_policy_label ProbePolicy.actionable = "actionable"
probe_policy_label ProbePolicy.broad = "broad"

-- The diagnostics that `verify_candidate_probes` starts with.
unfoldable pub initial_diagnostics : Bool → ProbeSettings → ProbeDiagnostics
initial_diagnostics enabled settings = record {
  enabled = enabled;
  policy = probe_policy_label settings.policy;
  budget = settings.budget;
  per_declaration_cap = settings.per_declaration_cap;
  chunk_size = settings.chunk_size;
  candidates_considered = 0;
  planned_pairs = 0;
  skipped_by_policy = 0;
  skipped_by_budget = 0;
  cheap_summary_rejects = 0;
  planned_exact_theorem = 0;
  planned_permuted_theorem = 0;
  planned_replacement = 0;
  planned_reducible_definition = 0;
  planned_specialization = 0;
  planned_local_duplicate = 0;
  cached_hits = 0;
  worker_pairs = 0;
  worker_batches = 0;
  recovered_failures = 0;
  unavailable_results = 0;
  unavailable_unsupported = 0;
  unavailable_missing = 0;
  unavailable_timeout = 0;
  unavailable_internal = 0;
  unavailable_by_reason = [];
  unavailable_by_obligation = [];
  unavailable_by_module = [];
  unavailable_by_origin = [];
  status_by_source = [];
  status_by_match_class = [];
  verified_results = 0;
  rejected_results = 0;
  obligation_yield = [];
}

abbrev pub bump : ProbeStatus → ProbeStatusBreakdown → ProbeStatusBreakdown
bump ProbeStatus.planned b = record b { planned = suc b.planned }
bump ProbeStatus.cached b = record b { cached = suc b.cached }
bump ProbeStatus.worker b = record b { worker = suc b.worker }
bump ProbeStatus.verified_probe b = record b { verified = suc b.verified }
bump ProbeStatus.rejected_probe b = record b { rejected = suc b.rejected }
bump ProbeStatus.unavailable_probe b = record b { unavailable = suc b.unavailable }
bump ProbeStatus.skipped_by_policy b = record b { skipped_by_policy = suc b.skipped_by_policy }
bump ProbeStatus.skipped_by_budget b = record b { skipped_by_budget = suc b.skipped_by_budget }
bump ProbeStatus.timed_out b = record b { timeout = suc b.timeout }

unfoldable pub record_probe_status :
    ProbeDiagnostics → ProbePlanningFacts → ProbeStatus → ProbeDiagnostics
record_probe_status d facts status = record d {
  status_by_source = Maps.update facts.source_id no_breakdown (bump status) d.status_by_source;
  status_by_match_class =
      Maps.update facts.match_class no_breakdown (bump status) d.status_by_match_class;
}

unfoldable pub increment : List (String × ℕ) → String → List (String × ℕ)
increment map key = Maps.update key 0 suc map

abbrev pub kind_rank : SearchSemanticObligationKind → ℕ
kind_rank SearchSemanticObligationKind.exact_theorem_kind = 0
kind_rank SearchSemanticObligationKind.permuted_theorem_kind = 1
kind_rank SearchSemanticObligationKind.replacement_kind = 2
kind_rank SearchSemanticObligationKind.reducible_definition_kind = 3
kind_rank SearchSemanticObligationKind.specialization_kind = 4
kind_rank SearchSemanticObligationKind.local_duplicate_kind = 5

-- `yield_for` with the change that its callers make to the item: the first item of the kind, or a
-- new one at the end.
unfoldable pub change_yield :
    SearchSemanticObligationKind
    → (SearchSemanticObligationYield → SearchSemanticObligationYield)
    → List SearchSemanticObligationYield
    → List SearchSemanticObligationYield
change_yield kind f [] =
    f (record {
      kind = kind;
      planned = 0;
      verified = 0;
      rejected = 0;
      unavailable = 0;
      cached = 0;
      worker_pairs = 0;
    })
    ∷ []
change_yield kind f (item ∷ items) =
    let rest = change_yield kind f items in
    if nat_eq (kind_rank item.kind) (kind_rank kind) then f item ∷ items else item ∷ rest

abbrev pub count_status :
    SearchSemanticObligationStatus → SearchSemanticObligationYield → SearchSemanticObligationYield
count_status SearchSemanticObligationStatus.status_planned y = record y { planned = suc y.planned }
count_status SearchSemanticObligationStatus.status_verified y = record y {
  verified = suc y.verified;
}
count_status SearchSemanticObligationStatus.status_rejected y = record y {
  rejected = suc y.rejected;
}
count_status SearchSemanticObligationStatus.status_unavailable y = record y {
  unavailable = suc y.unavailable;
}
count_status SearchSemanticObligationStatus.status_cached y = record y { cached = suc y.cached }
