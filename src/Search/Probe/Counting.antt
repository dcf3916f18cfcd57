-- ===== src/Search/Probe/Counting.antt =====
-- crates/search/src/semantic_verification.rs: how obligations and evidence are counted.
use Prim.Native.String.{◌++◌ as append}
use lean_dup.Base.{ℕ, suc, ◌+◌, String, ◌||◌, if◌then◌else◌, contains_text}
use lean_dup.Base.Maps.{get_or_default}
use lean_dup.Search.Evidence.{
  ProbeObligation, EvidenceStatus, SemanticEvidence, SearchSemanticObligationKind,
  SearchSemanticObligationStatus, semantic_kind,
}
use lean_dup.Search.Probe.{
  PlannedProbe, ProbePlanningFacts, ProbeStatus, UnavailableReason, reason_label, obligation_label,
}
use lean_dup.Search.Probe.Diagnostics.{
  ProbeDiagnostics, record_probe_status, increment, change_yield, count_status,
}

unfoldable pub increment_yield :
    SearchSemanticObligationKind
    → SearchSemanticObligationStatus
    → ProbeDiagnostics
    → ProbeDiagnostics
increment_yield kind status d = record d {
  obligation_yield = change_yield kind (count_status status) d.obligation_yield;
}

unfoldable pub increment_worker_pairs :
    SearchSemanticObligationKind → ℕ → ProbeDiagnostics → ProbeDiagnostics
increment_worker_pairs kind count d = record d {
  obligation_yield =
      change_yield kind (λ y. record y { worker_pairs = y.worker_pairs + count })
        d.obligation_yield;
}

abbrev pub count_obligation : ProbeObligation → ProbeDiagnostics → ProbeDiagnostics
count_obligation ProbeObligation.exact_theorem d = record d {
  planned_exact_theorem = suc d.planned_exact_theorem;
}
count_obligation ProbeObligation.permuted_theorem d = record d {
  planned_permuted_theorem = suc d.planned_permuted_theorem;
}
count_obligation ProbeObligation.replacement d = record d {
  planned_replacement = suc d.planned_replacement;
}
count_obligation ProbeObligation.reducible_definition d = record d {
  planned_reducible_definition = suc d.planned_reducible_definition;
}
count_obligation ProbeObligation.specialization d = record d {
  planned_specialization = suc d.planned_specialization;
}
count_obligation ProbeObligation.local_duplicate d = record d {
  planned_local_duplicate = suc d.planned_local_duplicate;
}

unfoldable pub record_planned_obligation : ProbeObligation → ProbeDiagnostics → ProbeDiagnostics
record_planned_obligation obligation d =
    count_obligation obligation
      (increment_yield (semantic_kind obligation) SearchSemanticObligationStatus.status_planned d)

abbrev pub count_reason : UnavailableReason → ProbeDiagnostics → ProbeDiagnostics
count_reason UnavailableReason.reason_missing_declaration d = record d {
  unavailable_missing = suc d.unavailable_missing;
}
count_reason UnavailableReason.reason_unsupported d = record d {
  unavailable_unsupported = suc d.unavailable_unsupported;
}
count_reason UnavailableReason.reason_opaque_or_unreducible d = record d {
  unavailable_unsupported = suc d.unavailable_unsupported;
}
count_reason UnavailableReason.reason_timeout d = record d {
  unavailable_timeout = suc d.unavailable_timeout;
}
count_reason UnavailableReason.reason_internal_error d = record d {
  unavailable_internal = suc d.unavailable_internal;
}

abbrev pub record_timeout :
    UnavailableReason → ProbePlanningFacts → ProbeDiagnostics → ProbeDiagnostics
record_timeout UnavailableReason.reason_timeout facts d =
    record_probe_status d facts ProbeStatus.timed_out
record_timeout other facts d = d

abbrev pub scoped : String → String → String
scoped origin module_name = append origin (append ":" module_name)

-- The maps of `record_unavailable_reason`, each key incremented in the source's order.
abbrev pub count_places : UnavailableReason → PlannedProbe → ProbeDiagnostics → ProbeDiagnostics
count_places reason planned d = record d {
  unavailable_by_reason = increment d.unavailable_by_reason (reason_label reason);
  unavailable_by_obligation =
      increment d.unavailable_by_obligation (obligation_label planned.obligation);
  unavailable_by_module =
      increment (increment d.unavailable_by_module (scoped planned.left_origin planned.left_module))
        (scoped planned.right_origin planned.right_module);
  unavailable_by_origin =
      increment (increment d.unavailable_by_origin planned.left_origin) planned.right_origin;
}

unfoldable pub record_unavailable_reason :
    UnavailableReason → PlannedProbe → ProbeDiagnostics → ProbeDiagnostics
record_unavailable_reason reason planned d =
    let counted = record d { unavailable_results = suc d.unavailable_results } in
    let status = record_probe_status counted planned.facts ProbeStatus.unavailable_probe in
    let timed = record_timeout reason planned.facts status in
    let yielded =
      increment_yield (semantic_kind planned.obligation)
        SearchSemanticObligationStatus.status_unavailable timed in
    count_places reason planned (count_reason reason yielded)

unfoldable pub reason_of_summary : String → UnavailableReason
reason_of_summary text =
    if contains_text text "missing-declaration"
      || contains_text text "not available"
      || contains_text text "missing"
    then UnavailableReason.reason_missing_declaration
    else if contains_text text "heartbeat" || contains_text text "timeout"
    then UnavailableReason.reason_timeout
    else if contains_text text "supports"
        || contains_text text "opaque"
        || contains_text text "unavailable"
        || contains_text text "reducible probe guard"
        || contains_text text "definition body"
    then UnavailableReason.reason_opaque_or_unreducible
    else UnavailableReason.reason_internal_error

abbrev pub record_by_status :
    EvidenceStatus → SemanticEvidence → PlannedProbe → ProbeDiagnostics → ProbeDiagnostics
record_by_status EvidenceStatus.verified evidence planned d =
    increment_yield (semantic_kind planned.obligation)
      SearchSemanticObligationStatus.status_verified
      (record_probe_status (record d { verified_results = suc d.verified_results }) planned.facts
        ProbeStatus.verified_probe)
record_by_status EvidenceStatus.rejected evidence planned d =
    increment_yield (semantic_kind planned.obligation)
      SearchSemanticObligationStatus.status_rejected
      (record_probe_status (record d { rejected_results = suc d.rejected_results }) planned.facts
        ProbeStatus.rejected_probe)
record_by_status EvidenceStatus.unavailable evidence planned d =
    record_unavailable_reason (reason_of_summary (get_or_default "" evidence.summary)) planned d

unfoldable pub record_evidence_diagnostic :
    SemanticEvidence → PlannedProbe → ProbeDiagnostics → ProbeDiagnostics
record_evidence_diagnostic evidence planned d = record_by_status evidence.status evidence planned d
