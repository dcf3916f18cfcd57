-- ===== src/Search/Probe/Chunks/Absorb.antt =====
-- crates/search/src/semantic_verification.rs: what the rows of one batch leave in a run.
use lean_dup.Base.{
  String, true, ◌||◌, Option, none, some, List, [], ◌∷◌, any, All, All-imp, ◌==◌, inl, inr, ◌≡◌,
  refl, sym, ap, ◌∙◌, text_ord, Option-cases, eq_iff, or_intro_left, or_intro_right, or_true,
}
use lean_dup.Base.Maps
use lean_dup.Base.Sets.{same, same_iff}
use lean_dup.Search.Evidence.{ProbeResult, SemanticEvidence, EvidenceStatus, semantic_evidence}
use lean_dup.Search.Evidence.Reading.{semantic_evidence_lem}
use lean_dup.Search.Probe.{PlannedProbe, UnavailableReason}
use lean_dup.Search.Probe.Diagnostics.{ProbeDiagnostics, record_probe_status}
use lean_dup.Search.Probe.Counting.{
  record_evidence_diagnostic, record_by_status, record_unavailable_reason, increment_worker_pairs,
  increment_yield, reason_of_summary,
}
use lean_dup.Search.Probe.Chunks.{Run, planned_for, count_worker, absorb_one, absorb_if, absorb}

abbrev pub Answered : Run → String → Type 0
Answered r pair_id = Maps.contains_key pair_id r.evidence ≡ true

batches-reason :
    (reason : UnavailableReason) (p : PlannedProbe) (d : ProbeDiagnostics)
    → (record_unavailable_reason reason p d).worker_batches ≡ d.worker_batches
unfolding record_unavailable_reason increment_yield record_probe_status
batches-reason UnavailableReason.reason_missing_declaration p d = refl
batches-reason UnavailableReason.reason_unsupported p d = refl
batches-reason UnavailableReason.reason_opaque_or_unreducible p d = refl
batches-reason UnavailableReason.reason_timeout p d = refl
batches-reason UnavailableReason.reason_internal_error p d = refl

batches-status :
    (status : EvidenceStatus) (e : SemanticEvidence) (p : PlannedProbe) (d : ProbeDiagnostics)
    → (record_by_status status e p d).worker_batches ≡ d.worker_batches
unfolding increment_yield record_probe_status
batches-status EvidenceStatus.verified e p d = refl
batches-status EvidenceStatus.rejected e p d = refl
batches-status EvidenceStatus.unavailable e p d = batches-reason (reason_of_summary _) p d

batches-evidence :
    (e : SemanticEvidence) (p : PlannedProbe) (d : ProbeDiagnostics)
    → (record_evidence_diagnostic e p d).worker_batches ≡ d.worker_batches
unfolding record_evidence_diagnostic
batches-evidence e p d = batches-status e.status e p d

pub batches-count_worker :
    (chunk : List PlannedProbe) (d : ProbeDiagnostics)
    → (count_worker chunk d).worker_batches ≡ d.worker_batches
unfolding count_worker increment_worker_pairs record_probe_status
batches-count_worker [] d = refl
batches-count_worker (p ∷ ps) d = batches-count_worker ps _

-- What a call leaves as it was, or larger.
pub record Extends (r r' : Run) : Type 0 where
  pub kept : (pair_id : String) → Answered r pair_id → Answered r' pair_id
  pub same_batches : r'.diagnostics.worker_batches ≡ r.diagnostics.worker_batches

pub absorb_one-key :
    (p : PlannedProbe) (result : ProbeResult) (r : Run) (pair_id : String)
    → Maps.contains_key pair_id (absorb_one p result r).evidence
      ≡ (same pair_id result.pair_id || Maps.contains_key pair_id r.evidence)
unfolding absorb_one
absorb_one-key p result r pair_id =
    let semantic = semantic_evidence p.obligation result in
    Maps.contains_key-insert pair_id semantic.pair_id semantic r.evidence
    ∙ ap (λ w. same pair_id w || Maps.contains_key pair_id r.evidence)
        (semantic_evidence_lem p.obligation result).0

pub absorb_one-Extends :
    (p : PlannedProbe) (result : ProbeResult) (r : Run) → Extends r (absorb_one p result r)
absorb_one-Extends p result r = record {
  kept = λ id h. absorb_one-key p result r id ∙ or_intro_right _ _ h;
  same_batches =
      unfold absorb_one in batches-evidence (semantic_evidence p.obligation result) p r.diagnostics;
}

Extends-refl : (r : Run) → Extends r r
Extends-refl r = record { kept = λ id h. h; same_batches = refl }

pub Extends-trans : (r r' r'' : Run) → Extends r r' → Extends r' r'' → Extends r r''
Extends-trans r r' r'' h k = record {
  kept = λ id a. k.kept id (h.kept id a);
  same_batches = k.same_batches ∙ h.same_batches;
}

absorb_if-Extends :
    (o : Option PlannedProbe) (result : ProbeResult) (r : Run) → Extends r (absorb_if o result r)
absorb_if-Extends none result r = Extends-refl r
absorb_if-Extends (some p) result r = absorb_one-Extends p result r

pub absorb-Extends :
    (chunk : List PlannedProbe) (rows : List ProbeResult) (r : Run)
    → Extends r (absorb chunk rows r)
unfolding absorb
absorb-Extends chunk [] r = Extends-refl r
absorb-Extends chunk (row ∷ rows) r =
    let next = absorb_if (planned_for row.pair_id chunk) row r in
    Extends-trans r next _ (absorb_if-Extends (planned_for row.pair_id chunk) row r)
      (absorb-Extends chunk rows next)

abbrev pub IsInBatch : String → List PlannedProbe → Type 0
IsInBatch pair_id chunk = (p : PlannedProbe) × (planned_for pair_id chunk ≡ some p)

pub absorb-Answered :
    (chunk : List PlannedProbe) (rows : List ProbeResult) (r : Run) (pair_id : String)
    → IsInBatch pair_id chunk
    → any (λ row. row.pair_id == pair_id) rows ≡ true
    → Answered (absorb chunk rows r) pair_id
unfolding absorb
absorb-Answered chunk [] r pair_id planned h = cc h
absorb-Answered chunk (row ∷ rows) r pair_id planned h = elim (or_true _ _ h) [
  | inl e ↦
      let next = absorb_if (planned_for row.pair_id chunk) row r in
      (absorb-Extends chunk rows next).kept pair_id
        (here row planned ((eq_iff row.pair_id pair_id).0 e))
  | inr later ↦ absorb-Answered chunk rows _ pair_id planned later
]
  where
    here :
        (row : ProbeResult)
        → IsInBatch pair_id chunk
        → row.pair_id ≡ pair_id
        → Answered (absorb_if (planned_for row.pair_id chunk) row r) pair_id
    here row (p, q) e = rw (ap (λ w. planned_for w chunk) e ∙ q) (
        absorb_one-key p row r pair_id
        ∙ or_intro_left _ _ ((same_iff pair_id row.pair_id).1 (sym e)))

planned_for-IsInBatch :
    (p : PlannedProbe) (chunk : List PlannedProbe) → IsInBatch p.pair.pair_id (p ∷ chunk)
unfolding planned_for
planned_for-IsInBatch p chunk = elim (Option-cases (planned_for p.pair.pair_id chunk)) [
  | inl e ↦ (p, rw (e, (eq_iff p.pair.pair_id p.pair.pair_id).1 refl) refl)
  | inr (q, e) ↦ (q, rw e refl)
]

planned_for-later :
    (pair_id : String) (p : PlannedProbe) (chunk : List PlannedProbe)
    → IsInBatch pair_id chunk
    → IsInBatch pair_id (p ∷ chunk)
unfolding planned_for
planned_for-later pair_id p chunk (q, e) = (q, rw e refl)

pub All-IsInBatch : (chunk : List PlannedProbe) → All (λ p. IsInBatch p.pair.pair_id chunk) chunk
All-IsInBatch [] = tt
All-IsInBatch (p ∷ ps) = (
  planned_for-IsInBatch p ps,
  All-imp (λ q h. planned_for-later q.pair.pair_id p ps h) ps (All-IsInBatch ps),
)
