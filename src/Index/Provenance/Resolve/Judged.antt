-- ===== src/Index/Provenance/Resolve/Judged.antt =====
-- crates/index/src/external_provenance.rs: which origins are of proof grade.
use lean_dup.Base.{
  ◌≡◌, refl, ap, ◌∙◌, String, Bool, true, false, ◌&&◌, Option, List, [], ◌∷◌, some, inl, inr, ◌⊎◌,
  if◌then◌else◌, Bool-cases, text_ord, Ends, Ends->>=, ask,
}
use lean_dup.Base.Maps
use lean_dup.Base.Sets.{same}
use lean_dup.Index.Closure.{FilePath}
use lean_dup.Index.Opened.{OpenedIndex, OpenedIndexFacts, IndexProvenanceKind}
use lean_dup.Index.Provenance.{
  ComparisonEvidenceMode, ComparisonEvidencePolicy, OriginPolicy, mode_of, evidence_mode,
  is_proof_grade,
}
use lean_dup.Index.Provenance.Resolve.{
  ComparisonProvenanceReport, ComparisonProvenance, is_here, judge, resolve_facts, enter,
  resolve_onto, resolve,
}

abbrev pub is_source_backed : IndexProvenanceKind → Bool
is_source_backed IndexProvenanceKind.static_index = false
is_source_backed IndexProvenanceKind.source_backed = true

-- The mode of the last report on an origin; `mode` if there is none.
abbrev pub last_mode :
    String → ComparisonEvidenceMode → List ComparisonProvenanceReport → ComparisonEvidenceMode
last_mode origin mode [] = mode
last_mode origin mode (r ∷ rs) =
    last_mode origin (if same origin r.origin then r.evidence_mode else mode) rs

mode_of-if :
    (b : Bool) (policy : OriginPolicy) (other : Option OriginPolicy)
    → mode_of (if b then some policy else other) ≡ (if b then policy.mode else mode_of other)
mode_of-if true policy other = refl
mode_of-if false policy other = refl

ask-value : {E A : Type 0} (m : E ⊎ A) → Ends (λ a. m ≡ inr a) (ask m)
ask-value (inl e) = tt
ask-value (inr a) = refl

module _ (canonicalize : FilePath → Option FilePath) (audit_root : FilePath) where
  evidence_mode-enter :
      (origin : String) (r : ComparisonProvenanceReport) (policy : ComparisonEvidencePolicy)
      → evidence_mode (enter canonicalize audit_root r policy) origin
        ≡ (if same origin r.origin then r.evidence_mode else evidence_mode policy origin)
  unfolding evidence_mode
  evidence_mode-enter origin r policy =
      ap mode_of (Maps.get-insert origin r.origin _ policy) ∙ mode_of-if (same origin r.origin) _ _

  is_proof_grade-judge :
      (kind : IndexProvenanceKind) (root : Option FilePath)
      → is_proof_grade (judge canonicalize audit_root kind root).0
        ≡ (is_source_backed kind && is_here canonicalize audit_root root)
  is_proof_grade-judge IndexProvenanceKind.static_index root = refl
  is_proof_grade-judge IndexProvenanceKind.source_backed root =
      elim (Bool-cases (is_here canonicalize audit_root root)) [
        | inl here ↦ rw here refl
        | inr elsewhere ↦ rw elsewhere refl
      ]

  -- The report is of the index, and of proof grade exactly if the index has sources and was built
  -- in the workspace of the audit.
  abbrev pub IsJudged : {E : Type 0} → OpenedIndex E → ComparisonProvenanceReport → Type 0
  IsJudged index report =
      (facts : OpenedIndexFacts) × (index.facts ≡ inr facts)
      × (report.origin ≡ facts.origin)
      × (is_proof_grade report.evidence_mode ≡ (
          is_source_backed facts.provenance.kind
          && is_here canonicalize audit_root facts.provenance.execution_root))

  abbrev pub AreJudged :
      {E : Type 0} → List (OpenedIndex E) → List ComparisonProvenanceReport → Type 0
  AreJudged [] [] = Unit
  AreJudged [] (r ∷ rs) = ⊥
  AreJudged (i ∷ is) [] = ⊥
  AreJudged (i ∷ is) (r ∷ rs) = IsJudged i r × AreJudged is rs

  resolve_facts-IsJudged :
      {E : Type 0} (index : OpenedIndex E) (facts : OpenedIndexFacts)
      → index.facts ≡ inr facts
      → IsJudged index (resolve_facts canonicalize audit_root facts)
  unfolding resolve_facts
  resolve_facts-IsJudged index facts h =
      (facts, h, refl, is_proof_grade-judge facts.provenance.kind facts.provenance.execution_root)

  abbrev pub IsResolved :
      {E : Type 0}
      → List (OpenedIndex E)
      → String
      → ComparisonEvidenceMode
      → ComparisonProvenance
      → Type 0
  IsResolved indexes origin mode p =
      (evidence_mode p.policy origin ≡ last_mode origin mode p.reports)
      × AreJudged indexes p.reports

  resolve_onto-IsResolved :
      {E : Type 0} (indexes : List (OpenedIndex E)) (policy : ComparisonEvidencePolicy)
      (origin : String)
      → Ends
          (IsResolved indexes origin (evidence_mode policy origin))
          (resolve_onto canonicalize audit_root indexes policy)
  unfolding resolve_onto
  resolve_onto-IsResolved [] policy origin = (refl, tt)
  resolve_onto-IsResolved (index ∷ indexes) policy origin =
      let every = IsResolved (index ∷ indexes) origin (evidence_mode policy origin) in
      Ends->>= (λ facts. index.facts ≡ inr facts) every (ask index.facts) _ (ask-value index.facts)
        (λ facts h.
          let report = resolve_facts canonicalize audit_root facts in
          let next = enter canonicalize audit_root report policy in
          Ends->>= (IsResolved indexes origin (evidence_mode next origin)) every
            (resolve_onto canonicalize audit_root indexes next) _
            (resolve_onto-IsResolved indexes next origin)
            (λ rest k. (
              k.0
                  ∙ ap (λ m. last_mode origin m rest.reports)
                      (evidence_mode-enter origin report policy),
              (resolve_facts-IsJudged index facts h, k.1),
            )))

-- Resolving the comparison indexes does not panic, and where it returns, there is a report for
-- each index in their order, under the origin of the index, and of proof grade exactly if the
-- index has sources and was built in the workspace of the audit; an origin has the mode of the
-- last report on it, and static evidence if there is none.
pub resolve-IsResolved :
    {E : Type 0} (canonicalize : FilePath → Option FilePath) (audit_root : FilePath)
    (indexes : List (OpenedIndex E)) (origin : String)
    → Ends
        (IsResolved canonicalize audit_root indexes origin ComparisonEvidenceMode.static_evidence)
        (resolve canonicalize audit_root indexes)
resolve-IsResolved canonicalize audit_root indexes origin =
    unfold evidence_mode in
    unfold Maps.get in resolve_onto-IsResolved canonicalize audit_root indexes [] origin
