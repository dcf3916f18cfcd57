-- ===== src/Index/Provenance/Resolve.antt =====
-- crates/index/src/external_provenance.rs: the comparison policy of an audit, from the facts of the
-- opened indexes. `canonicalize` of the file system is a parameter.
mod Judged
mod Tests
use lean_dup.Base.{
  ℕ, String, Bool, Option, none, some, List, [], ◌∷◌, if◌then◌else◌, text_ord, list_ord, Attempt,
  done, ◌>>=◌, ask,
}
use lean_dup.Base.Maps
use lean_dup.Base.Sets.{same}
use lean_dup.Index.Closure.{FilePath}
use lean_dup.Index.Opened.{OpenedIndex, OpenedIndexFacts, IndexProvenance, IndexProvenanceKind}
use lean_dup.Index.Provenance.{ComparisonEvidenceMode, ComparisonEvidencePolicy, OriginPolicy}

pub record ComparisonProvenanceReport : Type 0 where
  pub label : Option String
  pub origin : String
  pub evidence_mode : ComparisonEvidenceMode
  pub declaration_count : ℕ
  pub index_path : FilePath
  pub source_root : Option FilePath
  pub execution_root : Option FilePath
  pub execution_policy : String
  pub reason : String

pub record ComparisonProvenance : Type 0 where
  pub reports : List ComparisonProvenanceReport
  pub policy : ComparisonEvidencePolicy

abbrev pub path_or : FilePath → Option FilePath → FilePath
path_or path none = path
path_or path (some resolved) = resolved

-- The file system, and the root of the workspace that is audited.
module _ (canonicalize : FilePath → Option FilePath) (audit_root : FilePath) where
  abbrev pub canonical : FilePath → FilePath
  canonical path = path_or path (canonicalize path)

  abbrev pub same_path : FilePath → FilePath → Bool
  same_path left right = same (canonical left) (canonical right)

  abbrev pub is_here : Option FilePath → Bool
  is_here none = Bool.false
  is_here (some root) = same_path root audit_root

  abbrev pub judge : IndexProvenanceKind → Option FilePath → ComparisonEvidenceMode × String
  judge IndexProvenanceKind.static_index execution_root = (
    ComparisonEvidenceMode.static_evidence, "index has no source provenance; using static evidence",
  )
  judge IndexProvenanceKind.source_backed execution_root =
      if is_here execution_root
      then (
        ComparisonEvidenceMode.proof_grade_evidence,
        "source-backed index is importable from this audit Lake environment",
      )
      else (
        ComparisonEvidenceMode.source_backed_not_importable,
        "source-backed index was built in a different Lake environment; using static evidence",
      )

  unfoldable pub resolve_facts : OpenedIndexFacts → ComparisonProvenanceReport
  resolve_facts facts =
      let (mode, reason) = judge facts.provenance.kind facts.provenance.execution_root in
      record {
        label = facts.label;
        origin = facts.origin;
        evidence_mode = mode;
        declaration_count = facts.declaration_count;
        index_path = facts.path;
        source_root = facts.provenance.source_root;
        execution_root = facts.provenance.execution_root;
        execution_policy = facts.provenance.execution_policy;
        reason = reason;
      }

  abbrev pub enter :
      ComparisonProvenanceReport → ComparisonEvidencePolicy → ComparisonEvidencePolicy
  enter resolved policy =
      Maps.insert resolved.origin
        (record { mode = resolved.evidence_mode; source_root = resolved.source_root }) policy

  -- The loop over the indexes that are left, with the policy so far.
  unfoldable pub resolve_onto :
      {E : Type 0}
      → List (OpenedIndex E)
      → ComparisonEvidencePolicy
      → Attempt E ComparisonProvenance
  resolve_onto [] policy = done (record { reports = []; policy = policy })
  resolve_onto (index ∷ indexes) policy = do
    facts ← ask index.facts
    let resolved = resolve_facts facts
    rest ← resolve_onto indexes (enter resolved policy)
    done (record { reports = resolved ∷ rest.reports; policy = rest.policy })

  abbrev pub resolve : {E : Type 0} → List (OpenedIndex E) → Attempt E ComparisonProvenance
  resolve indexes = resolve_onto indexes []
