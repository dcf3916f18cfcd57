-- ===== src/Index/Provenance/Resolve/Tests.antt =====
-- crates/index/src/external_provenance.rs: an index of the audited environment, which is reached
-- under two paths, one of another environment, and one without sources.
use lean_dup.Base.{
  ◌≡◌, refl, String, Bool, true, false, Option, none, some, List, [], ◌∷◌, map, inr, ◌==◌,
  if◌then◌else◌, Ends, Attempt, done, failed, panicked,
}
use lean_dup.Base.Maps
use lean_dup.Index.Closure.{FilePath}
use lean_dup.Index.Opened.{OpenedIndex, IndexProvenanceKind}
use lean_dup.Index.Provenance.{ComparisonEvidenceMode, requires_semantic_evidence, evidence_mode}
use lean_dup.Index.Provenance.Resolve.{ComparisonProvenance, resolve_facts, resolve_onto, resolve}
use lean_dup.Index.Provenance.Resolve.Judged.{IsResolved, resolve-IsResolved}

-- `/link` leads to `/work`.
abbrev canonicalize : FilePath → Option FilePath
canonicalize [] = none
canonicalize (part ∷ parts) = if part == "link" then some ("work" ∷ parts) else none

abbrev opened : String → IndexProvenanceKind → Option FilePath → OpenedIndex String
opened origin kind root = record {
  facts = inr (record {
    origin = origin;
    label = none;
    declaration_count = 0;
    path = [];
    provenance = record {
      version = "1";
      kind = kind;
      source_root = root;
      execution_root = root;
      execution_policy = "lake";
      module_root = "";
      protocol_version = none;
      worker_version = none;
      extract_version = none;
      features_version = none;
      probe_version = none;
    };
  });
  feature_fanout = λ keys. inr [];
  handles_matching_features = λ keys. inr [];
  hydrate = λ handles. inr [];
}

abbrev indexes : List (OpenedIndex String)
indexes =
    opened "own" IndexProvenanceKind.source_backed (some ("link" ∷ []))
    ∷ opened "far" IndexProvenanceKind.source_backed (some ("other" ∷ []))
    ∷ opened "old" IndexProvenanceKind.static_index (some ("work" ∷ []))
    ∷ []

abbrev proof_grade : Attempt String ComparisonProvenance → List Bool
proof_grade (done p) =
    map (requires_semantic_evidence p.policy) ("own" ∷ "far" ∷ "old" ∷ "new" ∷ [])
proof_grade (failed e) = []
proof_grade panicked = []

only_own :
    proof_grade (resolve canonicalize ("work" ∷ []) indexes) ≡ true ∷ false ∷ false ∷ false ∷ []
unfolding resolve_onto resolve_facts requires_semantic_evidence evidence_mode Maps.get Maps.insert
only_own = refl

resolve-IsResolved_example :
    Ends
      (IsResolved canonicalize ("work" ∷ []) indexes "own" ComparisonEvidenceMode.static_evidence)
      (resolve canonicalize ("work" ∷ []) indexes)
resolve-IsResolved_example = resolve-IsResolved canonicalize ("work" ∷ []) indexes "own"
