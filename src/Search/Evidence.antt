-- ===== src/Search/Evidence.antt =====
-- crates/search/src/semantic_verification.rs (`SemanticEvidence` and the reading of probe results),
-- crates/search/src/semantic_reranking.rs (obligation facts) and crates/worker/src/worker/mod.rs
-- (`ProbePair`, `ProbeResult`).
pub mod Reading
mod Tests
use Prim.Native.String.{◌++◌ as append}
use lean_dup.Base.{
  String, Bool, true, false, ◌&&◌, ◌||◌, not, Option, none, some, List, if◌then◌else◌, ◌==◌,
  contains_text,
}
use lean_dup.Base.Maps.{get_or_default}

pub data SearchSemanticObligationKind : Type 0 where
  exact_theorem_kind : SearchSemanticObligationKind
  permuted_theorem_kind : SearchSemanticObligationKind
  replacement_kind : SearchSemanticObligationKind
  reducible_definition_kind : SearchSemanticObligationKind
  specialization_kind : SearchSemanticObligationKind
  local_duplicate_kind : SearchSemanticObligationKind

pub data SearchSemanticObligationStatus : Type 0 where
  status_planned : SearchSemanticObligationStatus
  status_verified : SearchSemanticObligationStatus
  status_rejected : SearchSemanticObligationStatus
  status_unavailable : SearchSemanticObligationStatus
  status_cached : SearchSemanticObligationStatus

-- `SearchSemanticUnavailableReason`, with the constructors of `UnavailableReason` first.
pub data SearchSemanticUnavailableReason : Type 0 where
  missing_declaration : SearchSemanticUnavailableReason
  unsupported : SearchSemanticUnavailableReason
  opaque_or_unreducible : SearchSemanticUnavailableReason
  timeout : SearchSemanticUnavailableReason
  internal_error : SearchSemanticUnavailableReason
  unknown : SearchSemanticUnavailableReason

pub data EvidenceKind : Type 0 where
  evidence_exact_theorem : EvidenceKind
  evidence_permuted_theorem : EvidenceKind
  evidence_replacement : EvidenceKind
  evidence_reducible_definition : EvidenceKind
  evidence_specialization : EvidenceKind
  evidence_local_duplicate : EvidenceKind
  evidence_unavailable : EvidenceKind

pub data EvidenceStatus : Type 0 where
  verified : EvidenceStatus
  unavailable : EvidenceStatus
  rejected : EvidenceStatus

pub data ProbeObligation : Type 0 where
  exact_theorem : ProbeObligation
  permuted_theorem : ProbeObligation
  replacement : ProbeObligation
  reducible_definition : ProbeObligation
  specialization : ProbeObligation
  local_duplicate : ProbeObligation

pub record ProbePair : Type 0 where
  pub pair_id : String
  pub left_declaration_id : String
  pub right_declaration_id : String

pub record ProbeResult : Type 0 where
  pub pair_id : String
  pub left_declaration_id : String
  pub right_declaration_id : String
  pub status : String
  pub same_statement : Bool
  pub same_up_to_safe_reordering : Bool
  pub connective_equivalent : Bool
  pub specializes_left_to_right : Bool
  pub specializes_right_to_left : Bool
  pub mutual_implication_shape : Bool
  pub same_reducible_definition : Bool
  pub message : Option String

pub record SearchSemanticObligationFact : Type 0 where
  pub kind : SearchSemanticObligationKind
  pub status : SearchSemanticObligationStatus
  pub unavailable_reason : Option SearchSemanticUnavailableReason

pub record SemanticEvidence : Type 0 where
  pub pair_id : String
  pub kind : EvidenceKind
  pub status : EvidenceStatus
  pub obligation : SearchSemanticObligationKind
  pub unavailable_reason : Option SearchSemanticUnavailableReason
  pub summary : Option String

abbrev pub is_verified : EvidenceStatus → Bool
is_verified verified = true
is_verified unavailable = false
is_verified rejected = false

abbrev pub proof_grade : SemanticEvidence → Bool
proof_grade evidence = is_verified evidence.status

abbrev pub fact_status : EvidenceStatus → SearchSemanticObligationStatus
fact_status verified = status_verified
fact_status rejected = status_rejected
fact_status unavailable = status_unavailable

unfoldable pub semantic_obligation_fact : SemanticEvidence → SearchSemanticObligationFact
semantic_obligation_fact evidence = record {
  kind = evidence.obligation;
  status = fact_status evidence.status;
  unavailable_reason = evidence.unavailable_reason;
}

abbrev pub semantic_kind : ProbeObligation → SearchSemanticObligationKind
semantic_kind exact_theorem = exact_theorem_kind
semantic_kind permuted_theorem = permuted_theorem_kind
semantic_kind replacement = replacement_kind
semantic_kind reducible_definition = reducible_definition_kind
semantic_kind specialization = specialization_kind
semantic_kind local_duplicate = local_duplicate_kind

abbrev pub evidence_kind_obligation : EvidenceKind → SearchSemanticObligationKind
evidence_kind_obligation evidence_exact_theorem = exact_theorem_kind
evidence_kind_obligation evidence_permuted_theorem = permuted_theorem_kind
evidence_kind_obligation evidence_replacement = replacement_kind
evidence_kind_obligation evidence_reducible_definition = reducible_definition_kind
evidence_kind_obligation evidence_specialization = specialization_kind
evidence_kind_obligation evidence_local_duplicate = local_duplicate_kind
evidence_kind_obligation evidence_unavailable = local_duplicate_kind

abbrev pub obligation_evidence_kind : ProbeObligation → EvidenceKind
obligation_evidence_kind exact_theorem = evidence_exact_theorem
obligation_evidence_kind permuted_theorem = evidence_permuted_theorem
obligation_evidence_kind replacement = evidence_replacement
obligation_evidence_kind reducible_definition = evidence_reducible_definition
obligation_evidence_kind specialization = evidence_specialization
obligation_evidence_kind local_duplicate = evidence_local_duplicate

unfoldable pub unavailable_reason_from_summary :
    Option String → Option SearchSemanticUnavailableReason
unavailable_reason_from_summary summary =
    let text = get_or_default "" summary in
    if contains_text text "missing-declaration"
      || contains_text text "not available"
      || contains_text text "missing"
    then some missing_declaration
    else if contains_text text "heartbeat" || contains_text text "timeout"
    then some timeout
    else if contains_text text "supports"
        || contains_text text "opaque"
        || contains_text text "unavailable"
        || contains_text text "reducible probe guard"
        || contains_text text "definition body"
    then some opaque_or_unreducible
    else if text == ""
    then none
    else some internal_error

unfoldable pub verified_evidence : ProbeResult → EvidenceKind → SemanticEvidence
verified_evidence result kind = record {
  pair_id = result.pair_id;
  kind = kind;
  status = verified;
  obligation = evidence_kind_obligation kind;
  unavailable_reason = none;
  summary = result.message;
}

unfoldable pub rejected_evidence : String → EvidenceKind → String → SemanticEvidence
rejected_evidence pair_id kind summary = record {
  pair_id = pair_id;
  kind = kind;
  status = rejected;
  obligation = evidence_kind_obligation kind;
  unavailable_reason = none;
  summary = some summary;
}

abbrev pub or_else {ℓ} : {A : Type ℓ} → Option A → Option A → Option A
or_else none other = other
or_else (some a) other = some a

-- The guards of the match in `semantic_evidence`.
abbrev pub discharged : ProbeObligation → ProbeResult → Bool
discharged exact_theorem r = r.same_statement
discharged permuted_theorem r = r.same_up_to_safe_reordering || r.same_statement
discharged replacement r = r.connective_equivalent || r.mutual_implication_shape || r.same_statement
discharged reducible_definition r = r.same_reducible_definition
discharged specialization r =
    r.specializes_left_to_right || r.specializes_right_to_left || r.same_statement
discharged local_duplicate r =
    r.same_statement || r.same_up_to_safe_reordering || r.same_reducible_definition
    || r.mutual_implication_shape

-- The source's function reads the obligation of the planned probe.
unfoldable pub semantic_evidence : ProbeObligation → ProbeResult → SemanticEvidence
semantic_evidence obligation result =
    if not (result.status == "ok")
    then record {
      pair_id = result.pair_id;
      kind = evidence_unavailable;
      status = unavailable;
      obligation = semantic_kind obligation;
      unavailable_reason = unavailable_reason_from_summary result.message;
      summary = or_else result.message (some (append "probe status " result.status));
    }
    else if discharged obligation result
    then verified_evidence result (obligation_evidence_kind obligation)
    else rejected_evidence result.pair_id (obligation_evidence_kind obligation)
        "Lean probe did not verify the planned obligation"
