-- ===== src/Search/Evidence/Tests.antt =====
-- crates/search/src/semantic_verification.rs: readings of concrete probe results.
use lean_dup.Base.{true, false, ◌≡◌, refl}
use lean_dup.Search.Samples.{pair, row}
use lean_dup.Search.Evidence.{
  ProbeObligation, proof_grade, semantic_kind, semantic_evidence, verified_evidence,
}
use lean_dup.Search.Evidence.Reading.{is_unavailable, semantic_evidence_lem}

proved : proof_grade (semantic_evidence ProbeObligation.exact_theorem (row (pair "a" "b"))) ≡ true
unfolding semantic_evidence verified_evidence
proved = refl

semantic_evidence_lem_example :
    ((semantic_evidence ProbeObligation.exact_theorem (row (pair "a" "b"))).pair_id ≡ "a")
    × ((semantic_evidence ProbeObligation.exact_theorem (row (pair "a" "b"))).obligation
        ≡ semantic_kind ProbeObligation.exact_theorem)
    × (proof_grade (semantic_evidence ProbeObligation.exact_theorem (row (pair "a" "b"))) ≡ true)
    × (is_unavailable (semantic_evidence ProbeObligation.exact_theorem (row (pair "a" "b"))).status
        ≡ false)
semantic_evidence_lem_example =
    semantic_evidence_lem ProbeObligation.exact_theorem (row (pair "a" "b"))
