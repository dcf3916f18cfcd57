-- ===== src/Search/Evidence/Reading.antt =====
-- crates/search/src/semantic_verification.rs: what `semantic_evidence` makes of a probe result.
use lean_dup.Base.{
  Bool, true, false, ◌&&◌, not, List, [], ◌∷◌, any, ◌≡◌, refl, sym, ◌∙◌, inl, inr, ◌==◌, Bool-cases,
  arith,
}
use lean_dup.Search.Evidence.{
  ProbeObligation, ProbeResult, EvidenceStatus, proof_grade, semantic_kind,
  evidence_kind_obligation, obligation_evidence_kind, verified_evidence, rejected_evidence,
  discharged, semantic_evidence,
}

abbrev pub is_unavailable : EvidenceStatus → Bool
is_unavailable EvidenceStatus.verified = false
is_unavailable EvidenceStatus.unavailable = true
is_unavailable EvidenceStatus.rejected = false

round_trip :
    (obligation : ProbeObligation)
    → evidence_kind_obligation (obligation_evidence_kind obligation) ≡ semantic_kind obligation
round_trip ProbeObligation.exact_theorem = refl
round_trip ProbeObligation.permuted_theorem = refl
round_trip ProbeObligation.replacement = refl
round_trip ProbeObligation.reducible_definition = refl
round_trip ProbeObligation.specialization = refl
round_trip ProbeObligation.local_duplicate = refl

-- What a worker can report of a pair.
pub data Flag : Type 0 where
  statement : Flag
  reordering : Flag
  connectives : Flag
  left_to_right : Flag
  right_to_left : Flag
  both_ways : Flag
  definition : Flag

abbrev pub reports : ProbeResult → Flag → Bool
reports r Flag.statement = r.same_statement
reports r Flag.reordering = r.same_up_to_safe_reordering
reports r Flag.connectives = r.connective_equivalent
reports r Flag.left_to_right = r.specializes_left_to_right
reports r Flag.right_to_left = r.specializes_right_to_left
reports r Flag.both_ways = r.mutual_implication_shape
reports r Flag.definition = r.same_reducible_definition

-- The reports each of which proves an obligation: the same statement proves all but the equality of
-- definitions, and a weaker report only the obligations that ask for no more.
abbrev pub proofs_of : ProbeObligation → List Flag
proofs_of ProbeObligation.exact_theorem = Flag.statement ∷ []
proofs_of ProbeObligation.permuted_theorem = Flag.statement ∷ Flag.reordering ∷ []
proofs_of ProbeObligation.replacement = Flag.statement ∷ Flag.connectives ∷ Flag.both_ways ∷ []
proofs_of ProbeObligation.reducible_definition = Flag.definition ∷ []
proofs_of ProbeObligation.specialization =
    Flag.statement ∷ Flag.left_to_right ∷ Flag.right_to_left ∷ []
proofs_of ProbeObligation.local_duplicate =
    Flag.statement ∷ Flag.reordering ∷ Flag.both_ways ∷ Flag.definition ∷ []

discharged_lem :
    (obligation : ProbeObligation) (r : ProbeResult)
    → discharged obligation r ≡ any (reports r) (proofs_of obligation)
discharged_lem ProbeObligation.exact_theorem r = ground arith
discharged_lem ProbeObligation.permuted_theorem r = ground arith
discharged_lem ProbeObligation.replacement r = ground arith
discharged_lem ProbeObligation.reducible_definition r = ground arith
discharged_lem ProbeObligation.specialization r = ground arith
discharged_lem ProbeObligation.local_duplicate r = ground arith

-- Whatever the probe answers, the evidence is about the pair of the answer and about the obligation
-- that was planned. It is proof grade exactly if the status is ok and the answer has one of the
-- reports that prove the obligation: the same statement for all but the equality of definitions,
-- and else the same statement up to reordering for a permuted theorem or a local duplicate, the
-- equivalence of connectives for a replacement, an implication of either direction for a
-- specialization, the same definition for the equality of definitions or a local duplicate, and
-- mutual implication for a replacement or a local duplicate. It is unavailable exactly if the
-- status is not ok, so that a failing probe is never a rejection.
pub semantic_evidence_lem :
    (obligation : ProbeObligation) (result : ProbeResult)
    → ((semantic_evidence obligation result).pair_id ≡ result.pair_id)
      × ((semantic_evidence obligation result).obligation ≡ semantic_kind obligation)
      × (proof_grade (semantic_evidence obligation result)
          ≡ ((result.status == "ok") && any (reports result) (proofs_of obligation)))
      × (is_unavailable (semantic_evidence obligation result).status ≡ not (result.status == "ok"))
unfolding semantic_evidence verified_evidence rejected_evidence
semantic_evidence_lem obligation result = elim (Bool-cases (result.status == "ok")) [
  | inr e ↦ rw e (refl, refl, refl, refl)
  | inl e ↦ elim (Bool-cases (discharged obligation result)) [
    | inl d ↦
        rw (e, d) (refl, round_trip obligation, sym d ∙ discharged_lem obligation result, refl)
    | inr d ↦
        rw (e, d) (refl, round_trip obligation, sym d ∙ discharged_lem obligation result, refl)
  ]
]
