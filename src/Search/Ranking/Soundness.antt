-- ===== src/Search/Ranking/Soundness.antt =====
-- crates/search/src/ranking.rs: what a group of `rank_pair` can claim.
use lean_dup.Base.{
  String, Bool, true, false, ◌||◌, Option, none, some, List, [], ◌∷◌, ◌≡◌, refl, sym, ◌∙◌, ◌≤◌,
  arith, FloatOps, text_ord, any-one_of, or_intro_left, or_intro_right, if◌then◌else◌, eq_iff,
}
use lean_dup.Base.Maps
use lean_dup.Base.Sets
use lean_dup.Index.Provenance.{requires_semantic_evidence}
use lean_dup.Search.Declaration.{HydratedDeclaration, RetrievedCandidate}
use lean_dup.Search.Evidence.{SemanticEvidence, EvidenceKind}
use lean_dup.Search.Policy.{is_generated, visibility_blockers}
use lean_dup.Search.Policy.Blockers.{contains-insert_if, visibility_blockers_lem}
use lean_dup.Search.Review.{
  Tier, ReviewFilter, ReviewRelation, RankedGroup, relation_rank, is_noise, includes,
}
use lean_dup.Search.Ranking.{RankingInput, verified_kind, is_proof_grade}
use lean_dup.Search.Ranking.Decision.{
  forcing, blockers_force_noise, relation_for, confidence_for, confidence_of_relation,
}
use lean_dup.Search.Ranking.Pair.{
  PairFacts, pair_facts, ranking_score_facts, pair_blockers, rank_pair, remove_if, weak_overlap,
}

unproved :
    (semantic : Option SemanticEvidence) (kind : EvidenceKind)
    → is_proof_grade semantic ≡ false
    → verified_kind semantic kind ≡ false
unproved none kind h = refl
unproved (some evidence) kind h = ground arith

confidence_not_noise :
    (relation : ReviewRelation) → is_noise (confidence_of_relation relation) ≡ false
confidence_not_noise ReviewRelation.exact_statement = refl
confidence_not_noise ReviewRelation.permuted_statement = refl
confidence_not_noise ReviewRelation.connective_equivalent = refl
confidence_not_noise ReviewRelation.specialization_relation = refl
confidence_not_noise ReviewRelation.source_clone = refl
confidence_not_noise ReviewRelation.subsumption_candidate = refl
confidence_not_noise ReviewRelation.near_statement = refl

contains-filter :
    (z blocker : String) (blockers : List String)
    → Sets.same z blocker ≡ false
    → Sets.contains z (remove_if true blocker blockers) ≡ Sets.contains z blockers
unfolding Sets.contains
contains-filter z blocker [] d = refl
contains-filter z blocker (b ∷ bs) d = ground (
  arith,
  contains-filter z blocker bs d,
  Sets.same_iff z b,
  eq_iff b blocker,
  Sets.same_iff z blocker,
)

contains-remove_if :
    (condition : Bool) (z blocker : String) (blockers : List String)
    → Sets.same z blocker ≡ false
    → Sets.contains z (remove_if condition blocker blockers) ≡ Sets.contains z blockers
contains-remove_if true z blocker blockers d = contains-filter z blocker blockers d
contains-remove_if false z blocker blockers d = refl

forced_by :
    (z : String) (blockers : List String) (relation : ReviewRelation) (c p s : Bool)
    → Sets.contains z forcing ≡ true
    → Sets.contains z blockers ≡ true
    → blockers_force_noise blockers relation c p s ≡ true
unfolding blockers_force_noise
forced_by z blockers relation c p s f h =
    rw
      (
        any-one_of forcing blockers,
        Sets.any_of_contains (λ w. Sets.contains w blockers) z forcing f h,
      )
      refl

noise_together :
    (forced : Bool) (relation : ReviewRelation) (priority : Tier)
    → is_noise (if forced then Tier.noise else priority)
      ≡ is_noise (if forced then Tier.noise else confidence_for relation priority)
unfolding confidence_for
noise_together true relation priority = refl
noise_together false relation Tier.noise = refl
noise_together false relation Tier.high = sym (confidence_not_noise relation)
noise_together false relation Tier.medium = sym (confidence_not_noise relation)
noise_together false relation Tier.low = sym (confidence_not_noise relation)

hidden :
    {S : Type 0} (f : ReviewFilter) (group : RankedGroup S)
    → group.review_priority ≡ Tier.noise
    → f.include_diagnostics ≡ false
    → includes f group ≡ false
unfolding includes
hidden f group h d = rw (h, d) refl

when_forced :
    (forced : Bool) (priority : Tier)
    → forced ≡ true
    → (if forced then Tier.noise else priority) ≡ Tier.noise
when_forced forced priority h = rw h refl

generated_forces : Sets.contains "generated-declaration" forcing ≡ true
generated_forces = Sets.contains_head _ _

module _ {S : Type 0} (float : FloatOps S) (suffix : String → List String → String)
    (input : RankingInput S) (anchor : HydratedDeclaration) (candidate : RetrievedCandidate S) where
  -- Without proof-grade evidence, a pair whose evidence must be proved is never ranked as an exact,
  -- permuted, connective or specialised statement, whatever fingerprints it shares.
  pub rank_pair-unproved :
      (requires_semantic_evidence input.comparison_policy anchor.origin
          || requires_semantic_evidence input.comparison_policy candidate.declaration.origin)
        ≡ true
      → is_proof_grade (Maps.get candidate.pair_id input.semantic_evidence) ≡ false
      → 4 ≤ relation_rank (rank_pair float suffix input anchor candidate).relation
  unfolding rank_pair pair_facts relation_for ranking_score_facts
  rank_pair-unproved r h =
      let none_verified = unproved (Maps.get candidate.pair_id input.semantic_evidence) in
      ground (
        arith,
        none_verified EvidenceKind.evidence_exact_theorem h,
        none_verified EvidenceKind.evidence_reducible_definition h,
        none_verified EvidenceKind.evidence_specialization h,
        none_verified EvidenceKind.evidence_permuted_theorem h,
        none_verified EvidenceKind.evidence_replacement h,
      )

  -- The priority of a pair is noise exactly if its confidence is.
  pub rank_pair-noise :
      is_noise (rank_pair float suffix input anchor candidate).review_priority
      ≡ is_noise (rank_pair float suffix input anchor candidate).confidence
  unfolding rank_pair
  rank_pair-noise = noise_together _ _ _

  generated_blocks :
      (is_generated anchor || is_generated candidate.declaration) ≡ true
      → Sets.contains "generated-declaration"
          (visibility_blockers candidate.contributions anchor candidate.declaration)
        ≡ true
  generated_blocks g =
      visibility_blockers_lem candidate.contributions anchor candidate.declaration
        "generated-declaration"
      ∙ ground arith

  blocked :
      (f : PairFacts)
      → (is_generated anchor || is_generated candidate.declaration) ≡ true
      → Sets.contains "generated-declaration" (pair_blockers float suffix input anchor candidate f)
        ≡ true
  unfolding pair_blockers
  blocked f g =
      let z : String = "generated-declaration" in
      contains-insert_if z (weak_overlap float suffix f) "weak-feature-overlap" _
      ∙ or_intro_right _ _ (
          contains-remove_if (f.source_clone || f.proof_found) z "non-theorem-static-only" _ refl
          ∙ Sets.contains-extend z _ _
          ∙ or_intro_left _ _ (generated_blocks g))

  -- A pair with a generated declaration is hidden by every filter that leaves diagnostics out, also by
  -- one that includes generated declarations.
  pub rank_pair-generated :
      (f : ReviewFilter)
      → (is_generated anchor || is_generated candidate.declaration) ≡ true
      → f.include_diagnostics ≡ false
      → includes f (rank_pair float suffix input anchor candidate) ≡ false
  unfolding rank_pair
  rank_pair-generated f g d =
      let b = blocked (pair_facts float suffix input anchor candidate) g in
      hidden f _ (when_forced _ _ (forced_by "generated-declaration" _ _ _ _ _ generated_forces b))
        d
