-- ===== src/Search/Ranking/Pair.antt =====
-- crates/search/src/ranking.rs: `rank_pair`.
use Prim.Native.String.{◌++◌ as append}
use lean_dup.Base.{
  String, Bool, ◌&&◌, ◌||◌, not, Option, none, some, List, [], ◌∷◌, map, filter, ltb, if◌then◌else◌,
  ◌==◌, FloatOps, text_ord, sort_by, by_key,
}
use lean_dup.Base.Maps
use lean_dup.Base.Sets
use mathlib.Core.Option
use lean_dup.Index.Provenance.{requires_semantic_evidence}
use lean_dup.Search.Declaration.{
  HydratedDeclaration, KeyContribution, RetrievedCandidate, has_contribution,
}
use lean_dup.Search.Evidence.{
  EvidenceKind, EvidenceStatus, SemanticEvidence, semantic_obligation_fact,
  SearchSemanticObligationFact,
}
use lean_dup.Search.Policy.{
  theorem_like, visibility_blockers, strong_low_signal_symbolic_support, insert_if,
}
use lean_dup.Search.Review.{ReviewRelation, Tier, tier_rank, ReviewEvidence, RankedGroup}
use lean_dup.Search.Ranking.{
  RankingInput, RankingScoreFacts, verified_kind, is_proof_grade, same_source_fingerprint,
  recommended_target, target_module, local_caller_count, local_import_status, member,
  semantic_signals, semantic_summary, review_evidence_mode,
}
use lean_dup.Search.Ranking.Decision.{
  relation_for, blockers_force_noise, priority_for, confidence_for, action_for,
}

abbrev pub relation_label : ReviewRelation → String
relation_label ReviewRelation.exact_statement = "exact-statement"
relation_label ReviewRelation.permuted_statement = "permuted-statement"
relation_label ReviewRelation.connective_equivalent = "connective-equivalent"
relation_label ReviewRelation.specialization_relation = "specialization"
relation_label ReviewRelation.source_clone = "source-clone"
relation_label ReviewRelation.subsumption_candidate = "subsumption-candidate"
relation_label ReviewRelation.near_statement = "near-statement"

-- `blockers.remove(blocker)`, if the condition holds.
abbrev pub remove_if : Bool → String → List String → List String
remove_if condition blocker blockers =
    if condition then filter (λ b. not (b == blocker)) blockers else blockers

abbrev pub status_blocker : EvidenceStatus → List String
status_blocker EvidenceStatus.unavailable = "lean-probe-unavailable" ∷ []
status_blocker EvidenceStatus.rejected = "lean-probe-rejected" ∷ []
status_blocker EvidenceStatus.verified = []

abbrev pub probe_blockers : Option SemanticEvidence → List String
probe_blockers none = []
probe_blockers (some evidence) = status_blocker evidence.status

abbrev pub probe_signals : Option SemanticEvidence → List String
probe_signals none = []
probe_signals (some evidence) = semantic_signals evidence

abbrev pub obligation_facts : Option SemanticEvidence → List SearchSemanticObligationFact
obligation_facts none = []
obligation_facts (some evidence) = semantic_obligation_fact evidence ∷ []

abbrev pub summary_of : Option SemanticEvidence → Option String
summary_of none = none
summary_of (some evidence) = semantic_summary evidence

unfoldable pub review_evidence : {S : Type 0} → List (KeyContribution S) → List (ReviewEvidence S)
review_evidence contributions =
    map (λ c. record { kind = c.kind; role = c.role; display = c.display; score = c.score })
      contributions

-- The Boolean variables of `rank_pair`.
pub record PairFacts : Type 0 where
  pub source_clone : Bool
  pub has_mathlib : Bool
  pub semantic_required : Bool
  pub proof_found : Bool
  pub exact : Bool
  pub specialization : Bool
  pub permuted : Bool
  pub connective : Bool
  pub near : Bool
  pub strong_static : Bool

-- `float` computes on scores; `suffix` is the hexadecimal digest of the relation and the sorted
-- declaration identities, cut to twelve digits.
module _ {S : Type 0} (float : FloatOps S) (suffix : String → List String → String) where
  unfoldable pub stable_group_id :
      HydratedDeclaration → HydratedDeclaration → ReviewRelation → String
  stable_group_id anchor candidate relation =
      let member_ids =
        sort_by (by_key {K = String} (λ id. id))
          (anchor.declaration_id ∷ candidate.declaration_id ∷ []) in
      append (relation_label relation) (append "-" (suffix (relation_label relation) member_ids))

  unfoldable pub ranking_score_facts : RetrievedCandidate S → Bool → Bool → RankingScoreFacts
  ranking_score_facts candidate theorem_pair static_evidence_allowed =
      let has_statement = has_contribution candidate.contributions "statement-fingerprint" in
      let has_permutation =
        has_contribution candidate.contributions "safe-permutation-fingerprint" in
      let has_connective = has_contribution candidate.contributions "connective-fingerprint" in
      let has_conclusion = has_contribution candidate.contributions "conclusion-fingerprint" in
      record {
        exact_static = static_evidence_allowed && theorem_pair && has_statement;
        permuted_static = static_evidence_allowed && theorem_pair && has_permutation;
        connective_static = static_evidence_allowed && theorem_pair && has_connective;
        near = float.at_least candidate.score (float.literal 24) || has_conclusion;
        strong_static_semantic_candidate = has_statement || has_permutation || has_connective;
      }

  unfoldable pub pair_facts :
      RankingInput S → HydratedDeclaration → RetrievedCandidate S → PairFacts
  pair_facts input anchor candidate =
      let semantic = Maps.get candidate.pair_id input.semantic_evidence in
      let theorem_pair = theorem_like anchor && theorem_like candidate.declaration in
      let verified_exact =
        verified_kind semantic EvidenceKind.evidence_exact_theorem
        || verified_kind semantic EvidenceKind.evidence_reducible_definition in
      let specialization =
        theorem_pair && verified_kind semantic EvidenceKind.evidence_specialization in
      let verified_permuted = verified_kind semantic EvidenceKind.evidence_permuted_theorem in
      let verified_replacement = verified_kind semantic EvidenceKind.evidence_replacement in
      let semantic_required =
        requires_semantic_evidence input.comparison_policy anchor.origin
        || requires_semantic_evidence input.comparison_policy candidate.declaration.origin in
      let score_facts = ranking_score_facts candidate theorem_pair (not semantic_required) in
      record {
        source_clone = same_source_fingerprint anchor candidate.declaration input.source_facts;
        has_mathlib = (candidate.declaration.origin == "mathlib") || (anchor.origin == "mathlib");
        semantic_required = semantic_required;
        proof_found = verified_exact || specialization || verified_permuted || verified_replacement;
        exact = verified_exact || score_facts.exact_static;
        specialization = specialization;
        permuted = verified_permuted || score_facts.permuted_static;
        connective = verified_replacement || score_facts.connective_static;
        near = score_facts.near;
        strong_static = score_facts.strong_static_semantic_candidate;
      }

  abbrev pub relation_of_facts : PairFacts → ReviewRelation
  relation_of_facts f =
      relation_for f.exact f.specialization f.permuted f.connective f.source_clone f.near

  abbrev pub weak_overlap : PairFacts → Bool
  weak_overlap f =
      not f.exact
      && not f.permuted
      && not f.connective
      && not f.specialization
      && not f.source_clone
      && not f.near

  unfoldable pub pair_blockers :
      RankingInput S → HydratedDeclaration → RetrievedCandidate S → PairFacts → List String
  pair_blockers input anchor candidate f =
      let semantic = Maps.get candidate.pair_id input.semantic_evidence in
      let probed = Sets.extend (probe_blockers semantic) [] in
      let checked =
        insert_if (f.semantic_required && f.strong_static && not (is_proof_grade semantic))
          "unverified-proof-grade-evidence" probed in
      let policed =
        Sets.extend (visibility_blockers candidate.contributions anchor candidate.declaration)
          checked in
      insert_if (weak_overlap f) "weak-feature-overlap"
        (remove_if (f.source_clone || f.proof_found) "non-theorem-static-only" policed)

  unfoldable pub pair_signals : RankingInput S → RetrievedCandidate S → PairFacts → List String
  pair_signals input candidate f =
      let semantic = Maps.get candidate.pair_id input.semantic_evidence in
      insert_if f.source_clone "source-clone" (
        Sets.extend (probe_signals semantic)
          (Sets.extend (map (λ c. c.kind) candidate.contributions) []))

  abbrev pub demote_low_signal : List String → Tier → Tier
  demote_low_signal blockers priority =
      if Sets.contains "low-signal-declaration" blockers && ltb (tier_rank priority) 2
      then Tier.low
      else priority

  unfoldable pub rank_pair :
      RankingInput S → HydratedDeclaration → RetrievedCandidate S → RankedGroup S
  rank_pair input anchor candidate =
      let semantic = Maps.get candidate.pair_id input.semantic_evidence in
      let f = pair_facts input anchor candidate in
      let relation = relation_of_facts f in
      let blockers = pair_blockers input anchor candidate f in
      let target = recommended_target anchor candidate.declaration in
      let callers = local_caller_count anchor candidate.declaration input.source_facts in
      let import_status =
        Option.map
          (λ name. local_import_status anchor candidate.declaration name input.source_facts)
          (target_module target) in
      let priority = demote_low_signal blockers (
        priority_for relation f.has_mathlib blockers
          (float.less candidate.score input.min_near_score)) in
      let forced =
        blockers_force_noise blockers relation f.source_clone f.proof_found
          (strong_low_signal_symbolic_support candidate.contributions) in
      record {
        id = stable_group_id anchor candidate.declaration relation;
        pair_id = candidate.pair_id;
        relation = relation;
        members = member anchor ∷ member candidate.declaration ∷ [];
        evidence = review_evidence candidate.contributions;
        signals = pair_signals input candidate f;
        blockers = blockers;
        confidence = if forced then Tier.noise else confidence_for relation priority;
        review_priority = if forced then Tier.noise else priority;
        recommended_action =
            action_for relation f.has_mathlib callers import_status
              input.transitional_alias_callers;
        target_decl = some target.qualified_name;
        target_module = some target.module_name;
        evidence_mode =
            review_evidence_mode anchor.origin candidate.declaration.origin semantic
              input.comparison_policy;
        probe_summary = summary_of semantic;
        semantic_obligations = obligation_facts semantic;
        local_caller_count = callers;
        replacement_hint = none;
      }
