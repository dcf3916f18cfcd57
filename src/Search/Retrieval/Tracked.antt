-- ===== src/Search/Retrieval/Tracked.antt =====
-- crates/search/src/retrieval.rs: `tracked_pair_policy_evidence`, which says for one pair what
-- retrieval would find, or which postings it would not expand.
use lean_dup.Base.{
  ℕ, String, Bool, false, ◌&&◌, ◌||◌, not, Option, none, some, List, [], ◌∷◌, ◌++◌, map, length,
  ltb, nat_eq, any, if◌then◌else◌, Attempt, done, ask, ◌>>=◌,
}
use lean_dup.Base.Maps
use lean_dup.Base.Maps.{get_or_default}
use lean_dup.Base.Sets.{same}
use lean_dup.Search.Declaration.{
  HydratedDeclaration, KeyContribution, CandidateSourceEvidence, CandidateSourceFamily,
}
use lean_dup.Index.Opened.{SemanticFeatureKey, OpenedIndex, OpenedIndexFacts, feature_key_ord}
use lean_dup.Search.Retrieval.Keys.{
  PlannedKey, planned_keys, sorted_plans, posting_limit, prune_reason_for_plan, feature_family,
}
use lean_dup.Search.Retrieval.State.{
  ScoreOps, CandidateGenerationPolicy, label, policy_for_external,
}
use lean_dup.Search.Retrieval.Accumulate.{
  rarity_weight, merge_contribution, local_postings, local_counts,
}
use lean_dup.Search.Retrieval.Select.{generated_pair_source_evidence, values}

pub data CandidateLossStage : Type 0 where
  fanout_pruned : CandidateLossStage

pub record CandidateLossEvidence : Type 0 where
  pub source_id : String
  pub source_family : CandidateSourceFamily
  pub loss_stage : CandidateLossStage
  pub policy : String
  pub source : String
  pub reason : String
  pub feature_family : String
  pub count : ℕ

pub record GeneratedPairEvidence (S : Type 0) : Type 0 where
  pub policy : String
  pub contributions : List (KeyContribution S)
  pub source_evidence : List CandidateSourceEvidence

pub record TrackedPairPolicyEvidence (S : Type 0) : Type 0 where
  pub generated : Option (GeneratedPairEvidence S)
  pub losses : List CandidateLossEvidence

-- The variables of the loop.
pub record Tracking (S : Type 0) : Type 0 where
  pub contributions : List (String × KeyContribution S)
  pub losses : List CandidateLossEvidence
  pub admitted : Bool

abbrev pub External : Type 0 → Type 0
External E = Option (OpenedIndex E × OpenedIndexFacts)

abbrev pub policy_of : {E : Type 0} → External E → CandidateGenerationPolicy
policy_of none = CandidateGenerationPolicy.local_duplicate_audit
policy_of (some (opened, facts)) = policy_for_external facts

abbrev pub source_of : {E : Type 0} → External E → String
source_of none = "workspace"
source_of (some (opened, facts)) = facts.origin

abbrev pub documents : {E : Type 0} → List HydratedDeclaration → External E → ℕ
documents declarations none = length declarations
documents declarations (some (opened, facts)) = facts.declaration_count

module _ {E S M : Type 0} (ops : ScoreOps S M) (declarations : List HydratedDeclaration)
    (external : External E) where
  abbrev pub local_count : SemanticFeatureKey → ℕ
  local_count key =
      get_or_default 0
        (Maps.get key (local_counts (local_postings (map (planned_keys ops.float) declarations))))

  abbrev pub count_in : SemanticFeatureKey → External E → Attempt E ℕ
  count_in key none = done (local_count key)
  count_in key (some (opened, facts)) = do
    fanout ← ask (opened.feature_fanout (key ∷ []))
    done (get_or_default 0 (Maps.get key fanout))

  abbrev pub loss_of : PlannedKey S → ℕ → CandidateLossEvidence
  loss_of plan count = record {
    source_id = "symbolic-retrieval";
    source_family = CandidateSourceFamily.symbolic;
    loss_stage = fanout_pruned;
    policy = label (policy_of external);
    source = source_of external;
    reason = prune_reason_for_plan plan;
    feature_family = feature_family plan.contribution;
    count = count;
  }

  abbrev pub track_counted : PlannedKey S → ℕ → Tracking S → Tracking S
  track_counted plan count t =
      let score =
        ops.multiply plan.base_weight (rarity_weight ops (documents declarations external) count) in
      if ltb (posting_limit plan) count
      then record t { losses = t.losses ++ (loss_of plan count ∷ []) }
      else if nat_eq count 0 || not plan.admits_candidate && not t.admitted
      then t
      else record t {
        admitted = t.admitted || plan.admits_candidate;
        contributions = merge_contribution ops plan.contribution score t.contributions;
      }

  unfoldable pub track :
      List SemanticFeatureKey → List (PlannedKey S) → Tracking S → Attempt E (Tracking S)
  track candidate_keys [] t = done t
  track candidate_keys (plan ∷ plans) t =
      let skipped = track candidate_keys plans t in
      let counted = count_in plan.key external >>= λ count.
      track candidate_keys plans (track_counted plan count t) in
      if any (same plan.key) candidate_keys then counted else skipped

  abbrev pub conclude : Tracking S → TrackedPairPolicyEvidence S
  conclude t =
      let contributions = values t.contributions in
      if t.admitted
      then record {
        generated = some (record {
          policy = label (policy_of external);
          contributions = contributions;
          source_evidence = generated_pair_source_evidence contributions;
        });
        losses = [];
      }
      else record { generated = none; losses = t.losses }

  unfoldable pub tracked_pair_policy_evidence :
      HydratedDeclaration → HydratedDeclaration → Attempt E (TrackedPairPolicyEvidence S)
  tracked_pair_policy_evidence anchor candidate = do
    t ←
        track (map (λ plan. plan.key) (planned_keys ops.float candidate))
          (sorted_plans ops.float (planned_keys ops.float anchor))
          (record { contributions = []; losses = []; admitted = false })
    done (conclude t)
