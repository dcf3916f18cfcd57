-- ===== src/Search/Retrieval/Accumulate.antt =====
-- crates/search/src/retrieval.rs: what the plans of a declaration contribute to its candidates
-- (`add_local_matches`, `add_external_matches`).
pub mod Members
pub mod Range
use lean_dup.Base.{
  ℕ, ◌^◌, ◌-◌, String, Bool, false, ◌&&◌, ◌||◌, not, Option, none, some, List, [], ◌∷◌, ◌++◌, map,
  filter, flat_map, length, min, leb, ltb, nat_eq, if◌then◌else◌, enumerate_from, Ord, nat_ord,
  pair_ord, text_ord,
}
use lean_dup.Base.Maps
use lean_dup.Base.Maps.{get_or_default}
use lean_dup.Base.Sets
use lean_dup.Base.Sets.{same}
use lean_dup.Search.Declaration.{HydratedDeclaration, KeyContribution}
use lean_dup.Index.Opened.{SemanticFeatureKey, OpenedIndexFacts, feature_key_ord}
use lean_dup.Search.Retrieval.Keys.{
  PlannedKey, posting_limit, prune_reason_for_plan, contribution_sort_key, feature_family,
}
use lean_dup.Search.Retrieval.State.{
  ScoreOps, CandidateId, CandidateAccumulator, CandidateGenerationPolicy, RetrievalDiagnostics,
  id_ord, label, policy_for_external,
}
use lean_dup.Search.Retrieval.State.CandidateId.{workspace, external}
use lean_dup.Search.Retrieval.State.CandidateGenerationPolicy.{local_duplicate_audit}

abbrev pub Postings : Type 0
Postings = List (SemanticFeatureKey × List ℕ)

abbrev pub post_plans :
    {S : Type 0} → ℕ → List (PlannedKey S) → List SemanticFeatureKey → Postings → Postings
post_plans index [] seen postings = postings
post_plans index (plan ∷ plans) seen postings =
    if Sets.contains plan.key seen
    then post_plans index plans seen postings
    else post_plans index plans (Sets.insert plan.key seen)
        (Maps.update plan.key [] (λ posted. posted ++ (index ∷ [])) postings)

abbrev pub post_all : {S : Type 0} → List (ℕ × List (PlannedKey S)) → Postings → Postings
post_all [] postings = postings
post_all ((index, plans) ∷ rest) postings = post_all rest (post_plans index plans [] postings)

unfoldable pub local_postings : {S : Type 0} → List (List (PlannedKey S)) → Postings
local_postings plans_by_decl = post_all (enumerate_from 0 plans_by_decl) []

unfoldable pub local_counts : Postings → List (SemanticFeatureKey × ℕ)
local_counts postings = map (λ entry. (entry.0, length entry.1)) postings

unfoldable pub unique_keys : {S : Type 0} → List (List (PlannedKey S)) → List SemanticFeatureKey
unique_keys workspace_plans =
    Sets.extend (map (λ plan. plan.key) (flat_map (λ plans. plans) workspace_plans)) []

-- `usize::MAX` where no plan has the key.
unfoldable pub posting_limit_for_key :
    {S : Type 0} → List (List (PlannedKey S)) → SemanticFeatureKey → ℕ
posting_limit_for_key workspace_plans key = least (
    map posting_limit
      (filter (λ plan. same plan.key key) (flat_map (λ plans. plans) workspace_plans)))
  where
    least : List ℕ → ℕ
    least [] = 2 ^ 64 - 1
    least (n ∷ ns) = min n (least ns)

unfoldable pub record_pruned_feature_fanout :
    {S : Type 0}
    → CandidateGenerationPolicy
    → String
    → PlannedKey S
    → ℕ
    → RetrievalDiagnostics
    → RetrievalDiagnostics
record_pruned_feature_fanout policy source plan count diagnostics = record diagnostics {
  pruned_feature_fanouts =
      diagnostics.pruned_feature_fanouts
      ++ (record {
        policy = label policy;
        source = source;
        reason = prune_reason_for_plan plan;
        feature_family = feature_family plan.contribution;
        count = count;
      }
          ∷ []);
}

abbrev pub prune :
    {S : Type 0}
    → String
    → CandidateGenerationPolicy
    → String
    → PlannedKey S
    → ℕ
    → RetrievalDiagnostics
    → RetrievalDiagnostics
prune anchor_id policy source plan count diagnostics =
    record_pruned_feature_fanout policy source plan count (record diagnostics {
      pruned_postings =
          diagnostics.pruned_postings
          ++ (record {
            anchor_declaration_id = anchor_id;
            source = source;
            reason = prune_reason_for_plan plan;
            kind = plan.contribution.kind;
            role = plan.contribution.role;
            display = plan.contribution.display;
            count = count;
          }
              ∷ []);
    })

abbrev pub Accumulators : Type 0 → Type 0
Accumulators S = List (CandidateId × CandidateAccumulator S)

abbrev pub ExternalPostings : Type 0
ExternalPostings = List ((ℕ × SemanticFeatureKey) × List String)

-- What one declaration has found so far.
pub record Found (S : Type 0) : Type 0 where
  pub accumulators : Accumulators S
  pub diagnostics : RetrievalDiagnostics

module _ {S M : Type 0} (ops : ScoreOps S M) where
  unfoldable pub rarity_weight : ℕ → ℕ → S
  rarity_weight total_documents document_frequency =
      let float = ops.float in
      if nat_eq document_frequency 0 || nat_eq total_documents 0
      then float.literal 1
      else ops.max
          (float.add (float.literal 1) (
            ops.ln (
              float.divide (float.add (float.literal total_documents) (float.literal 1))
                (float.add (float.literal document_frequency) (float.literal 1)))))
          (float.literal 1)

  -- `and_modify(|existing| existing.score += score).or_insert(contribution)`.
  abbrev pub merge_contribution :
      KeyContribution S → S → List (String × KeyContribution S) → List (String × KeyContribution S)
  merge_contribution planned score contributions =
      let contribution = record planned { score = score } in
      let key = contribution_sort_key contribution in
      elim (Maps.get key contributions) [
        | none ↦ Maps.insert key contribution contributions
        | some existing ↦
            Maps.insert key (record existing { score = ops.float.add existing.score score })
              contributions
      ]

  abbrev pub new_accumulator : CandidateId → CandidateGenerationPolicy → CandidateAccumulator S
  new_accumulator id policy = record {
    id = id;
    policy = policy;
    score = ops.float.literal 0;
    admitted = false;
    contributions = [];
  }

  abbrev pub contribute : PlannedKey S → S → CandidateAccumulator S → CandidateAccumulator S
  contribute plan score a = record a {
    score = ops.float.add a.score score;
    admitted = a.admitted || plan.admits_candidate;
    contributions = merge_contribution plan.contribution score a.contributions;
  }

  unfoldable pub add_contribution :
      CandidateId → CandidateGenerationPolicy → PlannedKey S → S → Accumulators S → Accumulators S
  add_contribution id policy plan score accumulators =
      if not plan.admits_candidate && not (Maps.contains_key id accumulators)
      then accumulators
      else Maps.update id (new_accumulator id policy) (contribute plan score) accumulators

  abbrev pub add_local : ℕ → PlannedKey S → S → List ℕ → Accumulators S → Accumulators S
  add_local anchor_index plan score [] accumulators = accumulators
  add_local anchor_index plan score (candidate_index ∷ matches) accumulators =
      add_local anchor_index plan score matches (
        if nat_eq candidate_index anchor_index
        then accumulators
        else add_contribution (workspace candidate_index) local_duplicate_audit plan score
            accumulators)

  abbrev pub match_local : ℕ → String → ℕ → PlannedKey S → ℕ → List ℕ → Found S → Found S
  match_local workspace_size anchor_id anchor_index plan count matches found =
      if ltb (posting_limit plan) count
      then record found {
        diagnostics =
            prune anchor_id local_duplicate_audit "workspace" plan count found.diagnostics;
      }
      else record found {
        accumulators =
            add_local anchor_index plan
              (ops.multiply plan.base_weight (rarity_weight workspace_size count)) matches
              found.accumulators;
      }

  -- `let Some(matches) = … else { return; }`.
  abbrev pub match_posting :
      ℕ
      → String
      → ℕ
      → PlannedKey S
      → List (SemanticFeatureKey × ℕ)
      → Option (List ℕ)
      → Found S
      → Found S
  match_posting workspace_size anchor_id anchor_index plan counts none found = found
  match_posting workspace_size anchor_id anchor_index plan counts (some matches) found =
      match_local workspace_size anchor_id anchor_index plan
        (get_or_default (length matches) (Maps.get plan.key counts)) matches found

  unfoldable pub add_local_matches :
      ℕ → String → ℕ → PlannedKey S → Postings → List (SemanticFeatureKey × ℕ) → Found S → Found S
  add_local_matches workspace_size anchor_id anchor_index plan postings counts found =
      match_posting workspace_size anchor_id anchor_index plan counts (Maps.get plan.key postings)
        found

  abbrev pub add_handles :
      ℕ
      → CandidateGenerationPolicy
      → PlannedKey S
      → S
      → List String
      → Accumulators S
      → Accumulators S
  add_handles index policy plan score [] accumulators = accumulators
  add_handles index policy plan score (handle ∷ handles) accumulators =
      add_handles index policy plan score handles
        (add_contribution (external index handle) policy plan score accumulators)

  -- One index of the loop.
  abbrev pub match_external :
      String
      → PlannedKey S
      → List ((ℕ × SemanticFeatureKey) × ℕ)
      → ExternalPostings
      → ℕ
      → OpenedIndexFacts
      → Found S
      → Found S
  match_external anchor_id plan counts postings index facts found =
      let policy = policy_for_external facts in
      let count = get_or_default 0 (Maps.get (index, plan.key) counts) in
      if nat_eq count 0
      then found
      else if ltb (posting_limit plan) count
      then record found {
        diagnostics = prune anchor_id policy facts.origin plan count found.diagnostics;
      }
      else record found {
        accumulators =
            add_handles index policy plan
              (ops.multiply plan.base_weight (rarity_weight facts.declaration_count count))
              (get_or_default [] (Maps.get (index, plan.key) postings)) found.accumulators;
      }

  unfoldable pub add_external_matches :
      String
      → PlannedKey S
      → List ((ℕ × SemanticFeatureKey) × ℕ)
      → ExternalPostings
      → List (ℕ × OpenedIndexFacts)
      → Found S
      → Found S
  add_external_matches anchor_id plan counts postings [] found = found
  add_external_matches anchor_id plan counts postings ((index, facts) ∷ rest) found =
      add_external_matches anchor_id plan counts postings rest
        (match_external anchor_id plan counts postings index facts found)
