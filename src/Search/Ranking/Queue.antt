-- ===== src/Search/Ranking/Queue.antt =====
-- crates/search/src/ranking.rs: `rank_candidates`, its suppressed relations and its order.
use lean_dup.Base.{
  ℕ, String, Bool, true, false, Option, none, some, List, [], ◌∷◌, map, sum, length, filter_map,
  nat_eq, if◌then◌else◌, ◌==◌, FloatOps, text_ord, nat_ord, pair_ord, sort_by, by_key, flat_map,
}
use lean_dup.Base.Sets
use lean_dup.Search.Declaration.{HydratedDeclaration, RetrievedCandidate, CandidateSet}
use lean_dup.Search.Review.{
  ReviewRelation, relation_rank, tier_rank, RankedGroup, SuppressedGroup, RankedReview,
}
use lean_dup.Search.Ranking.{RankingInput}
use lean_dup.Search.Ranking.Pair.{rank_pair}

abbrev pub suppressible : ReviewRelation → Bool
suppressible ReviewRelation.exact_statement = true
suppressible ReviewRelation.specialization_relation = true
suppressible other = false

unfoldable pub covered_relation : String → Option ReviewRelation
covered_relation kind =
    if kind == "safe-permutation-fingerprint"
    then some ReviewRelation.permuted_statement
    else if kind == "connective-fingerprint"
    then some ReviewRelation.connective_equivalent
    else if kind == "conclusion-fingerprint"
    then some ReviewRelation.subsumption_candidate
    else if kind == "role-feature"
    then some ReviewRelation.near_statement
    else none

abbrev pub suppressed_rank : SuppressedGroup → ℕ
suppressed_rank s = relation_rank s.suppressed_relation

-- `dedup_by_key`: of neighbours with one key the first stays.
unfoldable pub dedup_from : SuppressedGroup → List SuppressedGroup → List SuppressedGroup
dedup_from s [] = s ∷ []
dedup_from s (t ∷ ts) =
    let repeated = nat_eq (suppressed_rank s) (suppressed_rank t) in
    let rest = dedup_from (if repeated then s else t) ts in if repeated then rest else s ∷ rest

abbrev pub dedup : List SuppressedGroup → List SuppressedGroup
dedup [] = []
dedup (s ∷ ss) = dedup_from s ss

module _ {S : Type 0} where
  abbrev pub cover : RankedGroup S → ReviewRelation → Option SuppressedGroup
  cover group relation =
      if nat_eq (relation_rank relation) (relation_rank group.relation)
      then none
      else some (record {
        pair_id = group.pair_id;
        suppressed_relation = relation;
        covered_by = group.relation;
        reason = "covered by stronger evidence for the same pair";
      })

  abbrev pub cover? : RankedGroup S → Option ReviewRelation → Option SuppressedGroup
  cover? group none = none
  cover? group (some relation) = cover group relation

  unfoldable pub suppressed_relations : RankedGroup S → RetrievedCandidate S → List SuppressedGroup
  suppressed_relations group candidate =
      if suppressible group.relation
      then dedup (
          sort_by (by_key suppressed_rank)
            (filter_map (λ c. cover? group (covered_relation c.kind)) candidate.contributions))
      else []

  abbrev pub queue_key : RankedGroup S → ℕ × (ℕ × String)
  queue_key group = (tier_rank group.review_priority, (tier_rank group.confidence, group.id))

  -- The pairs of the two nested loops, in their order.
  unfoldable pub pairs_of :
      List (CandidateSet S) → List (HydratedDeclaration × RetrievedCandidate S)
  pairs_of sets = flat_map (λ set. map (λ candidate. (set.anchor, candidate)) set.candidates) sets

  -- The groups whose identity is new, in the order of the pairs, with the identities seen so far.
  unfoldable pub push_new : List (RankedGroup S) → List String → List (RankedGroup S)
  push_new [] seen = []
  push_new (g ∷ gs) seen =
      let rest = push_new gs (Sets.insert g.id seen) in
      if Sets.contains g.id seen then rest else g ∷ rest

module _ {S : Type 0} (float : FloatOps S) (suffix : String → List String → String) where
  abbrev pub ranked : RankingInput S → List (RankedGroup S)
  ranked input =
      map (λ pair. rank_pair float suffix input pair.0 pair.1) (pairs_of input.candidate_sets)

  unfoldable pub suppressed_of : RankingInput S → List SuppressedGroup
  suppressed_of input =
      flat_map (λ pair. suppressed_relations (rank_pair float suffix input pair.0 pair.1) pair.1)
        (pairs_of input.candidate_sets)

  unfoldable pub rank_candidates : RankingInput S → RankedReview S
  rank_candidates input =
      let groups = sort_by (by_key queue_key) (push_new (ranked input) []) in
      record {
        groups = groups;
        suppressed = suppressed_of input;
        diagnostics = record {
          candidate_pairs = sum (map (λ set. length set.candidates) input.candidate_sets);
          emitted_groups = length groups;
          suppressed_groups = length (suppressed_of input);
        };
      }
