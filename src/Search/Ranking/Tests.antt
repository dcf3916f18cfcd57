-- ===== src/Search/Ranking/Tests.antt =====
-- crates/search/src/ranking.rs: runs on small queues.
use lean_dup.Base.{
  ℕ, none, ◌||◌, sort_by, insert_by, true, false, [], ◌∷◌, map, All, ◌≡◌, ◌≤◌, refl, arith,
  text_ord, nat_ord,
}
use lean_dup.Base.Maps
use lean_dup.Base.Sets
use lean_dup.Index.Provenance.{requires_semantic_evidence, evidence_mode}
use lean_dup.Search.Declaration.{RetrievedCandidate}
use lean_dup.Search.Policy.{is_generated}
use lean_dup.Search.Samples.{
  number_ops, suffix, ranking_input, candidate, local_theorem, other_theorem, library_theorem,
  generated_theorem,
}
use lean_dup.Search.Review.{
  Tier, RankedGroup, ReviewFilter, ReviewRelation, ReviewAction, ReviewEvidenceMode, is_noise,
  includes, relation_rank,
}
use lean_dup.Search.Review.Filter.{Permits, includes_mono}
use lean_dup.Search.Ranking.{is_proof_grade}
use lean_dup.Search.Ranking.Pair.{rank_pair}
use lean_dup.Search.Ranking.Queue.{
  ranked, rank_candidates, suppressed_relations, suppressed_rank, covered_relation, dedup_from,
}
use lean_dup.Search.Ranking.Soundness.{rank_pair-unproved, rank_pair-noise, rank_pair-generated}
use lean_dup.Search.Ranking.Order.{IsQueue, rank_candidates-IsQueue}
use lean_dup.Search.Ranking.Suppressed.{IsCovered, suppressed_relations_lem}

abbrev library_pair : RetrievedCandidate ℕ
library_pair = candidate "a-c" library_theorem

abbrev generated_pair : RetrievedCandidate ℕ
generated_pair = candidate "a-d" generated_theorem

abbrev rank : RetrievedCandidate ℕ → RankedGroup ℕ
rank c = rank_pair number_ops suffix ranking_input local_theorem c

abbrev open_filter : ReviewFilter
open_filter = record {
  include_generated = true;
  include_private = true;
  include_diagnostics = false;
  min_priority = Tier.noise;
}

abbrev strict_filter : ReviewFilter
strict_filter = record {
  include_generated = false;
  include_private = false;
  include_diagnostics = false;
  min_priority = Tier.medium;
}

must_be_proved :
    (requires_semantic_evidence ranking_input.comparison_policy local_theorem.origin
      || requires_semantic_evidence ranking_input.comparison_policy library_theorem.origin)
    ≡ true
unfolding requires_semantic_evidence evidence_mode Maps.get
must_be_proved = refl

not_proved : is_proof_grade (Maps.get "a-c" ranking_input.semantic_evidence) ≡ false
unfolding Maps.get
not_proved = refl

rank_pair-unproved_example : 4 ≤ relation_rank (rank library_pair).relation
rank_pair-unproved_example =
    rank_pair-unproved number_ops suffix ranking_input local_theorem library_pair must_be_proved
      not_proved

rank_pair-noise_example :
    is_noise (rank library_pair).review_priority ≡ is_noise (rank library_pair).confidence
rank_pair-noise_example = rank_pair-noise number_ops suffix ranking_input local_theorem library_pair

one_generated : (is_generated local_theorem || is_generated generated_theorem) ≡ true
unfolding is_generated
one_generated = refl

rank_pair-generated_example : includes open_filter (rank generated_pair) ≡ false
rank_pair-generated_example =
    rank_pair-generated number_ops suffix ranking_input local_theorem generated_pair open_filter
      one_generated refl

rank_candidates-IsQueue_example :
    IsQueue
      (ranked number_ops suffix ranking_input)
      (rank_candidates number_ops suffix ranking_input)
rank_candidates-IsQueue_example = rank_candidates-IsQueue number_ops suffix ranking_input

-- A group whose statement is exact, with the fingerprints of weaker relations besides.
abbrev exact_group : RankedGroup ℕ
exact_group = record {
  id = "g";
  pair_id = "a-b";
  relation = ReviewRelation.exact_statement;
  members = [];
  evidence = [];
  signals = [];
  blockers = [];
  confidence = Tier.high;
  review_priority = Tier.high;
  recommended_action = ReviewAction.local_alias;
  target_decl = none;
  target_module = none;
  evidence_mode = ReviewEvidenceMode.static_mode;
  probe_summary = none;
  semantic_obligations = [];
  local_caller_count = 0;
  replacement_hint = none;
}

two_suppressed :
    map suppressed_rank (suppressed_relations exact_group (candidate "a-b" other_theorem))
    ≡ 5 ∷ 6 ∷ []
unfolding suppressed_relations covered_relation dedup_from sort_by insert_by
two_suppressed = refl

suppressed_relations_lem_example :
    Sets.IsAscending
      (map suppressed_rank (suppressed_relations exact_group (candidate "a-b" other_theorem)))
    × All (IsCovered exact_group) (suppressed_relations exact_group (candidate "a-b" other_theorem))
suppressed_relations_lem_example =
    suppressed_relations_lem exact_group (candidate "a-b" other_theorem)

open-Permits : Permits strict_filter open_filter
open-Permits = record {
  generated_kept = λ h. refl;
  private_kept = λ h. refl;
  diagnostics_kept = λ h. h;
  priority_kept = omega arith;
}

strict_includes : includes strict_filter exact_group ≡ true
unfolding includes
strict_includes = refl

includes_mono_example : includes open_filter exact_group ≡ true
includes_mono_example =
    includes_mono strict_filter open_filter exact_group open-Permits strict_includes
