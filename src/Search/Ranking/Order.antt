-- ===== src/Search/Ranking/Order.antt =====
-- crates/search/src/ranking.rs: the order and the identities of the queue of `rank_candidates`.
use lean_dup.Base.{
  ◌+◌, String, true, false, ◌||◌, List, [], ◌∷◌, map, any, All, sum, length, ◌≡◌, refl, sym, ap,
  ap₂, or_false_both, ◌∙◌, ◌≤◌, arith, FloatOps, text_ord, nat_ord, pair_ord, by_key, IsSorted,
  sort_by-IsSorted, any-sort_by, length-sort_by, IsPairwise, sort_by-IsPairwise, length-append,
  length-map,
}
use lean_dup.Base.Sets
use lean_dup.Search.Declaration.{CandidateSet}
use lean_dup.Search.Review.{RankedGroup, RankedReview}
use lean_dup.Search.Policy.Blockers.{contains-empty}
use lean_dup.Search.Ranking.{RankingInput}
use lean_dup.Search.Ranking.Pair.{rank_pair}
use lean_dup.Search.Ranking.Queue.{queue_key, pairs_of, push_new, ranked, rank_candidates}

contains_at :
    (z x : String) (seen : List String)
    → Sets.same z x ≡ true
    → Sets.contains z seen ≡ Sets.contains x seen
contains_at z x seen e = ap (λ w. Sets.contains w seen) ((Sets.same_iff z x).0 e)

module _ {S : Type 0} where
  abbrev pub Differ : RankedGroup S → RankedGroup S → Type 0
  Differ g h = Sets.same g.id h.id ≡ false

  flip_Differ : (g h : RankedGroup S) → Differ g h → Differ h g
  flip_Differ g h d = Sets.same_comm h.id g.id ∙ d

  All-new :
      (x : String) (seen : List String) (gs : List (RankedGroup S))
      → All (λ g. Sets.contains g.id (Sets.insert x seen) ≡ false) gs
      → All (λ g. Sets.same x g.id ≡ false) gs × All (λ g. Sets.contains g.id seen ≡ false) gs
  All-new x seen [] h = (tt, tt)
  All-new x seen (g ∷ gs) h =
      let rest = All-new x seen gs h.1 in
      let absent : (Sets.same g.id x || Sets.contains g.id seen) ≡ false =
        sym (Sets.contains-insert g.id x seen) ∙ h.0 in
      let (apart, unseen) = or_false_both _ _ absent in
      ((Sets.same_comm x g.id ∙ apart, rest.0), (unseen, rest.1))

  push_new_lem :
      (gs : List (RankedGroup S)) (seen : List String)
      → All (λ g. Sets.contains g.id seen ≡ false) (push_new gs seen)
        × IsPairwise Differ (push_new gs seen)
  unfolding push_new
  push_new_lem [] seen = (tt, tt)
  push_new_lem (g ∷ gs) seen =
      let rest = push_new_lem gs (Sets.insert g.id seen) in
      let fresh = All-new g.id seen (push_new gs (Sets.insert g.id seen)) rest.0 in ground arith

  push_new-any :
      (z : String) (gs : List (RankedGroup S)) (seen : List String)
      → (any (λ g. Sets.same z g.id) (push_new gs seen) || Sets.contains z seen)
        ≡ (any (λ g. Sets.same z g.id) gs || Sets.contains z seen)
  unfolding push_new
  push_new-any z [] seen = refl
  push_new-any z (g ∷ gs) seen = ground (
    arith,
    push_new-any z gs (Sets.insert g.id seen),
    Sets.contains-insert z g.id seen,
    contains_at z g.id seen,
  )

  all_ids :
      (z : String) (gs : List (RankedGroup S))
      → any (λ g. Sets.same z g.id) (push_new gs []) ≡ any (λ g. Sets.same z g.id) gs
  all_ids z gs = ground (arith, push_new-any z gs [], contains-empty z)

  length-push_new :
      (gs : List (RankedGroup S)) (seen : List String) → length (push_new gs seen) ≤ length gs
  unfolding push_new
  length-push_new [] seen = omega arith
  length-push_new (g ∷ gs) seen = ground (arith, length-push_new gs (Sets.insert g.id seen))

  pub length-pairs_of :
      (sets : List (CandidateSet S))
      → length (pairs_of sets) ≡ sum (map (λ set. length set.candidates) sets)
  unfolding pairs_of
  length-pairs_of [] = refl
  length-pairs_of (set ∷ sets) =
      length-append (map (λ candidate. (set.anchor, candidate)) set.candidates) (pairs_of sets)
      ∙ ap₂ ◌+◌ (length-map (λ candidate. (set.anchor, candidate)) set.candidates)
          (length-pairs_of sets)

-- What the queue of `rank_candidates` promises of its groups, given the groups of all pairs.
pub record IsQueue {S : Type 0} (ranked_pairs : List (RankedGroup S)) (review : RankedReview S)
    : Type 0 where
  pub sorted : IsSorted queue_key review.groups
  pub distinct : IsPairwise Differ review.groups
  pub same_ids :
      (z : String)
      → any (λ g. Sets.same z g.id) review.groups ≡ any (λ g. Sets.same z g.id) ranked_pairs
  pub emitted : review.diagnostics.emitted_groups ≡ length review.groups
  pub bounded : review.diagnostics.emitted_groups ≤ review.diagnostics.candidate_pairs
  pub counted : review.diagnostics.candidate_pairs ≡ length ranked_pairs

module _ {S : Type 0} (float : FloatOps S) (suffix : String → List String → String) where
  -- The queue is sorted by priority, then confidence, then identity; no two groups share an identity;
  -- the identities are those of the ranked candidate pairs; and the counters count the candidate pairs
  -- and the groups that were emitted, which are no more.
  pub rank_candidates-IsQueue :
      (input : RankingInput S)
      → IsQueue (ranked float suffix input) (rank_candidates float suffix input)
  unfolding rank_candidates
  rank_candidates-IsQueue input =
      let groups = ranked float suffix input in
      let fresh = push_new groups [] in
      let size =
        length-map (λ pair. rank_pair float suffix input pair.0 pair.1)
          (pairs_of input.candidate_sets) in
      let pairs = length-pairs_of input.candidate_sets in
      record {
        sorted = sort_by-IsSorted queue_key fresh;
        distinct =
            sort_by-IsPairwise Differ flip_Differ (by_key queue_key) fresh
              (push_new_lem groups []).1;
        same_ids =
            λ z. any-sort_by (by_key queue_key) (λ g. Sets.same z g.id) fresh ∙ all_ids z groups;
        emitted = refl;
        bounded = omega (
          arith,
          length-sort_by (by_key queue_key) fresh,
          length-push_new groups [],
          size,
          pairs,
        );
        counted = sym pairs ∙ sym size;
      }
