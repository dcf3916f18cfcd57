-- ===== src/Search/Ranking/Suppressed.antt =====
-- crates/search/src/ranking.rs: the relations that `suppressed_relations` names.
use lean_dup.Base.{
  ℕ, false, Option, none, some, List, [], ◌∷◌, map, All, All-imp, All-prepend, Holds, filter_map,
  ◌≡◌, ◌≢◌, refl, ap, ◌≤◌, ◌<◌, arith, nat_ord, sort_by, by_key, IsSorted, sort_by-IsSorted,
  All-sort_by, Bool-cases, inl, inr, nat_eq,
}
use lean_dup.Base.Sets
use lean_dup.Search.Declaration.{RetrievedCandidate, KeyContribution}
use lean_dup.Search.Review.{RankedGroup, SuppressedGroup, ReviewRelation, relation_rank}
use lean_dup.Search.Ranking.Queue.{
  suppressed_relations, suppressed_rank, dedup_from, dedup, cover?, covered_relation, suppressible,
}

abbrev pub AtLeast : ℕ → List SuppressedGroup → Type 0
AtLeast n ss = All (λ s. n ≤ suppressed_rank s) ss

AtLeast-Above :
    (n m : ℕ) (ss : List SuppressedGroup)
    → n < m
    → AtLeast m ss
    → Sets.Above n (map suppressed_rank ss)
AtLeast-Above n m [] h k = tt
AtLeast-Above n m (s ∷ ss) h k = (ground (arith, k.0), AtLeast-Above n m ss h k.1)

dedup_from_lem :
    (s : SuppressedGroup) (ts : List SuppressedGroup)
    → IsSorted suppressed_rank (s ∷ ts)
    → AtLeast (suppressed_rank s) (dedup_from s ts)
      × Sets.IsAscending (map suppressed_rank (dedup_from s ts))
unfolding dedup_from
dedup_from_lem s [] h = ((omega arith, tt), (tt, tt))
dedup_from_lem s (t ∷ ts) h = elim (Bool-cases (nat_eq (suppressed_rank s) (suppressed_rank t))) [
  | inl e ↦ rw e (dedup_from_lem s ts (h.0.1, h.1.1))
  | inr d ↦
      let rest = dedup_from_lem t ts h.1 in
      let below : suppressed_rank s < suppressed_rank t = ground (arith, h.0.0) in
      rw d (
        (omega arith, All-imp (λ u k. omega arith) (dedup_from t ts) rest.0),
        (
          AtLeast-Above (suppressed_rank s) (suppressed_rank t) (dedup_from t ts) below rest.0,
          rest.1,
        ),
      )
]

All-dedup_from {ℓ} :
    (P : SuppressedGroup → Type ℓ) (s : SuppressedGroup) (ts : List SuppressedGroup)
    → P s
    → All P ts
    → All P (dedup_from s ts)
unfolding dedup_from
All-dedup_from P s [] h k = (h, tt)
All-dedup_from P s (t ∷ ts) h k =
    elim (Bool-cases (nat_eq (suppressed_rank s) (suppressed_rank t))) [
      | inl e ↦ rw e (All-dedup_from P s ts h k.1)
      | inr d ↦ rw d (h, All-dedup_from P t ts k.0 k.1)
    ]

-- What a suppressed relation promises of the group that covers it.
pub record IsCovered {S : Type 0} (group : RankedGroup S) (s : SuppressedGroup) : Type 0 where
  pub same_pair : s.pair_id ≡ group.pair_id
  pub by_group : s.covered_by ≡ group.relation
  pub weaker : s.suppressed_relation ≢ group.relation

dedup_lem :
    (ss : List SuppressedGroup)
    → IsSorted suppressed_rank ss
    → Sets.IsAscending (map suppressed_rank (dedup ss))
dedup_lem [] h = tt
dedup_lem (s ∷ ss) h = (dedup_from_lem s ss h).1

All-dedup {ℓ} :
    (P : SuppressedGroup → Type ℓ) (ss : List SuppressedGroup) → All P ss → All P (dedup ss)
All-dedup P [] h = tt
All-dedup P (s ∷ ss) h = All-dedup_from P s ss h.0 h.1

module _ {S : Type 0} (group : RankedGroup S) where
  apart :
      (relation : ReviewRelation)
      → relation ≡ group.relation
      → nat_eq (relation_rank relation) (relation_rank group.relation) ≡ false
      → ⊥
  apart relation p d = ground (arith, ap relation_rank p, d)

  covers_one : (o : Option ReviewRelation) → Holds (IsCovered group) (cover? group o)
  covers_one none = tt
  covers_one (some relation) =
      elim (Bool-cases (nat_eq (relation_rank relation) (relation_rank group.relation))) [
        | inl e ↦ rw e tt
        | inr d ↦
            rw d (record { same_pair = refl; by_group = refl; weaker = λ p. apart relation p d })
      ]

  covers :
      (contributions : List (KeyContribution S))
      → All
          (IsCovered group)
          (filter_map (λ c. cover? group (covered_relation c.kind)) contributions)
  covers [] = tt
  covers (c ∷ cs) =
      All-prepend (IsCovered group) _ _ (covers_one (covered_relation c.kind)) (covers cs)

  -- The suppressed relations of a pair are in strictly ascending order, so none is named twice, and
  -- each is another relation than the group's, is of the same pair and names the group's relation.
  pub suppressed_relations_lem :
      (candidate : RetrievedCandidate S)
      → Sets.IsAscending (map suppressed_rank (suppressed_relations group candidate))
        × All (IsCovered group) (suppressed_relations group candidate)
  unfolding suppressed_relations
  suppressed_relations_lem candidate =
      let found =
        filter_map (λ c. cover? group (covered_relation c.kind)) candidate.contributions in
      let sorted = sort_by (by_key suppressed_rank) found in
      elim (Bool-cases (suppressible group.relation)) [
        | inr e ↦ rw e (tt, tt)
        | inl e ↦ rw e (
          dedup_lem sorted (sort_by-IsSorted suppressed_rank found),
          All-dedup (IsCovered group) sorted (
              All-sort_by (by_key suppressed_rank) (IsCovered group) found
                (covers candidate.contributions)),
        )
      ]
