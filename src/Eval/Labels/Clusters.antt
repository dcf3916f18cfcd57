-- ===== src/Eval/Labels/Clusters.antt =====
-- crates/eval/src/eval/labels.rs: the labels that a cluster expands to.
use lean_dup.Base.{
  String, Option, none, some, false, List, [], ◌∷◌, ◌++◌, map, length, ltb, inl, inr, ◌⊎◌, ◌≡◌,
  refl, sym, ap, subst, ◌∙◌, Bool-cases,
}
use lean_dup.Eval.Scoring.{GoldPair, gold_pair}
use lean_dup.Eval.Labels.{
  TypedGoldLabel, RawLabel, RawTypedCluster, required, label_of, labels_of, member_pairs,
  expand_cluster,
}
use lean_dup.Eval.Labels.Consistency.{right_or, bind-inr}

-- A label with the fields of a raw one, none of which is missing.
abbrev pub HasFields : RawLabel → TypedGoldLabel → Type 0
HasFields raw l =
    (raw.polarity ≡ some l.polarity)
    × (raw.match_class ≡ some l.match_class)
    × (raw.expected_stage_visibility ≡ some l.expected_stage_visibility)
    × (raw.adjudication_source ≡ some l.adjudication_source)
    × (raw.confidence ≡ some l.confidence)
    × (raw.semantic_verification_required ≡ some l.semantic_verification_required)
    × (raw.static_evidence_acceptable ≡ some l.static_evidence_acceptable)

-- A label of `m` and each of the other members, in their order.
abbrev pub PairWith : RawLabel → String → List String → List TypedGoldLabel → Type 0
PairWith raw m [] [] = Unit
PairWith raw m [] (l ∷ ls) = ⊥
PairWith raw m (x ∷ xs) [] = ⊥
PairWith raw m (x ∷ xs) (l ∷ ls) = (l.pair ≡ gold_pair m x) × HasFields raw l × PairWith raw m xs ls

-- The labels of the first member and each later one, then those of the later members.
abbrev pub PairOff : RawLabel → List String → List TypedGoldLabel → Type 0
PairOff raw [] labels = labels ≡ []
PairOff raw (m ∷ ms) labels =
    (first : List TypedGoldLabel) × (rest : List TypedGoldLabel) × (labels ≡ first ++ rest)
    × PairWith raw m ms first
    × PairOff raw ms rest

required-some :
    {T : Type 0} (o : Option T) (field : String) (pair : GoldPair) (v : T)
    → required o field pair ≡ inr v
    → o ≡ some v
unfolding required
required-some none field pair v h = cc h
required-some (some w) field pair v h = ap some (ap (value_or w) h)
  where
    value_or : {T : Type 0} → T → String ⊎ T → T
    value_or d (inl e) = d
    value_or d (inr a) = a

label_of-HasFields :
    (raw : RawLabel) (pair : GoldPair) (l : TypedGoldLabel)
    → label_of raw pair ≡ inr l
    → (l.pair ≡ pair) × HasFields raw l
unfolding label_of
label_of-HasFields raw pair l h =
    let (p, hp, kp) = bind-inr (required raw.polarity "polarity" pair) _ l h in
    let (m, hm, km) = bind-inr (required raw.match_class "match_class" pair) _ l kp in
    let (v, hv, kv) =
      bind-inr (required raw.expected_stage_visibility "expected_stage_visibility" pair) _ l km in
    let (a, ha, ka) =
      bind-inr (required raw.adjudication_source "adjudication_source" pair) _ l kv in
    let (c, hc, kc) = bind-inr (required raw.confidence "confidence" pair) _ l ka in
    let (s, hs, ks) =
      bind-inr (required raw.semantic_verification_required "semantic_verification_required" pair) _
        l kc in
    let (t, ht, kt) =
      bind-inr (required raw.static_evidence_acceptable "static_evidence_acceptable" pair) _ l ks in
    subst (λ label. (label.pair ≡ pair) × HasFields raw label) (ap (right_or l) kt)
      (
        refl,
        (
          required-some raw.polarity _ pair p hp,
          required-some raw.match_class _ pair m hm,
          required-some raw.expected_stage_visibility _ pair v hv,
          required-some raw.adjudication_source _ pair a ha,
          required-some raw.confidence _ pair c hc,
          required-some raw.semantic_verification_required _ pair s hs,
          required-some raw.static_evidence_acceptable _ pair t ht,
        ),
      )

labels_of-PairWith :
    (raw : RawLabel) (m : String) (ms : List String) (later : List GoldPair)
    (labels : List TypedGoldLabel)
    → labels_of raw (map (gold_pair m) ms ++ later) ≡ inr labels
    → (first : List TypedGoldLabel) × (rest : List TypedGoldLabel) × (labels ≡ first ++ rest)
      × PairWith raw m ms first
      × (labels_of raw later ≡ inr rest)
unfolding labels_of
labels_of-PairWith raw m [] later labels h = ([], labels, refl, tt, h)
labels_of-PairWith raw m (x ∷ xs) later labels h =
    let (l, one, more) = bind-inr (label_of raw (gold_pair m x)) _ labels h in
    let (ls, ok, same) = bind-inr (labels_of raw (map (gold_pair m) xs ++ later)) _ labels more in
    let (first, rest, split, paired, remaining) = labels_of-PairWith raw m xs later ls ok in
    let (pair, fields) = label_of-HasFields raw (gold_pair m x) l one in
    (
      l ∷ first,
      rest,
      sym (ap (right_or []) same) ∙ ap (λ k. l ∷ k) split,
      (pair, fields, paired),
      remaining,
    )

labels_of-PairOff :
    (raw : RawLabel) (ms : List String) (labels : List TypedGoldLabel)
    → labels_of raw (member_pairs ms) ≡ inr labels
    → PairOff raw ms labels
unfolding member_pairs
labels_of-PairOff raw [] labels h = unfold labels_of in sym (ap (right_or []) h)
labels_of-PairOff raw (m ∷ ms) labels h =
    let (first, rest, split, paired, remaining) =
      labels_of-PairWith raw m ms (member_pairs ms) labels h in
    (first, rest, split, paired, labels_of-PairOff raw ms rest remaining)

-- A cluster that is accepted has at least two members, and its labels are one for the first member and
-- each later one, in their order, then those of the later members among themselves: each is of the
-- two members' pair and has the fields of the cluster, none of which is missing.
pub expand_cluster_lem :
    (raw : RawTypedCluster) (labels : List TypedGoldLabel)
    → expand_cluster raw ≡ inr labels
    → (ltb (length raw.members) 2 ≡ false) × PairOff raw.label raw.members labels
unfolding expand_cluster
expand_cluster_lem raw labels h = elim (Bool-cases (ltb (length raw.members) 2)) [
  | inl e ↦ cc (rw (e, expand_cluster) at h)
  | inr e ↦ (e, labels_of-PairOff raw.label raw.members labels (rw (e, expand_cluster) at h))
]
