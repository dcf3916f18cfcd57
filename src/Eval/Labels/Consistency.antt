-- ===== src/Eval/Labels/Consistency.antt =====
-- crates/eval/src/eval/labels.rs: labels that are accepted do not contradict each other.
use lean_dup.Base.{
  String, Bool, true, false, ◌&&◌, not, none, some, List, [], ◌∷◌, ◌++◌, map, filter, any, any-map,
  All, ◌⊎◌, inl, inr, ◌≡◌, refl, sym, ap, subst, ◌∙◌, arith, text_ord, pair_ord, Bool-cases,
  Option-cases, IsPairwise, or_false_both, or_false, or_false,
}
use lean_dup.Base.Maps
use lean_dup.Base.Sets
use lean_dup.Eval.Scoring.{GoldPair}
use lean_dup.Eval.Labels.{
  LabelFactSource, TypedGoldLabel, GoldLabels, GoldLabelFact, RawTypedCluster, RawTypedPair,
  is_positive, same_bool, same_label, bind, fact_of, Validated, validate_from,
  validate_typed_labels, expand_typed_clusters, validate_typed_pairs, pairs_with, gold_labels,
}

abbrev pub right_or : {A : Type 0} → A → String ⊎ A → A
right_or d (inl e) = d
right_or d (inr a) = a

pub bind-inr :
    {A B : Type 0} (r : String ⊎ A) (f : A → String ⊎ B) (b : B)
    → bind r f ≡ inr b
    → (a : A) × (r ≡ inr a) × (f a ≡ inr b)
bind-inr (inl e) f b h = cc h
bind-inr (inr a) f b h = (a, refl, h)

abbrev pub Differ : TypedGoldLabel → TypedGoldLabel → Type 0
Differ a b = Sets.same a.pair b.pair ≡ false

-- The fact records the label, where it came from, and its pair and polarity.
abbrev pub IsFact : LabelFactSource × TypedGoldLabel → GoldLabelFact → Type 0
IsFact (source, label) fact =
    (fact.pair ≡ label.pair)
    × (fact.polarity ≡ label.polarity)
    × (fact.source ≡ source)
    × (fact.typed ≡ some label)

-- A fact for each label, in the order of the labels.
abbrev pub AreFacts : List (LabelFactSource × TypedGoldLabel) → List GoldLabelFact → Type 0
AreFacts [] [] = Unit
AreFacts [] (f ∷ fs) = ⊥
AreFacts (entry ∷ entries) [] = ⊥
AreFacts (entry ∷ entries) (f ∷ fs) = IsFact entry f × AreFacts entries fs

-- What validation promises of its result, for the labels seen before and the labels given.
pub record IsValid (seen : List (GoldPair × TypedGoldLabel))
    (entries : List (LabelFactSource × TypedGoldLabel)) (v : Validated) : Type 0 where
  pub unseen : All (λ l. Maps.contains_key l.pair seen ≡ false) v.0
  pub differ : IsPairwise Differ v.0
  pub facts : AreFacts entries v.1

unseen_both :
    (x : TypedGoldLabel) (seen : List (GoldPair × TypedGoldLabel)) (ls : List TypedGoldLabel)
    → All (λ l. Maps.contains_key l.pair (Maps.insert x.pair x seen) ≡ false) ls
    → All (Differ x) ls × All (λ l. Maps.contains_key l.pair seen ≡ false) ls
unseen_both x seen [] h = (tt, tt)
unseen_both x seen (l ∷ ls) h =
    let rest = unseen_both x seen ls h.1 in
    let (apart, unseen) =
      or_false_both _ _ (sym (Maps.contains_key-insert l.pair x.pair x seen) ∙ h.0) in
    ((Sets.same_comm x.pair l.pair ∙ apart, rest.0), (unseen, rest.1))

repeated :
    (entry : LabelFactSource × TypedGoldLabel) (seen : List (GoldPair × TypedGoldLabel))
    (entries : List (LabelFactSource × TypedGoldLabel)) (v : Validated)
    → IsValid seen entries v
    → IsValid seen (entry ∷ entries) (v.0, fact_of entry ∷ v.1)
repeated entry seen entries v h = record {
  unseen = h.unseen;
  differ = h.differ;
  facts = ((refl, refl, refl, refl), h.facts);
}

added :
    (entry : LabelFactSource × TypedGoldLabel) (seen : List (GoldPair × TypedGoldLabel))
    (entries : List (LabelFactSource × TypedGoldLabel)) (v : Validated)
    → Maps.get entry.1.pair seen ≡ none
    → IsValid (Maps.insert entry.1.pair entry.1 seen) entries v
    → IsValid seen (entry ∷ entries) (entry.1 ∷ v.0, fact_of entry ∷ v.1)
unfolding Maps.contains_key
added entry seen entries v e h =
    let both = unseen_both entry.1 seen v.0 h.unseen in
    record {
      unseen = (ap Maps.is_some e, both.1);
      differ = (both.0, h.differ);
      facts = ((refl, refl, refl, refl), h.facts);
    }

validate_from-IsValid :
    (entries : List (LabelFactSource × TypedGoldLabel)) (seen : List (GoldPair × TypedGoldLabel))
    (v : Validated)
    → validate_from entries seen ≡ inr v
    → IsValid seen entries v
unfolding validate_from
validate_from-IsValid [] seen v h =
    subst (IsValid seen []) (ap (right_or ([], [])) h)
      (record { unseen = tt; differ = tt; facts = tt })
validate_from-IsValid (entry ∷ entries) seen v h =
    elim (Option-cases (Maps.get entry.1.pair seen)) [
      | inl e ↦
          let (w, ok, same) =
            bind-inr (validate_from entries (Maps.insert entry.1.pair entry.1 seen)) _ v
              (rw (e, validate_from) at h) in
          subst (IsValid seen (entry ∷ entries)) (ap (right_or ([], [])) same)
            (added entry seen entries w e (validate_from-IsValid entries _ w ok))
      | inr (previous, e) ↦ elim (Bool-cases (same_label previous entry.1)) [
        | inr d ↦ cc (rw (e, d, validate_from) at h)
        | inl d ↦
            let (w, ok, same) =
              bind-inr (validate_from entries seen) _ v (rw (e, d, validate_from) at h) in
            subst (IsValid seen (entry ∷ entries)) (ap (right_or ([], [])) same)
              (repeated entry seen entries w (validate_from-IsValid entries seen w ok))
      ]
    ]

abbrev pub names : GoldPair → TypedGoldLabel → Bool
names z l = Sets.same z l.pair

names_other :
    (z : GoldPair) (x l : TypedGoldLabel) → names z x ≡ true → Differ x l → names z l ≡ false
names_other z x l h d = ap (λ w. Sets.same w l.pair) ((Sets.same_iff z x.pair).0 h) ∙ d

named_once :
    (z : GoldPair) (p : TypedGoldLabel → Bool) (x : TypedGoldLabel) (ls : List TypedGoldLabel)
    → names z x ≡ true
    → All (Differ x) ls
    → any (names z) (filter p ls) ≡ false
named_once z p x [] h d = refl
named_once z p x (l ∷ ls) h d = ground (arith, named_once z p x ls h d.1, names_other z x l h d.0)

one_polarity :
    (z : GoldPair) (p q : TypedGoldLabel → Bool) (ls : List TypedGoldLabel)
    → ((l : TypedGoldLabel) → p l ≡ true → q l ≡ false)
    → IsPairwise Differ ls
    → any (names z) (filter p ls) ≡ true
    → any (names z) (filter q ls) ≡ false
one_polarity z p q [] apart d h = refl
one_polarity z p q (l ∷ ls) apart d h =
    ground
      (arith, apart l, one_polarity z p q ls apart d.1, named_once z p l ls, named_once z q l ls)

pairs_with-contains :
    (z : GoldPair) (polarity : Bool) (ls : List TypedGoldLabel)
    → Sets.contains z (pairs_with polarity ls)
      ≡ any (names z) (filter (λ l. same_bool polarity (is_positive l.polarity)) ls)
unfolding pairs_with
pairs_with-contains z polarity ls =
    let kept = filter (λ l. same_bool polarity (is_positive l.polarity)) ls in
    Sets.contains-extend z (map (λ l. l.pair) kept) []
    ∙ (unfold Sets.contains in or_false _ ∙ any-map (λ l. l.pair) (Sets.same z) kept)

-- What a label file that is accepted promises.
pub record IsConsistent (clusters pairs : List TypedGoldLabel) (gold : GoldLabels) : Type 0 where
  pub disjoint :
      (z : GoldPair)
      → (Sets.contains z gold.sets.positives && Sets.contains z gold.sets.hard_negatives) ≡ false
  pub one_label : IsPairwise Differ gold.typed_pairs
  pub facts :
      AreFacts
        (map (λ l. (LabelFactSource.typed_cluster, l)) clusters
          ++ map (λ l. (LabelFactSource.typed_pair, l)) pairs)
        gold.label_facts

disjoint_sets :
    (ls : List TypedGoldLabel) (z : GoldPair)
    → IsPairwise Differ ls
    → (Sets.contains z (pairs_with true ls) && Sets.contains z (pairs_with false ls)) ≡ false
disjoint_sets ls z d =
    let positive_only =
      one_polarity z (λ l. same_bool true (is_positive l.polarity))
        (λ l. same_bool false (is_positive l.polarity)) ls (λ l h. ap not h) d in
    ground (arith, positive_only, pairs_with-contains z true ls, pairs_with-contains z false ls)

abbrev pub gold_of : Validated → GoldLabels
gold_of v = record {
  sets = record { positives = pairs_with true v.0; hard_negatives = pairs_with false v.0 };
  typed_pairs = v.0;
  label_facts = v.1;
}

-- If a label file is accepted, no pair is both a positive and a hard negative, no two labels are of one
-- pair, and the facts are one for each label that the clusters expand to and then one for each of the
-- pairs: each fact records its label, whether it came from a cluster or a pair, and the label's pair
-- and polarity.
pub gold_labels-IsConsistent :
    (raw_clusters : List RawTypedCluster) (raw_pairs : List RawTypedPair)
    (clusters pairs : List TypedGoldLabel) (gold : GoldLabels)
    → expand_typed_clusters raw_clusters ≡ inr clusters
    → validate_typed_pairs raw_pairs ≡ inr pairs
    → gold_labels raw_clusters raw_pairs ≡ inr gold
    → IsConsistent clusters pairs gold
unfolding gold_labels validate_typed_labels
gold_labels-IsConsistent raw_clusters raw_pairs clusters pairs gold c p h =
    let entries =
      map (λ l. (LabelFactSource.typed_cluster, l)) clusters
      ++ map (λ l. (LabelFactSource.typed_pair, l)) pairs in
    let (v, ok, same) = bind-inr (validate_from entries []) _ gold (rw (c, p, gold_labels) at h) in
    let valid = validate_from-IsValid entries [] v ok in
    subst (IsConsistent clusters pairs) (ap (right_or (gold_of v)) same) (record {
      disjoint = λ z. disjoint_sets v.0 z valid.differ;
      one_label = valid.differ;
      facts = valid.facts;
    })
