-- ===== src/Eval/Labels/Tests.antt =====
-- crates/eval/src/eval/labels.rs: a cluster of three and a hard negative.
use lean_dup.Base.{
  true, false, some, List, [], ◌∷◌, ◌++◌, map, length, ltb, inr, ◌≡◌, refl, text_ord,
}
use lean_dup.Base.Maps
use lean_dup.Eval.Scoring.{GoldPair, gold_pair}
use lean_dup.Eval.Labels.{
  LabelPolarity, MatchClass, ExpectedStageVisibility, AdjudicationSource, LabelConfidence,
  LabelFactSource, TypedGoldLabel, RawLabel, RawTypedCluster, RawTypedPair, GoldLabels, required,
  label_of, labels_of, member_pairs, expand_cluster, expand_typed_clusters, validate_typed_pairs,
  validate_typed_labels, validate_from, gold_labels, fact_of,
}
use lean_dup.Eval.Labels.Consistency.{IsConsistent, gold_of, gold_labels-IsConsistent}
use lean_dup.Eval.Labels.Clusters.{PairOff, expand_cluster_lem}

abbrev raw : LabelPolarity → RawLabel
raw polarity = record {
  polarity = some polarity;
  match_class = some MatchClass.exact_theorem_duplicate;
  expected_stage_visibility = some ExpectedStageVisibility.visible_stage;
  adjudication_source = some AdjudicationSource.fixture_intent;
  confidence = some LabelConfidence.high_confidence;
  semantic_verification_required = some true;
  static_evidence_acceptable = some true;
}

abbrev label : LabelPolarity → GoldPair → TypedGoldLabel
label polarity pair = record {
  pair = pair;
  polarity = polarity;
  match_class = MatchClass.exact_theorem_duplicate;
  expected_stage_visibility = ExpectedStageVisibility.visible_stage;
  adjudication_source = AdjudicationSource.fixture_intent;
  confidence = LabelConfidence.high_confidence;
  semantic_verification_required = true;
  static_evidence_acceptable = true;
}

abbrev cluster : RawTypedCluster
cluster = record { id = "p"; members = "b" ∷ "a" ∷ "c" ∷ []; label = raw LabelPolarity.positive }

abbrev negative : RawTypedPair
negative = record { left = "q"; right = "p"; label = raw LabelPolarity.hard_negative }

abbrev expanded : List TypedGoldLabel
expanded =
    label LabelPolarity.positive ("a", "b")
    ∷ label LabelPolarity.positive ("b", "c")
    ∷ label LabelPolarity.positive ("a", "c")
    ∷ []

abbrev validated : List TypedGoldLabel
validated = label LabelPolarity.hard_negative ("p", "q") ∷ []

cluster_expands : expand_cluster cluster ≡ inr expanded
unfolding expand_cluster labels_of label_of required member_pairs gold_pair
cluster_expands = refl

clusters_expand : expand_typed_clusters (cluster ∷ []) ≡ inr expanded
unfolding expand_typed_clusters expand_cluster labels_of label_of required member_pairs gold_pair
clusters_expand = refl

pairs_validate : validate_typed_pairs (negative ∷ []) ≡ inr validated
unfolding validate_typed_pairs label_of required gold_pair
pairs_validate = refl

abbrev gold : GoldLabels
gold = gold_of (
  expanded ++ validated,
  map (λ l. fact_of (LabelFactSource.typed_cluster, l)) expanded
      ++ map (λ l. fact_of (LabelFactSource.typed_pair, l)) validated,
)

accepted : gold_labels (cluster ∷ []) (negative ∷ []) ≡ inr gold
unfolding gold_labels expand_typed_clusters expand_cluster validate_typed_pairs labels_of label_of
    required member_pairs gold_pair validate_typed_labels validate_from Maps.get Maps.insert
accepted = refl

gold_labels-IsConsistent_example : IsConsistent expanded validated gold
gold_labels-IsConsistent_example =
    gold_labels-IsConsistent (cluster ∷ []) (negative ∷ []) expanded validated gold clusters_expand
      pairs_validate accepted

expand_cluster_lem_example :
    (ltb (length cluster.members) 2 ≡ false) × PairOff cluster.label cluster.members expanded
expand_cluster_lem_example = expand_cluster_lem cluster expanded cluster_expands
