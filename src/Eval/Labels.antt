-- ===== src/Eval/Labels.antt =====
-- crates/eval/src/eval/labels.rs: `parse_json`, once serde has read the document. An error is its
-- message, and a set is an ascending list.
pub mod Consistency
pub mod Clusters
mod Tests
use Prim.Native.String.{◌++◌ as append}
use lean_dup.Base.{
  ℕ, suc, ◌+◌, ◌*◌, String, Bool, true, false, ◌&&◌, not, Option, none, some, List, [], ◌∷◌, ◌++◌,
  map, filter, length, ltb, nat_eq, if◌then◌else◌, ◌⊎◌, inl, inr, text_ord, pair_ord,
}
use lean_dup.Base.Maps
use lean_dup.Base.Sets
use lean_dup.Eval.Scoring.{GoldPair, gold_pair, GoldSets}

pub data LabelPolarity : Type 0 where
  positive : LabelPolarity
  hard_negative : LabelPolarity

pub data MatchClass : Type 0 where
  exact_theorem_duplicate : MatchClass
  binder_permutation_duplicate : MatchClass
  reducible_definition_duplicate : MatchClass
  replacement_candidate : MatchClass
  specialization_generalization : MatchClass
  local_cleanup_duplicate : MatchClass
  static_structural_similarity : MatchClass
  non_actionable_related_theorem : MatchClass
  hard_negative_class : MatchClass

pub data ExpectedStageVisibility : Type 0 where
  candidate_stage : ExpectedStageVisibility
  ranked_stage : ExpectedStageVisibility
  visible_stage : ExpectedStageVisibility
  hidden_stage : ExpectedStageVisibility

pub data AdjudicationSource : Type 0 where
  fixture_intent : AdjudicationSource
  manual_inspection : AdjudicationSource
  prompt27_evidence : AdjudicationSource

pub data LabelConfidence : Type 0 where
  high_confidence : LabelConfidence
  medium_confidence : LabelConfidence
  low_confidence : LabelConfidence

pub data LabelFactSource : Type 0 where
  typed_cluster : LabelFactSource
  typed_pair : LabelFactSource

abbrev pub is_positive : LabelPolarity → Bool
is_positive positive = true
is_positive hard_negative = false

abbrev pub class_rank : MatchClass → ℕ
class_rank exact_theorem_duplicate = 0
class_rank binder_permutation_duplicate = 1
class_rank reducible_definition_duplicate = 2
class_rank replacement_candidate = 3
class_rank specialization_generalization = 4
class_rank local_cleanup_duplicate = 5
class_rank static_structural_similarity = 6
class_rank non_actionable_related_theorem = 7
class_rank hard_negative_class = 8

abbrev pub stage_rank : ExpectedStageVisibility → ℕ
stage_rank candidate_stage = 0
stage_rank ranked_stage = 1
stage_rank visible_stage = 2
stage_rank hidden_stage = 3

abbrev pub source_rank : AdjudicationSource → ℕ
source_rank fixture_intent = 0
source_rank manual_inspection = 1
source_rank prompt27_evidence = 2

abbrev pub confidence_rank : LabelConfidence → ℕ
confidence_rank high_confidence = 0
confidence_rank medium_confidence = 1
confidence_rank low_confidence = 2

pub record TypedGoldLabel : Type 0 where
  pub pair : GoldPair
  pub polarity : LabelPolarity
  pub match_class : MatchClass
  pub expected_stage_visibility : ExpectedStageVisibility
  pub adjudication_source : AdjudicationSource
  pub confidence : LabelConfidence
  pub semantic_verification_required : Bool
  pub static_evidence_acceptable : Bool

pub record GoldLabelFact : Type 0 where
  pub pair : GoldPair
  pub polarity : LabelPolarity
  pub source : LabelFactSource
  pub typed : Option TypedGoldLabel

-- The optional fields that a raw cluster and a raw pair share.
pub record RawLabel : Type 0 where
  pub polarity : Option LabelPolarity
  pub match_class : Option MatchClass
  pub expected_stage_visibility : Option ExpectedStageVisibility
  pub adjudication_source : Option AdjudicationSource
  pub confidence : Option LabelConfidence
  pub semantic_verification_required : Option Bool
  pub static_evidence_acceptable : Option Bool

pub record RawTypedCluster : Type 0 where
  pub id : String
  pub members : List String
  pub label : RawLabel

pub record RawTypedPair : Type 0 where
  pub left : String
  pub right : String
  pub label : RawLabel

abbrev pub same_bool : Bool → Bool → Bool
same_bool true b = b
same_bool false b = not b

unfoldable pub same_label : TypedGoldLabel → TypedGoldLabel → Bool
same_label a b =
    Sets.same a.pair b.pair
    && same_bool (is_positive a.polarity) (is_positive b.polarity)
    && nat_eq (class_rank a.match_class) (class_rank b.match_class)
    && nat_eq (stage_rank a.expected_stage_visibility) (stage_rank b.expected_stage_visibility)
    && nat_eq (source_rank a.adjudication_source) (source_rank b.adjudication_source)
    && nat_eq (confidence_rank a.confidence) (confidence_rank b.confidence)
    && same_bool a.semantic_verification_required b.semantic_verification_required
    && same_bool a.static_evidence_acceptable b.static_evidence_acceptable

-- `?` on a `Result` whose error is a message.
abbrev pub bind : {A B : Type 0} → String ⊎ A → (A → String ⊎ B) → String ⊎ B
bind (inl e) f = inl e
bind (inr a) f = f a

unfoldable pub required : {T : Type 0} → Option T → String → GoldPair → String ⊎ T
required (some value) field pair = inr value
required none field pair = inl (
    append "typed label for " (
      append pair.0
        (append " / " (append pair.1 (append " is missing required field `" (append field "`"))))))

unfoldable pub label_of : RawLabel → GoldPair → String ⊎ TypedGoldLabel
label_of raw pair = bind (required raw.polarity "polarity" pair) (λ polarity.
    bind (required raw.match_class "match_class" pair) (λ match_class.
      bind (required raw.expected_stage_visibility "expected_stage_visibility" pair) (λ visibility.
        bind (required raw.adjudication_source "adjudication_source" pair) (λ source.
          bind (required raw.confidence "confidence" pair) (λ confidence.
            bind (required raw.semantic_verification_required "semantic_verification_required" pair)
              (λ semantic.
                bind (required raw.static_evidence_acceptable "static_evidence_acceptable" pair)
                  (λ static. inr (record {
                    pair = pair;
                    polarity = polarity;
                    match_class = match_class;
                    expected_stage_visibility = visibility;
                    adjudication_source = source;
                    confidence = confidence;
                    semantic_verification_required = semantic;
                    static_evidence_acceptable = static;
                  }))))))))

-- `collect` into a `Result`: the first error ends it.
unfoldable pub labels_of : RawLabel → List GoldPair → String ⊎ List TypedGoldLabel
labels_of raw [] = inr []
labels_of raw (p ∷ ps) = bind (label_of raw p) (λ l. bind (labels_of raw ps) (λ ls. inr (l ∷ ls)))

-- The pairs of the two loops over the indices: each member with every later one.
unfoldable pub member_pairs : List String → List GoldPair
member_pairs [] = []
member_pairs (m ∷ ms) = map (gold_pair m) ms ++ member_pairs ms

unfoldable pub expand_cluster : RawTypedCluster → String ⊎ List TypedGoldLabel
expand_cluster raw =
    if ltb (length raw.members) 2
    then inl (append "typed cluster `" (append raw.id "` must contain at least two members"))
    else labels_of raw.label (member_pairs raw.members)

unfoldable pub expand_typed_clusters : List RawTypedCluster → String ⊎ List TypedGoldLabel
expand_typed_clusters [] = inr []
expand_typed_clusters (c ∷ cs) =
    bind (expand_cluster c) (λ ls. bind (expand_typed_clusters cs) (λ rest. inr (ls ++ rest)))

unfoldable pub validate_typed_pairs : List RawTypedPair → String ⊎ List TypedGoldLabel
validate_typed_pairs [] = inr []
validate_typed_pairs (p ∷ ps) =
    bind (label_of p.label (gold_pair p.left p.right))
      (λ l. bind (validate_typed_pairs ps) (λ ls. inr (l ∷ ls)))

abbrev pub fact_of : LabelFactSource × TypedGoldLabel → GoldLabelFact
fact_of entry = record {
  pair = entry.1.pair;
  polarity = entry.1.polarity;
  source = entry.0;
  typed = some entry.1;
}

abbrev pub Validated : Type 0
Validated = List TypedGoldLabel × List GoldLabelFact

abbrev pub contradiction : GoldPair → String
contradiction pair = append "contradictory typed labels for " (append pair.0 (append " / " pair.1))

-- The loop of `validate_typed_labels`, with the map of the labels seen.
unfoldable pub validate_from :
    List (LabelFactSource × TypedGoldLabel) → List (GoldPair × TypedGoldLabel) → String ⊎ Validated
validate_from [] seen = inr ([], [])
validate_from (entry ∷ entries) seen = elim (Maps.get entry.1.pair seen) [
  | some previous ↦
      if same_label previous entry.1
      then bind (validate_from entries seen) (λ v. inr (v.0, fact_of entry ∷ v.1))
      else inl (contradiction entry.1.pair)
  | none ↦
      bind (validate_from entries (Maps.insert entry.1.pair entry.1 seen))
        (λ v. inr (entry.1 ∷ v.0, fact_of entry ∷ v.1))
]

unfoldable pub validate_typed_labels :
    List TypedGoldLabel → List TypedGoldLabel → String ⊎ Validated
validate_typed_labels clusters pairs =
    validate_from
      (map (λ l. (LabelFactSource.typed_cluster, l)) clusters
        ++ map (λ l. (LabelFactSource.typed_pair, l)) pairs)
      []

unfoldable pub pairs_with : Bool → List TypedGoldLabel → List GoldPair
pairs_with polarity labels =
    Sets.extend
      (map (λ l. l.pair) (filter (λ l. same_bool polarity (is_positive l.polarity)) labels)) []

pub record GoldLabels : Type 0 where
  pub sets : GoldSets
  pub typed_pairs : List TypedGoldLabel
  pub label_facts : List GoldLabelFact

unfoldable pub gold_labels : List RawTypedCluster → List RawTypedPair → String ⊎ GoldLabels
gold_labels raw_clusters raw_pairs = bind (expand_typed_clusters raw_clusters) (λ clusters.
    bind (validate_typed_pairs raw_pairs) (λ pairs.
      bind (validate_typed_labels clusters pairs) (λ v. inr (record {
        sets = record { positives = pairs_with true v.0; hard_negatives = pairs_with false v.0 };
        typed_pairs = v.0;
        label_facts = v.1;
      }))))
