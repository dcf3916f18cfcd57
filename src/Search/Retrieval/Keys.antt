-- ===== src/Search/Retrieval/Keys.antt =====
-- crates/search/src/retrieval.rs: the semantic keys that a declaration is looked up by
-- (`planned_keys`).
use Prim.Native.String.{◌++◌ as append}
use lean_dup.Base.{
  ℕ, ◌-◌, ◌^◌, String, Ordering, Bool, true, false, ◌&&◌, not, Option, none, some, List, [], ◌∷◌,
  ◌++◌, map, any, filter, filter_map, if◌then◌else◌, ◌==◌, one_of, strip_prefix, ends_with, sort_by,
  and_then, FloatOps, text_ord, nat_ord, pair_ord,
}
use lean_dup.Index.Opened.{SemanticFeatureKey, FingerprintKind, key_text}
use lean_dup.Index.Opened.FingerprintKind.{
  statement_kind, safe_permutation_kind, connective_kind, conclusion_kind,
}
use lean_dup.Index.Opened.SemanticFeatureKey.{fingerprint, role_feature}
use lean_dup.Search.Declaration.{HydratedDeclaration, RoleFeature, KeyContribution}

pub record PlannedKey (S : Type 0) : Type 0 where
  pub key : SemanticFeatureKey
  pub contribution : KeyContribution S
  pub base_weight : S
  pub broad_head : Bool
  pub admits_candidate : Bool

abbrev pub or_empty : Option String → String
or_empty none = ""
or_empty (some role) = role

unfoldable pub contribution_sort_key : {S : Type 0} → KeyContribution S → String
contribution_sort_key c = append c.kind (append ":" (append (or_empty c.role) (append ":" c.key)))

abbrev pub role_family : Option String → String
role_family none = "role_other"
role_family (some role) =
    if role == "conclusion_const"
    then "role_conclusion_const"
    else if role == "hypothesis_const"
    then "role_hypothesis_const"
    else if one_of role ("conclusion_head" ∷ "hypothesis_head" ∷ "binder_domain_head" ∷ [])
    then "role_head"
    else "role_other"

unfoldable pub feature_family : {S : Type 0} → KeyContribution S → String
feature_family c =
    if c.kind == "statement-fingerprint"
    then "statement_fingerprint"
    else if c.kind == "safe-permutation-fingerprint"
    then "safe_permutation_fingerprint"
    else if c.kind == "connective-fingerprint"
    then "connective_fingerprint"
    else if c.kind == "conclusion-fingerprint"
    then "conclusion_fingerprint"
    else if c.kind == "role-feature"
    then role_family c.role
    else "other"

-- `usize::MAX` for a fingerprint.
unfoldable pub posting_limit : {S : Type 0} → PlannedKey S → ℕ
posting_limit plan =
    if plan.broad_head
    then 64
    else elim plan.key [ role_feature role k ↦ 512 | fingerprint kind k ↦ 2 ^ 64 - 1 ]

unfoldable pub prune_reason_for_plan : {S : Type 0} → PlannedKey S → String
prune_reason_for_plan plan = if plan.broad_head then "broad-posting" else "overwide-posting"

abbrev pub declared_broad : HydratedDeclaration → List String
declared_broad d = filter_map (strip_prefix "broad_head:") d.low_signal_markers

abbrev pub shown_in : List String → Option String → Bool
shown_in heads none = false
shown_in heads (some display) = any (λ head. head == display) heads

-- `role.ends_with("_head")`.
abbrev pub is_head : String → Bool
is_head role = ends_with role "_head"

abbrev pub flag_rank : Bool → ℕ
flag_rank false = 0
flag_rank true = 1

abbrev pub or_equal : Option Ordering → Ordering
or_equal none = Ordering.eq
or_equal (some o) = o

module _ {S : Type 0} (float : FloatOps S) where
  unfoldable pub fingerprint_plan : FingerprintKind → String → String → ℕ → PlannedKey S
  fingerprint_plan kind key label base_weight = record {
    key = fingerprint kind key;
    contribution = record {
      kind = label;
      role = none;
      display = none;
      key = key;
      score = float.literal 0;
    };
    base_weight = float.literal base_weight;
    broad_head = false;
    admits_candidate = true;
  }

  unfoldable pub role_weight : String → Bool → S
  role_weight role broad_head = float.literal (
      if broad_head
      then 1
      else if role == "conclusion_const"
      then 18
      else if role == "hypothesis_const"
      then 10
      else if role == "conclusion_head"
      then 8
      else if role == "hypothesis_head"
      then 4
      else if role == "binder_domain_head"
      then 3
      else 2)

  unfoldable pub role_plan : List String → RoleFeature → PlannedKey S
  role_plan heads feature =
      let broad_head = shown_in heads feature.display && is_head feature.role in
      record {
        key = role_feature feature.role feature.key;
        contribution = record {
          kind = "role-feature";
          role = some feature.role;
          display = feature.display;
          key = feature.key;
          score = float.literal 0;
        };
        base_weight = role_weight feature.role broad_head;
        broad_head = broad_head;
        admits_candidate = not broad_head && not (feature.role == "binder_domain_head");
      }

  unfoldable pub planned_keys : HydratedDeclaration → List (PlannedKey S)
  planned_keys d =
      let fingerprints =
        fingerprint_plan statement_kind d.fingerprints.statement "statement-fingerprint" 100
        ∷ fingerprint_plan safe_permutation_kind d.fingerprints.safe_binder_permutation
            "safe-permutation-fingerprint" 85
        ∷ fingerprint_plan connective_kind d.fingerprints.connective_shape "connective-fingerprint"
            65
        ∷ fingerprint_plan conclusion_kind d.fingerprints.conclusion_shape "conclusion-fingerprint"
            45
        ∷ [] in
      filter (λ plan. not (key_text plan.key == "")) fingerprints
      ++ map (role_plan (declared_broad d))
          (filter (λ feature. not (feature.key == "")) d.role_features)

  unfoldable pub plan_order : PlannedKey S → PlannedKey S → Ordering
  plan_order l r =
      and_then (nat_ord.cmp (flag_rank r.admits_candidate) (flag_rank l.admits_candidate)) (
        and_then (or_equal (float.partial_cmp r.base_weight l.base_weight)) (
          text_ord.cmp (contribution_sort_key l.contribution)
            (contribution_sort_key r.contribution)))

  unfoldable pub sorted_plans : List (PlannedKey S) → List (PlannedKey S)
  sorted_plans plans = sort_by plan_order plans
