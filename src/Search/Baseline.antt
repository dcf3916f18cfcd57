-- ===== src/Search/Baseline.antt =====
-- crates/search/src/baseline.rs: `diff` of two snapshots. A path is its text.
pub mod Symmetry
mod Tests
use lean_dup.Base.{
  String, Bool, not, Option, none, some, List, [], ◌∷◌, map, filter, filter_map, if◌then◌else◌,
  ◌==◌, Ord, text_ord,
}
use lean_dup.Base.Maps
use lean_dup.Base.Sets

pub record BaselineGroup : Type 0 where
  pub id : String
  pub relation : String
  pub review_priority : String
  pub recommended_action : String
  pub member_ids : List String
  pub evidence_summary : List String
  pub evidence_digest : String

pub record BaselineSnapshot : Type 0 where
  pub schema_version : String
  pub workspace_fingerprint : String
  pub groups : List BaselineGroup

pub record BaselineChange : Type 0 where
  pub id : String
  pub before : BaselineGroup
  pub after : BaselineGroup

pub record BaselineDiff : Type 0 where
  pub baseline : String
  pub baseline_path : String
  pub appeared : List BaselineGroup
  pub disappeared : List BaselineGroup
  pub changed : List BaselineChange

abbrev pub GroupMap : Type 0
GroupMap = List (String × BaselineGroup)

-- A map collected from the groups: of two groups with one identity the later stays.
unfoldable pub collect_groups : List BaselineGroup → GroupMap → GroupMap
collect_groups [] m = m
collect_groups (g ∷ gs) m = collect_groups gs (Maps.insert g.id g m)

unfoldable pub ids_of : GroupMap → List String
ids_of m = Sets.extend (map (λ entry. entry.0) m) []

-- `BTreeSet::difference` and `BTreeSet::intersection`.
module _ {ℓ} {K : Type ℓ} ⦃o : Ord K⦄ where
  unfoldable pub difference : List K → List K → List K
  difference s t = filter (λ x. not (Sets.contains x t)) s

  unfoldable pub intersection : List K → List K → List K
  intersection s t = filter (λ x. Sets.contains x t) s

abbrev pub change_of : String → Option BaselineGroup → Option BaselineGroup → Option BaselineChange
change_of id none after = none
change_of id (some before) none = none
change_of id (some before) (some after) =
    if not (before.evidence_digest == after.evidence_digest)
    then some (record { id = id; before = before; after = after })
    else none

unfoldable pub changes : GroupMap → GroupMap → List String → List BaselineChange
changes before after ids =
    filter_map (λ id. change_of id (Maps.get id before) (Maps.get id after)) ids

unfoldable pub diff : String → String → BaselineSnapshot → BaselineSnapshot → BaselineDiff
diff name baseline_path baseline current =
    let before = collect_groups baseline.groups [] in
    let after = collect_groups current.groups [] in
    let before_ids = ids_of before in
    let after_ids = ids_of after in
    record {
      baseline = name;
      baseline_path = baseline_path;
      appeared = filter_map (λ id. Maps.get id after) (difference after_ids before_ids);
      disappeared = filter_map (λ id. Maps.get id before) (difference before_ids after_ids);
      changed = changes before after (intersection before_ids after_ids);
    }
