-- ===== src/Search/Baseline/Tests.antt =====
-- crates/search/src/baseline.rs: two snapshots with one group each way and one that changed.
use lean_dup.Base.{String, List, [], ◌∷◌, map, ◌≡◌, refl, text_ord}
use lean_dup.Base.Maps
use lean_dup.Base.Sets
use lean_dup.Search.Baseline.{
  BaselineGroup, BaselineSnapshot, BaselineDiff, collect_groups, ids_of, difference, intersection,
  changes, diff,
}
use lean_dup.Search.Baseline.Symmetry.{swap, diff-swap, diff_self}

abbrev group : String → String → BaselineGroup
group id digest = record {
  id = id;
  relation = "exact-statement";
  review_priority = "high";
  recommended_action = "manual-review";
  member_ids = [];
  evidence_summary = [];
  evidence_digest = digest;
}

abbrev snapshot : List BaselineGroup → BaselineSnapshot
snapshot groups = record {
  schema_version = "lean-dup.baseline.v1";
  workspace_fingerprint = "w";
  groups = groups;
}

abbrev first : BaselineSnapshot
first = snapshot (group "b" "1" ∷ group "a" "1" ∷ [])

abbrev second : BaselineSnapshot
second = snapshot (group "c" "1" ∷ group "b" "2" ∷ [])

abbrev between : BaselineDiff
between = diff "n" "p" first second

found :
    between.appeared ≡ group "c" "1" ∷ []
    × between.disappeared ≡ group "a" "1" ∷ []
    × between.changed ≡ record { id = "b"; before = group "b" "1"; after = group "b" "2" } ∷ []
unfolding diff collect_groups ids_of difference intersection changes Maps.get Maps.insert
    Sets.extend Sets.insert Sets.contains
found = (refl, refl, refl)

diff-swap_example :
    ((diff "n" "p" second first).appeared ≡ between.disappeared)
    × ((diff "n" "p" second first).disappeared ≡ between.appeared)
    × ((diff "n" "p" second first).changed ≡ map swap between.changed)
diff-swap_example = diff-swap "n" "p" first second

diff_self_example :
    ((diff "n" "p" first first).appeared ≡ [])
    × ((diff "n" "p" first first).disappeared ≡ [])
    × ((diff "n" "p" first first).changed ≡ [])
diff_self_example = diff_self "n" "p" first
