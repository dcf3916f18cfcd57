-- ===== src/Cli/Changed/Ranges.antt =====
-- crates/cli/src/changed.rs: the bounds of the ranges.
use lean_dup.Base.{
  ℕ, ◌+◌, ◌≤◌, ◌<◌, ◌^◌, String, Option, none, some, List, [], ◌∷◌, filter_map, All, Holds,
  All-prepend, strip_prefix, arith,
}
use lean_dup.Cli.Changed.{parse_current_range, parse_current_ranges, start_and_count, inclusive}

-- A range has a line, and its end is below the largest number of 64 bits.
abbrev pub IsRange : ℕ × ℕ → Type 0
IsRange r = (r.0 ≤ r.1) × (r.1 + 1 < 2 ^ 64)

inclusive-IsRange : (start count : ℕ) → Holds IsRange (inclusive start count)
unfolding inclusive
inclusive-IsRange start count = ground arith

from_parts :
    (parts : Option (ℕ × ℕ))
    → Holds IsRange (elim parts [ none ↦ none | some (start, count) ↦ inclusive start count ])
from_parts none = tt
from_parts (some (start, count)) = inclusive-IsRange start count

from_rest :
    (stripped : Option String)
    → Holds IsRange (elim stripped [
      | none ↦ none
      | some rest ↦ elim (start_and_count rest) [
        | none ↦ none
        | some (start, count) ↦ inclusive start count
      ]
    ])
from_rest none = tt
from_rest (some rest) = from_parts (start_and_count rest)

parse_current_range-IsRange : (spec : String) → Holds IsRange (parse_current_range spec)
unfolding parse_current_range
parse_current_range-IsRange spec = from_rest (strip_prefix "+" spec)

all_ranges : (specs : List String) → All IsRange (filter_map parse_current_range specs)
all_ranges [] = tt
all_ranges (s ∷ ss) =
    All-prepend IsRange (parse_current_range s) (filter_map parse_current_range ss)
      (parse_current_range-IsRange s) (all_ranges ss)

-- Every range of a patch has a line and ends below the largest number of 64 bits, whatever the
-- patch says.
pub parse_current_ranges-IsRange : (patch : String) → All IsRange (parse_current_ranges patch)
unfolding parse_current_ranges
parse_current_ranges-IsRange patch = all_ranges _
