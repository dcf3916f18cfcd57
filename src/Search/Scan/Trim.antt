-- ===== src/Search/Scan/Trim.antt =====
-- `str::trim`, `join`, `replacen(…, 1)` and `split_whitespace` of the standard library, as
-- crates/search/src/source_refs.rs uses them.
use Prim.Native.String.{◌∷◌ as cons, ◌++◌ as append}
use lean_dup.Base.{String, ◌&&◌, none, some, List, [], ◌∷◌, if◌then◌else◌, strip_prefix}
use lean_dup.Cli.Changed.{is_whitespace, is_empty_text}

unfoldable pub trim_start : String → String
trim_start String.[] = ""
trim_start (cons c s) = let rest = trim_start s in if is_whitespace c then rest else cons c s

unfoldable pub trim_end : String → String
trim_end String.[] = ""
trim_end (cons c s) =
    let rest = trim_end s in if is_empty_text rest && is_whitespace c then "" else cons c rest

unfoldable pub trim : String → String
trim s = trim_start (trim_end s)

abbrev pub join : String → List String → String
join separator [] = ""
join separator (x ∷ []) = x
join separator (x ∷ y ∷ ys) = append x (append separator (join separator (y ∷ ys)))

-- The first occurrence of a pattern that is not empty.
unfoldable pub replace_first : String → String → String → String
replace_first pattern replacement String.[] = ""
replace_first pattern replacement (cons c s) =
    let rest = cons c (replace_first pattern replacement s) in
    elim (strip_prefix pattern (cons c s)) [ some after ↦ append replacement after | none ↦ rest ]
