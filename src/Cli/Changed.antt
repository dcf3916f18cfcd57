-- ===== src/Cli/Changed.antt =====
-- crates/cli/src/changed.rs: the line ranges that a patch of git names, with the functions of the
-- standard library on texts that the parser calls.
pub mod Git
pub mod Ranges
pub mod RoundTrip
mod Tests
use Prim.Native.Char.{Char, code}
use Prim.Native.String.{◌∷◌ as cons}
use lean_dup.Base.{
  ℕ, ◌+◌, ◌-◌, ◌*◌, ◌^◌, String, Bool, true, false, ◌&&◌, ◌||◌, not, Option, none, some, List, [],
  ◌∷◌, any, filter, filter_map, find, if◌then◌else◌, leb, ltb, nat_eq, strip_prefix, starts_with,
}

abbrev pub is_empty_text : String → Bool
is_empty_text String.[] = true
is_empty_text (cons c s) = false

-- `str::lines`: the first line and the others. A carriage return before a line feed is dropped.
unfoldable pub split_lines : String → String × List String
split_lines String.[] = ("", [])
split_lines (cons c s) =
    let (line, others) = split_lines s in
    if nat_eq (code c) 10
    then ("", line ∷ others)
    else if nat_eq (code c) 13 && starts_with s "\n"
    then (line, others)
    else (cons c line, others)

-- No line follows the last line feed if nothing does.
abbrev pub without_last_empty : List String → List String
without_last_empty [] = []
without_last_empty (x ∷ []) = if is_empty_text x then [] else x ∷ []
without_last_empty (x ∷ y ∷ ys) = x ∷ without_last_empty (y ∷ ys)

unfoldable pub lines : String → List String
lines s = let (line, others) = split_lines s in without_last_empty (line ∷ others)

abbrev pub is_whitespace : Char → Bool
is_whitespace c =
    (leb 9 (code c) && leb (code c) 13)
    || (any (nat_eq (code c)) (32 ∷ 133 ∷ 160 ∷ 5760 ∷ 8232 ∷ 8233 ∷ 8239 ∷ 8287 ∷ 12288 ∷ [])
        || (leb 8192 (code c) && leb (code c) 8202))

unfoldable pub split_words : String → String × List String
split_words String.[] = ("", [])
split_words (cons c s) =
    let (word, others) = split_words s in
    if is_whitespace c then ("", word ∷ others) else (cons c word, others)

unfoldable pub split_whitespace : String → List String
split_whitespace s =
    let (word, others) = split_words s in filter (λ w. not (is_empty_text w)) (word ∷ others)

-- `spec.split_once(',')`.
unfoldable pub split_once : String → Option (String × String)
split_once String.[] = none
split_once (cons c s) =
    let rest = split_once s in
    if nat_eq (code c) 44
    then some ("", s)
    else elim rest [ none ↦ none | some (before, after) ↦ some (cons c before, after) ]

abbrev pub digit : Char → Option ℕ
digit c = if leb 48 (code c) && leb (code c) 57 then some (code c - 48) else none

abbrev pub checked : ℕ → Option ℕ
checked n = if ltb n (2 ^ 64) then some n else none

abbrev pub with_digit : ℕ → Option ℕ → Option ℕ
with_digit value none = none
with_digit value (some d) = checked (10 * value + d)

-- The digits after those that make `value`.
unfoldable pub parse_digits : ℕ → String → Option ℕ
parse_digits value String.[] = some value
parse_digits value (cons c s) = elim (with_digit value (digit c)) [
  | none ↦ none
  | some next ↦ parse_digits next s
]

-- `str::parse::<u64>`, which takes a leading plus sign.
unfoldable pub parse_u64 : String → Option ℕ
parse_u64 String.[] = none
parse_u64 (cons c s) =
    if nat_eq (code c) 43
    then if is_empty_text s then none else parse_digits 0 s
    else parse_digits 0 (cons c s)

abbrev pub both : Option ℕ → Option ℕ → Option (ℕ × ℕ)
both none count = none
both (some start) none = none
both (some start) (some count) = some (start, count)

abbrev pub read_parts : String → Option (String × String) → Option (ℕ × ℕ)
read_parts spec none = both (parse_u64 spec) (some 1)
read_parts spec (some (left, right)) = both (parse_u64 left) (parse_u64 right)

-- The start and the count of a hunk.
unfoldable pub start_and_count : String → Option (ℕ × ℕ)
start_and_count spec = read_parts spec (split_once spec)

unfoldable pub inclusive : ℕ → ℕ → Option (ℕ × ℕ)
inclusive start count = if nat_eq count 0 then none else elim (checked (start + count)) [
  | none ↦ none
  | some end ↦ if ltb end 1 then none else some (start, end - 1)
]

unfoldable pub parse_current_range : String → Option (ℕ × ℕ)
parse_current_range spec = elim (strip_prefix "+" spec) [
  | none ↦ none
  | some rest ↦ elim (start_and_count rest) [
    | none ↦ none
    | some (start, count) ↦ inclusive start count
  ]
]

unfoldable pub parse_current_ranges : String → List (ℕ × ℕ)
parse_current_ranges patch = filter_map parse_current_range (
    filter_map (λ header. find (λ part. starts_with part "+") (split_whitespace header))
      (filter_map (strip_prefix "@@ ") (lines patch)))
