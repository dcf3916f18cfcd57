-- ===== src/Cli/Changed/Tests.antt =====
-- crates/cli/src/changed.rs: hunks of a patch.
use lean_dup.Base.{[], ◌∷◌, none, some, ◌+◌, ◌-◌, nat_eq, if◌then◌else◌, arith, ◌≡◌, refl}
use lean_dup.Cli.Changed.{
  parse_current_range, parse_current_ranges, start_and_count, inclusive, parse_u64, parse_digits,
  split_once, split_whitespace, split_words, lines, split_lines,
}
use lean_dup.Cli.Changed.RoundTrip.{print_range, parse_current_range-print_range}

two_hunks :
    parse_current_ranges "@@ -4,2 +4,3 @@\n-old\n+new\n@@ -20 +21 @@\n-old\n+new\n"
    ≡ (4, 6) ∷ (21, 21) ∷ []
unfolding parse_current_ranges parse_current_range start_and_count inclusive parse_u64 parse_digits
    split_once split_whitespace split_words lines split_lines
two_hunks = refl

carriage_return : lines "a\r\nb\r" ≡ "a" ∷ "b\r" ∷ []
unfolding lines split_lines
carriage_return = refl

deletion : parse_current_ranges "@@ -4,3 +4,0 @@\n-old\n" ≡ []
unfolding parse_current_ranges parse_current_range start_and_count inclusive parse_u64 parse_digits
    split_once split_whitespace split_words lines split_lines
deletion = refl

overflow : parse_current_range "+18446744073709551615,2" ≡ none
unfolding parse_current_range start_and_count inclusive parse_u64 parse_digits split_once
overflow = refl

parse_current_range-print_range_example :
    parse_current_range (print_range 4 3) ≡ (if nat_eq 3 0 then none else some (4, 4 + 3 - 1))
parse_current_range-print_range_example = parse_current_range-print_range 4 3 (omega arith)
