-- ===== src/Cli/Changed/Git/Tests.antt =====
-- crates/cli/src/changed.rs: a repository with a changed and an untracked file. Its encoding of
-- texts has a byte for each of the four that occur.
use lean_dup.Base.{
  ℕ, String, Bool, true, Option, none, some, List, [], ◌∷◌, inl, inr, ◌⊎◌, ◌==◌, if◌then◌else◌,
  Ends, done, failed, ◌≡◌, refl, get_elem?, list_ord, text_ord,
}
use lean_dup.Base.Maps.{get_or_default}
use lean_dup.Base.Sets
use lean_dup.Index.Closure.{FilePath}
use lean_dup.Search.Scan.Trim.{trim, trim_start, trim_end}
use lean_dup.Cli.Changed.{
  parse_current_range, parse_current_ranges, start_and_count, inclusive, parse_u64, parse_digits,
  split_once, split_whitespace, split_words, lines, split_lines,
}
use lean_dup.Cli.Changed.Git.{
  AppError, AuditSourceRange, Output, Host, utf8_or, resolved_or, git, changed_ranges, all_lines,
  changed_file, untracked_file, for_each, ranges_since, source_ranges, join, path_from,
  split_slashes, normal_components, names_in, range_ord,
}
use lean_dup.Cli.Changed.Git.Origin.{IsAccepted, source_ranges-IsAccepted}

abbrev prints : List ℕ → String ⊎ Output
prints bytes = inr (record { success = true; stdout = bytes; stderr = [] })

abbrev answer : List String → String ⊎ Output
answer [] = inl "no command"
answer (command ∷ []) = inl "no arguments"
answer (command ∷ option ∷ rest) =
    if command == "rev-parse"
    then prints (1 ∷ [])
    else if command == "ls-files"
    then prints (4 ∷ 0 ∷ [])
    else if option == "--name-only"
    then prints (2 ∷ 0 ∷ 5 ∷ 0 ∷ [])
    else prints (3 ∷ [])

abbrev texts : List String
texts =
    "" ∷ "/r\n" ∷ "p/a.lean" ∷ "@@ -4,2 +4,3 @@\n-old\n+new\n@@ -20 +21 @@\n-old\n+new\n" ∷ "b.lean"
    ∷ "gone.lean" ∷ []

abbrev decode : List ℕ → Option String
decode [] = some ""
decode (b ∷ []) = get_elem? texts b
decode (b ∷ c ∷ bs) = none

abbrev is_present : FilePath → Bool
is_present path =
    Sets.contains path (("/" ∷ "r" ∷ "p" ∷ "a.lean" ∷ []) ∷ ("/" ∷ "r" ∷ "b.lean" ∷ []) ∷ [])

abbrev host : Host String
host = record {
  output = λ cwd args. answer args;
  from_utf8 = decode;
  from_utf8_lossy = λ bytes. get_or_default "" (decode bytes);
  is_file = is_present;
  canonicalize = λ path. inr path;
}

abbrev range : FilePath → ℕ → ℕ → AuditSourceRange
range file first last = record { file = file; start_line = first; end_line = last }

changed_and_new :
    source_ranges host [] "HEAD"
    ≡ done (
        range ("/" ∷ "r" ∷ "b.lean" ∷ []) 1 18446744073709551615
        ∷ range ("/" ∷ "r" ∷ "p" ∷ "a.lean" ∷ []) 4 6
        ∷ range ("/" ∷ "r" ∷ "p" ∷ "a.lean" ∷ []) 21 21
        ∷ [])
unfolding source_ranges ranges_since git utf8_or resolved_or changed_ranges all_lines changed_file
    untracked_file for_each join path_from split_slashes normal_components names_in Sets.extend
    Sets.insert Sets.contains trim trim_start trim_end parse_current_range parse_current_ranges
    start_and_count inclusive parse_u64 parse_digits split_once split_whitespace split_words lines
    split_lines
changed_and_new = refl

an_option :
    source_ranges host [] "--output=x"
    ≡ failed (AppError.cli "invalid --changed-since revision `--output=x`")
unfolding source_ranges
an_option = refl

source_ranges-IsAccepted_example : Ends (IsAccepted host "HEAD") (source_ranges host [] "HEAD")
source_ranges-IsAccepted_example = source_ranges-IsAccepted host [] "HEAD"
