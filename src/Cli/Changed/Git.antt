-- ===== src/Cli/Changed/Git.antt =====
-- crates/cli/src/changed.rs: the lines that git says have changed, with git, the file system and
-- the decoding of UTF-8 as parameters; of std::path, what the code uses of it.
pub mod Origin
mod Tests
use Prim.Native.Char.{code}
use Prim.Native.String.{◌∷◌ as cons, ◌++◌ as append}
use lean_dup.Base.{
  ℕ, ◌-◌, ◌^◌, String, Bool, ◌||◌, not, Option, none, some, List, [], ◌∷◌, ◌++◌, map, filter, inl,
  inr, nat_eq, if◌then◌else◌, ◌==◌, starts_with, ◌⊎◌, Attempt, done, failed, ◌>>=◌, Ord,
  ord_by_code, list_ord, pair_ord, text_ord, nat_ord, refl,
}
use lean_dup.Base.Sets
use lean_dup.Index.Closure.{FilePath}
use lean_dup.Cli.Changed.{is_empty_text, parse_current_ranges}
use lean_dup.Search.Scan.Trim.{trim}

-- The variants of `AppError` that the code makes.
pub data AppError (E : Type 0) : Type 0 where
  io : String → FilePath → E → AppError E
  cli : String → AppError E

pub record AuditSourceRange : Type 0 where
  pub file : FilePath
  pub start_line : ℕ
  pub end_line : ℕ

pub record Output : Type 0 where
  pub success : Bool
  pub stdout : List ℕ
  pub stderr : List ℕ

pub record Host (E : Type 0) : Type 0 where
  -- `Command::new("git")` in a directory, with arguments.
  pub output : FilePath → List String → E ⊎ Output
  pub from_utf8 : List ℕ → Option String
  pub from_utf8_lossy : List ℕ → String
  pub is_file : FilePath → Bool
  pub canonicalize : FilePath → E ⊎ FilePath

-- The components of a path: empty ones and dots are dropped.
unfoldable pub split_slashes : String → String × List String
split_slashes String.[] = ("", [])
split_slashes (cons c s) =
    let (part, others) = split_slashes s in
    if nat_eq (code c) 47 then ("", part ∷ others) else (cons c part, others)

unfoldable pub normal_components : String → List String
normal_components text =
    let (part, others) = split_slashes text in
    filter (λ x. not (is_empty_text x || (x == "."))) (part ∷ others)

-- A path begins with its root, or with the dot with which its text begins.
unfoldable pub path_from : String → FilePath
path_from text =
    if starts_with text "/"
    then "/" ∷ normal_components text
    else if (text == ".") || starts_with text "./"
    then "." ∷ normal_components text
    else normal_components text

unfoldable pub join : FilePath → String → FilePath
join root relative =
    if starts_with relative "/" then path_from relative else root ++ normal_components relative

-- `split(|byte| *byte == 0)`.
abbrev pub split_zeros : List ℕ → List ℕ × List (List ℕ)
split_zeros [] = ([], [])
split_zeros (b ∷ bs) =
    let (part, others) = split_zeros bs in
    if nat_eq b 0 then ([], part ∷ others) else (b ∷ part, others)

abbrev pub is_empty : List ℕ → Bool
is_empty [] = Bool.true
is_empty (b ∷ bs) = Bool.false

unfoldable pub names_in : List ℕ → List (List ℕ)
names_in bytes =
    let (part, others) = split_zeros bytes in filter (λ name. not (is_empty name)) (part ∷ others)

instance abbrev pub range_ord : Ord AuditSourceRange
range_ord =
    ord_by_code {K = FilePath × (ℕ × ℕ)} (λ r. (r.file, (r.start_line, r.end_line)))
      (λ k. record { file = k.0; start_line = k.1.0; end_line = k.1.1 }) (λ r. refl)

unfoldable pub utf8_or : {E : Type 0} → String → Option String → Attempt (AppError E) String
utf8_or message none = failed (AppError.cli message)
utf8_or message (some text) = done text

unfoldable pub resolved_or :
    {E : Type 0} → String → FilePath → E ⊎ FilePath → Attempt (AppError E) FilePath
resolved_or message path (inl source) = failed (AppError.io message path source)
resolved_or message path (inr file) = done file

abbrev pub git_failed : String → String
git_failed stderr =
    if is_empty_text stderr
    then "git failed while resolving --changed-since"
    else append "git failed while resolving --changed-since: " stderr

module _ {E : Type 0} (host : Host E) where
  abbrev pub read_output : FilePath → E ⊎ Output → Attempt (AppError E) (List ℕ)
  read_output cwd (inl source) =
      failed (AppError.io "could not run git for --changed-since" cwd source)
  read_output cwd (inr out) =
      if out.success
      then done out.stdout
      else failed (AppError.cli (git_failed (trim (host.from_utf8_lossy out.stderr))))

  unfoldable pub git : FilePath → List String → Attempt (AppError E) (List ℕ)
  git cwd args = read_output cwd (host.output cwd args)

  -- The hunks of a file that differs from the revision.
  unfoldable pub changed_ranges :
      FilePath → String → String → FilePath → Attempt (AppError E) (List AuditSourceRange)
  changed_ranges root revision relative current_file = do
    bytes ←
        git root (
          "diff" ∷ "--unified=0" ∷ "--no-color" ∷ "--no-ext-diff" ∷ revision ∷ "--" ∷ relative ∷ [])
    patch ←
        utf8_or (append "git returned a non-UTF-8 patch for `" (append relative "`"))
          (host.from_utf8 bytes)
    file ←
        resolved_or "could not resolve changed Lean source" current_file
          (host.canonicalize current_file)
    done (
        map (λ r. record { file = file; start_line = r.0; end_line = r.1 })
          (parse_current_ranges patch))

  -- All lines of a file that git does not track.
  unfoldable pub all_lines : FilePath → Attempt (AppError E) (List AuditSourceRange)
  all_lines current_file = do
    file ←
        resolved_or "could not resolve untracked Lean source" current_file
          (host.canonicalize current_file)
    done (record { file = file; start_line = 1; end_line = 2 ^ 64 - 1 } ∷ [])

  -- The bodies of the two loops: a name that is no file is passed over.
  unfoldable pub changed_file :
      FilePath → String → List ℕ → Attempt (AppError E) (List AuditSourceRange)
  changed_file root revision name = do
    relative ← utf8_or "git returned a non-UTF-8 Lean source path" (host.from_utf8 name)
    let current_file = join root relative
    let ranges = changed_ranges root revision relative current_file
    if host.is_file current_file then ranges else done []

  unfoldable pub untracked_file : FilePath → List ℕ → Attempt (AppError E) (List AuditSourceRange)
  untracked_file root name = do
    relative ← utf8_or "git returned a non-UTF-8 Lean source path" (host.from_utf8 name)
    let current_file = join root relative
    if host.is_file current_file then all_lines current_file else done []

  unfoldable pub for_each :
      (List ℕ → Attempt (AppError E) (List AuditSourceRange))
      → List (List ℕ)
      → Attempt (AppError E) (List AuditSourceRange)
  for_each body [] = done []
  for_each body (name ∷ names) = do
    ranges ← body name
    others ← for_each body names
    done (ranges ++ others)

  -- The ranges, once the revision is accepted.
  unfoldable pub ranges_since : FilePath → String → Attempt (AppError E) (List AuditSourceRange)
  ranges_since workspace revision = do
    root_output ← git workspace ("rev-parse" ∷ "--show-toplevel" ∷ [])
    root_text ← utf8_or "git returned a non-UTF-8 repository root" (host.from_utf8 root_output)
    let root = path_from (trim root_text)
    names ←
        git root (
          "diff" ∷ "--name-only" ∷ "-z" ∷ "--diff-filter=ACMRTUXB" ∷ revision ∷ "--" ∷ "*.lean"
          ∷ [])
    untracked ←
        git root ("ls-files" ∷ "--others" ∷ "--exclude-standard" ∷ "-z" ∷ "--" ∷ "*.lean" ∷ [])
    changed ← for_each (changed_file root revision) (names_in names)
    new ← for_each (untracked_file root) (names_in untracked)
    done (Sets.extend (changed ++ new) [])

  unfoldable pub source_ranges : FilePath → String → Attempt (AppError E) (List AuditSourceRange)
  source_ranges workspace revision =
      let ranges = ranges_since workspace revision in
      if is_empty_text revision || starts_with revision "-"
      then failed (AppError.cli (append "invalid --changed-since revision `" (append revision "`")))
      else ranges
