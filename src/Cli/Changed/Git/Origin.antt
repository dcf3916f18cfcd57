-- ===== src/Cli/Changed/Git/Origin.antt =====
-- crates/cli/src/changed.rs: where the ranges of `source_ranges` come from.
use lean_dup.Base.{
  ℕ, ◌≤◌, ◌<◌, ◌^◌, ◌≡◌, refl, String, true, false, ◌||◌, Option, none, some, List, [], ◌∷◌, ◌++◌,
  map, inl, inr, ◌⊎◌, Bool-cases, All, All-append, Ends, Ends->>=, Attempt, done, failed, panicked,
  ◌>>=◌, starts_with, arith, Ord,
}
use lean_dup.Base.Sets
use lean_dup.Index.Closure.{FilePath}
use lean_dup.Cli.Changed.{is_empty_text}
use lean_dup.Cli.Changed.Ranges.{IsRange, parse_current_ranges-IsRange}
use lean_dup.Cli.Changed.Git.{
  AppError, AuditSourceRange, Output, Host, utf8_or, resolved_or, read_output, git, changed_ranges,
  all_lines, changed_file, untracked_file, for_each, ranges_since, source_ranges, join, range_ord,
}

module _ {ℓ κ} {K : Type ℓ} ⦃o : Ord K⦄ (P : K → Type κ) where
  All-insert : (x : K) (s : List K) → P x → All P s → All P (Sets.insert x s)
  unfolding Sets.insert
  All-insert x [] h k = (h, tt)
  All-insert x (y ∷ ys) h k = let rest = All-insert x ys h k.1 in ground (arith, rest)

  All-extend : (xs s : List K) → All P xs → All P s → All P (Sets.extend xs s)
  unfolding Sets.extend
  All-extend [] s h k = k
  All-extend (x ∷ xs) s h k = All-extend xs _ h.1 (All-insert x s h.0 k)

module _ {E : Type 0} (host : Host E) where
  -- Lines of a regular file, under its resolved path.
  abbrev pub IsCurrent : AuditSourceRange → Type 0
  IsCurrent r =
      (path : FilePath) × (host.is_file path ≡ true)
      × (host.canonicalize path ≡ inr r.file)
      × (r.start_line ≤ r.end_line)
      × (r.end_line < 2 ^ 64)

  -- What the rest of a function does with what a step returns; an error of the step ends both.
  module _ (R : List AuditSourceRange → Type 0) where
    utf8_or-Ends :
        (message : String) (text : Option String)
        (rest : String → Attempt (AppError E) (List AuditSourceRange))
        → ((s : String) → Ends R (rest s))
        → Ends R (utf8_or message text >>= rest)
    unfolding utf8_or
    utf8_or-Ends message none rest h = tt
    utf8_or-Ends message (some text) rest h = h text

    resolved_or-Ends :
        (message : String) (path : FilePath) (r : E ⊎ FilePath)
        (rest : FilePath → Attempt (AppError E) (List AuditSourceRange))
        → ((file : FilePath) → r ≡ inr file → Ends R (rest file))
        → Ends R (resolved_or message path r >>= rest)
    unfolding resolved_or
    resolved_or-Ends message path (inl source) rest h = tt
    resolved_or-Ends message path (inr file) rest h = h file refl

    read_output-Ends :
        (cwd : FilePath) (r : E ⊎ Output)
        (rest : List ℕ → Attempt (AppError E) (List AuditSourceRange))
        → ((bytes : List ℕ) → Ends R (rest bytes))
        → Ends R (read_output host cwd r >>= rest)
    read_output-Ends cwd (inl source) rest h = tt
    read_output-Ends cwd (inr out) rest h = elim (Bool-cases out.success) [
      | inl well ↦ rw well (h out.stdout)
      | inr badly ↦ rw badly tt
    ]

    git-Ends :
        (cwd : FilePath) (args : List String)
        (rest : List ℕ → Attempt (AppError E) (List AuditSourceRange))
        → ((bytes : List ℕ) → Ends R (rest bytes))
        → Ends R (git host cwd args >>= rest)
    unfolding git
    git-Ends cwd args rest h = read_output-Ends cwd (host.output cwd args) rest h

  map-IsCurrent :
      (path file : FilePath) (ranges : List (ℕ × ℕ))
      → host.is_file path ≡ true
      → host.canonicalize path ≡ inr file
      → All IsRange ranges
      → All IsCurrent (map (λ r. record { file = file; start_line = r.0; end_line = r.1 }) ranges)
  map-IsCurrent path file [] h k b = tt
  map-IsCurrent path file (r ∷ rs) h k b =
      ((path, h, k, b.0.0, omega (arith, b.0.1)), map-IsCurrent path file rs h k b.1)

  changed_ranges-IsCurrent :
      (root : FilePath) (revision relative : String) (path : FilePath)
      → host.is_file path ≡ true
      → Ends (All IsCurrent) (changed_ranges host root revision relative path)
  unfolding changed_ranges
  changed_ranges-IsCurrent root revision relative path h =
      git-Ends (All IsCurrent) root _ _ (λ bytes.
        utf8_or-Ends (All IsCurrent) _ (host.from_utf8 bytes) _ (λ patch.
          resolved_or-Ends (All IsCurrent) _ path (host.canonicalize path) _
            (λ file k. map-IsCurrent path file _ h k (parse_current_ranges-IsRange patch))))

  all_lines-IsCurrent :
      (path : FilePath) → host.is_file path ≡ true → Ends (All IsCurrent) (all_lines host path)
  unfolding all_lines
  all_lines-IsCurrent path h =
      resolved_or-Ends (All IsCurrent) _ path (host.canonicalize path) _
        (λ file k. ((path, h, k, omega arith, omega arith), tt))

  changed_file-IsCurrent :
      (root : FilePath) (revision : String) (name : List ℕ)
      → Ends (All IsCurrent) (changed_file host root revision name)
  unfolding changed_file
  changed_file-IsCurrent root revision name =
      utf8_or-Ends (All IsCurrent) _ (host.from_utf8 name) _ (λ relative.
        elim (Bool-cases (host.is_file (join root relative))) [
          | inl is ↦ rw is (changed_ranges-IsCurrent root revision relative _ is)
          | inr not ↦ rw not tt
        ])

  untracked_file-IsCurrent :
      (root : FilePath) (name : List ℕ) → Ends (All IsCurrent) (untracked_file host root name)
  unfolding untracked_file
  untracked_file-IsCurrent root name =
      utf8_or-Ends (All IsCurrent) _ (host.from_utf8 name) _ (λ relative.
        elim (Bool-cases (host.is_file (join root relative))) [
          | inl is ↦ rw is (all_lines-IsCurrent _ is)
          | inr not ↦ rw not tt
        ])

  for_each-IsCurrent :
      (body : List ℕ → Attempt (AppError E) (List AuditSourceRange)) (names : List (List ℕ))
      → ((name : List ℕ) → Ends (All IsCurrent) (body name))
      → Ends (All IsCurrent) (for_each host body names)
  unfolding for_each
  for_each-IsCurrent body [] h = tt
  for_each-IsCurrent body (name ∷ names) h =
      Ends->>= (All IsCurrent) (All IsCurrent) (body name) _ (h name) (λ ranges k.
        Ends->>= (All IsCurrent) (All IsCurrent) (for_each host body names) _
          (for_each-IsCurrent body names h) (λ others l. All-append IsCurrent ranges others k l))

  -- In the order of their files and lines, without repetition.
  abbrev pub IsResult : List AuditSourceRange → Type 0
  IsResult ranges = Sets.IsAscending ranges × All IsCurrent ranges

  both_loops-IsResult :
      (root : FilePath) (revision : String) (names untracked : List (List ℕ))
      → Ends IsResult (do
        changed ← for_each host (changed_file host root revision) names
        new ← for_each host (untracked_file host root) untracked
        done (Sets.extend (changed ++ new) []))
  both_loops-IsResult root revision names untracked =
      Ends->>= (All IsCurrent) IsResult (for_each host (changed_file host root revision) names) _
        (for_each-IsCurrent _ names (changed_file-IsCurrent root revision))
        (λ changed c.
          Ends->>= (All IsCurrent) IsResult (for_each host (untracked_file host root) untracked) _
            (for_each-IsCurrent _ untracked (untracked_file-IsCurrent root))
            (λ new d.
              let every = All-append IsCurrent changed new c d in
              (
                Sets.extend-IsAscending (changed ++ new) [] tt,
                All-extend IsCurrent (changed ++ new) [] every tt,
              )))

  ranges_since-IsResult :
      (workspace : FilePath) (revision : String)
      → Ends IsResult (ranges_since host workspace revision)
  unfolding ranges_since
  ranges_since-IsResult workspace revision = git-Ends IsResult workspace _ _ (λ bytes.
      utf8_or-Ends IsResult _ (host.from_utf8 bytes) _ (λ text.
        git-Ends IsResult _ _ _
          (λ names. git-Ends IsResult _ _ _ (λ untracked. both_loops-IsResult _ revision _ _))))

  -- What a returned list says of the revision.
  abbrev pub IsAccepted : String → List AuditSourceRange → Type 0
  IsAccepted revision ranges =
      (is_empty_text revision ≡ false) × (starts_with revision "-" ≡ false) × IsResult ranges

  accept :
      (revision : String) (m : Attempt (AppError E) (List AuditSourceRange))
      → is_empty_text revision || starts_with revision "-" ≡ false
      → Ends IsResult m
      → Ends (IsAccepted revision) m
  accept revision (done ranges) h k = (ground arith, ground arith, k)
  accept revision (failed e) h k = tt
  accept revision panicked h k = k

-- The lookup of the changed lines does not panic, and where it returns, the revision is neither
-- empty nor begins like an option; the ranges are in the order of their files and lines without
-- repetition; and each has its file under the resolved path of a regular file, a first line that
-- is not after the last, and a last line of 64 bits.
pub source_ranges-IsAccepted :
    {E : Type 0} (host : Host E) (workspace : FilePath) (revision : String)
    → Ends (IsAccepted host revision) (source_ranges host workspace revision)
unfolding source_ranges
source_ranges-IsAccepted host workspace revision =
    elim (Bool-cases (is_empty_text revision || starts_with revision "-")) [
      | inl refused ↦ rw refused tt
      | inr fine ↦
          rw fine (accept host revision _ fine (ranges_since-IsResult host workspace revision))
    ]
