-- ===== src/Search/Cleanup/Tests.antt =====
-- Tests of the model of crates/search/src/workspace_cleanup.rs on two snapshots.
use lean_dup.Base.{
  ◌≡◌, refl, sym, ap, ◌∙◌, String, Bool, true, false, ◌||◌, Option, none, some, List, [], ◌∷◌,
  if◌then◌else◌, Bool-cases, inl, inr, text_ord, list_ord,
}
use lean_dup.Base.Sets
use lean_dup.Base.Sets.{same, same_iff, contains-cons}
use lean_dup.Index.Closure.{FilePath}
use lean_dup.Search.Cleanup.{
  SnapshotDisk, Reading, fingerprint_of, cleanup_stale_workspace_files, sweep_entries,
  sweep_directory,
}
use lean_dup.Search.Cleanup.Spares.{IsStale, cleanup_stale_workspace_files-spares}

abbrev snapshots : FilePath
snapshots = "cache" ∷ "last-snapshot" ∷ []

abbrev alive : FilePath
alive = "cache" ∷ "last-snapshot" ∷ "alive.json" ∷ []

abbrev stale : FilePath
stale = "cache" ∷ "last-snapshot" ∷ "stale.json" ∷ []

-- The state is the list of the files that were removed.
abbrev two_files : SnapshotDisk (List FilePath) String
two_files = record {
  read_dir = λ d dir.
      if same dir snapshots then Reading.listed (alive ∷ stale ∷ []) else Reading.not_found;
  file_len = λ d path. some 2;
  remove_file = λ d path. (none, path ∷ d);
}

one_removed :
    (cleanup_stale_workspace_files two_files
      ("cache" ∷ [])
      ("alive" ∷ [])
      (record { execute = true })
      []).1
    ≡ stale ∷ []
unfolding cleanup_stale_workspace_files sweep_entries sweep_directory Sets.contains
one_removed = refl

abbrev IsThere : List FilePath → Type 0
IsThere d = Sets.contains alive d ≡ false

abbrev protects : Option String → Bool
protects none = false
protects (some name) = Sets.contains name ("alive" ∷ [])

alive-protected : protects (some "alive") ≡ true
unfolding Sets.contains
alive-protected = refl

alive-survives :
    (d : List FilePath) (path : FilePath)
    → IsStale ("alive" ∷ []) path
    → IsThere d
    → IsThere (path ∷ d)
alive-survives d path (name, found, unprotected) h = elim (Bool-cases (same alive path)) [
  | inl equal ↦
      absurd
        (both (sym found ∙ ap fingerprint_of (sym ((same_iff alive path).0 equal))) unprotected)
  | inr other ↦ contains-cons alive path d ∙ ap (λ b. b || Sets.contains alive d) other ∙ h
]
  where
    both : some name ≡ some "alive" → Sets.contains name ("alive" ∷ []) ≡ false → ⊥
    both e k = cc (sym k ∙ ap protects e ∙ alive-protected)

nothing_removed : IsThere []
unfolding Sets.contains
nothing_removed = refl

cleanup_stale_workspace_files-spares_example :
    IsThere
      (cleanup_stale_workspace_files two_files
        ("cache" ∷ [])
        ("alive" ∷ [])
        (record { execute = true })
        []).1
cleanup_stale_workspace_files-spares_example =
    cleanup_stale_workspace_files-spares two_files IsThere ("cache" ∷ []) ("alive" ∷ [])
      (record { execute = true }) [] alive-survives nothing_removed
