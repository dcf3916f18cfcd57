-- ===== src/Index/Lifecycle/Tests.antt =====
-- Tests of the models of crates/index/src/cache_lifecycle.rs on a cache with one label.
use lean_dup.Base.{
  ℕ, ◌≡◌, ◌≢◌, refl, sym, ap, ◌∙◌, String, Bool, true, false, ◌||◌, not, none, some, List, [], ◌∷◌,
  filter, if◌then◌else◌, ◌⊎◌, inl, inr, done, Bool-cases, text_ord, list_ord, Ends, arith,
}
use lean_dup.Base.Sets
use lean_dup.Base.Sets.{same, same_iff, contains-cons}
use lean_dup.Index.Closure.{FilePath}
use lean_dup.Index.Lifecycle.Disk.{Disk, label_dirs, join, ExpectedIndexEntry}
use lean_dup.Index.Lifecycle.Cleanup.{cleanup_cache}
use lean_dup.Index.Lifecycle.Cleanup.Spares.{IsInUse, cleanup_cache-spares}
use lean_dup.Index.Lifecycle.Cleanup.Report.{Reports, cleanup_cache-IsReport}
use lean_dup.Index.Lifecycle.Diagnose.{diagnose_entry}
use lean_dup.Index.Lifecycle.Diagnose.Status.{IsJudged, diagnose_entry-IsJudged}

abbrev indexes : FilePath
indexes = "cache" ∷ "indexes" ∷ []

abbrev fixture : FilePath
fixture = "cache" ∷ "indexes" ∷ "fixture" ∷ []

abbrev old : FilePath
old = "cache" ∷ "indexes" ∷ "fixture" ∷ "old" ∷ []

abbrev new : FilePath
new = "cache" ∷ "indexes" ∷ "fixture" ∷ "new" ∷ []

abbrev listing : FilePath → List (String ⊎ FilePath)
listing path =
    if same path indexes
    then inr fixture ∷ []
    else if same path fixture
    then inr new ∷ inr old ∷ []
    else []

-- The state is the list of the directories that were removed; the pointer leads to `new`.
abbrev small : Disk (List FilePath) String
small = record {
  exists = λ d path. not (Sets.contains path d);
  is_dir = λ d path. true;
  read_dir = λ d path. inr (listing path);
  read_pointer = λ d path. inr new;
  files = λ d path. 3 ∷ 4 ∷ [];
  metadata_value = λ d path key.
      inr (if same key "schema_version" then some "lean-dup.index.sqlite.v3" else none);
  parse_provenance = λ json. inl "no provenance";
  declaration_count = λ d path. inr 2;
  cache_entry_is_current = λ d entry. inr true;
  probe_facts = λ d root label. inl "no store";
  remove_dir_all = λ d path. (none, path ∷ d);
}

abbrev IsThere : List FilePath → Type 0
IsThere d = Sets.contains new d ≡ false

new-survives : (d : List FilePath) (q : FilePath) → q ≢ new → IsThere d → IsThere (q ∷ d)
new-survives d q apart h = elim (Bool-cases (same new q)) [
  | inl equal ↦ absurd (apart (sym ((same_iff new q).0 equal)))
  | inr other ↦ contains-cons new q d ∙ ap (λ b. b || Sets.contains new d) other ∙ h
]

labels-found : label_dirs small [] indexes ≡ done (("fixture", fixture) ∷ [])
unfolding label_dirs Sets.contains lean_dup.Base.Maps.insert
labels-found = refl

new-IsInUse : IsInUse small [] ("cache" ∷ []) [] new
unfolding lean_dup.Index.Lifecycle.Disk.latest_diagnostics Sets.contains
new-IsInUse = inr ((("fixture", fixture) ∷ []), labels-found, refl)

nothing_removed : IsThere []
unfolding Sets.contains
nothing_removed = refl

cleanup_cache-spares_example :
    IsThere (cleanup_cache small ("cache" ∷ []) [] (record { execute = true }) []).1
cleanup_cache-spares_example =
    cleanup_cache-spares small IsThere new ("cache" ∷ []) [] (record { execute = true }) []
      (λ d q apart listed h. new-survives d q apart h) new-IsInUse nothing_removed

cleanup_cache-IsReport_example :
    Reports small []
      (record { execute = true })
      (cleanup_cache small ("cache" ∷ []) [] (record { execute = true }) [])
    × ((cleanup_cache small ("cache" ∷ []) [] (record { execute = false }) []).1 ≡ [])
cleanup_cache-IsReport_example =
    cleanup_cache-IsReport small [] ("cache" ∷ []) [] (record { execute = true })

abbrev expected : ExpectedIndexEntry
expected = record {
  label = "fixture";
  index_dir = new;
  index_path = join new "index.sqlite";
  cache_key_json = "{}";
}

diagnose_entry-IsJudged_example :
    Ends
      (IsJudged small [] new (some expected))
      (diagnose_entry small [] new (new ∷ []) (some expected))
diagnose_entry-IsJudged_example = diagnose_entry-IsJudged small [] new (new ∷ []) (some expected)
