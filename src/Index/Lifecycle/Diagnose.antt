-- ===== src/Index/Lifecycle/Diagnose.antt =====
-- crates/index/src/cache_lifecycle.rs: `diagnose_cache`.
pub mod Status
use Prim.Native.Char.{code}
use Prim.Native.String.{◌∷◌ as cons}
use lean_dup.Base.{
  ℕ, ◌+◌, String, Bool, true, false, Option, none, some, List, [], ◌∷◌, map, filter_map, sum,
  sort_by, by_key, nat_eq, ◌==◌, if◌then◌else◌, Ord, text_ord, list_ord, ◌⊎◌, inl, inr, Attempt,
  done, ask, traverse, ◌>>=◌,
}
use lean_dup.Base.Maps
use lean_dup.Base.Maps.{get_or_default, is_some}
use lean_dup.Base.Sets
use lean_dup.Index.Closure.{FilePath}
use lean_dup.Index.Opened.{IndexProvenance, IndexProvenanceKind}
use lean_dup.Index.Lifecycle.Disk.{
  Disk, ExpectedIndexEntry, CacheLatestDiagnostics, join, parent, file_name, disk_bytes,
  latest_diagnostics, label_dirs, index_dirs,
}

pub data CacheEntryStatus : Type 0 where
  current : CacheEntryStatus
  stale : CacheEntryStatus
  corrupt : CacheEntryStatus
  entry_missing : CacheEntryStatus
  unchecked : CacheEntryStatus

pub record CacheEntryDiagnostics : Type 0 where
  pub index_dir : FilePath
  pub index_path : FilePath
  pub status : CacheEntryStatus
  pub active_latest : Bool
  pub expected_current : Bool
  pub schema_version : Option String
  pub provenance_kind : IndexProvenanceKind
  pub declaration_count : Option ℕ
  pub disk_bytes : ℕ
  pub reasons : List String

pub record CacheLabelDiagnostics : Type 0 where
  pub label : String
  pub label_dir : FilePath
  pub disk_bytes : ℕ
  pub latest : CacheLatestDiagnostics
  pub entries : List CacheEntryDiagnostics

pub record ProbeStoreDiagnostics : Type 0 where
  pub label : String
  pub path : FilePath
  pub rows : ℕ
  pub disk_bytes : ℕ

pub record CacheDiagnostics : Type 0 where
  pub cache_root : FilePath
  pub total_disk_bytes : ℕ
  pub labels : List CacheLabelDiagnostics
  pub probe_stores : List ProbeStoreDiagnostics

pub record IndexMetadata : Type 0 where
  pub schema_version : Option String
  pub provenance_kind : IndexProvenanceKind
  pub declaration_count : Option ℕ

abbrev pub ok {ℓ κ} : {E : Type ℓ} {A : Type κ} → E ⊎ A → Option A
ok (inl e) = none
ok (inr a) = some a

-- The last dot of a file name takes it apart, unless it is the first character.
abbrev pub split_last : String → Option (String × String)
split_last String.[] = none
split_last (cons c s) = elim (split_last s) [
  | some (stem, extension) ↦ some (cons c stem, extension)
  | none ↦ if nat_eq (code c) b'.' then some ("", s) else none
]

-- The stem of a name whose extension is `sqlite`.
abbrev pub sqlite_stem : Option (String × String) → Option String
sqlite_stem none = none
sqlite_stem (some (stem, extension)) =
    if stem == "" then none else if extension == "sqlite" then some stem else none

abbrev pub index_schema_version : String
index_schema_version = "lean-dup.index.sqlite.v3"

abbrev pub has_schema : Option String → Bool
has_schema none = false
has_schema (some version) = version == index_schema_version

abbrev pub current_or_stale : Bool → CacheEntryStatus × List String
current_or_stale true = (current, [])
current_or_stale false = (stale, "cache key differs from current workspace inputs" ∷ [])

module _ {D E : Type 0} (disk : Disk D E) (d : D) where
  abbrev pub kind_of : Option String → E ⊎ IndexProvenanceKind
  kind_of none = inr IndexProvenanceKind.static_index
  kind_of (some json) = elim (disk.parse_provenance json) [
    | inl e ↦ inl e
    | inr provenance ↦ inr provenance.kind
  ]

  -- `none` where the source has an error, which `diagnose_entry` passes over.
  unfoldable pub read_index_metadata : FilePath → Option IndexMetadata
  read_index_metadata index_path = elim (ok (disk.metadata_value d index_path "schema_version")) [
    | none ↦ none
    | some schema_version ↦ elim (ok (disk.metadata_value d index_path "provenance_json")) [
      | none ↦ none
      | some json ↦ elim (ok (kind_of json)) [
        | none ↦ none
        | some kind ↦ some (record {
          schema_version = schema_version;
          provenance_kind = kind;
          declaration_count = ok (disk.declaration_count d index_path);
        })
      ]
    ]
  ]

  abbrev pub unreadable :
      CacheEntryStatus
      → String
      → FilePath
      → List FilePath
      → Option ExpectedIndexEntry
      → CacheEntryDiagnostics
  unreadable status reason index_dir active_dirs expected = record {
    index_dir = index_dir;
    index_path = join index_dir "index.sqlite";
    status = status;
    active_latest = Sets.contains index_dir active_dirs;
    expected_current = is_some expected;
    schema_version = none;
    provenance_kind = IndexProvenanceKind.static_index;
    declaration_count = none;
    disk_bytes = disk_bytes disk d index_dir;
    reasons = reason ∷ [];
  }

  abbrev pub compare_key : Option ExpectedIndexEntry → Attempt E (CacheEntryStatus × List String)
  compare_key none = done (unchecked, "no current request was provided for source freshness" ∷ [])
  compare_key (some expected) =
      ask (disk.cache_entry_is_current d expected) >>= (λ b. done (current_or_stale b))

  abbrev pub status_of :
      IndexMetadata → Option ExpectedIndexEntry → Attempt E (CacheEntryStatus × List String)
  status_of metadata expected =
      if has_schema metadata.schema_version
      then compare_key expected
      else done (stale, "schema version differs from current binary" ∷ [])

  abbrev pub diagnose_metadata :
      FilePath
      → List FilePath
      → Option ExpectedIndexEntry
      → Option IndexMetadata
      → Attempt E CacheEntryDiagnostics
  diagnose_metadata index_dir active_dirs expected none =
      done (unreadable corrupt "cache store metadata is unreadable" index_dir active_dirs expected)
  diagnose_metadata index_dir active_dirs expected (some metadata) = do
    status ← status_of metadata expected
    done (record {
      index_dir = index_dir;
      index_path = join index_dir "index.sqlite";
      status = status.0;
      active_latest = Sets.contains index_dir active_dirs;
      expected_current = is_some expected;
      schema_version = metadata.schema_version;
      provenance_kind = metadata.provenance_kind;
      declaration_count = metadata.declaration_count;
      disk_bytes = disk_bytes disk d index_dir;
      reasons = status.1;
    })

  unfoldable pub diagnose_entry :
      FilePath → List FilePath → Option ExpectedIndexEntry → Attempt E CacheEntryDiagnostics
  diagnose_entry index_dir active_dirs expected =
      if disk.exists d (join index_dir "index.sqlite")
      then diagnose_metadata index_dir active_dirs expected
          (read_index_metadata (join index_dir "index.sqlite"))
      else done (unreadable entry_missing "missing cache store" index_dir active_dirs expected)

  abbrev pub active_of : Option FilePath → List FilePath
  active_of none = []
  active_of (some index_dir) = index_dir ∷ []

  abbrev pub add_expected :
      String → List (FilePath × ExpectedIndexEntry) → List FilePath → List FilePath
  add_expected label [] dirs = dirs
  add_expected label ((dir, expected) ∷ rest) dirs =
      add_expected label rest
        (if expected.label == label then Sets.insert expected.index_dir dirs else dirs)

  unfoldable pub diagnose_label :
      String → FilePath → List (FilePath × ExpectedIndexEntry) → Attempt E CacheLabelDiagnostics
  diagnose_label label label_dir expected_by_dir = do
    let latest = latest_diagnostics disk d label_dir
    listed ← index_dirs disk d label_dir
    let dirs = add_expected label expected_by_dir (Sets.extend listed [])
    entries ←
        traverse
          (λ dir. diagnose_entry dir (active_of latest.index_dir) (Maps.get dir expected_by_dir))
          dirs
    done (record {
      label = label;
      label_dir = label_dir;
      disk_bytes = disk_bytes disk d label_dir;
      latest = latest;
      entries = entries;
    })

  abbrev pub probe_store_at : FilePath → E ⊎ FilePath → Option ProbeStoreDiagnostics
  probe_store_at cache_root (inl e) = none
  probe_store_at cache_root (inr path) =
      elim (sqlite_stem (split_last (get_or_default "" (file_name path)))) [
        | none ↦ none
        | some stem ↦ elim (disk.probe_facts d cache_root stem) [
          | inl e ↦ none
          | inr (rows, bytes) ↦
              some (record { label = stem; path = path; rows = rows; disk_bytes = bytes })
        ]
      ]

  unfoldable pub diagnose_probe_stores : FilePath → List ProbeStoreDiagnostics
  diagnose_probe_stores cache_root = sort_by (by_key (λ store. store.label)) (
      filter_map (probe_store_at cache_root)
        (get_or_default [] (ok (disk.read_dir d (join cache_root "probes")))))

  -- `entry(label).or_insert_with(…)`.
  abbrev pub add_labels :
      FilePath → List ExpectedIndexEntry → List (String × FilePath) → List (String × FilePath)
  add_labels indexes_root [] labels = labels
  add_labels indexes_root (e ∷ es) labels = add_labels indexes_root es (
      if Maps.contains_key e.label labels
      then labels
      else Maps.insert e.label (get_or_default indexes_root (parent e.index_dir)) labels)

  abbrev pub by_dir :
      List ExpectedIndexEntry
      → List (FilePath × ExpectedIndexEntry)
      → List (FilePath × ExpectedIndexEntry)
  by_dir [] m = m
  by_dir (e ∷ es) m = by_dir es (Maps.insert e.index_dir e m)

  unfoldable pub diagnose_cache : FilePath → List ExpectedIndexEntry → Attempt E CacheDiagnostics
  diagnose_cache cache_root expected = do
    let indexes_root = join cache_root "indexes"
    found ← label_dirs disk d indexes_root
    reports ←
        traverse (λ entry. diagnose_label entry.0 entry.1 (by_dir expected []))
          (add_labels indexes_root expected found)
    let probe_stores = diagnose_probe_stores cache_root
    done (record {
      cache_root = cache_root;
      total_disk_bytes =
          sum (map (λ label. label.disk_bytes) reports)
          + sum (map (λ store. store.disk_bytes) probe_stores);
      labels = reports;
      probe_stores = probe_stores;
    })
