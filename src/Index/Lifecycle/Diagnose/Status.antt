-- ===== src/Index/Lifecycle/Diagnose/Status.antt =====
-- crates/index/src/cache_lifecycle.rs: when an entry of the cache is current.
use lean_dup.Base.{
  ◌≡◌, refl, Bool, true, false, ◌&&◌, Option, none, some, List, ◌⊎◌, inl, inr, if◌then◌else◌, done,
  ask, ◌>>=◌, Ends, Ends->>=, Bool-cases,
}
use lean_dup.Index.Closure.{FilePath}
use lean_dup.Index.Lifecycle.Disk.{Disk, ExpectedIndexEntry, join}
use lean_dup.Index.Lifecycle.Diagnose.{
  CacheEntryStatus, CacheEntryDiagnostics, IndexMetadata, has_schema, current_or_stale,
  read_index_metadata, compare_key, status_of, unreadable, diagnose_metadata, diagnose_entry,
}

abbrev pub is_current : CacheEntryStatus → Bool
is_current CacheEntryStatus.current = true
is_current CacheEntryStatus.stale = false
is_current CacheEntryStatus.corrupt = false
is_current CacheEntryStatus.entry_missing = false
is_current CacheEntryStatus.unchecked = false

-- The metadata can be read and are of the schema of this program.
abbrev pub is_readable : Option IndexMetadata → Bool
is_readable none = false
is_readable (some metadata) = has_schema metadata.schema_version

abbrev pub is_yes {ℓ} : {E : Type ℓ} → E ⊎ Bool → Bool
is_yes (inl e) = false
is_yes (inr b) = b

module _ {D E : Type 0} (disk : Disk D E) (d : D) where
  -- The caller expects the entry, and its key is the one that is stored.
  abbrev pub has_key : Option ExpectedIndexEntry → Bool
  has_key none = false
  has_key (some expected) = is_yes (disk.cache_entry_is_current d expected)

  compare_key-current :
      (expected : Option ExpectedIndexEntry)
      → Ends (λ s. is_current s.0 ≡ has_key expected) (compare_key disk d expected)
  compare_key-current none = refl
  compare_key-current (some expected) = go (disk.cache_entry_is_current d expected)
    where
      go :
          (answer : E ⊎ Bool)
          → Ends
              (λ s. is_current s.0 ≡ is_yes answer)
              (ask answer >>= (λ b. done (current_or_stale b)))
      go (inl e) = tt
      go (inr true) = refl
      go (inr false) = refl

  status_of-current :
      (metadata : IndexMetadata) (expected : Option ExpectedIndexEntry)
      → Ends
          (λ s. is_current s.0 ≡ (has_schema metadata.schema_version && has_key expected))
          (status_of disk d metadata expected)
  status_of-current metadata expected = elim (Bool-cases (has_schema metadata.schema_version)) [
    | inl same_schema ↦ rw same_schema (compare_key-current expected)
    | inr other ↦ rw other refl
  ]

  -- What `diagnose_entry` finds current, described without its branches.
  abbrev pub IsJudged : FilePath → Option ExpectedIndexEntry → CacheEntryDiagnostics → Type 0
  IsJudged index_dir expected entry =
      let index_path = join index_dir "index.sqlite" in
      is_current entry.status ≡ (
        disk.exists d index_path
        && (is_readable (read_index_metadata disk d index_path) && has_key expected))

  diagnose_metadata-current :
      (index_dir : FilePath) (active_dirs : List FilePath) (expected : Option ExpectedIndexEntry)
      (metadata : Option IndexMetadata)
      → Ends
          (λ entry. is_current entry.status ≡ (is_readable metadata && has_key expected))
          (diagnose_metadata disk d index_dir active_dirs expected metadata)
  diagnose_metadata-current index_dir active_dirs expected none = refl
  diagnose_metadata-current index_dir active_dirs expected (some metadata) =
      Ends->>= (λ s. is_current s.0 ≡ (has_schema metadata.schema_version && has_key expected))
        (λ entry.
          is_current entry.status ≡ (has_schema metadata.schema_version && has_key expected))
        (status_of disk d metadata expected) _ (status_of-current metadata expected) (λ s h. h)

  -- Diagnosing an entry does not panic, and where it returns, the entry is current exactly if its
  -- store exists, the metadata can be read and are of the schema of this program, and the caller
  -- expects the entry under the key that is stored.
  pub diagnose_entry-IsJudged :
      (index_dir : FilePath) (active_dirs : List FilePath) (expected : Option ExpectedIndexEntry)
      → Ends (IsJudged index_dir expected) (diagnose_entry disk d index_dir active_dirs expected)
  unfolding diagnose_entry
  diagnose_entry-IsJudged index_dir active_dirs expected =
      go (disk.exists d (join index_dir "index.sqlite"))
    where
      go :
          (exists : Bool)
          → Ends
              (λ entry. is_current entry.status ≡ (
                exists
                && (is_readable (read_index_metadata disk d (join index_dir "index.sqlite"))
                    && has_key expected)))
              (if exists
                then diagnose_metadata disk d index_dir active_dirs expected
                    (read_index_metadata disk d (join index_dir "index.sqlite"))
                else done (
                    unreadable disk d CacheEntryStatus.entry_missing "missing cache store" index_dir
                      active_dirs expected))
      go true =
          diagnose_metadata-current index_dir active_dirs expected
            (read_index_metadata disk d (join index_dir "index.sqlite"))
      go false = refl
