-- ===== src/Index/Lifecycle/Cleanup.antt =====
-- crates/index/src/cache_lifecycle.rs: `cleanup_cache`.
pub mod Spares
pub mod Report
use lean_dup.Base.{
  ℕ, ◌+◌, String, Bool, true, false, Option, none, some, List, [], ◌∷◌, ◌++◌, map, length, sum,
  if◌then◌else◌, Ord, text_ord, list_ord, Attempt, done, failed, panicked, ◌>>=◌, Ends, Ends->>=,
}
use lean_dup.Base.Sets
use lean_dup.Index.Closure.{FilePath}
use lean_dup.Index.Lifecycle.Disk.{
  Disk, ExpectedIndexEntry, join, disk_bytes, latest_diagnostics, label_dirs, index_dirs,
  label_dirs-Ends, index_dirs-Ends,
}

pub record CleanupPolicy : Type 0 where
  pub execute : Bool

pub record CacheCleanupEntry : Type 0 where
  pub label : String
  pub index_dir : FilePath
  pub disk_bytes : ℕ
  pub reason : String

pub record CacheCleanupReport : Type 0 where
  pub status : String
  pub cache_root : FilePath
  pub executed : Bool
  pub removable_count : ℕ
  pub protected_count : ℕ
  pub bytes_to_remove : ℕ
  pub bytes_removed : ℕ
  pub removed_entries : List CacheCleanupEntry
  pub protected_entries : List CacheCleanupEntry

-- `removable` and `protected_entries`.
pub record Survey : Type 0 where
  pub removable : List CacheCleanupEntry
  pub protected : List CacheCleanupEntry

abbrev pub protect_latest : Option FilePath → List FilePath → List FilePath
protect_latest none protected = protected
protect_latest (some index_dir) protected = Sets.insert index_dir protected

abbrev pub total_bytes : List CacheCleanupEntry → ℕ
total_bytes entries = sum (map (λ entry. entry.disk_bytes) entries)

module _ {D E : Type 0} (disk : Disk D E) where
  module _ (d : D) where
    abbrev pub protect_labels : List (String × FilePath) → List FilePath → List FilePath
    protect_labels [] protected = protected
    protect_labels ((label, label_dir) ∷ labels) protected =
        protect_labels labels
          (protect_latest (latest_diagnostics disk d label_dir).index_dir protected)

    unfoldable pub protected_dirs :
        List (String × FilePath) → List ExpectedIndexEntry → List FilePath
    protected_dirs labels expected =
        protect_labels labels (Sets.extend (map (λ entry. entry.index_dir) expected) [])

    abbrev pub entry_for : String → String → FilePath → CacheCleanupEntry
    entry_for reason label index_dir = record {
      label = label;
      index_dir = index_dir;
      disk_bytes = disk_bytes disk d index_dir;
      reason = reason;
    }

    abbrev pub place : List FilePath → List FilePath → String → FilePath → Survey → Survey
    place protected expected label index_dir s =
        let reason =
          if Sets.contains index_dir expected
          then "current expected index"
          else "active latest pointer" in
        if Sets.contains index_dir protected
        then record s { protected = s.protected ++ (entry_for reason label index_dir ∷ []) }
        else record s {
          removable =
              s.removable
              ++ (entry_for "not referenced by latest pointer or current request" label index_dir
                  ∷ []);
        }

    abbrev pub sort_dirs : List FilePath → List FilePath → String → List FilePath → Survey → Survey
    sort_dirs protected expected label [] s = s
    sort_dirs protected expected label (index_dir ∷ dirs) s =
        sort_dirs protected expected label dirs (place protected expected label index_dir s)

    unfoldable pub sort_labels :
        List FilePath → List FilePath → List (String × FilePath) → Survey → Attempt E Survey
    sort_labels protected expected [] s = done s
    sort_labels protected expected ((label, label_dir) ∷ labels) s = do
      dirs ← index_dirs disk d label_dir
      sort_labels protected expected labels (sort_dirs protected expected label dirs s)

    -- What is removable and what is protected.
    unfoldable pub survey : FilePath → List ExpectedIndexEntry → Attempt E Survey
    survey cache_root expected = do
      labels ← label_dirs disk d (join cache_root "indexes")
      sort_labels (protected_dirs labels expected)
          (Sets.extend (map (λ entry. entry.index_dir) expected) []) labels
          (record { removable = []; protected = [] })

  -- The rest of the removals, unless one failed and left the disk.
  abbrev pub unless_failed : Option E → ℕ → D → Option E × ℕ × D → Option E × ℕ × D
  unless_failed none counted left rest = rest
  unless_failed (some e) counted left rest = (some e, counted, left)

  -- The removals in order, up to the first that fails, with the bytes counted and the disk left.
  unfoldable pub remove_all : List CacheCleanupEntry → ℕ → D → Option E × ℕ × D
  remove_all [] bytes_removed d = (none, bytes_removed, d)
  remove_all (entry ∷ entries) bytes_removed d =
      let counted = bytes_removed + entry.disk_bytes in
      let step = disk.remove_dir_all d entry.index_dir in
      unless_failed step.0 counted step.1 (remove_all entries counted step.1)

  abbrev pub report_of : FilePath → CleanupPolicy → ℕ → Survey → CacheCleanupReport
  report_of cache_root policy bytes_removed s = record {
    status = "ok";
    cache_root = cache_root;
    executed = policy.execute;
    removable_count = length s.removable;
    protected_count = length s.protected;
    bytes_to_remove = total_bytes s.removable;
    bytes_removed = bytes_removed;
    removed_entries = s.removable;
    protected_entries = s.protected;
  }

  abbrev pub after_removal :
      FilePath → CleanupPolicy → Survey → Option E × ℕ × D → Attempt E CacheCleanupReport × D
  after_removal cache_root policy s (none, bytes_removed, d) =
      (done (report_of cache_root policy bytes_removed s), d)
  after_removal cache_root policy s (some e, bytes_removed, d) = (failed e, d)

  abbrev pub carry_out :
      FilePath → CleanupPolicy → D → Attempt E Survey → Attempt E CacheCleanupReport × D
  carry_out cache_root policy d (failed e) = (failed e, d)
  carry_out cache_root policy d panicked = (panicked, d)
  carry_out cache_root policy d (done s) =
      if policy.execute
      then after_removal cache_root policy s (remove_all s.removable 0 d)
      else (done (report_of cache_root policy 0 s), d)

  unfoldable pub cleanup_cache :
      FilePath → List ExpectedIndexEntry → CleanupPolicy → D → Attempt E CacheCleanupReport × D
  cleanup_cache cache_root expected policy d =
      carry_out cache_root policy d (survey d cache_root expected)
