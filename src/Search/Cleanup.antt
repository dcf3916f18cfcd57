-- ===== src/Search/Cleanup.antt =====
-- crates/search/src/workspace_cleanup.rs: the sweep of the files of other workspaces.
pub mod Spares
mod Tests
use lean_dup.Base.{
  ℕ, ◌+◌, String, Bool, true, false, Option, none, some, List, [], ◌∷◌, ◌++◌, length, if◌then◌else◌,
  ◌==◌, Attempt, done, failed, text_ord,
}
use lean_dup.Base.Maps.{get_or_default}
use lean_dup.Base.Sets
use lean_dup.Index.Closure.{FilePath}
use lean_dup.Index.Lifecycle.Disk.{join, file_name}
use lean_dup.Index.Lifecycle.Cleanup.{CleanupPolicy}
use lean_dup.Index.Lifecycle.Diagnose.{split_last}

pub record WorkspaceFileCleanupEntry : Type 0 where
  pub kind : String
  pub fingerprint : String
  pub path : FilePath
  pub disk_bytes : ℕ

pub record WorkspaceFileCleanupReport : Type 0 where
  pub removable_count : ℕ
  pub protected_count : ℕ
  pub bytes_to_remove : ℕ
  pub bytes_removed : ℕ
  pub removed : List WorkspaceFileCleanupEntry
  pub protected : List WorkspaceFileCleanupEntry

-- How a directory is read: it may be missing; entries that cannot be read are passed over.
pub data Reading (E : Type 0) : Type 0 where
  not_found : Reading E
  unreadable : E → Reading E
  listed : List FilePath → Reading E

pub record SnapshotDisk (D E : Type 0) : Type 0 where
  pub read_dir : D → FilePath → Reading E
  pub file_len : D → FilePath → Option ℕ
  pub remove_file : D → FilePath → Option E × D

-- The stem of a name whose extension is `json`.
abbrev pub json_stem : Option (String × String) → Option String
json_stem none = none
json_stem (some (stem, extension)) =
    if stem == "" then none else if extension == "json" then some stem else none

abbrev pub fingerprint_of : FilePath → Option String
fingerprint_of path = json_stem (split_last (get_or_default "" (file_name path)))

-- The variables of the sweep, the error that stops it, and the disk.
pub record SweepState (D E : Type 0) : Type 0 where
  pub removed : List WorkspaceFileCleanupEntry
  pub protected_entries : List WorkspaceFileCleanupEntry
  pub bytes_to_remove : ℕ
  pub bytes_removed : ℕ
  pub error : Option E
  pub disk : D

module _ {D E : Type 0} (ops : SnapshotDisk D E) (protected : List String) (execute : Bool) where
  -- After the removal of a file.
  abbrev pub after_remove :
      WorkspaceFileCleanupEntry → Option E × D → SweepState D E → SweepState D E
  after_remove summary (some e, left) s = record s { error = some e; disk = left }
  after_remove summary (none, left) s = record s {
    bytes_removed = s.bytes_removed + summary.disk_bytes;
    removed = s.removed ++ (summary ∷ []);
    disk = left;
  }

  abbrev pub sweep_removable : WorkspaceFileCleanupEntry → SweepState D E → SweepState D E
  sweep_removable summary s =
      let counted = record s { bytes_to_remove = s.bytes_to_remove + summary.disk_bytes } in
      if execute
      then after_remove summary (ops.remove_file s.disk summary.path) counted
      else record counted { removed = s.removed ++ (summary ∷ []) }

  abbrev pub sweep_named : String → FilePath → Option String → SweepState D E → SweepState D E
  sweep_named kind path none s = s
  sweep_named kind path (some name) s =
      let summary : WorkspaceFileCleanupEntry = record {
        kind = kind;
        fingerprint = name;
        path = path;
        disk_bytes = get_or_default 0 (ops.file_len s.disk path);
      } in
      if Sets.contains name protected
      then record s { protected_entries = s.protected_entries ++ (summary ∷ []) }
      else sweep_removable summary s

  abbrev pub unless_stopped : Option E → SweepState D E → SweepState D E → SweepState D E
  unless_stopped none s rest = rest
  unless_stopped (some e) s rest = s

  unfoldable pub sweep_entries : String → List FilePath → SweepState D E → SweepState D E
  sweep_entries kind [] s = s
  sweep_entries kind (path ∷ paths) s =
      let next = sweep_named kind path (fingerprint_of path) s in
      unless_stopped next.error next (sweep_entries kind paths next)

  abbrev pub sweep_reading : String → Reading E → SweepState D E → SweepState D E
  sweep_reading kind not_found s = s
  sweep_reading kind (unreadable e) s = record s { error = some e }
  sweep_reading kind (listed paths) s = sweep_entries kind paths s

  unfoldable pub sweep_directory : FilePath → String → SweepState D E → SweepState D E
  sweep_directory dir kind s = sweep_reading kind (ops.read_dir s.disk dir) s

  abbrev pub report_of : SweepState D E → Option E → Attempt E WorkspaceFileCleanupReport
  report_of s (some e) = failed e
  report_of s none = done (record {
    removable_count = length s.removed;
    protected_count = length s.protected_entries;
    bytes_to_remove = s.bytes_to_remove;
    bytes_removed = s.bytes_removed;
    removed = s.removed;
    protected = s.protected_entries;
  })

  abbrev pub swept : FilePath → D → SweepState D E
  swept cache_root d =
      let start : SweepState D E = record {
        removed = [];
        protected_entries = [];
        bytes_to_remove = 0;
        bytes_removed = 0;
        error = none;
        disk = d;
      } in
      let first = sweep_directory (join cache_root "last-snapshot") "last-snapshot" start in
      unless_stopped first.error first
        (sweep_directory (join cache_root "last-audit-detail") "last-audit-detail" first)

abbrev pub ended :
    {D E : Type 0}
    → SnapshotDisk D E
    → List String
    → Bool
    → SweepState D E
    → Attempt E WorkspaceFileCleanupReport × D
ended ops protected execute s = (report_of ops protected execute s s.error, s.disk)

unfoldable pub cleanup_stale_workspace_files :
    {D E : Type 0}
    → SnapshotDisk D E
    → FilePath
    → List String
    → CleanupPolicy
    → D
    → Attempt E WorkspaceFileCleanupReport × D
cleanup_stale_workspace_files ops cache_root protected policy d =
    ended ops protected policy.execute (swept ops protected policy.execute cache_root d)
