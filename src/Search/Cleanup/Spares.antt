-- ===== src/Search/Cleanup/Spares.antt =====
-- crates/search/src/workspace_cleanup.rs: what a sweep spares and what it counts.
use lean_dup.Base.{
  ◌≡◌, refl, String, Bool, false, Option, none, some, List, [], ◌∷◌, Bool-cases, inl, inr, text_ord,
}
use lean_dup.Base.Sets
use lean_dup.Index.Closure.{FilePath}
use lean_dup.Index.Lifecycle.Disk.{join}
use lean_dup.Index.Lifecycle.Cleanup.{CleanupPolicy}
use lean_dup.Search.Cleanup.{
  SnapshotDisk, Reading, SweepState, WorkspaceFileCleanupEntry, fingerprint_of, after_remove,
  sweep_removable, sweep_named, unless_stopped, sweep_entries, sweep_reading, sweep_directory,
  swept, cleanup_stale_workspace_files,
}

-- A file of a workspace that is not protected.
abbrev pub IsStale : List String → FilePath → Type 0
IsStale protected path =
    (name : String) × (fingerprint_of path ≡ some name) × (Sets.contains name protected ≡ false)

module _ {D E : Type 0} (ops : SnapshotDisk D E) (protected : List String) (execute : Bool)
    (P : D → Type 0)
    (survives : (d : D) (path : FilePath)
      → IsStale protected path
      → P d
      → P (ops.remove_file d path).1) where
  after_remove-spares :
      (summary : WorkspaceFileCleanupEntry) (r : Option E × D) (s : SweepState D E)
      → P r.1
      → P (after_remove ops protected execute summary r s).disk
  after_remove-spares summary (some e, left) s h = h
  after_remove-spares summary (none, left) s h = h

  sweep_removable-spares :
      (summary : WorkspaceFileCleanupEntry) (s : SweepState D E)
      → IsStale protected summary.path
      → P s.disk
      → P (sweep_removable ops protected execute summary s).disk
  sweep_removable-spares summary s stale h = elim (Bool-cases execute) [
    | inl removes ↦ rw removes (
        after_remove-spares summary (ops.remove_file s.disk summary.path) _
          (survives s.disk summary.path stale h))
    | inr counts ↦ rw counts h
  ]

  sweep_named-spares :
      (kind : String) (path : FilePath) (name : Option String) (s : SweepState D E)
      → fingerprint_of path ≡ name
      → P s.disk
      → P (sweep_named ops protected execute kind path name s).disk
  sweep_named-spares kind path none s e h = h
  sweep_named-spares kind path (some name) s e h =
      elim (Bool-cases (Sets.contains name protected)) [
        | inl kept ↦ rw kept h
        | inr stale ↦ rw stale (sweep_removable-spares _ s (name, e, stale) h)
      ]

  unless_stopped-spares :
      (error : Option E) (s rest : SweepState D E)
      → P s.disk
      → P rest.disk
      → P (unless_stopped ops protected execute error s rest).disk
  unless_stopped-spares none s rest h k = k
  unless_stopped-spares (some e) s rest h k = h

  sweep_entries-spares :
      (kind : String) (paths : List FilePath) (s : SweepState D E)
      → P s.disk
      → P (sweep_entries ops protected execute kind paths s).disk
  unfolding sweep_entries
  sweep_entries-spares kind [] s h = h
  sweep_entries-spares kind (path ∷ paths) s h =
      let next = sweep_named-spares kind path (fingerprint_of path) s refl h in
      unless_stopped-spares _ _ _ next (sweep_entries-spares kind paths _ next)

  sweep_reading-spares :
      (kind : String) (reading : Reading E) (s : SweepState D E)
      → P s.disk
      → P (sweep_reading ops protected execute kind reading s).disk
  sweep_reading-spares kind Reading.not_found s h = h
  sweep_reading-spares kind (Reading.unreadable e) s h = h
  sweep_reading-spares kind (Reading.listed paths) s h = sweep_entries-spares kind paths s h

  sweep_directory-spares :
      (dir : FilePath) (kind : String) (s : SweepState D E)
      → P s.disk
      → P (sweep_directory ops protected execute dir kind s).disk
  unfolding sweep_directory
  sweep_directory-spares dir kind s h = sweep_reading-spares kind (ops.read_dir s.disk dir) s h

  swept-spares :
      (cache_root : FilePath) (d : D) → P d → P (swept ops protected execute cache_root d).disk
  swept-spares cache_root d h =
      let first = sweep_directory-spares (join cache_root "last-snapshot") "last-snapshot" _ h in
      unless_stopped-spares _ _ _ first
        (sweep_directory-spares (join cache_root "last-audit-detail") "last-audit-detail" _ first)

-- Whatever is true of the disk and survives the removal of a file that belongs to a workspace
-- outside the protected ones survives the sweep, also if the sweep fails.
pub cleanup_stale_workspace_files-spares :
    {D E : Type 0} (ops : SnapshotDisk D E) (P : D → Type 0) (cache_root : FilePath)
    (protected : List String) (policy : CleanupPolicy) (d : D)
    → ((now : D) (path : FilePath)
        → IsStale protected path
        → P now
        → P (ops.remove_file now path).1)
    → P d
    → P (cleanup_stale_workspace_files ops cache_root protected policy d).1
unfolding cleanup_stale_workspace_files
cleanup_stale_workspace_files-spares ops P cache_root protected policy d survives h =
    swept-spares ops protected policy.execute P survives cache_root d h
