-- ===== src/Index/Lifecycle/Cleanup/Report.antt =====
-- crates/index/src/cache_lifecycle.rs: what the report of a cleanup says, and what is done to the disk.
use lean_dup.Base.{
  ℕ, ◌+◌, ◌≡◌, refl, sym, subst, String, Bool, true, false, Option, none, some, List, [], ◌∷◌,
  if◌then◌else◌, Attempt, done, failed, panicked, Ends, Ends->>=, arith, All, All-append, text_ord,
  list_ord,
}
use lean_dup.Base.Sets
use lean_dup.Index.Closure.{FilePath}
use lean_dup.Index.Lifecycle.Disk.{
  Disk, ExpectedIndexEntry, join, disk_bytes, label_dirs, index_dirs, label_dirs-Ends,
  index_dirs-Ends,
}
use lean_dup.Index.Lifecycle.Cleanup.{
  CleanupPolicy, CacheCleanupEntry, CacheCleanupReport, Survey, unless_failed, remove_all,
  total_bytes, report_of, after_removal, carry_out, place, sort_dirs, sort_labels, survey,
  cleanup_cache,
}

module _ {D E : Type 0} (disk : Disk D E) where
  -- The directories of the entries are removed in their order, each with success.
  abbrev pub AreRemoved : List CacheCleanupEntry → D → D → Type 0
  AreRemoved [] d left = left ≡ d
  AreRemoved (entry ∷ entries) d left =
      ((disk.remove_dir_all d entry.index_dir).0 ≡ none)
      × AreRemoved entries (disk.remove_dir_all d entry.index_dir).1 left

  -- Without an error, every entry is removed and its bytes are counted.
  abbrev pub Carries : List CacheCleanupEntry → ℕ → D → Option E × ℕ × D → Type 0
  Carries entries n d (none, counted, left) =
      (counted ≡ n + total_bytes entries) × AreRemoved entries d left
  Carries entries n d (some e, counted, left) = Unit

  remove_all-Carries :
      (entries : List CacheCleanupEntry) (n : ℕ) (d : D)
      → Carries entries n d (remove_all disk entries n d)
  unfolding remove_all
  remove_all-Carries [] n d = (omega arith, refl)
  remove_all-Carries (entry ∷ entries) n d =
      let step = disk.remove_dir_all d entry.index_dir in
      go step.0 _ refl (remove_all-Carries entries (n + entry.disk_bytes) step.1)
    where
      go :
          (error : Option E) (rest : Option E × ℕ × D)
          → (disk.remove_dir_all d entry.index_dir).0 ≡ error
          → Carries entries (n + entry.disk_bytes) (disk.remove_dir_all d entry.index_dir).1 rest
          → Carries (entry ∷ entries) n d (
              unless_failed disk error
                (n + entry.disk_bytes)
                (disk.remove_dir_all d entry.index_dir).1
                rest)
      go none (none, counted, left) e h = (omega (arith, h.0), (e, h.1))
      go none (some other, counted, left) e h = tt
      go (some error) rest e h = tt

  module _ (d : D) where
    -- The bytes of an entry are those on the disk.
    abbrev pub IsMeasured : CacheCleanupEntry → Type 0
    IsMeasured entry = entry.disk_bytes ≡ disk_bytes disk d entry.index_dir

    abbrev pub AreMeasured : Survey → Type 0
    AreMeasured s = All IsMeasured s.removable × All IsMeasured s.protected

    place-AreMeasured :
        (protected expected : List FilePath) (label : String) (index_dir : FilePath) (s : Survey)
        → AreMeasured s
        → AreMeasured (place disk d protected expected label index_dir s)
    place-AreMeasured protected expected label index_dir s h =
        by_test (Sets.contains index_dir protected) _ _
          (h.0, All-append IsMeasured s.protected _ h.1 (refl, tt))
          (All-append IsMeasured s.removable _ h.0 (refl, tt), h.1)
      where
        by_test :
            (b : Bool) (kept dropped : Survey)
            → AreMeasured kept
            → AreMeasured dropped
            → AreMeasured (if b then kept else dropped)
        by_test true kept dropped k l = k
        by_test false kept dropped k l = l

    sort_dirs-AreMeasured :
        (protected expected : List FilePath) (label : String) (dirs : List FilePath) (s : Survey)
        → AreMeasured s
        → AreMeasured (sort_dirs disk d protected expected label dirs s)
    sort_dirs-AreMeasured protected expected label [] s h = h
    sort_dirs-AreMeasured protected expected label (dir ∷ dirs) s h =
        sort_dirs-AreMeasured protected expected label dirs _
          (place-AreMeasured protected expected label dir s h)

    sort_labels-AreMeasured :
        (protected expected : List FilePath) (labels : List (String × FilePath)) (s : Survey)
        → AreMeasured s
        → Ends AreMeasured (sort_labels disk d protected expected labels s)
    unfolding sort_labels
    sort_labels-AreMeasured protected expected [] s h = h
    sort_labels-AreMeasured protected expected ((label, label_dir) ∷ labels) s h =
        Ends->>= (λ dirs. Unit) AreMeasured (index_dirs disk d label_dir) _
          (index_dirs-Ends disk d label_dir)
          (λ dirs u.
            sort_labels-AreMeasured protected expected labels _
              (sort_dirs-AreMeasured protected expected label dirs s h))

    survey-AreMeasured :
        (cache_root : FilePath) (expected : List ExpectedIndexEntry)
        → Ends AreMeasured (survey disk d cache_root expected)
    unfolding survey
    survey-AreMeasured cache_root expected =
        Ends->>= (λ labels. Unit) AreMeasured (label_dirs disk d (join cache_root "indexes")) _
          (label_dirs-Ends disk d (join cache_root "indexes"))
          (λ labels u. sort_labels-AreMeasured _ _ labels _ (tt, tt))

    -- What a cleanup that is carried out, and one that is not, does to the disk and counts.
    abbrev pub IsCarriedOut : Bool → CacheCleanupReport → D → Type 0
    IsCarriedOut true r left =
        AreRemoved r.removed_entries d left × (r.bytes_removed ≡ total_bytes r.removed_entries)
    IsCarriedOut false r left = (left ≡ d) × (r.bytes_removed ≡ 0)

    abbrev pub Reports : CleanupPolicy → Attempt E CacheCleanupReport × D → Type 0
    Reports policy (done r, left) =
        All IsMeasured r.removed_entries
        × All IsMeasured r.protected_entries
        × (r.bytes_to_remove ≡ total_bytes r.removed_entries)
        × IsCarriedOut policy.execute r left
    Reports policy (failed e, left) = Unit
    Reports policy (panicked, left) = ⊥

    after_removal-Reports :
        (cache_root : FilePath) (policy : CleanupPolicy) (s : Survey) (r : Option E × ℕ × D)
        → policy.execute ≡ true
        → AreMeasured s
        → Carries s.removable 0 d r
        → Reports policy (after_removal disk cache_root policy s r)
    after_removal-Reports cache_root policy s (none, counted, left) e m h = (
      m.0,
      m.1,
      refl,
      subst (λ b. IsCarriedOut b (report_of disk cache_root policy counted s) left) (sym e)
          (h.1, omega (arith, h.0)),
    )
    after_removal-Reports cache_root policy s (some error, counted, left) e m h = tt

    carry_out-Reports :
        (cache_root : FilePath) (policy : CleanupPolicy) (surveyed : Attempt E Survey)
        → Ends AreMeasured surveyed
        → Reports policy (carry_out disk cache_root policy d surveyed)
    carry_out-Reports cache_root policy (done s) m = go policy.execute refl
      where
        go :
            (b : Bool)
            → policy.execute ≡ b
            → Reports policy (
                if b
                then after_removal disk cache_root policy s (remove_all disk s.removable 0 d)
                else (done (report_of disk cache_root policy 0 s), d))
        go true e =
            after_removal-Reports cache_root policy s (remove_all disk s.removable 0 d) e m
              (remove_all-Carries s.removable 0 d)
        go false e = (
          m.0,
          m.1,
          refl,
          subst (λ b. IsCarriedOut b (report_of disk cache_root policy 0 s) d) (sym e) (refl, refl),
        )
    carry_out-Reports cache_root policy (failed e) m = tt
    carry_out-Reports cache_root policy panicked m = m

    dry_carry_out :
        (cache_root : FilePath) (surveyed : Attempt E Survey)
        → (carry_out disk cache_root (record { execute = false }) d surveyed).1 ≡ d
    dry_carry_out cache_root (done s) = refl
    dry_carry_out cache_root (failed e) = refl
    dry_carry_out cache_root panicked = refl

    -- If a cleanup that is executed returns, the directories that it lists as removed were removed
    -- from the disk in that order, each with success, nothing else was done to the disk, and the
    -- bytes counted as removed are the sum over them. If a dry run returns or fails, the disk is as
    -- it was, and a dry run counts no byte as removed. In both cases the bytes of an entry are those
    -- of its directory before the cleanup, and the bytes announced are the sum over the removable
    -- ones.
    pub cleanup_cache-IsReport :
        (cache_root : FilePath) (expected : List ExpectedIndexEntry) (policy : CleanupPolicy)
        → Reports policy (cleanup_cache disk cache_root expected policy d)
          × ((cleanup_cache disk cache_root expected (record { execute = false }) d).1 ≡ d)
    unfolding cleanup_cache
    cleanup_cache-IsReport cache_root expected policy = (
      carry_out-Reports cache_root policy (survey disk d cache_root expected)
          (survey-AreMeasured cache_root expected),
      dry_carry_out cache_root (survey disk d cache_root expected),
    )
