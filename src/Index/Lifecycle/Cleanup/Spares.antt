-- ===== src/Index/Lifecycle/Cleanup/Spares.antt =====
-- crates/index/src/cache_lifecycle.rs: a cleanup spares what is in use, and reports what it did.
use lean_dup.Base.{
  ℕ, ◌+◌, ◌≡◌, ◌≢◌, refl, sym, ap, ◌∙◌, subst, String, Bool, true, false, ◌||◌, Option, none, some,
  List, [], ◌∷◌, map, any, All, All-append, if◌then◌else◌, text_ord, list_ord, Attempt, done,
  failed, panicked, ◌>>=◌, Ends, Ends->>=, ◌⊎◌, inl, inr, Bool-cases, or_true, arith,
}
use lean_dup.Base.Sets
use lean_dup.Base.Sets.{All-of_contains, same, same_iff, contains-insert, contains-extend}
use lean_dup.Index.Closure.{FilePath}
use lean_dup.Index.Lifecycle.Disk.{
  Disk, ExpectedIndexEntry, join, latest_diagnostics, label_dirs, index_dirs, label_dirs-Ends,
  index_dirs-Ends,
}
use lean_dup.Index.Lifecycle.Cleanup.{
  CleanupPolicy, CacheCleanupEntry, CacheCleanupReport, Survey, protect_latest, protect_labels,
  protected_dirs, place, sort_dirs, sort_labels, survey, unless_failed, remove_all, after_removal,
  carry_out, cleanup_cache,
}

abbrev pub points_at : FilePath → Option FilePath → Bool
points_at p none = false
points_at p (some index_dir) = same p index_dir

-- A directory that the caller expects.
abbrev pub IsExpected : List ExpectedIndexEntry → FilePath → Type 0
IsExpected expected p = Sets.contains p (map (λ entry. entry.index_dir) expected) ≡ true

module _ {D E : Type 0} (disk : Disk D E) (d : D) where
  -- The pointer of some label leads to the directory.
  abbrev pub is_latest : List (String × FilePath) → FilePath → Bool
  is_latest labels p =
      any (λ entry. points_at p (latest_diagnostics disk d entry.1).index_dir) labels

  protect_latest-keeps :
      (p : FilePath) (o : Option FilePath) (protected : List FilePath)
      → Sets.contains p protected ≡ true
      → Sets.contains p (protect_latest o protected) ≡ true
  protect_latest-keeps p none protected h = h
  protect_latest-keeps p (some q) protected h = ground (arith, contains-insert p q protected)

  protect_latest-adds :
      (p : FilePath) (o : Option FilePath) (protected : List FilePath)
      → points_at p o ≡ true
      → Sets.contains p (protect_latest o protected) ≡ true
  protect_latest-adds p none protected h = cc
  protect_latest-adds p (some q) protected h = ground (arith, contains-insert p q protected)

  protect_labels-keeps :
      (p : FilePath) (labels : List (String × FilePath)) (protected : List FilePath)
      → Sets.contains p protected ≡ true
      → Sets.contains p (protect_labels disk d labels protected) ≡ true
  protect_labels-keeps p [] protected h = h
  protect_labels-keeps p ((label, dir) ∷ labels) protected h =
      protect_labels-keeps p labels _
        (protect_latest-keeps p (latest_diagnostics disk d dir).index_dir protected h)

  protect_labels-adds :
      (p : FilePath) (labels : List (String × FilePath)) (protected : List FilePath)
      → is_latest labels p ≡ true
      → Sets.contains p (protect_labels disk d labels protected) ≡ true
  protect_labels-adds p [] protected h = cc
  protect_labels-adds p ((label, dir) ∷ labels) protected h = elim (or_true _ _ h) [
    | inl here ↦
        protect_labels-keeps p labels _
          (protect_latest-adds p (latest_diagnostics disk d dir).index_dir protected here)
    | inr later ↦ protect_labels-adds p labels _ later
  ]

  -- Expected by the caller, or what a latest pointer leads to.
  abbrev pub IsInUse : FilePath → List ExpectedIndexEntry → FilePath → Type 0
  IsInUse cache_root expected p =
      IsExpected expected p
      ⊎ ((labels : List (String × FilePath)) × (label_dirs disk d (join cache_root "indexes")
            ≡ done labels)
          × (is_latest labels p ≡ true))

  -- A directory that is listed below the directory of some label.
  abbrev pub IsListed : FilePath → FilePath → Type 0
  IsListed cache_root q =
      (labels : List (String × FilePath)) × (label_dirs disk d (join cache_root "indexes")
        ≡ done labels)
      × (label_dir : FilePath) × (any (λ entry. same label_dir entry.1) labels ≡ true)
      × (dirs : List FilePath) × (index_dirs disk d label_dir ≡ done dirs)
      × (Sets.contains q dirs ≡ true)

  -- The removable directories are listed, and none is the given one.
  abbrev pub Leaves : (FilePath → Type 0) → FilePath → Survey → Type 0
  Leaves R p s = All (λ entry. (same p entry.index_dir ≡ false) × R entry.index_dir) s.removable

  other :
      (p q : FilePath) (protected : List FilePath)
      → Sets.contains p protected ≡ true
      → Sets.contains q protected ≡ false
      → same p q ≡ false
  other p q protected h lost = elim (Bool-cases (same p q)) [
    | inl equal ↦
        let there = ap (λ x. Sets.contains x protected) ((same_iff p q).0 equal) in ground arith
    | inr apart ↦ apart
  ]

  module _ (R : FilePath → Type 0) (p : FilePath) (protected expected : List FilePath)
      (kept_out : Sets.contains p protected ≡ true) where
    place-Leaves :
        (label : String) (q : FilePath) (s : Survey)
        → R q
        → Leaves R p s
        → Leaves R p (place disk d protected expected label q s)
    place-Leaves label q s r k = elim (Bool-cases (Sets.contains q protected)) [
      | inl kept ↦ rw kept k
      | inr lost ↦ rw lost (
          All-append (λ entry. (same p entry.index_dir ≡ false) × R entry.index_dir) s.removable _ k
            ((other p q protected kept_out lost, r), tt))
    ]

    sort_dirs-Leaves :
        (label : String) (dirs : List FilePath) (s : Survey)
        → All R dirs
        → Leaves R p s
        → Leaves R p (sort_dirs disk d protected expected label dirs s)
    sort_dirs-Leaves label [] s r k = k
    sort_dirs-Leaves label (q ∷ dirs) s r k =
        sort_dirs-Leaves label dirs _ r.1 (place-Leaves label q s r.0 k)

    sort_labels-Leaves :
        (labels : List (String × FilePath)) (s : Survey)
        → All (λ entry. Ends (All R) (index_dirs disk d entry.1)) labels
        → Leaves R p s
        → Ends (Leaves R p) (sort_labels disk d protected expected labels s)
    unfolding sort_labels
    sort_labels-Leaves [] s r k = k
    sort_labels-Leaves ((label, dir) ∷ labels) s r k =
        Ends->>= (All R) (Leaves R p) (index_dirs disk d dir) _ r.0
          (λ dirs listed. sort_labels-Leaves labels _ r.1 (sort_dirs-Leaves label dirs s listed k))

  module _ (cache_root : FilePath) (labels : List (String × FilePath))
      (found : label_dirs disk d (join cache_root "indexes") ≡ done labels) where
    dirs-IsListed :
        (dir : FilePath)
        → any (λ entry. same dir entry.1) labels ≡ true
        → Ends (All (IsListed cache_root)) (index_dirs disk d dir)
    dirs-IsListed dir member = go (index_dirs disk d dir) refl (index_dirs-Ends disk d dir)
      where
        go :
            (listed : Attempt E (List FilePath))
            → index_dirs disk d dir ≡ listed
            → Ends (λ dirs. Unit) listed
            → Ends (All (IsListed cache_root)) listed
        go (done dirs) e u =
            All-of_contains (IsListed cache_root) dirs
              (λ q there. (labels, found, dir, member, dirs, e, there))
        go (failed error) e u = tt
        go panicked e u = u

    all_dirs-IsListed :
        (some_labels : List (String × FilePath))
        → ((dir : FilePath)
            → any (λ entry. same dir entry.1) some_labels ≡ true
            → any (λ entry. same dir entry.1) labels ≡ true)
        → All (λ entry. Ends (All (IsListed cache_root)) (index_dirs disk d entry.1)) some_labels
    all_dirs-IsListed [] f = tt
    all_dirs-IsListed ((label, dir) ∷ rest) f = (
      dirs-IsListed dir
          (f dir (ap (λ b. b || any (λ entry. same dir entry.1) rest) ((same_iff dir dir).1 refl))),
      all_dirs-IsListed rest (λ q h. f q (ground arith)),
    )

  in_use_is_protected :
      (cache_root : FilePath) (expected : List ExpectedIndexEntry) (p : FilePath)
      (labels : List (String × FilePath))
      → label_dirs disk d (join cache_root "indexes") ≡ done labels
      → IsInUse cache_root expected p
      → Sets.contains p (protected_dirs disk d labels expected) ≡ true
  unfolding protected_dirs
  in_use_is_protected cache_root expected p labels found (inl asked) =
      protect_labels-keeps p labels _ (
        contains-extend p (map (λ entry. entry.index_dir) expected) []
        ∙ ap (λ b. b || Sets.contains p []) asked)
  in_use_is_protected cache_root expected p labels found (inr (others, found', latest)) =
      protect_labels-adds p labels _
        (subst (λ ls. is_latest ls p ≡ true) (ap labels_of (sym found' ∙ found)) latest)
    where
      labels_of : Attempt E (List (String × FilePath)) → List (String × FilePath)
      labels_of (done ls) = ls
      labels_of (failed e) = []
      labels_of panicked = []

  survey-Leaves :
      (cache_root : FilePath) (expected : List ExpectedIndexEntry) (p : FilePath)
      → IsInUse cache_root expected p
      → Ends (Leaves (IsListed cache_root) p) (survey disk d cache_root expected)
  unfolding survey
  survey-Leaves cache_root expected p h =
      go (label_dirs disk d (join cache_root "indexes")) refl
        (label_dirs-Ends disk d (join cache_root "indexes"))
    where
      go :
          (found : Attempt E (List (String × FilePath)))
          → label_dirs disk d (join cache_root "indexes") ≡ found
          → Ends (λ labels. Unit) found
          → Ends (Leaves (IsListed cache_root) p) (
              found >>= (λ labels.
                sort_labels disk d
                  (protected_dirs disk d labels expected)
                  (Sets.extend (map (λ entry. entry.index_dir) expected) [])
                  labels
                  (record { removable = []; protected = [] })))
      go (done labels) e u =
          sort_labels-Leaves (IsListed cache_root) p _ _
            (in_use_is_protected cache_root expected p labels e h) labels _
            (all_dirs-IsListed cache_root labels e labels (λ dir there. there)) tt
      go (failed error) e u = tt
      go panicked e u = u

module _ {D E : Type 0} (disk : Disk D E) (P : D → Type 0) (p : FilePath) (R : FilePath → Type 0)
    (survives : (d : D) (q : FilePath) → q ≢ p → R q → P d → P (disk.remove_dir_all d q).1) where
  remove_all-survives :
      (entries : List CacheCleanupEntry) (n : ℕ) (d : D)
      → All (λ entry. (same p entry.index_dir ≡ false) × R entry.index_dir) entries
      → P d
      → P (remove_all disk entries n d).2
  unfolding remove_all
  remove_all-survives [] n d h k = k
  remove_all-survives (entry ∷ entries) n d h k =
      let step = disk.remove_dir_all d entry.index_dir in
      let after : P step.1 =
        survives d entry.index_dir (λ e. cc (h.0.0, (same_iff p entry.index_dir).1 (sym e))) h.0.1
          k in
      go step.0 step.1 _ after (remove_all-survives entries (n + entry.disk_bytes) step.1 h.1 after)
    where
      go :
          (error : Option E) (left : D) (rest : Option E × ℕ × D)
          → P left
          → P rest.2
          → P (unless_failed disk error (n + entry.disk_bytes) left rest).2
      go none left rest a b = b
      go (some e) left rest a b = a

-- Take a directory that the caller expects or that a latest pointer leads to. Whatever is true of
-- the disk and survives the removal of any other directory that is listed below a label survives
-- the cleanup, whether the cleanup is executed, and also if it fails.
pub cleanup_cache-spares :
    {D E : Type 0} (disk : Disk D E) (P : D → Type 0) (p cache_root : FilePath)
    (expected : List ExpectedIndexEntry) (policy : CleanupPolicy) (d : D)
    → ((now : D) (q : FilePath)
        → q ≢ p
        → IsListed disk d cache_root q
        → P now
        → P (disk.remove_dir_all now q).1)
    → IsInUse disk d cache_root expected p
    → P d
    → P (cleanup_cache disk cache_root expected policy d).1
unfolding cleanup_cache
cleanup_cache-spares {D = D} {E = E} disk P p cache_root expected policy d survives h k =
    go (survey disk d cache_root expected) (survey-Leaves disk d cache_root expected p h)
  where
    removed :
        (s : Survey) (r : Option E × ℕ × D) → P r.2 → P (after_removal disk cache_root policy s r).1
    removed s (none, n, left) a = a
    removed s (some e, n, left) a = a

    either_way :
        (b : Bool) (x y : Attempt E CacheCleanupReport × D)
        → P x.1
        → P y.1
        → P (if b then x else y).1
    either_way true x y a b = a
    either_way false x y a b = b

    go :
        (surveyed : Attempt E Survey)
        → Ends (Leaves disk d (IsListed disk d cache_root) p) surveyed
        → P (carry_out disk cache_root policy d surveyed).1
    go (done s) leaves =
        either_way policy.execute _ _
          (removed s _ (
            remove_all-survives disk P p (IsListed disk d cache_root) survives s.removable 0 d
              leaves k))
          k
    go (failed e) leaves = k
    go panicked leaves = k
