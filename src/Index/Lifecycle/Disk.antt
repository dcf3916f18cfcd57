-- ===== src/Index/Lifecycle/Disk.antt =====
-- crates/index/src/cache_lifecycle.rs: what the lifecycle of the cache asks of the disk and of SQLite
-- (`Disk`), and the directories and pointers that it finds there. A path is the list of its
-- components; each is a text, so that a name outside UTF-8, which the source passes over, has no model.
use lean_dup.Base.{
  ℕ, String, Bool, Option, none, some, List, [], ◌∷◌, ◌++◌, filter, sort_by, sum, if◌then◌else◌,
  text_ord, list_ord, ◌⊎◌, inl, inr, Attempt, done, ask, traverse, traverse-length, ◌>>=◌, Ends,
  Ends->>=, ask-Ends, any_value, All, length, ◌≡◌, Bool-cases,
}
use lean_dup.Base.Maps
use lean_dup.Index.Closure.{FilePath}
use lean_dup.Index.Opened.{IndexProvenance}

pub record ExpectedIndexEntry : Type 0 where
  pub label : String
  pub index_dir : FilePath
  pub index_path : FilePath
  pub cache_key_json : String

-- A disk in the state `D`. `read_pointer` reads a file and parses it as `LatestPointer`; `files` has
-- the lengths of the files that a walk finds; a removal that fails may have removed something.
pub record Disk (D E : Type 0) : Type 0 where
  pub exists : D → FilePath → Bool
  pub is_dir : D → FilePath → Bool
  pub read_dir : D → FilePath → E ⊎ List (E ⊎ FilePath)
  pub read_pointer : D → FilePath → E ⊎ FilePath
  pub files : D → FilePath → List ℕ
  pub metadata_value : D → FilePath → String → E ⊎ Option String
  pub parse_provenance : String → E ⊎ IndexProvenance
  pub declaration_count : D → FilePath → E ⊎ ℕ
  pub cache_entry_is_current : D → ExpectedIndexEntry → E ⊎ Bool
  pub probe_facts : D → FilePath → String → E ⊎ (ℕ × ℕ)
  pub remove_dir_all : D → FilePath → Option E × D

abbrev pub join : FilePath → String → FilePath
join path name = path ++ (name ∷ [])

abbrev pub file_name : FilePath → Option String
file_name [] = none
file_name (x ∷ []) = some x
file_name (x ∷ y ∷ ys) = file_name (y ∷ ys)

abbrev pub parent : FilePath → Option FilePath
parent [] = none
parent (x ∷ []) = some []
parent (x ∷ y ∷ ys) = elim (parent (y ∷ ys)) [ none ↦ none | some above ↦ some (x ∷ above) ]

pub data CacheLatestStatus : Type 0 where
  latest_ok : CacheLatestStatus
  latest_missing : CacheLatestStatus
  target_missing : CacheLatestStatus
  corrupt_pointer : CacheLatestStatus

pub record CacheLatestDiagnostics : Type 0 where
  pub pointer_path : FilePath
  pub status : CacheLatestStatus
  pub index_dir : Option FilePath

module _ {D E : Type 0} (disk : Disk D E) (d : D) where
  unfoldable pub disk_bytes : FilePath → ℕ
  disk_bytes path = if disk.exists d path then sum (disk.files d path) else 0

  abbrev pub latest_of : FilePath → E ⊎ FilePath → CacheLatestDiagnostics
  latest_of pointer_path (inl e) = record {
    pointer_path = pointer_path;
    status = corrupt_pointer;
    index_dir = none;
  }
  latest_of pointer_path (inr index_dir) = record {
    pointer_path = pointer_path;
    status = if disk.exists d (join index_dir "index.sqlite") then latest_ok else target_missing;
    index_dir = some index_dir;
  }

  unfoldable pub latest_diagnostics : FilePath → CacheLatestDiagnostics
  latest_diagnostics label_dir =
      let pointer_path = join label_dir "latest.json" in
      if disk.exists d pointer_path
      then latest_of pointer_path (disk.read_pointer d pointer_path)
      else record { pointer_path = pointer_path; status = latest_missing; index_dir = none }

  -- The entries of a directory; the first that cannot be read is the error.
  abbrev pub entries_of : FilePath → Attempt E (List FilePath)
  entries_of path = do entries ← ask (disk.read_dir d path); traverse (λ entry. ask entry) entries

  abbrev pub insert_labels : List FilePath → List (String × FilePath) → List (String × FilePath)
  insert_labels [] labels = labels
  insert_labels (path ∷ paths) labels = insert_labels paths (
      if disk.is_dir d path
      then elim (file_name path) [ none ↦ labels | some label ↦ Maps.insert label path labels ]
      else labels)

  unfoldable pub label_dirs : FilePath → Attempt E (List (String × FilePath))
  label_dirs indexes_root =
      if disk.exists d indexes_root
      then entries_of indexes_root >>= (λ paths. done (insert_labels paths []))
      else done []

  unfoldable pub index_dirs : FilePath → Attempt E (List FilePath)
  index_dirs label_dir =
      if disk.exists d label_dir
      then entries_of label_dir
        >>= (λ paths. done (sort_by list_ord.cmp (filter (disk.is_dir d) paths)))
      else done []

  entries_of-Ends : (path : FilePath) → Ends (λ paths. Unit) (entries_of path)
  entries_of-Ends path =
      Ends->>= (λ es. Unit) (λ paths. Unit) (ask (disk.read_dir d path)) _
        (ask-Ends (disk.read_dir d path))
        (λ es u.
          any_value (λ ys. length ys ≡ length es) _
            (traverse-length (λ entry. ask entry) es (all_asked es)))
    where
      all_asked : (es : List (E ⊎ FilePath)) → All (λ x. Ends (λ b. Unit) (ask x)) es
      all_asked [] = tt
      all_asked (e ∷ es) = (ask-Ends e, all_asked es)

  pub label_dirs-Ends : (indexes_root : FilePath) → Ends (λ labels. Unit) (label_dirs indexes_root)
  unfolding label_dirs
  label_dirs-Ends indexes_root =
      let found =
        Ends->>= (λ paths. Unit) (λ labels. Unit) (entries_of indexes_root)
          (λ paths. done (insert_labels paths [])) (entries_of-Ends indexes_root) (λ paths u. tt) in
      elim (Bool-cases (disk.exists d indexes_root)) [
        | inl there ↦ rw there found
        | inr missing ↦ rw missing tt
      ]

  pub index_dirs-Ends : (label_dir : FilePath) → Ends (λ dirs. Unit) (index_dirs label_dir)
  unfolding index_dirs
  index_dirs-Ends label_dir =
      let found =
        Ends->>= (λ paths. Unit) (λ dirs. Unit) (entries_of label_dir)
          (λ paths. done (sort_by list_ord.cmp (filter (disk.is_dir d) paths)))
          (entries_of-Ends label_dir) (λ paths u. tt) in
      elim (Bool-cases (disk.exists d label_dir)) [
        | inl there ↦ rw there found
        | inr missing ↦ rw missing tt
      ]
