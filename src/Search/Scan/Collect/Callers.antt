-- ===== src/Search/Scan/Collect/Callers.antt =====
-- crates/search/src/source_refs.rs: what `collect_source_facts` says of the callers of a declaration.
use lean_dup.Base.{◌≡◌, String, [], ◌∷◌, All, Ordering, text_ord, ◌⊎◌, inl, inr}
use lean_dup.Base.Maps
use lean_dup.Search.Sources.{SourceFacts_empty}
use lean_dup.Search.Scan.References.{SourceFile}
use lean_dup.Search.Scan.Collect.{SourceDisk, SourceFactInput, Loaded, source_files, load_all}

-- The keys ascend, and each is the path of its file.
abbrev pub IsFiled : Loaded → Type 0
IsFiled [] = Unit
IsFiled ((path, file) ∷ rest) =
    (file.path ≡ path) × All (λ entry. text_ord.cmp path entry.0 ≡ Ordering.lt) rest × IsFiled rest

module _ (disk : SourceDisk) where
  abbrev HasPath : String → String ⊎ SourceFile → Type 0
  HasPath path (inl message) = Unit
  HasPath path (inr file) = file.path ≡ path

  -- The files of a run that could be read.
  abbrev pub loaded_by : SourceFactInput → Loaded
  loaded_by input =
      (load_all disk input.max_file_bytes (source_files input.declarations)
        (SourceFacts_empty, [])).1
