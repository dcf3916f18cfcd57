-- ===== src/Search/Scan/References/Complete.antt =====
-- crates/search/src/source_refs.rs: a scan that is complete has every line that names the declaration.
use lean_dup.Base.{
  ℕ, zero, suc, ◌+◌, ◌-◌, ◌<◌, ◌≡◌, refl, sym, ap, ap₂, ◌∙◌, String, false, Option, none, some,
  List, [], ◌∷◌, ◌++◌, append-nil, append_assoc, take, take-append, length-take, length,
  length-append, text_ord, nat_ord, arith,
}
use lean_dup.Search.Declaration.{SourceSpan}
use lean_dup.Search.Sources.{SourceReference, reference_ord}
use lean_dup.Search.Scan.References.{
  SourceFile, column_in, reference_at, add_reference, unless_left_out, scan_lines, numbered,
  file_references, gather,
}

-- What one line adds if there is room.
abbrev pub found_in : SourceFile → ℕ → Option ℕ → List SourceReference
found_in file line none = []
found_in file line (some column) = reference_at file line column ∷ []

-- Every reference of a file, without a bound.
unfoldable pub all_lines :
    SourceFile → Option SourceSpan → List String → List (ℕ × String) → List SourceReference
all_lines file span tokens [] = []
all_lines file span tokens (entry ∷ entries) =
    found_in file entry.0 (column_in span tokens file.path entry)
    ++ all_lines file span tokens entries

-- Every reference of the files.
unfoldable pub all_references :
    Option SourceSpan → List String → List SourceFile → List SourceReference
all_references span tokens [] = []
all_references span tokens (file ∷ files) =
    all_lines file span tokens (numbered file) ++ all_references span tokens files

module _ (span : Option SourceSpan) (tokens : List String) where
  scan_lines-take :
      (file : SourceFile) (entries : List (ℕ × String)) (remaining : ℕ)
      → scan_lines file span tokens entries remaining
        ≡ take remaining (all_lines file span tokens entries)
  unfolding scan_lines all_lines
  scan_lines-take file [] zero = refl
  scan_lines-take file [] (suc remaining) = refl
  scan_lines-take file (entry ∷ entries) zero = refl
  scan_lines-take file (entry ∷ entries) (suc remaining) =
      go (column_in span tokens file.path entry) (scan_lines-take file entries (suc remaining))
        (scan_lines-take file entries remaining)
    where
      go :
          (column : Option ℕ)
          → scan_lines file span tokens entries (suc remaining)
            ≡ take (suc remaining) (all_lines file span tokens entries)
          → scan_lines file span tokens entries remaining
            ≡ take remaining (all_lines file span tokens entries)
          → add_reference file entry.0 column (scan_lines file span tokens entries) (suc remaining)
            ≡ take
                (suc remaining)
                (found_in file entry.0 column ++ all_lines file span tokens entries)
      go none same fewer = same
      go (some column) same fewer =
          ap (◌∷◌ (reference_at file entry.0 column))
            (ap (scan_lines file span tokens entries) (omega arith) ∙ fewer)

  -- The bounded scan of the files has the first references of all.
  gather-take :
      (max_references : ℕ) (files : List SourceFile) (references : List SourceReference)
      → (gather span tokens max_references files references).0
        ≡ references ++ take (max_references - length references) (all_references span tokens files)
  unfolding gather all_references
  gather-take max_references [] references =
      sym (append-nil references)
      ∙ ap (◌++◌ references) (nothing (max_references - length references))
    where
      nothing : (n : ℕ) → [] ≡ take {A = SourceReference} n []
      nothing zero = refl
      nothing (suc n) = refl
  gather-take max_references (file ∷ files) references =
      go (max_references - length references) refl (gather-take max_references files _)
    where
      here : List SourceReference
      here = all_lines file span tokens (numbered file)

      go :
          (remaining : ℕ)
          → max_references - length references ≡ remaining
          → (gather span tokens max_references files
              (references ++ file_references file span tokens remaining)).0
            ≡ (references ++ file_references file span tokens remaining)
              ++ take
                  (max_references
                    - length (references ++ file_references file span tokens remaining))
                  (all_references span tokens files)
          → (unless_left_out remaining references (
              gather span tokens max_references files
                (references ++ file_references file span tokens remaining))).0
            ≡ references
              ++ take remaining
                  (all_lines file span tokens (numbered file) ++ all_references span tokens files)
      go zero e h = sym (append-nil references)
      go (suc remaining) e h =
          let kept = file_references file span tokens (suc remaining) in
          let all_here = all_lines file span tokens (numbered file) in
          let others = all_references span tokens files in
          let kept_here : kept ≡ take (suc remaining) all_here =
            scan_lines-take file (numbered file) (suc remaining) in
          let left : max_references - length (references ++ kept)
              ≡ suc remaining - length all_here =
            omega (
              arith,
              e,
              length-append references kept,
              ap length kept_here,
              length-take (suc remaining) all_here,
            ) in
          h
          ∙ append_assoc references kept _
          ∙ ap (◌++◌ references) (
              ap₂ (λ xs n. xs ++ take n others) kept_here left
              ∙ sym (take-append (suc remaining) all_here others))

  -- No file is left out if there is room for every reference.
  pub gather-room :
      (max_references : ℕ) (files : List SourceFile) (references : List SourceReference)
      → length references + length (all_references span tokens files) < max_references
      → (gather span tokens max_references files references).1 ≡ false
  unfolding gather all_references
  gather-room max_references [] references h = refl
  gather-room max_references (file ∷ files) references h =
      go (max_references - length references) refl
        (λ so_far h. gather-room max_references files so_far h)
    where
      go :
          (remaining : ℕ)
          → max_references - length references ≡ remaining
          → ((so_far : List SourceReference)
              → length so_far + length (all_references span tokens files) < max_references
              → (gather span tokens max_references files so_far).1 ≡ false)
          → (unless_left_out remaining references (
              gather span tokens max_references files
                (references ++ file_references file span tokens remaining))).1
            ≡ false
      go zero e rest = absurd (omega arith)
      go (suc remaining) e rest =
          let kept = file_references file span tokens (suc remaining) in
          let all_here = all_lines file span tokens (numbered file) in
          rest (references ++ kept) (
            omega (
              arith,
              h,
              length-append references kept,
              ap length (scan_lines-take file (numbered file) (suc remaining)),
              length-take (suc remaining) all_here,
              length-append all_here (all_references span tokens files),
            ))

  pub references_first :
      (max_references : ℕ) (files : List SourceFile)
      → (gather span tokens max_references files []).0
        ≡ take max_references (all_references span tokens files)
  references_first max_references files =
      let all_room : max_references - 0 ≡ max_references = omega arith in
      gather-take max_references files []
      ∙ ap (λ n. take n (all_references span tokens files)) all_room
