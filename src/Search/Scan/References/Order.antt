-- ===== src/Search/Scan/References/Order.antt =====
-- crates/search/src/source_refs.rs: the references of ordered files are in strictly ascending order.
use lean_dup.Base.{
  ℕ, zero, suc, ◌≤◌, ◌<◌, ◌≡◌, refl, sym, subst, String, Option, none, some, List, [], ◌∷◌, ◌++◌,
  All, All-imp, All-append, take, Ordering, text_ord, nat_ord, pair_ord, cmp_refl, enumerate_from,
  Ord, arith,
}
use Prim.Native.Nat.{compare}
use lean_dup.Base.Sets.{IsAscending, Above}
use lean_dup.Search.Declaration.{SourceSpan}
use lean_dup.Search.Sources.{SourceReference, reference_ord}
use lean_dup.Search.Scan.References.{SourceFile, column_in, reference_at, numbered}
use lean_dup.Search.Scan.References.Complete.{found_in, all_lines, all_references}

module _ {ℓ} {K : Type ℓ} ⦃o : Ord K⦄ where
  append-IsAscending :
      (xs ys : List K)
      → IsAscending xs
      → IsAscending ys
      → All (λ x. Above x ys) xs
      → IsAscending (xs ++ ys)
  append-IsAscending [] ys h k l = k
  append-IsAscending (x ∷ xs) ys h k l =
      (All-append (λ y. o.cmp x y ≡ Ordering.lt) xs ys h.0 l.0, append-IsAscending xs ys h.1 k l.1)

  take-All {κ} : (P : K → Type κ) (n : ℕ) (xs : List K) → All P xs → All P (take n xs)
  take-All P zero xs h = tt
  take-All P (suc n) [] h = tt
  take-All P (suc n) (x ∷ xs) h = (h.0, take-All P n xs h.1)

  pub take-IsAscending : (n : ℕ) (xs : List K) → IsAscending xs → IsAscending (take n xs)
  take-IsAscending zero xs h = tt
  take-IsAscending (suc n) [] h = tt
  take-IsAscending (suc n) (x ∷ xs) h =
      (take-All (λ y. o.cmp x y ≡ Ordering.lt) n xs h.0, take-IsAscending n xs h.1)

-- Every file comes before the files after it.
abbrev pub IsOrdered : List SourceFile → Type 0
IsOrdered [] = Unit
IsOrdered (file ∷ files) =
    All (λ later. text_ord.cmp file.path later.path ≡ Ordering.lt) files × IsOrdered files

module _ (span : Option SourceSpan) (tokens : List String) where
  abbrev IsFrom : SourceFile → ℕ → SourceReference → Type 0
  IsFrom file first r = (r.file ≡ file.path) × (first ≤ r.line)

  all_lines-IsFrom :
      (file : SourceFile) (first : ℕ) (lines : List String)
      → All (IsFrom file first) (all_lines file span tokens (enumerate_from first lines))
  unfolding all_lines
  all_lines-IsFrom file first [] = tt
  all_lines-IsFrom file first (line ∷ lines) =
      All-append (IsFrom file first)
        (found_in file first (column_in span tokens file.path (first, line))) _
        (here (column_in span tokens file.path (first, line)))
        (All-imp (λ r h. (h.0, weaker r h.1)) _ (all_lines-IsFrom file (suc first) lines))
    where
      weaker : (r : SourceReference) → suc first ≤ r.line → first ≤ r.line
      weaker r h = omega arith

      here : (column : Option ℕ) → All (IsFrom file first) (found_in file first column)
      here none = tt
      here (some column) = ((refl, omega arith), tt)

  below :
      (a b : SourceReference)
      → a.file ≡ b.file
      → a.line < b.line
      → reference_ord.cmp a b ≡ Ordering.lt
  below a b e h =
      let same_file : text_ord.cmp a.file b.file ≡ Ordering.eq =
        subst (λ f. text_ord.cmp a.file f ≡ Ordering.eq) e (cmp_refl a.file) in
      let earlier : compare a.line b.line ≡ Ordering.lt = ground arith in
      rw (same_file, earlier) refl

  all_lines-IsAscending :
      (file : SourceFile) (first : ℕ) (lines : List String)
      → IsAscending (all_lines file span tokens (enumerate_from first lines))
  unfolding all_lines
  all_lines-IsAscending file first [] = tt
  all_lines-IsAscending file first (line ∷ lines) =
      go (column_in span tokens file.path (first, line))
        (all_lines-IsAscending file (suc first) lines) (all_lines-IsFrom file (suc first) lines)
    where
      go :
          (column : Option ℕ)
          → IsAscending (all_lines file span tokens (enumerate_from (suc first) lines))
          → All
              (IsFrom file (suc first))
              (all_lines file span tokens (enumerate_from (suc first) lines))
          → IsAscending (
              found_in file first column
              ++ all_lines file span tokens (enumerate_from (suc first) lines))
      go none h k = h
      go (some column) h k = (
        All-imp (λ r l. below (reference_at file first column) r (sym l.0) (omega (arith, l.1))) _
            k,
        h,
      )

  all_references-later :
      (file : SourceFile) (files : List SourceFile)
      → All (λ later. text_ord.cmp file.path later.path ≡ Ordering.lt) files
      → All (λ r. text_ord.cmp file.path r.file ≡ Ordering.lt) (all_references span tokens files)
  unfolding all_references
  all_references-later file [] h = tt
  all_references-later file (later ∷ files) h =
      All-append (λ r. text_ord.cmp file.path r.file ≡ Ordering.lt)
        (all_lines later span tokens (numbered later)) (all_references span tokens files)
        (All-imp (λ r l. subst (λ f. text_ord.cmp file.path f ≡ Ordering.lt) (sym l.0) h.0) _
          (all_lines-IsFrom later 1 later.stripped_lines))
        (all_references-later file files h.1)

  other_file :
      (a b : SourceReference)
      → text_ord.cmp a.file b.file ≡ Ordering.lt
      → reference_ord.cmp a b ≡ Ordering.lt
  other_file a b h = rw h refl

  pub all_references-IsAscending :
      (files : List SourceFile) → IsOrdered files → IsAscending (all_references span tokens files)
  unfolding all_references
  all_references-IsAscending [] h = tt
  all_references-IsAscending (file ∷ files) h =
      append-IsAscending (all_lines file span tokens (numbered file))
        (all_references span tokens files) (all_lines-IsAscending file 1 file.stripped_lines)
        (all_references-IsAscending files h.1)
        (All-imp
          (λ a l.
            All-imp
              (λ b k. other_file a b (subst (λ f. text_ord.cmp f b.file ≡ Ordering.lt) (sym l.0) k))
              _ (all_references-later file files h.0))
          _ (all_lines-IsFrom file 1 file.stripped_lines))
