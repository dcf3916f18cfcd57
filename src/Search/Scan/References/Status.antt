-- ===== src/Search/Scan/References/Status.antt =====
-- crates/search/src/source_refs.rs: what `references_to` returns, and when the scan is complete.
use lean_dup.Base.{
  ℕ, ◌<◌, ◌≡◌, refl, ap, ap₂, ◌∙◌, String, Bool, true, false, ◌||◌, List, [], take, length,
  length-take, leb, ◌==◌, arith,
}
use lean_dup.Base.Sets
use lean_dup.Base.Sets.{IsAscending, IsAscending-ext, extend-IsAscending, contains-extend}
use lean_dup.Search.Declaration.{HydratedDeclaration}
use lean_dup.Search.Sources.{SourceReference, reference_ord}
use lean_dup.Search.Scan.References.{SourceFile, gather, status_of, conclude, references_to}
use lean_dup.Search.Scan.References.Complete.{all_references, references_first, gather-room}
use lean_dup.Search.Scan.References.Order.{IsOrdered, take-IsAscending, all_references-IsAscending}

nothing_else : (b : Bool) (z : SourceReference) → (b || Sets.contains z []) ≡ b
unfolding Sets.contains
nothing_else true z = refl
nothing_else false z = refl

extend_ascending : (xs : List SourceReference) → IsAscending xs → Sets.extend xs [] ≡ xs
extend_ascending xs h =
    IsAscending-ext (Sets.extend xs []) xs (extend-IsAscending xs [] tt) h
      (λ z. contains-extend z xs [] ∙ nothing_else (Sets.contains z xs) z)

conclude-first :
    (max_references : ℕ) (all : List SourceReference) (found : List SourceReference × Bool)
    → IsAscending all
    → found.0 ≡ take max_references all
    → (length all < max_references → found.1 ≡ false)
    → conclude max_references found
      ≡ (take max_references all, status_of (leb max_references (length all)))
conclude-first max_references all (references, truncated) h e room =
    let kept : Sets.extend references [] ≡ take max_references all =
      ap (λ xs. Sets.extend xs []) e ∙ extend_ascending _ (take-IsAscending max_references all h) in
    ap₂ (λ xs b. (xs, status_of b)) kept
      (ap (λ xs. truncated || leb max_references (length xs)) kept ∙ judged)
  where
    judged :
        (truncated || leb max_references (length (take max_references all)))
        ≡ leb max_references (length all)
    judged = ground (arith, room, length-take max_references all)

-- For a declaration of the workspace and files in strictly ascending order of their paths, the scan
-- returns the first references of all, up to its bound, and calls itself complete exactly if there
-- are fewer than the bound.
pub references_to-first :
    (d : HydratedDeclaration) (tokens : List String) (files : List SourceFile) (max_references : ℕ)
    → (d.origin == "workspace") ≡ true
    → IsOrdered files
    → references_to d tokens files max_references ≡ (
      take max_references (all_references d.source_span tokens files),
      status_of (leb max_references (length (all_references d.source_span tokens files))),
    )
unfolding references_to
references_to-first d tokens files max_references local h =
    let all = all_references d.source_span tokens files in
    rw local (
      conclude-first max_references all (gather d.source_span tokens max_references files [])
        (all_references-IsAscending d.source_span tokens files h)
        (references_first d.source_span tokens max_references files)
        (λ room. gather-room d.source_span tokens max_references files [] (omega (arith, room))))
