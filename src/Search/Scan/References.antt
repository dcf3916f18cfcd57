-- ===== src/Search/Scan/References.antt =====
-- crates/search/src/source_refs.rs: the lines that name a declaration (`references_to`).
pub mod Complete
pub mod Order
pub mod Status
use Prim.Native.String.{◌∷◌ as cons}
use lean_dup.Base.{
  ℕ, zero, suc, ◌+◌, ◌-◌, String, Bool, true, false, ◌&&◌, ◌||◌, Option, none, some, List, [], ◌∷◌,
  ◌++◌, length, if◌then◌else◌, nat_eq, leb, ltb, ◌==◌, get_elem?, enumerate_from, text_ord, nat_ord,
}
use lean_dup.Base.Maps.{get_or_default}
use lean_dup.Base.Sets
use lean_dup.Search.Declaration.{HydratedDeclaration, SourceSpan}
use lean_dup.Search.Sources.{SourceReference, SourceReferenceStatus, reference_ord}
use lean_dup.Search.Scan.Tokens.{first_token_match}
use lean_dup.Search.Scan.Trim.{trim}

pub record SourceFile : Type 0 where
  pub path : String
  pub lines : List String
  pub stripped_lines : List String
  pub imports : List String

-- The line is within the declaration, in the file of the declaration.
abbrev pub in_declaration : Option SourceSpan → String → ℕ → Bool
in_declaration none path line = false
in_declaration (some span) path line =
    (span.file == path) && (leb span.start.line line && leb line span.end.line)

-- What a line has for a scan: a column, unless it is part of the declaration.
abbrev pub column_in : Option SourceSpan → List String → String → ℕ × String → Option ℕ
column_in span tokens path (line, stripped) =
    if in_declaration span path line then none else first_token_match stripped tokens

abbrev pub reference_at : SourceFile → ℕ → ℕ → SourceReference
reference_at file line column = record {
  file = file.path;
  line = line;
  column = column;
  text = trim (get_or_default "" (get_elem? file.lines (line - 1)));
}

-- The reference of a line and the others, of which there may be one fewer.
abbrev pub add_reference :
    SourceFile → ℕ → Option ℕ → (ℕ → List SourceReference) → ℕ → List SourceReference
add_reference file line none rest remaining = rest remaining
add_reference file line (some column) rest remaining =
    reference_at file line column ∷ rest (remaining - 1)

abbrev pub unless_full : ℕ → List SourceReference → List SourceReference
unless_full zero rest = []
unless_full (suc remaining) rest = rest

unfoldable pub scan_lines :
    SourceFile → Option SourceSpan → List String → List (ℕ × String) → ℕ → List SourceReference
scan_lines file span tokens [] remaining = []
scan_lines file span tokens (entry ∷ entries) remaining = unless_full remaining (
    add_reference file entry.0 (column_in span tokens file.path entry)
      (scan_lines file span tokens entries) remaining)

abbrev pub numbered : SourceFile → List (ℕ × String)
numbered file = enumerate_from 1 file.stripped_lines

abbrev pub file_references : SourceFile → Option SourceSpan → List String → ℕ → List SourceReference
file_references file span tokens remaining = scan_lines file span tokens (numbered file) remaining

abbrev pub unless_left_out :
    ℕ → List SourceReference → List SourceReference × Bool → List SourceReference × Bool
unless_left_out zero references rest = (references, true)
unless_left_out (suc remaining) references rest = rest

-- The references and whether a file was left out.
unfoldable pub gather :
    Option SourceSpan
    → List String
    → ℕ
    → List SourceFile
    → List SourceReference
    → List SourceReference × Bool
gather span tokens max_references [] references = (references, false)
gather span tokens max_references (file ∷ files) references =
    let remaining = max_references - length references in
    unless_left_out remaining references (
      gather span tokens max_references files
        (references ++ file_references file span tokens remaining))

abbrev pub status_of : Bool → SourceReferenceStatus
status_of true = SourceReferenceStatus.truncated
status_of false = SourceReferenceStatus.complete

abbrev pub conclude : ℕ → List SourceReference × Bool → List SourceReference × SourceReferenceStatus
conclude max_references (found, truncated) =
    let references = Sets.extend found [] in
    (references, status_of (truncated || leb max_references (length references)))

unfoldable pub references_to :
    HydratedDeclaration
    → List String
    → List SourceFile
    → ℕ
    → List SourceReference × SourceReferenceStatus
references_to d tokens files max_references =
    if d.origin == "workspace"
    then conclude max_references (gather d.source_span tokens max_references files [])
    else ([], SourceReferenceStatus.complete)
