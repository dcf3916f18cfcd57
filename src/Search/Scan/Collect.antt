-- ===== src/Search/Scan/Collect.antt =====
-- crates/search/src/source_refs.rs: `collect_source_facts`. The files, the texts of their errors and
-- SHA-256 are the fields of `SourceDisk`.
pub mod Callers
use Prim.Native.String.{◌++◌ as append}
use lean_dup.Base.{
  ℕ, ◌-◌, String, Bool, true, false, ◌||◌, Option, none, some, List, [], ◌∷◌, ◌++◌, map, filter,
  filter_map, flat_map, take, drop, length, if◌then◌else◌, nat_eq, ltb, ◌==◌, strip_prefix, ◌⊎◌,
  inl, inr, text_ord,
}
use lean_dup.Base.Maps
use lean_dup.Base.Maps.{get_or_default, is_some}
use lean_dup.Base.Sets
use lean_dup.Cli.Changed.{lines, split_whitespace}
use lean_dup.Search.Declaration.{HydratedDeclaration, SourceSpan}
use lean_dup.Search.Sources.{SourceFacts, SourceFacts_empty, SourceReference, SourceReferenceStatus}
use lean_dup.Search.Retrieval.State.{padded}
use lean_dup.Search.Scan.Strip.{strip_comments_and_strings_by_line}
use lean_dup.Search.Scan.Tokens.{reference_tokens, short_name}
use lean_dup.Search.Scan.Trim.{trim, join, replace_first}
use lean_dup.Search.Scan.References.{SourceFile, references_to}

pub record SourceDisk : Type 0 where
  pub metadata_len : String → String ⊎ ℕ
  pub read_to_string : String → String ⊎ String
  pub hex_digest : String → String

pub data SourceReferenceScope : Type 0 where
  all : SourceReferenceScope
  no_declaration : SourceReferenceScope
  only : List String → SourceReferenceScope

unfoldable pub includes : SourceReferenceScope → String → Bool
includes all id = true
includes no_declaration id = false
includes (only ids) id = Sets.contains id ids

pub record SourceFactInput : Type 0 where
  pub declarations : List HydratedDeclaration
  pub max_file_bytes : ℕ
  pub max_references_per_declaration : ℕ
  pub reference_scope : SourceReferenceScope

-- `SourceFactInput::new` and the setters of its scope.
abbrev pub new : List HydratedDeclaration → SourceFactInput
new declarations = record {
  declarations = declarations;
  max_file_bytes = 1000000;
  max_references_per_declaration = 256;
  reference_scope = all;
}

abbrev pub without_references : SourceFactInput → SourceFactInput
without_references input = record input { reference_scope = no_declaration }

abbrev pub with_reference_declarations : List String → SourceFactInput → SourceFactInput
with_reference_declarations ids input = record input { reference_scope = only ids }

abbrev pub import_words : Option String → List String
import_words none = []
import_words (some rest) = split_whitespace rest

unfoldable pub parse_imports : List String → List String
parse_imports stripped =
    Sets.extend (flat_map (λ line. import_words (strip_prefix "import " (trim line))) stripped) []

abbrev pub span_file : HydratedDeclaration → Option String
span_file d = elim d.source_span [ none ↦ none | some span ↦ some span.file ]

unfoldable pub source_files : List HydratedDeclaration → List String
source_files declarations =
    Sets.extend (filter_map span_file (filter (λ d. d.origin == "workspace") declarations)) []

abbrev pub Loaded : Type 0
Loaded = List (String × SourceFile)

abbrev pub rename : String → String → String
rename short snippet = if short == "" then snippet else replace_first short "_decl" snippet

module _ (disk : SourceDisk) where
  abbrev pub unavailable : String → String → String
  unavailable path source = append path (append ": source unavailable (" (append source ")"))

  abbrev pub source_file : String → String → SourceFile
  source_file path text =
      let stripped = strip_comments_and_strings_by_line (lines text) in
      record {
        path = path;
        lines = lines text;
        stripped_lines = stripped;
        imports = parse_imports stripped;
      }

  abbrev pub read_text : String → String ⊎ String → String ⊎ SourceFile
  read_text path (inl source) = inl (unavailable path source)
  read_text path (inr text) = inr (source_file path text)

  abbrev pub read_bounded : String → ℕ → String ⊎ ℕ → String ⊎ SourceFile
  read_bounded path max_file_bytes (inl source) = inl (unavailable path source)
  read_bounded path max_file_bytes (inr size) =
      if ltb max_file_bytes size
      then inl (
          append path (
            append ": source skipped because it exceeds "
              (append (padded 20 1 max_file_bytes "") " bytes")))
      else read_text path (disk.read_to_string path)

  unfoldable pub read : String → ℕ → String ⊎ SourceFile
  read path max_file_bytes = read_bounded path max_file_bytes (disk.metadata_len path)

  abbrev pub add_file : String → String ⊎ SourceFile → SourceFacts × Loaded → SourceFacts × Loaded
  add_file path (inr file) (facts, loaded) = (
    record facts {
      files =
          Maps.insert path (record { path = path; imports = file.imports; is_unavailable = false })
            facts.files;
    },
    Maps.insert path file loaded,
  )
  add_file path (inl message) (facts, loaded) = (
    record facts {
      diagnostics = facts.diagnostics ++ (message ∷ []);
      files =
          Maps.insert path (record { path = path; imports = []; is_unavailable = true })
            facts.files;
    },
    loaded,
  )

  abbrev pub load_all : ℕ → List String → SourceFacts × Loaded → SourceFacts × Loaded
  load_all max_file_bytes [] state = state
  load_all max_file_bytes (path ∷ paths) state =
      load_all max_file_bytes paths (add_file path (read path max_file_bytes) state)

  unfoldable pub fingerprint_for : SourceFile → HydratedDeclaration → ℕ → ℕ → Option String
  fingerprint_for file d start_line end_line =
      let snippet =
        join "\n"
          (take (end_line - (start_line - 1)) (drop (start_line - 1) file.stripped_lines)) in
      let normalized = join " " (split_whitespace (rename (short_name d.qualified_name) snippet)) in
      if nat_eq start_line 0 || ltb end_line start_line || ltb (length file.stripped_lines) end_line
      then none
      else if normalized == ""
      then none
      else some (disk.hex_digest normalized)

  abbrev pub fingerprint_in : HydratedDeclaration → Option SourceSpan → Loaded → Option String
  fingerprint_in d none loaded = none
  fingerprint_in d (some span) loaded = elim (Maps.get span.file loaded) [
    | none ↦ none
    | some file ↦ fingerprint_for file d span.start.line span.end.line
  ]

  abbrev pub scan_for :
      HydratedDeclaration
      → Loaded
      → ℕ
      → Option (List String)
      → List SourceReference × SourceReferenceStatus
  scan_for d loaded max_references none = ([], SourceReferenceStatus.complete)
  scan_for d loaded max_references (some tokens) =
      references_to d tokens (map (λ entry. entry.1) loaded) max_references

  abbrev pub references_of :
      SourceFactInput
      → HydratedDeclaration
      → Option String
      → Loaded
      → List SourceReference × SourceReferenceStatus
  references_of input d none loaded =
      if includes input.reference_scope d.declaration_id
      then ([], SourceReferenceStatus.missing_source)
      else ([], SourceReferenceStatus.not_requested)
  references_of input d (some path) loaded =
      if includes input.reference_scope d.declaration_id
      then if is_some (Maps.get path loaded)
        then scan_for d loaded input.max_references_per_declaration (reference_tokens d)
        else ([], SourceReferenceStatus.source_unavailable)
      else ([], SourceReferenceStatus.not_requested)

  abbrev pub add_declarations :
      SourceFactInput → Loaded → List HydratedDeclaration → SourceFacts → SourceFacts
  add_declarations input loaded [] facts = facts
  add_declarations input loaded (d ∷ ds) facts =
      let scanned = references_of input d (span_file d) loaded in
      add_declarations input loaded ds (record facts {
        declarations =
            Maps.insert d.declaration_id
              (record {
                declaration_id = d.declaration_id;
                qualified_name = d.qualified_name;
                module_name = d.module_name;
                source_file = span_file d;
                source_fingerprint = fingerprint_in d d.source_span loaded;
                references = scanned.0;
                reference_status = scanned.1;
              })
              facts.declarations;
      })

  unfoldable pub collect_source_facts : SourceFactInput → SourceFacts
  collect_source_facts input =
      let loaded =
        load_all input.max_file_bytes (source_files input.declarations) (SourceFacts_empty, []) in
      add_declarations input loaded.1 input.declarations loaded.0
