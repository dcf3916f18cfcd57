-- ===== src/Search/Sources.antt =====
-- crates/search/src/source_refs.rs: the facts about workspace files that ranking and hints ask for.
-- A path is its text in normal form.
use lean_dup.Base.{
  ℕ, String, Bool, Option, none, some, List, [], any, length, if◌then◌else◌, ◌==◌, text_ord,
  nat_ord, pair_ord, Ord, ord_by_code, ◌≡◌, refl,
}
use lean_dup.Base.Maps
use lean_dup.Base.Maps.{get_or_default}

pub data ImportStatus : Type 0 where
  direct : ImportStatus
  missing : ImportStatus
  unknown_import : ImportStatus
  not_importable : ImportStatus

pub data SourceReferenceStatus : Type 0 where
  not_requested : SourceReferenceStatus
  missing_source : SourceReferenceStatus
  source_unavailable : SourceReferenceStatus
  complete : SourceReferenceStatus
  truncated : SourceReferenceStatus

pub record SourceReference : Type 0 where
  pub file : String
  pub line : ℕ
  pub column : ℕ
  pub text : String

-- The derived order.
abbrev pub reference_key : SourceReference → String × (ℕ × (ℕ × String))
reference_key r = (r.file, (r.line, (r.column, r.text)))

abbrev pub of_key : String × (ℕ × (ℕ × String)) → SourceReference
of_key k = record { file = k.0; line = k.1.0; column = k.1.1.0; text = k.1.1.1 }

pub of_key-reference_key : (r : SourceReference) → of_key (reference_key r) ≡ r
of_key-reference_key r = refl

instance abbrev pub reference_ord : Ord SourceReference
reference_ord = ord_by_code reference_key of_key of_key-reference_key

pub record DeclarationSourceFact : Type 0 where
  pub declaration_id : String
  pub qualified_name : String
  pub module_name : String
  pub source_file : Option String
  pub source_fingerprint : Option String
  pub references : List SourceReference
  pub reference_status : SourceReferenceStatus

pub record SourceFileFact : Type 0 where
  pub path : String
  pub imports : List String
  pub is_unavailable : Bool

pub record SourceFacts : Type 0 where
  pub declarations : List (String × DeclarationSourceFact)
  pub files : List (String × SourceFileFact)
  pub diagnostics : List String

abbrev pub SourceFacts_empty : SourceFacts
SourceFacts_empty = record { declarations = []; files = []; diagnostics = [] }

unfoldable pub declaration_fact : SourceFacts → String → Option DeclarationSourceFact
declaration_fact facts declaration_id = Maps.get declaration_id facts.declarations

abbrev pub reference_count : Option DeclarationSourceFact → ℕ
reference_count none = 0
reference_count (some fact) = length fact.references

unfoldable pub caller_count : SourceFacts → String → ℕ
caller_count facts declaration_id = reference_count (declaration_fact facts declaration_id)

abbrev pub fingerprint_of : Option DeclarationSourceFact → Option String
fingerprint_of none = none
fingerprint_of (some fact) = fact.source_fingerprint

unfoldable pub source_fingerprint : SourceFacts → String → Option String
source_fingerprint facts declaration_id = fingerprint_of (declaration_fact facts declaration_id)

abbrev pub import_status_in : String → Option SourceFileFact → ImportStatus
import_status_in target_module none = unknown_import
import_status_in target_module (some file) =
    if file.is_unavailable
    then unknown_import
    else if any (λ name. name == target_module) file.imports
    then direct
    else missing

abbrev pub file_at : SourceFacts → Option String → Option SourceFileFact
file_at facts none = none
file_at facts (some path) = Maps.get path facts.files

unfoldable pub import_status_for : SourceFacts → String → String → ImportStatus
import_status_for facts declaration_id target_module =
    elim (declaration_fact facts declaration_id) [
      | none ↦ unknown_import
      | some declaration ↦
          if declaration.module_name == target_module
          then direct
          else import_status_in target_module (file_at facts declaration.source_file)
    ]
