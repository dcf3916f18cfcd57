-- ===== src/Search/Scan/Tests.antt =====
-- Tests of the models of crates/search/src/source_refs.rs on one file of a workspace.
use lean_dup.Base.{◌≡◌, refl, some, [], ◌∷◌, inr, text_ord}
use lean_dup.Search.Samples.{local_theorem}
use lean_dup.Search.Declaration.{HydratedDeclaration}
use lean_dup.Search.Scan.Strip.{strip_comments_and_strings_by_line, strip_lines, strip_line}
use lean_dup.Search.Scan.Tokens.{first_token_match, find_token, is_lean_name_char}
use lean_dup.Search.Scan.Collect.{SourceDisk, SourceFactInput, new}

-- A comment within a comment is not counted: the first end of a comment ends both.
comments_and_strings :
    strip_comments_and_strings_by_line ("a /- b" ∷ "c /- d -/ -/ e" ∷ "\"f\" g -- h" ∷ [])
    ≡ "a " ∷ " -/ e" ∷ "    g " ∷ []
unfolding strip_lines strip_line
comments_and_strings = refl

-- Two dashes within a string end the line, and the next line begins within the string.
dashes_in_string :
    strip_comments_and_strings_by_line ("def a := \"x -- y\"" ∷ "def b := a" ∷ [])
    ≡ "def a :=    " ∷ "          " ∷ []
unfolding strip_lines strip_line
dashes_in_string = refl

whole_names : first_token_match "target_suffix target" ("target" ∷ []) ≡ some 15
unfolding first_token_match find_token is_lean_name_char
whole_names = refl

abbrev source : HydratedDeclaration
source = record local_theorem {
  source_span = some (record {
    file = "Tiny.lean";
    start = record { line = 1; column = 1 };
    end = record { line = 1; column = 14 };
  });
}

abbrev disk : SourceDisk
disk = record {
  metadata_len = λ path. inr 44;
  read_to_string = λ path. inr "theorem a := x\ntheorem c := a\ntheorem d := a\n";
  hex_digest = λ text. text;
}

abbrev input : SourceFactInput
input = record (new (source ∷ [])) { max_references_per_declaration = 2 }
