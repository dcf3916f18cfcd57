-- ===== src/Search/Scan/Tokens.antt =====
-- crates/search/src/source_refs.rs: the names of a declaration and the search for them in a line.
use Prim.Native.Char.{Char, code, len_utf8}
use Prim.Native.String.{◌∷◌ as cons, len}
use lean_dup.Base.{
  ℕ, zero, suc, ◌+◌, ◌-◌, String, Bool, false, ◌&&◌, ◌||◌, not, Option, none, some, List, [], ◌∷◌,
  filter, any, if◌then◌else◌, nat_eq, leb, strip_prefix, sort_by, and_then, Ordering, nat_ord,
  text_ord, ◌==◌,
}
use lean_dup.Base.Sets
use lean_dup.Search.Declaration.{HydratedDeclaration}

unfoldable pub is_lean_name_char : Char → Bool
is_lean_name_char c =
    (leb b'0' (code c) && leb (code c) b'9')
    || (leb b'A' (code c) && leb (code c) b'Z')
    || (leb b'a' (code c) && leb (code c) b'z')
    || any (nat_eq (code c)) (b'_' ∷ b'\'' ∷ b'.' ∷ [])

abbrev pub is_name_char? : Option Char → Bool
is_name_char? none = false
is_name_char? (some c) = is_lean_name_char c

abbrev pub first : String → Option Char
first String.[] = none
first (cons c s) = some c

-- No character of a name stands before or after the token.
abbrev pub token_boundary : Option Char → String → Bool
token_boundary before after = not (is_name_char? before) && not (is_name_char? (first after))

abbrev pub characters : String → ℕ
characters String.[] = 0
characters (cons c s) = suc (characters s)

-- The text where the token is found, if it is.
abbrev pub is_match : Option Char → Option String → Bool
is_match before none = false
is_match before (some after) = token_boundary before after

-- A token that is found without its boundaries is passed over as a whole.
abbrev pub to_skip : String → Option String → ℕ
to_skip token none = 0
to_skip token (some after) = characters token - 1

-- The column of a token from a place in the line: the characters to pass over, the character before
-- and the bytes before are given.
unfoldable pub find_token : String → ℕ → Option Char → ℕ → String → Option ℕ
find_token token skip before bytes String.[] = none
find_token token zero before bytes (cons c s) =
    let found = strip_prefix token (cons c s) in
    let rest = find_token token (to_skip token found) (some c) (bytes + len_utf8 c) s in
    if is_match before found then some (bytes + 1) else rest
find_token token (suc skip) before bytes (cons c s) =
    find_token token skip (some c) (bytes + len_utf8 c) s

unfoldable pub first_token_match : String → List String → Option ℕ
first_token_match line [] = none
first_token_match line (token ∷ tokens) =
    let rest = first_token_match line tokens in
    elim (find_token token 0 none 0 line) [ none ↦ rest | some column ↦ some column ]

-- `rsplit('.').next()`: what follows the last dot.
abbrev pub last_part : String → Option String
last_part String.[] = none
last_part (cons c s) = elim (last_part s) [
  | some later ↦ some later
  | none ↦ if nat_eq (code c) b'.' then some s else none
]

abbrev pub or_whole : String → Option String → String
or_whole whole none = whole
or_whole whole (some part) = part

unfoldable pub short_name : String → String
short_name qualified_name = or_whole qualified_name (last_part qualified_name)

-- The longer token first.
abbrev pub token_order : String → String → Ordering
token_order l r = and_then (nat_ord.cmp (len r) (len l)) (text_ord.cmp l r)

unfoldable pub reference_tokens : HydratedDeclaration → Option (List String)
reference_tokens d =
    if d.qualified_name == ""
    then none
    else some (
        sort_by token_order (
          Sets.extend
            (d.qualified_name
              ∷ filter (λ name. not (name == ""))
                  (d.display_name ∷ short_name d.qualified_name ∷ []))
            []))
