-- ===== src/Search/Scan/Strip.antt =====
-- crates/search/src/source_refs.rs: `strip_comments_and_strings_by_line`. The source steps by bytes
-- within comments and by characters elsewhere; the model steps by characters, which finds the same
-- markers, since no byte of a longer character is that of a marker.
pub mod Lines
use Prim.Native.Char.{Char, code}
use Prim.Native.String.{◌∷◌ as cons}
use lean_dup.Base.{
  ℕ, zero, suc, ◌-◌, String, Bool, true, false, ◌&&◌, not, List, [], ◌∷◌, if◌then◌else◌, nat_eq,
  ltb, starts_with,
}

-- The variables that live from line to line.
pub record Stripping : Type 0 where
  pub depth : ℕ
  pub in_string : Bool
  pub escaped : Bool

abbrev pub outside : Stripping
outside = record { depth = 0; in_string = false; escaped = false }

-- What one round does with its character: ends the line, drops it, or shows a character for it.
pub data Action : Type 0 where
  break_line : Action
  drop_char : Action
  show_char : Char → Action

-- A round: what it does, whether the next character belongs to the same marker, the variables.
abbrev pub Round : Type 0
Round = Action × Bool × Stripping

-- A character within a string, or a code character, which a quote begins.
abbrev pub read_char : Char → Stripping → Round
read_char c st =
    if st.in_string
    then if st.escaped
      then (show_char " ", false, record st { escaped = false })
      else if nat_eq (code c) b'\\'
      then (show_char " ", false, record st { escaped = true })
      else if nat_eq (code c) b'"'
      then (show_char " ", false, record st { in_string = false })
      else (show_char " ", false, st)
    else if nat_eq (code c) b'"'
    then (show_char " ", false, record st { in_string = true })
    else (show_char c, false, st)

abbrev pub round : Stripping → Char → String → Round
round st c s =
    if nat_eq st.depth 0 && starts_with (cons c s) "--"
    then (break_line, false, st)
    else if nat_eq st.depth 0 && (not st.in_string && starts_with (cons c s) "/-")
    then (drop_char, true, record st { depth = suc st.depth })
    else if ltb 0 st.depth && (not st.in_string && starts_with (cons c s) "-/")
    then (drop_char, true, record st { depth = st.depth - 1 })
    else if nat_eq st.depth 0
    then read_char c st
    else (drop_char, false, st)

-- The second character of a marker is passed over.
abbrev pub round_or_skip : Bool → Stripping → Char → String → Round
round_or_skip true st c s = (drop_char, false, st)
round_or_skip false st c s = round st c s

abbrev pub act : Action → Stripping → String × Stripping → String × Stripping
act break_line st rest = ("", st)
act drop_char st rest = rest
act (show_char c) st rest = (cons c rest.0, rest.1)

unfoldable pub strip_line : Bool → Stripping → String → String × Stripping
strip_line skip st String.[] = ("", st)
strip_line skip st (cons c s) =
    let step = round_or_skip skip st c s in act step.0 step.2 (strip_line step.1 step.2 s)

unfoldable pub strip_lines : Stripping → List String → List String
strip_lines st [] = []
strip_lines st (line ∷ lines) =
    let stripped = strip_line false st line in stripped.0 ∷ strip_lines stripped.1 lines

abbrev pub strip_comments_and_strings_by_line : List String → List String
strip_comments_and_strings_by_line lines = strip_lines outside lines
