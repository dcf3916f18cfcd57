-- ===== src/Search/Scan/Strip/Lines.antt =====
-- crates/search/src/source_refs.rs: stripping keeps the lines and never reads a string in a comment.
use lean_dup.Base.{suc, ◌≡◌, refl, ap, String, false, List, [], ◌∷◌, length}
use lean_dup.Search.Scan.Strip.{Stripping, strip_line, strip_lines}

pub length-strip_lines :
    (st : Stripping) (lines : List String) → length (strip_lines st lines) ≡ length lines
unfolding strip_lines
length-strip_lines st [] = refl
length-strip_lines st (line ∷ lines) =
    ap suc (length-strip_lines (strip_line false st line).1 lines)
