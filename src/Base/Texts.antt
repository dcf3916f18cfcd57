-- ===== src/Base/Texts.antt =====
-- Texts as the source takes them apart (`strip_prefix`, `contains`, a match on literals), and the
-- operations on `f64` that the source uses, over any carrier.
use Prim.Native.Char.{code}
use Prim.Native.String.{◌∷◌ as cons}
use Prim.Native.Nat.{ℕ, Ordering}
use Prim.Native.String.{String}
use mathlib.Core.Bool.{Bool, false, ◌||◌}
use mathlib.Core.Option.{Option, none, some}
use mathlib.Core.List.{List, [], ◌∷◌}
use text.Mathlib.Text.{◌==◌, find?}
use mathlib.Core.Path.{◌≡◌, refl, sym, ap, ◌∙◌}
use text.Mathlib.TextEquality.{eq_iff}
use lean_dup.Base.Tests.{nat_eq, if◌then◌else◌, Bool-ext}
use lean_dup.Base.Order.{text_ord}
use lean_dup.Base.Sets.{same, same_iff, contains}
use lean_dup.Base.Lists.{any, any_or, any-false}
use lean_dup.Base.Maps.{is_some}

abbrev pub strip_prefix : String → String → Option String
strip_prefix String.[] s = some s
strip_prefix (cons c p) String.[] = none
strip_prefix (cons c p) (cons d s) =
    let rest = strip_prefix p s in if nat_eq (code c) (code d) then rest else none

-- A text ends with a suffix if it is the suffix or its rest ends with it.
unfoldable pub ends_with : String → String → Bool
ends_with String.[] suffix = suffix == ""
ends_with (cons c s) suffix = (cons c s == suffix) || ends_with s suffix

abbrev pub contains_text : String → String → Bool
contains_text s needle = is_some (find? s needle)

abbrev pub one_of : String → List String → Bool
one_of s literals = any (λ literal. s == literal) literals

-- `<`, `>=`, `partial_cmp`, `+`, `/` and the literals with an integral value.
pub record FloatOps (S : Type 0) : Type 0 where
  pub less : S → S → Bool
  pub at_least : S → S → Bool
  pub partial_cmp : S → S → Option Ordering
  pub add : S → S → S
  pub divide : S → S → S
  pub literal : ℕ → S

pub text_same : (s t : String) → (s == t) ≡ same t s
text_same s t =
    Bool-ext _ _ (λ h. (same_iff t s).1 (sym ((eq_iff s t).0 h)))
      (λ h. (eq_iff s t).1 (sym ((same_iff t s).0 h)))

-- Whether one of the members is one of the literals: whether one of the literals is a member.
pub any-one_of :
    (literals members : List String)
    → any (λ member. one_of member literals) members
      ≡ any (λ literal. contains literal members) literals
unfolding contains
any-one_of literals [] = sym (any-false (λ l. false) literals (λ l. refl))
any-one_of literals (m ∷ ms) =
    ap (λ b. one_of m literals || b) (any-one_of literals ms)
    ∙ sym (
        any_or (λ l. m == l) (λ l. contains l ms) (λ l. contains l (m ∷ ms)) literals
          (λ l. ap (λ b. b || contains l ms) (sym (text_same m l))))
