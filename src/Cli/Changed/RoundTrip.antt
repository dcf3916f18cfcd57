-- ===== src/Cli/Changed/RoundTrip.antt =====
-- crates/cli/src/changed.rs: the ranges that git prints are read back.
use Prim.Native.Char.{Char, code}
use Prim.Native.String.{◌∷◌ as cons}
use lean_dup.Base.{
  ℕ, zero, suc, ◌+◌, ◌-◌, ◌*◌, ◌/◌, ◌%◌, ◌^◌, ◌≤◌, ◌<◌, ◌≡◌, refl, sym, ap, ap₂, subst, ◌∙◌, String,
  false, Option, none, some, ltb, ltb→lt, nat_eq, if◌then◌else◌, Bool-cases, inl, inr, arith,
}
use lean_dup.Cli.Changed.{
  parse_digits, parse_u64, split_once, both, read_parts, start_and_count, inclusive,
  parse_current_range, digit, with_digit, checked,
}

-- The character of a digit.
abbrev pub digit_char : ℕ → Char
digit_char zero = "0"
digit_char (suc zero) = "1"
digit_char (suc (suc zero)) = "2"
digit_char (suc (suc (suc zero))) = "3"
digit_char (suc (suc (suc (suc zero)))) = "4"
digit_char (suc (suc (suc (suc (suc zero))))) = "5"
digit_char (suc (suc (suc (suc (suc (suc zero)))))) = "6"
digit_char (suc (suc (suc (suc (suc (suc (suc zero))))))) = "7"
digit_char (suc (suc (suc (suc (suc (suc (suc (suc zero)))))))) = "8"
digit_char (suc (suc (suc (suc (suc (suc (suc (suc (suc n))))))))) = "9"

-- A number in decimal, before a text; the fuel bounds the number.
unfoldable pub print_before : ℕ → ℕ → String → String
print_before zero n text = text
print_before (suc fuel) n text =
    let rest = print_before fuel (n / 10) (cons (digit_char (n % 10)) text) in
    if ltb n 10 then cons (digit_char n) text else rest

-- As git prints the lines of a hunk.
unfoldable pub print_range : ℕ → ℕ → String
print_range start count =
    cons "+" (print_before (suc start) start (cons "," (print_before (suc count) count "")))

code-digit_char : (d : ℕ) → d < 10 → code (digit_char d) ≡ 48 + d
code-digit_char zero h = refl
code-digit_char (suc zero) h = refl
code-digit_char (suc (suc zero)) h = refl
code-digit_char (suc (suc (suc zero))) h = refl
code-digit_char (suc (suc (suc (suc zero)))) h = refl
code-digit_char (suc (suc (suc (suc (suc zero))))) h = refl
code-digit_char (suc (suc (suc (suc (suc (suc zero)))))) h = refl
code-digit_char (suc (suc (suc (suc (suc (suc (suc zero))))))) h = refl
code-digit_char (suc (suc (suc (suc (suc (suc (suc (suc zero)))))))) h = refl
code-digit_char (suc (suc (suc (suc (suc (suc (suc (suc (suc n))))))))) h = omega (arith, h)

digit-digit_char : (d : ℕ) → d < 10 → digit (digit_char d) ≡ some d
digit-digit_char d h = let c = code-digit_char d h in ground (arith, c)

-- A digit and what stands before it are read together.
parse_digits-digit :
    (v d : ℕ) (s : String)
    → d < 10
    → 10 * v + d < 2 ^ 64
    → parse_digits v (cons (digit_char d) s) ≡ parse_digits (10 * v + d) s
unfolding parse_digits
parse_digits-digit v d s h b =
    let fits : checked (10 * v + d) ≡ some (10 * v + d) = ground arith in
    let read = ap (with_digit v) (digit-digit_char d h) ∙ fits in
    subst
      (λ next. elim next [ none ↦ none | some n ↦ parse_digits n s ] ≡ parse_digits (10 * v + d) s)
      (sym read) refl

parse_digits-print_before :
    (fuel n : ℕ) (s : String)
    → n < fuel
    → n < 2 ^ 64
    → parse_digits 0 (print_before fuel n s) ≡ parse_digits n s
unfolding print_before
parse_digits-print_before zero n s h b = absurd (omega arith)
parse_digits-print_before (suc fuel) n s h b = elim (Bool-cases (ltb n 10)) [
  | inl one ↦ rw one (
      parse_digits-digit 0 n s (omega (arith, ltb→lt n 10 one)) (omega arith)
      ∙ ap (λ v. parse_digits v s) (omega arith))
  | inr more ↦
      let large : 10 ≤ n = ground arith in
      rw more (
        parse_digits-print_before fuel (n / 10) (cons (digit_char (n % 10)) s) (omega arith)
          (omega arith)
        ∙ parse_digits-digit (n / 10) (n % 10) s (omega arith) (omega arith)
        ∙ ap (λ v. parse_digits v s) (omega arith))
]

-- A number in decimal begins with a digit, which is no sign and no comma.
parse_u64-digit :
    (d : ℕ) (s : String)
    → d < 10
    → parse_u64 (cons (digit_char d) s) ≡ parse_digits 0 (cons (digit_char d) s)
unfolding parse_u64
parse_u64-digit d s h =
    let no_plus : nat_eq (code (digit_char d)) 43 ≡ false =
      rw (code-digit_char d h) (ground arith) in
    rw no_plus refl

parse_u64-print_before :
    (fuel n : ℕ) (s : String)
    → n < fuel
    → parse_u64 (print_before fuel n s) ≡ parse_digits 0 (print_before fuel n s)
unfolding print_before
parse_u64-print_before zero n s h = absurd (omega arith)
parse_u64-print_before (suc fuel) n s h = elim (Bool-cases (ltb n 10)) [
  | inl one ↦ rw one (parse_u64-digit n s (ltb→lt n 10 one))
  | inr more ↦
      let large : 10 ≤ n = ground arith in
      rw more (parse_u64-print_before fuel (n / 10) (cons (digit_char (n % 10)) s) (omega arith))
]

-- `print_before` puts its digits before the first comma.
abbrev pub before_comma : (String → String) → Option (String × String) → Option (String × String)
before_comma f none = none
before_comma f (some (before, after)) = some (f before, after)

split_once-digit :
    (d : ℕ) (s : String)
    → d < 10
    → split_once (cons (digit_char d) s) ≡ before_comma (cons (digit_char d)) (split_once s)
unfolding split_once
split_once-digit d s h =
    let no_comma : nat_eq (code (digit_char d)) 44 ≡ false =
      rw (code-digit_char d h) (ground arith) in
    rw no_comma (same (split_once s))
  where
    same :
        (rest : Option (String × String))
        → (elim rest [
          | none ↦ none
          | some (before, after) ↦ some (cons (digit_char d) before, after)
        ])
          ≡ before_comma (cons (digit_char d)) rest
    same none = refl
    same (some (before, after)) = refl

split_once-print_before :
    (fuel n : ℕ) (s before after : String)
    → n < fuel
    → split_once s ≡ some (before, after)
    → split_once (print_before fuel n s) ≡ some (print_before fuel n before, after)
unfolding print_before
split_once-print_before zero n s before after h e = absurd (omega arith)
split_once-print_before (suc fuel) n s before after h e = elim (Bool-cases (ltb n 10)) [
  | inl one ↦
      rw one (split_once-digit n s (ltb→lt n 10 one) ∙ ap (before_comma (cons (digit_char n))) e)
  | inr more ↦
      let large : 10 ≤ n = ground arith in
      rw more (
        split_once-print_before fuel (n / 10) (cons (digit_char (n % 10)) s)
          (cons (digit_char (n % 10)) before) after (omega arith)
          (split_once-digit (n % 10) s (omega arith)
            ∙ ap (before_comma (cons (digit_char (n % 10)))) e))
]

split_once_comma : (s : String) → split_once (cons "," s) ≡ some ("", s)
unfolding split_once
split_once_comma s = refl

parse_printed : (n : ℕ) → n < 2 ^ 64 → parse_u64 (print_before (suc n) n "") ≡ some n
parse_printed n b =
    parse_u64-print_before (suc n) n "" (omega arith)
    ∙ parse_digits-print_before (suc n) n "" (omega arith) b
    ∙ unfold parse_digits in refl

start_and_count-printed :
    (start count : ℕ)
    → start < 2 ^ 64
    → count < 2 ^ 64
    → start_and_count
        (print_before (suc start) start (cons "," (print_before (suc count) count "")))
      ≡ some (start, count)
unfolding start_and_count
start_and_count-printed start count a b =
    let right = print_before (suc count) count "" in
    let spec = print_before (suc start) start (cons "," right) in
    ap (read_parts spec) (
      split_once-print_before (suc start) start (cons "," right) "" right (omega arith)
        (split_once_comma right))
    ∙ ap₂ both (parse_printed start a) (parse_printed count b)

inclusive_lem :
    (start count : ℕ)
    → start + count < 2 ^ 64
    → inclusive start count ≡ (if nat_eq count 0 then none else some (start, start + count - 1))
unfolding inclusive
inclusive_lem start count b = ground arith

-- A range that git prints with a start and a count is read back, if its end is a number of 64 bits:
-- as its first and last line, or as nothing if it has no line.
pub parse_current_range-print_range :
    (start count : ℕ)
    → start + count < 2 ^ 64
    → parse_current_range (print_range start count)
      ≡ (if nat_eq count 0 then none else some (start, start + count - 1))
unfolding parse_current_range print_range
parse_current_range-print_range start count b =
    subst
      (λ parts.
        (elim parts [ none ↦ none | some (start, count) ↦ inclusive start count ])
        ≡ (if nat_eq count 0 then none else some (start, start + count - 1)))
      (sym (start_and_count-printed start count (omega arith) (omega arith)))
      (inclusive_lem start count b)
