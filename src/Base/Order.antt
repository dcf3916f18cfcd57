-- ===== src/Base/Order.antt =====
-- The bound `K: Ord` of the standard library's sorted collections, with the laws that the trait
-- asks of `cmp` (its `==` is read as `≡`), for numbers, texts and pairs.
use Prim.Native.Nat.{ℕ, compare, Ordering}
use Prim.Native.Nat.Ordering.{lt, eq, gt}
use Prim.Native.Char.{Char, code}
use Prim.Native.String.compare as compare_text
use Prim.Native.String.{String, ◌∷◌, compare as compare_text}
use mathlib.Core.Path.{◌≡◌, refl, sym, ap, ◌∙◌}
use mathlib.Core.List.{List, [], ◌∷◌}
use native.Mathlib.Omega.{arith}
use text.Mathlib.TextEquality.{path_by_compare}

-- `Ordering::then` and `Ordering::reverse`.
abbrev pub and_then : Ordering → Ordering → Ordering
and_then lt second = lt
and_then eq second = second
and_then gt second = gt

abbrev pub flip : Ordering → Ordering
flip lt = gt
flip eq = eq
flip gt = lt

pub record Ord {ℓ} (K : Type ℓ) : Type ℓ where
  pub cmp : K → K → Ordering
  pub cmp_flip : (a b : K) → cmp b a ≡ flip (cmp a b)
  pub eq_of_cmp : (a b : K) → cmp a b ≡ eq → a ≡ b
  pub lt_trans : (a b c : K) → cmp a b ≡ lt → cmp b c ≡ lt → cmp a c ≡ lt

pub cmp_refl {ℓ} : {K : Type ℓ} ⦃o : Ord K⦄ (a : K) → o.cmp a a ≡ eq
cmp_refl ⦃o⦄ a = ground (arith, o.cmp_flip a a)

pub compare-flip : (a b : ℕ) → compare b a ≡ flip (compare a b)
compare-flip a b = ground arith

pub compare-eq : (a b : ℕ) → compare a b ≡ eq → a ≡ b
compare-eq a b h = ground arith

pub compare_trans : (a b c : ℕ) → compare a b ≡ lt → compare b c ≡ lt → compare a c ≡ lt
compare_trans a b c h k = ground arith

instance abbrev pub nat_ord : Ord ℕ
nat_ord = record {
  cmp = compare;
  cmp_flip = compare-flip;
  eq_of_cmp = compare-eq;
  lt_trans = compare_trans;
}

-- Texts compare by their code points from the left, as Rust compares their bytes: UTF-8 keeps
-- the order of code points.
cons_cons :
    (c d : Char) (s t : String)
    → compare_text (c ∷ s) (d ∷ t) ≡ and_then (compare (code c) (code d)) (compare_text s t)
cons_cons c d s t =
    compare_text.cons-cons c d s t ∙ same (compare (code c) (code d)) (compare_text s t)
  where
    same : (o p : Ordering) → Prim.Native.String.then o p ≡ and_then o p
    same lt p = refl
    same eq p = refl
    same gt p = refl

flip_then :
    (o o' p p' : Ordering) → o' ≡ flip o → p' ≡ flip p → and_then o' p' ≡ flip (and_then o p)
flip_then o o' p p' h k = ground arith

pub text_flip : (s t : String) → compare_text t s ≡ flip (compare_text s t)
text_flip String.[] String.[] = compare_text.nil-nil ∙ sym (ap flip compare_text.nil-nil)
text_flip String.[] (d ∷ t) = compare_text.cons-nil d t ∙ sym (ap flip (compare_text.nil-cons d t))
text_flip (c ∷ s) String.[] = compare_text.nil-cons c s ∙ sym (ap flip (compare_text.cons-nil c s))
text_flip (c ∷ s) (d ∷ t) =
    cons_cons d c t s
    ∙ flip_then _ _ _ _ (compare-flip (code c) (code d)) (text_flip s t)
    ∙ sym (ap flip (cons_cons c d s t))

then_trans :
    (a b c : ℕ) (o p q : Ordering)
    → (o ≡ lt → p ≡ lt → q ≡ lt)
    → and_then (compare a b) o ≡ lt
    → and_then (compare b c) p ≡ lt
    → and_then (compare a c) q ≡ lt
then_trans a b c o p q f h k = ground arith

pub text_trans :
    (s t u : String) → compare_text s t ≡ lt → compare_text t u ≡ lt → compare_text s u ≡ lt
text_trans s t String.[] h k = absurd (not_below t k)
  where
    not_below : (t : String) → compare_text t String.[] ≡ lt → ⊥
    not_below String.[] e = cc (sym compare_text.nil-nil ∙ e)
    not_below (c ∷ r) e = cc (sym (compare_text.cons-nil c r) ∙ e)
text_trans String.[] t (e ∷ u) h k = compare_text.nil-cons e u
text_trans (c ∷ s) String.[] (e ∷ u) h k = cc (sym (compare_text.cons-nil c s) ∙ h)
text_trans (c ∷ s) (d ∷ t) (e ∷ u) h k =
    cons_cons c e s u
    ∙ then_trans (code c) (code d) (code e) _ _ _ (text_trans s t u) (sym (cons_cons c d s t) ∙ h)
        (sym (cons_cons d e t u) ∙ k)

instance abbrev pub text_ord : Ord String
text_ord = record {
  cmp = compare_text;
  cmp_flip = text_flip;
  eq_of_cmp = path_by_compare;
  lt_trans = text_trans;
}

-- Pairs compare by their first part, then by their second.
module _ {ℓ κ} {A : Type ℓ} {B : Type κ} ⦃a : Ord A⦄ ⦃b : Ord B⦄ where
  abbrev pub lex : A × B → A × B → Ordering
  lex x y = and_then (a.cmp x.0 y.0) (b.cmp x.1 y.1)

  pub lex-flip : (x y : A × B) → lex y x ≡ flip (lex x y)
  lex-flip x y = flip_then _ _ _ _ (a.cmp_flip x.0 y.0) (b.cmp_flip x.1 y.1)

  pub lex-eq : (x y : A × B) → lex x y ≡ eq → x ≡ y
  lex-eq x y h = ground (arith, a.eq_of_cmp x.0 y.0, b.eq_of_cmp x.1 y.1)

  pub lex_trans : (x y z : A × B) → lex x y ≡ lt → lex y z ≡ lt → lex x z ≡ lt
  lex_trans x y z h k = grind (
    arith,
    a.eq_of_cmp x.0 y.0,
    a.eq_of_cmp y.0 z.0,
    a.lt_trans x.0 y.0 z.0,
    b.lt_trans x.1 y.1 z.1,
  )

  instance abbrev pub pair_ord : Ord (A × B)
  pair_ord = record { cmp = lex; cmp_flip = lex-flip; eq_of_cmp = lex-eq; lt_trans = lex_trans }

-- A type of which each value can be read back from its code compares by the codes, as a derived
-- order does.
module _ {ℓ κ} {A : Type ℓ} {K : Type κ} ⦃o : Ord K⦄ (code_of : A → K) (read : K → A)
    (read-code : (a : A) → read (code_of a) ≡ a) where
  pub coded-eq : (a b : A) → o.cmp (code_of a) (code_of b) ≡ eq → a ≡ b
  coded-eq a b h = sym (read-code a) ∙ ap read (o.eq_of_cmp (code_of a) (code_of b) h) ∙ read-code b

  abbrev pub ord_by_code : Ord A
  ord_by_code = record {
    cmp = λ a b. o.cmp (code_of a) (code_of b);
    cmp_flip = λ a b. o.cmp_flip (code_of a) (code_of b);
    eq_of_cmp = coded-eq;
    lt_trans = λ a b c. o.lt_trans (code_of a) (code_of b) (code_of c);
  }

-- Lists compare as `Vec` and the components of a path do: by the first difference, a prefix first.
module _ {ℓ} {A : Type ℓ} ⦃o : Ord A⦄ where
  abbrev pub cmp_list : List A → List A → Ordering
  cmp_list [] [] = eq
  cmp_list [] (y ∷ ys) = lt
  cmp_list (x ∷ xs) [] = gt
  cmp_list (x ∷ xs) (y ∷ ys) = and_then (o.cmp x y) (cmp_list xs ys)

  pub cmp_list-flip : (xs ys : List A) → cmp_list ys xs ≡ flip (cmp_list xs ys)
  cmp_list-flip [] [] = refl
  cmp_list-flip [] (y ∷ ys) = refl
  cmp_list-flip (x ∷ xs) [] = refl
  cmp_list-flip (x ∷ xs) (y ∷ ys) = flip_then _ _ _ _ (o.cmp_flip x y) (cmp_list-flip xs ys)

  pub cmp_list-eq : (xs ys : List A) → cmp_list xs ys ≡ eq → xs ≡ ys
  cmp_list-eq [] [] h = refl
  cmp_list-eq [] (y ∷ ys) h = cc
  cmp_list-eq (x ∷ xs) [] h = cc
  cmp_list-eq (x ∷ xs) (y ∷ ys) h = ground (arith, o.eq_of_cmp x y, cmp_list-eq xs ys)

  pub cmp_list_trans :
      (xs ys zs : List A) → cmp_list xs ys ≡ lt → cmp_list ys zs ≡ lt → cmp_list xs zs ≡ lt
  cmp_list_trans [] [] zs h k = cc
  cmp_list_trans [] (y ∷ ys) [] h k = cc
  cmp_list_trans [] (y ∷ ys) (z ∷ zs) h k = refl
  cmp_list_trans (x ∷ xs) [] zs h k = cc
  cmp_list_trans (x ∷ xs) (y ∷ ys) [] h k = cc
  cmp_list_trans (x ∷ xs) (y ∷ ys) (z ∷ zs) h k =
      grind (arith, o.eq_of_cmp x y, o.eq_of_cmp y z, o.lt_trans x y z, cmp_list_trans xs ys zs)

  instance abbrev pub list_ord : Ord (List A)
  list_ord = record {
    cmp = cmp_list;
    cmp_flip = cmp_list-flip;
    eq_of_cmp = cmp_list-eq;
    lt_trans = cmp_list_trans;
  }
