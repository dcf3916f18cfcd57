-- ===== src/Base/Sorting.antt =====
-- `sort_by` and `sort_by_key` of the standard library: a stable sort.
use Prim.Native.Nat.{suc, Ordering}
use Prim.Native.Nat.Ordering.{lt, eq, gt}
use mathlib.Core.Path.{◌≡◌, refl, ap, ◌∙◌}
use mathlib.Core.Bool.{Bool, true, false, ◌||◌}
use mathlib.Core.Logic.{◌⊎◌, inl, inr}
use mathlib.Core.List.{List, [], ◌∷◌}
use native.Mathlib.Omega.{arith}
use lean_dup.Base.Lists.{length, any, All}
use lean_dup.Base.Order.{Ord}

abbrev pub is_gt : Ordering → Bool
is_gt gt = true
is_gt other = false

module _ {ℓ} {A : Type ℓ} (cmp : A → A → Ordering) where
  unfoldable pub insert_by : A → List A → List A
  insert_by x [] = x ∷ []
  insert_by x (y ∷ ys) =
      let rest = insert_by x ys in
      elim (cmp x y) [ lt ↦ x ∷ y ∷ ys | eq ↦ x ∷ y ∷ ys | gt ↦ y ∷ rest ]

  unfoldable pub sort_by : List A → List A
  sort_by [] = []
  sort_by (x ∷ xs) = insert_by x (sort_by xs)

  length-insert_by : (x : A) (ys : List A) → length (insert_by x ys) ≡ suc (length ys)
  unfolding insert_by
  length-insert_by x [] = refl
  length-insert_by x (y ∷ ys) = ground (arith, length-insert_by x ys)

  pub length-sort_by : (xs : List A) → length (sort_by xs) ≡ length xs
  unfolding sort_by
  length-sort_by [] = refl
  length-sort_by (x ∷ xs) = length-insert_by x (sort_by xs) ∙ ap suc (length-sort_by xs)

  pub All-insert_by {κ} :
      (P : A → Type κ) (x : A) (ys : List A) → P x → All P ys → All P (insert_by x ys)
  unfolding insert_by
  All-insert_by P x [] p h = (p, tt)
  All-insert_by P x (y ∷ ys) p h = let rest = All-insert_by P x ys p h.1 in ground (arith, rest)

  pub All-sort_by {κ} : (P : A → Type κ) (xs : List A) → All P xs → All P (sort_by xs)
  unfolding sort_by
  All-sort_by P [] h = tt
  All-sort_by P (x ∷ xs) h = All-insert_by P x (sort_by xs) h.0 (All-sort_by P xs h.1)

  any-insert_by : (p : A → Bool) (x : A) (ys : List A) → any p (insert_by x ys) ≡ (p x || any p ys)
  unfolding insert_by
  any-insert_by p x [] = refl
  any-insert_by p x (y ∷ ys) = ground (arith, any-insert_by p x ys)

  pub any-sort_by : (p : A → Bool) (xs : List A) → any p (sort_by xs) ≡ any p xs
  unfolding sort_by
  any-sort_by p [] = refl
  any-sort_by p (x ∷ xs) = any-insert_by p x (sort_by xs) ∙ ap (λ b. p x || b) (any-sort_by p xs)

Ordering-cases : (c : Ordering) → (is_gt c ≡ false) ⊎ (c ≡ gt)
Ordering-cases lt = inl refl
Ordering-cases eq = inl refl
Ordering-cases gt = inr refl

pub le_of {ℓ} :
    {K : Type ℓ} ⦃o : Ord K⦄ (a b c : K)
    → is_gt (o.cmp a b) ≡ false
    → is_gt (o.cmp b c) ≡ false
    → is_gt (o.cmp a c) ≡ false
le_of ⦃o⦄ a b c h k = grind (arith, o.eq_of_cmp a b, o.eq_of_cmp b c, o.lt_trans a b c)

module _ {ℓ κ} {A : Type ℓ} {K : Type κ} ⦃o : Ord K⦄ (key : A → K) where
  abbrev pub by_key : A → A → Ordering
  by_key x y = o.cmp (key x) (key y)

  -- Every element is followed by none with a smaller key.
  abbrev pub IsSorted : List A → Type 0
  IsSorted [] = Unit
  IsSorted (x ∷ xs) = All (λ y. is_gt (by_key x y) ≡ false) xs × IsSorted xs

  le_trans :
      (x y z : A)
      → is_gt (by_key x y) ≡ false
      → is_gt (by_key y z) ≡ false
      → is_gt (by_key x z) ≡ false
  le_trans x y z h k = le_of (key x) (key y) (key z) h k

  All-below :
      (x y : A) (ys : List A)
      → is_gt (by_key x y) ≡ false
      → All (λ z. is_gt (by_key y z) ≡ false) ys
      → All (λ z. is_gt (by_key x z) ≡ false) ys
  All-below x y [] h k = tt
  All-below x y (z ∷ zs) h k = (le_trans x y z h k.0, All-below x y zs h k.1)

  flipped : (x y : A) → by_key x y ≡ gt → is_gt (by_key y x) ≡ false
  flipped x y h = ground (arith, o.cmp_flip (key x) (key y))

  insert_first :
      (x y : A) (ys : List A)
      → is_gt (by_key x y) ≡ false
      → insert_by by_key x (y ∷ ys) ≡ x ∷ y ∷ ys
  unfolding insert_by
  insert_first x y ys h = ground arith

  insert_later :
      (x y : A) (ys : List A)
      → by_key x y ≡ gt
      → insert_by by_key x (y ∷ ys) ≡ y ∷ insert_by by_key x ys
  unfolding insert_by
  insert_later x y ys h = ground arith

  pub insert_by-IsSorted : (x : A) (ys : List A) → IsSorted ys → IsSorted (insert_by by_key x ys)
  unfolding insert_by
  insert_by-IsSorted x [] h = (tt, tt)
  insert_by-IsSorted x (y ∷ ys) h = elim (Ordering-cases (by_key x y)) [
    | inl below ↦
        let first = insert_first x y ys below in rw first ((below, All-below x y ys below h.0), h)
    | inr above ↦
        let later = insert_later x y ys above in
        rw later (
          All-insert_by by_key (λ z. is_gt (by_key y z) ≡ false) x ys (flipped x y above) h.0,
          insert_by-IsSorted x ys h.1,
        )
  ]

  pub sort_by-IsSorted : (xs : List A) → IsSorted (sort_by by_key xs)
  unfolding sort_by
  sort_by-IsSorted [] = tt
  sort_by-IsSorted (x ∷ xs) = insert_by-IsSorted x (sort_by by_key xs) (sort_by-IsSorted xs)

-- A symmetric relation between any two elements survives sorting.
module _ {ℓ κ} {A : Type ℓ} (R : A → A → Type κ) where
  abbrev pub IsPairwise : List A → Type κ
  IsPairwise [] = Unit
  IsPairwise (x ∷ xs) = All (R x) xs × IsPairwise xs

  module _ (flip_R : (x y : A) → R x y → R y x) (cmp : A → A → Ordering) where
    insert_by-IsPairwise :
        (x : A) (ys : List A) → All (R x) ys → IsPairwise ys → IsPairwise (insert_by cmp x ys)
    unfolding insert_by
    insert_by-IsPairwise x [] h k = (tt, tt)
    insert_by-IsPairwise x (y ∷ ys) h k =
        let rest = insert_by-IsPairwise x ys h.1 k.1 in
        let first = All-insert_by cmp (R y) x ys (flip_R x y h.0) k.0 in ground arith

    pub sort_by-IsPairwise : (xs : List A) → IsPairwise xs → IsPairwise (sort_by cmp xs)
    unfolding sort_by
    sort_by-IsPairwise [] h = tt
    sort_by-IsPairwise (x ∷ xs) h =
        insert_by-IsPairwise x (sort_by cmp xs) (All-sort_by cmp (R x) xs h.0)
          (sort_by-IsPairwise xs h.1)
