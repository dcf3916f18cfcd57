-- ===== src/Base/Sets.antt =====
-- `BTreeSet` and a sorted, deduplicated `Vec`: an ascending list without repetition. The sets that
-- the source only inserts into and asks (`HashSet`) are the same lists.
use Prim.Native.Nat.Ordering.{lt, eq, gt}
use mathlib.Core.Path.{◌≡◌, refl, sym, ap, ap₂, subst, ◌∙◌}
use mathlib.Core.Logic.{◌↔◌, ◌⊎◌, inl, inr}
use mathlib.Core.Bool.{Bool, true, false, ◌||◌}
use mathlib.Core.List.{List, [], ◌∷◌}
use native.Mathlib.Omega.{arith}
use text.Mathlib.Text.{is_eq}
use lean_dup.Base.Tests.{Bool-cases, Bool-ext, or_true}
use lean_dup.Base.Lists.{any, All}
use lean_dup.Base.Order.{Ord, cmp_refl}

module _ {ℓ} {K : Type ℓ} ⦃o : Ord K⦄ where
  abbrev pub same : K → K → Bool
  same a b = is_eq (o.cmp a b)

  pub same_iff : (a b : K) → (same a b ≡ true) ↔ (a ≡ b)
  same_iff a b = (
    λ h. ground (arith, o.eq_of_cmp a b),
    λ p. ap (λ c. same a c) (sym p) ∙ ap is_eq (cmp_refl a),
  )

  pub same_comm : (a b : K) → same a b ≡ same b a
  same_comm a b =
      Bool-ext _ _ (λ h. (same_iff b a).1 (sym ((same_iff a b).0 h)))
        (λ h. (same_iff a b).1 (sym ((same_iff b a).0 h)))

  unfoldable pub contains : K → List K → Bool
  contains z s = any (same z) s

  unfoldable pub insert : K → List K → List K
  insert x [] = x ∷ []
  insert x (y ∷ ys) =
      let rest = insert x ys in elim (o.cmp x y) [ lt ↦ x ∷ y ∷ ys | eq ↦ y ∷ ys | gt ↦ y ∷ rest ]

  -- `extend`, and `collect` into an empty set.
  unfoldable pub extend : List K → List K → List K
  extend [] s = s
  extend (x ∷ xs) s = extend xs (insert x s)

  abbrev pub Above : K → List K → Type 0
  Above a s = All (λ x. o.cmp a x ≡ lt) s

  abbrev pub IsAscending : List K → Type 0
  IsAscending [] = Unit
  IsAscending (x ∷ xs) = Above x xs × IsAscending xs

  pub contains-insert :
      (z x : K) (s : List K) → contains z (insert x s) ≡ (same z x || contains z s)
  unfolding contains insert
  contains-insert z x [] = refl
  contains-insert z x (y ∷ ys) =
      ground (arith, contains-insert z x ys, o.eq_of_cmp x y, same_iff z x, same_iff z y)

  pub contains-insert_self : (x : K) (s : List K) → contains x (insert x s) ≡ true
  contains-insert_self x s = ground (arith, contains-insert x x s, cmp_refl x)

  pub contains-cons : (z x : K) (xs : List K) → contains z (x ∷ xs) ≡ (same z x || contains z xs)
  unfolding contains
  contains-cons z x xs = refl

  pub not_contains-nil : (z : K) → contains z [] ≡ true → ⊥
  unfolding contains
  not_contains-nil z h = cc

  pub contains_head : (x : K) (xs : List K) → contains x (x ∷ xs) ≡ true
  unfolding contains
  contains_head x xs = ground (arith, cmp_refl x)

  pub contains_later : (z x : K) (xs : List K) → contains z xs ≡ true → contains z (x ∷ xs) ≡ true
  unfolding contains
  contains_later z x xs h = ground arith

  pub contains-extend :
      (z : K) (xs s : List K) → contains z (extend xs s) ≡ (contains z xs || contains z s)
  unfolding extend
  contains-extend z [] s = unfold contains in refl
  contains-extend z (x ∷ xs) s =
      ground (arith, contains-extend z xs (insert x s), contains-insert z x s, contains-cons z x xs)

  Above-insert : (a x : K) (s : List K) → o.cmp a x ≡ lt → Above a s → Above a (insert x s)
  unfolding insert
  Above-insert a x [] h k = (h, tt)
  Above-insert a x (y ∷ ys) h k = ground (arith, Above-insert a x ys)

  Above-trans : (a b : K) (s : List K) → o.cmp a b ≡ lt → Above b s → Above a s
  Above-trans a b [] h k = tt
  Above-trans a b (y ∷ ys) h k = (o.lt_trans a b y h k.0, Above-trans a b ys h k.1)

  pub insert-IsAscending : (x : K) (s : List K) → IsAscending s → IsAscending (insert x s)
  unfolding insert
  insert-IsAscending x [] h = (tt, tt)
  insert-IsAscending x (y ∷ ys) h =
      ground (
        arith,
        insert-IsAscending x ys h.1,
        Above-insert y x ys,
        Above-trans x y ys,
        o.cmp_flip x y,
      )

  pub extend-IsAscending : (xs s : List K) → IsAscending s → IsAscending (extend xs s)
  unfolding extend
  extend-IsAscending [] s h = h
  extend-IsAscending (x ∷ xs) s h = extend-IsAscending xs (insert x s) (insert-IsAscending x s h)

  Above-contains : (a : K) (s : List K) → Above a s → contains a s ≡ false
  unfolding contains
  Above-contains a [] h = refl
  Above-contains a (y ∷ ys) h = ground (arith, Above-contains a ys h.1)

  contains-Above : (a z : K) (s : List K) → Above a s → contains z s ≡ true → o.cmp a z ≡ lt
  unfolding contains
  contains-Above a z [] h k = cc
  contains-Above a z (y ∷ ys) h k = ground (arith, contains-Above a z ys h.1, same_iff z y)

  -- Two ascending lists with the same members are one list.
  abbrev pub SameMembers : List K → List K → Type ℓ
  SameMembers s t = (z : K) → contains z s ≡ contains z t

  heads_le :
      (x y : K) (ys : List K) → Above y ys → contains x (y ∷ ys) ≡ true → (x ≡ y) ⊎ (o.cmp y x ≡ lt)
  unfolding contains
  heads_le x y ys h k = elim (or_true _ _ k) [
    | inl e ↦ inl ((same_iff x y).0 e)
    | inr m ↦ inr (contains-Above y x ys h m)
  ]

  tail_contains :
      (z x : K) (xs ys : List K)
      → Above x xs
      → Above x ys
      → contains z (x ∷ xs) ≡ contains z (x ∷ ys)
      → contains z xs ≡ contains z ys
  unfolding contains
  tail_contains z x xs ys h k e = elim (Bool-cases (same z x)) [
    | inl s ↦
        let p = (same_iff z x).0 s in
        ap (λ w. contains w xs) p
        ∙ Above-contains x xs h
        ∙ sym (Above-contains x ys k)
        ∙ ap (λ w. contains w ys) (sym p)
    | inr d ↦ rw (d, ◌||◌) at e
  ]

  heads-eq :
      (x y : K) (xs ys : List K) → Above x xs → Above y ys → SameMembers (x ∷ xs) (y ∷ ys) → x ≡ y
  heads-eq x y xs ys h k e =
      let left = heads_le x y ys k (sym (e x) ∙ contains_head x xs) in
      let right = heads_le y x xs h (e y ∙ contains_head y ys) in ground (arith, o.cmp_flip x y)

  pub IsAscending-ext : (s t : List K) → IsAscending s → IsAscending t → SameMembers s t → s ≡ t
  IsAscending-ext [] [] h k e = refl
  IsAscending-ext [] (y ∷ ys) h k e = unfold contains in cc (e y, contains_head y ys)
  IsAscending-ext (x ∷ xs) [] h k e = unfold contains in cc (e x, contains_head x xs)
  IsAscending-ext (x ∷ xs) (y ∷ ys) h k e =
      let p = heads-eq x y xs ys h.0 k.0 e in
      let below = subst (λ w. Above w ys) (sym p) k.0 in
      let same_members = subst (λ w. SameMembers (x ∷ xs) (w ∷ ys)) (sym p) e in
      ap₂ ◌∷◌ p
        (IsAscending-ext xs ys h.1 k.1 (λ z. tail_contains z x xs ys h.0 below (same_members z)))

  pub All-of_contains {κ} :
      (P : K → Type κ) (s : List K) → ((x : K) → contains x s ≡ true → P x) → All P s
  All-of_contains P [] f = tt
  All-of_contains P (x ∷ xs) f =
      (f x (contains_head x xs), All-of_contains P xs (λ y h. f y (contains_later y x xs h)))

  pub any_of_contains :
      (p : K → Bool) (z : K) (xs : List K) → contains z xs ≡ true → p z ≡ true → any p xs ≡ true
  any_of_contains p z [] h k = absurd (not_contains-nil z h)
  any_of_contains p z (x ∷ xs) h k =
      ground (arith, contains-cons z x xs, same_iff z x, ap p, any_of_contains p z xs)
