-- ===== src/Search/Retrieval/Heap/Refines.antt =====
-- crates/search/src/retrieval.rs: the bounded heap holds the greatest entries.
use lean_dup.Base.{
  ℕ, zero, suc, ◌+◌, ◌-◌, true, false, List, [], ◌∷◌, length, drop, ltb, Ord, sort_by, insert_by,
  is_gt, IsSorted, insert_by-IsSorted, le_of, All, All-imp, length-drop, inl, inr, ◌≡◌, refl, sym,
  ap, ◌∙◌, arith, Bool-cases,
}
use lean_dup.Search.Retrieval.Heap.{push, replace_smallest, offer, fill}

module _ {ℓ} {K : Type ℓ} ⦃o : Ord K⦄ where
  abbrev pub sorted : List K → List K
  sorted xs = sort_by o.cmp xs

  abbrev IsAscending : List K → Type 0
  IsAscending s = IsSorted {A = K} {K = K} (λ k. k) s

  length-push : (e : K) (s : List K) → length (push e s) ≡ suc (length s)
  unfolding insert_by
  length-push e [] = refl
  length-push e (x ∷ xs) = ground (arith, length-push e xs)

  push_comm : (x y : K) (s : List K) → push x (push y s) ≡ push y (push x s)
  unfolding insert_by
  push_comm x y [] = ground (arith, o.cmp_flip x y, o.eq_of_cmp x y)
  push_comm x y (z ∷ zs) = ground (
    arith,
    push_comm x y zs,
    o.cmp_flip x y,
    o.cmp_flip x z,
    o.cmp_flip y z,
    o.eq_of_cmp x y,
    o.eq_of_cmp x z,
    o.eq_of_cmp y z,
    o.lt_trans x y z,
    o.lt_trans y x z,
    o.lt_trans x z y,
    o.lt_trans z x y,
    o.lt_trans y z x,
    o.lt_trans z y x,
  )

  push_all : List K → List K → List K
  push_all [] s = s
  push_all (e ∷ es) s = push_all es (push e s)

  push_all-push :
      (es : List K) (e : K) (s : List K) → push_all es (push e s) ≡ push e (push_all es s)
  unfolding push_all
  push_all-push [] e s = refl
  push_all-push (d ∷ es) e s = ap (push_all es) (push_comm d e s) ∙ push_all-push es e (push d s)

  push_all-sorted : (es : List K) → push_all es [] ≡ sorted es
  unfolding push_all sort_by
  push_all-sorted [] = refl
  push_all-sorted (e ∷ es) = push_all-push es e [] ∙ ap (push e) (push_all-sorted es)

  -- An element that is not above any of `s` is not above the head of a rest of `s`.
  kept_out :
      (e : K) (j : ℕ) (s : List K)
      → All (λ x. is_gt (o.cmp e x) ≡ false) s
      → replace_smallest e (drop j s) ≡ drop j s
  kept_out e zero [] h = refl
  kept_out e zero (x ∷ xs) h = ground arith
  kept_out e (suc j) [] h = refl
  kept_out e (suc j) (x ∷ xs) h = kept_out e j xs h.1

  All-above :
      (e x : K) (s : List K)
      → is_gt (o.cmp e x) ≡ false
      → All (λ y. is_gt (o.cmp x y) ≡ false) s
      → All (λ y. is_gt (o.cmp e y) ≡ false) s
  All-above e x s h k = All-imp (λ y l. le_of e x y h l) s k

  push-eq_front : (e x : K) (s : List K) → is_gt (o.cmp e x) ≡ false → push e (x ∷ s) ≡ e ∷ x ∷ s
  unfolding insert_by
  push-eq_front e x s h = ground arith

  push-eq_later : (e x : K) (s : List K) → is_gt (o.cmp e x) ≡ true → push e (x ∷ s) ≡ x ∷ push e s
  unfolding insert_by
  push-eq_later e x s h = ground arith

  -- Replacing the smallest of the greatest entries is forgetting one more after a push.
  drop-push :
      (e : K) (j : ℕ) (s : List K)
      → IsAscending s
      → drop (suc j) (push e s) ≡ replace_smallest e (drop j s)
  unfolding insert_by
  drop-push e zero [] h = refl
  drop-push e zero (x ∷ xs) h = elim (Bool-cases (is_gt (o.cmp e x))) [
    | inl above ↦ rw above (ap (drop 1) (push-eq_later e x xs above))
    | inr below ↦ rw below (ap (drop 1) (push-eq_front e x xs below))
  ]
  drop-push e (suc j) [] h = refl
  drop-push e (suc j) (x ∷ xs) h = elim (Bool-cases (is_gt (o.cmp e x))) [
    | inl above ↦ ap (drop (suc (suc j))) (push-eq_later e x xs above) ∙ drop-push e j xs h.1
    | inr below ↦
        ap (drop (suc (suc j))) (push-eq_front e x xs below)
        ∙ sym (kept_out e j xs (All-above e x xs below h.0))
  ]

  full :
      (limit : ℕ) (e : K) (s : List K)
      → ltb (length s) limit ≡ false
      → offer limit e (drop (length s - limit) s) ≡ replace_smallest e (drop (length s - limit) s)
  unfolding offer
  full limit e s h =
      let no_room : ltb (length (drop (length s - limit) s)) limit ≡ false =
        ground (arith, length-drop (length s - limit) s) in
      rw no_room refl

  drop-nil : (n : ℕ) → drop {A = K} n [] ≡ []
  drop-nil zero = refl
  drop-nil (suc n) = refl

  offer-drop :
      (limit : ℕ) (e : K) (s : List K)
      → IsAscending s
      → offer limit e (drop (length s - limit) s) ≡ drop (suc (length s) - limit) (push e s)
  unfolding offer
  offer-drop limit e s h = elim (Bool-cases (ltb (length s) limit)) [
    | inl room ↦
        let none_out : length s - limit ≡ 0 = ground arith in
        let none_out' : suc (length s) - limit ≡ 0 = ground arith in
        rw (none_out, none_out', room) refl
    | inr none_left ↦
        let one_more : suc (length s) - limit ≡ suc (length s - limit) = ground arith in
        rw one_more (full limit e s none_left ∙ sym (drop-push e (length s - limit) s h))
  ]

  fill-drop :
      (limit : ℕ) (es s : List K)
      → IsAscending s
      → fill limit es (drop (length s - limit) s)
        ≡ drop (length s + length es - limit) (push_all es s)
  unfolding fill push_all
  fill-drop limit [] s h = ap (λ n. drop n s) (omega arith)
  fill-drop limit (e ∷ es) s h =
      ap (fill limit es)
        (offer-drop limit e s h ∙ ap (λ n. drop (n - limit) (push e s)) (sym (length-push e s)))
      ∙ fill-drop limit es (push e s) (insert_by-IsSorted {A = K} {K = K} (λ k. k) e s h)
      ∙ ap (λ n. drop n (push_all es (push e s))) (omega (arith, length-push e s))

  -- The heap ends with the greatest entries: all of them in ascending order, without the first ones.
  pub fill_refines :
      (limit : ℕ) (es : List K) → fill limit es [] ≡ drop (length es - limit) (sorted es)
  fill_refines limit es =
      ap (fill limit es) (sym (drop-nil (0 - limit)))
      ∙ fill-drop limit es [] tt
      ∙ ap (drop (0 + length es - limit)) (push_all-sorted es)
      ∙ ap (λ n. drop n (sorted es)) (omega arith)
