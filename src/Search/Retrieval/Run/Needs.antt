-- ===== src/Search/Retrieval/Run/Needs.antt =====
-- crates/search/src/retrieval.rs: `external_needed` has the handle of every external candidate.
use lean_dup.Base.{
  ℕ, ◌<◌, ◌≡◌, refl, sym, ap, ◌∙◌, subst, String, true, ◌||◌, some, List, [], ◌∷◌, ◌++◌, All,
  All-imp, any-append, if◌then◌else◌, nat_ord, text_ord, inl, inr, Bool-cases, arith,
}
use lean_dup.Base.Maps
use lean_dup.Base.Maps.{get_or_default, get-update}
use lean_dup.Base.Sets
use lean_dup.Base.Sets.{same, same_iff, contains_head, not_contains-nil}
use lean_dup.Search.Retrieval.State.{CandidateId, SelectedCandidate}
use lean_dup.Search.Retrieval.State.CandidateId.{workspace, external}
use lean_dup.Search.Retrieval.Run.{Selection, Hydrated, need, need_one, need_all}
use lean_dup.Search.Retrieval.Run.Hydrates.{IsHydrated}

abbrev pub Needed : Type 0
Needed = List (ℕ × List String)

abbrev pub Wants : Needed → ℕ → String → Type 0
Wants needed i handle = Sets.contains handle (get_or_default [] (Maps.get i needed)) ≡ true

-- A candidate that can be looked up after hydration.
abbrev pub IsKnown : ℕ → ℕ → CandidateId → Type 0
IsKnown n m (workspace i) = i < n
IsKnown n m (external i handle) = i < m

abbrev pub Requires : Needed → CandidateId → Type 0
Requires needed (workspace i) = Unit
Requires needed (external i handle) = Wants needed i handle

abbrev pub KeysBelow : ℕ → Needed → Type 0
KeysBelow m needed = All (λ entry. entry.0 < m) needed

insert-KeysBelow :
    (m k : ℕ) (v : List String) (needed : Needed)
    → k < m
    → KeysBelow m needed
    → KeysBelow m (Maps.insert k v needed)
unfolding Maps.insert
insert-KeysBelow m k v [] b h = (b, tt)
insert-KeysBelow m k v ((j, w) ∷ needed) b h =
    let rest = insert-KeysBelow m k v needed b h.1 in ground (arith, rest)

need_one-KeysBelow :
    (n m : ℕ) (id : CandidateId) (needed : Needed)
    → IsKnown n m id
    → KeysBelow m needed
    → KeysBelow m (need_one id needed)
unfolding Maps.update
need_one-KeysBelow n m (workspace i) needed b h = h
need_one-KeysBelow n m (external i handle) needed b h = insert-KeysBelow m i _ needed b h

contains-append_left :
    (handle : String) (xs ys : List String)
    → Sets.contains handle xs ≡ true
    → Sets.contains handle (xs ++ ys) ≡ true
unfolding Sets.contains
contains-append_left handle xs ys h =
    any-append (same handle) xs ys ∙ ap (λ b. b || Sets.contains handle ys) h

contains-append_right :
    (handle : String) (xs ys : List String)
    → Sets.contains handle ys ≡ true
    → Sets.contains handle (xs ++ ys) ≡ true
unfolding Sets.contains
contains-append_right handle xs ys h = let split = any-append (same handle) xs ys in ground arith

need_one-keeps :
    (id : CandidateId) (needed : Needed) (i : ℕ) (handle : String)
    → Wants needed i handle
    → Wants (need_one id needed) i handle
need_one-keeps (workspace j) needed i handle h = h
need_one-keeps (external j other) needed i handle h =
    let posted = get_or_default [] (Maps.get j needed) in
    let there = get-update i j [] (λ handles. handles ++ (other ∷ [])) needed in
    rw there (elim (Bool-cases (same i j)) [
      | inl this ↦ rw this (
          contains-append_left handle posted (other ∷ [])
            (subst (λ k. Wants needed k handle) ((same_iff i j).0 this) h))
      | inr apart ↦ rw apart h
    ])

need_one-adds : (id : CandidateId) (needed : Needed) → Requires (need_one id needed) id
need_one-adds (workspace j) needed = tt
need_one-adds (external j handle) needed =
    let posted = get_or_default [] (Maps.get j needed) in
    let there = get-update j j [] (λ handles. handles ++ (handle ∷ [])) needed in
    let this : same j j ≡ true = (same_iff j j).1 refl in
    rw (there, this) (contains-append_right handle posted (handle ∷ []) (contains_head handle []))

module _ {S : Type 0} where
  need-keeps :
      (cs : List (SelectedCandidate S)) (needed : Needed) (i : ℕ) (handle : String)
      → Wants needed i handle
      → Wants (need cs needed) i handle
  need-keeps [] needed i handle h = h
  need-keeps (c ∷ cs) needed i handle h =
      need-keeps cs (need_one c.id needed) i handle (need_one-keeps c.id needed i handle h)

  Requires-need :
      (cs : List (SelectedCandidate S)) (needed : Needed) (id : CandidateId)
      → Requires needed id
      → Requires (need cs needed) id
  Requires-need cs needed (workspace i) h = h
  Requires-need cs needed (external i handle) h = need-keeps cs needed i handle h

  need-adds :
      (cs : List (SelectedCandidate S)) (needed : Needed)
      → All (λ c. Requires (need cs needed) c.id) cs
  need-adds [] needed = tt
  need-adds (c ∷ cs) needed = (
    Requires-need cs (need_one c.id needed) c.id (need_one-adds c.id needed),
    need-adds cs (need_one c.id needed),
  )

  need-KeysBelow :
      (n m : ℕ) (cs : List (SelectedCandidate S)) (needed : Needed)
      → All (λ c. IsKnown n m c.id) cs
      → KeysBelow m needed
      → KeysBelow m (need cs needed)
  need-KeysBelow n m [] needed b h = h
  need-KeysBelow n m (c ∷ cs) needed b h =
      need-KeysBelow n m cs (need_one c.id needed) b.1 (need_one-KeysBelow n m c.id needed b.0 h)

  -- Every candidate of some selections is required.
  abbrev pub RequiresAll : Needed → List (Selection S) → Type 0
  RequiresAll needed selections = All (λ s. All (λ c. Requires needed c.id) s.1) selections

  need_all-keeps :
      (selections : List (Selection S)) (needed : Needed) (id : CandidateId)
      → Requires needed id
      → Requires (need_all selections needed) id
  need_all-keeps [] needed id h = h
  need_all-keeps ((anchor, cs) ∷ rest) needed id h =
      need_all-keeps rest (need cs needed) id (Requires-need cs needed id h)

  pub need_all-adds :
      (selections : List (Selection S)) (needed : Needed)
      → RequiresAll (need_all selections needed) selections
  need_all-adds [] needed = tt
  need_all-adds ((anchor, cs) ∷ rest) needed = (
    All-imp (λ c h. need_all-keeps rest (need cs needed) c.id h) cs (need-adds cs needed),
    need_all-adds rest (need cs needed),
  )

  pub need_all-KeysBelow :
      (n m : ℕ) (selections : List (Selection S)) (needed : Needed)
      → All (λ s. All (λ c. IsKnown n m c.id) s.1) selections
      → KeysBelow m needed
      → KeysBelow m (need_all selections needed)
  need_all-KeysBelow n m [] needed b h = h
  need_all-KeysBelow n m ((anchor, cs) ∷ rest) needed b h =
      need_all-KeysBelow n m rest (need cs needed) b.1 (need-KeysBelow n m cs needed b.0 h)

-- What is wanted is there, if every entry of the map is.
pub Wants-IsHydrated :
    (needed : Needed) (hydrated : Hydrated) (i : ℕ) (handle : String)
    → All
        (λ entry.
          (handle : String)
          → Sets.contains handle entry.1 ≡ true
          → IsHydrated hydrated entry.0 handle)
        needed
    → Wants needed i handle
    → IsHydrated hydrated i handle
unfolding Maps.get
Wants-IsHydrated [] hydrated i handle h w = absurd (not_contains-nil handle w)
Wants-IsHydrated ((j, handles) ∷ needed) hydrated i handle h w = elim (Bool-cases (same i j)) [
  | inl this ↦
      subst (λ k. IsHydrated hydrated k handle) (sym ((same_iff i j).0 this))
        (h.0 handle (
          subst
            (λ b.
              Sets.contains handle
                (get_or_default [] (if b then some handles else Maps.get i needed))
              ≡ true)
            this w))
  | inr apart ↦ Wants-IsHydrated needed hydrated i handle h.1 (
      subst
        (λ b.
          Sets.contains handle (get_or_default [] (if b then some handles else Maps.get i needed))
          ≡ true)
        apart w)
]
