-- ===== src/Base/Maps.antt =====
-- `BTreeMap` and `HashMap`: an association list that holds each key once, in ascending order.
use Prim.Native.Nat.Ordering.{lt, eq, gt}
use mathlib.Core.Path.{◌≡◌, refl, ap, ◌∙◌}
use mathlib.Core.Bool.{Bool, true, false, ◌||◌}
use mathlib.Core.List.{List, [], ◌∷◌}
use mathlib.Core.Option.{Option, none, some}
use native.Mathlib.Omega.{arith}
use lean_dup.Base.Tests.{if◌then◌else◌}
use lean_dup.Base.Order.{Ord, cmp_refl}
use lean_dup.Base.Sets.{same, same_iff}

abbrev pub is_some {ℓ} : {A : Type ℓ} → Option A → Bool
is_some none = false
is_some (some a) = true

abbrev pub get_or_default {ℓ} : {A : Type ℓ} → A → Option A → A
get_or_default d none = d
get_or_default d (some a) = a

is_some-if {ℓ} :
    {A : Type ℓ} (b : Bool) (v : A) (o : Option A)
    → is_some (if b then some v else o) ≡ (b || is_some o)
is_some-if true v o = refl
is_some-if false v o = refl

module _ {ℓ κ} {K : Type ℓ} {V : Type κ} ⦃o : Ord K⦄ where
  unfoldable pub get : K → List (K × V) → Option V
  get k [] = none
  get k ((j, v) ∷ m) = let rest = get k m in if same k j then some v else rest

  unfoldable pub insert : K → V → List (K × V) → List (K × V)
  insert k v [] = (k, v) ∷ []
  insert k v ((j, w) ∷ m) =
      let rest = insert k v m in
      elim (o.cmp k j) [ lt ↦ (k, v) ∷ (j, w) ∷ m | eq ↦ (j, v) ∷ m | gt ↦ (j, w) ∷ rest ]

  unfoldable pub contains_key : K → List (K × V) → Bool
  unfolding get
  contains_key k m = is_some (get k m)

  -- `entry(k).or_insert(d)` with `f` applied to the value that stands there.
  unfoldable pub update : K → V → (V → V) → List (K × V) → List (K × V)
  unfolding get insert
  update k d f m = insert k (f (get_or_default d (get k m))) m

  pub get-insert :
      (j k : K) (v : V) (m : List (K × V))
      → get j (insert k v m) ≡ (if same j k then some v else get j m)
  unfolding get insert
  get-insert j k v [] = refl
  get-insert j k v ((i, w) ∷ m) =
      ground (arith, get-insert j k v m, o.eq_of_cmp k i, same_iff j k, same_iff j i)

  pub get-insert_self : (k : K) (v : V) (m : List (K × V)) → get k (insert k v m) ≡ some v
  get-insert_self k v m = ground (arith, get-insert k k v m, cmp_refl k)

  pub get-update :
      (j k : K) (d : V) (f : V → V) (m : List (K × V))
      → get j (update k d f m)
        ≡ (if same j k then some (f (get_or_default d (get k m))) else get j m)
  unfolding update
  get-update j k d f m = get-insert j k (f (get_or_default d (get k m))) m

  pub contains_key-insert :
      (j k : K) (v : V) (m : List (K × V))
      → contains_key j (insert k v m) ≡ (same j k || contains_key j m)
  unfolding contains_key
  contains_key-insert j k v m = ap is_some (get-insert j k v m) ∙ is_some-if (same j k) v (get j m)
