-- ===== src/Search/Probe/Bounds.antt =====
-- crates/search/src/semantic_verification.rs: the budget, the cap of a declaration and the quotas bound
-- what `plan_probes` selects.
use native.Mathlib.Nat.{mul-le-mul_left}
use lean_dup.Base.{
  ℕ, suc, ◌+◌, ◌*◌, ◌/◌, ◌%◌, ◌^◌, ◌≤◌, ◌<◌, max, String, Bool, true, false, Option, some, List, [],
  ◌∷◌, ◌++◌, ◌≡◌, refl, sym, ap, subst, min, ◌∙◌, ◌⊎◌, inl, inr, arith, Bool-cases, if◌then◌else◌,
  text_ord, leb, leb→le,
}
use lean_dup.Base.Maps
use lean_dup.Base.Maps.{get_or_default}
use lean_dup.Base.Sets.{same, same_iff}
use lean_dup.Search.Probe.{PlannedProbe}
use lean_dup.Search.Probe.Quotas.{count_at, percentage_quota}

quota_lem :
    (budget product : ℕ)
    → 1 ≤ budget
    → product ≤ budget * 100
    → (1 ≤ min (max ((product + 99) / 100) 1) budget)
      × (min (max ((product + 99) / 100) 1) budget ≤ budget)
      × (product ≤ 100 * min (max ((product + 99) / 100) 1) budget)
      × ((min (max ((product + 99) / 100) 1) budget ≡ 1)
          ⊎ (100 * min (max ((product + 99) / 100) 1) budget < product + 100))
quota_lem budget product h k =
    (omega arith, omega arith, omega arith, last (Bool-cases (leb ((product + 99) / 100) 1)))
  where
    last :
        (leb ((product + 99) / 100) 1 ≡ true) ⊎ (leb ((product + 99) / 100) 1 ≡ false)
        → (min (max ((product + 99) / 100) 1) budget ≡ 1)
          ⊎ (100 * min (max ((product + 99) / 100) 1) budget < product + 100)
    last (inl e) = inl (omega (arith, leb→le _ _ e))
    last (inr e) = inr (ground arith)

-- For a budget of at least one, a percentage up to a hundred, and a product of the two that a machine
-- word holds, a quota is at least one pair and no more than the budget, and it is the percentage of
-- the budget, rounded up, unless it is one.
pub percentage_quota_lem :
    (budget percent : ℕ)
    → 1 ≤ budget
    → percent ≤ 100
    → budget * percent < 2 ^ 64
    → (1 ≤ percentage_quota budget percent)
      × (percentage_quota budget percent ≤ budget)
      × (budget * percent ≤ 100 * percentage_quota budget percent)
      × ((percentage_quota budget percent ≡ 1)
          ⊎ (100 * percentage_quota budget percent < budget * percent + 100))
unfolding percentage_quota
percentage_quota_lem budget percent h k fits =
    let product : (budget * percent) % 2 ^ 64 ≡ budget * percent = omega (arith, fits) in
    rw product (quota_lem budget (budget * percent) h (mul-le-mul_left budget k))

abbrev pub tally : (PlannedProbe → String) → String → List PlannedProbe → ℕ
tally key z [] = 0
tally key z (p ∷ ps) = (if same z (key p) then 1 else 0) + tally key z ps

tally-append :
    (key : PlannedProbe → String) (z : String) (ps : List PlannedProbe) (p : PlannedProbe)
    → tally key z (ps ++ p ∷ []) ≡ tally key z ps + (if same z (key p) then 1 else 0)
tally-append key z [] p = omega arith
tally-append key z (q ∷ ps) p = omega (arith, tally-append key z ps p)

default_if :
    (b : Bool) (n : ℕ) (o : Option ℕ)
    → get_or_default 0 (if b then some n else o) ≡ (if b then n else get_or_default 0 o)
default_if true n o = refl
default_if false n o = refl

count_at-update :
    (z k : String) (counts : List (String × ℕ))
    → count_at z (Maps.update k 0 suc counts)
      ≡ (if same z k then suc (count_at k counts) else count_at z counts)
unfolding count_at
count_at-update z k counts =
    ap (get_or_default 0) (Maps.get-update z k 0 suc counts) ∙ default_if (same z k) _ _

-- A counter is no less than what has been planned for a key, and no more than the key's quota.
pub record Bounds (key : PlannedProbe → String) (quota : String → ℕ) (counts : List (String × ℕ))
    (planned : List PlannedProbe) : Type 0 where
  pub tracks : (z : String) → tally key z planned ≤ count_at z counts
  pub below : (z : String) → count_at z counts ≤ quota z

module _ (key : PlannedProbe → String) (quota : String → ℕ) (k : String)
    (counts : List (String × ℕ)) (planned : List PlannedProbe) (b : Bounds key quota counts planned)
    (room : count_at k counts < quota k) where
  at_key :
      (z : String)
      → same z k ≡ true
      → (tally key z planned ≤ count_at k counts) × (count_at k counts < quota z)
  at_key z e =
      let p = (same_iff z k).0 e in
      (
        subst (λ w. tally key z planned ≤ count_at w counts) p (b.tracks z),
        subst (λ w. count_at k counts < quota w) (sym p) room,
      )

  updated_below : (z : String) → count_at z (Maps.update k 0 suc counts) ≤ quota z
  updated_below z = elim (Bool-cases (same z k)) [
    | inl e ↦ rw (count_at-update z k counts, e) (omega (arith, (at_key z e).1))
    | inr e ↦ rw (count_at-update z k counts, e) (b.below z)
  ]

  pub Bounds-charge : Bounds key quota (Maps.update k 0 suc counts) planned
  Bounds-charge = record { tracks = held; below = updated_below }
    where
      held : (z : String) → tally key z planned ≤ count_at z (Maps.update k 0 suc counts)
      held z = elim (Bool-cases (same z k)) [
        | inl e ↦ rw (count_at-update z k counts, e) (omega (arith, (at_key z e).0))
        | inr e ↦ rw (count_at-update z k counts, e) (b.tracks z)
      ]

  pub Bounds-plan :
      (p : PlannedProbe)
      → key p ≡ k
      → Bounds key quota (Maps.update k 0 suc counts) (planned ++ p ∷ [])
  Bounds-plan p e = record { tracks = held; below = updated_below }
    where
      held :
          (z : String) → tally key z (planned ++ p ∷ []) ≤ count_at z (Maps.update k 0 suc counts)
      held z = elim (Bool-cases (same z k)) [
        | inl d ↦
            rw (count_at-update z k counts, tally-append key z planned p, e, d)
              (omega (arith, (at_key z d).0))
        | inr d ↦
            rw (count_at-update z k counts, tally-append key z planned p, e, d)
              (omega (arith, b.tracks z))
      ]
