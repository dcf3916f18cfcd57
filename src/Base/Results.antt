-- ===== src/Base/Results.antt =====
-- The ways in which a fallible function of the source ends: with a value, with an error that `?`
-- passes on, or in a panic (an `expect` on `None`, an index out of range).
use Prim.Native.Nat.{suc}
use mathlib.Core.Path.{◌≡◌, refl, ap}
use lean_dup.Base.Lists.{length, All}
use mathlib.Core.Logic.{◌⊎◌, inl, inr}
use mathlib.Core.Option.{Option, none, some}
use mathlib.Core.List.{List, [], ◌∷◌}

pub data Attempt {ℓ κ} (E : Type ℓ) (A : Type κ) : Type (ℓ ⊔ κ) where
  done : A → Attempt E A
  failed : E → Attempt E A
  panicked : Attempt E A

module _ {ℓ} {E : Type ℓ} where
  infixl 5 ◌>>=◌
  abbrev pub ◌>>=◌ {κ μ} : {A : Type κ} {B : Type μ} → Attempt E A → (A → Attempt E B) → Attempt E B
  done a >>= f = f a
  failed e >>= f = failed e
  panicked >>= f = panicked

  -- A call of an operation that returns a `Result`.
  abbrev pub ask {κ} : {A : Type κ} → E ⊎ A → Attempt E A
  ask (inl e) = failed e
  ask (inr a) = done a

  abbrev pub expect {κ} : {A : Type κ} → Option A → Attempt E A
  expect none = panicked
  expect (some a) = done a

  -- `map` with `?` in its body, collected.
  abbrev pub traverse {κ μ} :
      {A : Type κ} {B : Type μ} → (A → Attempt E B) → List A → Attempt E (List B)
  traverse f [] = done []
  traverse f (x ∷ xs) = do y ← f x; ys ← traverse f xs; done (y ∷ ys)

-- No panic, and a value that satisfies a predicate if there is a value.
abbrev pub Ends {ℓ κ} : {E : Type ℓ} {A : Type κ} → (A → Type 0) → Attempt E A → Type 0
Ends Q (done a) = Q a
Ends Q (failed e) = Unit
Ends Q panicked = ⊥

pub Ends->>= {ℓ κ μ} :
    {E : Type ℓ} {A : Type κ} {B : Type μ} (Q : A → Type 0) (R : B → Type 0) (m : Attempt E A)
    (f : A → Attempt E B)
    → Ends Q m
    → ((a : A) → Q a → Ends R (f a))
    → Ends R (m >>= f)
Ends->>= Q R (done a) f h k = k a h
Ends->>= Q R (failed e) f h k = tt
Ends->>= Q R panicked f h k = absurd h

pub Ends-imp {ℓ κ} :
    {E : Type ℓ} {A : Type κ} (Q R : A → Type 0) (m : Attempt E A)
    → ((a : A) → Q a → R a)
    → Ends Q m
    → Ends R m
Ends-imp Q R (done a) f h = f a h
Ends-imp Q R (failed e) f h = tt
Ends-imp Q R panicked f h = h

pub ask-Ends {ℓ κ} : {E : Type ℓ} {A : Type κ} (m : E ⊎ A) → Ends (λ a. Unit) (ask m)
ask-Ends (inl e) = tt
ask-Ends (inr a) = tt

pub traverse-length {ℓ κ μ} :
    {E : Type ℓ} {A : Type κ} {B : Type μ} (f : A → Attempt E B) (xs : List A)
    → All (λ x. Ends (λ b. Unit) (f x)) xs
    → Ends (λ ys. length ys ≡ length xs) (traverse f xs)
traverse-length f [] h = refl
traverse-length f (x ∷ xs) h =
    Ends->>= (λ b. Unit) (λ ys. length ys ≡ suc (length xs)) (f x) _ h.0
      (λ y u.
        Ends->>= (λ ys. length ys ≡ length xs) (λ ys. length ys ≡ suc (length xs)) (traverse f xs) _
          (traverse-length f xs h.1) (λ ys e. ap suc e))

pub any_value {ℓ κ} :
    {E : Type ℓ} {A : Type κ} (Q : A → Type 0) (m : Attempt E A) → Ends Q m → Ends (λ a. Unit) m
any_value Q (done a) h = tt
any_value Q (failed e) h = tt
any_value Q panicked h = h
