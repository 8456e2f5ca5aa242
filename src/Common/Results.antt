-- ===== src/Common/Results.antt =====
-- How a call ends: a value, a returned error, or a run-time panic.
use mathlib.Core.Path.{◌≡◌, refl}
use mathlib.Core.Option.{Option, none, some}

pub data Outcome {ℓ} (E : Type 0) (A : Type ℓ) : Type ℓ where
  ok : A → Outcome E A
  err : E → Outcome E A
  panic : Outcome E A

infixl 5 ◌>>=◌
abbrev pub ◌>>=◌ {ℓ κ} :
    {E : Type 0} {A : Type ℓ} {B : Type κ} → Outcome E A → (A → Outcome E B) → Outcome E B
ok a >>= f = f a
err e >>= f = err e
panic >>= f = panic

-- A fault of the machine under the code: the program panics.
abbrev pub or_panic {ℓ} : {E : Type 0} {A : Type ℓ} → Option A → Outcome E A
or_panic (some a) = ok a
or_panic none = panic

-- The call ends with a value that satisfies `P`.
pub data Returns {ℓ κ} {E : Type 0} {A : Type ℓ} (P : A → Type κ) : Outcome E A → Type (ℓ ⊔ κ) where
  returns : {a : A} → P a → Returns P (ok a)

module _ {ℓ κ} {E : Type 0} {A : Type ℓ} {P : A → Type κ} where
  pub Returns-bind {ℓ' κ'} :
      {B : Type ℓ'} {Q : B → Type κ'} {r : Outcome E A} {f : A → Outcome E B}
      → Returns P r
      → ((a : A) → P a → Returns Q (f a))
      → Returns Q (r >>= f)
  Returns-bind (returns p) next = next _ p

  pub Returns-map {κ'} :
      {Q : A → Type κ'} {r : Outcome E A} → Returns P r → ((a : A) → P a → Q a) → Returns Q r
  Returns-map (returns p) weaken = returns (weaken _ p)

  pub Returns-inv : {r : Outcome E A} → Returns P r → (a : A) × (r ≡ ok a) × P a
  Returns-inv (returns p) = (_, refl, p)
