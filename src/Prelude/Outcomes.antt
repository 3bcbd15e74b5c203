-- ===== src/Prelude/Outcomes.antt =====
-- How a run of C code ends: with a value, by a failed `assert`, by undefined behaviour (a read
-- outside an object, a null dereference), or not within the fuel.
use mathlib.Core.Path.{◌≡◌}
use mathlib.Core.Option.{Option, none, some}

pub data Outcome {ℓ} (A : Type ℓ) : Type ℓ where
  ok : A → Outcome A
  abort : Outcome A
  fault : Outcome A
  timeout : Outcome A

infixl 5 ◌>>=◌
abbrev pub ◌>>=◌ {ℓ κ} : {A : Type ℓ} {B : Type κ} → Outcome A → (A → Outcome B) → Outcome B
ok a >>= f = f a
abort >>= f = abort
fault >>= f = fault
timeout >>= f = timeout

-- A read of a cell that may not be there.
abbrev pub read {ℓ} : {A : Type ℓ} → Option A → Outcome A
read (some a) = ok a
read none = fault

-- The run ends normally, in a value that satisfies `P`.
abbrev pub Returns {ℓ κ} : {A : Type ℓ} → Outcome A → (A → Type κ) → Type (ℓ ⊔ κ)
Returns {A} r P = (a : A) × (r ≡ ok a) × P a

pub bind-Returns {ℓ} :
    {A B : Type ℓ} {m : Outcome A} {P : A → Type ℓ} {f : A → Outcome B} {Q : B → Type ℓ}
    → Returns m P
    → ((a : A) → P a → Returns (f a) Q)
    → Returns (m >>= f) Q
bind-Returns {f} (a, e, p) step = let (b, run, q) = step a p in (b, rw (e, ◌>>=◌) run, q)
