-- ===== src/Prelude/Faults.antt =====
-- What a call of C++ code can come to: a result, or the undefined behaviour that ends the model.

use mathlib.Core.Path.{◌≡◌, refl}

-- The faults that the driver's code could commit.
pub data Fault : Type 0 where
  null_pointer dangling_pointer double_delete out_of_bounds division_by_zero : Fault

pub data Outcome {ℓ} (A : Type ℓ) : Type ℓ where
  ok : A → Outcome A
  fault : Fault → Outcome A

infixl 5 ◌>>=◌ ◌>>◌
-- What follows a call, which a fault keeps from running.
abbrev pub ◌>>=◌ {ℓ₁ ℓ₂} :
    {X : Type ℓ₁} {Y : Type ℓ₂} (call : Outcome X) (rest : X → Outcome Y) → Outcome Y
(fault why) >>= rest = fault why
(ok x) >>= rest = rest x

abbrev pub ◌>>◌ {ℓ₁} : {Y : Type ℓ₁} (call : Outcome (Unit {0})) (rest : Outcome Y) → Outcome Y
call >> rest = call >>= λ done. rest

-- A call that returns is one that its first part lets return.
pub bind_ok :
    {A B : Type 0} (x : Outcome A) (f : A → Outcome B) (y : B)
    → (x >>= f) ≡ ok y
    → (a : A) × (x ≡ ok a) × (f a ≡ ok y)
bind_ok (ok a) f y e = (a, refl, e)
bind_ok (fault why) f y e = cc
