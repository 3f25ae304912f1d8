-- ===== src/Floats.antt =====
-- Floating point, which the driver uses and does not implement: IEEE `float` and `double` and the
-- functions of <math.h>, as a parameter of the modules that compute with them. Nothing is assumed
-- of the operations here; a theorem that needs a law of them has it as a hypothesis.
pub mod Tests
use drone_exploration_stack.Prelude.{ℕ, Bool}
use drone_exploration_stack.Prelude.Int.{ℤ}

pub record Floats : Type 1 where
  pub Float : Type 0
  pub Double : Type 0
  pub float_of : ℤ → Float
  pub double_of : ℤ → Double
  -- The `float` that has a pattern of 32 bits.
  pub float_of_bits : ℕ → Float
  pub widen : Float → Double
  pub narrow : Double → Float
  pub add_f : Float → Float → Float
  pub mul_f : Float → Float → Float
  pub add_d : Double → Double → Double
  pub sub_d : Double → Double → Double
  pub mul_d : Double → Double → Double
  pub div_d : Double → Double → Double
  pub neg_d : Double → Double
  pub sin : Double → Double
  pub cos : Double → Double
  -- The literal that has the digits of the first number and as many decimals as the second says.
  pub decimal : ℕ → ℕ → Double
  -- `a > b`.
  pub greater : Double → Double → Bool
  -- The conversions to an unsigned integer, which drop the fraction.
  pub truncate : Double → ℕ
  pub truncate_f : Float → ℕ
