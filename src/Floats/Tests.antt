-- ===== src/Floats/Tests.antt =====
-- Numbers in place of floating point, for tests that run the driver's code.
use drone_exploration_stack.Prelude.{ℕ, ◌+◌, ◌-◌, ◌*◌, ◌/◌, ltb}
use drone_exploration_stack.Prelude.Int.{ℤ, pos, negsuc}
use drone_exploration_stack.Floats.{Floats}

abbrev at_least_zero : ℤ → ℕ
at_least_zero (pos n) = n
at_least_zero (negsuc n) = 0

abbrev pub naturals : Floats
naturals = record {
  Float = ℕ;
  Double = ℕ;
  float_of = at_least_zero;
  double_of = at_least_zero;
  float_of_bits = λ n. n;
  widen = λ n. n;
  narrow = λ n. n;
  add_f = λ a b. a + b;
  mul_f = λ a b. a * b;
  add_d = λ a b. a + b;
  sub_d = λ a b. a - b;
  mul_d = λ a b. a * b;
  div_d = λ a b. a / b;
  neg_d = λ a. 0;
  sin = λ a. 0;
  cos = λ a. 1;
  decimal = λ digits places. digits;
  greater = λ a b. ltb b a;
  truncate = λ n. n;
  truncate_f = λ n. n;
}
