-- ===== src/Prelude/Int.antt =====
-- Signed integers over the native numbers, under the library's names.
use Prim.Native.Nat.{ℕ, suc, ◌-◌, ◌/◌, ◌%◌, ◌^◌}
use drone_exploration_stack.Prelude.Tests.{ltb, if◌then◌else◌}

-- `negsuc n` is -(n + 1).
pub data ℤ : Type 0 where
  pos : ℕ → ℤ
  negsuc : ℕ → ℤ

-- The signed number that a pattern of `w` bits stands for.
abbrev pub signed : ℕ → ℕ → ℤ
signed w a = if ltb a (2 ^ (w - 1)) then pos a else negsuc (2 ^ w - a - 1)

-- The pattern of `w` bits that a conversion of a signed number gives.
abbrev pub pattern_of : ℕ → ℤ → ℕ
pattern_of w (pos n) = n % 2 ^ w
pattern_of w (negsuc n) = 2 ^ w - 1 - n % 2 ^ w

-- A conversion to the signed type of `w` bits.
abbrev pub wrap_signed : ℕ → ℤ → ℤ
wrap_signed w a = signed w (pattern_of w a)

-- Integer division of C++, which rounds towards 0, by a positive number.
abbrev pub quot : ℤ → ℕ → ℤ
quot (pos n) d = pos (n / d)
quot (negsuc n) d = if ltb (suc n) d then pos 0 else negsuc (suc n / d - 1)
