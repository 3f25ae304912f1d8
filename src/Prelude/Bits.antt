-- ===== src/Prelude/Bits.antt =====
-- The laws of `&` and `|` that the driver's masks rest on, for words of any width.
use Prim.Native.Nat.{
  ℕ, zero, suc, ◌+◌, ◌-◌, ◌*◌, ◌/◌, ◌%◌, ◌^◌, ◌≤◌, ◌<◌, min, bit_and, digits, bit_and-bitwise,
}
use mathlib.Core.Path.{◌≡◌, refl, ap, ◌∙◌}
use native.Mathlib.Nat.{
  pow-suc, one-le-pow, div-add-mod, mod-lt, mod-eq_of_lt, mul-add-mod_self_left,
}
use native.Mathlib.Omega.{arith}

-- The recursion on binary digits that `bit_and` stands for, with its fuel.
abbrev conj : ℕ → ℕ → ℕ → ℕ
conj fuel a b = digits (λ b. zero) min fuel a b

-- Fuel beyond the first number makes no difference.
conj_stable : (n k a b : ℕ) → a ≤ n → a ≤ k → conj n a b ≡ conj k a b
conj_stable zero zero zero b p q = refl
conj_stable zero zero (suc a) b p q = absurd (omega arith)
conj_stable zero (suc k) zero b p q = refl
conj_stable zero (suc k) (suc a) b p q = absurd (omega arith)
conj_stable (suc n) zero zero b p q = refl
conj_stable (suc n) zero (suc a) b p q = absurd (omega arith)
conj_stable (suc n) (suc k) zero b p q = refl
conj_stable (suc n) (suc k) (suc a) b p q =
    omega (arith, conj_stable n k (suc a / 2) (b / 2) (omega arith) (omega arith))

pub bit_and_zero_left : (b : ℕ) → bit_and 0 b ≡ 0
bit_and_zero_left b = bit_and-bitwise 0 b

-- The lowest digit, and the rest.
pub bit_and_digit : (a b : ℕ) → bit_and a b ≡ 2 * bit_and (a / 2) (b / 2) + min (a % 2) (b % 2)
bit_and_digit zero b = omega (arith, bit_and_zero_left b, bit_and_zero_left (b / 2))
bit_and_digit (suc a) b =
    let half = suc a / 2 in
    omega (
      arith,
      bit_and-bitwise (suc a) b,
      bit_and-bitwise half (b / 2),
      conj_stable a half half (b / 2) (omega arith) (omega arith),
    )

module _ where
  zero_right : (fuel a : ℕ) → a ≤ fuel → bit_and a 0 ≡ 0
  zero_right fuel zero h = refl
  zero_right zero (suc a) h = absurd (omega arith)
  zero_right (suc fuel) (suc a) h =
      omega (arith, bit_and_digit (suc a) 0, zero_right fuel (suc a / 2) (omega arith))

  self : (fuel a : ℕ) → a ≤ fuel → bit_and a a ≡ a
  self fuel zero h = refl
  self zero (suc a) h = absurd (omega arith)
  self (suc fuel) (suc a) h =
      omega (arith, bit_and_digit (suc a) (suc a), self fuel (suc a / 2) (omega arith))

pub bit_and_zero_right : (a : ℕ) → bit_and a 0 ≡ 0
bit_and_zero_right a = zero_right a a (omega arith)

pub bit_and_self : (a : ℕ) → bit_and a a ≡ a
bit_and_self a = self a a (omega arith)

-- The remainder by a power of two, from that of the half.
half_mod : (a m : ℕ) → 0 < m → a % (m * 2) ≡ 2 * (a / 2 % m) + a % 2
half_mod a m h =
    let q = a / (m * 2) in
    let r = a % (m * 2) in
    let halves : a / 2 ≡ m * q + r / 2 = omega (arith, div-add-mod a (m * 2)) in
    omega (
      arith,
      div-add-mod a (m * 2),
      mod-lt a {m = m * 2} (omega arith),
      ap (λ (t : ℕ). t % m) halves,
      mul-add-mod_self_left m q (r / 2),
      mod-eq_of_lt {n = r / 2} {m = m} (omega (arith, mod-lt a {m = m * 2} (omega arith))),
    )

pub bit_and_mask : (k a : ℕ) → bit_and a (2 ^ k - 1) ≡ a % 2 ^ k
bit_and_mask zero a = omega (arith, bit_and_zero_right a)
bit_and_mask (suc k) a =
    bit_and_digit a (2 ^ suc k - 1)
    ∙ omega (
      arith,
      pow-suc 2 k,
      one-le-pow k 2,
      ap (λ (m : ℕ). bit_and (a / 2) m) halved,
      bit_and_mask k (a / 2),
      half_mod a (2 ^ k) (one-le-pow k 2 (omega arith)),
      ap (λ (m : ℕ). a % m) (pow-suc 2 k),
    )
  where
    halved : (2 ^ suc k - 1) / 2 ≡ 2 ^ k - 1
    halved = omega (arith, pow-suc 2 k, one-le-pow k 2 (omega arith))
