-- ===== src/Ldq/Power.antt =====
-- `IsPowerOf2` and `RoundupPowerOf2` of comm/ldq.h: the bit trick and the loop against powers of 2.
use native.Mathlib.Nat.{pow-suc, one-le-pow, pow-le-pow_right, mod-eq_of_lt, mod_self}
use native.Mathlib.Decide.{dec_lt}
use drone_exploration_stack.Prelude.{
  ℕ, zero, suc, ◌+◌, ◌-◌, ◌/◌, ◌%◌, ◌^◌, ◌≤◌, ◌<◌, bit_and, ◌≡◌, refl, ap, ◌↔◌, ◌⊎◌, inl, inr, true,
  false, arith, leb, Bool-cases,
}
use drone_exploration_stack.Prelude.Bits.{bit_and_digit, bit_and_self, bit_and_mask}
use drone_exploration_stack.Prelude.Words.{u32, sub32}
use drone_exploration_stack.Ldq.{roundup_from, roundup_power_of_2, is_power_of_2, real_size}

pub pow2_pos : (k : ℕ) → 0 < 2 ^ k
pow2_pos k = one-le-pow k 2 (omega arith)

pub pow2_mono : (i j : ℕ) → i ≤ j → 2 ^ i ≤ 2 ^ j
pow2_mono i j h = pow-le-pow_right (omega arith) h

-- A word `1 << i` does not lose its bit below the width.
u32_pow2 : (i : ℕ) → i < 32 → u32 (2 ^ i) ≡ 2 ^ i
u32_pow2 i h = mod-eq_of_lt (omega (arith, pow2_mono i 31 (omega arith)))

pow2_of_and_pred : (fuel n : ℕ) → n ≤ fuel → 0 < n → bit_and n (n - 1) ≡ 0 → (k : ℕ) × (n ≡ 2 ^ k)
pow2_of_and_pred zero n h p e = absurd (omega arith)
pow2_of_and_pred (suc fuel) n h p e = elim (parity n) [
  | inl even ↦
      let (k, q) =
        pow2_of_and_pred fuel (n / 2) (omega arith) (omega arith)
          (omega (arith, bit_and_digit n (n - 1), ap (bit_and (n / 2)) (halved_pred even))) in
      (suc k, omega (arith, pow-suc 2 k))
  | inr odd ↦ (
    0,
    omega (
      arith,
      bit_and_digit n (n - 1),
      ap (bit_and (n / 2)) (halved_odd odd),
      bit_and_self (n / 2),
    ),
  )
]
  where
    parity : (m : ℕ) → (m % 2 ≡ 0) ⊎ (m % 2 ≡ 1)
    parity m = omega arith

    halved_pred : n % 2 ≡ 0 → (n - 1) / 2 ≡ n / 2 - 1
    halved_pred even = omega arith

    halved_odd : n % 2 ≡ 1 → (n - 1) / 2 ≡ n / 2
    halved_odd odd = omega arith

is_power_of_2_pow2 : (k n : ℕ) → n < 2 ^ 32 → n ≡ 2 ^ k → is_power_of_2 n ≡ true
unfolding is_power_of_2
is_power_of_2_pow2 k n h e =
    let pred_word : sub32 n 1 ≡ n - 1 = omega (arith, pow2_pos k) in
    ground (
      arith,
      pow2_pos k,
      ap (bit_and n) pred_word,
      ap (λ (m : ℕ). bit_and m (m - 1)) e,
      bit_and_mask k (2 ^ k),
      mod_self (2 ^ k),
    )

pow2_of_is_power_of_2 : (n : ℕ) → n < 2 ^ 32 → is_power_of_2 n ≡ true → (k : ℕ) × (n ≡ 2 ^ k)
unfolding is_power_of_2
pow2_of_is_power_of_2 n h e =
    let nonzero : 0 < n = ground arith in
    let pred_word : sub32 n 1 ≡ n - 1 = omega arith in
    pow2_of_and_pred n n (omega arith) nonzero (ground (arith, ap (bit_and n) pred_word))

-- `IsPowerOf2` answers true for the powers of 2, of all `uint32_t`, and for these only.
pub is_power_of_2_iff : (n : ℕ) → n < 2 ^ 32 → (is_power_of_2 n ≡ true) ↔ ((k : ℕ) × (n ≡ 2 ^ k))
is_power_of_2_iff n h = (pow2_of_is_power_of_2 n h, λ p. is_power_of_2_pow2 p.0 n h p.1)

-- What the loop computes: the least power of 2, of those below 2 ^ 32, that is not below `size`.
pub record RoundsUp (size result : ℕ) : Type 0 where
  pub exponent : ℕ
  pub small : exponent ≤ 31
  pub is_pow : result ≡ 2 ^ exponent
  pub enough : size ≤ result
  pub least : (j : ℕ) → size ≤ 2 ^ j → exponent ≤ j

roundup_from-RoundsUp :
    (rounds i p size : ℕ)
    → rounds + i ≡ 32
    → size ≤ 2 ^ 31
    → ((j : ℕ) → j < i → 2 ^ j < size)
    → RoundsUp size (roundup_from rounds i p size)
unfolding roundup_from
roundup_from-RoundsUp zero i p size e h below = absurd (omega (arith, below 31 (omega arith)))
roundup_from-RoundsUp (suc rounds) i p size e h below = elim (Bool-cases (leb size (u32 (2 ^ i)))) [
  | inl stop ↦ rw stop (record {
    exponent = i;
    small = omega arith;
    is_pow = u32_pow2 i (omega arith);
    enough = ground arith;
    least =
        λ j k. elim (dec_lt j i) [ yes p ↦ absurd (omega (arith, below j p)) | no p ↦ omega arith ];
  })
  | inr on ↦
      rw on (roundup_from-RoundsUp rounds (i + 1) (u32 (2 ^ i)) size (omega arith) h (up_to on))
]
  where
    up_to : leb size (u32 (2 ^ i)) ≡ false → (j : ℕ) → j < i + 1 → 2 ^ j < size
    up_to on j k = elim (dec_lt j i) [
      | yes p ↦ below j p
      | no p ↦ let same : j ≡ i = omega arith in rw same (ground (arith, u32_pow2 i (omega arith)))
    ]

-- `RoundupPowerOf2` gives, up to 2 ^ 31, the least power of 2 that is not below its argument.
pub roundup-RoundsUp : (size : ℕ) → size ≤ 2 ^ 31 → RoundsUp size (roundup_power_of_2 size)
unfolding roundup_power_of_2
roundup-RoundsUp size h = roundup_from-RoundsUp 32 0 0 size refl h (λ j k. absurd (omega arith))

-- `InitQueue` gives the array the least power of 2 that is not below the size asked for.
pub real_size-RoundsUp : (size : ℕ) → size ≤ 2 ^ 31 → RoundsUp size (real_size size)
unfolding real_size
real_size-RoundsUp size h = elim (Bool-cases (is_power_of_2 size)) [
  | inl is ↦ rw is (
      let (k, e) = (is_power_of_2_iff size (omega arith)).0 is in
      record {
        exponent = k;
        small = pow2_le k (rw (← e) h);
        is_pow = e;
        enough = omega arith;
        least = λ j le. pow2_reflects k j (rw (← e) le);
      })
  | inr not ↦ rw not (roundup-RoundsUp size h)
]
  where
    pow2_reflects : (i j : ℕ) → 2 ^ i ≤ 2 ^ j → i ≤ j
    pow2_reflects i j le = elim (dec_lt j i) [
      | yes p ↦ absurd (omega (arith, pow2_mono (suc j) i p, pow-suc 2 j, pow2_pos j))
      | no p ↦ omega arith
    ]

    pow2_le : (i : ℕ) → 2 ^ i ≤ 2 ^ 31 → i ≤ 31
    pow2_le i le = pow2_reflects i 31 le
