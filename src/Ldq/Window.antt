-- ===== src/Ldq/Window.antt =====
-- A run of free-running counters read modulo a power of 2: what a reader of the ring sees.
use native.Mathlib.Decide.{dec_lt}
use native.Mathlib.Nat.{
  pow-suc, dvd_refl, dvd-mul_right_of_dvd, mod-mod_of_dvd, mod-add-mod, mod-lt, mod-eq_of_lt,
  mod-eq-sub-mod, add_assoc, add-zero, add-suc,
}
use Prim.Native.Nat.{◌∣◌}
use mathlib.Core.Path.{ap₂, subst}
use drone_exploration_stack.Prelude.{
  ℕ, zero, suc, ◌+◌, ◌-◌, ◌%◌, ◌^◌, ◌≤◌, ◌<◌, ◌≡◌, ◌≢◌, refl, ap, arith, List, [], ◌∷◌, ◌++◌,
  length,
}
use drone_exploration_stack.Prelude.Words.{u32}

module _ {ℓ} {A : Type ℓ} where
  -- The `n` values from counter `i` on.
  abbrev pub window : (ℕ → A) → ℕ → ℕ → List A
  window f i zero = []
  window f i (suc n) = f i ∷ window f (i + 1) n

  pub window_ext :
      (f g : ℕ → A) (i k n : ℕ)
      → ((j : ℕ) → j < n → f (i + j) ≡ g (k + j))
      → window f i n ≡ window g k n
  window_ext f g i k zero h = refl
  window_ext f g i k (suc n) h =
      ap₂ ◌∷◌ (ground (arith, h 0))
        (window_ext f g (i + 1) (k + 1) n (λ j p. ground (arith, h (suc j))))

  pub window_snoc : (f : ℕ → A) (i n : ℕ) → window f i (suc n) ≡ window f i n ++ f (i + n) ∷ []
  window_snoc f i zero = rw add-zero refl
  window_snoc f i (suc n) = rw (window_snoc f (i + 1) n, add_assoc i 1 n) (ground arith)

  pub length-window : (f : ℕ → A) (i n : ℕ) → length (window f i n) ≡ n
  length-window f i zero = refl
  length-window f i (suc n) = ap suc (length-window f (i + 1) n)

-- Two counters less than `s` apart stand at different places.
pub add-mod-ne : (s a d : ℕ) → 0 < d → d < s → (a + d) % s ≢ a % s
add-mod-ne s a d p h = elim (dec_lt (a % s + d) s) [
  | yes fits ↦ omega (arith, mod-add-mod a s d, mod-eq_of_lt fits)
  | no over ↦ omega (
    arith,
    mod-add-mod a s d,
    mod-lt a {m = s} (omega arith),
    mod-eq-sub-mod {n = a % s + d} {m = s} (omega arith),
    mod-eq_of_lt {n = a % s + d - s} {m = s} (omega (arith, mod-lt a {m = s} (omega arith))),
  )
]

pow2_dvd_add : (k d : ℕ) → 2 ^ k ∣ 2 ^ (k + d)
pow2_dvd_add k zero = rw add-zero (dvd_refl (2 ^ k))
pow2_dvd_add k (suc d) =
    rw (add-suc k d, pow-suc 2 (k + d)) (dvd-mul_right_of_dvd (2 ^ k) (pow2_dvd_add k d) 2)

-- The wrap of a 32-bit counter does not move its place in a ring of up to 2 ^ 32 slots.
pub u32-mod-pow2 : (k a : ℕ) → k ≤ 32 → u32 a % 2 ^ k ≡ a % 2 ^ k
u32-mod-pow2 k a h =
    mod-mod_of_dvd (2 ^ k) a
      (subst (λ e. 2 ^ k ∣ 2 ^ e) {y = 32} (omega arith) (pow2_dvd_add k (32 - k)))
