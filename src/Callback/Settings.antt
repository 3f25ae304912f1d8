-- ===== src/Callback/Settings.antt =====
-- The bits of call_back/livox_lidar_callback.cpp as a set of settings: what a successful answer
-- takes away, and when a lidar begins to sample.
use native.Mathlib.Decide.{dec_lt}
use drone_exploration_stack.Prelude.{
  ℕ, zero, suc, ◌<◌, ◌≡◌, refl, sym, bit_and, Bool, true, false, not, ◌&&◌, ◌||◌, List, [], ◌∷◌,
  ltb, ◌==◌, arith, ltb→lt,
}
use drone_exploration_stack.Callback.{
  Setting, data_type, scan_pattern, blind_spot, dual_emit, bit_of, clear_bit,
}

-- Whether a setting still waits for its answer.
unfoldable pub pending : ℕ → Setting → Bool
unfolding bit_of
pending bits s = not (bit_and bits (bit_of s) == 0)

abbrev pub same : Setting → Setting → Bool
same data_type data_type = true
same scan_pattern scan_pattern = true
same blind_spot blind_spot = true
same dual_emit dual_emit = true
same s t = false

abbrev pub among : Setting → List Setting → Bool
among s [] = false
among s (t ∷ ts) = same t s || among s ts

-- A statement about each of the first numbers, checked one by one.
all_below : ℕ → (ℕ → Bool) → Bool
all_below zero test = true
all_below (suc n) test = test n && all_below n test

and_true : (a b : Bool) → (a && b) ≡ true → (a ≡ true) × (b ≡ true)
and_true true b e = (refl, e)
and_true false b e = cc

all_below-lt : (n : ℕ) (test : ℕ → Bool) → all_below n test ≡ true → (i : ℕ) → i < n → test i ≡ true
unfolding all_below
all_below-lt zero test e i less = absurd (omega arith)
all_below-lt (suc n) test e i less =
    let (here, below) = and_true (test n) (all_below n test) e in
    elim (dec_lt i n) [
      | yes under ↦ all_below-lt n test below i under
      | no over ↦ let at : i ≡ n = omega arith in rw at here
    ]

same_bool : Bool → Bool → Bool
same_bool true b = b
same_bool false b = not b

same_bool_sound : (a b : Bool) → same_bool a b ≡ true → a ≡ b
unfolding same_bool
same_bool_sound true b e = sym e
same_bool_sound false true e = cc
same_bool_sound false false e = refl

-- Of the sixteen values that the bits can have, by evaluation.
clear_bit_checked :
    (s t : Setting)
    → all_below 16 (λ b. same_bool (pending (clear_bit b s) t) (pending b t && not (same s t)))
      ≡ true
unfolding all_below same_bool pending clear_bit
clear_bit_checked data_type data_type = refl
clear_bit_checked data_type scan_pattern = refl
clear_bit_checked data_type blind_spot = refl
clear_bit_checked data_type dual_emit = refl
clear_bit_checked scan_pattern data_type = refl
clear_bit_checked scan_pattern scan_pattern = refl
clear_bit_checked scan_pattern blind_spot = refl
clear_bit_checked scan_pattern dual_emit = refl
clear_bit_checked blind_spot data_type = refl
clear_bit_checked blind_spot scan_pattern = refl
clear_bit_checked blind_spot blind_spot = refl
clear_bit_checked blind_spot dual_emit = refl
clear_bit_checked dual_emit data_type = refl
clear_bit_checked dual_emit scan_pattern = refl
clear_bit_checked dual_emit blind_spot = refl
clear_bit_checked dual_emit dual_emit = refl

clear_bit_small : (s : Setting) → all_below 16 (λ b. ltb (clear_bit b s) 16) ≡ true
unfolding all_below clear_bit
clear_bit_small data_type = refl
clear_bit_small scan_pattern = refl
clear_bit_small blind_spot = refl
clear_bit_small dual_emit = refl

-- An answer takes its own setting away and leaves the others pending.
pub clear_bit-pending :
    (bits : ℕ) (s t : Setting)
    → bits < 16
    → pending (clear_bit bits s) t ≡ (pending bits t && not (same s t))
clear_bit-pending bits s t less =
    same_bool_sound _ _ (all_below-lt 16 _ (clear_bit_checked s t) bits less)

pub clear_bit-lt : (bits : ℕ) (s : Setting) → bits < 16 → clear_bit bits s < 16
clear_bit-lt bits s less =
    ltb→lt _ _ (all_below-lt 16 (λ b. ltb (clear_bit b s) 16) (clear_bit_small s) bits less)

-- No setting is pending.
abbrev pub none_pending : ℕ → Bool
none_pending bits =
    not (pending bits data_type)
    && not (pending bits scan_pattern)
    && not (pending bits blind_spot)
    && not (pending bits dual_emit)

none_pending_checked : all_below 16 (λ b. same_bool (b == 0) (none_pending b)) ≡ true
unfolding all_below same_bool pending
none_pending_checked = refl

pub none_pending_lem : (bits : ℕ) → bits < 16 → (bits == 0) ≡ none_pending bits
none_pending_lem bits less =
    same_bool_sound _ _
      (all_below-lt 16 (λ b. same_bool (b == 0) (none_pending b)) none_pending_checked bits less)
