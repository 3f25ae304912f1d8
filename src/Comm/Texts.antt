-- ===== src/Comm/Texts.antt =====
-- The texts of comm/comm.cpp of ros_ws/src/livox_ros_driver2/src: the test of a path's length, and
-- the name of an address in a topic. A text is its bytes. The loop `while (pos != npos)` runs on
-- fuel, for which the number of periods is enough.
mod Tests
use drone_exploration_stack.Prelude.{
  ℕ, zero, suc, ◌+◌, ◌≤◌, ◌<◌, ◌≡◌, ◌≢◌, refl, sym, ap, ◌∙◌, arith, Bool, true, false, ◌&&◌, ◌⊎◌,
  Option, none, some, List, [], ◌∷◌, map, length, set, ltb, ◌==◌, if◌then◌else◌, Bool-cases, inl,
  inr,
}

pub is_file_path_valid : List ℕ → Bool
is_file_path_valid path_str = ltb 4 (length path_str) && ltb (length path_str) 256

-- `str.find(".")`: the place of the first period.
pub find_period : List ℕ → Option ℕ
find_period [] = none
find_period (c ∷ cs) =
    if c == b'.' then some 0 else elim (find_period cs) [ none ↦ none | some i ↦ some (suc i) ]

-- The loop of `ReplacePeriodByUnderline`.
pub replace_periods : ℕ → List ℕ → List ℕ
unfolding find_period
replace_periods zero str = str
replace_periods (suc fuel) str = elim (find_period str) [
  | none ↦ str
  | some i ↦ replace_periods fuel (set str i b'_')
]

pub replace_period_by_underline : List ℕ → List ℕ
unfolding replace_periods
replace_period_by_underline str = replace_periods (length str) str

-- What the loop is for.
abbrev pub underlined : ℕ → ℕ
underlined c = if c == b'.' then b'_' else c

abbrev pub periods : List ℕ → ℕ
periods [] = 0
periods (c ∷ cs) = if c == b'.' then suc (periods cs) else periods cs

periods-le-length : (str : List ℕ) → periods str ≤ length str
periods-le-length [] = omega arith
periods-le-length (c ∷ cs) = ground (arith, periods-le-length cs)

-- The first period, if there is one, and what its replacement leaves.
record IsFirst (str : List ℕ) (i : ℕ) : Type 0 where
  fewer : periods str ≡ suc (periods (set str i b'_'))
  same : map underlined (set str i b'_') ≡ map underlined str

find_period-cases :
    (str : List ℕ)
    → ((find_period str ≡ none) × (map underlined str ≡ str) × (periods str ≡ 0))
      ⊎ ((i : ℕ) × (find_period str ≡ some i) × IsFirst str i)
unfolding find_period
find_period-cases [] = inl (refl, refl, refl)
find_period-cases (c ∷ cs) = elim (Bool-cases (c == b'.')) [
  | inl here ↦ inr (0, rw here refl, record { fewer = rw here refl; same = rw here refl })
  | inr other ↦ elim (find_period-cases cs) [
    | inl (nowhere, same, zero') ↦
        inl (rw other (rw nowhere refl), rw other (ap (λ xs. c ∷ xs) same), rw other zero')
    | inr (i, there, first) ↦ inr (
      suc i,
      rw other (rw there refl),
      record { fewer = rw other first.fewer; same = ap (λ xs. underlined c ∷ xs) first.same },
    )
  ]
]

-- With as much fuel as there are periods, the loop ends with each of them replaced.
replace_periods-underlined :
    (fuel : ℕ) (str : List ℕ) → periods str ≤ fuel → replace_periods fuel str ≡ map underlined str
unfolding replace_periods
replace_periods-underlined zero str enough = elim (find_period-cases str) [
  | inl (nowhere, same, none_left) ↦ sym same
  | inr (i, there, first) ↦ absurd (omega (arith, first.fewer))
]
replace_periods-underlined (suc fuel) str enough = elim (find_period-cases str) [
  | inl (nowhere, same, none_left) ↦ rw (nowhere, replace_periods) (sym same)
  | inr (i, there, first) ↦
      rw (there, replace_periods)
        (replace_periods-underlined fuel (set str i b'_') (omega (arith, first.fewer)) ∙ first.same)
]

no_periods_left : (str : List ℕ) → find_period (map underlined str) ≡ none
unfolding find_period
no_periods_left [] = refl
no_periods_left (c ∷ cs) =
    let other : (underlined c == b'.') ≡ false = ground arith in
    rw other (rw (no_periods_left cs) refl)

-- `ReplacePeriodByUnderline` ends, with as many rounds as the text has bytes or any larger number, at
-- the text with an underline for each period and every other byte as it was; the last test of the
-- loop then finds no period.
pub replace_period_by_underline_lem :
    (str : List ℕ) (more : ℕ)
    → (replace_period_by_underline str ≡ map underlined str)
      × (replace_periods (length str + more) str ≡ map underlined str)
      × (find_period (replace_period_by_underline str) ≡ none)
unfolding replace_period_by_underline
replace_period_by_underline_lem str more =
    let done = replace_periods-underlined (length str) str (periods-le-length str) in
    (
      done,
      replace_periods-underlined (length str + more) str (omega (arith, periods-le-length str)),
      ap find_period done ∙ no_periods_left str,
    )
