-- ===== src/Comm/Texts/Tests.antt =====
-- The texts of comm/comm.cpp at an address.
use drone_exploration_stack.Prelude.{ℕ, ◌+◌, ◌≡◌, none, List, [], ◌∷◌, map, length}
use drone_exploration_stack.Comm.Texts.{
  replace_period_by_underline, replace_periods, find_period, underlined,
  replace_period_by_underline_lem,
}

abbrev address : List ℕ
address = b'1' ∷ b'.' ∷ b'2' ∷ b'.' ∷ b'.' ∷ []

replace_period_by_underline_lem_example :
    (replace_period_by_underline address ≡ b'1' ∷ b'_' ∷ b'2' ∷ b'_' ∷ b'_' ∷ [])
    × (replace_periods (length address + 3) address ≡ map underlined address)
    × (find_period (replace_period_by_underline address) ≡ none)
replace_period_by_underline_lem_example = replace_period_by_underline_lem address 3
