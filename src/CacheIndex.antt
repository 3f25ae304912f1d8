-- ===== src/CacheIndex.antt =====
-- comm/cache_index.h and comm/cache_index.cpp of ros_ws/src/livox_ros_driver2/src: which of the 32
-- device slots a lidar has. A key is the text `"livox_lidar_" + std::to_string(handle)`; the decimal
-- text of a number is the standard library's, and a parameter here. A call is one step, so the model
-- is of calls that do not overlap. The code's mutex is not enough for calls that do: `GetFreeIndex`
-- takes it twice, once to look the lidar up and once to take a slot, and the other calls look into the
-- map outside of it.
pub mod Invariant
pub mod Failure
pub mod Table
pub mod Lookup
pub mod History
pub mod Tests
use drone_exploration_stack.Prelude.{
  ℕ, suc, ◌+◌, ◌≡◌, Bool, true, false, Option, none, some, List, [], ◌∷◌, ◌++◌, set, replicate,
  ◌==◌, if◌then◌else◌,
}
use drone_exploration_stack.Prelude.Words.{u8}
use drone_exploration_stack.Prelude.Assoc.{find, insert, erase, text_key}
use drone_exploration_stack.Comm.{livox_lidar_type, max_source_lidar}

abbrev pub Text : Type 0
Text = List ℕ

-- `map_index_` and `index_cache_`.
pub record CacheIndex : Type 0 where
  pub map_index : List (Text × ℕ)
  pub index_cache : List Bool

-- The constructor.
pub init : CacheIndex
init = record { map_index = []; index_cache = replicate max_source_lidar false }

-- The loop of `GetFreeIndex` from slot `i` on: the first slot that is not taken.
abbrev pub first_free : List Bool → ℕ → Option ℕ
first_free [] i = none
first_free (false ∷ slots) i = some i
first_free (true ∷ slots) i = first_free slots (i + 1)

-- "livox_lidar_"
abbrev pub key_prefix : Text
key_prefix = b'l' ∷ b'i' ∷ b'v' ∷ b'o' ∷ b'x' ∷ b'_' ∷ b'l' ∷ b'i' ∷ b'd' ∷ b'a' ∷ b'r' ∷ b'_' ∷ []

-- The calls below return the index with return code 0, and `none` with return code -1.
pub take_slot : CacheIndex → Text → ℕ → Option ℕ × CacheIndex
take_slot c key i = (
  some (u8 i),
  record { map_index = insert key (u8 i) c.map_index; index_cache = set c.index_cache i true },
)

pub register : CacheIndex → Text → Option ℕ × CacheIndex
unfolding take_slot
register c key = elim (find key c.map_index) [
  | some i ↦ (some i, c)
  | none ↦ elim (first_free c.index_cache 0) [ none ↦ (none, c) | some i ↦ take_slot c key i ]
]

-- The part of `ResetIndex` after the key.
pub unregister : CacheIndex → Text → CacheIndex
unregister c key = elim (find key c.map_index) [
  | none ↦ c
  | some i ↦ record { map_index = erase key c.map_index; index_cache = set c.index_cache i false }
]

module _ (to_string : ℕ → Text) where
  pub generate_index_key : ℕ → ℕ → Option Text
  generate_index_key lidar_type handle =
      if lidar_type == livox_lidar_type then some (key_prefix ++ to_string handle) else none

  pub get_free_index : CacheIndex → ℕ → ℕ → Option ℕ × CacheIndex
  unfolding generate_index_key register
  get_free_index c lidar_type handle = elim (generate_index_key lidar_type handle) [
    | none ↦ (none, c)
    | some key ↦ register c key
  ]

  pub get_index : CacheIndex → ℕ → ℕ → Option ℕ
  unfolding generate_index_key
  get_index c lidar_type handle = elim (generate_index_key lidar_type handle) [
    | none ↦ none
    | some key ↦ find key c.map_index
  ]

  pub lvx_get_index : CacheIndex → ℕ → ℕ → Option ℕ × CacheIndex
  unfolding generate_index_key get_free_index
  lvx_get_index c lidar_type handle = elim (generate_index_key lidar_type handle) [
    | none ↦ (none, c)
    | some key ↦ elim (find key c.map_index) [
      | some i ↦ (some i, c)
      | none ↦ get_free_index c lidar_type handle
    ]
  ]

  pub reset_index : CacheIndex → ℕ → ℕ → CacheIndex
  unfolding generate_index_key unregister
  reset_index c lidar_type handle = elim (generate_index_key lidar_type handle) [
    | none ↦ c
    | some key ↦ unregister c key
  ]
