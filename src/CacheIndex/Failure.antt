-- ===== src/CacheIndex/Failure.antt =====
-- The calls of comm/cache_index.cpp that find nothing: a `GetFreeIndex` that fails leaves the table as
-- it is, and the table of the constructor has no lidar.
use drone_exploration_stack.Prelude.{ℕ, ◌≡◌, none, arith}
use drone_exploration_stack.CacheIndex.{
  CacheIndex, Text, take_slot, register, get_free_index, get_index, init,
}

pub get_free_index-none :
    (to_string : ℕ → Text) (c : CacheIndex) (lidar_type handle : ℕ)
    → (get_free_index to_string c lidar_type handle).0 ≡ none
    → (get_free_index to_string c lidar_type handle).1 ≡ c
unfolding get_free_index register take_slot
get_free_index-none to_string c lidar_type handle e = ground arith

pub get_index-init :
    (to_string : ℕ → Text) (lidar_type handle : ℕ)
    → get_index to_string init lidar_type handle ≡ none
unfolding get_index init
get_index-init to_string lidar_type handle = ground arith
