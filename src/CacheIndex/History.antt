-- ===== src/CacheIndex/History.antt =====
-- Tables of slots that calls of comm/cache_index.cpp, of ros_ws/src/livox_ros_driver2/src, can lead to.
use drone_exploration_stack.Prelude.{ℕ, ◌≡◌, ◌≢◌, some}
use drone_exploration_stack.Comm.{livox_lidar_type}
use drone_exploration_stack.CacheIndex.{
  CacheIndex, Text, init, get_free_index, get_index, lvx_get_index, reset_index,
}
use drone_exploration_stack.CacheIndex.Invariant.{
  IsValid, init-IsValid, get_free_index-IsValid, lvx_get_index-IsValid, reset_index-IsValid,
}
use drone_exploration_stack.CacheIndex.Lookup.{get_index_distinct}

module _ (to_string : ℕ → Text) where
  -- The constructor, and then calls one after the other, for lidars of any type.
  pub data Calls : CacheIndex → Type 0 where
    constructed : Calls init
    after_free : (c : CacheIndex) (t h : ℕ) → Calls c → Calls (get_free_index to_string c t h).1
    after_lvx : (c : CacheIndex) (t h : ℕ) → Calls c → Calls (lvx_get_index to_string c t h).1
    after_reset : (c : CacheIndex) (t h : ℕ) → Calls c → Calls (reset_index to_string c t h)

  Calls-IsValid : (c : CacheIndex) → Calls c → IsValid c
  Calls-IsValid c constructed = init-IsValid
  Calls-IsValid c (after_free before t h calls) =
      get_free_index-IsValid to_string before t h (Calls-IsValid before calls)
  Calls-IsValid c (after_lvx before t h calls) =
      lvx_get_index-IsValid to_string before t h (Calls-IsValid before calls)
  Calls-IsValid c (after_reset before t h calls) =
      reset_index-IsValid to_string before t h (Calls-IsValid before calls)

  -- After any calls of `GetFreeIndex`, `LvxGetIndex` and `ResetIndex` from the constructor on, in any
  -- order and for any lidars, whether they succeed or fail, two lidars that `GetIndex` finds have
  -- different slots, where the text of a number tells it from others.
  pub distinct_after_any :
      (to_string_injective : (a b : ℕ) → to_string a ≡ to_string b → a ≡ b) (c : CacheIndex)
      (a b i j : ℕ)
      → Calls c
      → a ≢ b
      → get_index to_string c livox_lidar_type a ≡ some i
      → get_index to_string c livox_lidar_type b ≡ some j
      → i ≢ j
  distinct_after_any to_string_injective c a b i j calls =
      get_index_distinct to_string to_string_injective c a b i j (Calls-IsValid c calls)
