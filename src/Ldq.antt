-- ===== src/Ldq.antt =====
-- comm/ldq.h and comm/ldq.cpp of ros_ws/src/livox_ros_driver2/src: the ring of storage packets
-- between the thread that collects points and the thread that publishes them. The indices are
-- free-running `uint32_t` counters that wrap, and `& mask` makes positions of them.
pub mod Power
pub mod Window
pub mod Invariant
pub mod Ring
pub mod Refine
pub mod Threads
pub mod Null
pub mod Tests
use drone_exploration_stack.Prelude.{
  ℕ, zero, suc, ◌+◌, ◌-◌, ◌^◌, bit_and, ◌≡◌, refl, Bool, true, false, not, ◌&&◌, Option, none, some,
  List, [], length, get_elem?, set, take, replicate, ltb, leb, ◌==◌, if◌then◌else◌, Outcome, ok,
  fault, null_pointer, dangling_pointer, double_delete, out_of_bounds, ◌>>=◌,
}
use drone_exploration_stack.Prelude.Words.{u32, add32, sub32}
use drone_exploration_stack.Comm.{PointXyzlt, PointPacket, StoragePacket}

-- The loop of `RoundupPowerOf2` from round `i` on, with the rounds left; `power2_val` is the value
-- of the last round.
roundup_from : ℕ → ℕ → ℕ → ℕ → ℕ
roundup_from zero i power2_val size = power2_val
roundup_from (suc rounds) i power2_val size =
    let rest = roundup_from rounds (i + 1) (u32 (2 ^ i)) size in
    if leb size (u32 (2 ^ i)) then u32 (2 ^ i) else rest

pub roundup_power_of_2 : ℕ → ℕ
unfolding roundup_from
roundup_power_of_2 size = roundup_from 32 0 0 size

pub is_power_of_2 : ℕ → Bool
is_power_of_2 size = not (size == 0) && (bit_and size (sub32 size 1) == 0)

-- The pointer `storage_packet`: null, to an array, or to an array that was deleted.
pub data Storage (F : Type 0) : Type 0 where
  null : Storage F
  dangling : Storage F
  live : List (StoragePacket F) → Storage F

pub record LidarDataQueue (F : Type 0) : Type 0 where
  pub storage_packet : Storage F
  pub rd_idx : ℕ
  pub wr_idx : ℕ
  pub mask : ℕ
  pub size : ℕ

-- An element of `new StoragePacket[n]`: no points. The scalars are indeterminate in C++; the model
-- puts 0, and `QueuePrePop` reads an element only after `QueuePushAny` has set it.
abbrev pub blank_packet : (F : Type 0) → StoragePacket F
blank_packet F = record { lidar_type = 0; handle = 0; base_time = 0; points_num = 0; points = [] }

-- The size that `InitQueue` gives the array.
pub real_size : ℕ → ℕ
unfolding is_power_of_2 roundup_power_of_2
real_size queue_size =
    if is_power_of_2 queue_size then queue_size else roundup_power_of_2 queue_size

module _ {F : Type 0} where
  -- `queue->storage_packet[i]`, read and written.
  pub slot_at : Storage F → ℕ → Outcome (StoragePacket F)
  slot_at null i = fault null_pointer
  slot_at dangling i = fault dangling_pointer
  slot_at (live packets) i = elim (get_elem? packets i) [
    | none ↦ fault out_of_bounds
    | some packet ↦ ok packet
  ]

  pub set_slot : Storage F → ℕ → StoragePacket F → Outcome (Storage F)
  set_slot null i packet = fault null_pointer
  set_slot dangling i packet = fault dangling_pointer
  set_slot (live packets) i packet =
      if ltb i (length packets) then ok (live (set packets i packet)) else fault out_of_bounds

  -- `memcpy` of the first `n` points of an array.
  unfoldable pub copy_points : ℕ → List (PointXyzlt F) → Outcome (List (PointXyzlt F))
  copy_points n points = if leb n (length points) then ok (take n points) else fault out_of_bounds

  -- `delete[]`.
  pub delete_storage : Storage F → Outcome (Storage F)
  delete_storage null = ok null
  delete_storage dangling = fault double_delete
  delete_storage (live packets) = ok dangling

  pub init_queue : LidarDataQueue F → ℕ → Outcome (LidarDataQueue F)
  unfolding delete_storage
  init_queue q queue_size = do
    _ ← delete_storage q.storage_packet
    let n = real_size queue_size
    ok (record {
      storage_packet = live (replicate n (blank_packet F));
      rd_idx = 0;
      wr_idx = 0;
      mask = sub32 n 1;
      size = n;
    })

  -- The pointer keeps its value after `delete[]`.
  pub de_init_queue : LidarDataQueue F → Outcome (LidarDataQueue F)
  unfolding delete_storage
  de_init_queue q = do
    storage ← delete_storage q.storage_packet
    ok (record { storage_packet = storage; rd_idx = 0; wr_idx = 0; mask = 0; size = 0 })

  pub reset_queue : LidarDataQueue F → LidarDataQueue F
  reset_queue q = record q { rd_idx = 0; wr_idx = 0 }

  pub queue_is_empty : LidarDataQueue F → Bool
  queue_is_empty q = q.rd_idx == q.wr_idx

  pub queue_used_size : LidarDataQueue F → ℕ
  queue_used_size q = sub32 q.wr_idx q.rd_idx

  pub queue_unused_size : LidarDataQueue F → ℕ
  unfolding queue_used_size
  queue_unused_size q = sub32 q.size (queue_used_size q)

  pub queue_is_full : LidarDataQueue F → Bool
  queue_is_full q = ltb q.mask (sub32 q.wr_idx q.rd_idx)

  -- The result and what `*storage_packet` holds afterwards.
  pub queue_pre_pop : LidarDataQueue F → StoragePacket F → Outcome (Bool × StoragePacket F)
  unfolding queue_is_empty slot_at copy_points
  queue_pre_pop q out = if queue_is_empty q then ok (false, out) else do
    slot ← slot_at q.storage_packet (bit_and q.rd_idx q.mask)
    points ← copy_points slot.points_num slot.points
    ok (
      true,
      record out { base_time = slot.base_time; points_num = slot.points_num; points = points },
    )

  pub queue_pop_update : LidarDataQueue F → LidarDataQueue F
  queue_pop_update q = record q { rd_idx = add32 q.rd_idx 1 }

  pub queue_pop :
      LidarDataQueue F → StoragePacket F → Outcome (Bool × LidarDataQueue F × StoragePacket F)
  unfolding queue_pre_pop queue_pop_update
  queue_pop q out = do
    (popped, out') ← queue_pre_pop q out
    ok (popped, (if popped then queue_pop_update q else q), out')

  -- The fields that a push does not name, `lidar_type` and `handle`, keep what the slot held.
  pub queue_push_any : LidarDataQueue F → PointPacket F → ℕ → Outcome (LidarDataQueue F)
  unfolding slot_at set_slot copy_points
  queue_push_any q packet base_time = do
    let wr_idx = bit_and q.wr_idx q.mask
    slot ← slot_at q.storage_packet wr_idx
    points ← copy_points packet.points_num packet.points
    storage ←
        set_slot q.storage_packet wr_idx
          (record slot { base_time = base_time; points_num = packet.points_num; points = points })
    ok (record q { storage_packet = storage; wr_idx = add32 q.wr_idx 1 })
