-- ===== src/Ldq/Threads.antt =====
-- The queue of comm/ldq.cpp between its two threads, which take no lock: the thread that collects
-- points tests `QueueIsFull`, fills the slot of `wr_idx` and then raises `wr_idx`; the thread that
-- publishes tests `QueueIsEmpty`, copies the slot of `rd_idx` and then raises `rd_idx`. A step is one
-- of these accesses by one thread, and the accesses take effect in the order of the program, which
-- the `volatile` counters are to ensure. A filled or copied slot is one step, as no access of the
-- other thread to that slot can fall between.
pub mod Moves
pub mod Agrees
pub mod Safety
mod Tests
use drone_exploration_stack.Prelude.{
  ℕ, ◌≤◌, ◌≡◌, refl, ◌∙◌, arith, bit_and, Bool, true, false, List, [], ◌∷◌, ◌++◌, length, take,
  if◌then◌else◌, Outcome, ok, fault, ◌>>=◌,
}
use drone_exploration_stack.Prelude.Words.{add32}
use drone_exploration_stack.Comm.{PointPacket, StoragePacket}
use drone_exploration_stack.Ldq.{
  LidarDataQueue, slot_at, set_slot, copy_points, queue_is_empty, queue_is_full, queue_pop_update,
  queue_push_any, queue_pre_pop,
}
use drone_exploration_stack.Ldq.Invariant.{Entry, entry_of}
use drone_exploration_stack.Ldq.Refine.{pushed}

module _ {F : Type 0} where
  -- `QueuePushAny` up to the counter, and its last line.
  pub write_slot : LidarDataQueue F → PointPacket F → ℕ → Outcome (LidarDataQueue F)
  unfolding slot_at set_slot copy_points
  write_slot q packet base_time = do
    let wr_idx = bit_and q.wr_idx q.mask
    slot ← slot_at q.storage_packet wr_idx
    points ← copy_points packet.points_num packet.points
    storage ←
        set_slot q.storage_packet wr_idx
          (record slot { base_time = base_time; points_num = packet.points_num; points = points })
    ok (record q { storage_packet = storage })

  pub push_update : LidarDataQueue F → LidarDataQueue F
  push_update q = record q { wr_idx = add32 q.wr_idx 1 }

  -- `QueuePrePop` after its test.
  pub read_slot : LidarDataQueue F → StoragePacket F → Outcome (StoragePacket F)
  unfolding slot_at copy_points
  read_slot q out = do
    slot ← slot_at q.storage_packet (bit_and q.rd_idx q.mask)
    points ← copy_points slot.points_num slot.points
    ok (record out { base_time = slot.base_time; points_num = slot.points_num; points = points })

-- Where each thread stands, with what it holds.
pub data Writer (F : Type 0) : Type 0 where
  outside : Writer F
  has_room : PointPacket F → ℕ → Writer F
  written : Entry F → Writer F

pub data Reader (F : Type 0) : Type 0 where
  idle : Reader F
  some_wait : Reader F
  copied : StoragePacket F → Reader F

-- The shared queue, the two threads, and the entries that each has passed so far.
pub record Threads (F : Type 0) : Type 0 where
  pub queue : LidarDataQueue F
  pub writer : Writer F
  pub reader : Reader F
  pub accepted : List (Entry F)
  pub taken : List (Entry F)

module _ {F : Type 0} where
  pub data Step (s : Threads F) : Threads F → Type 0 where
    find_room :
        (p : PointPacket F) (t : ℕ)
        → s.writer ≡ outside
        → p.points_num ≤ length p.points
        → queue_is_full s.queue ≡ false
        → Step s (record s { writer = has_room p t })
    write :
        (p : PointPacket F) (t : ℕ) (q : LidarDataQueue F)
        → s.writer ≡ has_room p t
        → write_slot s.queue p t ≡ ok q
        → Step s (record s { queue = q; writer = written (pushed p t) })
    raise_wr :
        (e : Entry F)
        → s.writer ≡ written e
        → Step s (record s {
          queue = push_update s.queue;
          writer = outside;
          accepted = s.accepted ++ e ∷ [];
        })
    find_packet :
        s.reader ≡ idle → queue_is_empty s.queue ≡ false → Step s (record s { reader = some_wait })
    copy :
        (out out' : StoragePacket F)
        → s.reader ≡ some_wait
        → read_slot s.queue out ≡ ok out'
        → Step s (record s { reader = copied out' })
    raise_rd :
        (out : StoragePacket F)
        → s.reader ≡ copied out
        → Step s (record s {
          queue = queue_pop_update s.queue;
          reader = idle;
          taken = s.taken ++ entry_of out ∷ [];
        })

  -- What any order of the two threads' steps can lead to, from a queue that neither uses.
  abbrev pub at_rest : LidarDataQueue F → Threads F
  at_rest q = record { queue = q; writer = outside; reader = idle; accepted = []; taken = [] }

  pub data Reach (q : LidarDataQueue F) : Threads F → Type 0 where
    start : Reach q (at_rest q)
    later : {s s' : Threads F} → Reach q s → Step s s' → Reach q s'
