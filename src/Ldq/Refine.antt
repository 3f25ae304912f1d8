-- ===== src/Ldq/Refine.antt =====
-- A valid queue is a bounded FIFO of entries: `QueuePushAny` appends, `QueuePop` takes the oldest,
-- also when the 32-bit counters wrap.
use drone_exploration_stack.Prelude.{
  ℕ, ◌%◌, ◌^◌, ◌≤◌, ◌≡◌, refl, sym, arith, true, false, List, [], ◌∷◌, ◌++◌, length, take, set,
  ◌==◌, ok, fault, double_delete, dangling_pointer,
}
use drone_exploration_stack.Prelude.Words.{add32, sub32}
use drone_exploration_stack.Comm.{PointPacket, StoragePacket}
use drone_exploration_stack.Ldq.{
  LidarDataQueue, queue_is_empty, queue_is_full, queue_push_any, queue_pop, queue_used_size,
  init_queue, de_init_queue, live, dangling,
}
use drone_exploration_stack.Ldq.Window.{length-window}
use drone_exploration_stack.Ldq.Invariant.{Entry, entry_at, contents, ring, IsValid}
use drone_exploration_stack.Ldq.Ring

module _ {F : Type 0} where
  -- `QueueUsedSize` is the number of packets that wait.
  pub used_size-length :
      (q : LidarDataQueue F) → IsValid q → queue_used_size q ≡ length (contents q)
  unfolding queue_used_size
  used_size-length q v = rw v.is (sym (length-window _ v.rd (sub32 v.wr v.rd)))

  -- `QueueIsEmpty` and `QueueIsFull` tell whether nothing waits, and whether `size` packets do.
  pub is_empty_is_full :
      (q : LidarDataQueue F)
      → IsValid q
      → (queue_is_empty q ≡ (length (contents q) == 0))
        × (queue_is_full q ≡ (length (contents q) == q.size))
  is_empty_is_full q v = rw v.is (
    Ring.ring_is_empty v.packets v.k v.rd v.wr v.holds,
    Ring.ring_is_full v.packets v.k v.rd v.wr v.holds,
  )

  -- The entry that a pushed packet becomes.
  abbrev pub pushed : PointPacket F → ℕ → Entry F
  pushed p base_time = record { base_time = base_time; points = take p.points_num p.points }

  -- A push on a queue that is not full succeeds, keeps the queue valid and appends the packet.
  pub push_refines :
      (q : LidarDataQueue F) (p : PointPacket F) (t : ℕ)
      → IsValid q
      → queue_is_full q ≡ false
      → p.points_num ≤ length p.points
      → (q' : LidarDataQueue F) × (queue_push_any q p t ≡ ok q')
        × IsValid q'
        × (q'.size ≡ q.size)
        × (contents q' ≡ contents q ++ pushed p t ∷ [])
  push_refines q p t v room fits = rw v.is (
      let room' = Ring.room_of_not_full packets k rd wr holds (rw v.is at room) in
      (
        ring (set packets (wr % 2 ^ k) (Ring.stored packets k rd wr holds p t)) k rd (add32 wr 1),
        Ring.ring_push packets k rd wr holds p t fits,
        record {
          packets = set packets (wr % 2 ^ k) (Ring.stored packets k rd wr holds p t);
          k = k;
          rd = rd;
          wr = add32 wr 1;
          is = refl;
          holds = Ring.push-IsRing packets k rd wr holds p t fits room';
        },
        refl,
        Ring.ring_push-contents packets k rd wr holds p t room',
      ))
    where
      open v use {packets, k, rd, wr, holds}

  -- A pop of a queue where an entry waits takes the oldest entry, and leaves the rest.
  pub pop_refines :
      (q : LidarDataQueue F) (out : StoragePacket F) (e : Entry F) (es : List (Entry F))
      → IsValid q
      → contents q ≡ e ∷ es
      → (q' : LidarDataQueue F) × (queue_pop q out
          ≡ ok (
            true,
            q',
            record out { base_time = e.base_time; points_num = length e.points; points = e.points },
          ))
        × IsValid q'
        × (q'.size ≡ q.size)
        × (contents q' ≡ es)
  pop_refines q out e es v h = rw v.is (
      let h' = rw v.is at h in
      let some_used = Ring.used_of_cons packets k rd wr holds e es h' in
      let split = Ring.ring_pop-contents packets k rd wr holds some_used in
      let first : e ≡ entry_at packets (2 ^ k) rd = cc in
      (
        ring packets k (add32 rd 1) wr,
        rw first (Ring.ring_pop packets k rd wr holds out some_used),
        record {
          packets = packets;
          k = k;
          rd = add32 rd 1;
          wr = wr;
          is = refl;
          holds = Ring.pop-IsRing packets k rd wr holds some_used;
        },
        refl,
        cc,
      ))
    where
      open v use {packets, k, rd, wr, holds}

  -- A pop of a queue where nothing waits reports failure and changes nothing.
  pub pop_empty :
      (q : LidarDataQueue F) (out : StoragePacket F)
      → IsValid q
      → contents q ≡ []
      → queue_pop q out ≡ ok (false, q, out)
  unfolding queue_pop
  pop_empty q out v h =
      let nothing : queue_is_empty q ≡ true = rw (is_empty_is_full q v).0 (rw h refl) in
      rw nothing refl

  -- `DeInitQueue` of a queue with an array keeps the pointer to the deleted array: a later
  -- `InitQueue` deletes it again, whatever the size, and a later `QueuePushAny` writes through it.
  pub stale_after_de_init :
      (q : LidarDataQueue F) (packets : List (StoragePacket F)) (n : ℕ) (p : PointPacket F) (t : ℕ)
      → q.storage_packet ≡ live packets
      → (q' : LidarDataQueue F) × (de_init_queue q ≡ ok q')
        × (init_queue q' n ≡ fault double_delete)
        × (queue_push_any q' p t ≡ fault dangling_pointer)
  unfolding de_init_queue init_queue queue_push_any
  stale_after_de_init q packets n p t e = (
    record { storage_packet = dangling; rd_idx = 0; wr_idx = 0; mask = 0; size = 0 },
    ground arith,
    refl,
    refl,
  )
