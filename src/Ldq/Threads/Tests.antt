-- ===== src/Ldq/Threads/Tests.antt =====
-- The two threads of the queue at a ring of two slots where one packet waits.
use drone_exploration_stack.Prelude.{ℕ, ◌≡◌, ◌≢◌, refl, arith, bit_and, false, [], ◌∷◌, ◌++◌, ok}
use drone_exploration_stack.Comm.{StoragePacket}
use drone_exploration_stack.Ldq.{LidarDataQueue, queue_is_empty, queue_pop_update}
use drone_exploration_stack.Ldq.Invariant.{IsValid, contents}
use drone_exploration_stack.Ldq.Tests.{
  one_waits, one_waits-IsValid, not_full, new_packet, stored_packet, a_point,
}
use drone_exploration_stack.Ldq.Threads.{
  Threads, has_room, some_wait, idle, write_slot, read_slot, Step, Reach, at_rest,
}
use drone_exploration_stack.Ldq.Threads.Safety.{unlocked_fifo, unlocked_slots}

not_empty : queue_is_empty one_waits ≡ false
unfolding queue_is_empty
not_empty = refl

read_one : read_slot one_waits stored_packet ≡ ok stored_packet
unfolding read_slot
read_one = refl

-- Both threads are at their slots.
both_inside :
    Reach one_waits
      (record (at_rest one_waits) { writer = has_room new_packet 900; reader = some_wait })
both_inside =
    Reach.later (Reach.later Reach.start (Step.find_packet refl not_empty))
      (Step.find_room new_packet 900 refl (omega arith) not_full)

-- The reader then copies its slot and raises its counter, while the writer is at its slot.
abbrev one_taken : Threads ℕ
one_taken = record {
  queue = queue_pop_update one_waits;
  writer = has_room new_packet 900;
  reader = idle;
  accepted = [];
  taken = record { base_time = 600; points = a_point ∷ [] } ∷ [];
}

one_taken-Reach : Reach one_waits one_taken
one_taken-Reach =
    Reach.later (Reach.later both_inside (Step.copy stored_packet stored_packet refl read_one))
      (Step.raise_rd stored_packet refl)

unlocked_fifo_example :
    IsValid one_taken.queue
    × (one_taken.taken ++ contents one_taken.queue ≡ contents one_waits ++ one_taken.accepted)
unlocked_fifo_example = unlocked_fifo one_waits one_taken one_waits-IsValid one_taken-Reach

unlocked_slots_example :
    ((q' : LidarDataQueue ℕ) × (write_slot one_waits new_packet 900 ≡ ok q'))
    × ((out' : StoragePacket ℕ) × (read_slot one_waits stored_packet ≡ ok out'))
    × (bit_and one_waits.wr_idx one_waits.mask ≢ bit_and one_waits.rd_idx one_waits.mask)
unlocked_slots_example =
    unlocked_slots one_waits
      (record (at_rest one_waits) { writer = has_room new_packet 900; reader = some_wait })
      new_packet 900 stored_packet one_waits-IsValid both_inside refl refl
