-- ===== src/Ldq/Tests.antt =====
-- The queue of comm/ldq.cpp at concrete inputs: rings of two slots, also where a counter wraps.
use drone_exploration_stack.Prelude.{
  ℕ, ◌≡◌, refl, true, false, [], ◌∷◌, ◌++◌, length, ◌==◌, ◌↔◌, ◌^◌, ok, fault, double_delete,
  dangling_pointer, arith,
}
use drone_exploration_stack.Comm.{PointXyzlt, PointPacket, StoragePacket}
use drone_exploration_stack.Ldq.{
  LidarDataQueue, blank_packet, null, queue_is_empty, queue_is_full, queue_pop, queue_push_any,
  init_queue, de_init_queue, is_power_of_2, roundup_power_of_2,
}
use drone_exploration_stack.Ldq.Invariant.{IsValid, ring, contents, init_queue-IsValid}
use drone_exploration_stack.Ldq.Power.{RoundsUp, roundup-RoundsUp, is_power_of_2_iff}
use drone_exploration_stack.Ldq.Refine.{
  is_empty_is_full, pushed, push_refines, pop_refines, pop_empty, stale_after_de_init,
}

abbrev pub a_point : PointXyzlt ℕ
a_point = record { x = 1; y = 2; z = 3; intensity = 4; tag = 5; line = 0; offset_time = 600 }

abbrev pub stored_packet : StoragePacket ℕ
stored_packet = record {
  lidar_type = 0;
  handle = 0;
  base_time = 600;
  points_num = 1;
  points = a_point ∷ [];
}

abbrev pub new_packet : PointPacket ℕ
new_packet = record {
  handle = 7;
  lidar_type = 8;
  points_num = 2;
  points = a_point ∷ a_point ∷ a_point ∷ [];
}

-- One packet waits, at the last value of the counter.
abbrev pub one_waits : LidarDataQueue ℕ
one_waits = ring (blank_packet ℕ ∷ stored_packet ∷ []) 1 4294967295 0

pub one_waits-IsValid : IsValid one_waits
one_waits-IsValid = record {
  packets = blank_packet ℕ ∷ stored_packet ∷ [];
  k = 1;
  rd = 4294967295;
  wr = 0;
  is = refl;
  holds = record {
    small = omega arith;
    sized = refl;
    rd_word = omega arith;
    wr_word = omega arith;
    bounded = omega arith;
    all_counted = (refl, (refl, tt));
  };
}

abbrev none_waits : LidarDataQueue ℕ
none_waits = ring (blank_packet ℕ ∷ stored_packet ∷ []) 1 5 5

none_waits-IsValid : IsValid none_waits
none_waits-IsValid = record {
  packets = blank_packet ℕ ∷ stored_packet ∷ [];
  k = 1;
  rd = 5;
  wr = 5;
  is = refl;
  holds = record {
    small = omega arith;
    sized = refl;
    rd_word = omega arith;
    wr_word = omega arith;
    bounded = omega arith;
    all_counted = (refl, (refl, tt));
  };
}

abbrev no_array : LidarDataQueue ℕ
no_array = record { storage_packet = null; rd_idx = 0; wr_idx = 0; mask = 0; size = 0 }

pub not_full : queue_is_full one_waits ≡ false
unfolding queue_is_full
not_full = refl

push_refines_example :
    (q' : LidarDataQueue ℕ) × (queue_push_any one_waits new_packet 900 ≡ ok q')
    × IsValid q'
    × (q'.size ≡ one_waits.size)
    × (contents q' ≡ contents one_waits ++ pushed new_packet 900 ∷ [])
push_refines_example =
    push_refines one_waits new_packet 900 one_waits-IsValid not_full (omega arith)

pop_refines_example :
    (q' : LidarDataQueue ℕ) × (queue_pop one_waits stored_packet
      ≡ ok (
        true,
        q',
        record stored_packet { base_time = 600; points_num = 1; points = a_point ∷ [] },
      ))
    × IsValid q'
    × (q'.size ≡ one_waits.size)
    × (contents q' ≡ [])
pop_refines_example =
    pop_refines one_waits stored_packet (record { base_time = 600; points = a_point ∷ [] }) []
      one_waits-IsValid refl

pop_empty_example : queue_pop none_waits stored_packet ≡ ok (false, none_waits, stored_packet)
pop_empty_example = pop_empty none_waits stored_packet none_waits-IsValid refl

is_empty_is_full_example :
    (queue_is_empty one_waits ≡ (length (contents one_waits) == 0))
    × (queue_is_full one_waits ≡ (length (contents one_waits) == one_waits.size))
is_empty_is_full_example = is_empty_is_full one_waits one_waits-IsValid

init_queue-IsValid_example :
    (q' : LidarDataQueue ℕ) × (init_queue no_array 10 ≡ ok q')
    × IsValid q'
    × (contents q' ≡ [])
    × RoundsUp 10 q'.size
init_queue-IsValid_example = init_queue-IsValid no_array 10 (λ e. cc) (omega arith)

stale_after_de_init_example :
    (q' : LidarDataQueue ℕ) × (de_init_queue one_waits ≡ ok q')
    × (init_queue q' 10 ≡ fault double_delete)
    × (queue_push_any q' new_packet 900 ≡ fault dangling_pointer)
stale_after_de_init_example =
    stale_after_de_init one_waits (blank_packet ℕ ∷ stored_packet ∷ []) 10 new_packet 900 refl

roundup-RoundsUp_example : RoundsUp 10 (roundup_power_of_2 10)
roundup-RoundsUp_example = roundup-RoundsUp 10 (omega arith)

is_power_of_2_iff_example : (is_power_of_2 12 ≡ true) ↔ ((k : ℕ) × (12 ≡ 2 ^ k))
is_power_of_2_iff_example = is_power_of_2_iff 12 (omega arith)
