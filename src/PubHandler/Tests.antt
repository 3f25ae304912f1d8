-- ===== src/PubHandler/Tests.antt =====
-- The timer of comm/pub_handler.cpp with one lidar that has a point.
use mathlib.Core.Option
use drone_exploration_stack.Prelude.{
  ℕ, ◌≡◌, ◌⊎◌, ◌==◌, ◌+◌, refl, true, false, Bool, some, [], ◌∷◌, replicate, ok, arith,
  if◌then◌else◌,
}
use drone_exploration_stack.Prelude.Assoc.{find, nat_key}
use drone_exploration_stack.Floats.Tests.{naturals}
use drone_exploration_stack.Comm.{PointPacket}
use drone_exploration_stack.Lds.{PointFrame}
use drone_exploration_stack.LidarHandler.{LidarPubHandler, new_handler, get_lidar_base_time}
use drone_exploration_stack.PubHandler.{PubHandler}
use drone_exploration_stack.PubHandler.Timer.{check_timer}
use drone_exploration_stack.PubHandler.Timer.Frames.{
  HasRoom, packets, base_times, packet_of, packets_of, times_of, emptied,
}
use drone_exploration_stack.PubHandler.Timer.Rounds.{check_timer_unsynced_lem}
use drone_exploration_stack.PubHandler.Timer.Synced.{IsDue, check_timer_synced_lem}

abbrev pub a_handler : LidarPubHandler ℕ
a_handler = record {
  points_clouds =
      record { x = 1; y = 2; z = 3; intensity = 4; tag = 5; line = 0; offset_time = 600_000_000 }
      ∷ [];
  extrinsic = (new_handler naturals).extrinsic;
  is_set_extrinsic_params = false;
}

abbrev pub blank_point_packet : PointPacket ℕ
blank_point_packet = record { handle = 0; lidar_type = 0; points_num = 0; points = [] }

-- One lidar, 7, and its point; `synced` says whether the clocks are.
abbrev pub handler_with : Bool → PubHandler naturals
handler_with synced = record {
  is_quit = false;
  has_points_callback = true;
  has_imu_callback = true;
  frame = record {
    base_time = replicate 32 0;
    lidar_num = 0;
    lidar_point = replicate 32 blank_point_packet;
  };
  raw_packet_queue = [];
  publish_interval = 100;
  publish_interval_tolerance = 0;
  publish_interval_ms = 100;
  last_pub_time = 1000;
  lidar_process_handlers = (7, a_handler) ∷ [];
  points = [];
  lidar_extrinsics = [];
  is_timestamp_sync = synced;
  first = false;
  is_processing = true;
  lidar_listen_id = 1;
}

has_room : HasRoom (handler_with true).frame
unfolding HasRoom
has_room = (refl, refl)

check_timer_unsynced_lem_example :
    (p' : PubHandler naturals) × (f : PointFrame ℕ) × (check_timer (handler_with false) 7 1100
      ≡ ok (p', f ∷ []))
    × (packets f ≡ packets_of ((7, a_handler) ∷ []))
    × (base_times f ≡ times_of ((7, a_handler) ∷ []))
    × ((j : ℕ)
        → find j p'.lidar_process_handlers
          ≡ Option.map emptied (find j (handler_with false).lidar_process_handlers))
    × (p'.last_pub_time ≡ 1000 + 100)
    × (p'.frame.lidar_num ≡ 0)
    × HasRoom p'.frame
check_timer_unsynced_lem_example =
    check_timer_unsynced_lem (handler_with false) 7 1100 refl refl refl (omega arith) has_room refl
      (omega arith) (refl, tt)

check_timer_synced_lem_example :
    (IsDue (handler_with true) a_handler
      × (p' : PubHandler naturals) × (f : PointFrame ℕ) × (check_timer (handler_with true) 7 0
          ≡ ok (p', f ∷ []))
      × (packets f ≡ packet_of 7 a_handler.points_clouds ∷ [])
      × (base_times f ≡ get_lidar_base_time a_handler ∷ [])
      × ((j : ℕ)
          → find j p'.lidar_process_handlers ≡ (
              if j == 7
              then some (emptied a_handler)
              else find j (handler_with true).lidar_process_handlers))
      × (p'.frame.lidar_num ≡ 0)
      × HasRoom p'.frame)
    ⊎ (¬ IsDue (handler_with true) a_handler)
      × (check_timer (handler_with true) 7 0 ≡ ok (handler_with true, []))
check_timer_synced_lem_example =
    check_timer_synced_lem (handler_with true) 7 0 a_handler refl refl (λ e. omega (arith, e)) refl
      has_room refl
