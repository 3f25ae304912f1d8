-- ===== src/Lds/Tests.antt =====
-- The data source of lds.cpp with one known lidar, at concrete inputs.
use drone_exploration_stack.Prelude.{
  ℕ, zero, suc, ◌≡◌, refl, sym, inl, ap, false, some, [], ◌∷◌, get_elem?, replicate, ok, arith,
}
use drone_exploration_stack.Prelude.Int.{pos}
use drone_exploration_stack.Floats.Tests.{naturals}
use drone_exploration_stack.Comm.{PointPacket, off, livox_lidar_type}
use drone_exploration_stack.Ldq.{null}
use drone_exploration_stack.Ldq.Refine.{pushed}
use drone_exploration_stack.CacheIndex.Tests.{unary, one_lidar, one_lidar-IsValid}
use drone_exploration_stack.Lds.{Lds, LidarDevice, PointFrame, push_lidar_data, storage_point_data}
use drone_exploration_stack.Lds.Invariant.{IsValid}
use drone_exploration_stack.Lds.Store.{
  IsFrame, Stored, StoresAll, entries, push_lidar_data-Stored, storage_point_data-StoresAll,
}

abbrev pub idle_device : LidarDevice ℕ
idle_device = record {
  lidar_type = 0;
  handle = 0;
  data_src = 0;
  connect_state = off;
  queue = record { storage_packet = null; rd_idx = 0; wr_idx = 0; mask = 0; size = 0 };
  imu_queue = [];
  firmware_ver = 0;
  livox_config = record {
    handle = 0;
    pcl_data_type = pos 1;
    pattern_mode = pos 0;
    blind_spot_set = pos 50;
    dual_emit_en = pos 0;
    extrinsic_param = record { roll = 0; pitch = 0; yaw = 0; x = pos 0; y = pos 0; z = pos 0 };
    set_bits = 0;
    get_bits = 0;
  };
}

abbrev pub source : Lds naturals
source = record {
  lidar_count = 32;
  lidars = replicate 32 idle_device;
  pcd_semaphore = 0;
  imu_semaphore = 0;
  cache_index = one_lidar;
  publish_freq = 10;
  data_src = 0;
  request_exit = false;
}

-- The only element of a list of copies.
element_of_copies : {A : Type 0} (n i : ℕ) (a b : A) → get_elem? (replicate n a) i ≡ some b → a ≡ b
element_of_copies zero i a b e = cc
element_of_copies (suc n) zero a b e = cc
element_of_copies (suc n) (suc i) a b e = element_of_copies n i a b e

pub source-IsValid : IsValid source
source-IsValid = record {
  devices = refl;
  counted = refl;
  indexed = one_lidar-IsValid;
  rate = omega arith;
  ready = λ i d e.
      inl (ap (λ x. x.queue.storage_packet) (sym (element_of_copies 32 i idle_device d e)));
}

abbrev pub a_packet : PointPacket ℕ
a_packet = record {
  handle = 7;
  lidar_type = livox_lidar_type;
  points_num = 1;
  points = record { x = 1; y = 2; z = 3; intensity = 4; tag = 5; line = 0; offset_time = 600 } ∷ [];
}

abbrev a_frame : PointFrame ℕ
a_frame = record {
  base_time = replicate 32 600;
  lidar_num = 1;
  lidar_point = replicate 32 a_packet;
}

a_frame-IsFrame : IsFrame a_frame
a_frame-IsFrame = record {
  times = refl;
  points = refl;
  used = omega arith;
  fits = λ i p less e. rw (← element_of_copies 32 i a_packet p e) (omega arith);
}

push_lidar_data-Stored_example :
    (s' : Lds naturals) × (push_lidar_data source a_packet 0 600 ≡ ok s')
    × Stored source 0 (pushed a_packet 600) s'
push_lidar_data-Stored_example =
    push_lidar_data-Stored source a_packet 0 600 source-IsValid (omega arith) (omega arith)

storage_point_data-StoresAll_example :
    (s' : Lds naturals) × (storage_point_data unary source a_frame ≡ ok s')
    × IsValid s'
    × StoresAll unary source (entries 1 0 a_frame) s'
storage_point_data-StoresAll_example =
    storage_point_data-StoresAll unary source a_frame source-IsValid a_frame-IsFrame
