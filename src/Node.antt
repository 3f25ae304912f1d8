-- ===== src/Node.antt =====
-- livox_ros_driver2.cpp and driver_node.cpp of ros_ws/src/livox_ros_driver2/src, as built for ROS 1:
-- the start of the node, its two threads, and its end. What ROS answers for a parameter is an
-- argument, `none` where it is not set; the 3 seconds that a thread sleeps first are left out.
pub mod Exit
pub mod Start
use drone_exploration_stack.Prelude.{
  ℕ, ◌==◌, Bool, true, false, Option, none, some, List, [], ◌∷◌, ◌++◌, replicate, if◌then◌else◌,
  Outcome, ok, fault, null_pointer, ◌>>=◌,
}
use drone_exploration_stack.Prelude.Int.{ℤ, pos, negsuc, pattern_of}
use drone_exploration_stack.Floats.{Floats}
use drone_exploration_stack.Comm.{max_source_lidar, off}
use drone_exploration_stack.Semaphore
use drone_exploration_stack.Ldq.{null}
use drone_exploration_stack.CacheIndex.{Text}
use drone_exploration_stack.CacheIndex
use drone_exploration_stack.Config.{Json, File}
use drone_exploration_stack.PubHandler.{PubHandler}
use drone_exploration_stack.Lds.{Lds, LidarDevice, reset_lds, request_exit}
use drone_exploration_stack.LdsLidar.{LdsLidar, init_lds_lidar}
use drone_exploration_stack.Lddc.{Lddc, Delivery, register_lds}
use drone_exploration_stack.Lddc.Publishers.{Publishers, no_publishers}
use drone_exploration_stack.Lddc.Polling.{
  distribute_from, distribute_point_cloud_data, distribute_imu_from, distribute_imu_data,
}

-- The parameters that `main` asks for.
pub record Params (fl : Floats) : Type 0 where
  pub xfer_format : Option ℤ
  pub multi_topic : Option ℤ
  pub data_src : Option ℤ
  pub publish_freq : Option fl.Double
  pub output_data_type : Option ℤ
  pub frame_id : Option Text
  pub enable_lidar_bag : Option Bool
  pub enable_imu_bag : Option Bool

-- `getParam` leaves the default where the parameter is not set.
pub get_param : {A : Type 0} → Option A → A → A
get_param none default = default
get_param (some a) default = a

-- "livox_frame"
abbrev pub livox_frame : Text
livox_frame = b'l' ∷ b'i' ∷ b'v' ∷ b'o' ∷ b'x' ∷ b'_' ∷ b'f' ∷ b'r' ∷ b'a' ∷ b'm' ∷ b'e' ∷ []

-- The frame rate in Hz, kept from 0.5 to 100.
pub limit_freq : (fl : Floats) → fl.Double → fl.Double
limit_freq fl f =
    if fl.greater f (fl.decimal 1000 1)
    then fl.decimal 1000 1
    else if fl.greater (fl.decimal 5 1) f
    then fl.decimal 5 1
    else f

is_raw_lidar : ℤ → Bool
is_raw_lidar (pos n) = n == 0
is_raw_lidar (negsuc n) = false

-- A device in zeroed static storage.
blank_device : (fl : Floats) → LidarDevice fl.Float
blank_device fl =
    let zero' = fl.float_of (pos 0) in
    record {
      lidar_type = 0;
      handle = 0;
      data_src = 0;
      connect_state = off;
      queue = record { storage_packet = null; rd_idx = 0; wr_idx = 0; mask = 0; size = 0 };
      imu_queue = [];
      firmware_ver = 0;
      livox_config = record {
        handle = 0;
        pcl_data_type = pos 0;
        pattern_mode = pos 0;
        blind_spot_set = pos 0;
        dual_emit_en = pos 0;
        extrinsic_param = record {
          roll = zero';
          pitch = zero';
          yaw = zero';
          x = pos 0;
          y = pos 0;
          z = pos 0;
        };
        set_bits = 0;
        get_bits = 0;
      };
    }

module _ (fl : Floats) where
  -- The constructor of `Lddc`, which narrows its arguments to `uint8_t`.
  pub new_lddc : ℤ → ℤ → Text → Bool → Bool → Lddc fl
  new_lddc format output_type frame_id lidar_bag imu_bag = record {
    lds = none;
    transfer_format = pattern_of 8 format;
    output_type = pattern_of 8 output_type;
    frame_id = frame_id;
    has_bag = false;
    enable_lidar_bag = lidar_bag;
    enable_imu_bag = imu_bag;
    msg_seq = 0;
  }

  -- The instance of `Lds` in static storage, with its members as the constructor sets them.
  static_lds : fl.Double → ℕ → Lds fl
  unfolding blank_device
  static_lds publish_freq data_src = record {
    lidar_count = max_source_lidar;
    lidars = replicate max_source_lidar (blank_device fl);
    pcd_semaphore = 0;
    imu_semaphore = 0;
    cache_index = CacheIndex.init;
    publish_freq = publish_freq;
    data_src = data_src;
    request_exit = false;
  }

  -- The constructor of `Lds`.
  pub new_lds : fl.Double → ℕ → Outcome (Lds fl)
  unfolding static_lds
  new_lds publish_freq data_src = reset_lds (static_lds publish_freq data_src) data_src

  -- `LdsLidar::GetInstance`, at its first call, which resets the devices once more.
  pub get_instance : fl.Double → PubHandler fl → Outcome (LdsLidar fl)
  unfolding new_lds
  get_instance publish_freq handler = do
    s ← new_lds publish_freq 0
    s' ← reset_lds s 0
    ok (record { lds = s'; pub_handler = handler; lidar_type = 0; is_initialized = false })

-- The node once it runs: the distributor, with the source that it shares, and the publishers.
pub record Node (fl : Floats) : Type 0 where
  pub lddc : Lddc fl
  pub publishers : Publishers
  pub lidars : Option (LdsLidar fl)

module _ (fl : Floats) (to_string : ℕ → Text) (json : Json fl.Float) where
  -- `main` up to the start of the threads, where the SDK gives its observer of points the number `listen_id`. The source is registered before it is set up, so the
  -- distributor has it as the set-up leaves it, also where the set-up fails.
  pub start_node : Params fl → PubHandler fl → File json.Value → Bool → ℕ → Outcome (Node fl)
  unfolding get_param limit_freq is_raw_lidar new_lddc get_instance
  start_node params handler file sdk_init listen_id =
      let publish_freq = limit_freq fl (get_param params.publish_freq (fl.decimal 100 1)) in
      let multi =
        if pattern_of 8 (get_param params.multi_topic (pos 0)) == 0 then false else true in
      let l =
        new_lddc fl (get_param params.xfer_format (pos 0))
          (get_param params.output_data_type (pos 0)) (get_param params.frame_id livox_frame)
          (get_param params.enable_lidar_bag true) (get_param params.enable_imu_bag false) in
      if is_raw_lidar (get_param params.data_src (pos 0))
      then (do
        read_lidar ← get_instance fl publish_freq handler
        (ready, filled) ← init_lds_lidar to_string json read_lidar file sdk_init listen_id
        ok (record {
          lddc = (register_lds l filled.lds).1;
          publishers = no_publishers multi;
          lidars = some filled;
        }))
      else ok (record { lddc = l; publishers = no_publishers multi; lidars = none })

-- Where a polling thread stands: before a round, in `Wait`, or at its end.
pub data Thread : Type 0 where
  at_round : Thread
  waiting : Thread
  finished : Thread

-- `while (status == timeout)`: the thread goes on until the exit is signalled.
pub after_round : Bool → Thread
after_round signalled = if signalled then finished else at_round

module _ {fl : Floats} where
  -- What one step of `PointCloudDataPollThread` does; `signalled` says that `exit_signal_` is set.
  -- A thread that waits goes on when the semaphore is above 0, and does not test the exit again.
  pub point_cloud_data_poll_thread :
      Bool → Thread → Lddc fl → Outcome (Thread × Lddc fl × List (Delivery fl))
  unfolding after_round Semaphore.wait
  point_cloud_data_poll_thread signalled finished l = ok (finished, l, [])
  point_cloud_data_poll_thread signalled at_round l = elim (distribute_point_cloud_data l) [
    | none ↦ ok (waiting, l, [])
    | some r ↦ (r >>= λ done. ok (after_round signalled, done.0, done.1))
  ]
  point_cloud_data_poll_thread signalled waiting l = elim l.lds [
    | none ↦ fault null_pointer
    | some s ↦ elim (Semaphore.wait s.pcd_semaphore) [
      | none ↦ ok (waiting, l, [])
      | some count ↦
          (distribute_from s.lidar_count 0 l (record s { pcd_semaphore = count }) >>= λ r.
          ok (after_round signalled, record r.0 { lds = some r.1 }, r.2))
    ]
  ]

  pub imu_data_poll_thread :
      Bool → Thread → Lddc fl → Outcome (Thread × Lddc fl × List (Delivery fl))
  unfolding after_round Semaphore.wait
  imu_data_poll_thread signalled finished l = ok (finished, l, [])
  imu_data_poll_thread signalled at_round l = elim (distribute_imu_data l) [
    | none ↦ ok (waiting, l, [])
    | some r ↦ (r >>= λ done. ok (after_round signalled, done.0, done.1))
  ]
  imu_data_poll_thread signalled waiting l = elim l.lds [
    | none ↦ fault null_pointer
    | some s ↦ elim (Semaphore.wait s.imu_semaphore) [
      | none ↦ ok (waiting, l, [])
      | some count ↦
          (distribute_imu_from s.lidar_count 0 l (record s { imu_semaphore = count }) >>= λ r.
          ok (after_round signalled, record l { lds = some r.0 }, r.1))
    ]
  ]

  -- `~DriverNode` up to the joins: the exit is requested of the source, and then signalled.
  pub request_node_exit : Lddc fl → Outcome (Lddc fl)
  request_node_exit l = elim l.lds [
    | none ↦ fault null_pointer
    | some s ↦ ok (record l { lds = some (request_exit s) })
  ]
