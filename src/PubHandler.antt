-- ===== src/PubHandler.antt =====
-- `PubHandler` of comm/pub_handler.h and comm/pub_handler.cpp, of ros_ws/src/livox_ros_driver2/src:
-- the callback that queues raw packets, the thread that converts them, and the timer that hands
-- frames to the subscriber. The clock is an argument of each call, in nanoseconds; the subscriber's
-- callbacks are the frames and IMU samples that a call returns. `raw_packet_queue_` is under a
-- mutex, and all else of the state is the processing thread's.
pub mod Timer
pub mod Process
pub mod Tests
use drone_exploration_stack.Prelude.{
  ℕ, zero, suc, ◌+◌, ◌-◌, ◌*◌, ◌/◌, ◌%◌, ◌^◌, ◌≡◌, Bool, true, false, not, ◌||◌, Option, none, some,
  List, [], ◌∷◌, ◌++◌, length, set, take, drop, ltb, leb, ◌==◌, if◌then◌else◌, Outcome, ok, fault,
  null_pointer, out_of_bounds, division_by_zero, ◌>>=◌,
}
use drone_exploration_stack.Prelude.Words.{u8, u16, u32, u64, sub64}
use drone_exploration_stack.Prelude.Assoc.{find, insert, erase, nat_key}
use drone_exploration_stack.Prelude.Int.{pos}
use drone_exploration_stack.Floats.{Floats}
use drone_exploration_stack.Comm.{
  PointXyzlt, PointPacket, RawPacket, LidarExtParameter, ImuData, livox_lidar_type, imu_data,
  timestamp_type_no_sync, timestamp_type_gptp_or_ptp, timestamp_type_gps, ratio_of_ms_to_ns,
  ns_per_second, ns_tolerant_frame_time_deviation, line_number_default, line_number_mid360,
  line_number_hap,
}
use drone_exploration_stack.Raw.{little_endian, read_bytes, read_uint}
use drone_exploration_stack.Lds.{PointFrame}
use drone_exploration_stack.LidarHandler.{
  LidarPubHandler, get_lidar_base_time, get_recent_time_stamp, get_lidar_point_clouds, new_handler,
  set_lidars_ext_param, point_cloud_process,
}

-- `LivoxLidarEthernetPacket` of the SDK, with the bytes that lie from `data` on.
pub record EthernetPacket : Type 0 where
  pub length_field : ℕ
  pub time_interval : ℕ
  pub dot_num : ℕ
  pub data_type : ℕ
  pub time_type : ℕ
  pub timestamp : List ℕ
  pub payload : List ℕ

-- `sizeof(LivoxLidarEthernetPacket)`, one byte of `data` included.
abbrev pub ethernet_packet_size : ℕ
ethernet_packet_size = 37

-- `dev_type` of the SDK.
abbrev pub device_mid360 : ℕ
device_mid360 = 9

abbrev pub device_hap : ℕ
device_hap = 10

abbrev pub device_mid360s : ℕ
device_mid360s = 35

pub record PubHandler (fl : Floats) : Type 0 where
  pub is_quit : Bool
  pub has_points_callback : Bool
  pub has_imu_callback : Bool
  pub frame : PointFrame fl.Float
  pub raw_packet_queue : List RawPacket
  pub publish_interval : ℕ
  pub publish_interval_tolerance : ℕ
  pub publish_interval_ms : ℕ
  pub last_pub_time : ℕ
  pub lidar_process_handlers : List (ℕ × LidarPubHandler fl.Float)
  pub points : List (ℕ × List (PointXyzlt fl.Float))
  pub lidar_extrinsics : List (ℕ × LidarExtParameter fl.Float)
  -- The static flags `is_timestamp_sync_` and, of `CheckTimer`, `first`.
  pub is_timestamp_sync : Bool
  pub first : Bool
  -- Whether `point_process_thread_` is there.
  pub is_processing : Bool
  -- `lidar_listen_id_`, 0 for none.
  pub lidar_listen_id : ℕ

-- `GetLidarId`, with the value 0 that the callers put into `id` before.
pub get_lidar_id : ℕ → ℕ → ℕ
get_lidar_id lidar_type handle = if lidar_type == livox_lidar_type then handle else 0

-- `GetEthPacketTimestamp` of eight bytes, at the time `now`.
pub get_eth_packet_timestamp : ℕ → List ℕ → ℕ → ℕ
get_eth_packet_timestamp time_type stamp now =
    if (time_type == timestamp_type_gptp_or_ptp) || (time_type == timestamp_type_gps)
    then little_endian stamp
    else now

pub line_number : ℕ → ℕ
line_number dev_type =
    if dev_type == device_hap
    then line_number_hap
    else if (dev_type == device_mid360) || (dev_type == device_mid360s)
    then line_number_mid360
    else line_number_default

-- The packet that the callback makes of an Ethernet packet of points.
pub raw_packet : ℕ → ℕ → EthernetPacket → ℕ → Outcome RawPacket
unfolding line_number get_eth_packet_timestamp read_bytes
raw_packet handle dev_type e now = if e.dot_num == 0 then fault division_by_zero else do
  bytes ← read_bytes e.payload 0 (u32 (u64 (e.length_field + 2 ^ 64 - ethernet_packet_size) + 1))
  ok (record {
    lidar_type = livox_lidar_type;
    handle = handle;
    extrinsic_enable = false;
    point_num = e.dot_num;
    data_type = e.data_type;
    line_num = line_number dev_type;
    time_stamp = get_eth_packet_timestamp e.time_type e.timestamp now;
    point_interval = e.time_interval * 100 / e.dot_num;
    raw_data = bytes;
  })

-- The IMU sample of an Ethernet packet: six floats from `data` on.
pub imu_sample : (fl : Floats) → ℕ → EthernetPacket → ℕ → Outcome (ImuData fl.Float)
unfolding get_eth_packet_timestamp read_uint
imu_sample fl handle e now = do
  gyro_x ← read_uint e.payload 0 4
  gyro_y ← read_uint e.payload 4 4
  gyro_z ← read_uint e.payload 8 4
  acc_x ← read_uint e.payload 12 4
  acc_y ← read_uint e.payload 16 4
  acc_z ← read_uint e.payload 20 4
  ok (record {
    lidar_type = livox_lidar_type;
    handle = handle;
    slot = 0;
    time_stamp = get_eth_packet_timestamp e.time_type e.timestamp now;
    gyro_x = fl.float_of_bits gyro_x;
    gyro_y = fl.float_of_bits gyro_y;
    gyro_z = fl.float_of_bits gyro_z;
    acc_x = fl.float_of_bits acc_x;
    acc_y = fl.float_of_bits acc_y;
    acc_z = fl.float_of_bits acc_z;
  })

module _ {fl : Floats} where
  -- `OnLivoxLidarPointCloudCallback`: the state, and the sample for the IMU callback if there is one.
  pub on_livox_lidar_point_cloud_callback :
      PubHandler fl
      → ℕ
      → ℕ
      → EthernetPacket
      → ℕ
      → Outcome (PubHandler fl × Option (ImuData fl.Float))
  unfolding imu_sample raw_packet
  on_livox_lidar_point_cloud_callback p handle dev_type e now =
      let p' = record p { is_timestamp_sync = not (e.time_type == timestamp_type_no_sync) } in
      if e.data_type == imu_data
      then (if p.has_imu_callback
          then (imu_sample fl handle e now >>= λ d. ok (p', some d))
          else ok (p', none))
      else (raw_packet handle dev_type e now >>= λ r.
          ok (record p' { raw_packet_queue = p.raw_packet_queue ++ r ∷ [] }, none))

  pub request_exit : PubHandler fl → PubHandler fl
  request_exit p = record p { is_quit = true }

  -- `SetPointCloudsCallback`; the SDK has given the observer that it adds the number `listen_id`.
  pub set_point_clouds_callback : PubHandler fl → ℕ → PubHandler fl
  set_point_clouds_callback p listen_id = record p {
    has_points_callback = true;
    lidar_listen_id = u16 listen_id;
  }

  pub set_imu_data_callback : PubHandler fl → PubHandler fl
  set_imu_data_callback p = record p { has_imu_callback = true }

  -- `Uninit`: the state, and the observer that the SDK is to remove. The thread has ended once its
  -- `join` returns.
  pub uninit : PubHandler fl → PubHandler fl × Option ℕ
  unfolding request_exit
  uninit p = (
    record (request_exit p) { lidar_listen_id = 0; is_processing = false },
    if p.lidar_listen_id == 0 then none else some p.lidar_listen_id,
  )

  pub add_lidars_ext_param : PubHandler fl → LidarExtParameter fl.Float → PubHandler fl
  unfolding get_lidar_id
  add_lidars_ext_param p e = record p {
    lidar_extrinsics = insert (get_lidar_id e.lidar_type e.handle) e p.lidar_extrinsics;
  }

  pub clear_all_lidars_extrinsic_params : PubHandler fl → PubHandler fl
  clear_all_lidars_extrinsic_params p = record p { lidar_extrinsics = [] }

  -- `SetPointCloudConfig`, which starts the processing thread the first time.
  pub set_point_cloud_config : PubHandler fl → fl.Double → PubHandler fl
  set_point_cloud_config p publish_freq =
      let ten = fl.double_of (pos 10) in
      let second = fl.double_of (pos ns_per_second) in
      let interval = fl.truncate (fl.mul_d (fl.div_d second (fl.mul_d publish_freq ten)) ten) in
      record p {
        publish_interval = interval;
        publish_interval_tolerance = sub64 interval ns_tolerant_frame_time_deviation;
        publish_interval_ms = interval / ratio_of_ms_to_ns;
        is_processing = true;
      }
