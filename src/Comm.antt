-- ===== src/Comm.antt =====
-- comm/comm.h of ros_ws/src/livox_ros_driver2/src: the constants and the data that the parts of
-- the driver pass to one another. Enumerators are the numbers that the header gives them, since
-- the code stores them in `uint8_t` fields; a `uint8_t` or `uint32_t` is the number below 2 ^ 8
-- or 2 ^ 32 that it holds.
pub mod Texts
use drone_exploration_stack.Prelude.{ℕ, Bool, List}
use drone_exploration_stack.Prelude.Int.{ℤ}

-- `kMaxSourceLidar`, which is also `kMaxLidarCount` of the SDK.
abbrev pub max_source_lidar : ℕ
max_source_lidar = 32

abbrev pub ns_per_second : ℕ
ns_per_second = 1_000_000_000

abbrev pub ns_tolerant_frame_time_deviation : ℕ
ns_tolerant_frame_time_deviation = 1_000_000

abbrev pub ratio_of_ms_to_ns : ℕ
ratio_of_ms_to_ns = 1_000_000

abbrev pub line_number_default : ℕ
line_number_default = 1

abbrev pub line_number_mid360 : ℕ
line_number_mid360 = 4

abbrev pub line_number_hap : ℕ
line_number_hap = 6

-- `kLivoxLidarType` of `LidarProtoType`, the one kind of lidar that the driver handles.
abbrev pub livox_lidar_type : ℕ
livox_lidar_type = 8

-- `TimestampType`.
abbrev pub timestamp_type_no_sync : ℕ
timestamp_type_no_sync = 0

abbrev pub timestamp_type_gptp_or_ptp : ℕ
timestamp_type_gptp_or_ptp = 1

abbrev pub timestamp_type_gps : ℕ
timestamp_type_gps = 2

-- `LidarConnectState`.
pub data ConnectState : Type 0 where
  off on config sampling : ConnectState

-- `LivoxLidarConfigCodeBit`.
abbrev pub config_data_type : ℕ
config_data_type = 1

abbrev pub config_scan_pattern : ℕ
config_scan_pattern = 2

abbrev pub config_blind_spot : ℕ
config_blind_spot = 4

abbrev pub config_dual_emit : ℕ
config_dual_emit = 8

-- `LivoxLidarPointDataType` of the SDK.
abbrev pub imu_data : ℕ
imu_data = 0

abbrev pub cartesian_high_data : ℕ
cartesian_high_data = 1

abbrev pub cartesian_low_data : ℕ
cartesian_low_data = 2

abbrev pub spherical_data : ℕ
spherical_data = 3

-- `PointXyzlt`, over the type of `float`.
pub record PointXyzlt (F : Type 0) : Type 0 where
  pub x : F
  pub y : F
  pub z : F
  pub intensity : F
  pub tag : ℕ
  pub line : ℕ
  pub offset_time : ℕ

-- `PointPacket`: the pointer and its count are the list of the points that they delimit.
pub record PointPacket (F : Type 0) : Type 0 where
  pub handle : ℕ
  pub lidar_type : ℕ
  pub points_num : ℕ
  pub points : List (PointXyzlt F)

-- `StoragePacket`.
pub record StoragePacket (F : Type 0) : Type 0 where
  pub lidar_type : ℕ
  pub handle : ℕ
  pub base_time : ℕ
  pub points_num : ℕ
  pub points : List (PointXyzlt F)

-- `RawPacket`.
pub record RawPacket : Type 0 where
  pub lidar_type : ℕ
  pub handle : ℕ
  pub extrinsic_enable : Bool
  pub point_num : ℕ
  pub data_type : ℕ
  pub line_num : ℕ
  pub time_stamp : ℕ
  pub point_interval : ℕ
  pub raw_data : List ℕ

-- `ExtParameter`: angles in degrees, a translation in millimetres.
pub record ExtParameter (F : Type 0) : Type 0 where
  pub roll : F
  pub pitch : F
  pub yaw : F
  pub x : ℤ
  pub y : ℤ
  pub z : ℤ

-- `LidarExtParameter`.
pub record LidarExtParameter (F : Type 0) : Type 0 where
  pub lidar_type : ℕ
  pub handle : ℕ
  pub param : ExtParameter F

-- `UserLivoxLidarConfig`.
pub record UserLivoxLidarConfig (F : Type 0) : Type 0 where
  pub handle : ℕ
  pub pcl_data_type : ℤ
  pub pattern_mode : ℤ
  pub blind_spot_set : ℤ
  pub dual_emit_en : ℤ
  pub extrinsic_param : ExtParameter F
  pub set_bits : ℕ
  pub get_bits : ℕ

-- `ImuData` of comm/lidar_imu_data_queue.h.
pub record ImuData (F : Type 0) : Type 0 where
  pub lidar_type : ℕ
  pub handle : ℕ
  pub slot : ℕ
  pub time_stamp : ℕ
  pub gyro_x : F
  pub gyro_y : F
  pub gyro_z : F
  pub acc_x : F
  pub acc_y : F
  pub acc_z : F
