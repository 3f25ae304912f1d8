-- ===== src/Lddc/Messages.antt =====
-- The messages that lddc.cpp of ros_ws/src/livox_ros_driver2/src makes of a packet or a sample.
use drone_exploration_stack.Prelude.{
  ℕ, ◌*◌, true, false, List, [], ◌∷◌, ◌++◌, map, ◌==◌, if◌then◌else◌, Outcome, ok, ◌>>=◌,
}
use drone_exploration_stack.Prelude.Words.{u8, u32, sub64}
use drone_exploration_stack.Prelude.Int.{pos}
use drone_exploration_stack.Floats.{Floats}
use drone_exploration_stack.Comm.{PointXyzlt, StoragePacket, ImuData, livox_lidar_type}
use drone_exploration_stack.CacheIndex.{Text}
use drone_exploration_stack.Ldq.{copy_points}
use drone_exploration_stack.Lds.{LidarDevice}
use drone_exploration_stack.Lddc.{
  PointField, type_uint8, type_float32, type_float64, CustomPoint, CustomMsg, LivoxPointXyzrtlt,
  PointCloud2, PointXyzi, PclCloud, ImuMsg,
}

-- The fields that `InitPointcloud2MsgHeader` gives a message.
pub header_fields : List PointField
header_fields =
    record { name = b'x' ∷ []; offset = 0; datatype = type_float32; count = 1 }
    ∷ record { name = b'y' ∷ []; offset = 4; datatype = type_float32; count = 1 }
    ∷ record { name = b'z' ∷ []; offset = 8; datatype = type_float32; count = 1 }
    ∷ record {
      name = b'i' ∷ b'n' ∷ b't' ∷ b'e' ∷ b'n' ∷ b's' ∷ b'i' ∷ b't' ∷ b'y' ∷ [];
      offset = 12;
      datatype = type_float32;
      count = 1;
    }
    ∷ record { name = b't' ∷ b'a' ∷ b'g' ∷ []; offset = 16; datatype = type_uint8; count = 1 }
    ∷ record {
      name = b'l' ∷ b'i' ∷ b'n' ∷ b'e' ∷ [];
      offset = 17;
      datatype = type_uint8;
      count = 1;
    }
    ∷ record {
      name = b't' ∷ b'i' ∷ b'm' ∷ b'e' ∷ b's' ∷ b't' ∷ b'a' ∷ b'm' ∷ b'p' ∷ [];
      offset = 18;
      datatype = type_float64;
      count = 1;
    }
    ∷ []

-- `sizeof(LivoxPointXyzrtlt)`.
abbrev pub point_size : ℕ
point_size = 26

module _ (fl : Floats) where
  open fl use {Float, Double, double_of, div_d, decimal, truncate, truncate_f}

  -- `timestamp / 1000000000.0`.
  unfoldable pub seconds : ℕ → Double
  seconds timestamp = div_d (double_of (pos timestamp)) (decimal 10000000000 1)

  unfoldable pub timestamp_of : StoragePacket Float → ℕ
  timestamp_of pkg = elim pkg.points [ [] ↦ 0 | p ∷ ps ↦ pkg.base_time ]

  -- `InitCustomMsg`, for a packet of device `lidar`, with the counter `seq`. The message has a `uint8`
  -- for `lidar_id` (msg/CustomMsg.msg), which takes the low byte of the handle.
  unfoldable pub init_custom_msg : Text → ℕ → LidarDevice Float → StoragePacket Float → CustomMsg fl
  unfolding seconds timestamp_of
  init_custom_msg frame_id seq lidar pkg = record {
    frame_id = frame_id;
    seq = seq;
    stamp = seconds (timestamp_of pkg);
    timebase = timestamp_of pkg;
    point_num = pkg.points_num;
    lidar_id = if lidar.lidar_type == livox_lidar_type then u8 lidar.handle else 0;
    points = [];
  }

  unfoldable pub custom_point : ℕ → PointXyzlt Float → CustomPoint Float
  custom_point base_time p = record {
    x = p.x;
    y = p.y;
    z = p.z;
    reflectivity = truncate_f p.intensity;
    tag = p.tag;
    line = p.line;
    offset_time = u32 (sub64 p.offset_time base_time);
  }

  -- The loop reads the first `points_num` points.
  unfoldable pub fill_points_to_custom_msg :
      CustomMsg fl → StoragePacket Float → Outcome (CustomMsg fl)
  unfolding custom_point
  fill_points_to_custom_msg m pkg = do
    points ← copy_points pkg.points_num pkg.points
    ok (record m { points = m.points ++ map (custom_point pkg.base_time) points })

  pub xyzrtlt_point : PointXyzlt Float → LivoxPointXyzrtlt fl
  xyzrtlt_point p = record {
    x = p.x;
    y = p.y;
    z = p.z;
    reflectivity = p.intensity;
    tag = p.tag;
    line = p.line;
    timestamp = double_of (pos p.offset_time);
  }

  -- `InitPointcloud2Msg`.
  unfoldable pub init_pointcloud2_msg : Text → StoragePacket Float → Outcome (PointCloud2 fl)
  unfolding seconds timestamp_of xyzrtlt_point header_fields
  init_pointcloud2_msg frame_id pkg = do
    points ← copy_points pkg.points_num pkg.points
    ok (record {
      frame_id = frame_id;
      stamp = seconds (timestamp_of pkg);
      height = 1;
      width = pkg.points_num;
      fields = header_fields;
      point_step = point_size;
      row_step = u32 (pkg.points_num * point_size);
      is_bigendian = false;
      is_dense = true;
      data_points = map xyzrtlt_point points;
    })

  pub xyzi_point : PointXyzlt Float → PointXyzi Float
  xyzi_point p = record { x = p.x; y = p.y; z = p.z; intensity = p.intensity }

  -- `InitPclMsg` and `FillPointsToPclMsg`.
  unfoldable pub init_pcl_msg : Text → StoragePacket Float → PclCloud fl
  unfolding timestamp_of
  init_pcl_msg frame_id pkg = record {
    frame_id = frame_id;
    stamp = truncate (div_d (double_of (pos (timestamp_of pkg))) (decimal 10000 1));
    height = 1;
    width = pkg.points_num;
    points = [];
  }

  unfoldable pub fill_points_to_pcl_msg : StoragePacket Float → PclCloud fl → Outcome (PclCloud fl)
  unfolding xyzi_point
  fill_points_to_pcl_msg pkg m = do
    points ← copy_points pkg.points_num pkg.points
    ok (record m { points = m.points ++ map xyzi_point points })

  unfoldable pub init_imu_msg : ImuData Float → ImuMsg fl
  unfolding seconds
  init_imu_msg d = record {
    stamp = seconds d.time_stamp;
    angular_x = d.gyro_x;
    angular_y = d.gyro_y;
    angular_z = d.gyro_z;
    linear_x = d.acc_x;
    linear_y = d.acc_y;
    linear_z = d.acc_z;
  }
