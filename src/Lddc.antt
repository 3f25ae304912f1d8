-- ===== src/Lddc.antt =====
-- lddc.h and lddc.cpp of ros_ws/src/livox_ros_driver2/src, as built for ROS 1: the threads that take
-- packets and IMU samples off the devices' queues and publish them. A call returns the deliveries
-- that it makes, in order; a publisher and a bag file are ROS's, and a delivery names the slot.
pub mod Messages
pub mod Polling
pub mod Publishers
pub mod Tests
use drone_exploration_stack.Prelude.{
  ℕ, zero, suc, ◌+◌, ◌*◌, Bool, true, false, not, ◌&&◌, ◌||◌, Option, none, some, List, [], ◌∷◌,
  ◌++◌, map, length, set, ◌==◌, if◌then◌else◌, Outcome, ok, fault, ◌>>=◌,
}
use drone_exploration_stack.Prelude.Int.{pos}
use drone_exploration_stack.Floats.{Floats}
use drone_exploration_stack.Comm.{ImuData}
use drone_exploration_stack.Lds.{Lds}
use drone_exploration_stack.CacheIndex.{Text}

-- `CustomPoint`.
pub record CustomPoint (F : Type 0) : Type 0 where
  pub x : F
  pub y : F
  pub z : F
  pub reflectivity : ℕ
  pub tag : ℕ
  pub line : ℕ
  pub offset_time : ℕ

-- `CustomMsg`, with the time of its header in seconds.
pub record CustomMsg (fl : Floats) : Type 0 where
  pub frame_id : Text
  pub seq : ℕ
  pub stamp : fl.Double
  pub timebase : ℕ
  pub point_num : ℕ
  pub lidar_id : ℕ
  pub points : List (CustomPoint fl.Float)

-- `LivoxPointXyzrtlt`, a point of a `PointCloud2`.
pub record LivoxPointXyzrtlt (fl : Floats) : Type 0 where
  pub x : fl.Float
  pub y : fl.Float
  pub z : fl.Float
  pub reflectivity : fl.Float
  pub tag : ℕ
  pub line : ℕ
  pub timestamp : fl.Double

-- `PointField` of ROS, and its numbers for the types UINT8, FLOAT32 and FLOAT64.
pub record PointField : Type 0 where
  pub name : Text
  pub offset : ℕ
  pub datatype : ℕ
  pub count : ℕ

abbrev pub type_uint8 : ℕ
type_uint8 = 2

abbrev pub type_float32 : ℕ
type_float32 = 7

abbrev pub type_float64 : ℕ
type_float64 = 8

-- `PointCloud2`, with its data as the points that the bytes hold.
pub record PointCloud2 (fl : Floats) : Type 0 where
  pub frame_id : Text
  pub stamp : fl.Double
  pub height : ℕ
  pub width : ℕ
  pub fields : List PointField
  pub point_step : ℕ
  pub row_step : ℕ
  pub is_bigendian : Bool
  pub is_dense : Bool
  pub data_points : List (LivoxPointXyzrtlt fl)

-- `pcl::PointXYZI` and `pcl::PointCloud`, whose time is in microseconds.
pub record PointXyzi (F : Type 0) : Type 0 where
  pub x : F
  pub y : F
  pub z : F
  pub intensity : F

pub record PclCloud (fl : Floats) : Type 0 where
  pub frame_id : Text
  pub stamp : ℕ
  pub height : ℕ
  pub width : ℕ
  pub points : List (PointXyzi fl.Float)

-- `ImuMsg`, without its frame, the constant "livox_frame".
pub record ImuMsg (fl : Floats) : Type 0 where
  pub stamp : fl.Double
  pub angular_x : fl.Float
  pub angular_y : fl.Float
  pub angular_z : fl.Float
  pub linear_x : fl.Float
  pub linear_y : fl.Float
  pub linear_z : fl.Float

pub data Message (fl : Floats) : Type 0 where
  cloud2 : PointCloud2 fl → Message fl
  custom : CustomMsg fl → Message fl
  pcl : PclCloud fl → Message fl
  imu : ImuMsg fl → Message fl

-- What is done with a message, for which each of the functions that publish asks for the publisher
-- of a slot: it is published, written to the bag file under the publisher's topic at a time, or
-- neither. Publishers.Sending makes the requests and sends the messages.
pub data Delivery (fl : Floats) : Type 0 where
  published : ℕ → Message fl → Delivery fl
  recorded : ℕ → fl.Double → Message fl → Delivery fl
  unsent : ℕ → Message fl → Delivery fl

-- `TransferType` and `kOutputToRos`.
abbrev pub point_cloud_2_msg : ℕ
point_cloud_2_msg = 0

abbrev pub livox_custom_msg : ℕ
livox_custom_msg = 1

abbrev pub pcl_pxyzi_msg : ℕ
pcl_pxyzi_msg = 2

abbrev pub output_to_ros : ℕ
output_to_ros = 0

pub record Lddc (fl : Floats) : Type 0 where
  pub lds : Option (Lds fl)
  pub transfer_format : ℕ
  pub output_type : ℕ
  pub frame_id : Text
  pub has_bag : Bool
  pub enable_lidar_bag : Bool
  pub enable_imu_bag : Bool
  -- The static counter of `InitCustomMsg`.
  pub msg_seq : ℕ

module _ {fl : Floats} where
  -- `RegisterLds`: the return code is 0 with `true`, and -1 with `false`.
  unfoldable pub register_lds : Lddc fl → Lds fl → Bool × Lddc fl
  register_lds l s = elim l.lds [ none ↦ (true, record l { lds = some s }) | some t ↦ (false, l) ]

  -- `CreateBagFile`, which nothing calls.
  pub create_bag_file : Lddc fl → Lddc fl
  create_bag_file l = record l { has_bag = true }

  -- The end of the three functions that publish points, and of `PublishImuData`.
  pub deliver : Lddc fl → Bool → ℕ → fl.Double → Message fl → List (Delivery fl)
  deliver l enable_bag index time m =
      if l.output_type == output_to_ros
      then published index m ∷ []
      else if l.has_bag && enable_bag
      then recorded index time m ∷ []
      else unsent index m ∷ []
