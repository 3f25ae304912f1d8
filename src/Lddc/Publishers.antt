-- ===== src/Lddc/Publishers.antt =====
-- The publishers of lddc.cpp of ros_ws/src/livox_ros_driver2/src, as built for ROS 1: made on first
-- use, one for each slot or one for all lidars. `IpNumToString` rests on the C library's `inet_ntoa`,
-- and is a parameter.
pub mod Topics
pub mod Table
pub mod Closing
pub mod Newly
pub mod Owned
pub mod Kept
pub mod Sending
pub mod Pass
mod Tests
use drone_exploration_stack.Prelude.{
  ℕ, ◌*◌, ◌/◌, Bool, true, false, Option, none, some, List, [], ◌∷◌, ◌++◌, take, set, replicate,
  ◌==◌, if◌then◌else◌, Outcome, ok, fault, null_pointer, ◌>>=◌,
}
use drone_exploration_stack.Floats.{Floats}
use drone_exploration_stack.Comm.{max_source_lidar}
use drone_exploration_stack.Comm.Texts.{replace_period_by_underline}
use drone_exploration_stack.CacheIndex.{Text}
use drone_exploration_stack.Lds.{Lds, element_at}
use drone_exploration_stack.Lddc.{point_cloud_2_msg, livox_custom_msg, pcl_pxyzi_msg}

-- `ros::Publisher`: as `new` makes it, or advertised with a type of message (the `TransferType`), a
-- topic and a queue size.
pub data Publisher : Type 0 where
  unadvertised : Publisher
  advertised : ℕ → Text → ℕ → Publisher

-- The members of `Lddc` that hold publishers, with null as `none`, and `use_multi_topic_`.
pub record Publishers : Type 0 where
  pub use_multi_topic : Bool
  pub private_pub : List (Option Publisher)
  pub global_pub : Option Publisher
  pub private_imu_pub : List (Option Publisher)
  pub global_imu_pub : Option Publisher

-- What the constructor makes of them.
pub no_publishers : Bool → Publishers
no_publishers use_multi_topic = record {
  use_multi_topic = use_multi_topic;
  private_pub = replicate max_source_lidar none;
  global_pub = none;
  private_imu_pub = replicate max_source_lidar none;
  global_imu_pub = none;
}

abbrev pub min_eth_packet_queue_size : ℕ
min_eth_packet_queue_size = 32

abbrev pub livox_imu_msg : ℕ
livox_imu_msg = 3

-- "livox/lidar" and "livox/imu"
abbrev pub lidar_topic : Text
lidar_topic = b'l' ∷ b'i' ∷ b'v' ∷ b'o' ∷ b'x' ∷ b'/' ∷ b'l' ∷ b'i' ∷ b'd' ∷ b'a' ∷ b'r' ∷ []

abbrev pub imu_topic : Text
imu_topic = b'l' ∷ b'i' ∷ b'v' ∷ b'o' ∷ b'x' ∷ b'/' ∷ b'i' ∷ b'm' ∷ b'u' ∷ []

-- `snprintf` into an array of 48 characters, the last of which is 0.
pub print_name : Text → Text
print_name text = take 47 text

-- The types that `GetCurrentPublisher` advertises.
pub advertise : ℕ → Text → ℕ → Publisher
advertise transfer_format topic queue_size =
    if transfer_format == point_cloud_2_msg
    then advertised point_cloud_2_msg topic queue_size
    else if transfer_format == livox_custom_msg
    then advertised livox_custom_msg topic queue_size
    else if transfer_format == pcl_pxyzi_msg
    then advertised pcl_pxyzi_msg topic queue_size
    else unadvertised

-- `if (*pub == nullptr) *pub = ...; return *pub`: what is there, or what is made.
pub kept_or_made : Option Publisher → Outcome Publisher → Outcome Publisher
kept_or_made none made = made
kept_or_made (some p) made = ok p

module _ {fl : Floats} (ip_num_to_string : ℕ → Text) where
  -- The name of a lidar's own topic; `lds_` may be null.
  pub own_topic : Text → Option (Lds fl) → ℕ → Outcome Text
  unfolding print_name
  own_topic prefix none index = fault null_pointer
  own_topic prefix (some s) index = do
    lidar ← element_at s.lidars index
    ok (print_name (prefix ++ b'_' ∷ replace_period_by_underline (ip_num_to_string lidar.handle)))

  pub get_current_publisher :
      ℕ → Option (Lds fl) → Publishers → ℕ → Outcome (Publisher × Publishers)
  unfolding own_topic advertise kept_or_made
  get_current_publisher transfer_format lds ps index =
      if ps.use_multi_topic
      then (do
        current ← element_at ps.private_pub index
        p ← kept_or_made current (
            own_topic lidar_topic lds index >>= λ topic.
            ok (advertise transfer_format topic (min_eth_packet_queue_size / 8)))
        ok (p, record ps { private_pub = set ps.private_pub index (some p) }))
      else (do
        p ←
            kept_or_made ps.global_pub
              (ok (advertise transfer_format lidar_topic (min_eth_packet_queue_size * 8)))
        ok (p, record ps { global_pub = some p }))

  pub get_current_imu_publisher :
      Option (Lds fl) → Publishers → ℕ → Outcome (Publisher × Publishers)
  unfolding own_topic kept_or_made
  get_current_imu_publisher lds ps handle =
      if ps.use_multi_topic
      then (do
        current ← element_at ps.private_imu_pub handle
        p ← kept_or_made current (
            own_topic imu_topic lds handle >>= λ topic.
            ok (advertised livox_imu_msg topic (min_eth_packet_queue_size * 2)))
        ok (p, record ps { private_imu_pub = set ps.private_imu_pub handle (some p) }))
      else (do
        p ←
            kept_or_made ps.global_imu_pub
              (ok (advertised livox_imu_msg imu_topic (min_eth_packet_queue_size * 8)))
        ok (p, record ps { global_imu_pub = some p }))
