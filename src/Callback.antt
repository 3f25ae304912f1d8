-- ===== src/Callback.antt =====
-- call_back/livox_lidar_callback.cpp and call_back/lidar_common_callback.cpp of
-- ros_ws/src/livox_ros_driver2/src: what the driver does when the SDK reports a lidar, and when a lidar
-- answers a command. A call returns the state and the commands that it gives to the SDK, in order;
-- `client_data` is the registered object. Each update of a device stands under `config_mutex_`.
pub mod Settings
pub mod Sampling
pub mod Frame
mod Tests
use drone_exploration_stack.Prelude.{
  ℕ, zero, suc, ◌-◌, ◌^◌, bit_and, bit_or, Bool, true, false, not, Option, none, some, List, [],
  ◌∷◌, ◌++◌, set, ◌==◌, if◌then◌else◌, Outcome, ok, ◌>>=◌,
}
use drone_exploration_stack.Prelude.Words.{u32}
use drone_exploration_stack.Prelude.Int.{ℤ, pos, negsuc, pattern_of}
use drone_exploration_stack.Floats.{Floats}
use drone_exploration_stack.Comm.{
  ConnectState, sampling, ExtParameter, UserLivoxLidarConfig, ImuData, livox_lidar_type,
  config_data_type, config_scan_pattern, config_blind_spot, config_dual_emit,
}
use drone_exploration_stack.CacheIndex.{Text, get_index, get_free_index}
use drone_exploration_stack.Lds.{
  Lds, LidarDevice, PointFrame, element_at, storage_point_data, storage_imu_data,
}

-- The settings that `set_bits` keeps track of.
pub data Setting : Type 0 where
  data_type scan_pattern blind_spot dual_emit : Setting

-- `livox_status`, as far as the callbacks tell it apart.
pub data Status : Type 0 where
  success timeout failure : Status

-- The calls of the SDK.
pub data Command (F : Type 0) : Type 0 where
  set_pcl_data_type : ℕ → ℤ → Command F
  set_scan_pattern : ℕ → ℤ → Command F
  set_blind_spot : ℕ → ℕ → Command F
  set_dual_emit : ℕ → Bool → Command F
  set_install_attitude : ℕ → ExtParameter F → Command F
  set_work_mode_normal : ℕ → Command F
  enable_imu_data : ℕ → Command F

-- `config.… != -1`.
abbrev pub is_chosen : ℤ → Bool
is_chosen (pos n) = true
is_chosen (negsuc zero) = false
is_chosen (negsuc (suc n)) = true

-- `config.dual_emit_en == 0 ? false : true`.
pub is_on : ℤ → Bool
is_on (pos n) = not (n == 0)
is_on (negsuc n) = true

pub bit_of : Setting → ℕ
bit_of data_type = config_data_type
bit_of scan_pattern = config_scan_pattern
bit_of blind_spot = config_blind_spot
bit_of dual_emit = config_dual_emit

-- `set_bits &= ~(uint32_t)(bit)`.
pub clear_bit : ℕ → Setting → ℕ
unfolding bit_of
clear_bit bits s = bit_and bits (2 ^ 32 - 1 - bit_of s)

module _ {F : Type 0} where
  pub value_of : UserLivoxLidarConfig F → Setting → ℤ
  value_of c data_type = c.pcl_data_type
  value_of c scan_pattern = c.pattern_mode
  value_of c blind_spot = c.blind_spot_set
  value_of c dual_emit = c.dual_emit_en

  pub command_for : ℕ → UserLivoxLidarConfig F → Setting → Command F
  unfolding is_on
  command_for handle c data_type = set_pcl_data_type handle c.pcl_data_type
  command_for handle c scan_pattern = set_scan_pattern handle c.pattern_mode
  command_for handle c blind_spot = set_blind_spot handle (pattern_of 32 c.blind_spot_set)
  command_for handle c dual_emit = set_dual_emit handle (is_on c.dual_emit_en)

  -- One of the four tests of `LidarInfoChangeCallback`: the bits and the commands after it.
  pub request : ℕ → UserLivoxLidarConfig F → Setting → ℕ × List (Command F) → ℕ × List (Command F)
  unfolding value_of command_for bit_of
  request handle c s (bits, commands) =
      if is_chosen (value_of c s)
      then (bit_or bits (bit_of s), commands ++ command_for handle c s ∷ [])
      else (bits, commands)

  -- The four tests in their order.
  pub requests : ℕ → UserLivoxLidarConfig F → ℕ × List (Command F)
  unfolding request
  requests handle c = request handle c dual_emit (
      request handle c blind_spot
        (request handle c scan_pattern (request handle c data_type (c.set_bits, []))))

  -- A successful answer to a setting: the bit goes, and with the last one the lidar is sampling.
  unfoldable pub answered : Setting → LidarDevice F → LidarDevice F
  unfolding clear_bit
  answered s d =
      let bits = clear_bit d.livox_config.set_bits s in
      record d {
        livox_config = record d.livox_config { set_bits = bits };
        connect_state = if bits == 0 then sampling else d.connect_state;
      }

  -- `WorkModeChangedCallback`: a failed change is tried again.
  pub work_mode_changed_callback : Status → ℕ → List (Command F)
  work_mode_changed_callback success handle = []
  work_mode_changed_callback timeout handle = set_work_mode_normal handle ∷ []
  work_mode_changed_callback failure handle = set_work_mode_normal handle ∷ []

  attitude_again : LidarDevice F → Status → List (Command F)
  attitude_again d success = []
  attitude_again d timeout =
      set_install_attitude d.livox_config.handle d.livox_config.extrinsic_param ∷ []
  attitude_again d failure = []

module _ {fl : Floats} (to_string : ℕ → Text) where
  -- `GetLidarDevice`, as the slot of the device.
  pub get_lidar_device : Lds fl → ℕ → Option ℕ
  get_lidar_device s handle = get_index to_string s.cache_index livox_lidar_type handle

  -- A lidar that the configuration does not name is given a slot.
  pub add_device : Lds fl → ℕ → Outcome (Lds fl × List (Command fl.Float))
  add_device s handle =
      let (found, cache) = get_free_index to_string s.cache_index livox_lidar_type handle in
      let s' = record s { cache_index = cache } in
      elim found [
        | none ↦ ok (s', [])
        | some i ↦ do
          d ← element_at s'.lidars i
          ok (
            record s' { lidars = set s'.lidars i (record d { lidar_type = livox_lidar_type }) },
            set_work_mode_normal handle ∷ enable_imu_data handle ∷ [],
          )
      ]

  -- A lidar with a slot is sent the settings of its configuration.
  pub configure_device : Lds fl → ℕ → ℕ → Outcome (Lds fl × List (Command fl.Float))
  unfolding requests
  configure_device s i handle = do
    d ← element_at s.lidars i
    let (bits, commands) = requests handle d.livox_config
    ok (
      record s {
        lidars =
            set s.lidars i (record d { livox_config = record d.livox_config { set_bits = bits } });
      },
      commands
          ++ set_install_attitude d.livox_config.handle d.livox_config.extrinsic_param
            ∷ set_work_mode_normal handle
            ∷ enable_imu_data handle
            ∷ [],
    )

  pub lidar_info_change_callback : Lds fl → ℕ → Outcome (Lds fl × List (Command fl.Float))
  unfolding get_lidar_device add_device configure_device
  lidar_info_change_callback s handle = elim (get_lidar_device s handle) [
    | none ↦ add_device s handle
    | some i ↦ configure_device s i handle
  ]

  -- What a callback of a setting does with the device in a slot: a timeout sends the command again,
  -- another failure is only reported.
  pub setting_answer :
      Setting → Status → Lds fl → ℕ → ℕ → Outcome (Lds fl × List (Command fl.Float))
  unfolding answered command_for
  setting_answer t success s handle i = do
    d ← element_at s.lidars i
    ok (record s { lidars = set s.lidars i (answered t d) }, [])
  setting_answer t timeout s handle i = do
    d ← element_at s.lidars i
    ok (s, command_for handle d.livox_config t ∷ [])
  setting_answer t failure s handle i = ok (s, [])

  -- `SetDataTypeCallback`, `SetPatternModeCallback`, `SetBlindSpotCallback` and
  -- `SetDualEmitCallback`, which differ in the setting.
  pub setting_callback : Setting → Status → Lds fl → ℕ → Outcome (Lds fl × List (Command fl.Float))
  unfolding get_lidar_device setting_answer
  setting_callback t status s handle = elim (get_lidar_device s handle) [
    | none ↦ ok (s, [])
    | some i ↦ setting_answer t status s handle i
  ]

  pub set_attitude_callback : Status → Lds fl → ℕ → Outcome (List (Command fl.Float))
  unfolding get_lidar_device attitude_again
  set_attitude_callback status s handle = elim (get_lidar_device s handle) [
    | none ↦ ok []
    | some i ↦ element_at s.lidars i >>= λ d. ok (attitude_again d status)
  ]

  -- `EnableLivoxLidarImuDataCallback`; without a response nothing is done.
  pub enable_imu_callback : Status → Bool → Lds fl → ℕ → List (Command fl.Float)
  unfolding get_lidar_device
  enable_imu_callback success has_response s handle = []
  enable_imu_callback failure has_response s handle = []
  enable_imu_callback timeout has_response s handle = elim (get_lidar_device s handle) [
    | none ↦ []
    | some i ↦ if has_response then enable_imu_data handle ∷ [] else []
  ]

  -- `OnLidarPointClounCb` and `LidarImuDataCallback` of lidar_common_callback.cpp.
  pub on_lidar_point_cloud_callback : Lds fl → PointFrame fl.Float → Outcome (Lds fl)
  on_lidar_point_cloud_callback s frame =
      if frame.lidar_num == 0 then ok s else storage_point_data to_string s frame

  pub lidar_imu_data_callback : Lds fl → ImuData fl.Float → Outcome (Lds fl)
  lidar_imu_data_callback s d = storage_imu_data to_string s d
