-- ===== src/LdsLidar.antt =====
-- lds_lidar.h and lds_lidar.cpp of ros_ws/src/livox_ros_driver2/src: the set-up of the data source from
-- the configuration. What the SDK's initialisation answers is an argument.
pub mod Slots
pub mod SetUp
mod Tests
use drone_exploration_stack.Prelude.{
  ℕ, bit_and, Bool, true, false, none, some, List, [], ◌∷◌, set, ◌==◌, if◌then◌else◌, Outcome, ok,
  ◌>>=◌,
}
use drone_exploration_stack.Prelude.Int.{ℤ, pos, negsuc, quot}
use drone_exploration_stack.Floats.{Floats}
use drone_exploration_stack.Comm.{
  LidarExtParameter, UserLivoxLidarConfig, livox_lidar_type, cartesian_low_data,
}
use drone_exploration_stack.CacheIndex.{Text, get_free_index}
use drone_exploration_stack.Lds.{Lds, element_at}
use drone_exploration_stack.PubHandler.{
  PubHandler, add_lidars_ext_param, set_point_cloud_config, set_point_clouds_callback,
  set_imu_data_callback,
}
use drone_exploration_stack.Config.{Json, File, parse, parse_summary_info}

-- `LdsLidar`, with the object `pub_handler()` that it feeds.
pub record LdsLidar (fl : Floats) : Type 0 where
  pub lds : Lds fl
  pub pub_handler : PubHandler fl
  pub lidar_type : ℕ
  pub is_initialized : Bool

is_low : ℤ → Bool
is_low (pos n) = n == cartesian_low_data
is_low (negsuc n) = false

-- For the low-resolution points, in centimetres, the translation is divided by 10.
pub ext_parameter_for : {F : Type 0} → UserLivoxLidarConfig F → LidarExtParameter F
unfolding is_low
ext_parameter_for config = record {
  lidar_type = livox_lidar_type;
  handle = config.handle;
  param =
      if is_low config.pcl_data_type
      then record config.extrinsic_param {
        x = quot config.extrinsic_param.x 10;
        y = quot config.extrinsic_param.y 10;
        z = quot config.extrinsic_param.z 10;
      }
      else config.extrinsic_param;
}

module _ {fl : Floats} where
  pub set_lidar_pub_handle : LdsLidar fl → ℕ → PubHandler fl
  set_lidar_pub_handle l listen_id =
      set_point_cloud_config
        (set_imu_data_callback (set_point_clouds_callback l.pub_handler listen_id))
        l.lds.publish_freq

  module _ (to_string : ℕ → Text) where
    -- The body of the loop of `InitLivoxLidar` for a lidar that has been given slot `i`.
    pub fill_device : LdsLidar fl → UserLivoxLidarConfig fl.Float → ℕ → Outcome (LdsLidar fl)
    unfolding ext_parameter_for
    fill_device l config i = do
      d ← element_at l.lds.lidars i
      ok (record l {
        lds = record l.lds {
          lidars = set l.lds.lidars i (record d {
            lidar_type = livox_lidar_type;
            livox_config = config;
            handle = config.handle;
          });
        };
        pub_handler = add_lidars_ext_param l.pub_handler (ext_parameter_for config);
      })

    -- The loop: a lidar that gets no slot is passed over.
    pub fill_devices : LdsLidar fl → List (UserLivoxLidarConfig fl.Float) → Outcome (LdsLidar fl)
    unfolding fill_device
    fill_devices l [] = ok l
    fill_devices l (config ∷ configs) = do
      let (found, cache) = get_free_index to_string l.lds.cache_index livox_lidar_type config.handle
      let l' = record l { lds = record l.lds { cache_index = cache } }
      elim found [
        | none ↦ fill_devices l' configs
        | some i ↦ (fill_device l' config i >>= λ l''. fill_devices l'' configs)
      ]

    module _ (json : Json fl.Float) where
      -- `InitLivoxLidar`: configurations that cannot be read are none.
      pub init_livox_lidar : LdsLidar fl → File json.Value → Bool → Outcome (Bool × LdsLidar fl)
      unfolding fill_devices
      init_livox_lidar l file sdk_init = do
        (read, configs, closed) ← parse json file []
        if sdk_init then (fill_devices l configs >>= λ l'. ok (true, l')) else ok (false, l)

      pub init_lidars : LdsLidar fl → File json.Value → Bool → Outcome (Bool × LdsLidar fl)
      unfolding init_livox_lidar
      init_lidars l file sdk_init = elim (parse_summary_info json file) [
        | none ↦ ok (false, l)
        | some lidar_type ↦
            let l' = record l { lidar_type = lidar_type } in
            if bit_and lidar_type livox_lidar_type == 0
            then ok (true, l')
            else init_livox_lidar l' file sdk_init
      ]

      -- `InitLdsLidar`, where the SDK gives its observer of points the number `listen_id`: the callbacks and the frame rate are set once the lidars are, and `Start`
      -- succeeds in any case.
      pub init_lds_lidar : LdsLidar fl → File json.Value → Bool → ℕ → Outcome (Bool × LdsLidar fl)
      unfolding init_lidars set_lidar_pub_handle
      init_lds_lidar l file sdk_init listen_id = if l.is_initialized then ok (false, l) else do
        (ready, l') ← init_lidars l file sdk_init
        let called = set_lidar_pub_handle l' listen_id
        ok (
          ready,
          (if ready then record l' { pub_handler = called; is_initialized = true } else l'),
        )

  -- `DeInitLdsLidar`: the return code is 0 with `true`; the flag stays.
  pub de_init_lds_lidar : LdsLidar fl → Bool × LdsLidar fl
  de_init_lds_lidar l = if l.is_initialized then (true, l) else (false, l)
