-- ===== src/LdsLidar/Tests.antt =====
-- The set-up of lds_lidar.cpp for two configured lidars.
use drone_exploration_stack.Prelude.{ℕ, ◌≡◌, refl, false, [], ◌∷◌, ok}
use drone_exploration_stack.Floats.Tests.{naturals}
use drone_exploration_stack.CacheIndex.{init}
use drone_exploration_stack.CacheIndex.Invariant.{init-IsValid}
use drone_exploration_stack.CacheIndex.Failure.{get_index-init}
use drone_exploration_stack.CacheIndex.Tests.{unary, unary_injective}
use drone_exploration_stack.Comm.{UserLivoxLidarConfig}
use drone_exploration_stack.Lds.{Lds}
use drone_exploration_stack.Lds.Invariant.{IsValid}
use drone_exploration_stack.Lds.Tests.{source, source-IsValid, idle_device}
use drone_exploration_stack.PubHandler.Tests.{handler_with}
use drone_exploration_stack.LdsLidar.{LdsLidar, fill_devices}
use drone_exploration_stack.LdsLidar.Slots.{HandlesAgree, Filled, fill_devices-Filled}

abbrev no_lidar : Lds naturals
no_lidar = record source { cache_index = init }

no_lidar-IsValid : IsValid no_lidar
no_lidar-IsValid = record {
  devices = refl;
  counted = refl;
  indexed = init-IsValid;
  rate = source-IsValid.rate;
  ready = source-IsValid.ready;
}

no_lidar-HandlesAgree : HandlesAgree unary unary_injective no_lidar
no_lidar-HandlesAgree h i d found there = let nowhere = get_index-init unary 8 h in cc

abbrev config_for : ℕ → UserLivoxLidarConfig ℕ
config_for h = record idle_device.livox_config { handle = h }

abbrev before_set_up : LdsLidar naturals
before_set_up = record {
  lds = no_lidar;
  pub_handler = handler_with false;
  lidar_type = 8;
  is_initialized = false;
}

fill_devices-Filled_example :
    (l' : LdsLidar naturals) × (fill_devices unary before_set_up (config_for 7 ∷ config_for 9 ∷ [])
      ≡ ok l')
    × Filled unary unary_injective no_lidar l'.lds
fill_devices-Filled_example =
    fill_devices-Filled unary unary_injective before_set_up (config_for 7 ∷ config_for 9 ∷ [])
      no_lidar-IsValid no_lidar-HandlesAgree
