-- ===== src/Lddc/Tests.antt =====
-- The polling of lddc.cpp at a device where one packet waits.
use drone_exploration_stack.Prelude.{ℕ, ◌≡◌, refl, false, none, [], ok}
use drone_exploration_stack.Floats.Tests.{naturals}
use drone_exploration_stack.Comm.{livox_lidar_type}
use drone_exploration_stack.Ldq.{LidarDataQueue}
use drone_exploration_stack.Ldq.Invariant.{IsValid, contents}
use drone_exploration_stack.Ldq.Tests.{one_waits, one_waits-IsValid}
use drone_exploration_stack.Lds.{LidarDevice}
use drone_exploration_stack.Lds.Tests.{idle_device}
use drone_exploration_stack.Lddc.{Lddc, livox_custom_msg}
use drone_exploration_stack.Lddc.Polling.{polling_lidar_point_cloud_data}
use drone_exploration_stack.Lddc.Polling.Drain.{
  custom_step, run, polling_lidar_point_cloud_data_lem,
}

abbrev pub a_device : LidarDevice ℕ
a_device = record idle_device { queue = one_waits; handle = 7; lidar_type = livox_lidar_type }

abbrev pub distributor : Lddc naturals
distributor = record {
  lds = none;
  transfer_format = livox_custom_msg;
  output_type = 0;
  frame_id = [];
  has_bag = false;
  enable_lidar_bag = false;
  enable_imu_bag = false;
  msg_seq = 4294967295;
}

polling_lidar_point_cloud_data_lem_example :
    (q' : LidarDataQueue ℕ) × (polling_lidar_point_cloud_data false 0 a_device distributor
        a_device.queue.storage_packet
      ≡ ok (record {
        queue = q';
        lddc = (run (custom_step 0 a_device) distributor (contents one_waits)).0;
        deliveries = (run (custom_step 0 a_device) distributor (contents one_waits)).1;
      }))
    × IsValid q'
    × (contents q' ≡ [])
polling_lidar_point_cloud_data_lem_example =
    polling_lidar_point_cloud_data_lem 0 a_device distributor one_waits-IsValid refl
