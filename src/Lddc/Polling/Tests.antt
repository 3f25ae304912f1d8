-- ===== src/Lddc/Polling/Tests.antt =====
-- The distribution of lddc.cpp at a source where one packet waits for a sampling device.
use drone_exploration_stack.Prelude.{
  ℕ, ◌-◌, ◌≡◌, refl, true, inr, some, [], ◌∷◌, map, set, ok, arith,
}
use drone_exploration_stack.Floats.Tests.{naturals}
use drone_exploration_stack.Comm.{sampling, ImuData}
use drone_exploration_stack.CacheIndex.Tests.{unary}
use drone_exploration_stack.Ldq.Refine.{pushed}
use drone_exploration_stack.Ldq.Tests.{one_waits-IsValid}
use drone_exploration_stack.Lds.{Lds, LidarDevice, push_lidar_data}
use drone_exploration_stack.Lds.Invariant.{IsValid, set_lidars-IsValid}
use drone_exploration_stack.Lds.Store.{Stored, push_lidar_data-Stored}
use drone_exploration_stack.Lds.Tests.{source, source-IsValid, a_packet}
use drone_exploration_stack.Lddc.{Lddc}
use drone_exploration_stack.Lddc.Tests.{a_device, distributor}
use drone_exploration_stack.Lddc.Polling.{
  is_sampling, distribute_point_cloud_data, distribute_imu_data,
}
use drone_exploration_stack.Lddc.Polling.Published.{publish_slots, Distributed}
use drone_exploration_stack.Lddc.Polling.Distribute.{distribute_point_cloud_data-Distributed}
use drone_exploration_stack.Lddc.Polling.Imu.{
  samples_taken, published_samples, distribute_imu_data_lem,
}
use drone_exploration_stack.Lddc.Polling.Sound.{IsSound}
use drone_exploration_stack.Lddc.Polling.Wake.{Step, Reach, distribute_after_any_calls}

abbrev pub sampling_device : LidarDevice ℕ
sampling_device = record a_device { connect_state = sampling }

samples : is_sampling sampling ≡ true
unfolding is_sampling
samples = refl

abbrev pub one_packet : Lds naturals
one_packet = record source { lidars = set source.lidars 0 sampling_device; pcd_semaphore = 1 }

pub one_packet-IsValid : IsValid one_packet
one_packet-IsValid =
    set_lidars-IsValid source 0 sampling_device 1 source-IsValid (inr one_waits-IsValid)

abbrev pub ready_to_publish : Lddc naturals
ready_to_publish = record distributor { lds = some one_packet }

distribute_point_cloud_data-Distributed_example :
    (s' : Lds naturals) × (distribute_point_cloud_data ready_to_publish
      ≡ some (
          ok (
            record (publish_slots 32 0 ready_to_publish one_packet.lidars).0 { lds = some s' },
            (publish_slots 32 0 ready_to_publish one_packet.lidars).1,
          )))
    × Distributed 0 (record one_packet { pcd_semaphore = 0 }) s'
distribute_point_cloud_data-Distributed_example =
    distribute_point_cloud_data-Distributed ready_to_publish one_packet refl one_packet-IsValid refl
      (omega arith) refl

ready_to_publish-IsSound : IsSound ready_to_publish
ready_to_publish-IsSound = record {
  source = one_packet;
  has = refl;
  valid = one_packet-IsValid;
  awake = λ i d there is waits. omega arith;
  format = refl;
}

second_slot-Stored :
    (s' : Lds naturals) × (push_lidar_data one_packet a_packet 1 600 ≡ ok s')
    × Stored one_packet 1 (pushed a_packet 600) s'
second_slot-Stored =
    push_lidar_data-Stored one_packet a_packet 1 600 one_packet-IsValid (omega arith) (omega arith)

-- A packet comes for slot 1, while one waits in slot 0.
abbrev after_push : Lds naturals
after_push = second_slot-Stored.0

distribute_after_any_calls_example :
    (s' : Lds naturals) × (distribute_point_cloud_data
        (record ready_to_publish { lds = some after_push })
      ≡ some (
          ok (
            record (publish_slots 32 0
                (record ready_to_publish { lds = some after_push })
                after_push.lidars).0 { lds = some s' },
            (publish_slots 32 0
                (record ready_to_publish { lds = some after_push })
                after_push.lidars).1,
          )))
    × Distributed 0 (record after_push { pcd_semaphore = after_push.pcd_semaphore - 1 }) s'
distribute_after_any_calls_example =
    distribute_after_any_calls unary ready_to_publish
      (record ready_to_publish { lds = some after_push }) after_push 0 sampling_device
      ready_to_publish-IsSound
      (Reach.later Reach.here (
        Step.push ready_to_publish one_packet after_push a_packet 1 600 refl (omega arith)
          (omega arith) second_slot-Stored.1))
      refl second_slot-Stored.2.unchanged.1
      (second_slot-Stored.2.others 0 (λ e. absurd (omega arith))) samples (λ e. cc)

abbrev a_sample : ImuData ℕ
a_sample = record {
  lidar_type = 8;
  handle = 7;
  slot = 0;
  time_stamp = 600;
  gyro_x = 1;
  gyro_y = 2;
  gyro_z = 3;
  acc_x = 4;
  acc_y = 5;
  acc_z = 6;
}

abbrev one_sample : Lds naturals
one_sample = record one_packet {
  lidars = set one_packet.lidars 0 (record sampling_device { imu_queue = a_sample ∷ [] });
  imu_semaphore = 1;
}

distribute_imu_data_lem_example :
    distribute_imu_data (record distributor { lds = some one_sample })
    ≡ some (
        ok (
          record distributor {
            lds = some (record one_sample {
              imu_semaphore = 0;
              lidars = map samples_taken one_sample.lidars;
            });
          },
          published_samples 0 (record distributor { lds = some one_sample }) one_sample.lidars,
        ))
distribute_imu_data_lem_example =
    distribute_imu_data_lem (record distributor { lds = some one_sample }) one_sample refl refl refl
      (omega arith)
