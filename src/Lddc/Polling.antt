-- ===== src/Lddc/Polling.antt =====
-- The loops of lddc.cpp of ros_ws/src/livox_ros_driver2/src that take packets off the queues. A
-- loop `while (!QueueIsEmpty(queue))` runs on fuel, for which the packets that wait are enough.
pub mod Wanted
pub mod Drain
pub mod Published
pub mod Slots
pub mod Distribute
pub mod Sound
pub mod Wake
pub mod Stop
pub mod Imu
pub mod Tests
use drone_exploration_stack.Prelude.{
  ℕ, zero, suc, ◌+◌, ◌*◌, Bool, true, false, not, ◌&&◌, ◌||◌, Option, none, some, List, [], ◌∷◌,
  ◌++◌, map, length, set, ◌==◌, if◌then◌else◌, Outcome, ok, fault, ◌>>=◌,
}
use drone_exploration_stack.Prelude.Words.{u32}
use drone_exploration_stack.Floats.{Floats}
use drone_exploration_stack.Comm.{ConnectState, sampling, off, on, config, StoragePacket, ImuData}
use drone_exploration_stack.Semaphore
use drone_exploration_stack.ImuQueue
use drone_exploration_stack.ImuQueue.{ImuQueue}
use drone_exploration_stack.Ldq.{
  LidarDataQueue, Storage, null, dangling, live, blank_packet, queue_is_empty, queue_pop,
  queue_used_size,
}
use drone_exploration_stack.Lds.{Lds, LidarDevice, element_at}
use drone_exploration_stack.Lddc.{
  Lddc, Message, Delivery, cloud2, custom, pcl, imu, deliver, point_cloud_2_msg, livox_custom_msg,
  pcl_pxyzi_msg,
}
use drone_exploration_stack.Lddc.Messages.{
  seconds, timestamp_of, init_custom_msg, fill_points_to_custom_msg, init_pointcloud2_msg,
  init_pcl_msg, fill_points_to_pcl_msg, init_imu_msg,
}

-- What a loop has done: the queue, the object, and the deliveries.
pub record Drained (fl : Floats) : Type 0 where
  pub queue : LidarDataQueue fl.Float
  pub lddc : Lddc fl
  pub deliveries : List (Delivery fl)

pub is_sampling : ConnectState → Bool
is_sampling off = false
is_sampling on = false
is_sampling config = false
is_sampling sampling = true

module _ {fl : Floats} where
  -- The body of the loop after `QueuePop`: a packet without points is skipped.
  pub publish_popped :
      (Lddc fl → StoragePacket fl.Float → Outcome (Lddc fl × List (Delivery fl)))
      → Lddc fl
      → StoragePacket fl.Float
      → Outcome (Lddc fl × List (Delivery fl))
  publish_popped publish l pkg = elim pkg.points [ [] ↦ ok (l, []) | p ∷ ps ↦ publish l pkg ]

  -- The loop of the three functions that publish points.
  pub drain :
      (Lddc fl → StoragePacket fl.Float → Outcome (Lddc fl × List (Delivery fl)))
      → ℕ
      → Lddc fl
      → LidarDataQueue fl.Float
      → Outcome (Drained fl)
  unfolding publish_popped
  drain publish zero l q = ok (record { queue = q; lddc = l; deliveries = [] })
  drain publish (suc fuel) l q =
      if queue_is_empty q then ok (record { queue = q; lddc = l; deliveries = [] }) else do
        (popped, q', pkg) ← queue_pop q (blank_packet fl.Float)
        (l', now) ← publish_popped publish l pkg
        rest ← drain publish fuel l' q'
        ok (record rest { deliveries = now ++ rest.deliveries })

  -- `PublishCustomPointcloud` of one packet of a device.
  pub publish_custom :
      ℕ
      → LidarDevice fl.Float
      → Lddc fl
      → StoragePacket fl.Float
      → Outcome (Lddc fl × List (Delivery fl))
  publish_custom index lidar l pkg = do
    m ← fill_points_to_custom_msg fl (init_custom_msg fl l.frame_id l.msg_seq lidar pkg) pkg
    ok (
      record l { msg_seq = u32 (l.msg_seq + 1) },
      deliver l l.enable_lidar_bag index (seconds fl m.timebase) (custom m),
    )

  -- `PublishPointcloud2` of one packet.
  pub publish_cloud2 : ℕ → Lddc fl → StoragePacket fl.Float → Outcome (Lddc fl × List (Delivery fl))
  publish_cloud2 index l pkg = do
    m ← init_pointcloud2_msg fl l.frame_id pkg
    ok (l, deliver l l.enable_lidar_bag index (seconds fl (timestamp_of fl pkg)) (cloud2 m))

  -- `PublishPclMsg` of one packet.
  pub publish_pcl : ℕ → Lddc fl → StoragePacket fl.Float → Outcome (Lddc fl × List (Delivery fl))
  publish_pcl index l pkg = do
    m ← fill_points_to_pcl_msg fl pkg (init_pcl_msg fl l.frame_id pkg)
    ok (l, deliver l l.enable_lidar_bag index (seconds fl (timestamp_of fl pkg)) (pcl m))

  -- One round of the loop of `PollingLidarPointCloudData`; an unknown format does nothing.
  pub publish_format :
      ℕ → LidarDevice fl.Float → Lddc fl → LidarDataQueue fl.Float → Outcome (Drained fl)
  unfolding drain publish_custom publish_cloud2 publish_pcl
  publish_format index lidar l q =
      let fuel = queue_used_size q in
      if l.transfer_format == point_cloud_2_msg
      then drain (publish_cloud2 index) fuel l q
      else if l.transfer_format == livox_custom_msg
      then drain (publish_custom index lidar) fuel l q
      else if l.transfer_format == pcl_pxyzi_msg
      then drain (publish_pcl index) fuel l q
      else ok (record { queue = q; lddc = l; deliveries = [] })

  -- The loop of `PollingLidarPointCloudData`, on fuel.
  pub poll_rounds :
      ℕ → Bool → ℕ → LidarDevice fl.Float → Lddc fl → LidarDataQueue fl.Float → Outcome (Drained fl)
  unfolding publish_format
  poll_rounds zero exit index lidar l q = ok (record { queue = q; lddc = l; deliveries = [] })
  poll_rounds (suc fuel) exit index lidar l q =
      if exit || queue_is_empty q then ok (record { queue = q; lddc = l; deliveries = [] }) else do
        d ← publish_format index lidar l q
        rest ← poll_rounds fuel exit index lidar d.lddc d.queue
        ok (record rest { deliveries = d.deliveries ++ rest.deliveries })

  -- `PollingLidarPointCloudData`: a queue without an array is left alone. One round empties the
  -- queue for each of the three formats, so that two are enough.
  pub polling_lidar_point_cloud_data :
      Bool → ℕ → LidarDevice fl.Float → Lddc fl → Storage fl.Float → Outcome (Drained fl)
  unfolding poll_rounds
  polling_lidar_point_cloud_data exit index lidar l null =
      ok (record { queue = lidar.queue; lddc = l; deliveries = [] })
  polling_lidar_point_cloud_data exit index lidar l dangling =
      poll_rounds 2 exit index lidar l lidar.queue
  polling_lidar_point_cloud_data exit index lidar l (live packets) =
      poll_rounds 2 exit index lidar l lidar.queue

  -- `PublishImuData` at what `Pop` gives it.
  pub publish_sample :
      Lddc fl
      → ℕ
      → ImuQueue fl.Float
      → Option (ImuData fl.Float × ImuQueue fl.Float)
      → ImuQueue fl.Float × List (Delivery fl)
  unfolding deliver
  publish_sample l index q none = (q, [])
  publish_sample l index q (some (d, q')) =
      (q', deliver l l.enable_imu_bag index (seconds fl d.time_stamp) (imu (init_imu_msg fl d)))

  -- `PublishImuData`.
  pub publish_imu_data : Lddc fl → ℕ → ImuQueue fl.Float → ImuQueue fl.Float × List (Delivery fl)
  unfolding publish_sample ImuQueue.pop
  publish_imu_data l index q = publish_sample l index q (ImuQueue.pop q)

  -- The loop of `PollingLidarImuData`, on fuel.
  pub imu_rounds :
      ℕ → Bool → Lddc fl → ℕ → ImuQueue fl.Float → ImuQueue fl.Float × List (Delivery fl)
  unfolding publish_imu_data ImuQueue.empty
  imu_rounds zero exit l index q = (q, [])
  imu_rounds (suc fuel) exit l index q =
      let now = publish_imu_data l index q in
      let rest = imu_rounds fuel exit l index now.0 in
      if exit || ImuQueue.empty q then (q, []) else (rest.0, now.1 ++ rest.1)

  -- `PollingLidarImuData`: each round takes a sample, so that as many rounds as samples are enough.
  pub polling_lidar_imu_data :
      Bool → Lddc fl → ℕ → ImuQueue fl.Float → ImuQueue fl.Float × List (Delivery fl)
  unfolding imu_rounds
  polling_lidar_imu_data exit l index q = imu_rounds (length q) exit l index q

  -- The loop of `DistributePointCloudData` over the slots from `i` on.
  pub distribute_from : ℕ → ℕ → Lddc fl → Lds fl → Outcome (Lddc fl × Lds fl × List (Delivery fl))
  unfolding is_sampling polling_lidar_point_cloud_data
  distribute_from zero i l s = ok (l, s, [])
  distribute_from (suc n) i l s = do
    lidar ← element_at s.lidars i
    d ←
        (if is_sampling lidar.connect_state
          then polling_lidar_point_cloud_data s.request_exit i lidar l lidar.queue.storage_packet
          else ok (record { queue = lidar.queue; lddc = l; deliveries = [] }))
    (l', s', rest) ←
        distribute_from n (i + 1) d.lddc
          (record s { lidars = set s.lidars i (record lidar { queue = d.queue }) })
    ok (l', s', d.deliveries ++ rest)

  -- `DistributePointCloudData`. `none`: it waits for the semaphore.
  pub distribute_point_cloud_data : Lddc fl → Option (Outcome (Lddc fl × List (Delivery fl)))
  unfolding distribute_from Semaphore.wait
  distribute_point_cloud_data l = elim l.lds [
    | none ↦ some (ok (l, []))
    | some s ↦ if s.request_exit then some (ok (l, [])) else elim (Semaphore.wait s.pcd_semaphore) [
      | none ↦ none
      | some count ↦ some (
          distribute_from s.lidar_count 0 l (record s { pcd_semaphore = count }) >>= λ r.
          ok (record r.0 { lds = some r.1 }, r.2))
    ]
  ]

  -- The loop of `DistributeImuData` over the slots from `i` on.
  pub distribute_imu_from : ℕ → ℕ → Lddc fl → Lds fl → Outcome (Lds fl × List (Delivery fl))
  unfolding is_sampling polling_lidar_imu_data
  distribute_imu_from zero i l s = ok (s, [])
  distribute_imu_from (suc n) i l s = do
    lidar ← element_at s.lidars i
    let (q, now) =
        polling_lidar_imu_data (s.request_exit || not (is_sampling lidar.connect_state)) l i
          lidar.imu_queue
    (s', rest) ←
        distribute_imu_from n (i + 1) l
          (record s { lidars = set s.lidars i (record lidar { imu_queue = q }) })
    ok (s', now ++ rest)

  -- `DistributeImuData`. `none`: it waits for the semaphore.
  pub distribute_imu_data : Lddc fl → Option (Outcome (Lddc fl × List (Delivery fl)))
  unfolding distribute_imu_from Semaphore.wait
  distribute_imu_data l = elim l.lds [
    | none ↦ some (ok (l, []))
    | some s ↦ if s.request_exit then some (ok (l, [])) else elim (Semaphore.wait s.imu_semaphore) [
      | none ↦ none
      | some count ↦ some (
          distribute_imu_from s.lidar_count 0 l (record s { imu_semaphore = count }) >>= λ r.
          ok (record l { lds = some r.0 }, r.1))
    ]
  ]
