-- ===== src/Lds.antt =====
-- lds.h and lds.cpp of ros_ws/src/livox_ros_driver2/src: the lidar data source, which keeps the 32
-- devices with their queues, the two semaphores and the table of slots. `calculate_packet_queue_size`
-- is that of comm/comm.cpp.
pub mod Invariant
pub mod Store
pub mod Reset
pub mod Tests
use drone_exploration_stack.Prelude.{
  ℕ, zero, suc, ◌+◌, ◌-◌, ◌≡◌, refl, Bool, true, false, not, Option, none, some, List, [], ◌∷◌,
  length, get_elem?, set, ltb, leb, ◌==◌, if◌then◌else◌, Outcome, ok, fault, out_of_bounds, ◌>>=◌,
}
use drone_exploration_stack.Prelude.Words.{u32}
use drone_exploration_stack.Prelude.Int.{ℤ, pos}
use drone_exploration_stack.Floats.{Floats}
use drone_exploration_stack.Comm.{
  ConnectState, off, sampling, max_source_lidar, livox_lidar_type, PointPacket, ImuData,
  UserLivoxLidarConfig,
}
use drone_exploration_stack.Ldq.{
  LidarDataQueue, Storage, null, dangling, live, init_queue, de_init_queue, queue_is_full,
  queue_is_empty, queue_used_size, queue_push_any,
}
use drone_exploration_stack.ImuQueue
use drone_exploration_stack.ImuQueue.{ImuQueue}
use drone_exploration_stack.Semaphore
use drone_exploration_stack.CacheIndex.{CacheIndex, Text, get_index, lvx_get_index}

-- `PointFrame`: two arrays of 32 and the number of entries in use.
pub record PointFrame (F : Type 0) : Type 0 where
  pub base_time : List ℕ
  pub lidar_num : ℕ
  pub lidar_point : List (PointPacket F)

-- `LidarDevice`.
pub record LidarDevice (F : Type 0) : Type 0 where
  pub lidar_type : ℕ
  pub handle : ℕ
  pub data_src : ℕ
  pub connect_state : ConnectState
  pub queue : LidarDataQueue F
  pub imu_queue : ImuQueue F
  pub firmware_ver : ℕ
  pub livox_config : UserLivoxLidarConfig F

pub record Lds (fl : Floats) : Type 0 where
  pub lidar_count : ℕ
  pub lidars : List (LidarDevice fl.Float)
  pub pcd_semaphore : ℕ
  pub imu_semaphore : ℕ
  pub cache_index : CacheIndex
  pub publish_freq : fl.Double
  pub data_src : ℕ
  pub request_exit : Bool

-- An array element, and a write of it.
unfoldable pub element_at {ℓ} : {A : Type ℓ} → List A → ℕ → Outcome A
element_at xs i = elim (get_elem? xs i) [ none ↦ fault out_of_bounds | some a ↦ ok a ]

pub calculate_packet_queue_size : (fl : Floats) → fl.Double → ℕ
calculate_packet_queue_size fl publish_freq =
    if fl.greater publish_freq (fl.double_of (pos 10))
    then u32 (fl.truncate publish_freq + 1)
    else 10

module _ {F : Type 0} where
  -- `ResetLidar` of one device.
  pub reset_lidar : LidarDevice F → ℕ → Outcome (LidarDevice F)
  reset_lidar d data_src = do
    queue ← de_init_queue d.queue
    ok (record d {
      queue = queue;
      imu_queue = ImuQueue.clear d.imu_queue;
      data_src = data_src;
      connect_state = off;
    })

  pub set_lidar_data_src : LidarDevice F → ℕ → LidarDevice F
  set_lidar_data_src d data_src = record d { data_src = data_src }

  pub reset_lidars : List (LidarDevice F) → ℕ → Outcome (List (LidarDevice F))
  unfolding reset_lidar
  reset_lidars [] data_src = ok []
  reset_lidars (d ∷ ds) data_src = do
    d' ← reset_lidar d data_src
    ds' ← reset_lidars ds data_src
    ok (d' ∷ ds')

  -- The loops of `IsAllQueueEmpty` and `IsAllQueueReadStop` over the devices from the first on.
  pub all_empty : ℕ → List (LidarDevice F) → Bool
  all_empty zero ds = true
  all_empty (suc n) [] = true
  all_empty (suc n) (d ∷ ds) = if queue_is_empty d.queue then all_empty n ds else false

  pub all_read : ℕ → List (LidarDevice F) → Bool
  all_read zero ds = true
  all_read (suc n) [] = true
  all_read (suc n) (d ∷ ds) = if queue_used_size d.queue == 0 then all_read n ds else false

-- `if (pcd_semaphore_.GetCount() <= 0) pcd_semaphore_.Signal()`, and the same for the IMU.
pub wake : ℕ → ℕ
wake count = if count == 0 then Semaphore.signal count else count

module _ {fl : Floats} where
  pub reset_lds : Lds fl → ℕ → Outcome (Lds fl)
  unfolding reset_lidars
  reset_lds s data_src = do
    lidars ← reset_lidars s.lidars data_src
    ok (record s { lidar_count = max_source_lidar; lidars = lidars })

  -- The destructor.
  pub destroy_lds : Lds fl → Outcome (Lds fl)
  unfolding reset_lds
  destroy_lds s = reset_lds (record s { lidar_count = 0 }) 0

  pub clean_request_exit : Lds fl → Lds fl
  clean_request_exit s = record s { request_exit = false }

  unfoldable pub request_exit : Lds fl → Lds fl
  request_exit s = record s { request_exit = true }

  pub is_all_queue_empty : Lds fl → Bool
  unfolding all_empty
  is_all_queue_empty s = all_empty s.lidar_count s.lidars

  pub is_all_queue_read_stop : Lds fl → Bool
  unfolding all_read
  is_all_queue_read_stop s = all_read s.lidar_count s.lidars

  -- The queue that `PushLidarData` pushes to: made on first use.
  pub prepare :
      Lds fl → LidarDataQueue fl.Float → Storage fl.Float → Outcome (LidarDataQueue fl.Float)
  prepare s q null = init_queue q (calculate_packet_queue_size fl s.publish_freq)
  prepare s q dangling = ok q
  prepare s q (live packets) = ok q

  pub prepared_queue : Lds fl → LidarDataQueue fl.Float → Outcome (LidarDataQueue fl.Float)
  unfolding prepare
  prepared_queue s q = prepare s q q.storage_packet

  abbrev pub set_queue : Lds fl → ℕ → LidarDevice fl.Float → LidarDataQueue fl.Float → Lds fl
  set_queue s index d q = record s { lidars = set s.lidars index (record d { queue = q }) }

  -- The branches of `PushLidarData`: a packet for a full queue is dropped, and the reader is woken
  -- in any case.
  pub push_or_drop :
      Lds fl
      → PointPacket fl.Float
      → ℕ
      → ℕ
      → LidarDevice fl.Float
      → LidarDataQueue fl.Float
      → Outcome (Lds fl)
  unfolding wake
  push_or_drop s packet index base_time d q =
      if queue_is_full q
      then ok (record (set_queue s index d q) { pcd_semaphore = wake s.pcd_semaphore })
      else do
        q' ← queue_push_any q packet base_time
        ok (record (set_queue s index d q') {
          pcd_semaphore = if queue_is_empty q' then s.pcd_semaphore else wake s.pcd_semaphore;
        })

  pub push_lidar_data : Lds fl → PointPacket fl.Float → ℕ → ℕ → Outcome (Lds fl)
  unfolding prepared_queue push_or_drop
  push_lidar_data s packet index base_time = do
    d ← element_at s.lidars index
    q ← prepared_queue s d.queue
    push_or_drop s packet index base_time d q

  module _ (to_string : ℕ → Text) where
    pub storage_imu_data : Lds fl → ImuData fl.Float → Outcome (Lds fl)
    unfolding wake
    storage_imu_data s d =
        if d.lidar_type == livox_lidar_type
        then elim (get_index to_string s.cache_index d.lidar_type d.handle) [
          | none ↦ ok s
          | some index ↦ do
            lidar ← element_at s.lidars index
            let q = ImuQueue.push lidar.imu_queue d
            ok (record s {
              lidars = set s.lidars index (record lidar { imu_queue = q });
              imu_semaphore = if ImuQueue.empty q then s.imu_semaphore else wake s.imu_semaphore;
            })
        ]
        else ok s

    -- The body of the loop of `StoragePointData`.
    pub store_point : Lds fl → PointPacket fl.Float → ℕ → Outcome (Lds fl)
    store_point s packet base_time =
        elim (get_index to_string s.cache_index packet.lidar_type packet.handle) [
          | none ↦ ok s
          | some index ↦ push_lidar_data s packet index base_time
        ]

    pub store_points : ℕ → ℕ → Lds fl → PointFrame fl.Float → Outcome (Lds fl)
    unfolding store_point
    store_points zero i s frame = ok s
    store_points (suc rounds) i s frame = do
      packet ← element_at frame.lidar_point i
      base_time ← element_at frame.base_time i
      s' ← store_point s packet base_time
      store_points rounds (i + 1) s' frame

    pub storage_point_data : Lds fl → PointFrame fl.Float → Outcome (Lds fl)
    unfolding store_points
    storage_point_data s frame = store_points frame.lidar_num 0 s frame

    -- The body of the loop of `StorageLvxPointData`.
    pub store_lvx_point : Lds fl → PointPacket fl.Float → ℕ → Outcome (Lds fl)
    store_lvx_point s packet base_time =
        let (found, cache) =
          lvx_get_index to_string s.cache_index packet.lidar_type packet.handle in
        let s' = record s { cache_index = cache } in
        elim found [
          | none ↦ ok s'
          | some index ↦ do
            d ← element_at s'.lidars index
            push_lidar_data
                (record s' { lidars = set s'.lidars index (record d { connect_state = sampling }) })
                packet index base_time
        ]

    pub store_lvx_points : ℕ → ℕ → Lds fl → PointFrame fl.Float → Outcome (Lds fl)
    unfolding store_lvx_point
    store_lvx_points zero i s frame = ok s
    store_lvx_points (suc rounds) i s frame = do
      packet ← element_at frame.lidar_point i
      base_time ← element_at frame.base_time i
      s' ← store_lvx_point s packet base_time
      store_lvx_points rounds (i + 1) s' frame

    pub storage_lvx_point_data : Lds fl → PointFrame fl.Float → Outcome (Lds fl)
    unfolding store_lvx_points
    storage_lvx_point_data s frame = store_lvx_points frame.lidar_num 0 s frame
