-- ===== src/PubHandler/Timer.antt =====
-- The timer of `PubHandler` of comm/pub_handler.cpp, of ros_ws/src/livox_ros_driver2/src:
-- `PublishPointCloud` and `CheckTimer`. The result of a call is the state and the frames that the
-- subscriber is called with.
pub mod Frames
pub mod Rounds
pub mod Synced
pub mod Leaves
use drone_exploration_stack.Prelude.{
  ℕ, zero, suc, ◌+◌, ◌*◌, ◌/◌, ◌%◌, Bool, true, false, not, ◌||◌, Option, none, some, List, [], ◌∷◌,
  length, set, ltb, ◌==◌, if◌then◌else◌, Outcome, ok, fault, null_pointer, out_of_bounds,
  division_by_zero, ◌>>=◌,
}
use drone_exploration_stack.Prelude.Words.{u8, u32, sub64}
use drone_exploration_stack.Prelude.Assoc.{find, insert, nat_key}
use drone_exploration_stack.Floats.{Floats}
use drone_exploration_stack.Comm.{PointXyzlt, livox_lidar_type, ratio_of_ms_to_ns}
use drone_exploration_stack.Lds.{PointFrame}
use drone_exploration_stack.LidarHandler.{
  LidarPubHandler, get_lidar_base_time, get_recent_time_stamp, get_lidar_point_clouds,
}
use drone_exploration_stack.PubHandler.{PubHandler}

module _ {F : Type 0} where
  -- `frame_.base_time[frame_.lidar_num] = time`.
  pub put_base_time : PointFrame F → ℕ → Outcome (PointFrame F)
  put_base_time f time =
      if ltb f.lidar_num (length f.base_time)
      then ok (record f { base_time = set f.base_time f.lidar_num time })
      else fault out_of_bounds

  -- The next element of `frame_.lidar_point`, and `frame_.lidar_num++`.
  pub put_lidar_point : PointFrame F → ℕ → List (PointXyzlt F) → Outcome (PointFrame F)
  put_lidar_point f id points =
      if ltb f.lidar_num (length f.lidar_point)
      then ok (record f {
        lidar_point = set f.lidar_point f.lidar_num (record {
          handle = id;
          lidar_type = livox_lidar_type;
          points_num = u32 (length points);
          points = points;
        });
        lidar_num = u8 (f.lidar_num + 1);
      })
      else fault out_of_bounds

  -- A packet of the frame for a lidar that has points, none for one that has none.
  pub put_points : PointFrame F → ℕ → List (PointXyzlt F) → Outcome (PointFrame F)
  unfolding put_lidar_point
  put_points f id [] = ok f
  put_points f id (q ∷ qs) = put_lidar_point f id (q ∷ qs)

  pub put_lidar : PointFrame F → ℕ → LidarPubHandler F → Outcome (PointFrame F)
  unfolding put_base_time put_points
  put_lidar f id h =
      put_base_time f (get_lidar_base_time h) >>= λ g. put_points g id h.points_clouds

module _ {fl : Floats} where
  -- What both branches of `CheckTimer` do with a lidar: its points leave its handler for `points_`
  -- and, unless there are none, for the frame.
  pub collect : PubHandler fl → ℕ → LidarPubHandler fl.Float → Outcome (PubHandler fl)
  unfolding put_lidar
  collect p id h = do
    f ← put_lidar p.frame id h
    let (points, h') = get_lidar_point_clouds [] h
    ok (record p {
      frame = f;
      points = insert id points p.points;
      lidar_process_handlers = insert id h' p.lidar_process_handlers;
    })

  -- `PublishPointCloud`, and `frame_.lidar_num = 0` after it.
  pub publish_point_cloud : PubHandler fl → PubHandler fl × List (PointFrame fl.Float)
  publish_point_cloud p = (
    record p { frame = record p.frame { lidar_num = 0 } },
    if p.has_points_callback then p.frame ∷ [] else [],
  )

  -- The end of the branch for synchronised clocks, with the lidar's points.
  pub publish_collected :
      List (PointXyzlt fl.Float) → PubHandler fl → PubHandler fl × List (PointFrame fl.Float)
  unfolding publish_point_cloud
  publish_collected [] p = (p, [])
  publish_collected (q ∷ qs) p = if p.frame.lidar_num == 0 then (p, []) else publish_point_cloud p

  -- `CheckTimer` with synchronised clocks, after the packets of lidar `id`.
  pub check_timer_synced : PubHandler fl → ℕ → Outcome (PubHandler fl × List (PointFrame fl.Float))
  unfolding collect publish_collected
  check_timer_synced p id = elim (find id p.lidar_process_handlers) [
    | none ↦ fault null_pointer
    | some h ↦
        let recent_time_ms = get_recent_time_stamp h / ratio_of_ms_to_ns in
        if p.publish_interval_ms == 0
        then fault division_by_zero
        else if not (recent_time_ms % p.publish_interval_ms == 0) || (recent_time_ms == 0)
        then ok (p, [])
        else if ltb (sub64 (get_recent_time_stamp h) (get_lidar_base_time h))
            p.publish_interval_tolerance
        then ok (p, [])
        else (collect p id h >>= λ p'. ok (publish_collected h.points_clouds p'))
  ]

  -- The loop over `lidar_process_handlers_`.
  pub collect_all : PubHandler fl → List (ℕ × LidarPubHandler fl.Float) → Outcome (PubHandler fl)
  unfolding collect
  collect_all p [] = ok p
  collect_all p ((id, h) ∷ hs) = collect p id h >>= λ p'. collect_all p' hs

  -- `CheckTimer` without synchronised clocks, at the time `now`.
  unfoldable pub check_timer_unsynced :
      PubHandler fl → ℕ → Outcome (PubHandler fl × List (PointFrame fl.Float))
  unfolding collect_all publish_point_cloud
  check_timer_unsynced p now =
      if p.first
      then ok (record p { last_pub_time = now; first = false }, [])
      else if ltb now (p.last_pub_time + p.publish_interval)
      then ok (p, [])
      else (collect_all (record p { last_pub_time = p.last_pub_time + p.publish_interval })
            p.lidar_process_handlers
          >>= λ p'. ok (publish_point_cloud p'))

  unfoldable pub check_timer :
      PubHandler fl → ℕ → ℕ → Outcome (PubHandler fl × List (PointFrame fl.Float))
  unfolding check_timer_synced check_timer_unsynced
  check_timer p id now =
      if p.is_timestamp_sync then check_timer_synced p id else check_timer_unsynced p now
