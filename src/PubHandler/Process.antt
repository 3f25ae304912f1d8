-- ===== src/PubHandler/Process.antt =====
-- The thread of `PubHandler` of comm/pub_handler.cpp, of ros_ws/src/livox_ros_driver2/src:
-- `RawDataProcess`, one round of its loop at a time.
pub mod Received
pub mod Order
mod Tests
use drone_exploration_stack.Prelude.{
  ℕ, Option, none, some, List, [], ◌∷◌, if◌then◌else◌, Outcome, ok, ◌>>=◌,
}
use drone_exploration_stack.Prelude.Assoc.{find, insert, nat_key}
use drone_exploration_stack.Floats.{Floats}
use drone_exploration_stack.Comm.{RawPacket}
use drone_exploration_stack.Lds.{PointFrame}
use drone_exploration_stack.LidarHandler.{
  LidarPubHandler, new_handler, set_lidars_ext_param, point_cloud_process,
}
use drone_exploration_stack.PubHandler.{PubHandler, get_lidar_id}
use drone_exploration_stack.PubHandler.Timer.{check_timer}

known_or_new : (fl : Floats) → Option (LidarPubHandler fl.Float) → LidarPubHandler fl.Float
unfolding new_handler
known_or_new fl none = new_handler fl
known_or_new fl (some h) = h

module _ {fl : Floats} where
  -- The handler of a lidar as the thread has it before a packet: a new one the first time, with the
  -- lidar's extrinsic parameters where there are some.
  pub process_handler : PubHandler fl → ℕ → LidarPubHandler fl.Float
  unfolding known_or_new set_lidars_ext_param
  process_handler p id =
      let h = known_or_new fl (find id p.lidar_process_handlers) in
      elim (find id p.lidar_extrinsics) [ none ↦ h | some e ↦ set_lidars_ext_param fl h e ]

  pub process_raw_packet :
      PubHandler fl → RawPacket → ℕ → Outcome (PubHandler fl × List (PointFrame fl.Float))
  unfolding get_lidar_id process_handler point_cloud_process check_timer
  process_raw_packet p r now =
      let id = get_lidar_id r.lidar_type r.handle in
      point_cloud_process fl (process_handler p id) r >>= λ h.
      check_timer (record p { lidar_process_handlers = insert id h p.lidar_process_handlers }) id
        now

  pub take_raw_packet :
      PubHandler fl → List RawPacket → ℕ → Outcome (PubHandler fl × List (PointFrame fl.Float))
  unfolding process_raw_packet
  take_raw_packet p [] now = ok (p, [])
  take_raw_packet p (r ∷ rs) now = process_raw_packet (record p { raw_packet_queue = rs }) r now

  -- One round of the loop. When the queue is still empty after the wait, nothing is done.
  pub raw_data_process : PubHandler fl → ℕ → Outcome (PubHandler fl × List (PointFrame fl.Float))
  unfolding take_raw_packet
  raw_data_process p now =
      if p.is_quit then ok (p, []) else take_raw_packet p p.raw_packet_queue now
