-- ===== src/PubHandler/Process/Tests.antt =====
-- A packet of two points that comes to `PubHandler` of comm/pub_handler.cpp, of
-- ros_ws/src/livox_ros_driver2/src, while lidar 7 has one point.
use drone_exploration_stack.Prelude.{
  List, ap, sym, ◌∙◌, ok, none, ◌≡◌, ◌++◌, not, ◌==◌, false, refl, [], ◌∷◌, replicate, ◌>>=◌, arith,
}
use drone_exploration_stack.Prelude.Assoc.{insert, nat_key}
use drone_exploration_stack.Floats.Tests.{naturals}
use drone_exploration_stack.Comm.{RawPacket, cartesian_low_data, timestamp_type_no_sync}
use drone_exploration_stack.LidarHandler.RoundTrip.{raw_bytes, converted_all}
use drone_exploration_stack.LidarHandler.Tests.{two_points, two_points_fit}
use drone_exploration_stack.PubHandler.{
  PubHandler, EthernetPacket, raw_packet, on_livox_lidar_point_cloud_callback,
}
use drone_exploration_stack.PubHandler.Timer.{check_timer, check_timer_unsynced}
use drone_exploration_stack.PubHandler.Process.{process_handler, raw_data_process}
use drone_exploration_stack.PubHandler.Process.Received.{
  queued_packet, received_points_lem, raw_packet_lem, callback_queues,
}
use drone_exploration_stack.PubHandler.Process.Order.{
  Run, Processed, begin, queue_packet, process_round, raw_packets_fifo,
}
use drone_exploration_stack.PubHandler.Tests.{handler_with}

-- With a byte behind the points that belongs to no packet.
abbrev an_ethernet_packet : EthernetPacket
an_ethernet_packet = record {
  length_field = 52;
  time_interval = 4;
  dot_num = 2;
  data_type = cartesian_low_data;
  time_type = timestamp_type_no_sync;
  timestamp = replicate 8 0;
  payload = raw_bytes two_points ++ 255 ∷ [];
}

received_points_lem_example :
    (on_livox_lidar_point_cloud_callback (handler_with false) 7 9 an_ethernet_packet 600 >>= λ r.
    raw_data_process r.0 601)
    ≡ (let h = process_handler (handler_with false) 7 in
        check_timer
          (record (handler_with false) {
            is_timestamp_sync = not (timestamp_type_no_sync == timestamp_type_no_sync);
            raw_packet_queue = [];
            lidar_process_handlers =
                insert 7
                  (record h {
                    points_clouds =
                        h.points_clouds
                        ++ converted_all naturals h
                            (queued_packet 7 9 an_ethernet_packet two_points 600)
                            two_points;
                  })
                  (handler_with false).lidar_process_handlers;
          })
          7
          601)
received_points_lem_example =
    received_points_lem (handler_with false) 7 9 600 601 an_ethernet_packet two_points (255 ∷ [])
      refl refl refl refl refl (omega arith) refl (λ e. omega (arith, e)) two_points_fit

abbrev the_packet : RawPacket
the_packet = queued_packet 7 9 an_ethernet_packet two_points 600

abbrev with_packet : PubHandler naturals
with_packet = record (handler_with false) {
  is_timestamp_sync = not (timestamp_type_no_sync == timestamp_type_no_sync);
  raw_packet_queue = the_packet ∷ [];
}

abbrev with_points : PubHandler naturals
with_points = record with_packet {
  raw_packet_queue = [];
  lidar_process_handlers =
      let h = process_handler (handler_with false) 7 in
      insert 7
        (record h {
          points_clouds = h.points_clouds ++ converted_all naturals h the_packet two_points;
        })
        (handler_with false).lidar_process_handlers;
}

the_packet_made : raw_packet 7 9 an_ethernet_packet 600 ≡ ok the_packet
the_packet_made =
    raw_packet_lem 7 9 600 an_ethernet_packet two_points (255 ∷ []) refl refl
      (λ e. omega (arith, e))

queued :
    on_livox_lidar_point_cloud_callback (handler_with false) 7 9 an_ethernet_packet 600
    ≡ ok (with_packet, none)
queued =
    callback_queues (handler_with false) 7 9 600 an_ethernet_packet the_packet refl the_packet_made

processed : raw_data_process with_packet 601 ≡ ok (with_points, [])
unfolding check_timer check_timer_unsynced
processed =
    sym (ap (λ o. o >>= λ r. raw_data_process r.0 601) queued)
    ∙ received_points_lem (handler_with false) 7 9 600 601 an_ethernet_packet two_points (255 ∷ [])
        refl refl refl refl refl (omega arith) refl (λ e. omega (arith, e)) two_points_fit

-- The packet comes, and the thread takes it before the next frame is due.
one_taken : Run (handler_with false) with_points (the_packet ∷ [])
one_taken =
    process_round with_packet with_points (the_packet ∷ []) 601 []
      (queue_packet (handler_with false) with_packet [] 7 9 600 an_ethernet_packet the_packet begin
        refl the_packet_made queued)
      processed

raw_packets_fifo_example :
    (rs : List RawPacket) × Processed
      (handler_with false)
      with_points
      (the_packet ∷ [])
      one_taken
      rs
    × (rs ++ with_points.raw_packet_queue
        ≡ (handler_with false).raw_packet_queue ++ the_packet ∷ [])
raw_packets_fifo_example =
    raw_packets_fifo (handler_with false) with_points (the_packet ∷ []) one_taken
