-- ===== src/PubHandler/Process/Received.antt =====
-- A packet of points on its way through `PubHandler` of comm/pub_handler.cpp, of
-- ros_ws/src/livox_ros_driver2/src: from the callback of the SDK to the round of the processing
-- thread that takes it.

use drone_exploration_stack.Prelude.{
  ℕ, suc, ◌+◌, ◌-◌, ◌*◌, ◌/◌, ◌^◌, ◌<◌, ◌≡◌, ◌≢◌, refl, ap, ◌∙◌, true, false, not, List, [], ◌∷◌,
  ◌++◌, length, length-append, take, leb, ◌==◌, if_false, none, ok, ◌>>=◌, arith, ne→==_false,
}
use drone_exploration_stack.Prelude.Words.{u32, u64}
use drone_exploration_stack.Prelude.Assoc.{insert, nat_key}
use drone_exploration_stack.Floats.{Floats}
use drone_exploration_stack.Comm.{RawPacket, livox_lidar_type, imu_data, timestamp_type_no_sync}
use drone_exploration_stack.Raw.{read_bytes}
use drone_exploration_stack.LidarHandler.{point_cloud_process}
use drone_exploration_stack.Raw.Encode.{high_bytes, low_bytes, spher_bytes}
use drone_exploration_stack.LidarHandler.RoundTrip.{
  all_bytes, RawPoints, high_points, low_points, spher_points, raw_bytes, raw_count, raw_type,
  FitsAll, converted_all, point_cloud_process-encoded,
}
use drone_exploration_stack.PubHandler.{
  PubHandler, EthernetPacket, ethernet_packet_size, line_number, get_eth_packet_timestamp,
  raw_packet, get_lidar_id, on_livox_lidar_point_cloud_callback,
}
use drone_exploration_stack.PubHandler.Timer.{check_timer}
use drone_exploration_stack.PubHandler.Process.{
  process_handler, process_raw_packet, take_raw_packet, raw_data_process,
}

-- What the callback queues for a packet of the points `points`.
abbrev pub queued_packet : ℕ → ℕ → EthernetPacket → RawPoints → ℕ → RawPacket
queued_packet handle dev_type e points now = record {
  lidar_type = livox_lidar_type;
  handle = handle;
  extrinsic_enable = false;
  point_num = e.dot_num;
  data_type = e.data_type;
  line_num = line_number dev_type;
  time_stamp = get_eth_packet_timestamp e.time_type e.timestamp now;
  point_interval = e.time_interval * 100 / e.dot_num;
  raw_data = raw_bytes points;
}

take-front : (xs rest : List ℕ) → take (length xs) (xs ++ rest) ≡ xs
take-front [] rest = refl
take-front (x ∷ xs) rest = ap (λ l. x ∷ l) (take-front xs rest)

all_bytes_some :
    {P : Type 0} (bytes : P → List ℕ) (size : ℕ) (ps : List P)
    → ((p : P) → length (bytes p) ≡ suc size)
    → length ps ≢ 0
    → length (all_bytes bytes ps) ≢ 0
all_bytes_some bytes size [] sized some_points = some_points
all_bytes_some bytes size (p ∷ ps) sized some_points =
    λ e. grind (arith, e, length-append (bytes p) (all_bytes bytes ps), sized p)

raw_bytes_some : (points : RawPoints) → raw_count points ≢ 0 → length (raw_bytes points) ≢ 0
raw_bytes_some (high_points ps) = all_bytes_some high_bytes 13 ps (λ p. refl)
raw_bytes_some (low_points ps) = all_bytes_some low_bytes 7 ps (λ p. refl)
raw_bytes_some (spher_points ps) = all_bytes_some spher_bytes 9 ps (λ p. refl)

raw_type_lem : (points : RawPoints) → (raw_type points == imu_data) ≡ false
raw_type_lem (high_points ps) = refl
raw_type_lem (low_points ps) = refl
raw_type_lem (spher_points ps) = refl

line_number_positive : (dev_type : ℕ) → line_number dev_type ≢ 0
unfolding line_number
line_number_positive dev_type = ground arith

read_bytes-front : (bytes rest : List ℕ) → read_bytes (bytes ++ rest) 0 (length bytes) ≡ ok bytes
unfolding read_bytes
read_bytes-front bytes rest =
    let enough : leb (0 + length bytes) (length (bytes ++ rest)) ≡ true =
      grind (arith, length-append bytes rest) in
    rw enough (ap ok (take-front bytes rest))

-- The count of bytes that the callback reads, of the field that says how long the packet is.
payload_size :
    (e : EthernetPacket) (n : ℕ)
    → e.length_field ≡ 36 + n
    → n ≢ 0
    → n < 2 ^ 16
    → u32 (u64 (e.length_field + 2 ^ 64 - ethernet_packet_size) + 1) ≡ n
payload_size e n len some_bytes fits = omega (arith, len, some_bytes, fits)

pub raw_packet_lem :
    (handle dev_type now : ℕ) (e : EthernetPacket) (points : RawPoints) (rest : List ℕ)
    → e.payload ≡ raw_bytes points ++ rest
    → u32 (u64 (e.length_field + 2 ^ 64 - ethernet_packet_size) + 1) ≡ length (raw_bytes points)
    → e.dot_num ≢ 0
    → raw_packet handle dev_type e now ≡ ok (queued_packet handle dev_type e points now)
unfolding raw_packet
raw_packet_lem handle dev_type now e points rest payload size some_points =
    let bytes : read_bytes e.payload 0
          (u32 (u64 (e.length_field + 2 ^ 64 - ethernet_packet_size) + 1))
        ≡ ok (raw_bytes points) =
      ap (λ l. read_bytes l 0 (u32 (u64 (e.length_field + 2 ^ 64 - ethernet_packet_size) + 1)))
        payload
      ∙ ap (read_bytes (raw_bytes points ++ rest) 0) size
      ∙ read_bytes-front (raw_bytes points) rest in
    rw (ne→==_false e.dot_num 0 some_points) (rw bytes refl)

get_lidar_id_lem :
    (r : RawPacket)
    → r.lidar_type ≡ livox_lidar_type
    → get_lidar_id r.lidar_type r.handle ≡ r.handle
unfolding get_lidar_id
get_lidar_id_lem r livox = ground arith

module _ {fl : Floats} where
  process_raw_packet_lem :
      (p : PubHandler fl) (r : RawPacket) (points : RawPoints) (later : ℕ)
      → r.lidar_type ≡ livox_lidar_type
      → r.data_type ≡ raw_type points
      → r.raw_data ≡ raw_bytes points
      → r.point_num ≡ raw_count points
      → r.line_num ≢ 0
      → FitsAll points
      → process_raw_packet p r later ≡ (
          let h = process_handler p r.handle in
          check_timer
            (record p {
              lidar_process_handlers =
                  insert r.handle
                    (record h { points_clouds = h.points_clouds ++ converted_all fl h r points })
                    p.lidar_process_handlers;
            })
            r.handle
            later)
  unfolding process_raw_packet
  process_raw_packet_lem p r points later livox kind raw count lines fits =
      let same : get_lidar_id r.lidar_type r.handle ≡ r.handle = get_lidar_id_lem r livox in
      ap
        (λ id. point_cloud_process fl (process_handler p id) r >>= λ h.
          check_timer (record p { lidar_process_handlers = insert id h p.lidar_process_handlers })
            id later)
        same
      ∙ ap
          (λ o. o >>= λ h.
            check_timer
              (record p { lidar_process_handlers = insert r.handle h p.lidar_process_handlers })
              r.handle later)
          (point_cloud_process-encoded fl (process_handler p r.handle) r points livox kind raw count
            lines fits)

  pub callback_queues :
      (p : PubHandler fl) (handle dev_type now : ℕ) (e : EthernetPacket) (r : RawPacket)
      → (e.data_type == imu_data) ≡ false
      → raw_packet handle dev_type e now ≡ ok r
      → on_livox_lidar_point_cloud_callback p handle dev_type e now
        ≡ ok (
          record p {
            is_timestamp_sync = not (e.time_type == timestamp_type_no_sync);
            raw_packet_queue = p.raw_packet_queue ++ r ∷ [];
          },
          none,
        )
  unfolding on_livox_lidar_point_cloud_callback
  callback_queues p handle dev_type now e r kind made = rw kind (rw made refl)

  -- The only packet of the queue is taken in the next round.
  round_takes :
      (p : PubHandler fl) (r : RawPacket) (later : ℕ)
      → p.is_quit ≡ false
      → p.raw_packet_queue ≡ r ∷ []
      → raw_data_process p later ≡ process_raw_packet (record p { raw_packet_queue = [] }) r later
  unfolding raw_data_process take_raw_packet
  round_takes p r later runs one =
      if_false p.is_quit (ok (p, [])) (take_raw_packet p p.raw_packet_queue later) runs
      ∙ ap (λ q. take_raw_packet p q later) one

  -- A packet of points that the SDK hands to the callback, while no other waits and the thread is not
  -- to stop, is taken in the thread's next round, whose result is that of the timer with the points
  -- of the packet's bytes, converted, behind those that the lidar had, and with the kind of clock
  -- that the packet names.
  pub received_points_lem :
      (p : PubHandler fl) (handle dev_type now later : ℕ) (e : EthernetPacket) (points : RawPoints)
      (rest : List ℕ)
      → p.is_quit ≡ false
      → p.raw_packet_queue ≡ []
      → e.data_type ≡ raw_type points
      → e.payload ≡ raw_bytes points ++ rest
      → e.length_field ≡ 36 + length (raw_bytes points)
      → e.length_field < 2 ^ 16
      → e.dot_num ≡ raw_count points
      → e.dot_num ≢ 0
      → FitsAll points
      → (on_livox_lidar_point_cloud_callback p handle dev_type e now >>= λ r.
          raw_data_process r.0 later)
        ≡ (let h = process_handler p handle in
            check_timer
              (record p {
                is_timestamp_sync = not (e.time_type == timestamp_type_no_sync);
                raw_packet_queue = [];
                lidar_process_handlers =
                    insert handle
                      (record h {
                        points_clouds =
                            h.points_clouds
                            ++ converted_all fl h
                                (queued_packet handle dev_type e points now)
                                points;
                      })
                      p.lidar_process_handlers;
              })
              handle
              later)
  unfolding process_handler
  received_points_lem p handle dev_type now later e points rest runs empty kind payload len short
        count some_points fits =
      let r = queued_packet handle dev_type e points now in
      let waiting : PubHandler fl = record p {
        is_timestamp_sync = not (e.time_type == timestamp_type_no_sync);
        raw_packet_queue = p.raw_packet_queue ++ r ∷ [];
      } in
      let size : u32 (u64 (e.length_field + 2 ^ 64 - ethernet_packet_size) + 1)
          ≡ length (raw_bytes points) =
        payload_size e (length (raw_bytes points)) len
          (raw_bytes_some points (λ z. some_points (count ∙ z))) (omega (arith, len, short)) in
      ap (λ o. o >>= λ x. raw_data_process x.0 later)
        (callback_queues p handle dev_type now e r
          (ap (λ k. k == imu_data) kind ∙ raw_type_lem points)
          (raw_packet_lem handle dev_type now e points rest payload size some_points))
      ∙ round_takes waiting r later runs (ap (λ q. q ++ r ∷ []) empty)
      ∙ process_raw_packet_lem (record waiting { raw_packet_queue = [] }) r points later refl kind
          refl count (line_number_positive dev_type) fits
