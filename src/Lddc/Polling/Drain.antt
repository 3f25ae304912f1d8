-- ===== src/Lddc/Polling/Drain.antt =====
-- What the polling loop of lddc.cpp makes of the packets that wait.
use drone_exploration_stack.Prelude.{
  ℕ, ◌+◌, ◌%◌, ◌≡◌, refl, ap, ◌∙◌, true, false, List, [], ◌∷◌, ◌++◌, map, length, take, leb, ◌==◌,
  if◌then◌else◌, Outcome, ok, arith, if_true, if_false,
}
use mathlib.Core.List.{append-nil}
use drone_exploration_stack.Prelude.Words.{u32}
use drone_exploration_stack.Floats.{Floats}
use drone_exploration_stack.Comm.{PointXyzlt, StoragePacket, livox_lidar_type}
use drone_exploration_stack.Ldq.{
  LidarDataQueue, blank_packet, queue_is_empty, queue_used_size, copy_points,
}
use drone_exploration_stack.Ldq.Invariant.{Entry, contents, IsValid}
use drone_exploration_stack.Ldq.Refine.{is_empty_is_full, pop_refines, used_size-length}
use drone_exploration_stack.Lds.{LidarDevice}
use drone_exploration_stack.Lddc.{
  Lddc, Delivery, CustomMsg, custom, point_cloud_2_msg, livox_custom_msg,
}
use drone_exploration_stack.Lddc.Messages.{
  seconds, timestamp_of, init_custom_msg, fill_points_to_custom_msg,
}
use drone_exploration_stack.Lddc.Polling.Wanted.{
  wanted_delivery, wanted_point, deliver-wanted, custom_points-wanted,
}
use drone_exploration_stack.Lddc.Polling.{
  publish_popped, drain, publish_custom, publish_format, poll_rounds,
  polling_lidar_point_cloud_data,
}

take-length : {A : Type 0} (xs : List A) → take (length xs) xs ≡ xs
take-length [] = refl
take-length (x ∷ xs) = ap (λ ys. x ∷ ys) (take-length xs)

copy_all : {F : Type 0} (xs : List (PointXyzlt F)) → copy_points (length xs) xs ≡ ok xs
unfolding copy_points
copy_all xs = if_true (leb (length xs) (length xs)) _ _ (ground arith) ∙ ap ok (take-length xs)

-- The packet that a pop hands out for an entry.
abbrev packet_for : {F : Type 0} → Entry F → StoragePacket F
packet_for {F} e = record (blank_packet F) {
  base_time = e.base_time;
  points_num = length e.points;
  points = e.points;
}

module _ {fl : Floats} where
  module _ (step : Lddc fl → Entry fl.Float → Lddc fl × List (Delivery fl)) where
    -- An entry without points is passed over.
    abbrev pub visit : Lddc fl → ℕ → List (PointXyzlt fl.Float) → Lddc fl × List (Delivery fl)
    visit l t [] = (l, [])
    visit l t (p ∷ ps) = step l (record { base_time = t; points = p ∷ ps })

    -- The entries one after the other.
    abbrev pub run : Lddc fl → List (Entry fl.Float) → Lddc fl × List (Delivery fl)
    run l [] = (l, [])
    run l (e ∷ es) =
        let now = visit l e.base_time e.points in
        let rest = run now.0 es in (rest.0, now.1 ++ rest.1)

    module _ (publish : Lddc fl → StoragePacket fl.Float → Outcome (Lddc fl × List (Delivery fl)))
        (publishes : (l : Lddc fl) (t : ℕ) (p : PointXyzlt fl.Float)
            (ps : List (PointXyzlt fl.Float))
          → publish l (packet_for (record { base_time = t; points = p ∷ ps }))
            ≡ ok (step l (record { base_time = t; points = p ∷ ps }))) where
      publish_popped-visit :
          (l : Lddc fl) (t : ℕ) (ps : List (PointXyzlt fl.Float))
          → publish_popped publish l (packet_for (record { base_time = t; points = ps }))
            ≡ ok (visit l t ps)
      unfolding publish_popped
      publish_popped-visit l t [] = refl
      publish_popped-visit l t (p ∷ ps) = publishes l t p ps

      -- With as much fuel as packets wait, the loop leaves none.
      drain-run :
          (es : List (Entry fl.Float)) (l : Lddc fl) (q : LidarDataQueue fl.Float)
          → IsValid q
          → contents q ≡ es
          → (q' : LidarDataQueue fl.Float) × (drain publish (length es) l q
              ≡ ok (record { queue = q'; lddc = (run l es).0; deliveries = (run l es).1 }))
            × IsValid q'
            × (contents q' ≡ [])
      unfolding drain
      drain-run [] l q v waits = (q, refl, v, waits)
      drain-run (e ∷ es) l q v waits =
          let some_wait : queue_is_empty q ≡ false =
            rw (is_empty_is_full q v).0 (rw waits (ground arith)) in
          let (q₁, popped, v₁, _, left) = pop_refines q (blank_packet fl.Float) e es v waits in
          let (q', done, v', none_left) =
            drain-run es (visit l e.base_time e.points).0 q₁ v₁ left in
          (
            q',
            if_false (queue_is_empty q) _ _ some_wait
                ∙ rw popped (rw (publish_popped-visit l e.base_time e.points) (rw done refl)),
            v',
            none_left,
          )

  -- The message in the driver's own format for an entry that has points.
  pub custom_of : LidarDevice fl.Float → Lddc fl → Entry fl.Float → CustomMsg fl
  custom_of lidar l e = record {
    frame_id = l.frame_id;
    seq = l.msg_seq;
    stamp = seconds fl e.base_time;
    timebase = e.base_time;
    point_num = length e.points;
    lidar_id = if lidar.lidar_type == livox_lidar_type then lidar.handle % 256 else 0;
    points = map (wanted_point fl e.base_time) e.points;
  }

  unfoldable pub custom_step :
      ℕ → LidarDevice fl.Float → Lddc fl → Entry fl.Float → Lddc fl × List (Delivery fl)
  unfolding custom_of
  custom_step index lidar l e = (
    record l { msg_seq = u32 (l.msg_seq + 1) },
    wanted_delivery l l.enable_lidar_bag index (seconds fl e.base_time)
          (custom (custom_of lidar l e))
        ∷ [],
  )

  publish_custom-step :
      (index : ℕ) (lidar : LidarDevice fl.Float) (l : Lddc fl) (t : ℕ) (p : PointXyzlt fl.Float)
      (ps : List (PointXyzlt fl.Float))
      → publish_custom index lidar l (packet_for (record { base_time = t; points = p ∷ ps }))
        ≡ ok (custom_step index lidar l (record { base_time = t; points = p ∷ ps }))
  unfolding publish_custom custom_step fill_points_to_custom_msg init_custom_msg timestamp_of
      custom_of
  publish_custom-step index lidar l t p ps = rw (copy_all (p ∷ ps)) (
      ap (λ ds. ok (record l { msg_seq = u32 (l.msg_seq + 1) }, ds))
        (deliver-wanted l l.enable_lidar_bag index (seconds fl t) _
          ∙ ap
              (λ points.
                wanted_delivery l l.enable_lidar_bag index (seconds fl t) (
                  custom (record (custom_of lidar l (record { base_time = t; points = p ∷ ps })) {
                    points = points;
                  }))
                ∷ [])
              (custom_points-wanted fl t (p ∷ ps))))

  -- A queue that is empty ends the polling.
  poll_rounds_empty :
      (index : ℕ) (lidar : LidarDevice fl.Float) (l : Lddc fl) (q : LidarDataQueue fl.Float)
      → IsValid q
      → contents q ≡ []
      → poll_rounds 1 false index lidar l q ≡ ok (record { queue = q; lddc = l; deliveries = [] })
  unfolding poll_rounds
  poll_rounds_empty index lidar l q v none_wait =
      let empty : queue_is_empty q ≡ true = rw (is_empty_is_full q v).0 (rw none_wait refl) in
      if_true (queue_is_empty q) _ _ empty

  publish_format-custom :
      (index : ℕ) (lidar : LidarDevice fl.Float) (l : Lddc fl) (q : LidarDataQueue fl.Float)
      → l.transfer_format ≡ livox_custom_msg
      → publish_format index lidar l q ≡ drain (publish_custom index lidar) (queue_used_size q) l q
  unfolding publish_format
  publish_format-custom index lidar l q format =
      if_false (l.transfer_format == point_cloud_2_msg) _ _ (rw format refl)
      ∙ if_true (l.transfer_format == livox_custom_msg) _ _ (rw format refl)

  polled :
      (index : ℕ) (lidar : LidarDevice fl.Float) (l : Lddc fl) (es : List (Entry fl.Float))
      (q : LidarDataQueue fl.Float)
      → IsValid q
      → contents q ≡ es
      → l.transfer_format ≡ livox_custom_msg
      → (q' : LidarDataQueue fl.Float) × (poll_rounds 2 false index lidar l q
          ≡ ok (record {
            queue = q';
            lddc = (run (custom_step index lidar) l es).0;
            deliveries = (run (custom_step index lidar) l es).1;
          }))
        × IsValid q'
        × (contents q' ≡ [])
  unfolding poll_rounds
  polled index lidar l [] q v waits format =
      let empty : queue_is_empty q ≡ true = rw (is_empty_is_full q v).0 (rw waits refl) in
      (q, if_true (queue_is_empty q) _ _ empty, v, waits)
  polled index lidar l (e ∷ es) q v waits format =
      let some_wait : queue_is_empty q ≡ false =
        rw (is_empty_is_full q v).0 (rw waits (ground arith)) in
      let (q', done, v', none_left) =
        drain-run (custom_step index lidar) (publish_custom index lidar)
          (publish_custom-step index lidar) (e ∷ es) l q v waits in
      let fuel : queue_used_size q ≡ length (e ∷ es) = used_size-length q v ∙ ap length waits in
      let l' = (run (custom_step index lidar) l (e ∷ es)).0 in
      let made = (run (custom_step index lidar) l (e ∷ es)).1 in
      (
        q',
        if_false (queue_is_empty q) _ _ some_wait
            ∙ rw (publish_format-custom index lidar l q format) (
                rw fuel (
                  rw done (
                    rw (poll_rounds_empty index lidar l' q' v' none_left) (
                      ap (λ ds. ok (record { queue = q'; lddc = l'; deliveries = ds }))
                        (append-nil made))))),
        v',
        none_left,
      )

  -- `PollingLidarPointCloudData`, in the driver's own message format and with no exit requested, ends
  -- and leaves the device's valid queue empty: of each packet that waited and has points, oldest first,
  -- it makes one message with all its points and their values, their times since the packet's, the low
  -- byte of the lidar's handle and the next sequence number; the message is published, or, where ROS is
  -- not the output, written to the bag file if there is one that takes points.
  pub polling_lidar_point_cloud_data_lem :
      (index : ℕ) (lidar : LidarDevice fl.Float) (l : Lddc fl)
      → IsValid lidar.queue
      → l.transfer_format ≡ livox_custom_msg
      → (q' : LidarDataQueue fl.Float) × (polling_lidar_point_cloud_data false index lidar l
            lidar.queue.storage_packet
          ≡ ok (record {
            queue = q';
            lddc = (run (custom_step index lidar) l (contents lidar.queue)).0;
            deliveries = (run (custom_step index lidar) l (contents lidar.queue)).1;
          }))
        × IsValid q'
        × (contents q' ≡ [])
  unfolding polling_lidar_point_cloud_data poll_rounds
  polling_lidar_point_cloud_data_lem index lidar l v format =
      let (q', done, v', none_left) =
        polled index lidar l (contents lidar.queue) lidar.queue v refl format in
      (
        q',
        ap (polling_lidar_point_cloud_data false index lidar l) (ap (λ q. q.storage_packet) v.is)
            ∙ done,
        v',
        none_left,
      )
