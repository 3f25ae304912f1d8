-- ===== src/PubHandler/Process/Order.antt =====
-- The queue of raw packets of comm/pub_handler.cpp, of ros_ws/src/livox_ros_driver2/src, between the
-- SDK's thread and the processing thread, over any order of their steps. A step is one call: both
-- threads hold the mutex while they change the queue, and what a round does after it has taken its
-- packet leaves the queue alone.
use mathlib.Core.List.{append_assoc, append-nil}
use mathlib.Core.Path.{subst}
use drone_exploration_stack.Prelude.{
  bind_ok, ℕ, ◌≡◌, refl, sym, ap, ◌∙◌, inl, inr, Bool, true, false, not, Bool-cases, Option, none,
  some, List, [], ◌∷◌, ◌++◌, take, ◌==◌, if◌then◌else◌, if_true, if_false, Outcome, ok, fault,
  ◌>>=◌,
}
use drone_exploration_stack.Prelude.Assoc.{insert, nat_key}
use drone_exploration_stack.Floats.{Floats}
use drone_exploration_stack.Comm.{RawPacket, imu_data, ImuData, timestamp_type_no_sync}
use drone_exploration_stack.Lds.{PointFrame}
use drone_exploration_stack.LidarHandler.{point_cloud_process}
use drone_exploration_stack.PubHandler.{
  PubHandler, EthernetPacket, raw_packet, imu_sample, get_lidar_id, request_exit,
  on_livox_lidar_point_cloud_callback,
}
use drone_exploration_stack.PubHandler.Timer.{check_timer}
use drone_exploration_stack.PubHandler.Timer.Leaves.{check_timer-Leaves}
use drone_exploration_stack.PubHandler.Process.{
  process_handler, process_raw_packet, take_raw_packet, raw_data_process,
}
use drone_exploration_stack.PubHandler.Process.Received.{callback_queues}

module _ {fl : Floats} where
  abbrev Waits : {B : Type 0} → List RawPacket → Outcome (PubHandler fl × B) → Type 0
  Waits rs (ok x) = x.0.raw_packet_queue ≡ rs
  Waits rs (fault why) = Unit

  sample-Waits :
      (p : PubHandler fl) (b : Bool) (sample : Outcome (ImuData fl.Float))
      → Waits p.raw_packet_queue (if b then (sample >>= λ d. ok (p, some d)) else ok (p, none))
  sample-Waits p true (ok d) = refl
  sample-Waits p true (fault why) = tt
  sample-Waits p false sample = refl

  -- An IMU sample passes the queue by.
  sample_keeps :
      (p q : PubHandler fl) (handle dev_type now : ℕ) (e : EthernetPacket)
      (o : Option (ImuData fl.Float))
      → (e.data_type == imu_data) ≡ true
      → on_livox_lidar_point_cloud_callback p handle dev_type e now ≡ ok (q, o)
      → q.raw_packet_queue ≡ p.raw_packet_queue
  unfolding on_livox_lidar_point_cloud_callback
  sample_keeps p q handle dev_type now e o kind run =
      let synced : PubHandler fl = record p {
        is_timestamp_sync = not (e.time_type == timestamp_type_no_sync);
      } in
      subst (Waits p.raw_packet_queue) (sym (if_true (e.data_type == imu_data) _ _ kind) ∙ run)
        (sample-Waits synced p.has_imu_callback (imu_sample fl handle e now))

  process-Waits :
      (p q : PubHandler fl) (r : RawPacket) (now : ℕ) (fs : List (PointFrame fl.Float))
      → process_raw_packet p r now ≡ ok (q, fs)
      → q.raw_packet_queue ≡ p.raw_packet_queue
  unfolding process_raw_packet
  process-Waits p q r now fs run =
      let id = get_lidar_id r.lidar_type r.handle in
      let (h, converted, timed) =
        bind_ok (point_cloud_process fl (process_handler p id) r)
          (λ h.
            check_timer (record p { lidar_process_handlers = insert id h p.lidar_process_handlers })
              id now)
          (q, fs) run in
      (check_timer-Leaves
        (record p { lidar_process_handlers = insert id h p.lidar_process_handlers }) q id now fs
        timed).0

  take-front :
      (p q : PubHandler fl) (rs : List RawPacket) (now : ℕ) (fs : List (PointFrame fl.Float))
      → p.raw_packet_queue ≡ rs
      → take_raw_packet p rs now ≡ ok (q, fs)
      → take 1 rs ++ q.raw_packet_queue ≡ rs
  unfolding take_raw_packet
  take-front p q [] now fs waits run = subst (Waits []) run waits
  take-front p q (r ∷ rs) now fs waits run =
      ap (λ qs. r ∷ qs) (process-Waits (record p { raw_packet_queue = rs }) q r now fs run)

  -- What a round of the thread comes to, with the packet that it has processed: it takes one off the
  -- queue, converts its points and asks the timer; or it does nothing, as no packet waits, or as it is
  -- to stop.
  pub data Handled (p : PubHandler fl) (now : ℕ) (q : PubHandler fl)
      (fs : List (PointFrame fl.Float)) : List RawPacket → Type 0 where
    one :
        (r : RawPacket) (rs : List RawPacket)
        → process_raw_packet (record p { raw_packet_queue = rs }) r now ≡ ok (q, fs)
        → Handled p now q fs (r ∷ [])
    none_waits : q ≡ p → fs ≡ [] → p.raw_packet_queue ≡ [] → Handled p now q fs []
    stops : q ≡ p → fs ≡ [] → p.is_quit ≡ true → Handled p now q fs []

  same_result :
      (p q : PubHandler fl) (fs : List (PointFrame fl.Float))
      → ◌≡◌ {A = Outcome (PubHandler fl × List (PointFrame fl.Float))} (ok (p, [])) (ok (q, fs))
      → (q ≡ p) × (fs ≡ [])
  same_result p q fs e =
      let same : ◌≡◌ {A = PubHandler fl × List (PointFrame fl.Float)} (q, fs) (p, []) = cc in
      (
        ap (λ (x : PubHandler fl × List (PointFrame fl.Float)). x.0) same,
        ap (λ (x : PubHandler fl × List (PointFrame fl.Float)). x.1) same,
      )

  take-Handled :
      (p q : PubHandler fl) (rs : List RawPacket) (now : ℕ) (fs : List (PointFrame fl.Float))
      → p.raw_packet_queue ≡ rs
      → take_raw_packet p rs now ≡ ok (q, fs)
      → Handled p now q fs (take 1 rs)
  unfolding take_raw_packet
  take-Handled p q [] now fs waits run =
      let (same, no_frames) = same_result p q fs run in none_waits same no_frames waits
  take-Handled p q (r ∷ rs) now fs waits run = one r rs run

  round-Handled :
      (p q : PubHandler fl) (now : ℕ) (fs : List (PointFrame fl.Float))
      → raw_data_process p now ≡ ok (q, fs)
      → (rs : List RawPacket) × Handled p now q fs rs
        × (rs ++ q.raw_packet_queue ≡ p.raw_packet_queue)
  unfolding raw_data_process
  round-Handled p q now fs run = elim (Bool-cases p.is_quit) [
    | inl quits ↦
        let (same, no_frames) = same_result p q fs (sym (if_true p.is_quit _ _ quits) ∙ run) in
        ([], stops same no_frames quits, ap (λ x. x.raw_packet_queue) same)
    | inr runs ↦
        let taken = sym (if_false p.is_quit _ _ runs) ∙ run in
        (
          take 1 p.raw_packet_queue,
          take-Handled p q p.raw_packet_queue now fs refl taken,
          take-front p q p.raw_packet_queue now fs refl taken,
        )
  ]

  -- A run from `p` on, in any order of the calls: the state, and the packets that the callback has
  -- queued, in their order.
  pub data Run (p : PubHandler fl) : PubHandler fl → List RawPacket → Type 0 where
    begin : Run p p []
    queue_packet :
        (q q' : PubHandler fl) (accepted : List RawPacket) (handle dev_type now : ℕ)
        (e : EthernetPacket) (r : RawPacket)
        → Run p q accepted
        → (e.data_type == imu_data) ≡ false
        → raw_packet handle dev_type e now ≡ ok r
        → on_livox_lidar_point_cloud_callback q handle dev_type e now ≡ ok (q', none)
        → Run p q' (accepted ++ r ∷ [])
    pass_sample :
        (q q' : PubHandler fl) (accepted : List RawPacket) (handle dev_type now : ℕ)
        (e : EthernetPacket) (o : Option (ImuData fl.Float))
        → Run p q accepted
        → (e.data_type == imu_data) ≡ true
        → on_livox_lidar_point_cloud_callback q handle dev_type e now ≡ ok (q', o)
        → Run p q' accepted
    process_round :
        (q q' : PubHandler fl) (accepted : List RawPacket) (now : ℕ)
        (fs : List (PointFrame fl.Float))
        → Run p q accepted
        → raw_data_process q now ≡ ok (q', fs)
        → Run p q' accepted
    ask_to_stop :
        (q : PubHandler fl) (accepted : List RawPacket)
        → Run p q accepted
        → Run p (request_exit q) accepted

  -- The packets that the rounds of a run have processed, in their order.
  pub data Processed (p : PubHandler fl)
      : (q : PubHandler fl) (accepted : List RawPacket)
        → Run p q accepted
        → List RawPacket
        → Type 0 where
    at_start : Processed p p [] begin []
    after_packet :
        (q q' : PubHandler fl) (accepted : List RawPacket) (handle dev_type now : ℕ)
        (e : EthernetPacket) (r : RawPacket) (run : Run p q accepted)
        (kind : (e.data_type == imu_data) ≡ false) (made : raw_packet handle dev_type e now ≡ ok r)
        (call : on_livox_lidar_point_cloud_callback q handle dev_type e now ≡ ok (q', none))
        (rs : List RawPacket)
        → Processed p q accepted run rs
        → Processed p q'
            (accepted ++ r ∷ [])
            (queue_packet q q' accepted handle dev_type now e r run kind made call)
            rs
    after_sample :
        (q q' : PubHandler fl) (accepted : List RawPacket) (handle dev_type now : ℕ)
        (e : EthernetPacket) (o : Option (ImuData fl.Float)) (run : Run p q accepted)
        (kind : (e.data_type == imu_data) ≡ true)
        (call : on_livox_lidar_point_cloud_callback q handle dev_type e now ≡ ok (q', o))
        (rs : List RawPacket)
        → Processed p q accepted run rs
        → Processed p q' accepted
            (pass_sample q q' accepted handle dev_type now e o run kind call)
            rs
    after_round :
        (q q' : PubHandler fl) (accepted : List RawPacket) (now : ℕ)
        (fs : List (PointFrame fl.Float)) (run : Run p q accepted)
        (call : raw_data_process q now ≡ ok (q', fs)) (rs new : List RawPacket)
        → Processed p q accepted run rs
        → Handled q now q' fs new
        → Processed p q' accepted (process_round q q' accepted now fs run call) (rs ++ new)
    after_request :
        (q : PubHandler fl) (accepted : List RawPacket) (run : Run p q accepted)
        (rs : List RawPacket)
        → Processed p q accepted run rs
        → Processed p (request_exit q) accepted (ask_to_stop q accepted run) rs

  -- In every order of the callbacks of the SDK, the rounds of the thread and the requests to stop, each
  -- round processes one packet, or none as none waits or the thread is to stop; the packets processed
  -- so far, followed by those that wait, are those that waited at the start, followed by those that
  -- the callback has queued since: none is lost, doubled or overtaken.
  pub raw_packets_fifo :
      (p q : PubHandler fl) (accepted : List RawPacket) (run : Run p q accepted)
      → (rs : List RawPacket) × Processed p q accepted run rs
        × (rs ++ q.raw_packet_queue ≡ p.raw_packet_queue ++ accepted)
  unfolding request_exit
  raw_packets_fifo p q accepted begin = ([], at_start, sym (append-nil p.raw_packet_queue))
  raw_packets_fifo p q accepted
        (queue_packet before after old handle dev_type now e r run kind made call) =
      let (rs, done, order) = raw_packets_fifo p before old run in
      let queued : q.raw_packet_queue ≡ before.raw_packet_queue ++ r ∷ [] =
        subst (Waits (before.raw_packet_queue ++ r ∷ []))
          (sym (callback_queues before handle dev_type now e r kind made) ∙ call) refl in
      (
        rs,
        after_packet before q old handle dev_type now e r run kind made call rs done,
        ap (λ qs. rs ++ qs) queued
            ∙ sym (append_assoc rs before.raw_packet_queue (r ∷ []))
            ∙ ap (λ qs. qs ++ r ∷ []) order
            ∙ append_assoc p.raw_packet_queue old (r ∷ []),
      )
  raw_packets_fifo p q accepted (pass_sample before after _ handle dev_type now e o run kind call) =
      let (rs, done, order) = raw_packets_fifo p before accepted run in
      (
        rs,
        after_sample before q accepted handle dev_type now e o run kind call rs done,
        ap (λ qs. rs ++ qs) (sample_keeps before q handle dev_type now e o kind call) ∙ order,
      )
  raw_packets_fifo p q accepted (process_round before after _ now fs run call) =
      let (rs, done, order) = raw_packets_fifo p before accepted run in
      let (new, handled, front) = round-Handled before q now fs call in
      (
        rs ++ new,
        after_round before q accepted now fs run call rs new done handled,
        append_assoc rs new q.raw_packet_queue ∙ ap (λ qs. rs ++ qs) front ∙ order,
      )
  raw_packets_fifo p q accepted (ask_to_stop before _ run) =
      let (rs, done, order) = raw_packets_fifo p before accepted run in
      (rs, after_request before accepted run rs done, order)
