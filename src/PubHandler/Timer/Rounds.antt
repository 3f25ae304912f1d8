-- ===== src/PubHandler/Timer/Rounds.antt =====
-- What `CheckTimer` of comm/pub_handler.cpp gives its subscriber in a round, and what it leaves in
-- the handlers.
use mathlib.Core.Option
use drone_exploration_stack.Prelude.{
  ℕ, ◌+◌, ◌≤◌, ◌≡◌, refl, ap, ◌∙◌, true, false, Option, none, some, List, [], ◌∷◌, ◌++◌, length,
  take, ltb, ok, arith, ==_iff, if_true, if_false, le→ltb_false,
}
use drone_exploration_stack.Prelude.Assoc.{find, insert, nat_key, find-insert}
use drone_exploration_stack.Floats.{Floats}
use drone_exploration_stack.Comm.{PointXyzlt, PointPacket}
use drone_exploration_stack.Lds.{PointFrame}
use drone_exploration_stack.LidarHandler.{LidarPubHandler}
use drone_exploration_stack.PubHandler.{PubHandler}
use drone_exploration_stack.PubHandler.Timer.{
  collect_all, publish_point_cloud, check_timer_unsynced, check_timer,
}
use drone_exploration_stack.PubHandler.Timer.Frames.{
  HasRoom, packets, base_times, packets_then, packets_of, times_then, times_of, emptied, IsMap,
  Adds, Adds-none, Adds-join, collected, collect-Adds,
}

module _ {F : Type 0} where
  packets_then-append :
      (id : ℕ) (points : List (PointXyzlt F)) (rest : List (PointPacket F))
      → packets_then id points [] ++ rest ≡ packets_then id points rest
  packets_then-append id [] rest = refl
  packets_then-append id (q ∷ qs) rest = refl

  times_then-append :
      (points : List (PointXyzlt F)) (rest : List ℕ)
      → times_then points [] ++ rest ≡ times_then points rest
  times_then-append [] rest = refl
  times_then-append (q ∷ qs) rest = refl

  packets_then-length :
      (id : ℕ) (points : List (PointXyzlt F)) → length (packets_then id points []) ≤ 1
  packets_then-length id [] = omega arith
  packets_then-length id (q ∷ qs) = omega arith

  -- The handler of `j` after the loop over `hs` that began with the handlers `m`.
  abbrev after :
      Option (LidarPubHandler F) → Option (LidarPubHandler F) → Option (LidarPubHandler F)
  after none old = old
  after (some h) old = some (emptied h)

  joined :
      (id : ℕ) (h : LidarPubHandler F) (hs : List (ℕ × LidarPubHandler F)) (f f' f'' : PointFrame F)
      → Adds f (packets_then id h.points_clouds []) (times_then h.points_clouds []) f'
      → Adds f' (packets_of hs) (times_of hs) f''
      → Adds f (packets_of ((id, h) ∷ hs)) (times_of ((id, h) ∷ hs)) f''
  joined id h hs f f' f'' a a' =
      rw (← packets_then-append id h.points_clouds (packets_of hs))
        (rw (← times_then-append h.points_clouds (times_of hs)) (Adds-join f f' f'' _ _ _ _ a a'))

  after_self : (o : Option (LidarPubHandler F)) → after o o ≡ Option.map emptied o
  after_self none = refl
  after_self (some h) = refl

  after-insert :
      (j id : ℕ) (h : LidarPubHandler F) (hs m : List (ℕ × LidarPubHandler F))
      → find id hs ≡ none
      → after (find j hs) (find j (insert id (emptied h) m))
        ≡ after (find j ((id, h) ∷ hs)) (find j m)
  after-insert j id h hs m fresh = ground (arith, ==_iff j id, find-insert id j (emptied h) m)

module _ {fl : Floats} where
  -- What the loop does not touch.
  Keeps : PubHandler fl → PubHandler fl → Type 0
  Keeps p p' =
      (p'.last_pub_time ≡ p.last_pub_time)
      × (p'.has_points_callback ≡ p.has_points_callback)
      × (p'.raw_packet_queue ≡ p.raw_packet_queue)

  collect_all-Adds :
      (p : PubHandler fl) (hs : List (ℕ × LidarPubHandler fl.Float))
      → HasRoom p.frame
      → p.frame.lidar_num + length hs ≤ 32
      → IsMap hs
      → (p' : PubHandler fl) × (collect_all p hs ≡ ok p')
        × Adds p.frame (packets_of hs) (times_of hs) p'.frame
        × Keeps p p'
        × ((j : ℕ)
            → find j p'.lidar_process_handlers
              ≡ after (find j hs) (find j p.lidar_process_handlers))
  unfolding collect_all Keeps Adds
  collect_all-Adds p [] room fits distinct =
      (p, refl, Adds-none p.frame room, (refl, refl, refl), λ j. refl)
  collect_all-Adds p ((id, h) ∷ hs) room fits (fresh, distinct) =
      let (f, e, adds) = collect-Adds p id h room (omega arith) in
      let (p', done, adds', keeps, finds) =
        collect_all-Adds (collected p id h f) hs adds.0
          (omega (arith, adds.1, packets_then-length id h.points_clouds)) distinct in
      (
        p',
        rw e done,
        joined id h hs p.frame f p'.frame adds adds',
        keeps,
        λ j. finds j ∙ after-insert j id h hs p.lidar_process_handlers fresh,
      )

  pub publish_point_cloud-called :
      (p : PubHandler fl)
      → p.has_points_callback ≡ true
      → publish_point_cloud p
        ≡ (record p { frame = record p.frame { lidar_num = 0 } }, p.frame ∷ [])
  unfolding publish_point_cloud
  publish_point_cloud-called p callback =
      ap (λ fs. (record p { frame = record p.frame { lidar_num = 0 } }, fs))
        (if_true p.has_points_callback (p.frame ∷ []) [] callback)

  -- Without synchronised clocks, once the interval has passed since the last frame, a frame goes to
  -- the subscriber that has exactly one packet for each of the at most 32 lidars with points, in the
  -- order of their handles, with all the lidar's points and the time of its first one; every lidar's
  -- points are gone from its handler after it, and the next frame is due an interval later. The
  -- frame is one that the timer left: empty, with its arrays of 32.
  pub check_timer_unsynced_lem :
      (p : PubHandler fl) (id now : ℕ)
      → p.is_timestamp_sync ≡ false
      → p.first ≡ false
      → p.has_points_callback ≡ true
      → p.last_pub_time + p.publish_interval ≤ now
      → HasRoom p.frame
      → p.frame.lidar_num ≡ 0
      → length p.lidar_process_handlers ≤ 32
      → IsMap p.lidar_process_handlers
      → (p' : PubHandler fl) × (f : PointFrame fl.Float) × (check_timer p id now ≡ ok (p', f ∷ []))
        × (packets f ≡ packets_of p.lidar_process_handlers)
        × (base_times f ≡ times_of p.lidar_process_handlers)
        × ((j : ℕ)
            → find j p'.lidar_process_handlers
              ≡ Option.map emptied (find j p.lidar_process_handlers))
        × (p'.last_pub_time ≡ p.last_pub_time + p.publish_interval)
        × (p'.frame.lidar_num ≡ 0)
        × HasRoom p'.frame
  unfolding check_timer check_timer_unsynced publish_point_cloud Adds Keeps HasRoom packets
      base_times
  check_timer_unsynced_lem p id now unsynced first callback due room zero_num few distinct =
      let p0 = record p { last_pub_time = p.last_pub_time + p.publish_interval } in
      let (p', done, (room', n, ps, bs), (last, callback', queue), finds) =
        collect_all-Adds p0 p.lidar_process_handlers room (omega arith) distinct in
      (
        record p' { frame = record p'.frame { lidar_num = 0 } },
        p'.frame,
        if_false p.is_timestamp_sync _ _ unsynced
            ∙ if_false p.first _ _ first
            ∙ if_false (ltb now (p.last_pub_time + p.publish_interval)) _ _ (le→ltb_false now _ due)
            ∙ rw done (ap ok (publish_point_cloud-called p' (callback' ∙ callback))),
        ps ∙ ap (λ k. take k p.frame.lidar_point ++ packets_of p.lidar_process_handlers) zero_num,
        bs ∙ ap (λ k. take k p.frame.base_time ++ times_of p.lidar_process_handlers) zero_num,
        λ j. finds j ∙ after_self (find j p.lidar_process_handlers),
        last,
        refl,
        room',
      )
