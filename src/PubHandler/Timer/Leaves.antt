-- ===== src/PubHandler/Timer/Leaves.antt =====
-- What the timer of comm/pub_handler.cpp, of ros_ws/src/livox_ros_driver2/src, leaves as it is: the
-- queue of raw packets, and the request to stop.
use mathlib.Core.Path.{subst}
use drone_exploration_stack.Prelude.{
  bind_ok, ℕ, ◌+◌, ◌/◌, ◌%◌, ◌≡◌, refl, ◌∙◌, inl, inr, Bool, true, false, not, ◌||◌, Option-cases,
  List, [], ◌∷◌, ltb, ◌==◌, if◌then◌else◌, Outcome, ok, fault, division_by_zero, ◌>>=◌,
}
use drone_exploration_stack.Prelude.Words.{sub64}
use drone_exploration_stack.Prelude.Assoc.{find, nat_key}
use drone_exploration_stack.Floats.{Floats}
use drone_exploration_stack.Comm.{PointXyzlt, ratio_of_ms_to_ns}
use drone_exploration_stack.Lds.{PointFrame}
use drone_exploration_stack.LidarHandler.{
  LidarPubHandler, get_recent_time_stamp, get_lidar_base_time,
}
use drone_exploration_stack.PubHandler.{PubHandler}
use drone_exploration_stack.PubHandler.Timer.{
  collect, collect_all, publish_point_cloud, publish_collected, check_timer_synced,
  check_timer_unsynced, check_timer, put_lidar,
}

module _ {fl : Floats} where
  -- What a call of the timer leaves: the packets wait as before, and the thread is to stop if it was.
  abbrev pub Leaves : PubHandler fl → PubHandler fl → Type 0
  Leaves p q = (q.raw_packet_queue ≡ p.raw_packet_queue) × (q.is_quit ≡ p.is_quit)

  pub Leaves-then : (p q r : PubHandler fl) → Leaves p q → Leaves q r → Leaves p r
  Leaves-then p q r first second = (second.0 ∙ first.0, second.1 ∙ first.1)

  Leaves-of : (p q r : PubHandler fl) → ok q ≡ ok r → Leaves p q → Leaves p r
  Leaves-of p q r e leaves = let same : q ≡ r = cc in subst (Leaves p) same leaves

  collect-Leaves :
      (p q : PubHandler fl) (id : ℕ) (h : LidarPubHandler fl.Float)
      → collect p id h ≡ ok q
      → Leaves p q
  unfolding collect
  collect-Leaves p q id h run =
      let (f, put, returned) = bind_ok (put_lidar p.frame id h) _ q run in
      Leaves-of p _ q returned (refl, refl)

  collect_all-Leaves :
      (hs : List (ℕ × LidarPubHandler fl.Float)) (p q : PubHandler fl)
      → collect_all p hs ≡ ok q
      → Leaves p q
  unfolding collect_all
  collect_all-Leaves [] p q run = Leaves-of p p q run (refl, refl)
  collect_all-Leaves ((id, h) ∷ hs) p q run =
      let (r, first, rest) = bind_ok (collect p id h) (λ r. collect_all r hs) q run in
      Leaves-then p r q (collect-Leaves p r id h first) (collect_all-Leaves hs r q rest)

  -- The same of a call that returns.
  abbrev OkLeaves : PubHandler fl → Outcome (PubHandler fl × List (PointFrame fl.Float)) → Type 0
  OkLeaves p (ok x) = Leaves p x.0
  OkLeaves p (fault why) = Unit

  if-OkLeaves :
      (p : PubHandler fl) (b : Bool) (x y : Outcome (PubHandler fl × List (PointFrame fl.Float)))
      → OkLeaves p x
      → OkLeaves p y
      → OkLeaves p (if b then x else y)
  if-OkLeaves p true x y first second = first
  if-OkLeaves p false x y first second = second

  if_Leaves :
      (p : PubHandler fl) (b : Bool) (x y : PubHandler fl × List (PointFrame fl.Float))
      → Leaves p x.0
      → Leaves p y.0
      → Leaves p (if b then x else y).0
  if_Leaves p true x y first second = first
  if_Leaves p false x y first second = second

  bind-OkLeaves :
      (p : PubHandler fl) (call : Outcome (PubHandler fl))
      (f : PubHandler fl → PubHandler fl × List (PointFrame fl.Float))
      → ((q : PubHandler fl) → call ≡ ok q → Leaves p (f q).0)
      → OkLeaves p (call >>= λ q. ok (f q))
  bind-OkLeaves p (ok q) f leaves = leaves q refl
  bind-OkLeaves p (fault why) f leaves = tt

  publish_collected-OkLeaves :
      (points : List (PointXyzlt fl.Float)) (p q : PubHandler fl)
      → Leaves p q
      → Leaves p (publish_collected points q).0
  unfolding publish_collected publish_point_cloud
  publish_collected-OkLeaves [] p q leaves = leaves
  publish_collected-OkLeaves (x ∷ xs) p q leaves =
      if_Leaves p (q.frame.lidar_num == 0) (q, []) (publish_point_cloud q) leaves leaves

  check_timer_synced-OkLeaves : (p : PubHandler fl) (id : ℕ) → OkLeaves p (check_timer_synced p id)
  unfolding check_timer_synced
  check_timer_synced-OkLeaves p id = elim (Option-cases (find id p.lidar_process_handlers)) [
    | inl unknown ↦ rw (unknown, check_timer_synced) tt
    | inr (h, known) ↦
        let r = get_recent_time_stamp h / ratio_of_ms_to_ns in
        let Result : Type 0 = Outcome (PubHandler fl × List (PointFrame fl.Float)) in
        let stay : Result = ok (p, []) in
        let stays : OkLeaves p stay = (refl, refl) in
        let go : Result = collect p id h >>= λ q. ok (publish_collected h.points_clouds q) in
        let goes : OkLeaves p go =
          bind-OkLeaves p (collect p id h) (publish_collected h.points_clouds) (λ q done.
            publish_collected-OkLeaves h.points_clouds p q (collect-Leaves p q id h done)) in
        let short? =
          ltb (sub64 (get_recent_time_stamp h) (get_lidar_base_time h))
            p.publish_interval_tolerance in
        rw (known, check_timer_synced)
          (if-OkLeaves p (p.publish_interval_ms == 0) (fault division_by_zero)
            (if not (r % p.publish_interval_ms == 0) || (r == 0)
              then stay
              else (if short? then stay else go))
            tt
            (if-OkLeaves p (not (r % p.publish_interval_ms == 0) || (r == 0)) stay
              (if short? then stay else go) stays (if-OkLeaves p short? stay go stays goes)))
  ]

  check_timer_unsynced-OkLeaves :
      (p : PubHandler fl) (now : ℕ) → OkLeaves p (check_timer_unsynced p now)
  unfolding check_timer_unsynced publish_point_cloud
  check_timer_unsynced-OkLeaves p now =
      let started : PubHandler fl = record p {
        last_pub_time = p.last_pub_time + p.publish_interval;
      } in
      if-OkLeaves p p.first _ _ (refl, refl)
        (if-OkLeaves p (ltb now (p.last_pub_time + p.publish_interval)) _ _ (refl, refl)
          (bind-OkLeaves p (collect_all started p.lidar_process_handlers) publish_point_cloud
            (λ q done. collect_all-Leaves p.lidar_process_handlers started q done)))

  -- Whatever the clock and the kind of synchronisation.
  pub check_timer-Leaves :
      (p q : PubHandler fl) (id now : ℕ) (fs : List (PointFrame fl.Float))
      → check_timer p id now ≡ ok (q, fs)
      → Leaves p q
  unfolding check_timer
  check_timer-Leaves p q id now fs run = subst (OkLeaves p) run (
      if-OkLeaves p p.is_timestamp_sync _ _ (check_timer_synced-OkLeaves p id)
        (check_timer_unsynced-OkLeaves p now))
