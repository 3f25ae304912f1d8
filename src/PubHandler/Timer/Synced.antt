-- ===== src/PubHandler/Timer/Synced.antt =====
-- `CheckTimer` of comm/pub_handler.cpp with synchronised clocks, after the packets of one lidar.
use drone_exploration_stack.Prelude.{
  ℕ, ◌/◌, ◌%◌, ◌≤◌, ◌≡◌, ◌≢◌, ◌⊎◌, inl, inr, refl, ap, ◌∙◌, Bool, true, false, not, ◌||◌, some,
  List, [], ◌∷◌, ◌++◌, take, ltb, ◌==◌, if◌then◌else◌, Outcome, ok, ◌>>=◌, arith, Bool-cases,
  ==_iff, ne→==_false, if_true, if_false, le→ltb_false,
}
use drone_exploration_stack.Prelude.Words.{sub64}
use drone_exploration_stack.Prelude.Assoc.{find, nat_key, find-insert}
use drone_exploration_stack.Floats.{Floats}
use drone_exploration_stack.Comm.{PointXyzlt, ratio_of_ms_to_ns}
use drone_exploration_stack.Lds.{PointFrame}
use drone_exploration_stack.LidarHandler.{
  LidarPubHandler, first_time, last_time, get_lidar_base_time, get_recent_time_stamp,
}
use drone_exploration_stack.PubHandler.{PubHandler}
use drone_exploration_stack.PubHandler.Timer.{
  collect, publish_collected, check_timer_synced, check_timer,
}
use drone_exploration_stack.PubHandler.Timer.Frames.{
  HasRoom, packets, base_times, packet_of, packets_then, times_then, emptied, Adds, collected,
  collect-Adds,
}
use drone_exploration_stack.PubHandler.Timer.Rounds.{publish_point_cloud-called}

-- The outcome of the three tests of the synchronised branch.
abbrev choose : {A : Type 0} → Bool → Bool → Bool → A → A → A
choose even none_yet short stay go =
    if not even || none_yet then stay else if short then stay else go

choose_odd :
    {A : Type 0} (even none_yet short : Bool) (stay go : A)
    → even ≡ false
    → choose even none_yet short stay go ≡ stay
choose_odd even none_yet short stay go e = rw e refl

choose_none_yet :
    {A : Type 0} (even none_yet short : Bool) (stay go : A)
    → even ≡ true
    → none_yet ≡ true
    → choose even none_yet short stay go ≡ stay
choose_none_yet even none_yet short stay go e e' = rw (e, e') refl

choose_timely :
    {A : Type 0} (even none_yet short : Bool) (stay go : A)
    → even ≡ true
    → none_yet ≡ false
    → choose even none_yet short stay go ≡ (if short then stay else go)
choose_timely even none_yet short stay go e e' = rw (e, e') refl

module _ {F : Type 0} where
  packets_then-some :
      (id : ℕ) (points : List (PointXyzlt F))
      → points ≢ []
      → packets_then id points [] ≡ packet_of id points ∷ []
  packets_then-some id [] some_point = absurd (some_point refl)
  packets_then-some id (q ∷ qs) some_point = refl

  times_then-some :
      (points : List (PointXyzlt F)) → points ≢ [] → times_then points [] ≡ first_time points ∷ []
  times_then-some [] some_point = absurd (some_point refl)
  times_then-some (q ∷ qs) some_point = refl

module _ {fl : Floats} where
  -- Whether a lidar's points make up a frame: the last of them is at a multiple of the interval in
  -- milliseconds, not at 0, and the tolerance lies between it and the first.
  pub IsDue : PubHandler fl → LidarPubHandler fl.Float → Type 0
  IsDue p h =
      (get_recent_time_stamp h / ratio_of_ms_to_ns % p.publish_interval_ms ≡ 0)
      × (get_recent_time_stamp h / ratio_of_ms_to_ns ≢ 0)
      × (p.publish_interval_tolerance ≤ sub64 (get_recent_time_stamp h) (get_lidar_base_time h))

  -- The tests of the synchronised branch, with the interval known.
  abbrev tests :
      PubHandler fl
      → ℕ
      → LidarPubHandler fl.Float
      → Outcome (PubHandler fl × List (PointFrame fl.Float))
  tests p id h =
      let r = get_recent_time_stamp h / ratio_of_ms_to_ns in
      choose (r % p.publish_interval_ms == 0) (r == 0)
        (ltb (sub64 (get_recent_time_stamp h) (get_lidar_base_time h)) p.publish_interval_tolerance)
        (ok (p, [])) (collect p id h >>= λ p'. ok (publish_collected h.points_clouds p'))

  check_timer-tests :
      (p : PubHandler fl) (id now : ℕ) (h : LidarPubHandler fl.Float)
      → p.is_timestamp_sync ≡ true
      → p.publish_interval_ms ≢ 0
      → find id p.lidar_process_handlers ≡ some h
      → check_timer p id now ≡ tests p id h
  unfolding check_timer check_timer_synced
  check_timer-tests p id now h synced interval known =
      if_true p.is_timestamp_sync _ _ synced
      ∙ rw (known, check_timer_synced)
          (if_false (p.publish_interval_ms == 0) _ _ (ne→==_false _ 0 interval))

  publish_collected-called :
      (points : List (PointXyzlt fl.Float)) (p : PubHandler fl)
      → points ≢ []
      → p.has_points_callback ≡ true
      → p.frame.lidar_num ≢ 0
      → publish_collected points p
        ≡ (record p { frame = record p.frame { lidar_num = 0 } }, p.frame ∷ [])
  unfolding publish_collected
  publish_collected-called [] p some_point callback num = absurd (some_point refl)
  publish_collected-called (q ∷ qs) p some_point callback num =
      if_false (p.frame.lidar_num == 0) _ _ (ne→==_false _ 0 num)
      ∙ publish_point_cloud-called p callback

  -- With synchronised clocks, after a packet of lidar `id`: if the points of the lidar make up a
  -- frame, the subscriber gets one of exactly those points, timed by the first, which are gone from
  -- the handler after it, with the other handlers as they were; if not, nothing happens. The
  -- interval is not 0, and the frame is one that the timer left.
  pub check_timer_synced_lem :
      (p : PubHandler fl) (id now : ℕ) (h : LidarPubHandler fl.Float)
      → p.is_timestamp_sync ≡ true
      → p.has_points_callback ≡ true
      → p.publish_interval_ms ≢ 0
      → find id p.lidar_process_handlers ≡ some h
      → HasRoom p.frame
      → p.frame.lidar_num ≡ 0
      → (IsDue p h
          × (p' : PubHandler fl) × (f : PointFrame fl.Float) × (check_timer p id now
              ≡ ok (p', f ∷ []))
          × (packets f ≡ packet_of id h.points_clouds ∷ [])
          × (base_times f ≡ get_lidar_base_time h ∷ [])
          × ((j : ℕ)
              → find j p'.lidar_process_handlers
                ≡ (if j == id then some (emptied h) else find j p.lidar_process_handlers))
          × (p'.frame.lidar_num ≡ 0)
          × HasRoom p'.frame)
        ⊎ (¬ IsDue p h) × (check_timer p id now ≡ ok (p, []))
  unfolding IsDue Adds HasRoom packets base_times get_lidar_base_time get_recent_time_stamp
  check_timer_synced_lem p id now h synced callback interval known room zero_num =
      let step = check_timer-tests p id now h synced interval known in
      let r = get_recent_time_stamp h / ratio_of_ms_to_ns in
      let span = sub64 (get_recent_time_stamp h) (get_lidar_base_time h) in
      let short? = ltb span p.publish_interval_tolerance in
      let stay : Outcome (PubHandler fl × List (PointFrame fl.Float)) = ok (p, []) in
      let go = collect p id h >>= λ p'. ok (publish_collected h.points_clouds p') in
      elim (Bool-cases (r % p.publish_interval_ms == 0)) [
        | inr odd ↦ inr (
          λ d. let e = (==_iff (r % p.publish_interval_ms) 0).1 d.0 in cc,
          step ∙ choose_odd _ (r == 0) short? stay go odd,
        )
        | inl even ↦ elim (Bool-cases (r == 0)) [
          | inl none_yet ↦ inr (
            λ d. d.1 ((==_iff r 0).0 none_yet),
            step ∙ choose_none_yet _ (r == 0) short? stay go even none_yet,
          )
          | inr some_time ↦ elim (Bool-cases short?) [
            | inl short ↦ inr (
              λ d. let e = le→ltb_false span p.publish_interval_tolerance d.2 in cc,
              step
                  ∙ choose_timely _ (r == 0) short? stay go even some_time
                  ∙ if_true short? stay go short,
            )
            | inr long ↦
                let some_point : h.points_clouds ≢ [] = λ empty.
                  let e = (==_iff r 0).1 (ap (λ ps. last_time ps / ratio_of_ms_to_ns) empty) in
                  cc in
                let (f, done, (room', n, ps, bs)) = collect-Adds p id h room (omega arith) in
                let p' = collected p id h f in
                inl (
                  (
                    (==_iff (r % p.publish_interval_ms) 0).0 even,
                    λ z. let e = (==_iff r 0).1 z in cc,
                    ground (arith, long),
                  ),
                  record p' { frame = record f { lidar_num = 0 } },
                  f,
                  step
                      ∙ choose_timely _ (r == 0) short? stay go even some_time
                      ∙ if_false short? stay go long
                      ∙ rw done (
                          ap ok (
                            publish_collected-called h.points_clouds p' some_point callback (
                              ground (arith, n, packets_then-some id h.points_clouds some_point)))),
                  ps
                      ∙ ap (λ k. take k p.frame.lidar_point ++ packets_then id h.points_clouds [])
                          zero_num
                      ∙ packets_then-some id h.points_clouds some_point,
                  bs
                      ∙ ap (λ k. take k p.frame.base_time ++ times_then h.points_clouds []) zero_num
                      ∙ times_then-some h.points_clouds some_point,
                  λ j. find-insert id j (emptied h) p.lidar_process_handlers,
                  refl,
                  room',
                )
          ]
        ]
      ]
