-- ===== src/Lddc/Polling/Imu.antt =====
-- What `DistributeImuData` of lddc.cpp does over all slots.
use mathlib.Core.List.{append_assoc}
use drone_exploration_stack.Prelude.{
  ℕ, suc, ◌+◌, ◌-◌, ◌≤◌, ◌≡◌, refl, sym, ap, ◌∙◌, inl, inr, arith, Bool, true, false, not, zero,
  ◌||◌, Option, none, some, List, [], ◌∷◌, ◌++◌, map, length, get_elem?, set, if◌then◌else◌,
  Outcome, ok, if_false, Bool-cases, ◌>>=◌,
}
use drone_exploration_stack.Floats.{Floats}
use drone_exploration_stack.Semaphore
use drone_exploration_stack.ImuQueue.{ImuQueue}
use drone_exploration_stack.Lds.{Lds, LidarDevice}
use drone_exploration_stack.Lds.Store.{element_at-ok}
use drone_exploration_stack.Lddc.{Lddc, Delivery, imu, deliver}
use drone_exploration_stack.Lddc.Messages.{seconds, init_imu_msg}
use drone_exploration_stack.Lddc.Polling.Wanted.{
  wanted_delivery, wanted_imu_msg, deliver-wanted, init_imu_msg-wanted,
}
use drone_exploration_stack.ImuQueue
use drone_exploration_stack.Lddc.Polling.{
  is_sampling, polling_lidar_imu_data, publish_imu_data, publish_sample, imu_rounds,
  distribute_imu_from, distribute_imu_data,
}
use drone_exploration_stack.Lddc.Polling.Distribute.{semaphore_taken}

get_elem?-append :
    {A : Type 0} (front back : List A) (a : A)
    → get_elem? (front ++ a ∷ back) (length front) ≡ some a
get_elem?-append [] back a = refl
get_elem?-append (x ∷ xs) back a = get_elem?-append xs back a

set-append :
    {A : Type 0} (front back : List A) (a b : A)
    → set (front ++ a ∷ back) (length front) b ≡ (front ++ b ∷ []) ++ back
set-append [] back a b = refl
set-append (x ∷ xs) back a b = ap (λ ys. x ∷ ys) (set-append xs back a b)

length-snoc : {A : Type 0} (front : List A) (a : A) → length (front ++ a ∷ []) ≡ length front + 1
length-snoc [] a = refl
length-snoc (x ∷ xs) a = omega (arith, length-snoc xs a)

-- A device after a round: all samples of a sampling device are taken.
pub samples_taken : {F : Type 0} → LidarDevice F → LidarDevice F
samples_taken d = if is_sampling d.connect_state then record d { imu_queue = [] } else d

module _ {fl : Floats} where
  -- The messages of the samples of a queue, oldest first.
  abbrev pub wanted_samples : Lddc fl → ℕ → ImuQueue fl.Float → List (Delivery fl)
  wanted_samples l i [] = []
  wanted_samples l i (d ∷ ds) =
      wanted_delivery l l.enable_imu_bag i (seconds fl d.time_stamp) (imu (wanted_imu_msg fl d))
      ∷ wanted_samples l i ds

  -- As many rounds as samples wait take them all.
  imu_rounds_all :
      (l : Lddc fl) (i : ℕ) (q : ImuQueue fl.Float)
      → imu_rounds (length q) false l i q ≡ ([], wanted_samples l i q)
  unfolding imu_rounds publish_imu_data publish_sample ImuQueue.pop ImuQueue.empty
  imu_rounds_all l i [] = refl
  imu_rounds_all l i (d ∷ ds) =
      ap
        (λ rest. (
          rest.0,
          deliver l l.enable_imu_bag i (seconds fl d.time_stamp) (imu (init_imu_msg fl d))
              ++ rest.1,
        ))
        (imu_rounds_all l i ds)
      ∙ ap (λ now. ([], now ++ wanted_samples l i ds))
          (deliver-wanted l l.enable_imu_bag i (seconds fl d.time_stamp) (imu (init_imu_msg fl d))
            ∙ ap (λ m. wanted_delivery l l.enable_imu_bag i (seconds fl d.time_stamp) (imu m) ∷ [])
                (init_imu_msg-wanted fl d))

  imu_rounds_none :
      (n : ℕ) (l : Lddc fl) (i : ℕ) (q : ImuQueue fl.Float) → imu_rounds n true l i q ≡ (q, [])
  unfolding imu_rounds
  imu_rounds_none zero l i q = refl
  imu_rounds_none (suc n) l i q = refl

  -- The samples of the sampling devices, slot by slot from the `i`-th on.
  pub published_samples : ℕ → Lddc fl → List (LidarDevice fl.Float) → List (Delivery fl)
  published_samples i l [] = []
  published_samples i l (d ∷ ds) =
      (if is_sampling d.connect_state then wanted_samples l i d.imu_queue else [])
      ++ published_samples (i + 1) l ds

  imu_turn :
      (i : ℕ) (l : Lddc fl) (d : LidarDevice fl.Float)
      → let turn = polling_lidar_imu_data (not (is_sampling d.connect_state)) l i d.imu_queue in
        (record d { imu_queue = turn.0 } ≡ samples_taken d)
        × (turn.1 ≡ (if is_sampling d.connect_state then wanted_samples l i d.imu_queue else []))
  unfolding polling_lidar_imu_data samples_taken
  imu_turn i l d = elim (Bool-cases (is_sampling d.connect_state)) [
    | inl samples ↦ let all = imu_rounds_all l i d.imu_queue in rw samples (rw all (refl, refl))
    | inr silent ↦
        let none_taken = imu_rounds_none (length d.imu_queue) l i d.imu_queue in
        rw silent (rw none_taken (refl, refl))
  ]

  -- What follows the polling of one device.
  abbrev imu_then :
      ℕ
      → Lddc fl
      → Lds fl
      → LidarDevice fl.Float
      → ℕ
      → ImuQueue fl.Float × List (Delivery fl)
      → Outcome (Lds fl × List (Delivery fl))
  imu_then n l s d i (q, now) =
      distribute_imu_from n (i + 1) l
        (record s { lidars = set s.lidars i (record d { imu_queue = q }) })
      >>= λ r. ok (r.0, now ++ r.1)

  imu_suc :
      (n : ℕ) (l : Lddc fl) (s s' : Lds fl) (d : LidarDevice fl.Float) (i : ℕ) (exit : Bool)
      (rest : List (Delivery fl))
      → get_elem? s.lidars i ≡ some d
      → (s.request_exit || not (is_sampling d.connect_state)) ≡ exit
      → distribute_imu_from n (i + 1) l (record s {
        lidars =
            set s.lidars i
              (record d { imu_queue = (polling_lidar_imu_data exit l i d.imu_queue).0 });
      })
        ≡ ok (s', rest)
      → distribute_imu_from (suc n) i l s
        ≡ ok (s', (polling_lidar_imu_data exit l i d.imu_queue).1 ++ rest)
  unfolding distribute_imu_from
  imu_suc n l s s' d i exit rest there mode later =
      rw (element_at-ok s.lidars i d there) (
        ap (λ x. imu_then n l s d i (polling_lidar_imu_data x l i d.imu_queue)) mode
        ∙ rw later refl)

  imu_one :
      (n : ℕ) (l : Lddc fl) (s s' : Lds fl) (d : LidarDevice fl.Float) (i : ℕ)
      (rest : List (Delivery fl))
      → get_elem? s.lidars i ≡ some d
      → s.request_exit ≡ false
      → distribute_imu_from n (i + 1) l (record s { lidars = set s.lidars i (samples_taken d) })
        ≡ ok (s', rest)
      → distribute_imu_from (suc n) i l s
        ≡ ok (
          s',
          (if is_sampling d.connect_state then wanted_samples l i d.imu_queue else []) ++ rest,
        )
  unfolding distribute_imu_from
  imu_one n l s s' d i rest there running later =
      let (taken, sent) = imu_turn i l d in
      let turn = polling_lidar_imu_data (not (is_sampling d.connect_state)) l i d.imu_queue in
      let after : distribute_imu_from n (i + 1) l
            (record s { lidars = set s.lidars i (record d { imu_queue = turn.0 }) })
          ≡ ok (s', rest) =
        ap (λ e. distribute_imu_from n (i + 1) l (record s { lidars = set s.lidars i e })) taken
        ∙ later in
      imu_suc n l s s' d i (not (is_sampling d.connect_state)) rest there
        (ap (λ exit. exit || not (is_sampling d.connect_state)) running) after
      ∙ ap (λ ms. ok (s', ms ++ rest)) sent

  -- The loop over the devices behind those that have had their round.
  imu_from :
      (l : Lddc fl) (front back : List (LidarDevice fl.Float)) (s : Lds fl)
      → s.lidars ≡ front ++ back
      → s.request_exit ≡ false
      → distribute_imu_from (length back) (length front) l s
        ≡ ok (
          record s { lidars = front ++ map samples_taken back },
          published_samples (length front) l back,
        )
  unfolding distribute_imu_from published_samples
  imu_from l front [] s split running = ap (λ ds. ok (record s { lidars = ds }, [])) split
  imu_from l front (d ∷ ds) s split running =
      let i = length front in
      let there : get_elem? s.lidars i ≡ some d =
        ap (λ xs. get_elem? xs i) split ∙ get_elem?-append front ds d in
      let e = samples_taken d in
      let after : set s.lidars i e ≡ (front ++ e ∷ []) ++ ds =
        ap (λ xs. set xs i e) split ∙ set-append front ds d e in
      let rest =
        imu_from l (front ++ e ∷ []) ds (record s { lidars = (front ++ e ∷ []) ++ ds }) refl
          running in
      let later : distribute_imu_from (length ds) (i + 1) l (record s { lidars = set s.lidars i e })
          ≡ ok (
            record s { lidars = front ++ map samples_taken (d ∷ ds) },
            published_samples (i + 1) l ds,
          ) =
        ap (λ xs. distribute_imu_from (length ds) (i + 1) l (record s { lidars = xs })) after
        ∙ ap
            (λ n.
              distribute_imu_from (length ds) n l (record s { lidars = (front ++ e ∷ []) ++ ds }))
            (sym (length-snoc front e))
        ∙ rest
        ∙ (λ j. ok (
          record s { lidars = append_assoc front (e ∷ []) (map samples_taken ds) j },
          published_samples (length-snoc front e j) l ds,
        )) in
      imu_one (length ds) l s _ d i (published_samples (i + 1) l ds) there running later

  abbrev imu_waited : Lddc fl → Lds fl → Option ℕ → Option (Outcome (Lddc fl × List (Delivery fl)))
  imu_waited l s none = none
  imu_waited l s (some count) = some (
      distribute_imu_from s.lidar_count 0 l (record s { imu_semaphore = count }) >>= λ r.
      ok (record l { lds = some r.0 }, r.1))

  abbrev imu_source : Lddc fl → Option (Lds fl) → Option (Outcome (Lddc fl × List (Delivery fl)))
  imu_source l none = some (ok (l, []))
  imu_source l (some s) =
      if s.request_exit then some (ok (l, [])) else imu_waited l s (Semaphore.wait s.imu_semaphore)

  imu_registered :
      (l : Lddc fl) (s : Lds fl) → l.lds ≡ some s → distribute_imu_data l ≡ imu_source l (some s)
  unfolding distribute_imu_data
  imu_registered l s has = ap (imu_source l) has

  -- `DistributeImuData`, with no exit requested and the semaphore of the IMU above 0, does not wait: it
  -- takes one from the semaphore, makes a message of every sample of each sampling device, slot by slot
  -- and each slot's samples oldest first, with the sample's time and its six values, which is published
  -- or written to the bag file as the settings say; it takes all these samples off their queues, and
  -- changes no other device.
  pub distribute_imu_data_lem :
      (l : Lddc fl) (s : Lds fl)
      → l.lds ≡ some s
      → s.lidar_count ≡ length s.lidars
      → s.request_exit ≡ false
      → 1 ≤ s.imu_semaphore
      → distribute_imu_data l
        ≡ some (
            ok (
              record l {
                lds = some (record s {
                  imu_semaphore = s.imu_semaphore - 1;
                  lidars = map samples_taken s.lidars;
                });
              },
              published_samples 0 l s.lidars,
            ))
  distribute_imu_data_lem l s has total running up =
      let s₁ = record s { imu_semaphore = s.imu_semaphore - 1 } in
      let done = imu_from l [] s.lidars s₁ refl running in
      imu_registered l s has
      ∙ if_false s.request_exit _ _ running
      ∙ ap (imu_waited l s) (semaphore_taken s.imu_semaphore up)
      ∙ ap (λ n. some (distribute_imu_from n 0 l s₁ >>= λ r. ok (record l { lds = some r.0 }, r.1)))
          total
      ∙ rw done refl
