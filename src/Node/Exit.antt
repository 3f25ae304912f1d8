-- ===== src/Node/Exit.antt =====
-- How the thread of livox_ros_driver2.cpp that publishes points ends, after the destructor of
-- driver_node.cpp has requested the exit.
mod Tests
use drone_exploration_stack.Prelude.{
  ℕ, zero, suc, ◌-◌, ◌≤◌, ◌<◌, ◌≡◌, refl, sym, ap, ◌∙◌, inl, inr, arith, true, false, Option, none,
  some, List, [], ◌++◌, length, ◌==◌, if◌then◌else◌, Outcome, ok, fault, null_pointer, if_true,
  if_false, Bool-cases, ◌>>=◌,
}
use drone_exploration_stack.Floats.{Floats}
use drone_exploration_stack.Semaphore
use drone_exploration_stack.Lds.{Lds, request_exit}
use drone_exploration_stack.Lds.Invariant.{IsValid}
use drone_exploration_stack.Lddc.{Lddc, Delivery}
use drone_exploration_stack.Lddc.Polling.{distribute_from}
use drone_exploration_stack.Lddc.Polling.Distribute.{distribute_exit, semaphore_taken}
use drone_exploration_stack.Lddc.Polling.Stop.{distribute_from_exit}
use drone_exploration_stack.Node.{
  Thread, at_round, waiting, finished, after_round, point_cloud_data_poll_thread, request_node_exit,
}

module _ {fl : Floats} where
  -- A thread that waits for the semaphore of a source, at what `Wait` answers.
  abbrev resumed : Lddc fl → Lds fl → Option ℕ → Outcome (Thread × Lddc fl × List (Delivery fl))
  resumed l s none = ok (waiting, l, [])
  resumed l s (some count) =
      distribute_from s.lidar_count 0 l (record s { pcd_semaphore = count }) >>= λ r.
      ok (after_round true, record r.0 { lds = some r.1 }, r.2)

  abbrev waits_for : Lddc fl → Option (Lds fl) → Outcome (Thread × Lddc fl × List (Delivery fl))
  waits_for l none = fault null_pointer
  waits_for l (some s) = resumed l s (Semaphore.wait s.pcd_semaphore)

  waiting_step :
      (l : Lddc fl) (s : Lds fl)
      → l.lds ≡ some s
      → point_cloud_data_poll_thread true waiting l ≡ resumed l s (Semaphore.wait s.pcd_semaphore)
  unfolding point_cloud_data_poll_thread
  waiting_step l s has = ap (waits_for l) has

  round_ends :
      (l : Lddc fl) (s : Lds fl)
      → l.lds ≡ some s
      → s.request_exit ≡ true
      → point_cloud_data_poll_thread true at_round l ≡ ok (finished, l, [])
  unfolding point_cloud_data_poll_thread after_round
  round_ends l s has exits = rw (distribute_exit l s has exits, point_cloud_data_poll_thread) refl

  stays : (l : Lddc fl) (s : Lds fl) → resumed l s (Semaphore.wait 0) ≡ ok (waiting, l, [])
  unfolding Semaphore.wait
  stays l s = refl

  goes_on :
      (count : ℕ) (l : Lddc fl) (s : Lds fl)
      → s.lidar_count ≡ length s.lidars
      → s.request_exit ≡ true
      → resumed l s (some count)
        ≡ ok (finished, record l { lds = some (record s { pcd_semaphore = count }) }, [])
  unfolding after_round
  goes_on count l s total exits =
      let s' = record s { pcd_semaphore = count } in
      let nothing : distribute_from s.lidar_count 0 l s' ≡ ok (l, s', []) =
        distribute_from_exit s.lidar_count 0 l s' (omega (arith, total)) exits in
      rw nothing refl

  wait_cases :
      (l : Lddc fl) (s : Lds fl)
      → s.lidar_count ≡ length s.lidars
      → s.request_exit ≡ true
      → resumed l s (Semaphore.wait s.pcd_semaphore) ≡ (
          if s.pcd_semaphore == 0
          then ok (waiting, l, [])
          else ok (
            finished,
            record l { lds = some (record s { pcd_semaphore = s.pcd_semaphore - 1 }) },
            [],
          ))
  wait_cases l s total exits = elim (Bool-cases (s.pcd_semaphore == 0)) [
    | inl down ↦
        let is_0 : s.pcd_semaphore ≡ 0 = ground arith in
        ap (λ n. resumed l s (Semaphore.wait n)) is_0 ∙ stays l s ∙ sym (if_true _ _ _ down)
    | inr up ↦
        let taken = semaphore_taken s.pcd_semaphore (ground arith) in
        ap (resumed l s) taken
        ∙ goes_on (s.pcd_semaphore - 1) l s total exits
        ∙ sym (if_false _ _ _ up)
  ]

  requested :
      (l : Lddc fl) (s : Lds fl)
      → l.lds ≡ some s
      → request_node_exit l ≡ ok (record l { lds = some (request_exit s) })
  unfolding request_node_exit
  requested l s has = rw has refl

  -- What `n` steps of the thread come to, while no other thread does anything.
  pub steps_alone : ℕ → Thread → Lddc fl → Outcome (Thread × Lddc fl × List (Delivery fl))
  steps_alone zero t l = ok (t, l, [])
  steps_alone (suc n) t l = point_cloud_data_poll_thread true t l >>= λ r.
      steps_alone n r.0 r.1 >>= λ later. ok (later.0, later.1, r.2 ++ later.2)

  still : Thread → Lddc fl → Outcome (Thread × Lddc fl × List (Delivery fl))
  still t l = ok (t, l, [])

  -- A thread that a step leaves as it is, any number of steps leaves so.
  alone_still :
      (n : ℕ) (t : Thread) (l : Lddc fl)
      → point_cloud_data_poll_thread true t l ≡ still t l
      → steps_alone n t l ≡ still t l
  unfolding steps_alone still
  alone_still zero t l same = refl
  alone_still (suc n) t l same =
      ap (λ o. o >>= λ r. steps_alone n r.0 r.1 >>= λ later. ok (later.0, later.1, r.2 ++ later.2))
        same
      ∙ ap (λ o. o >>= λ later. ok (later.0, later.1, later.2)) (alone_still n t l same)

  alone_ends :
      (n : ℕ) (t : Thread) (l l' : Lddc fl)
      → point_cloud_data_poll_thread true t l ≡ still finished l'
      → steps_alone (suc n) t l ≡ still finished l'
  unfolding steps_alone still point_cloud_data_poll_thread
  alone_ends n t l l' ends =
      ap (λ o. o >>= λ r. steps_alone n r.0 r.1 >>= λ later. ok (later.0, later.1, r.2 ++ later.2))
        ends
      ∙ ap (λ o. o >>= λ later. ok (later.0, later.1, later.2)) (alone_still n finished l' refl)

  -- After the destructor has requested the exit of a valid source and signalled it, and while no other
  -- thread does anything: the thread that publishes points ends with its next step, with nothing
  -- published, if it is before a round or waits for a semaphore above 0; where it waits for a semaphore
  -- at 0, it waits however many steps it is given.
  pub poll_thread_exit :
      (l : Lddc fl) (s : Lds fl) (n : ℕ)
      → l.lds ≡ some s
      → IsValid s
      → let stopped = record l { lds = some (request_exit s) } in
        (request_node_exit l ≡ ok stopped)
        × (steps_alone (suc n) at_round stopped ≡ ok (finished, stopped, []))
        × (steps_alone (suc n) waiting stopped ≡ (
            if s.pcd_semaphore == 0
            then ok (waiting, stopped, [])
            else ok (
              finished,
              record l {
                lds = some (record (request_exit s) { pcd_semaphore = s.pcd_semaphore - 1 });
              },
              [],
            )))
  unfolding request_exit still
  poll_thread_exit l s n has v =
      let stopped = record l { lds = some (request_exit s) } in
      let after = record l {
        lds = some (record (request_exit s) { pcd_semaphore = s.pcd_semaphore - 1 });
      } in
      let step =
        waiting_step stopped (request_exit s) refl
        ∙ wait_cases stopped (request_exit s) (v.counted ∙ sym v.devices) refl in
      (
        requested l s has,
        alone_ends n at_round stopped stopped (round_ends stopped (request_exit s) refl refl),
        elim (Bool-cases (s.pcd_semaphore == 0)) [
          | inl down ↦
              alone_still (suc n) waiting stopped (step ∙ if_true (s.pcd_semaphore == 0) _ _ down)
              ∙ sym (if_true (s.pcd_semaphore == 0) _ _ down)
          | inr up ↦
              alone_ends n waiting stopped after (step ∙ if_false (s.pcd_semaphore == 0) _ _ up)
              ∙ sym (if_false (s.pcd_semaphore == 0) _ _ up)
        ],
      )
