-- ===== src/Lddc/Polling/Distribute.antt =====
-- What `DistributePointCloudData` of lddc.cpp does over all slots: each sampling device is polled
-- until nothing waits for it, and the others are left alone.

use drone_exploration_stack.Prelude.{
  ℕ, ◌-◌, ◌≤◌, ◌≡◌, refl, ap, ◌∙◌, arith, true, false, Option, none, some, List, [], if◌then◌else◌,
  Outcome, ok, if_true, if_false, ◌-◌, ◌>>=◌,
}
use drone_exploration_stack.Floats.{Floats}
use drone_exploration_stack.Semaphore
use drone_exploration_stack.Lds.{Lds}
use drone_exploration_stack.Lds.Invariant.{IsValid}
use drone_exploration_stack.Lddc.{Lddc, Delivery, livox_custom_msg}
use drone_exploration_stack.Lddc.Polling.{distribute_from, distribute_point_cloud_data}
use drone_exploration_stack.Lddc.Polling.Published.{Distributed, publish_slots}
use drone_exploration_stack.Lddc.Polling.Slots.{distribute_from-Distributed}

pub semaphore_taken : (count : ℕ) → 1 ≤ count → Semaphore.wait count ≡ some (count - 1)
unfolding Semaphore.wait
semaphore_taken count h = ground arith

module _ {fl : Floats} where
  abbrev waited : Lddc fl → Lds fl → Option ℕ → Option (Outcome (Lddc fl × List (Delivery fl)))
  waited l s none = none
  waited l s (some count) = some (
      distribute_from s.lidar_count 0 l (record s { pcd_semaphore = count }) >>= λ r.
      ok (record r.0 { lds = some r.1 }, r.2))

  abbrev registered : Lddc fl → Option (Lds fl) → Option (Outcome (Lddc fl × List (Delivery fl)))
  registered l none = some (ok (l, []))
  registered l (some s) =
      if s.request_exit then some (ok (l, [])) else waited l s (Semaphore.wait s.pcd_semaphore)

  distribute_registered :
      (l : Lddc fl) (s : Lds fl)
      → l.lds ≡ some s
      → distribute_point_cloud_data l ≡ registered l (some s)
  unfolding distribute_point_cloud_data
  distribute_registered l s has = ap (registered l) has

  pub distribute_exit :
      (l : Lddc fl) (s : Lds fl)
      → l.lds ≡ some s
      → s.request_exit ≡ true
      → distribute_point_cloud_data l ≡ some (ok (l, []))
  distribute_exit l s has stops = distribute_registered l s has ∙ if_true s.request_exit _ _ stops

  pub distribute_waits :
      (l : Lddc fl) (s : Lds fl)
      → l.lds ≡ some s
      → s.request_exit ≡ false
      → s.pcd_semaphore ≡ 0
      → distribute_point_cloud_data l ≡ none
  unfolding Semaphore.wait
  distribute_waits l s has running down =
      distribute_registered l s has
      ∙ if_false s.request_exit _ _ running
      ∙ ap (λ n. waited l s (Semaphore.wait n)) down

  -- `DistributePointCloudData` in the driver's own format, with a valid source, no exit requested and
  -- the semaphore above 0, does not wait: it takes one from the semaphore, makes the messages of what
  -- waits for each sampling device, slot by slot and each slot's packets oldest first, leaves those
  -- queues empty, and changes no other device.
  pub distribute_point_cloud_data-Distributed :
      (l : Lddc fl) (s : Lds fl)
      → l.lds ≡ some s
      → IsValid s
      → s.request_exit ≡ false
      → 1 ≤ s.pcd_semaphore
      → l.transfer_format ≡ livox_custom_msg
      → (s' : Lds fl) × (distribute_point_cloud_data l
          ≡ some (
              ok (
                record (publish_slots 32 0 l s.lidars).0 { lds = some s' },
                (publish_slots 32 0 l s.lidars).1,
              )))
        × Distributed 0 (record s { pcd_semaphore = s.pcd_semaphore - 1 }) s'
  distribute_point_cloud_data-Distributed l s has v running up format =
      let s₁ = record s { pcd_semaphore = s.pcd_semaphore - 1 } in
      let v₁ : IsValid s₁ = record {
        devices = v.devices;
        counted = v.counted;
        indexed = v.indexed;
        rate = v.rate;
        ready = v.ready;
      } in
      let (s', done, dist) = distribute_from-Distributed 32 0 l s₁ v₁ refl running format in
      (
        s',
        distribute_registered l s has
            ∙ if_false s.request_exit _ _ running
            ∙ ap (waited l s) (semaphore_taken s.pcd_semaphore up)
            ∙ ap
                (λ n.
                  some (distribute_from n 0 l s₁ >>= λ r. ok (record r.0 { lds = some r.1 }, r.2)))
                v.counted
            ∙ rw done refl,
        dist,
      )
