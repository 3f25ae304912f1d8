-- ===== src/Lddc/Polling/Published.antt =====
-- What a round of `DistributePointCloudData` of lddc.cpp is to publish, slot by slot, and what it
-- leaves of the source.

use drone_exploration_stack.Prelude.{
  ℕ, zero, suc, ◌+◌, ◌≤◌, ◌<◌, ◌≡◌, refl, ◌∙◌, inl, inr, arith, true, false, Option, none, some,
  List, [], ◌∷◌, ◌++◌, get_elem?, set, if◌then◌else◌, Bool-cases, get_elem?-set_ne,
}
use drone_exploration_stack.Floats.{Floats}
use drone_exploration_stack.Comm.{PointXyzlt}
use drone_exploration_stack.Ldq.{LidarDataQueue}
use drone_exploration_stack.Ldq.Invariant.{Entry, contents}
use drone_exploration_stack.Lds.{Lds, LidarDevice}
use drone_exploration_stack.Lds.Invariant.{IsValid}
use drone_exploration_stack.Lddc.{Lddc, Delivery}
use drone_exploration_stack.Lddc.Polling.{is_sampling}
use drone_exploration_stack.Lddc.Polling.Drain.{run, visit, custom_step}

module _ {F : Type 0} where
  -- The device after a round: its queue is empty if it is sampling, and nothing else changes.
  pub record Polled (d d' : LidarDevice F) : Type 0 where
    pub queue_only : (q : LidarDataQueue F) × (d' ≡ record d { queue = q })
    pub emptied : is_sampling d.connect_state ≡ true → contents d'.queue ≡ []
    pub kept : is_sampling d.connect_state ≡ false → d' ≡ d

module _ {fl : Floats} where
  -- What a device's slot publishes: all that waits if the device is sampling, or nothing.
  abbrev pub publish_device : ℕ → Lddc fl → LidarDevice fl.Float → Lddc fl × List (Delivery fl)
  publish_device i l d =
      if is_sampling d.connect_state then run (custom_step i d) l (contents d.queue) else (l, [])

  abbrev pub publish_slot :
      ℕ → Lddc fl → Option (LidarDevice fl.Float) → Lddc fl × List (Delivery fl)
  publish_slot i l none = (l, [])
  publish_slot i l (some d) = publish_device i l d

  -- The `n` slots from `i` on, one after the other.
  abbrev pub publish_slots :
      ℕ → ℕ → Lddc fl → List (LidarDevice fl.Float) → Lddc fl × List (Delivery fl)
  publish_slots zero i l ds = (l, [])
  publish_slots (suc n) i l ds =
      let now = publish_slot i l (get_elem? ds i) in
      let rest = publish_slots n (i + 1) now.0 ds in (rest.0, now.1 ++ rest.1)

  -- The source after the slots from `i` on have had their round.
  pub record Distributed (i : ℕ) (s s' : Lds fl) : Type 0 where
    pub valid : IsValid s'
    pub earlier : (j : ℕ) → j < i → get_elem? s'.lidars j ≡ get_elem? s.lidars j
    pub polled :
        (j : ℕ)
        → i ≤ j
        → (d : LidarDevice fl.Float) → get_elem? s.lidars j ≡ some d
        → (d' : LidarDevice fl.Float) × (get_elem? s'.lidars j ≡ some d') × Polled d d'
    pub unchanged :
        (s'.pcd_semaphore ≡ s.pcd_semaphore)
        × (s'.imu_semaphore ≡ s.imu_semaphore)
        × (s'.request_exit ≡ s.request_exit)
        × (s'.cache_index ≡ s.cache_index)

  pub publish_slots-set :
      (n i j : ℕ) (l : Lddc fl) (ds : List (LidarDevice fl.Float)) (d : LidarDevice fl.Float)
      → j < i
      → publish_slots n i l (set ds j d) ≡ publish_slots n i l ds
  publish_slots-set zero i j l ds d less = refl
  publish_slots-set (suc n) i j l ds d less =
      rw (get_elem?-set_ne ds j i d (λ e. absurd (omega arith))) (
        rw (publish_slots-set n (i + 1) j (publish_slot i l (get_elem? ds i)).0 ds d (omega arith))
          refl)

  -- The messages change no setting.
  visit_format :
      (i : ℕ) (d : LidarDevice fl.Float) (l : Lddc fl) (t : ℕ) (ps : List (PointXyzlt fl.Float))
      → (visit (custom_step i d) l t ps).0.transfer_format ≡ l.transfer_format
  unfolding custom_step
  visit_format i d l t [] = refl
  visit_format i d l t (p ∷ ps) = refl

  run_format :
      (i : ℕ) (d : LidarDevice fl.Float) (l : Lddc fl) (es : List (Entry fl.Float))
      → (run (custom_step i d) l es).0.transfer_format ≡ l.transfer_format
  run_format i d l [] = refl
  run_format i d l (e ∷ es) =
      run_format i d (visit (custom_step i d) l e.base_time e.points).0 es
      ∙ visit_format i d l e.base_time e.points

  pub publish_device-format :
      (i : ℕ) (l : Lddc fl) (d : LidarDevice fl.Float)
      → (publish_device i l d).0.transfer_format ≡ l.transfer_format
  publish_device-format i l d = elim (Bool-cases (is_sampling d.connect_state)) [
    | inl yes' ↦ rw yes' (run_format i d l (contents d.queue))
    | inr no' ↦ rw no' refl
  ]

  pub publish_slot-format :
      (i : ℕ) (l : Lddc fl) (o : Option (LidarDevice fl.Float))
      → (publish_slot i l o).0.transfer_format ≡ l.transfer_format
  publish_slot-format i l none = refl
  publish_slot-format i l (some d) = publish_device-format i l d

  pub publish_slots-format :
      (n i : ℕ) (l : Lddc fl) (ds : List (LidarDevice fl.Float))
      → (publish_slots n i l ds).0.transfer_format ≡ l.transfer_format
  publish_slots-format zero i l ds = refl
  publish_slots-format (suc n) i l ds =
      publish_slots-format n (i + 1) (publish_slot i l (get_elem? ds i)).0 ds
      ∙ publish_slot-format i l (get_elem? ds i)
