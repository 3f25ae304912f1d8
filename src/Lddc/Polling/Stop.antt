-- ===== src/Lddc/Polling/Stop.antt =====
-- A round of lddc.cpp after the exit was requested: no queue is touched and nothing is published.
use drone_exploration_stack.Prelude.{
  ℕ, zero, suc, ◌+◌, ◌≡◌, refl, sym, ap, ◌∙◌, inl, inr, arith, true, some, List, [], ◌∷◌, length,
  get_elem?, set, ok, get_elem?-lt, Bool-cases,
}
use drone_exploration_stack.Floats.{Floats}
use drone_exploration_stack.Ldq.{Storage, null, dangling, live}
use drone_exploration_stack.Lds.{Lds, LidarDevice}
use drone_exploration_stack.Lddc.{Lddc}
use drone_exploration_stack.Lddc.Polling.{
  is_sampling, polling_lidar_point_cloud_data, poll_rounds, distribute_from,
}
use drone_exploration_stack.Lddc.Polling.Slots.{turn, distribute_from-suc}

set_same : {A : Type 0} (xs : List A) (i : ℕ) (a : A) → get_elem? xs i ≡ some a → set xs i a ≡ xs
set_same [] i a e = refl
set_same (x ∷ xs) zero a e = let same : x ≡ a = cc in ap (λ y. y ∷ xs) (sym same)
set_same (x ∷ xs) (suc i) a e = ap (λ ys. x ∷ ys) (set_same xs i a e)

module _ {fl : Floats} where
  poll_exit :
      (i : ℕ) (l : Lddc fl) (d : LidarDevice fl.Float) (storage : Storage fl.Float)
      → polling_lidar_point_cloud_data true i d l storage
        ≡ ok (record { queue = d.queue; lddc = l; deliveries = [] })
  unfolding polling_lidar_point_cloud_data poll_rounds
  poll_exit i l d null = refl
  poll_exit i l d dangling = refl
  poll_exit i l d (live packets) = refl

  turn_exit :
      (i : ℕ) (l : Lddc fl) (d : LidarDevice fl.Float)
      → turn true i l d ≡ ok (record { queue = d.queue; lddc = l; deliveries = [] })
  turn_exit i l d = elim (Bool-cases (is_sampling d.connect_state)) [
    | inl samples ↦ rw samples (poll_exit i l d d.queue.storage_packet)
    | inr silent ↦ rw silent refl
  ]

  -- The loop over the slots then changes nothing.
  pub distribute_from_exit :
      (n i : ℕ) (l : Lddc fl) (s : Lds fl)
      → i + n ≡ length s.lidars
      → s.request_exit ≡ true
      → distribute_from n i l s ≡ ok (l, s, [])
  unfolding distribute_from
  distribute_from_exit zero i l s total exits = refl
  distribute_from_exit (suc n) i l s total exits =
      let (d, there) = get_elem?-lt s.lidars i (omega arith) in
      let kept : set s.lidars i d ≡ s.lidars = set_same s.lidars i d there in
      distribute_from-suc n i l l s s d (record { queue = d.queue; lddc = l; deliveries = [] }) []
        there (ap (λ exit. turn exit i l d) exits ∙ turn_exit i l d)
        (ap (λ ds. distribute_from n (i + 1) l (record s { lidars = ds })) kept
          ∙ distribute_from_exit n (i + 1) l s (omega arith) exits)
