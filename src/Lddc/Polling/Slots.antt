-- ===== src/Lddc/Polling/Slots.antt =====
-- The loop of `DistributePointCloudData` of lddc.cpp over the slots: one slot, and then those from it
-- on.
use mathlib.Core.Option.{some-injective}
use native.Mathlib.Decide.{ℕ_discrete}
use drone_exploration_stack.Prelude.{
  ℕ, zero, suc, ◌+◌, ◌<◌, ◌≡◌, refl, sym, ap, ◌∙◌, inl, inr, arith, Bool, false, Option, some, List,
  [], ◌++◌, get_elem?, set, if◌then◌else◌, Outcome, ok, Bool-cases, get_elem?-set_self,
  get_elem?-set_ne, get_elem?-lt, lt_of_get_elem?,
}
use drone_exploration_stack.Prelude.Words.{sub32}
use drone_exploration_stack.Floats.{Floats}
use drone_exploration_stack.Ldq.{LidarDataQueue}
use drone_exploration_stack.Ldq.Invariant.{Entry, contents}
use drone_exploration_stack.Ldq.Invariant
use drone_exploration_stack.Lds.{Lds, LidarDevice}
use drone_exploration_stack.Lds.Invariant.{IsValid, IsReady, live_of_ready, set_lidars-IsValid}
use drone_exploration_stack.Lds.Store.{element_at-ok}
use drone_exploration_stack.Lddc.{Lddc, Delivery, livox_custom_msg}
use drone_exploration_stack.Lddc.Polling.{
  is_sampling, polling_lidar_point_cloud_data, Drained, distribute_from,
}
use drone_exploration_stack.Lddc.Polling.Published.{
  Polled, Distributed, publish_device, publish_slot, publish_slots, publish_slots-set,
  publish_device-format,
}
use drone_exploration_stack.Lddc.Polling.Drain.{polling_lidar_point_cloud_data_lem}

module _ {fl : Floats} where
  -- What one device's slot does, exit requested or not.
  abbrev pub turn : Bool → ℕ → Lddc fl → LidarDevice fl.Float → Outcome (Drained fl)
  turn exit i l d =
      if is_sampling d.connect_state
      then polling_lidar_point_cloud_data exit i d l d.queue.storage_packet
      else ok (record { queue = d.queue; lddc = l; deliveries = [] })

  -- The round of one device.
  record Round (i : ℕ) (l : Lddc fl) (d : LidarDevice fl.Float) : Type 0 where
    q : LidarDataQueue fl.Float
    ends :
        turn false i l d
        ≡ ok (record {
          queue = q;
          lddc = (publish_device i l d).0;
          deliveries = (publish_device i l d).1;
        })
    ready : IsReady q
    polled : Polled d (record d { queue = q })

  round :
      (i : ℕ) (l : Lddc fl) (d : LidarDevice fl.Float)
      → IsReady d.queue
      → l.transfer_format ≡ livox_custom_msg
      → Round i l d
  unfolding polling_lidar_point_cloud_data
  round i l d r format = elim (Bool-cases (is_sampling d.connect_state)) [
    | inr idle ↦ record {
      q = d.queue;
      ends = rw idle refl;
      ready = r;
      polled = record { queue_only = (d.queue, refl); emptied = λ is. cc; kept = λ is. refl };
    }
    | inl samples ↦ elim (live_of_ready d.queue r) [
      | inl no_array ↦
          let nothing : contents d.queue ≡ [] =
            ap
              (λ t.
                Invariant.contents_of t d.queue.size d.queue.rd_idx
                  (sub32 d.queue.wr_idx d.queue.rd_idx))
              no_array in
          record {
            q = d.queue;
            ends =
                rw samples
                  (rw (ap (polling_lidar_point_cloud_data false i d l) no_array) (rw nothing refl));
            ready = r;
            polled = record {
              queue_only = (d.queue, refl);
              emptied = λ is. nothing;
              kept = λ is. refl;
            };
          }
      | inr (packets, e, v) ↦
          let (q', done, v', none_left) = polling_lidar_point_cloud_data_lem i d l v format in
          record {
            q = q';
            ends = rw samples done;
            ready = inr v';
            polled = record { queue_only = (q', refl); emptied = λ is. none_left; kept = λ is. cc };
          }
    ]
  ]

  -- The slots from `i + 1` on have had their round after slot `i` has.
  next_slot :
      (i : ℕ) (l : Lddc fl) (s s' : Lds fl) (d : LidarDevice fl.Float) (r : Round i l d)
      → IsValid s
      → i < 32
      → get_elem? s.lidars i ≡ some d
      → Distributed (i + 1) (record s { lidars = set s.lidars i (record d { queue = r.q }) }) s'
      → Distributed i s s'
  next_slot i l s s' d r v less there later = record {
    valid = later.valid;
    earlier = λ j before.
        later.earlier j (omega arith) ∙ get_elem?-set_ne s.lidars i j _ (λ e. absurd (omega arith));
    polled = λ j from e there'. elim (ℕ_discrete i j) [
      | no other ↦ later.polled j (omega arith) e (get_elem?-set_ne s.lidars i j _ other ∙ there')
      | yes at ↦
          let same : d ≡ e = some-injective d e (sym there ∙ rw at there') in
          (
            record d { queue = r.q },
            ap (get_elem? s'.lidars) (sym at)
                ∙ later.earlier i (omega arith)
                ∙ get_elem?-set_self s.lidars i (record d { queue = r.q })
                    (omega (arith, v.devices)),
            rw (← same) r.polled,
          )
    ];
    unchanged = later.unchanged;
  }

  pub distribute_from-suc :
      (n i : ℕ) (l l' : Lddc fl) (s s' : Lds fl) (d : LidarDevice fl.Float) (r : Drained fl)
      (rest : List (Delivery fl))
      → get_elem? s.lidars i ≡ some d
      → turn s.request_exit i l d ≡ ok r
      → distribute_from n
          (i + 1)
          r.lddc
          (record s { lidars = set s.lidars i (record d { queue = r.queue }) })
        ≡ ok (l', s', rest)
      → distribute_from (suc n) i l s ≡ ok (l', s', r.deliveries ++ rest)
  unfolding distribute_from
  distribute_from-suc n i l l' s s' d r rest there now later =
      rw (element_at-ok s.lidars i d there) (rw now (rw later refl))

  pub distribute_from-Distributed :
      (n i : ℕ) (l : Lddc fl) (s : Lds fl)
      → IsValid s
      → i + n ≡ 32
      → s.request_exit ≡ false
      → l.transfer_format ≡ livox_custom_msg
      → (s' : Lds fl) × (distribute_from n i l s
          ≡ ok ((publish_slots n i l s.lidars).0, s', (publish_slots n i l s.lidars).1))
        × Distributed i s s'
  unfolding distribute_from
  distribute_from-Distributed zero i l s v total running format = (
    s,
    refl,
    record {
      valid = v;
      earlier = λ j less. refl;
      polled =
          λ j from d there. absurd (omega (arith, lt_of_get_elem? s.lidars j d there, v.devices));
      unchanged = (refl, refl, refl, refl);
    },
  )
  distribute_from-Distributed (suc n) i l s v total running format =
      let (d, there) = get_elem?-lt s.lidars i (omega (arith, v.devices)) in
      let r = round i l d (v.ready i d there) format in
      let s₁ = record s { lidars = set s.lidars i (record d { queue = r.q }) } in
      let v₁ = set_lidars-IsValid s i (record d { queue = r.q }) s.pcd_semaphore v r.ready in
      let l₁ = (publish_device i l d).0 in
      let (s', done, later) =
        distribute_from-Distributed n (i + 1) l₁ s₁ v₁ (omega arith) running
          (publish_device-format i l d ∙ format) in
      let e = record d { queue = r.q } in
      let same = publish_slots-set n (i + 1) i l₁ s.lidars e (omega arith) in
      (
        s',
        distribute_from-suc n i l _ s s' d _ _ there (ap (λ exit. turn exit i l d) running ∙ r.ends)
              (done ∙ ap (λ (p : Lddc fl × List (Delivery fl)). ok (p.0, s', p.1)) same)
            ∙ ap (λ o. ok ((slots_after o).0, s', (slots_after o).1)) (sym there),
        next_slot i l s s' d r v (omega arith) there later,
      )
    where
      slots_after : Option (LidarDevice fl.Float) → Lddc fl × List (Delivery fl)
      slots_after o =
          let now = publish_slot i l o in
          let rest = publish_slots n (i + 1) now.0 s.lidars in (rest.0, now.1 ++ rest.1)
