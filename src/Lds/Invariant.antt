-- ===== src/Lds/Invariant.antt =====
-- The invariant of `Lds`, and the packets that wait for each device.
use mathlib.Core.Path.{subst}
use mathlib.Core.Option.{some-injective}
use native.Mathlib.Decide.{ℕ_discrete}
use drone_exploration_stack.Prelude.{
  ℕ, ◌≤◌, ◌<◌, ◌≡◌, refl, sym, ap, ◌∙◌, ◌⊎◌, inl, inr, arith, false, Option, none, some, List, [],
  length, get_elem?, set, ok, length-set, get_elem?-set_self, get_elem?-set_ne, lt_of_get_elem?,
}
use drone_exploration_stack.Prelude.Words.{sub32}
use drone_exploration_stack.Comm.{StoragePacket}
use drone_exploration_stack.Floats.{Floats}
use drone_exploration_stack.Ldq.{LidarDataQueue, null, live, queue_is_full}
use drone_exploration_stack.Ldq.Power.{RoundsUp, pow2_pos}
use drone_exploration_stack.Ldq.Invariant.{Entry, contents, contents_of, init_queue-IsValid}
use drone_exploration_stack.Ldq.Invariant
use drone_exploration_stack.Ldq.Refine.{is_empty_is_full}
use drone_exploration_stack.CacheIndex.Invariant as Cache
use drone_exploration_stack.Lds.{
  Lds, LidarDevice, calculate_packet_queue_size, prepared_queue, prepare,
}

-- A device's queue before its first packet, or a valid queue.
abbrev pub IsReady : {F : Type 0} → LidarDataQueue F → Type 0
IsReady q = (q.storage_packet ≡ null) ⊎ Invariant.IsValid q

room :
    {F : Type 0} (q : LidarDataQueue F) (n : ℕ)
    → Invariant.IsValid q
    → contents q ≡ []
    → RoundsUp n q.size
    → queue_is_full q ≡ false
room q n v none_waits up =
    (is_empty_is_full q v).1 ∙ ground (arith, ap length none_waits, up.is_pow, pow2_pos up.exponent)

pub live_of_ready :
    {F : Type 0} (q : LidarDataQueue F)
    → IsReady q
    → (q.storage_packet ≡ null)
      ⊎ ((packets : List (StoragePacket F)) × (q.storage_packet ≡ live packets)
          × Invariant.IsValid q)
live_of_ready q (inl e) = inl e
live_of_ready q (inr v) = inr (v.packets, ap (λ p. p.storage_packet) v.is, v)

abbrev pub waiting_of : {F : Type 0} → Option (LidarDevice F) → List (Entry F)
waiting_of none = []
waiting_of (some d) = contents d.queue

module _ {fl : Floats} where
  pub record IsValid (s : Lds fl) : Type 0 where
    pub devices : length s.lidars ≡ 32
    pub counted : s.lidar_count ≡ 32
    pub indexed : Cache.IsValid s.cache_index
    -- The rate is at most 100 Hz.
    pub rate : fl.truncate s.publish_freq ≤ 100
    pub ready : (i : ℕ) (d : LidarDevice fl.Float) → get_elem? s.lidars i ≡ some d → IsReady d.queue

  -- The packets that wait for the device in a slot.
  abbrev pub waiting : Lds fl → ℕ → List (Entry fl.Float)
  waiting s i = waiting_of (get_elem? s.lidars i)

  -- `CalculatePacketQueueSize` asks for 10 packets up to 10 Hz, and for 101 at most.
  pub queue_size_le : (s : Lds fl) → IsValid s → calculate_packet_queue_size fl s.publish_freq ≤ 101
  unfolding calculate_packet_queue_size
  queue_size_le s v = ground (arith, v.rate)

  -- Other fields of the source may change without harm to the devices.
  pub set_lidars-IsValid :
      (s : Lds fl) (i : ℕ) (d : LidarDevice fl.Float) (count : ℕ)
      → IsValid s
      → IsReady d.queue
      → IsValid (record s { lidars = set s.lidars i d; pcd_semaphore = count })
  set_lidars-IsValid s i d count v r = record {
    devices = length-set s.lidars i d ∙ v.devices;
    counted = v.counted;
    indexed = v.indexed;
    rate = v.rate;
    ready = λ j e h. set_ready j e h;
  }
    where
      there : {j : ℕ} → i ≡ j → i < length s.lidars → get_elem? (set s.lidars i d) j ≡ some d
      there at less = rw (← at) (get_elem?-set_self s.lidars i d less)

      set_ready :
          (j : ℕ) (e : LidarDevice fl.Float)
          → get_elem? (set s.lidars i d) j ≡ some e
          → IsReady e.queue
      set_ready j e h = elim (ℕ_discrete i j) [
        | yes at ↦
            let in_range : i < length s.lidars =
              omega (arith, lt_of_get_elem? (set s.lidars i d) j e h, length-set s.lidars i d) in
            subst (λ o. (x : LidarDevice fl.Float) → o ≡ some x → IsReady x.queue)
              (sym (there at in_range))
              (λ x p. subst (λ y. IsReady y.queue) (some-injective d x p) r) e h
        | no other ↦ v.ready j e (rw (get_elem?-set_ne s.lidars i j d other) at h)
      ]

  -- What `PushLidarData` finds to push to: the queue itself, or an empty one if there was no array.
  pub prepared :
      (s : Lds fl) (q : LidarDataQueue fl.Float)
      → IsValid s
      → IsReady q
      → (q' : LidarDataQueue fl.Float) × (prepared_queue s q ≡ ok q')
        × Invariant.IsValid q'
        × (contents q' ≡ contents q)
        × ((q' ≡ q) ⊎ (queue_is_full q' ≡ false))
  unfolding prepared_queue
  prepared s q v r = cases (live_of_ready q r)
    where
      cases :
          (q.storage_packet ≡ null)
            ⊎ ((packets : List (StoragePacket fl.Float)) × (q.storage_packet ≡ live packets)
                × Invariant.IsValid q)
          → (q' : LidarDataQueue fl.Float) × (prepared_queue s q ≡ ok q')
            × Invariant.IsValid q'
            × (contents q' ≡ contents q)
            × ((q' ≡ q) ⊎ (queue_is_full q' ≡ false))
      cases (inr (packets, e, valid)) = (q, ap (prepare s q) e, valid, refl, inl refl)
      cases (inl e) =
          let n = calculate_packet_queue_size fl s.publish_freq in
          let small = queue_size_le s v in
          let (q', e', v', none_waits, up) = init_queue-IsValid q n (λ stale. cc) (omega arith) in
          (
            q',
            ap (prepare s q) e ∙ e',
            v',
            none_waits ∙ sym nothing,
            inr (room q' n v' none_waits up),
          )
        where
          nothing : contents q ≡ []
          nothing = ap (λ t. contents_of t q.size q.rd_idx (sub32 q.wr_idx q.rd_idx)) e
