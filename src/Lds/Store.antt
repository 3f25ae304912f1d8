-- ===== src/Lds/Store.antt =====
-- What `PushLidarData` and the storage calls do to the queues of the devices.
use drone_exploration_stack.Prelude.{
  Outcome, fault, out_of_bounds, Option-cases, ℕ, zero, suc, ◌+◌, ◌≤◌, ◌<◌, ◌≡◌, ◌≢◌, refl, sym, ap,
  ◌∙◌, ◌⊎◌, inl, inr, arith, true, false, Option, none, some, List, [], ◌∷◌, ◌++◌, length,
  get_elem?, set, ok, length-append, get_elem?-set_self, get_elem?-set_ne, get_elem?-lt, Bool-cases,
  Option-cases,
}
use drone_exploration_stack.Floats.{Floats}
use drone_exploration_stack.Comm.{PointPacket}
use drone_exploration_stack.Ldq.{LidarDataQueue, queue_is_full, queue_is_empty}
use drone_exploration_stack.Ldq.Invariant.{Entry, contents}
use drone_exploration_stack.Ldq.Invariant
use drone_exploration_stack.Ldq.Refine.{pushed, push_refines, is_empty_is_full}
use drone_exploration_stack.Semaphore
use drone_exploration_stack.CacheIndex.Table.{get_index-lt}
use drone_exploration_stack.CacheIndex.{Text, get_index}
use drone_exploration_stack.Lds.{
  Lds, LidarDevice, PointFrame, element_at, push_lidar_data, push_or_drop, set_queue, wake,
  store_point, store_points, storage_point_data,
}
use drone_exploration_stack.Lds.Invariant.{
  IsValid, waiting, waiting_of, prepared, set_lidars-IsValid,
}

pub element_at-ok {ℓ} :
    {A : Type ℓ} (xs : List A) (i : ℕ) (a : A) → get_elem? xs i ≡ some a → element_at xs i ≡ ok a
unfolding element_at
element_at-ok xs i a e = rw (e, element_at) refl

pub element_at-there :
    {A : Type 0} (xs : List A) (i : ℕ) (a : A) → element_at xs i ≡ ok a → get_elem? xs i ≡ some a
unfolding element_at
element_at-there {A} xs i a e = elim (Option-cases (get_elem? xs i)) [
  | inl absent ↦
      let impossible : ◌≡◌ {A = Outcome A} (fault out_of_bounds) (ok a) =
        sym (rw (absent, element_at) refl) ∙ e in
      cc
  | inr (b, found) ↦
      let same : ok b ≡ ok a = sym (rw (found, element_at) refl) ∙ e in found ∙ ap some (cc)
]

wake_pos : (count : ℕ) → 1 ≤ wake count
unfolding wake Semaphore.signal
wake_pos count = ground arith

still_full :
    {F : Type 0} (q q' : LidarDataQueue F)
    → (q ≡ q') ⊎ (queue_is_full q ≡ false)
    → queue_is_full q ≡ true
    → queue_is_full q' ≡ true
still_full q q' (inl e) full = rw (← e) full
still_full q q' (inr room) full = cc

waits_after :
    {F : Type 0} (q : LidarDataQueue F) (es : List (Entry F)) (e : Entry F)
    → Invariant.IsValid q
    → contents q ≡ es ++ e ∷ []
    → queue_is_empty q ≡ false
waits_after q es e v grown =
    (is_empty_is_full q v).0 ∙ ground (arith, ap length grown, length-append es (e ∷ []))

module _ {F : Type 0} where
  -- The arrays of a frame have 32 elements, of which `lidar_num` are in use, with their points.
  pub record IsFrame (frame : PointFrame F) : Type 0 where
    pub times : length frame.base_time ≡ 32
    pub points : length frame.lidar_point ≡ 32
    pub used : frame.lidar_num ≤ 32
    pub fits :
        (i : ℕ) (p : PointPacket F)
        → i < frame.lidar_num
        → get_elem? frame.lidar_point i ≡ some p
        → p.points_num ≤ length p.points

  abbrev pub entry_with :
      Option (PointPacket F) → Option ℕ → List (PointPacket F × ℕ) → List (PointPacket F × ℕ)
  entry_with none t rest = []
  entry_with (some p) none rest = []
  entry_with (some p) (some t) rest = (p, t) ∷ rest

  -- The `n` packets of a frame from the `i`-th on, with their times.
  abbrev pub entries : ℕ → ℕ → PointFrame F → List (PointPacket F × ℕ)
  entries zero i frame = []
  entries (suc n) i frame =
      entry_with (get_elem? frame.lidar_point i) (get_elem? frame.base_time i)
        (entries n (i + 1) frame)

module _ {fl : Floats} where
  -- What the state is after a packet has come for a device: the packet waits behind the others, or
  -- the device's queue was full and nothing of its queue has changed; the reader is to wake; and no
  -- other device is touched.
  pub record Stored (s : Lds fl) (i : ℕ) (e : Entry fl.Float) (s' : Lds fl) : Type 0 where
    pub valid : IsValid s'
    pub woken : 1 ≤ s'.pcd_semaphore
    pub kept_or_dropped :
        (waiting s' i ≡ waiting s i ++ e ∷ [])
        ⊎ ((waiting s' i ≡ waiting s i)
            × ((d : LidarDevice fl.Float) × (get_elem? s.lidars i ≡ some d)
                × (queue_is_full d.queue ≡ true)))
    pub others : (j : ℕ) → j ≢ i → get_elem? s'.lidars j ≡ get_elem? s.lidars j
    pub unchanged :
        (s'.cache_index ≡ s.cache_index)
        × (s'.request_exit ≡ s.request_exit)
        × (s'.imu_semaphore ≡ s.imu_semaphore)

  -- The state after the queue of a device has been replaced.
  waiting_set :
      (s : Lds fl) (i : ℕ) (d : LidarDevice fl.Float) (q : LidarDataQueue fl.Float)
      → i < 32
      → IsValid s
      → waiting_of (get_elem? (set s.lidars i (record d { queue = q })) i) ≡ contents q
  waiting_set s i d q less v =
      ap waiting_of
        (get_elem?-set_self s.lidars i (record d { queue = q }) (omega (arith, v.devices)))

  push_or_drop-Stored :
      (s : Lds fl) (packet : PointPacket fl.Float) (i t : ℕ) (d : LidarDevice fl.Float)
      (q : LidarDataQueue fl.Float)
      → IsValid s
      → i < 32
      → get_elem? s.lidars i ≡ some d
      → Invariant.IsValid q
      → contents q ≡ contents d.queue
      → (q ≡ d.queue) ⊎ (queue_is_full q ≡ false)
      → packet.points_num ≤ length packet.points
      → (s' : Lds fl) × (push_or_drop s packet i t d q ≡ ok s') × Stored s i (pushed packet t) s'
  unfolding push_or_drop
  push_or_drop-Stored s packet i t d q v less there vq same kind fits =
      elim (Bool-cases (queue_is_full q)) [
        | inl full ↦ (
          record (set_queue s i d q) { pcd_semaphore = wake s.pcd_semaphore },
          rw full refl,
          record {
            valid =
                set_lidars-IsValid s i (record d { queue = q }) (wake s.pcd_semaphore) v (inr vq);
            woken = wake_pos s.pcd_semaphore;
            kept_or_dropped = inr (
              waiting_set s i d q less v ∙ same ∙ ap waiting_of (sym there),
              (d, there, still_full q d.queue kind full),
            );
            others = λ j other.
                get_elem?-set_ne s.lidars i j (record d { queue = q }) (λ e. other (sym e));
            unchanged = (refl, refl, refl);
          },
        )
        | inr room ↦
            let (q', e, v', _, grown) = push_refines q packet t vq room fits in
            let waits : queue_is_empty q' ≡ false =
              waits_after q' (contents q) (pushed packet t) v' grown in
            (
              record (set_queue s i d q') { pcd_semaphore = wake s.pcd_semaphore },
              rw room (rw e (rw waits refl)),
              record {
                valid =
                    set_lidars-IsValid s i (record d { queue = q' }) (wake s.pcd_semaphore) v
                      (inr v');
                woken = wake_pos s.pcd_semaphore;
                kept_or_dropped = inl (
                    waiting_set s i d q' less v
                    ∙ grown
                    ∙ ap (λ w. w ++ pushed packet t ∷ []) (same ∙ ap waiting_of (sym there)));
                others = λ j other.
                    get_elem?-set_ne s.lidars i j (record d { queue = q' }) (λ e. other (sym e));
                unchanged = (refl, refl, refl);
              },
            )
      ]

  -- `PushLidarData` for one of the 32 slots succeeds: the packet is appended to what waits for the
  -- device, or dropped because the device's queue is full; the reader is woken; the other devices
  -- keep their queues.
  pub push_lidar_data-Stored :
      (s : Lds fl) (packet : PointPacket fl.Float) (i t : ℕ)
      → IsValid s
      → i < 32
      → packet.points_num ≤ length packet.points
      → (s' : Lds fl) × (push_lidar_data s packet i t ≡ ok s') × Stored s i (pushed packet t) s'
  unfolding push_lidar_data
  push_lidar_data-Stored s packet i t v less fits =
      let (d, there) = get_elem?-lt s.lidars i (omega (arith, v.devices)) in
      let (q, made, vq, same, kind) = prepared s d.queue v (v.ready i d there) in
      let (s', e, stored) = push_or_drop-Stored s packet i t d q v less there vq same kind fits in
      (s', rw (element_at-ok s.lidars i d there) (rw made e), stored)

  module _ (to_string : ℕ → Text) where
    -- What a frame does: its packets one after the other, each stored in the slot of its lidar, or
    -- skipped if the lidar has none.
    pub data StoresAll : Lds fl → List (PointPacket fl.Float × ℕ) → Lds fl → Type 0 where
      done : (s : Lds fl) → StoresAll s [] s
      skip :
          (s : Lds fl) (p : PointPacket fl.Float) (t : ℕ) (rest : List (PointPacket fl.Float × ℕ))
          (s' : Lds fl)
          → get_index to_string s.cache_index p.lidar_type p.handle ≡ none
          → StoresAll s rest s'
          → StoresAll s ((p, t) ∷ rest) s'
      store :
          (s : Lds fl) (p : PointPacket fl.Float) (t i : ℕ) (rest : List (PointPacket fl.Float × ℕ))
          (mid s' : Lds fl)
          → get_index to_string s.cache_index p.lidar_type p.handle ≡ some i
          → Stored s i (pushed p t) mid
          → StoresAll mid rest s'
          → StoresAll s ((p, t) ∷ rest) s'

    get_index_small :
        (s : Lds fl) (lidar_type handle i : ℕ)
        → IsValid s
        → get_index to_string s.cache_index lidar_type handle ≡ some i
        → i < 32
    get_index_small s lidar_type handle i v e =
        get_index-lt to_string s.cache_index lidar_type handle i v.indexed e

    -- One packet of a frame, and then the rest.
    store_points-StoresAll :
        (n i : ℕ) (s : Lds fl) (frame : PointFrame fl.Float)
        → IsValid s
        → IsFrame frame
        → i + n ≡ frame.lidar_num
        → (s' : Lds fl) × (store_points to_string n i s frame ≡ ok s')
          × IsValid s'
          × StoresAll s (entries n i frame) s'
    unfolding store_points
    store_points-StoresAll zero i s frame v f e = (s, refl, v, done s)
    store_points-StoresAll (suc n) i s frame v f e =
        let less : i < 32 = omega (arith, f.used) in
        let (p, ep) = get_elem?-lt frame.lidar_point i (omega (arith, f.points)) in
        let (t, et) = get_elem?-lt frame.base_time i (omega (arith, f.times)) in
        rw (element_at-ok frame.lidar_point i p ep) (
          rw (element_at-ok frame.base_time i t et) (
            rw (ep, et)
              (elim (Option-cases (get_index to_string s.cache_index p.lidar_type p.handle)) [
                | inl unknown ↦
                    let (s', done', v', all) =
                      store_points-StoresAll n (i + 1) s frame v f (omega arith) in
                    (s', rw (unknown, store_point) done', v', skip s p t _ s' unknown all)
                | inr (slot, known) ↦
                    let small = get_index_small s p.lidar_type p.handle slot v known in
                    let (mid, pushes, stored) =
                      push_lidar_data-Stored s p slot t v small (f.fits i p (omega arith) ep) in
                    let (s', done', v', all) =
                      store_points-StoresAll n (i + 1) mid frame stored.valid f (omega arith) in
                    (
                      s',
                      rw (known, store_point) (rw pushes done'),
                      v',
                      store s p t slot _ mid s' known stored all,
                    )
              ])))

    -- `StoragePointData` of a frame within its arrays succeeds, keeps the invariant, and stores each
    -- packet of the frame, in order, in the slot that `GetIndex` finds for its lidar; a packet of a
    -- lidar without a slot is skipped.
    pub storage_point_data-StoresAll :
        (s : Lds fl) (frame : PointFrame fl.Float)
        → IsValid s
        → IsFrame frame
        → (s' : Lds fl) × (storage_point_data to_string s frame ≡ ok s')
          × IsValid s'
          × StoresAll s (entries frame.lidar_num 0 frame) s'
    unfolding storage_point_data
    storage_point_data-StoresAll s frame v f =
        store_points-StoresAll frame.lidar_num 0 s frame v f (omega arith)
