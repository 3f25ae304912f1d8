-- ===== src/Ldq/Invariant.antt =====
-- The representation invariant of `LidarDataQueue`, and the list of packets that it stands for.
use native.Mathlib.Nat.{mod-lt}
use drone_exploration_stack.Prelude.{
  ℕ, zero, suc, ◌-◌, ◌%◌, ◌^◌, ◌≤◌, ◌<◌, ◌≡◌, ◌≢◌, refl, ap, ◌∙◌, arith, List, [], ◌∷◌, length,
  get_elem?, set, some, All, ok, replicate, length-replicate,
}
use drone_exploration_stack.Prelude.Words.{sub32}
use drone_exploration_stack.Comm.{PointXyzlt, StoragePacket}
use drone_exploration_stack.Ldq.{
  LidarDataQueue, Storage, null, dangling, live, blank_packet, real_size, init_queue,
  delete_storage,
}
use drone_exploration_stack.Ldq.Power.{pow2_pos, pow2_mono, real_size-RoundsUp, RoundsUp}
use drone_exploration_stack.Ldq.Window.{window}

-- What a reader gets of a storage packet.
pub record Entry (F : Type 0) : Type 0 where
  pub base_time : ℕ
  pub points : List (PointXyzlt F)

module _ {F : Type 0} where
  abbrev pub entry_of : StoragePacket F → Entry F
  entry_of p = record { base_time = p.base_time; points = p.points }

  abbrev pub get_or : List (StoragePacket F) → ℕ → StoragePacket F → StoragePacket F
  get_or [] i d = d
  get_or (p ∷ ps) zero d = p
  get_or (p ∷ ps) (suc i) d = get_or ps i d

  -- The entry at a free-running counter.
  abbrev pub entry_at : List (StoragePacket F) → ℕ → ℕ → Entry F
  entry_at packets size i = entry_of (get_or packets (i % size) (blank_packet F))

  abbrev pub contents_of : Storage F → ℕ → ℕ → ℕ → List (Entry F)
  contents_of null size rd n = []
  contents_of dangling size rd n = []
  contents_of (live packets) size rd n = window (entry_at packets size) rd n

  -- The packets that wait in the queue, oldest first.
  abbrev pub contents : LidarDataQueue F → List (Entry F)
  contents q = contents_of q.storage_packet q.size q.rd_idx (sub32 q.wr_idx q.rd_idx)

  abbrev pub Counted : StoragePacket F → Type 0
  Counted p = p.points_num ≡ length p.points

  -- The queue over an array of `2 ^ k` packets.
  abbrev pub ring : List (StoragePacket F) → ℕ → ℕ → ℕ → LidarDataQueue F
  ring packets k rd wr = record {
    storage_packet = live packets;
    rd_idx = rd;
    wr_idx = wr;
    mask = 2 ^ k - 1;
    size = 2 ^ k;
  }

  pub record IsRing (packets : List (StoragePacket F)) (k rd wr : ℕ) : Type 0 where
    pub small : k ≤ 31
    pub sized : length packets ≡ 2 ^ k
    pub rd_word : rd < 2 ^ 32
    pub wr_word : wr < 2 ^ 32
    pub bounded : sub32 wr rd ≤ 2 ^ k
    pub all_counted : All Counted packets

  -- The array is live and of a power of 2, the mask fits it, the counters are words at most a
  -- whole ring apart, and each slot's `points_num` is the length of its vector.
  pub record IsValid (q : LidarDataQueue F) : Type 0 where
    pub packets : List (StoragePacket F)
    pub k : ℕ
    pub rd : ℕ
    pub wr : ℕ
    pub is : q ≡ ring packets k rd wr
    pub holds : IsRing packets k rd wr

  -- A counter's place lies inside the array.
  pub mod_in :
      (packets : List (StoragePacket F)) (k i : ℕ)
      → length packets ≡ 2 ^ k
      → i % 2 ^ k < length packets
  mod_in packets k i e = omega (arith, mod-lt i {m = 2 ^ k} (pow2_pos k))

  pub get_elem?-get_or :
      (packets : List (StoragePacket F)) (i : ℕ)
      → i < length packets
      → get_elem? packets i ≡ some (get_or packets i (blank_packet F))
  get_elem?-get_or [] i h = absurd (omega arith)
  get_elem?-get_or (p ∷ ps) zero h = refl
  get_elem?-get_or (p ∷ ps) (suc i) h = get_elem?-get_or ps i (omega arith)

  pub get_or-Counted :
      (packets : List (StoragePacket F)) (i : ℕ)
      → All Counted packets
      → Counted (get_or packets i (blank_packet F))
  get_or-Counted [] i h = refl
  get_or-Counted (p ∷ ps) zero h = h.0
  get_or-Counted (p ∷ ps) (suc i) h = get_or-Counted ps i h.1

  pub get_or-set_self :
      (packets : List (StoragePacket F)) (i : ℕ) (p : StoragePacket F)
      → i < length packets
      → get_or (set packets i p) i (blank_packet F) ≡ p
  get_or-set_self [] i p h = absurd (omega arith)
  get_or-set_self (x ∷ xs) zero p h = refl
  get_or-set_self (x ∷ xs) (suc i) p h = get_or-set_self xs i p (omega arith)

  pub get_or-set_ne :
      (packets : List (StoragePacket F)) (i j : ℕ) (p : StoragePacket F)
      → i ≢ j
      → get_or (set packets i p) j (blank_packet F) ≡ get_or packets j (blank_packet F)
  get_or-set_ne [] i j p h = refl
  get_or-set_ne (x ∷ xs) zero zero p h = absurd (h refl)
  get_or-set_ne (x ∷ xs) zero (suc j) p h = refl
  get_or-set_ne (x ∷ xs) (suc i) zero p h = refl
  get_or-set_ne (x ∷ xs) (suc i) (suc j) p h = get_or-set_ne xs i j p (λ e. h (ap suc e))

  pub set-Counted :
      (packets : List (StoragePacket F)) (i : ℕ) (p : StoragePacket F)
      → All Counted packets
      → Counted p
      → All Counted (set packets i p)
  set-Counted [] i p h c = tt
  set-Counted (x ∷ xs) zero p h c = (c, h.1)
  set-Counted (x ∷ xs) (suc i) p h c = (h.0, set-Counted xs i p h.1 c)

replicate-Counted : (F : Type 0) (n : ℕ) → All Counted (replicate n (blank_packet F))
replicate-Counted F zero = tt
replicate-Counted F (suc n) = (refl, replicate-Counted F n)

module _ {F : Type 0} where
  deletes : (s : Storage F) → s ≢ dangling → (s' : Storage F) × (delete_storage s ≡ ok s')
  unfolding delete_storage
  deletes null h = (null, refl)
  deletes dangling h = absurd (h refl)
  deletes (live packets) h = (dangling, refl)

  -- `InitQueue` on a queue without a stale array gives a valid, empty queue whose size is the least
  -- power of 2 that is not below the size asked for.
  pub init_queue-IsValid :
      (q : LidarDataQueue F) (n : ℕ)
      → q.storage_packet ≢ dangling
      → n ≤ 2 ^ 31
      → (q' : LidarDataQueue F) × (init_queue q n ≡ ok q')
        × IsValid q'
        × (contents q' ≡ [])
        × RoundsUp n q'.size
  unfolding init_queue
  init_queue-IsValid q n h le =
      let up = real_size-RoundsUp n le in
      let m = real_size n in
      let fresh = replicate m (blank_packet F) in
      let pow_pos = pow2_pos up.exponent in
      let pow_le = pow2_mono up.exponent 31 up.small in
      let mask_is : sub32 m 1 ≡ 2 ^ up.exponent - 1 = omega (arith, up.is_pow) in
      let (s, e) = deletes q.storage_packet h in
      (
        record { storage_packet = live fresh; rd_idx = 0; wr_idx = 0; mask = sub32 m 1; size = m },
        rw e refl,
        record {
          packets = fresh;
          k = up.exponent;
          rd = 0;
          wr = 0;
          is = λ i. record {
            storage_packet = live fresh;
            rd_idx = 0;
            wr_idx = 0;
            mask = mask_is i;
            size = up.is_pow i;
          };
          holds = record {
            small = up.small;
            sized = length-replicate m (blank_packet F) ∙ up.is_pow;
            rd_word = omega arith;
            wr_word = omega arith;
            bounded = omega arith;
            all_counted = replicate-Counted F m;
          };
        },
        refl,
        up,
      )
