-- ===== src/Lds/Reset.antt =====
-- The reset of lds.cpp at devices that have received no packet yet, as the constructor does it.
use drone_exploration_stack.Prelude.{
  ℕ, zero, suc, ◌≤◌, ◌≡◌, refl, ap, ◌∙◌, inl, some, List, [], ◌∷◌, length, get_elem?, All, ok,
}
use drone_exploration_stack.Floats.{Floats}
use drone_exploration_stack.Comm.{off}
use drone_exploration_stack.ImuQueue
use drone_exploration_stack.Ldq.{null}
use drone_exploration_stack.Ldq.Null.{de_init_queue-null}
use drone_exploration_stack.CacheIndex.Invariant as Cache
use drone_exploration_stack.Lds.{Lds, LidarDevice, reset_lidar, reset_lidars, reset_lds}
use drone_exploration_stack.Lds.Invariant.{IsValid}

-- No device has an array for its queue.
abbrev pub AllUnused : {F : Type 0} → List (LidarDevice F) → Type 0
AllUnused ds = All (λ d. d.queue.storage_packet ≡ null) ds

pub get_elem?-All :
    {A : Type 0} (P : A → Type 0) (xs : List A) (i : ℕ) (a : A)
    → All P xs
    → get_elem? xs i ≡ some a
    → P a
get_elem?-All P [] i a h e = cc
get_elem?-All P (x ∷ xs) zero a h e = let same : x ≡ a = cc in rw same at h.0
get_elem?-All P (x ∷ xs) (suc i) a h e = get_elem?-All P xs i a h.1 e

reset_lidars-AllUnused :
    {F : Type 0} (ds : List (LidarDevice F)) (data_src : ℕ)
    → AllUnused ds
    → (ds' : List (LidarDevice F)) × (reset_lidars ds data_src ≡ ok ds')
      × (length ds' ≡ length ds)
      × AllUnused ds'
unfolding reset_lidars reset_lidar
reset_lidars-AllUnused [] data_src h = ([], refl, refl, tt)
reset_lidars-AllUnused (d ∷ ds) data_src h =
    let (ds', done, same, unused) = reset_lidars-AllUnused ds data_src h.1 in
    let d' = record d {
      queue = record { storage_packet = null; rd_idx = 0; wr_idx = 0; mask = 0; size = 0 };
      imu_queue = ImuQueue.clear d.imu_queue;
      data_src = data_src;
      connect_state = off;
    } in
    (d' ∷ ds', rw (de_init_queue-null d.queue h.0) (rw done refl), ap suc same, (refl, unused))

module _ {fl : Floats} where
  -- What the reset of unused devices leaves: a valid source where nothing waits.
  pub record Reset (s s' : Lds fl) : Type 0 where
    pub valid : IsValid s'
    pub unused : AllUnused s'.lidars
    pub unchanged :
        (s'.cache_index ≡ s.cache_index)
        × (s'.pcd_semaphore ≡ s.pcd_semaphore)
        × (s'.request_exit ≡ s.request_exit)
        × (s'.publish_freq ≡ s.publish_freq)

  pub reset_lds-Reset :
      (s : Lds fl) (data_src : ℕ)
      → length s.lidars ≡ 32
      → Cache.IsValid s.cache_index
      → fl.truncate s.publish_freq ≤ 100
      → AllUnused s.lidars
      → (s' : Lds fl) × (reset_lds s data_src ≡ ok s') × Reset s s'
  unfolding reset_lds
  reset_lds-Reset s data_src devices indexed rate unused =
      let (ds, done, same, left) = reset_lidars-AllUnused s.lidars data_src unused in
      (
        record s { lidar_count = 32; lidars = ds },
        rw done refl,
        record {
          valid = record {
            devices = same ∙ devices;
            counted = refl;
            indexed = indexed;
            rate = rate;
            ready = λ i d there.
                inl (get_elem?-All (λ d. d.queue.storage_packet ≡ null) ds i d left there);
          };
          unused = left;
          unchanged = (refl, refl, refl, refl);
        },
      )
