-- ===== src/LdsLidar/Slots.antt =====
-- The slots that lds_lidar.cpp gives the lidars of the configuration.
use mathlib.Core.Option.{some-injective}
use native.Mathlib.Decide.{ℕ_discrete}
use drone_exploration_stack.Prelude.{
  ℕ, ◌≡◌, ◌≢◌, refl, sym, ap, ◌∙◌, inl, inr, arith, some, List, [], ◌∷◌, get_elem?, set, ◌==◌, ok,
  if_true, if_false, ne→==_false, ==_refl, get_elem?-lt, get_elem?-set_self, get_elem?-set_ne,
  Option-cases,
}
use drone_exploration_stack.Floats.{Floats}
use drone_exploration_stack.Comm.{UserLivoxLidarConfig, livox_lidar_type}
use drone_exploration_stack.CacheIndex.{CacheIndex, Text, get_free_index, get_index}
use drone_exploration_stack.CacheIndex.Invariant as Cache
use drone_exploration_stack.CacheIndex.Invariant.{get_free_index-IsValid}
use drone_exploration_stack.CacheIndex.Lookup.{get_free_index-lookup, get_index_distinct}
use drone_exploration_stack.CacheIndex.Failure.{get_free_index-none}
use drone_exploration_stack.Lds.{Lds, LidarDevice}
use drone_exploration_stack.Lds.Invariant.{IsValid, set_lidars-IsValid}
use drone_exploration_stack.Lds.Store.{element_at-ok}
use drone_exploration_stack.PubHandler.{add_lidars_ext_param}
use drone_exploration_stack.LdsLidar.{LdsLidar, ext_parameter_for, fill_device, fill_devices}

module _ {fl : Floats} (to_string : ℕ → Text)
    (to_string_injective : (a b : ℕ) → to_string a ≡ to_string b → a ≡ b) where
  -- The slot that the table gives a lidar is that of the device with its handle.
  abbrev pub HandlesAgree : Lds fl → Type 0
  HandlesAgree s =
      (h i : ℕ) (d : LidarDevice fl.Float)
      → get_index to_string s.cache_index livox_lidar_type h ≡ some i
      → get_elem? s.lidars i ≡ some d
      → d.handle ≡ h

  -- The source with another table.
  abbrev with_cache : Lds fl → CacheIndex → Lds fl
  with_cache s c = record s { cache_index = c }

  with_cache-IsValid :
      (s : Lds fl) (c : CacheIndex) → IsValid s → Cache.IsValid c → IsValid (with_cache s c)
  with_cache-IsValid s c v vc = record {
    devices = v.devices;
    counted = v.counted;
    indexed = vc;
    rate = v.rate;
    ready = v.ready;
  }

  -- The table has given `h` the slot `i`, whose device is then filled in.
  filled-HandlesAgree :
      (s : Lds fl) (h i : ℕ) (d : LidarDevice fl.Float)
      → IsValid s
      → HandlesAgree s
      → (get_free_index to_string s.cache_index livox_lidar_type h).0 ≡ some i
      → d.handle ≡ h
      → HandlesAgree (record s {
        cache_index = (get_free_index to_string s.cache_index livox_lidar_type h).1;
        lidars = set s.lidars i d;
      })
  filled-HandlesAgree s h i d v agree given named k j e found there =
      let c' = (get_free_index to_string s.cache_index livox_lidar_type h).1 in
      let vc' = get_free_index-IsValid to_string s.cache_index livox_lidar_type h v.indexed in
      let at_h =
        get_free_index-lookup to_string to_string_injective s.cache_index h i h v.indexed given in
      let at_k =
        get_free_index-lookup to_string to_string_injective s.cache_index h i k v.indexed given in
      let h_found : get_index to_string c' livox_lidar_type h ≡ some i =
        at_h.1 ∙ if_true (h == h) _ _ (==_refl h) in
      elim (ℕ_discrete k h) [
        | yes same ↦
            let here : some i ≡ some j =
              sym h_found ∙ ap (get_index to_string c' livox_lidar_type) (sym same) ∙ found in
            let i_is : i ≡ j = some-injective i j here in
            let made : d ≡ e = some-injective d e (
              sym (get_elem?-set_self s.lidars i d (omega (arith, at_h.0, v.devices)))
              ∙ ap (get_elem? (set s.lidars i d)) i_is
              ∙ there) in
            ap (λ x. x.handle) (sym made) ∙ named ∙ sym same
        | no other ↦
            let before = sym (at_k.1 ∙ if_false (k == h) _ _ (ne→==_false k h other)) ∙ found in
            let apart : i ≢ j =
              get_index_distinct to_string to_string_injective c' h k i j vc' (λ x. other (sym x))
                h_found found in
            agree k j e before (sym (get_elem?-set_ne s.lidars i j d apart) ∙ there)
      ]

  -- What the set-up leaves alone: the queues, the states of the lidars, and the wake-ups.
  pub record Filled (s s' : Lds fl) : Type 0 where
    pub valid : IsValid s'
    pub agree : HandlesAgree s'
    pub queues :
        (i : ℕ) (d' : LidarDevice fl.Float)
        → get_elem? s'.lidars i ≡ some d'
        → (d : LidarDevice fl.Float) × (get_elem? s.lidars i ≡ some d)
          × (d'.queue ≡ d.queue)
          × (d'.connect_state ≡ d.connect_state)
    pub unchanged : (s'.pcd_semaphore ≡ s.pcd_semaphore) × (s'.request_exit ≡ s.request_exit)

  Filled-then : (s mid s' : Lds fl) → Filled s mid → Filled mid s' → Filled s s'
  Filled-then s mid s' first rest = record {
    valid = rest.valid;
    agree = rest.agree;
    queues = λ i d' there.
        let (d₁, at₁, queue₁, state₁) = rest.queues i d' there in
        let (d, at, queue, state) = first.queues i d₁ at₁ in
        (d, at, queue₁ ∙ queue, state₁ ∙ state);
    unchanged = (rest.unchanged.0 ∙ first.unchanged.0, rest.unchanged.1 ∙ first.unchanged.1);
  }

  pub Filled-refl : (s : Lds fl) → IsValid s → HandlesAgree s → Filled s s
  Filled-refl s v agree = record {
    valid = v;
    agree = agree;
    queues = λ i d' there. (d', there, refl, refl);
    unchanged = (refl, refl);
  }

  -- The filling of one device.
  fill_device-Filled :
      (l : LdsLidar fl) (config : UserLivoxLidarConfig fl.Float) (i : ℕ)
      → IsValid l.lds
      → HandlesAgree l.lds
      → (get_free_index to_string l.lds.cache_index livox_lidar_type config.handle).0 ≡ some i
      → let c = (get_free_index to_string l.lds.cache_index livox_lidar_type config.handle).1 in
        (l' : LdsLidar fl) × (fill_device to_string (record l { lds = with_cache l.lds c }) config i
          ≡ ok l')
        × Filled l.lds l'.lds
  unfolding fill_device
  fill_device-Filled l config i v agree given =
      let h = config.handle in
      let c = (get_free_index to_string l.lds.cache_index livox_lidar_type h).1 in
      let vc = get_free_index-IsValid to_string l.lds.cache_index livox_lidar_type h v.indexed in
      let small =
        (get_free_index-lookup to_string to_string_injective l.lds.cache_index h i h v.indexed
          given).0 in
      let (d, there) = get_elem?-lt l.lds.lidars i (omega (arith, v.devices)) in
      let e = record d { lidar_type = livox_lidar_type; livox_config = config; handle = h } in
      let s = with_cache l.lds c in
      let v' =
        set_lidars-IsValid s i e s.pcd_semaphore (with_cache-IsValid l.lds c v vc)
          (v.ready i d there) in
      let made_l = record l {
        lds = record s { lidars = set l.lds.lidars i e };
        pub_handler = add_lidars_ext_param l.pub_handler (ext_parameter_for config);
      } in
      (
        made_l,
        rw (element_at-ok l.lds.lidars i d there) refl,
        record {
          valid = v';
          agree = filled-HandlesAgree l.lds h i e v agree given refl;
          queues = λ j d' at. elim (ℕ_discrete i j) [
            | no other ↦ (d', sym (get_elem?-set_ne l.lds.lidars i j e other) ∙ at, refl, refl)
            | yes same ↦
                let made : e ≡ d' = some-injective e d' (
                  sym (get_elem?-set_self l.lds.lidars i e (omega (arith, v.devices)))
                  ∙ ap (get_elem? (set l.lds.lidars i e)) same
                  ∙ at) in
                (
                  d,
                  ap (get_elem? l.lds.lidars) (sym same) ∙ there,
                  ap (λ x. x.queue) (sym made),
                  ap (λ x. x.connect_state) (sym made),
                )
          ];
          unchanged = (refl, refl);
        },
      )

  -- The loop of `InitLivoxLidar` over any list of configurations succeeds, keeps the invariant of the
  -- source, and leaves every slot that the table gives a lidar with the handle of that lidar; the
  -- queues and states of the devices and the count of the semaphore stay as they are. A lidar that
  -- gets no slot is passed over.
  pub fill_devices-Filled :
      (l : LdsLidar fl) (configs : List (UserLivoxLidarConfig fl.Float))
      → IsValid l.lds
      → HandlesAgree l.lds
      → (l' : LdsLidar fl) × (fill_devices to_string l configs ≡ ok l') × Filled l.lds l'.lds
  unfolding fill_devices
  fill_devices-Filled l [] v agree = (l, refl, Filled-refl l.lds v agree)
  fill_devices-Filled l (config ∷ configs) v agree =
      let c = l.lds.cache_index in
      let h = config.handle in
      elim (Option-cases (get_free_index to_string c livox_lidar_type h).0) [
        | inl refused ↦
            let (l', done, filled) = fill_devices-Filled l configs v agree in
            let same = get_free_index-none to_string c livox_lidar_type h refused in
            (l', rw (refused, fill_devices) (rw same done), filled)
        | inr (i, given) ↦
            let (l₁, done₁, filled₁) = fill_device-Filled l config i v agree given in
            let (l', done, filled) = fill_devices-Filled l₁ configs filled₁.valid filled₁.agree in
            (
              l',
              rw (given, fill_devices) (rw done₁ done),
              Filled-then l.lds l₁.lds l'.lds filled₁ filled,
            )
      ]
