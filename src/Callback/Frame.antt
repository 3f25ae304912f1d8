-- ===== src/Callback/Frame.antt =====
-- What the callbacks of call_back/livox_lidar_callback.cpp leave of the data source: its queues, its
-- semaphore, and a valid table of slots.
use native.Mathlib.Decide.{ℕ_discrete}
use mathlib.Core.Option.{some-injective}
use mathlib.Core.Path.{subst}
use drone_exploration_stack.Prelude.{
  ℕ, ◌≡◌, refl, sym, ap, ◌∙◌, inl, inr, some, List, get_elem?, set, Outcome, ok, fault, ◌>>=◌,
  Option-cases, lt_of_get_elem?, get_elem?-set_self, get_elem?-set_ne,
}
use drone_exploration_stack.Floats.{Floats}
use drone_exploration_stack.Comm.{livox_lidar_type}
use drone_exploration_stack.CacheIndex.{Text, get_free_index}
use drone_exploration_stack.CacheIndex.Invariant as Cache
use drone_exploration_stack.Lds.{Lds, LidarDevice, element_at}
use drone_exploration_stack.Lds.Invariant.{IsValid, IsReady, set_lidars-IsValid}
use drone_exploration_stack.Lds.Store.{element_at-there}
use drone_exploration_stack.Callback.{
  Setting, Status, success, timeout, failure, Command, answered, setting_answer, setting_callback,
  get_lidar_device, add_device, configure_device, lidar_info_change_callback,
}

abbrev pub SameQueue : {F : Type 0} → LidarDevice F → LidarDevice F → Type 0
SameQueue d d' = d.queue ≡ d'.queue

abbrev pub SameTurn : {F : Type 0} → LidarDevice F → LidarDevice F → Type 0
SameTurn d d' = (d.queue ≡ d'.queue) × (d.connect_state ≡ d'.connect_state)

module _ {fl : Floats} where
  -- Each device is as `R` says, compared with what it was.
  pub record IsFramed (R : LidarDevice fl.Float → LidarDevice fl.Float → Type 0) (s s' : Lds fl)
      : Type 0 where
    pub valid : IsValid s'
    pub signal : s'.pcd_semaphore ≡ s.pcd_semaphore
    pub devices :
        (j : ℕ) (d' : LidarDevice fl.Float)
        → get_elem? s'.lidars j ≡ some d'
        → (d : LidarDevice fl.Float) × (get_elem? s.lidars j ≡ some d) × R d d'

  module _ (R : LidarDevice fl.Float → LidarDevice fl.Float → Type 0)
      (same : (d : LidarDevice fl.Float) → R d d) where
    same-IsFramed : (s : Lds fl) → IsValid s → IsFramed R s s
    same-IsFramed s v = record { valid = v; signal = refl; devices = λ j d' at. (d', at, same d') }

    set-IsFramed :
        (s : Lds fl) (i : ℕ) (d e : LidarDevice fl.Float)
        → IsValid s
        → get_elem? s.lidars i ≡ some d
        → d.queue ≡ e.queue
        → R d e
        → IsFramed R s (record s { lidars = set s.lidars i e })
    set-IsFramed s i d e v there queue related = record {
      valid = set_lidars-IsValid s i e s.pcd_semaphore v (subst IsReady queue (v.ready i d there));
      signal = refl;
      devices = λ j d' at. elim (ℕ_discrete i j) [
        | no apart ↦ (d', sym (get_elem?-set_ne s.lidars i j e apart) ∙ at, same d')
        | yes at_i ↦
            let less = lt_of_get_elem? s.lidars i d there in
            let is : e ≡ d' = some-injective e d' (
              sym (get_elem?-set_self s.lidars i e less)
              ∙ ap (get_elem? (set s.lidars i e)) at_i
              ∙ at) in
            (d, ap (get_elem? s.lidars) (sym at_i) ∙ there, subst (R d) is related)
      ];
    }

  -- The same of a call that returns.
  abbrev pub OkFramed :
      (LidarDevice fl.Float → LidarDevice fl.Float → Type 0)
      → Lds fl
      → Outcome (Lds fl × List (Command fl.Float))
      → Type 0
  OkFramed R s (ok x) = IsFramed R s x.0
  OkFramed R s (fault why) = Unit

  module _ (R : LidarDevice fl.Float → LidarDevice fl.Float → Type 0) where
    bind-OkFramed :
        (s : Lds fl) (o : Outcome (LidarDevice fl.Float))
        (k : LidarDevice fl.Float → Outcome (Lds fl × List (Command fl.Float)))
        → ((d : LidarDevice fl.Float) → o ≡ ok d → OkFramed R s (k d))
        → OkFramed R s (o >>= k)
    bind-OkFramed s (ok d) k framed = framed d refl
    bind-OkFramed s (fault why) k framed = tt

  module _ (to_string : ℕ → Text) where
    setting_answer-OkFramed :
        (t : Setting) (status : Status) (s : Lds fl) (handle i : ℕ)
        → IsValid s
        → OkFramed SameQueue s (setting_answer to_string t status s handle i)
    unfolding setting_answer answered
    setting_answer-OkFramed t success s handle i v =
        bind-OkFramed SameQueue s (element_at s.lidars i) _ (λ d at.
          set-IsFramed SameQueue (λ e. refl) s i d (answered t d) v
            (element_at-there s.lidars i d at) refl refl)
    setting_answer-OkFramed t timeout s handle i v =
        bind-OkFramed SameQueue s (element_at s.lidars i) _
          (λ d at. same-IsFramed SameQueue (λ e. refl) s v)
    setting_answer-OkFramed t failure s handle i v = same-IsFramed SameQueue (λ e. refl) s v

    -- A callback of a setting changes no queue, at any answer.
    pub setting_callback-IsFramed :
        (t : Setting) (status : Status) (s s' : Lds fl) (handle : ℕ) (cs : List (Command fl.Float))
        → IsValid s
        → setting_callback to_string t status s handle ≡ ok (s', cs)
        → IsFramed SameQueue s s'
    unfolding setting_callback
    setting_callback-IsFramed t status s s' handle cs v run =
        subst (OkFramed SameQueue s) run
          (elim (Option-cases (get_lidar_device to_string s handle)) [
            | inl unknown ↦ rw (unknown, setting_callback) (same-IsFramed SameQueue (λ e. refl) s v)
            | inr (i, known) ↦
                rw (known, setting_callback) (setting_answer-OkFramed t status s handle i v)
          ])

    configure_device-OkFramed :
        (s : Lds fl) (i handle : ℕ)
        → IsValid s
        → OkFramed SameTurn s (configure_device to_string s i handle)
    unfolding configure_device
    configure_device-OkFramed s i handle v =
        bind-OkFramed SameTurn s (element_at s.lidars i) _ (λ d at.
          set-IsFramed SameTurn (λ e. (refl, refl)) s i d _ v (element_at-there s.lidars i d at)
            refl (refl, refl))

    add_device-OkFramed :
        (s : Lds fl) (handle : ℕ) → IsValid s → OkFramed SameTurn s (add_device to_string s handle)
    unfolding add_device
    add_device-OkFramed s handle v =
        let free = get_free_index to_string s.cache_index livox_lidar_type handle in
        let s₁ = record s { cache_index = free.1 } in
        let v₁ : IsValid s₁ = record {
          devices = v.devices;
          counted = v.counted;
          indexed =
              Cache.get_free_index-IsValid to_string s.cache_index livox_lidar_type handle
                v.indexed;
          rate = v.rate;
          ready = v.ready;
        } in
        elim (Option-cases free.0) [
          | inl full ↦
              let kept = same-IsFramed SameTurn (λ e. (refl, refl)) s₁ v₁ in
              rw (full, add_device)
                (record { valid = kept.valid; signal = refl; devices = kept.devices })
          | inr (i, found) ↦
              rw (found, add_device)
                (bind-OkFramed SameTurn s (element_at s.lidars i) _ (λ d at.
                  let there = element_at-there s.lidars i d at in
                  let e = record d { lidar_type = livox_lidar_type } in
                  let kept =
                    set-IsFramed SameTurn (λ x. (refl, refl)) s₁ i d e v₁ there refl (refl, refl) in
                  record { valid = kept.valid; signal = refl; devices = kept.devices }))
        ]

    -- `LidarInfoChangeCallback` changes no queue, and lets no lidar begin to sample.
    pub lidar_info_change_callback-IsFramed :
        (s s' : Lds fl) (handle : ℕ) (cs : List (Command fl.Float))
        → IsValid s
        → lidar_info_change_callback to_string s handle ≡ ok (s', cs)
        → IsFramed SameTurn s s'
    unfolding lidar_info_change_callback
    lidar_info_change_callback-IsFramed s s' handle cs v run =
        subst (OkFramed SameTurn s) run (elim (Option-cases (get_lidar_device to_string s handle)) [
          | inl unknown ↦ rw (unknown, lidar_info_change_callback) (add_device-OkFramed s handle v)
          | inr (i, known) ↦
              rw (known, lidar_info_change_callback) (configure_device-OkFramed s i handle v)
        ])
