-- ===== src/Node/Start.antt =====
-- What `main` of livox_ros_driver2.cpp has set up when the threads start.
mod Tests
use drone_exploration_stack.Prelude.{
  ℕ, zero, suc, ◌≤◌, ◌<◌, ◌≡◌, ◌≢◌, refl, sym, ap, ◌∙◌, inl, inr, arith, Bool, true, false, Option,
  none, some, List, [], length, get_elem?, replicate, All, ◌==◌, if◌then◌else◌, Outcome, ok,
  if_true, if_false, Bool-cases, ◌>>=◌, length-replicate,
}
use drone_exploration_stack.Prelude.Int.{pos, pattern_of}
use drone_exploration_stack.Prelude.Words.{sub32}
use drone_exploration_stack.Floats.{Floats}
use drone_exploration_stack.Comm.{UserLivoxLidarConfig, livox_lidar_type}
use drone_exploration_stack.CacheIndex.{Text, init, get_index}
use drone_exploration_stack.CacheIndex.Invariant.{init-IsValid}
use drone_exploration_stack.Config.{Json, File, parse}
use drone_exploration_stack.Ldq.{null}
use drone_exploration_stack.Ldq.Invariant.{contents, contents_of}
use drone_exploration_stack.CacheIndex.Failure.{get_index-init}
use drone_exploration_stack.PubHandler.{PubHandler}
use drone_exploration_stack.Lds.{Lds, LidarDevice, reset_lds}
use drone_exploration_stack.Lds.Invariant.{IsValid}
use drone_exploration_stack.Lds.Reset.{AllUnused, Reset, reset_lds-Reset, get_elem?-All}
use drone_exploration_stack.LdsLidar.{LdsLidar, init_lds_lidar}
use drone_exploration_stack.LdsLidar.Slots.{HandlesAgree, Filled}
use drone_exploration_stack.LdsLidar.SetUp.{init_lds_lidar-Filled}
use drone_exploration_stack.Lddc.{Lddc, livox_custom_msg, register_lds}
use drone_exploration_stack.Lddc.Publishers.{no_publishers}
use drone_exploration_stack.Lddc.Polling.Sound.{IsSound, IsAwake}
use drone_exploration_stack.Node.{
  Params, Node, livox_frame, get_param, is_raw_lidar, new_lddc, static_lds, limit_freq,
  blank_device, new_lds, get_instance, start_node,
}

-- What the code relies on of IEEE comparisons and conversions: 100.0 and 0.5 are not above 100.0, and
-- a number that is not above 100.0 has 100 or less as its integral part.
pub record ComparesRates (fl : Floats) : Type 0 where
  pub limit : fl.greater (fl.decimal 1000 1) (fl.decimal 1000 1) ≡ false
  pub least : fl.greater (fl.decimal 5 1) (fl.decimal 1000 1) ≡ false
  pub whole : (f : fl.Double) → fl.greater f (fl.decimal 1000 1) ≡ false → fl.truncate f ≤ 100

copies-All : {A : Type 0} (P : A → Type 0) (n : ℕ) (a : A) → P a → All P (replicate n a)
copies-All P zero a p = tt
copies-All P (suc n) a p = (p, copies-All P n a p)

module _ (fl : Floats) (rates : ComparesRates fl) where
  limit_freq_le : (f : fl.Double) → fl.truncate (limit_freq fl f) ≤ 100
  unfolding limit_freq
  limit_freq_le f = elim (Bool-cases (fl.greater f (fl.decimal 1000 1))) [
    | inl above ↦ rw above (rates.whole (fl.decimal 1000 1) rates.limit)
    | inr within ↦ elim (Bool-cases (fl.greater (fl.decimal 5 1) f)) [
      | inl below ↦ rw (within, below) (rates.whole (fl.decimal 5 1) rates.least)
      | inr inside ↦ rw (within, inside) (rates.whole f within)
    ]
  ]

  -- The instance of the source: valid, with no queue made and no lidar in the table.
  record IsNew (s : Lds fl) : Type 0 where
    valid : IsValid s
    unused : AllUnused s.lidars
    empty : s.cache_index ≡ init

  get_instance-IsNew :
      (f : fl.Double) (handler : PubHandler fl)
      → fl.truncate f ≤ 100
      → (l : LdsLidar fl) × (get_instance fl f handler ≡ ok l) × IsNew l.lds
  unfolding get_instance new_lds static_lds blank_device
  get_instance-IsNew f handler small =
      let (s₁, done₁, r₁) =
        reset_lds-Reset (static_lds fl f 0) 0 refl init-IsValid small
          (copies-All (λ d. d.queue.storage_packet ≡ null) 32 (blank_device fl) refl) in
      let (s₂, done₂, r₂) =
        reset_lds-Reset s₁ 0 r₁.valid.devices r₁.valid.indexed r₁.valid.rate r₁.unused in
      (
        record { lds = s₂; pub_handler = handler; lidar_type = 0; is_initialized = false },
        rw done₁ (rw done₂ refl),
        record { valid = r₂.valid; unused = r₂.unused; empty = r₂.unchanged.0 ∙ r₁.unchanged.0 },
      )

  module _ (to_string : ℕ → Text)
      (to_string_injective : (a b : ℕ) → to_string a ≡ to_string b → a ≡ b) where
    IsNew-HandlesAgree : (s : Lds fl) → IsNew s → HandlesAgree to_string to_string_injective s
    IsNew-HandlesAgree s new h i d found there =
        let none_found : get_index to_string s.cache_index livox_lidar_type h ≡ none =
          ap (λ c. get_index to_string c livox_lidar_type h) new.empty
          ∙ get_index-init to_string livox_lidar_type h in
        cc

    -- Nothing waits after the set-up.
    Filled-IsAwake :
        (s s' : Lds fl)
        → AllUnused s.lidars
        → Filled to_string to_string_injective s s'
        → IsAwake s'
    Filled-IsAwake s s' unused filled i d there is waits =
        let (d₀, before, queue, state) = filled.queues i d there in
        let no_array =
          get_elem?-All (λ x. x.queue.storage_packet ≡ null) s.lidars i d₀ unused before in
        absurd (
          waits (
            ap contents queue
            ∙ ap
                (λ t.
                  contents_of t d₀.queue.size d₀.queue.rd_idx
                    (sub32 d₀.queue.wr_idx d₀.queue.rd_idx))
                no_array))

    -- With the raw lidars as its source, the driver's own message format and a configuration that can
    -- be read, the node starts, whether the set-up of the lidars succeeds or not: the distributor has
    -- a valid source where no packet waits for a sampling device without a signal, from which any calls
    -- may follow, and each slot that the table gives a lidar has the handle of that lidar.
    pub start_node-IsSound :
        (json : Json fl.Float) (params : Params fl) (handler : PubHandler fl)
        (file : File json.Value) (sdk_init : Bool) (listen_id : ℕ)
        (r : Bool × List (UserLivoxLidarConfig fl.Float) × Bool)
        → get_param params.data_src (pos 0) ≡ pos 0
        → get_param params.xfer_format (pos 0) ≡ pos 1
        → parse json file [] ≡ ok r
        → (node : Node fl) × (start_node fl to_string json params handler file sdk_init listen_id
            ≡ ok node)
          × (sound : IsSound node.lddc) × HandlesAgree to_string to_string_injective sound.source
    unfolding start_node new_lddc register_lds is_raw_lidar
    start_node-IsSound json params handler file sdk_init listen_id r raw custom_format reads =
        let f = limit_freq fl (get_param params.publish_freq (fl.decimal 100 1)) in
        let (l, made, new) = get_instance-IsNew f handler (limit_freq_le _) in
        let (ready, filled_l, done, filled) =
          init_lds_lidar-Filled to_string to_string_injective json l file sdk_init listen_id r
            new.valid (IsNew-HandlesAgree l.lds new) reads in
        let multi =
          if pattern_of 8 (get_param params.multi_topic (pos 0)) == 0 then false else true in
        let made_l =
          new_lddc fl (get_param params.xfer_format (pos 0))
            (get_param params.output_data_type (pos 0)) (get_param params.frame_id livox_frame)
            (get_param params.enable_lidar_bag true) (get_param params.enable_imu_bag false) in
        let node : Node fl = record {
          lddc = record made_l { lds = some filled_l.lds };
          publishers = no_publishers multi;
          lidars = some filled_l;
        } in
        (
          node,
          if_true (is_raw_lidar (get_param params.data_src (pos 0))) _ _ (ap is_raw_lidar raw)
              ∙ rw made (rw done refl),
          record {
            source = filled_l.lds;
            has = refl;
            valid = filled.valid;
            awake = Filled-IsAwake l.lds filled_l.lds new.unused filled;
            format = ap (pattern_of 8) custom_format;
          },
          filled.agree,
        )
