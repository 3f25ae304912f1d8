-- ===== src/LdsLidar/SetUp.antt =====
-- The set-up of lds_lidar.cpp as a whole, for a configuration that can be read.
use drone_exploration_stack.Prelude.{
  ℕ, ◌≡◌, refl, ◌∙◌, inl, inr, Bool, true, false, List, [], ◌==◌, bit_and, if◌then◌else◌, ok,
  if_true, if_false, Bool-cases, Option-cases,
}
use drone_exploration_stack.Floats.{Floats}
use drone_exploration_stack.Comm.{UserLivoxLidarConfig, livox_lidar_type}
use drone_exploration_stack.CacheIndex.{Text}
use drone_exploration_stack.Config.{Json, File, parse, parse_summary_info}
use drone_exploration_stack.Lds.{Lds}
use drone_exploration_stack.Lds.Invariant.{IsValid}
use drone_exploration_stack.PubHandler.{PubHandler}
use drone_exploration_stack.LdsLidar.{
  LdsLidar, init_livox_lidar, init_lidars, init_lds_lidar, set_lidar_pub_handle,
}
use drone_exploration_stack.LdsLidar.Slots.{HandlesAgree, Filled, Filled-refl, fill_devices-Filled}

module _ {fl : Floats} (to_string : ℕ → Text)
    (to_string_injective : (a b : ℕ) → to_string a ≡ to_string b → a ≡ b) where
  -- `InitLivoxLidar` for a configuration that can be read.
  init_livox_lidar-Filled :
      (json : Json fl.Float) (l : LdsLidar fl) (file : File json.Value) (sdk_init : Bool)
      (r : Bool × List (UserLivoxLidarConfig fl.Float) × Bool)
      → IsValid l.lds
      → HandlesAgree to_string to_string_injective l.lds
      → parse json file [] ≡ ok r
      → (ready : Bool) × (l' : LdsLidar fl) × (init_livox_lidar to_string json l file sdk_init
          ≡ ok (ready, l'))
        × Filled to_string to_string_injective l.lds l'.lds
  unfolding init_livox_lidar
  init_livox_lidar-Filled json l file true r v agree reads =
      let (l', done, filled) = fill_devices-Filled to_string to_string_injective l r.1 v agree in
      (true, l', rw reads (rw done refl), filled)
  init_livox_lidar-Filled json l file false r v agree reads =
      (false, l, rw reads refl, Filled-refl to_string to_string_injective l.lds v agree)

  init_lidars-Filled :
      (json : Json fl.Float) (l : LdsLidar fl) (file : File json.Value) (sdk_init : Bool)
      (r : Bool × List (UserLivoxLidarConfig fl.Float) × Bool)
      → IsValid l.lds
      → HandlesAgree to_string to_string_injective l.lds
      → parse json file [] ≡ ok r
      → (ready : Bool) × (l' : LdsLidar fl) × (init_lidars to_string json l file sdk_init
          ≡ ok (ready, l'))
        × Filled to_string to_string_injective l.lds l'.lds
  unfolding init_lidars
  init_lidars-Filled json l file sdk_init r v agree reads =
      elim (Option-cases (parse_summary_info json file)) [
        | inl unread ↦ (
          false,
          l,
          rw (unread, init_lidars) refl,
          Filled-refl to_string to_string_injective l.lds v agree,
        )
        | inr (type, read) ↦ elim (Bool-cases (bit_and type livox_lidar_type == 0)) [
          | inl other ↦ (
            true,
            record l { lidar_type = type },
            rw (read, init_lidars) (if_true _ _ _ other),
            Filled-refl to_string to_string_injective l.lds v agree,
          )
          | inr livox ↦
              let (ready, l', done, filled) =
                init_livox_lidar-Filled json (record l { lidar_type = type }) file sdk_init r v
                  agree reads in
              (ready, l', rw (read, init_lidars) (if_false _ _ _ livox ∙ done), filled)
        ]
      ]

  -- The handler and the flag are no part of the source.
  ready-Filled :
      (ready : Bool) (s : Lds fl) (l' : LdsLidar fl) (called : PubHandler fl)
      → Filled to_string to_string_injective s l'.lds
      → Filled to_string to_string_injective s
          (if ready then record l' { pub_handler = called; is_initialized = true } else l').lds
  ready-Filled true s l' called filled = filled
  ready-Filled false s l' called filled = filled

  -- `InitLdsLidar` for a configuration that can be read: the source is as the loop leaves it.
  pub init_lds_lidar-Filled :
      (json : Json fl.Float) (l : LdsLidar fl) (file : File json.Value) (sdk_init : Bool)
      (listen_id : ℕ) (r : Bool × List (UserLivoxLidarConfig fl.Float) × Bool)
      → IsValid l.lds
      → HandlesAgree to_string to_string_injective l.lds
      → parse json file [] ≡ ok r
      → (ready : Bool) × (l' : LdsLidar fl) × (init_lds_lidar to_string json l file sdk_init
            listen_id
          ≡ ok (ready, l'))
        × Filled to_string to_string_injective l.lds l'.lds
  unfolding init_lds_lidar
  init_lds_lidar-Filled json l file sdk_init listen_id r v agree reads =
      elim (Bool-cases l.is_initialized) [
        | inl before ↦ (
          false,
          l,
          if_true l.is_initialized _ _ before,
          Filled-refl to_string to_string_injective l.lds v agree,
        )
        | inr first ↦
            let (ready, l', done, filled) =
              init_lidars-Filled json l file sdk_init r v agree reads in
            let called = set_lidar_pub_handle l' listen_id in
            (
              ready,
              (if ready then record l' { pub_handler = called; is_initialized = true } else l'),
              if_false l.is_initialized _ _ first ∙ rw done refl,
              ready-Filled ready l.lds l' called filled,
            )
      ]
