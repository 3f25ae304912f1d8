-- ===== src/Callback/Tests.antt =====
-- The answers of a lidar for which two settings are pending.
use drone_exploration_stack.Prelude.{
  ℕ, ◌≡◌, refl, some, [], ◌∷◌, get_elem?, set, ok, if◌then◌else◌, arith,
}
use drone_exploration_stack.Floats.Tests.{naturals}
use drone_exploration_stack.Comm.{sampling, config}
use drone_exploration_stack.CacheIndex.Tests.{unary, has_slot}
use drone_exploration_stack.Lds.{Lds, LidarDevice}
use drone_exploration_stack.Lds.Tests.{source, idle_device}
use drone_exploration_stack.Callback.{data_type, blind_spot}
use drone_exploration_stack.Callback.Sampling.{covers, answers, answers_lem}

-- The data type and the blind spot are pending.
abbrev waiting_device : LidarDevice ℕ
waiting_device = record idle_device {
  connect_state = config;
  livox_config = record idle_device.livox_config { set_bits = 5 };
}

abbrev waiting_source : Lds naturals
waiting_source = record source { lidars = set source.lidars 0 waiting_device }

answers_lem_example :
    (s' : Lds naturals) × (d' : LidarDevice ℕ) × (answers unary
        (blind_spot ∷ data_type ∷ [])
        waiting_source
        7
      ≡ ok s')
    × (get_elem? s'.lidars 0 ≡ some d')
    × (d'.connect_state ≡ (if covers (blind_spot ∷ data_type ∷ []) 5 then sampling else config))
answers_lem_example =
    answers_lem unary (blind_spot ∷ data_type ∷ []) waiting_source 7 0 waiting_device has_slot refl
      (omega arith) (λ e. omega (arith, e))
