-- ===== src/Config.antt =====
-- parse_cfg_file/parse_livox_lidar_cfg.cpp and parse_cfg_file.cpp of ros_ws/src/livox_ros_driver2/src.
-- The JSON library is not part of the driver: a parsed document and the questions that the code asks of
-- it are parameters here, and so is `inet_addr`. A getter that finds another type ends the program.
pub mod Tests
use drone_exploration_stack.Prelude.{
  ℕ, Bool, true, false, not, Option, none, some, List, [], ◌∷◌, length, ◌==◌, if◌then◌else◌,
  Outcome, ok, ◌>>=◌,
}
use drone_exploration_stack.Prelude.Words.{u8}
use drone_exploration_stack.Prelude.Int.{ℤ, pos, negsuc, signed, wrap_signed, pattern_of}
use drone_exploration_stack.CacheIndex.{Text}
use drone_exploration_stack.Comm.{ExtParameter, UserLivoxLidarConfig}

-- A value of the JSON library, over the type of `float`.
pub record Json (F : Type 0) : Type 1 where
  pub Value : Type 0
  -- `HasMember` and `[]`.
  pub member : Text → Value → Option Value
  -- `GetInt`, `GetFloat`, `GetString`.
  pub get_int : Value → Outcome ℤ
  pub get_float : Value → Outcome F
  pub get_string : Value → Outcome Text
  -- `IsArray` and `GetArray`; `IsObject`; `IsUint` and `GetUint`.
  pub as_array : Value → Option (List Value)
  pub is_object : Value → Bool
  pub as_uint : Value → Option ℕ
  pub float_zero : F
  -- `IpStringToNum`.
  pub ip_string_to_num : Text → ℕ

-- What opening and parsing a file gives.
pub data File (V : Type 0) : Type 0 where
  unopened malformed : File V
  parsed : V → File V

module _ {F : Type 0} (json : Json F) where
  open json use {
    Value, member, get_int, get_float, get_string, as_array, is_object, as_uint, float_zero,
    ip_string_to_num,
  }

  int_member : Text → (ℤ → ℤ) → ℤ → Value → Outcome ℤ
  int_member name convert missing value = elim (member name value) [
    | none ↦ ok missing
    | some v ↦ (get_int v >>= λ n. ok (convert n))
  ]

  float_member : Text → Value → Outcome F
  float_member name value = elim (member name value) [ none ↦ ok float_zero | some v ↦ get_float v ]

  pub parse_extrinsics : Value → Outcome (ExtParameter F)
  unfolding int_member float_member
  parse_extrinsics value = do
    roll ← float_member (b'r' ∷ b'o' ∷ b'l' ∷ b'l' ∷ []) value
    pitch ← float_member (b'p' ∷ b'i' ∷ b't' ∷ b'c' ∷ b'h' ∷ []) value
    yaw ← float_member (b'y' ∷ b'a' ∷ b'w' ∷ []) value
    x ← int_member (b'x' ∷ []) (wrap_signed 32) (pos 0) value
    y ← int_member (b'y' ∷ []) (wrap_signed 32) (pos 0) value
    z ← int_member (b'z' ∷ []) (wrap_signed 32) (pos 0) value
    ok (record { roll = roll; pitch = pitch; yaw = yaw; x = x; y = y; z = z })

  no_extrinsics : ExtParameter F
  no_extrinsics = record {
    roll = float_zero;
    pitch = float_zero;
    yaw = float_zero;
    x = pos 0;
    y = pos 0;
    z = pos 0;
  }

  extrinsic_member : Value → Outcome (ExtParameter F)
  unfolding parse_extrinsics no_extrinsics
  extrinsic_member config =
      elim (member
        (b'e' ∷ b'x' ∷ b't' ∷ b'r' ∷ b'i' ∷ b'n' ∷ b's' ∷ b'i' ∷ b'c' ∷ b'_' ∷ b'p' ∷ b'a' ∷ b'r'
          ∷ b'a' ∷ b'm' ∷ b'e' ∷ b't' ∷ b'e' ∷ b'r' ∷ [])
        config) [ none ↦ ok no_extrinsics | some value ↦ parse_extrinsics value ]

  -- The body of the loop of `ParseUserConfigs`, for an element with the member "ip". The fields that
  -- take the conversions are `int8_t`; that of `dual_emit_en` goes through `uint8_t`.
  pub parse_user_config : Value → Value → Outcome (UserLivoxLidarConfig F)
  unfolding int_member extrinsic_member
  parse_user_config config ip = do
    text ← get_string ip
    pcl_data_type ←
        int_member
          (b'p' ∷ b'c' ∷ b'l' ∷ b'_' ∷ b'd' ∷ b'a' ∷ b't' ∷ b'a' ∷ b'_' ∷ b't' ∷ b'y' ∷ b'p' ∷ b'e'
            ∷ [])
          (wrap_signed 8) (negsuc 0) config
    pattern_mode ←
        int_member
          (b'p' ∷ b'a' ∷ b't' ∷ b't' ∷ b'e' ∷ b'r' ∷ b'n' ∷ b'_' ∷ b'm' ∷ b'o' ∷ b'd' ∷ b'e' ∷ [])
          (wrap_signed 8) (negsuc 0) config
    blind_spot_set ←
        int_member
          (b'b' ∷ b'l' ∷ b'i' ∷ b'n' ∷ b'd' ∷ b'_' ∷ b's' ∷ b'p' ∷ b'o' ∷ b't' ∷ b'_' ∷ b's' ∷ b'e'
            ∷ b't' ∷ [])
          (wrap_signed 8) (negsuc 0) config
    dual_emit_en ←
        int_member
          (b'd' ∷ b'u' ∷ b'a' ∷ b'l' ∷ b'_' ∷ b'e' ∷ b'm' ∷ b'i' ∷ b't' ∷ b'_' ∷ b'e' ∷ b'n' ∷ [])
          (λ n. signed 8 (pattern_of 8 n)) (negsuc 0) config
    extrinsic_param ← extrinsic_member config
    ok (record {
      handle = ip_string_to_num text;
      pcl_data_type = pcl_data_type;
      pattern_mode = pattern_mode;
      blind_spot_set = blind_spot_set;
      dual_emit_en = dual_emit_en;
      extrinsic_param = extrinsic_param;
      set_bits = 0;
      get_bits = 0;
    })

  -- The loop of `ParseUserConfigs`: an element without "ip" is passed over.
  pub parse_user_configs : List Value → Outcome (List (UserLivoxLidarConfig F))
  unfolding parse_user_config
  parse_user_configs [] = ok []
  parse_user_configs (config ∷ configs) = elim (member (b'i' ∷ b'p' ∷ []) config) [
    | none ↦ parse_user_configs configs
    | some ip ↦ do c ← parse_user_config config ip; cs ← parse_user_configs configs; ok (c ∷ cs)
  ]

  -- `Parse`: the result, the vector given by reference, and whether the file is closed again.
  pub parse :
      File Value
      → List (UserLivoxLidarConfig F)
      → Outcome (Bool × List (UserLivoxLidarConfig F) × Bool)
  unfolding parse_user_configs
  parse unopened configs = ok (false, configs, true)
  parse malformed configs = ok (false, [], true)
  parse (parsed doc) configs =
      elim (member
        (b'l' ∷ b'i' ∷ b'd' ∷ b'a' ∷ b'r' ∷ b'_' ∷ b'c' ∷ b'o' ∷ b'n' ∷ b'f' ∷ b'i' ∷ b'g' ∷ b's'
          ∷ [])
        doc) [
          | none ↦ ok (false, [], true)
          | some value ↦ elim (as_array value) [
            | none ↦ ok (false, [], true)
            | some values ↦ do
              cs ← parse_user_configs values
              ok (not (length cs == 0), cs, length cs == 0)
          ]
        ]

  -- "lidar_type", a member that has to be an unsigned number.
  lidar_type_of : Value → Option ℕ
  lidar_type_of object =
      elim (member (b'l' ∷ b'i' ∷ b'd' ∷ b'a' ∷ b'r' ∷ b'_' ∷ b't' ∷ b'y' ∷ b'p' ∷ b'e' ∷ [])
        object) [
          | none ↦ none
          | some value ↦ elim (as_uint value) [ none ↦ none | some n ↦ some (u8 n) ]
        ]

  -- `ParseSummaryInfo`: the type of the lidars, or `none` for the result `false`.
  pub parse_summary_info : File Value → Option ℕ
  unfolding lidar_type_of
  parse_summary_info unopened = none
  parse_summary_info malformed = none
  parse_summary_info (parsed doc) =
      elim (member
        (b'l' ∷ b'i' ∷ b'd' ∷ b'a' ∷ b'r' ∷ b'_' ∷ b's' ∷ b'u' ∷ b'm' ∷ b'm' ∷ b'a' ∷ b'r' ∷ b'y'
          ∷ b'_' ∷ b'i' ∷ b'n' ∷ b'f' ∷ b'o' ∷ [])
        doc) [ none ↦ none | some object ↦ if is_object object then lidar_type_of object else none ]
