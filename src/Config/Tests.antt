-- ===== src/Config/Tests.antt =====
-- A configuration file with one lidar, for a JSON library whose values are numbered.
use drone_exploration_stack.Prelude.{
  ℕ, ◌≡◌, refl, true, false, Option, none, some, [], ◌∷◌, length, ◌==◌, if◌then◌else◌, ok,
}
use drone_exploration_stack.Prelude.Int.{pos, negsuc}
use drone_exploration_stack.CacheIndex.{Text}
use drone_exploration_stack.Comm.{UserLivoxLidarConfig}
use drone_exploration_stack.Config.{Json, File, parsed, parse}

-- The document is 0: its member "lidar_summary_info" is 1, with 3 for "lidar_type", and its member
-- "lidar_configs" is the array 2 of the object 4, whose member "ip" is the text 5.
abbrev member_of : Text → ℕ → Option ℕ
member_of name v =
    if v == 0
    then (if length name == 18 then some 1 else some 2)
    else if v == 1
    then some 3
    else if v == 4
    then (if length name == 2 then some 5 else none)
    else none

abbrev pub numbered : Json ℕ
numbered = record {
  Value = ℕ;
  member = member_of;
  get_int = λ v. ok (pos v);
  get_float = λ v. ok v;
  get_string = λ v. ok (b'1' ∷ b'.' ∷ b'2' ∷ []);
  as_array = λ v. if v == 2 then some (4 ∷ []) else none;
  is_object = λ v. v == 1;
  as_uint = λ v. if v == 3 then some 8 else none;
  float_zero = 0;
  ip_string_to_num = λ text. length text;
}

abbrev pub the_file : File ℕ
the_file = parsed 0

-- What is not given is -1, or 0 for the position.
abbrev pub the_config : UserLivoxLidarConfig ℕ
the_config = record {
  handle = 3;
  pcl_data_type = negsuc 0;
  pattern_mode = negsuc 0;
  blind_spot_set = negsuc 0;
  dual_emit_en = negsuc 0;
  extrinsic_param = record { roll = 0; pitch = 0; yaw = 0; x = pos 0; y = pos 0; z = pos 0 };
  set_bits = 0;
  get_bits = 0;
}

pub reads_the_file : parse numbered the_file [] ≡ ok (true, the_config ∷ [], false)
unfolding parse
reads_the_file = refl
