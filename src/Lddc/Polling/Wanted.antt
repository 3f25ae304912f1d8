-- ===== src/Lddc/Polling/Wanted.antt =====
-- What is to become of the points, samples and messages of lddc.cpp, said apart from the code.
use drone_exploration_stack.Prelude.{
  ℕ, ◌+◌, ◌-◌, ◌^◌, ◌%◌, ◌≡◌, refl, ap, ◌∙◌, Bool, true, false, ◌&&◌, List, [], ◌∷◌, map, ◌==◌,
  if◌then◌else◌, arith,
}
use drone_exploration_stack.Floats.{Floats}
use drone_exploration_stack.Comm.{PointXyzlt, ImuData}
use drone_exploration_stack.Lddc.{
  Lddc, Message, Delivery, published, recorded, unsent, CustomPoint, ImuMsg, deliver,
}
use drone_exploration_stack.Lddc.Messages.{seconds, custom_point, init_imu_msg}

module _ {fl : Floats} where
  -- A message of slot `index` is published, or else written to the bag file if there is one that this
  -- kind of message goes to.
  abbrev pub destination : Bool → Bool → Bool → ℕ → fl.Double → Message fl → Delivery fl
  destination true has_bag enabled index time m = published index m
  destination false true true index time m = recorded index time m
  destination false true false index time m = unsent index m
  destination false false enabled index time m = unsent index m

  abbrev pub wanted_delivery : Lddc fl → Bool → ℕ → fl.Double → Message fl → Delivery fl
  wanted_delivery l enabled index time m =
      destination (l.output_type == 0) l.has_bag enabled index time m

  destination_cases :
      (ros has_bag enabled : Bool) (index : ℕ) (time : fl.Double) (m : Message fl)
      → (if ros
          then published index m ∷ []
          else if has_bag && enabled
          then recorded index time m ∷ []
          else unsent index m ∷ [])
        ≡ destination ros has_bag enabled index time m ∷ []
  destination_cases true has_bag enabled index time m = refl
  destination_cases false true true index time m = refl
  destination_cases false true false index time m = refl
  destination_cases false false enabled index time m = refl

  pub deliver-wanted :
      (l : Lddc fl) (enabled : Bool) (index : ℕ) (time : fl.Double) (m : Message fl)
      → deliver l enabled index time m ≡ wanted_delivery l enabled index time m ∷ []
  unfolding deliver
  deliver-wanted l enabled index time m =
      destination_cases (l.output_type == 0) l.has_bag enabled index time m

module _ (fl : Floats) where
  -- A point of a message, with its time since the packet's, modulo 2 ^ 32.
  abbrev pub wanted_point : ℕ → PointXyzlt fl.Float → CustomPoint fl.Float
  wanted_point base_time p = record {
    x = p.x;
    y = p.y;
    z = p.z;
    reflectivity = fl.truncate_f p.intensity;
    tag = p.tag;
    line = p.line;
    offset_time = (p.offset_time + 2 ^ 64 - base_time) % 2 ^ 32;
  }

  time-wanted : (t b : ℕ) → (t + 2 ^ 64 - b) % 2 ^ 64 % 2 ^ 32 ≡ (t + 2 ^ 64 - b) % 2 ^ 32
  time-wanted t b = omega arith

  pub custom_points-wanted :
      (t : ℕ) (ps : List (PointXyzlt fl.Float))
      → map (custom_point fl t) ps ≡ map (wanted_point t) ps
  unfolding custom_point
  custom_points-wanted t [] = refl
  custom_points-wanted t (p ∷ ps) =
      ap (λ time. record (wanted_point t p) { offset_time = time } ∷ map (custom_point fl t) ps)
        (time-wanted p.offset_time t)
      ∙ ap (λ qs. wanted_point t p ∷ qs) (custom_points-wanted t ps)

  -- A sample's message, with its time in seconds.
  abbrev pub wanted_imu_msg : ImuData fl.Float → ImuMsg fl
  wanted_imu_msg d = record {
    stamp = seconds fl d.time_stamp;
    angular_x = d.gyro_x;
    angular_y = d.gyro_y;
    angular_z = d.gyro_z;
    linear_x = d.acc_x;
    linear_y = d.acc_y;
    linear_z = d.acc_z;
  }

  pub init_imu_msg-wanted : (d : ImuData fl.Float) → init_imu_msg fl d ≡ wanted_imu_msg d
  unfolding init_imu_msg
  init_imu_msg-wanted d = refl
