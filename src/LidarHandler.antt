-- ===== src/LidarHandler.antt =====
-- `LidarPubHandler` of comm/pub_handler.h and comm/pub_handler.cpp, of ros_ws/src/livox_ros_driver2/src:
-- the points that one lidar has sent since its last frame, and the conversion of raw points.
-- Arithmetic is that of the source, `float` and `double` operation by operation.
pub mod Points
pub mod RoundTrip
pub mod Tests
use drone_exploration_stack.Prelude.{
  ℕ, zero, suc, ◌+◌, ◌*◌, ◌%◌, ◌≡◌, Bool, true, false, List, [], ◌∷◌, ◌++◌, length, ◌==◌,
  if◌then◌else◌, Outcome, ok, fault, division_by_zero, ◌>>=◌,
}
use drone_exploration_stack.Prelude.Words.{u8, u64}
use drone_exploration_stack.Prelude.Int.{ℤ, pos}
use drone_exploration_stack.Floats.{Floats}
use drone_exploration_stack.Comm.{
  PointXyzlt, RawPacket, LidarExtParameter, livox_lidar_type, cartesian_high_data,
  cartesian_low_data, spherical_data,
}
use drone_exploration_stack.Raw.{CartesianRawPoint, SpherPoint, high_point, low_point, spher_point}

-- A row of `ExtParameterDetailed`: of the rotation, with the element of the translation.
pub record Row (F : Type 0) : Type 0 where
  pub r0 : F
  pub r1 : F
  pub r2 : F
  pub trans : F

pub record ExtParameterDetailed (F : Type 0) : Type 0 where
  pub row_x : Row F
  pub row_y : Row F
  pub row_z : Row F

pub record LidarPubHandler (F : Type 0) : Type 0 where
  pub points_clouds : List (PointXyzlt F)
  pub extrinsic : ExtParameterDetailed F
  pub is_set_extrinsic_params : Bool

-- A converted point: what depends on the kind of raw point.
pub record Converted (F : Type 0) : Type 0 where
  pub x : F
  pub y : F
  pub z : F
  pub reflectivity : ℕ
  pub tag : ℕ

module _ {F : Type 0} where
  abbrev pub first_time : List (PointXyzlt F) → ℕ
  first_time [] = 0
  first_time (p ∷ ps) = p.offset_time

  unfoldable pub get_lidar_base_time : LidarPubHandler F → ℕ
  get_lidar_base_time h = first_time h.points_clouds

  -- The last element of a vector that has `p` before the others.
  abbrev pub last_point : PointXyzlt F → List (PointXyzlt F) → PointXyzlt F
  last_point p [] = p
  last_point p (q ∷ ps) = last_point q ps

  abbrev pub last_time : List (PointXyzlt F) → ℕ
  last_time [] = 0
  last_time (p ∷ ps) = (last_point p ps).offset_time

  unfoldable pub get_recent_time_stamp : LidarPubHandler F → ℕ
  get_recent_time_stamp h = last_time h.points_clouds

  pub get_lidar_point_clouds_size : LidarPubHandler F → ℕ
  get_lidar_point_clouds_size h = length h.points_clouds

  -- `swap` with a vector of the caller: what the vector then holds, and the handler.
  unfoldable pub get_lidar_point_clouds :
      List (PointXyzlt F) → LidarPubHandler F → List (PointXyzlt F) × LidarPubHandler F
  get_lidar_point_clouds points h = (h.points_clouds, record h { points_clouds = points })

module _ (fl : Floats) where
  open fl use {
    Float, Double, float_of, double_of, widen, narrow, add_f, mul_f, add_d, sub_d, mul_d, div_d,
    neg_d, sin, cos, decimal,
  }

  -- The initial value of `extrinsic_` in the header, {{1, 0, 0}, {0, 1, 1}, {0, 0, 1}} without
  -- translation.
  pub default_extrinsic : ExtParameterDetailed Float
  default_extrinsic = record {
    row_x = record { r0 = float_of (pos 1); r1 = zero_f; r2 = zero_f; trans = zero_f };
    row_y = record { r0 = zero_f; r1 = float_of (pos 1); r2 = float_of (pos 1); trans = zero_f };
    row_z = record { r0 = zero_f; r1 = zero_f; r2 = float_of (pos 1); trans = zero_f };
  }
    where
      zero_f : Float
      zero_f = float_of (pos 0)

  unfoldable pub new_handler : LidarPubHandler Float
  unfolding default_extrinsic
  new_handler = record {
    points_clouds = [];
    extrinsic = default_extrinsic;
    is_set_extrinsic_params = false;
  }

  -- The constant `PI`.
  pub pi : Double
  pi = decimal 314159265358979323846 20

  radians : Float → Double
  unfolding pi
  radians degrees = div_d (mul_d (widen degrees) pi) (decimal 1800 1)

  -- The angles count only the first time.
  unfoldable pub set_lidars_ext_param :
      LidarPubHandler Float → LidarExtParameter Float → LidarPubHandler Float
  unfolding radians
  set_lidars_ext_param h p =
      if h.is_set_extrinsic_params
      then h
      else let cos_roll = cos (radians p.param.roll) in
        let cos_pitch = cos (radians p.param.pitch) in
        let cos_yaw = cos (radians p.param.yaw) in
        let sin_roll = sin (radians p.param.roll) in
        let sin_pitch = sin (radians p.param.pitch) in
        let sin_yaw = sin (radians p.param.yaw) in
        record h {
          extrinsic = record {
            row_x = record {
              r0 = narrow (mul_d cos_pitch cos_yaw);
              r1 =
                  narrow
                    (sub_d (mul_d (mul_d sin_roll sin_pitch) cos_yaw) (mul_d cos_roll sin_yaw));
              r2 =
                  narrow
                    (add_d (mul_d (mul_d cos_roll sin_pitch) cos_yaw) (mul_d sin_roll sin_yaw));
              trans = float_of p.param.x;
            };
            row_y = record {
              r0 = narrow (mul_d cos_pitch sin_yaw);
              r1 =
                  narrow
                    (add_d (mul_d (mul_d sin_roll sin_pitch) sin_yaw) (mul_d cos_roll cos_yaw));
              r2 =
                  narrow
                    (sub_d (mul_d (mul_d cos_roll sin_pitch) sin_yaw) (mul_d sin_roll cos_yaw));
              trans = float_of p.param.y;
            };
            row_z = record {
              r0 = narrow (neg_d sin_pitch);
              r1 = narrow (mul_d sin_roll cos_pitch);
              r2 = narrow (mul_d cos_roll cos_pitch);
              trans = float_of p.param.z;
            };
          };
          is_set_extrinsic_params = true;
        }

  -- `(x * r0 + y * r1 + z * r2 + trans) / unit` of a Cartesian point.
  turn_cartesian : Row Float → CartesianRawPoint → Double → Float
  turn_cartesian r p unit = narrow (
      div_d
        (widen (
          add_f
            (add_f (add_f (mul_f (float_of p.x) r.r0) (mul_f (float_of p.y) r.r1))
              (mul_f (float_of p.z) r.r2))
            r.trans))
        unit)

  -- A Cartesian point in metres; `unit` is 1000.0 or 100.0.
  pub cartesian : LidarPubHandler Float → RawPacket → Double → CartesianRawPoint → Converted Float
  unfolding turn_cartesian
  cartesian h pkt unit p =
      if pkt.extrinsic_enable
      then record {
        x = narrow (div_d (double_of p.x) unit);
        y = narrow (div_d (double_of p.y) unit);
        z = narrow (div_d (double_of p.z) unit);
        reflectivity = p.reflectivity;
        tag = p.tag;
      }
      else record {
        x = turn_cartesian h.extrinsic.row_x p unit;
        y = turn_cartesian h.extrinsic.row_y p unit;
        z = turn_cartesian h.extrinsic.row_z p unit;
        reflectivity = p.reflectivity;
        tag = p.tag;
      }

  turn_spherical : Row Float → Double → Double → Double → Float
  turn_spherical r x y z = narrow (
      add_d (add_d (add_d (mul_d x (widen r.r0)) (mul_d y (widen r.r1))) (mul_d z (widen r.r2)))
        (div_d (widen r.trans) (decimal 10000 1)))

  hundredths : ℕ → Double
  unfolding pi
  hundredths a = mul_d (div_d (div_d (double_of (pos a)) (decimal 1000 1)) (double_of (pos 180))) pi

  pub spherical : LidarPubHandler Float → RawPacket → SpherPoint → Converted Float
  unfolding turn_spherical hundredths
  spherical h pkt p =
      let radius = div_d (double_of (pos p.depth)) (decimal 10000 1) in
      let theta = hundredths p.theta in
      let phi = hundredths p.phi in
      let src_x = mul_d (mul_d radius (sin theta)) (cos phi) in
      let src_y = mul_d (mul_d radius (sin theta)) (sin phi) in
      let src_z = mul_d radius (cos theta) in
      if pkt.extrinsic_enable
      then record {
        x = narrow src_x;
        y = narrow src_y;
        z = narrow src_z;
        reflectivity = p.reflectivity;
        tag = p.tag;
      }
      else record {
        x = turn_spherical h.extrinsic.row_x src_x src_y src_z;
        y = turn_spherical h.extrinsic.row_y src_x src_y src_z;
        z = turn_spherical h.extrinsic.row_z src_x src_y src_z;
        reflectivity = p.reflectivity;
        tag = p.tag;
      }

  -- The fields that are set alike for every kind of point, in round `i`.
  pub stamped : RawPacket → ℕ → Converted Float → PointXyzlt Float
  stamped pkt i c = record {
    x = c.x;
    y = c.y;
    z = c.z;
    intensity = float_of (pos c.reflectivity);
    tag = c.tag;
    line = u8 (i % pkt.line_num);
    offset_time = u64 (pkt.time_stamp + i * pkt.point_interval);
  }

  -- The loops of the three functions below, from round `i` on, over `raw[i]` as converted.
  pub convert_points :
      (ℕ → Outcome (Converted Float))
      → RawPacket
      → ℕ
      → ℕ
      → List (PointXyzlt Float)
      → Outcome (List (PointXyzlt Float))
  unfolding stamped
  convert_points convert pkt zero i cloud = ok cloud
  convert_points convert pkt (suc rounds) i cloud = do
    c ← convert i
    if pkt.line_num == 0
        then fault division_by_zero
        else convert_points convert pkt rounds (i + 1) (cloud ++ stamped pkt i c ∷ [])

  pub process_with :
      (ℕ → Outcome (Converted Float))
      → LidarPubHandler Float
      → RawPacket
      → Outcome (LidarPubHandler Float)
  unfolding convert_points
  process_with convert h pkt = do
    cloud ← convert_points convert pkt pkt.point_num 0 h.points_clouds
    ok (record h { points_clouds = cloud })

  pub process_cartesian_high_point :
      LidarPubHandler Float → RawPacket → Outcome (LidarPubHandler Float)
  unfolding process_with cartesian high_point
  process_cartesian_high_point h pkt =
      process_with
        (λ i. high_point pkt.raw_data i >>= λ p. ok (cartesian h pkt (decimal 10000 1) p)) h pkt

  pub process_cartesian_low_point :
      LidarPubHandler Float → RawPacket → Outcome (LidarPubHandler Float)
  unfolding process_with cartesian low_point
  process_cartesian_low_point h pkt =
      process_with (λ i. low_point pkt.raw_data i >>= λ p. ok (cartesian h pkt (decimal 1000 1) p))
        h pkt

  pub process_spherical_point : LidarPubHandler Float → RawPacket → Outcome (LidarPubHandler Float)
  unfolding process_with spherical spher_point
  process_spherical_point h pkt =
      process_with (λ i. spher_point pkt.raw_data i >>= λ p. ok (spherical h pkt p)) h pkt

  -- An unknown data type is reported and skipped.
  pub livox_lidar_point_cloud_process :
      LidarPubHandler Float → RawPacket → Outcome (LidarPubHandler Float)
  unfolding process_cartesian_high_point process_cartesian_low_point process_spherical_point
  livox_lidar_point_cloud_process h pkt =
      if pkt.data_type == cartesian_high_data
      then process_cartesian_high_point h pkt
      else if pkt.data_type == cartesian_low_data
      then process_cartesian_low_point h pkt
      else if pkt.data_type == spherical_data
      then process_spherical_point h pkt
      else ok h

  unfoldable pub point_cloud_process :
      LidarPubHandler Float → RawPacket → Outcome (LidarPubHandler Float)
  unfolding livox_lidar_point_cloud_process
  point_cloud_process h pkt =
      if pkt.lidar_type == livox_lidar_type then livox_lidar_point_cloud_process h pkt else ok h
