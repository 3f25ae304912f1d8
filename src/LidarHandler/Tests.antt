-- ===== src/LidarHandler/Tests.antt =====
-- The conversion of comm/pub_handler.cpp at a packet with two points of the low-resolution kind.
use drone_exploration_stack.Prelude.{
  ℕ, ◌≡◌, refl, inl, inr, false, List, [], ◌∷◌, ◌++◌, replicate, ok, fault, out_of_bounds, arith,
}
use drone_exploration_stack.Floats.Tests.{naturals}
use drone_exploration_stack.Comm.{PointXyzlt, RawPacket, livox_lidar_type, cartesian_low_data}
use drone_exploration_stack.LidarHandler.{new_handler, point_cloud_process}
use drone_exploration_stack.LidarHandler.RoundTrip.{
  RawPoints, low_points, raw_bytes, FitsAll, converted_all, point_cloud_process-encoded,
}
use drone_exploration_stack.Prelude.Int.{pos, negsuc}
use drone_exploration_stack.LidarHandler.Points.{
  IsBatch, point_cloud_process-IsBatch, point_cloud_process_short,
}

-- A packet that says that it holds `n` points, with the bytes of two.
abbrev pub packet_of_two : ℕ → RawPacket
packet_of_two n = record {
  lidar_type = livox_lidar_type;
  handle = 7;
  extrinsic_enable = false;
  point_num = n;
  data_type = cartesian_low_data;
  line_num = 4;
  time_stamp = 600;
  point_interval = 10;
  raw_data = replicate 16 1;
}

point_cloud_process-IsBatch_example :
    (new : List (PointXyzlt ℕ)) × (point_cloud_process naturals
        (new_handler naturals)
        (packet_of_two 2)
      ≡ ok (record (new_handler naturals) {
        points_clouds = (new_handler naturals).points_clouds ++ new;
      }))
    × IsBatch naturals (packet_of_two 2) 2 0 new
point_cloud_process-IsBatch_example =
    point_cloud_process-IsBatch naturals (new_handler naturals) (packet_of_two 2) refl
      (inr (inl refl)) (λ e. omega (arith, e)) (omega arith)

point_cloud_process_short_example :
    point_cloud_process naturals (new_handler naturals) (packet_of_two 3) ≡ fault out_of_bounds
point_cloud_process_short_example =
    point_cloud_process_short naturals (new_handler naturals) (packet_of_two 3) refl
      (inr (inl refl)) (λ e. omega (arith, e)) (omega arith)

-- A point below the origin, and one above it.
abbrev pub two_points : RawPoints
two_points = low_points (
    record { x = negsuc 299; y = pos 20000; z = pos 0; reflectivity = 255; tag = 16 }
    ∷ record { x = pos 1; y = negsuc 0; z = negsuc 32767; reflectivity = 0; tag = 0 }
    ∷ [])

abbrev packet_of_points : RawPacket
packet_of_points = record (packet_of_two 2) { raw_data = raw_bytes two_points }

pub two_points_fit : FitsAll two_points
two_points_fit = (
  record {
    x = omega arith;
    y = omega arith;
    z = omega arith;
    reflectivity = omega arith;
    tag = omega arith;
  },
  (
    record {
      x = omega arith;
      y = omega arith;
      z = omega arith;
      reflectivity = omega arith;
      tag = omega arith;
    },
    tt,
  ),
)

point_cloud_process-encoded_example :
    point_cloud_process naturals (new_handler naturals) packet_of_points
    ≡ ok (record (new_handler naturals) {
      points_clouds =
          (new_handler naturals).points_clouds
          ++ converted_all naturals (new_handler naturals) packet_of_points two_points;
    })
point_cloud_process-encoded_example =
    point_cloud_process-encoded naturals (new_handler naturals) packet_of_points two_points refl
      refl refl refl (λ e. omega (arith, e)) two_points_fit
