-- ===== src/LidarHandler/RoundTrip.antt =====
-- From the wire to the converted points: what comm/pub_handler.cpp makes of a packet whose bytes a
-- lidar has written from a list of points.
use mathlib.Core.List.{append_assoc, append-nil}
use drone_exploration_stack.Prelude.{
  ℕ, ◌+◌, ◌*◌, ◌^◌, ◌≡◌, ◌≢◌, refl, sym, ap, ◌∙◌, true, List, [], ◌∷◌, ◌++◌, length, length-append,
  All, ◌==◌, Outcome, ok, ◌>>=◌, arith, ne→==_false,
}
use drone_exploration_stack.Floats.{Floats}
use drone_exploration_stack.Comm.{
  PointXyzlt, RawPacket, livox_lidar_type, cartesian_high_data, cartesian_low_data, spherical_data,
}
use drone_exploration_stack.Raw.{CartesianRawPoint, SpherPoint, high_point, low_point, spher_point}
use drone_exploration_stack.Raw.Encode.{
  high_bytes, low_bytes, spher_bytes, FitsCartesian, FitsSpher, high_point-bytes, low_point-bytes,
  spher_point-bytes,
}
use drone_exploration_stack.LidarHandler.{
  LidarPubHandler, Converted, stamped, convert_points, process_with, point_cloud_process, cartesian,
  spherical,
}
use drone_exploration_stack.LidarHandler.Points.{dispatch_high, dispatch_low, dispatch_spher}

-- The points that a packet holds, of one of the three kinds.
pub data RawPoints : Type 0 where
  high_points : List CartesianRawPoint → RawPoints
  low_points : List CartesianRawPoint → RawPoints
  spher_points : List SpherPoint → RawPoints

abbrev pub all_bytes : {P : Type 0} → (P → List ℕ) → List P → List ℕ
all_bytes bytes [] = []
all_bytes bytes (p ∷ ps) = bytes p ++ all_bytes bytes ps

abbrev pub raw_bytes : RawPoints → List ℕ
raw_bytes (high_points ps) = all_bytes high_bytes ps
raw_bytes (low_points ps) = all_bytes low_bytes ps
raw_bytes (spher_points ps) = all_bytes spher_bytes ps

abbrev pub raw_count : RawPoints → ℕ
raw_count (high_points ps) = length ps
raw_count (low_points ps) = length ps
raw_count (spher_points ps) = length ps

abbrev pub raw_type : RawPoints → ℕ
raw_type (high_points ps) = cartesian_high_data
raw_type (low_points ps) = cartesian_low_data
raw_type (spher_points ps) = spherical_data

abbrev pub FitsAll : RawPoints → Type 0
FitsAll (high_points ps) = All (FitsCartesian (2 ^ 31)) ps
FitsAll (low_points ps) = All (FitsCartesian (2 ^ 15)) ps
FitsAll (spher_points ps) = All FitsSpher ps

module _ (fl : Floats) where
  open fl use {Float}

  module _ {P : Type 0} (g : P → Converted Float) where
    -- The converted points from the `i`-th on.
    abbrev pub stamped_all : RawPacket → ℕ → List P → List (PointXyzlt Float)
    stamped_all pkt i [] = []
    stamped_all pkt i (p ∷ ps) = stamped fl pkt i (g p) ∷ stamped_all pkt (i + 1) ps

    module _ (decode : List ℕ → ℕ → Outcome P) (bytes : P → List ℕ) (size : ℕ) (Fits : P → Type 0)
        (reads : (front back : List ℕ) (i : ℕ) (p : P)
          → length front ≡ i * size
          → Fits p
          → decode (front ++ (bytes p ++ back)) i ≡ ok p)
        (sized : (p : P) → length (bytes p) ≡ size) (pkt : RawPacket)
        (lines : pkt.line_num ≢ 0) where
      -- The loop over points whose bytes stand behind those of earlier ones.
      convert_points-from :
          (front : List ℕ) (ps : List P) (i : ℕ) (cloud : List (PointXyzlt Float))
          → pkt.raw_data ≡ front ++ all_bytes bytes ps
          → length front ≡ i * size
          → All Fits ps
          → convert_points fl (λ j. decode pkt.raw_data j >>= λ p. ok (g p)) pkt (length ps) i cloud
            ≡ ok (cloud ++ stamped_all pkt i ps)
      unfolding convert_points
      convert_points-from front [] i cloud raw place fits = ap ok (sym (append-nil cloud))
      convert_points-from front (p ∷ ps) i cloud raw place fits =
          let read : decode pkt.raw_data i ≡ ok p =
            ap (λ r. decode r i) raw ∙ reads front (all_bytes bytes ps) i p place fits.0 in
          rw read (
            rw (ne→==_false pkt.line_num 0 lines) (
              convert_points-from (front ++ bytes p) ps (i + 1)
                (cloud ++ stamped fl pkt i (g p) ∷ [])
                (raw ∙ sym (append_assoc front (bytes p) (all_bytes bytes ps)))
                (grind (arith, length-append front (bytes p), sized p)) fits.1
              ∙ ap ok
                  (append_assoc cloud (stamped fl pkt i (g p) ∷ []) (stamped_all pkt (i + 1) ps))))

      process-encoded :
          (h : LidarPubHandler Float) (ps : List P)
          → pkt.raw_data ≡ all_bytes bytes ps
          → pkt.point_num ≡ length ps
          → All Fits ps
          → process_with fl (λ j. decode pkt.raw_data j >>= λ p. ok (g p)) h pkt
            ≡ ok (record h { points_clouds = h.points_clouds ++ stamped_all pkt 0 ps })
      unfolding process_with
      process-encoded h ps raw count fits =
          ap
            (λ n.
              convert_points fl (λ j. decode pkt.raw_data j >>= λ p. ok (g p)) pkt n 0
                h.points_clouds
              >>= λ cloud. ok (record h { points_clouds = cloud }))
            count
          ∙ rw (convert_points-from [] ps 0 h.points_clouds raw (omega arith) fits) refl

  -- What the points of a packet become.
  abbrev pub converted_all : LidarPubHandler Float → RawPacket → RawPoints → List (PointXyzlt Float)
  converted_all h pkt (high_points ps) =
      stamped_all (cartesian fl h pkt (fl.decimal 10000 1)) pkt 0 ps
  converted_all h pkt (low_points ps) =
      stamped_all (cartesian fl h pkt (fl.decimal 1000 1)) pkt 0 ps
  converted_all h pkt (spher_points ps) = stamped_all (spherical fl h pkt) pkt 0 ps

  -- Of a packet whose bytes are those of a list of points, written as packed little-endian structures
  -- of one of the three kinds, exactly these points are read back, in their order: each is converted
  -- and appended to the points of the lidar with the line and the time of its place.
  pub point_cloud_process-encoded :
      (h : LidarPubHandler Float) (pkt : RawPacket) (points : RawPoints)
      → pkt.lidar_type ≡ livox_lidar_type
      → pkt.data_type ≡ raw_type points
      → pkt.raw_data ≡ raw_bytes points
      → pkt.point_num ≡ raw_count points
      → pkt.line_num ≢ 0
      → FitsAll points
      → point_cloud_process fl h pkt
        ≡ ok (record h { points_clouds = h.points_clouds ++ converted_all h pkt points })
  point_cloud_process-encoded h pkt (high_points ps) type kind raw count lines fits =
      let livox : (pkt.lidar_type == livox_lidar_type) ≡ true = ground arith in
      dispatch_high fl h pkt livox kind
      ∙ process-encoded (cartesian fl h pkt (fl.decimal 10000 1)) high_point high_bytes 14
          (FitsCartesian (2 ^ 31)) (λ front back i p. high_point-bytes front back i p) (λ p. refl)
          pkt lines h ps raw count fits
  point_cloud_process-encoded h pkt (low_points ps) type kind raw count lines fits =
      let livox : (pkt.lidar_type == livox_lidar_type) ≡ true = ground arith in
      dispatch_low fl h pkt livox kind
      ∙ process-encoded (cartesian fl h pkt (fl.decimal 1000 1)) low_point low_bytes 8
          (FitsCartesian (2 ^ 15)) (λ front back i p. low_point-bytes front back i p) (λ p. refl)
          pkt lines h ps raw count fits
  point_cloud_process-encoded h pkt (spher_points ps) type kind raw count lines fits =
      let livox : (pkt.lidar_type == livox_lidar_type) ≡ true = ground arith in
      dispatch_spher fl h pkt livox kind
      ∙ process-encoded (spherical fl h pkt) spher_point spher_bytes 10 FitsSpher
          (λ front back i p. spher_point-bytes front back i p) (λ p. refl) pkt lines h ps raw count
          fits
