-- ===== src/LidarHandler/Points.antt =====
-- What the conversion of a packet adds to the points of its lidar.
use native.Mathlib.Decide.{dec_lt}
use drone_exploration_stack.Prelude.{
  ℕ, zero, suc, ◌+◌, ◌*◌, ◌%◌, ◌≤◌, ◌<◌, ◌≡◌, ◌≢◌, ◌⊎◌, inl, inr, refl, sym, ap, ◌∙◌, true, false,
  List, [], ◌∷◌, ◌++◌, length, ◌==◌, if◌then◌else◌, Outcome, ok, fault, out_of_bounds, ◌>>=◌, arith,
  ne→==_false,
}
use mathlib.Core.List.{append_assoc, append-nil}
use drone_exploration_stack.Prelude.Words.{u8, u64}
use drone_exploration_stack.Floats.{Floats}
use drone_exploration_stack.Comm.{
  PointXyzlt, RawPacket, livox_lidar_type, cartesian_high_data, cartesian_low_data, spherical_data,
}
use drone_exploration_stack.Raw.{high_point, low_point, spher_point}
use drone_exploration_stack.Raw.Bounds.{Reads, high_point-Reads, low_point-Reads, spher_point-Reads}
use drone_exploration_stack.LidarHandler.{
  LidarPubHandler, Converted, stamped, convert_points, process_with, point_cloud_process, cartesian,
  spherical,
}

module _ (fl : Floats) where
  open fl use {Float}

  -- The points of the rounds from `i` on: one for each, with its line and time.
  abbrev pub IsBatch : RawPacket → ℕ → ℕ → List (PointXyzlt Float) → Type 0
  IsBatch pkt zero i [] = Unit {0}
  IsBatch pkt zero i (p ∷ ps) = ⊥
  IsBatch pkt (suc rounds) i [] = ⊥
  IsBatch pkt (suc rounds) i (p ∷ ps) =
      (p.line ≡ u8 (i % pkt.line_num))
      × (p.offset_time ≡ u64 (pkt.time_stamp + i * pkt.point_interval))
      × IsBatch pkt rounds (i + 1) ps

  convert_points-IsBatch :
      (convert : ℕ → Outcome (Converted Float)) (pkt : RawPacket) (rounds i n : ℕ)
      (cloud : List (PointXyzlt Float))
      → pkt.line_num ≢ 0
      → i + rounds ≡ n
      → ((j : ℕ) → j < n → (c : Converted Float) × (convert j ≡ ok c))
      → (new : List (PointXyzlt Float)) × (convert_points fl convert pkt rounds i cloud
          ≡ ok (cloud ++ new))
        × IsBatch pkt rounds i new
  unfolding convert_points
  convert_points-IsBatch convert pkt zero i n cloud lines e reads =
      ([], ap ok (sym (append-nil cloud)), tt)
  convert_points-IsBatch convert pkt (suc rounds) i n cloud lines e reads =
      let (c, read) = reads i (omega arith) in
      let p = stamped fl pkt i c in
      let (new, done, batch) =
        convert_points-IsBatch convert pkt rounds (i + 1) n (cloud ++ p ∷ []) lines (omega arith)
          reads in
      (
        p ∷ new,
        rw read (
            rw (ne→==_false pkt.line_num 0 lines) (done ∙ ap ok (append_assoc cloud (p ∷ []) new))),
        (refl, refl, batch),
      )

  module _ {P : Type 0} (decode : List ℕ → ℕ → Outcome P) (size : ℕ) (reads : Reads P decode size)
      (g : P → Converted Float) (pkt : RawPacket) (lines : pkt.line_num ≢ 0) where
    abbrev converted : ℕ → Outcome (Converted Float)
    converted i = decode pkt.raw_data i >>= λ p. ok (g p)

    -- The rounds up to `n` succeed if the bytes hold `n` points.
    reads-converted :
        (n : ℕ)
        → n * size ≤ length pkt.raw_data
        → (j : ℕ) → j < n
        → (c : Converted Float) × (converted j ≡ ok c)
    reads-converted n enough j less =
        let (p, e) = reads.0 pkt.raw_data j (grind arith) in (g p, rw e refl)

    -- The loop leaves the bytes if they are too few for its rounds.
    converted-fault :
        (rounds i n : ℕ) (cloud : List (PointXyzlt Float))
        → i + rounds ≡ n
        → i * size ≤ length pkt.raw_data
        → length pkt.raw_data < n * size
        → convert_points fl converted pkt rounds i cloud ≡ fault out_of_bounds
    unfolding convert_points
    converted-fault zero i n cloud e before short = absurd (grind arith)
    converted-fault (suc rounds) i n cloud e before short =
        elim (dec_lt (length pkt.raw_data) (i * size + size)) [
          | yes bad ↦ rw (reads.1 pkt.raw_data i bad) refl
          | no fits ↦
              let (p, read) = reads.0 pkt.raw_data i (omega arith) in
              rw read (
                rw (ne→==_false pkt.line_num 0 lines)
                  (converted-fault rounds (i + 1) n _ (omega arith) (grind arith) short))
        ]

    -- A packet whose bytes hold its points adds one point for each.
    process-IsBatch :
        (h : LidarPubHandler Float)
        → pkt.point_num * size ≤ length pkt.raw_data
        → (new : List (PointXyzlt Float)) × (process_with fl converted h pkt
            ≡ ok (record h { points_clouds = h.points_clouds ++ new }))
          × IsBatch pkt pkt.point_num 0 new
    unfolding process_with
    process-IsBatch h enough =
        let (new, done, batch) =
          convert_points-IsBatch converted pkt pkt.point_num 0 pkt.point_num h.points_clouds lines
            (omega arith) (reads-converted pkt.point_num enough) in
        (new, rw done refl, batch)

    process-fault :
        (h : LidarPubHandler Float)
        → length pkt.raw_data < pkt.point_num * size
        → process_with fl converted h pkt ≡ fault out_of_bounds
    unfolding process_with
    process-fault h short =
        rw
          (converted-fault pkt.point_num 0 pkt.point_num h.points_clouds (omega arith) (omega arith)
            short)
          refl

  -- The bytes of a raw point of each data type.
  abbrev pub point_size : ℕ → ℕ
  point_size data_type =
      if data_type == cartesian_high_data
      then 14
      else if data_type == cartesian_low_data
      then 8
      else 10

  abbrev pub IsPointType : ℕ → Type 0
  IsPointType data_type =
      (data_type ≡ cartesian_high_data)
      ⊎ (data_type ≡ cartesian_low_data)
      ⊎ (data_type ≡ spherical_data)

  pub dispatch_high :
      (h : LidarPubHandler Float) (pkt : RawPacket)
      → (pkt.lidar_type == livox_lidar_type) ≡ true
      → pkt.data_type ≡ cartesian_high_data
      → point_cloud_process fl h pkt
        ≡ process_with fl
            (λ i. high_point pkt.raw_data i >>= λ p. ok (cartesian fl h pkt (fl.decimal 10000 1) p))
            h
            pkt
  unfolding point_cloud_process
  dispatch_high h pkt type kind =
      let is_high : (pkt.data_type == 1) ≡ true = ground arith in rw (type, is_high) refl

  pub dispatch_low :
      (h : LidarPubHandler Float) (pkt : RawPacket)
      → (pkt.lidar_type == livox_lidar_type) ≡ true
      → pkt.data_type ≡ cartesian_low_data
      → point_cloud_process fl h pkt
        ≡ process_with fl
            (λ i. low_point pkt.raw_data i >>= λ p. ok (cartesian fl h pkt (fl.decimal 1000 1) p))
            h
            pkt
  unfolding point_cloud_process
  dispatch_low h pkt type kind =
      let not_high : (pkt.data_type == 1) ≡ false = ground arith in
      let is_low : (pkt.data_type == 2) ≡ true = ground arith in rw (type, not_high, is_low) refl

  pub dispatch_spher :
      (h : LidarPubHandler Float) (pkt : RawPacket)
      → (pkt.lidar_type == livox_lidar_type) ≡ true
      → pkt.data_type ≡ spherical_data
      → point_cloud_process fl h pkt
        ≡ process_with fl (λ i. spher_point pkt.raw_data i >>= λ p. ok (spherical fl h pkt p)) h pkt
  unfolding point_cloud_process
  dispatch_spher h pkt type kind =
      let not_high : (pkt.data_type == 1) ≡ false = ground arith in
      let not_low : (pkt.data_type == 2) ≡ false = ground arith in
      let is_spher : (pkt.data_type == 3) ≡ true = ground arith in
      rw (type, not_high, not_low, is_spher) refl

  -- A packet of points of one of the three kinds whose bytes hold as many points as it says adds
  -- exactly that many to the points of its lidar, after those that were there, each with its line
  -- and its time.
  pub point_cloud_process-IsBatch :
      (h : LidarPubHandler Float) (pkt : RawPacket)
      → pkt.lidar_type ≡ livox_lidar_type
      → IsPointType pkt.data_type
      → pkt.line_num ≢ 0
      → pkt.point_num * point_size pkt.data_type ≤ length pkt.raw_data
      → (new : List (PointXyzlt Float)) × (point_cloud_process fl h pkt
          ≡ ok (record h { points_clouds = h.points_clouds ++ new }))
        × IsBatch pkt pkt.point_num 0 new
  point_cloud_process-IsBatch h pkt type (inl kind) lines enough =
      let size : point_size pkt.data_type ≡ 14 = ground arith in
      let livox : (pkt.lidar_type == livox_lidar_type) ≡ true = ground arith in
      rw (dispatch_high h pkt livox kind) (
        process-IsBatch high_point 14 high_point-Reads (cartesian fl h pkt (fl.decimal 10000 1)) pkt
          lines h (rw size at enough))
  point_cloud_process-IsBatch h pkt type (inr (inl kind)) lines enough =
      let size : point_size pkt.data_type ≡ 8 = ground arith in
      let livox : (pkt.lidar_type == livox_lidar_type) ≡ true = ground arith in
      rw (dispatch_low h pkt livox kind) (
        process-IsBatch low_point 8 low_point-Reads (cartesian fl h pkt (fl.decimal 1000 1)) pkt
          lines h (rw size at enough))
  point_cloud_process-IsBatch h pkt type (inr (inr kind)) lines enough =
      let size : point_size pkt.data_type ≡ 10 = ground arith in
      let livox : (pkt.lidar_type == livox_lidar_type) ≡ true = ground arith in
      rw (dispatch_spher h pkt livox kind) (
        process-IsBatch spher_point 10 spher_point-Reads (spherical fl h pkt) pkt lines h
          (rw size at enough))

  -- A packet of points that says that it holds more points than its bytes do is read beyond them:
  -- no test stands between its `dot_num` and the loop.
  pub point_cloud_process_short :
      (h : LidarPubHandler Float) (pkt : RawPacket)
      → pkt.lidar_type ≡ livox_lidar_type
      → IsPointType pkt.data_type
      → pkt.line_num ≢ 0
      → length pkt.raw_data < pkt.point_num * point_size pkt.data_type
      → point_cloud_process fl h pkt ≡ fault out_of_bounds
  point_cloud_process_short h pkt type (inl kind) lines short =
      let size : point_size pkt.data_type ≡ 14 = ground arith in
      let livox : (pkt.lidar_type == livox_lidar_type) ≡ true = ground arith in
      rw (dispatch_high h pkt livox kind) (
        process-fault high_point 14 high_point-Reads (cartesian fl h pkt (fl.decimal 10000 1)) pkt
          lines h (rw size at short))
  point_cloud_process_short h pkt type (inr (inl kind)) lines short =
      let size : point_size pkt.data_type ≡ 8 = ground arith in
      let livox : (pkt.lidar_type == livox_lidar_type) ≡ true = ground arith in
      rw (dispatch_low h pkt livox kind) (
        process-fault low_point 8 low_point-Reads (cartesian fl h pkt (fl.decimal 1000 1)) pkt lines
          h (rw size at short))
  point_cloud_process_short h pkt type (inr (inr kind)) lines short =
      let size : point_size pkt.data_type ≡ 10 = ground arith in
      let livox : (pkt.lidar_type == livox_lidar_type) ≡ true = ground arith in
      rw (dispatch_spher h pkt livox kind) (
        process-fault spher_point 10 spher_point-Reads (spherical fl h pkt) pkt lines h
          (rw size at short))
