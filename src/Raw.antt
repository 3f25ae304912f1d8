-- ===== src/Raw.antt =====
-- The raw points of an Ethernet packet, as comm/pub_handler.cpp of ros_ws/src/livox_ros_driver2/src
-- reads them by casts of `raw_data`: packed little-endian structures of 14, 8 and 10 bytes, whose
-- layout is that of the SDK's header livox_lidar_def.h.
pub mod Bounds
pub mod Encode
use drone_exploration_stack.Prelude.{
  ℕ, zero, suc, ◌+◌, ◌*◌, ◌≤◌, ◌≡◌, List, [], ◌∷◌, length, take, drop, leb, if◌then◌else◌, Outcome,
  ok, fault, out_of_bounds, ◌>>=◌, arith, refl,
}
use drone_exploration_stack.Prelude.Int.{ℤ, signed}

-- The number that bytes stand for, lowest first.
unfoldable pub little_endian : List ℕ → ℕ
little_endian [] = 0
little_endian (b ∷ bs) = b + 256 * little_endian bs

-- The bytes `offset` up to `offset + n` of an array.
unfoldable pub read_bytes : List ℕ → ℕ → ℕ → Outcome (List ℕ)
read_bytes raw offset n =
    if leb (offset + n) (length raw) then ok (take n (drop offset raw)) else fault out_of_bounds

unfoldable pub read_uint : List ℕ → ℕ → ℕ → Outcome ℕ
unfolding read_bytes little_endian
read_uint raw offset n = do bytes ← read_bytes raw offset n; ok (little_endian bytes)

-- `LivoxLidarCartesianHighRawPoint` and `LivoxLidarCartesianLowRawPoint`.
pub record CartesianRawPoint : Type 0 where
  pub x : ℤ
  pub y : ℤ
  pub z : ℤ
  pub reflectivity : ℕ
  pub tag : ℕ

-- `LivoxLidarSpherPoint`.
pub record SpherPoint : Type 0 where
  pub depth : ℕ
  pub theta : ℕ
  pub phi : ℕ
  pub reflectivity : ℕ
  pub tag : ℕ

abbrev pub high_size : ℕ
high_size = 14

abbrev pub low_size : ℕ
low_size = 8

abbrev pub spher_size : ℕ
spher_size = 10

-- `raw[i]` of each kind.
unfoldable pub high_point : List ℕ → ℕ → Outcome CartesianRawPoint
unfolding read_uint
high_point raw i = do
  x ← read_uint raw (i * 14) 4
  y ← read_uint raw (i * 14 + 4) 4
  z ← read_uint raw (i * 14 + 8) 4
  reflectivity ← read_uint raw (i * 14 + 12) 1
  tag ← read_uint raw (i * 14 + 13) 1
  ok (record {
    x = signed 32 x;
    y = signed 32 y;
    z = signed 32 z;
    reflectivity = reflectivity;
    tag = tag;
  })

unfoldable pub low_point : List ℕ → ℕ → Outcome CartesianRawPoint
unfolding read_uint
low_point raw i = do
  x ← read_uint raw (i * 8) 2
  y ← read_uint raw (i * 8 + 2) 2
  z ← read_uint raw (i * 8 + 4) 2
  reflectivity ← read_uint raw (i * 8 + 6) 1
  tag ← read_uint raw (i * 8 + 7) 1
  ok (record {
    x = signed 16 x;
    y = signed 16 y;
    z = signed 16 z;
    reflectivity = reflectivity;
    tag = tag;
  })

unfoldable pub spher_point : List ℕ → ℕ → Outcome SpherPoint
unfolding read_uint
spher_point raw i = do
  depth ← read_uint raw (i * 10) 4
  theta ← read_uint raw (i * 10 + 4) 2
  phi ← read_uint raw (i * 10 + 6) 2
  reflectivity ← read_uint raw (i * 10 + 8) 1
  tag ← read_uint raw (i * 10 + 9) 1
  ok (record { depth = depth; theta = theta; phi = phi; reflectivity = reflectivity; tag = tag })
