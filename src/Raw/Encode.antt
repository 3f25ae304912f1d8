-- ===== src/Raw/Encode.antt =====
-- The wire format of the points, and that the reads of comm/pub_handler.cpp give back what was
-- written: packed structures of little-endian numbers, with two's complement for signed ones.
use native.Mathlib.Nat.{pow-suc}
use drone_exploration_stack.Prelude.{
  ℕ, zero, suc, ◌+◌, ◌*◌, ◌/◌, ◌%◌, ◌^◌, ◌≤◌, ◌<◌, ◌≡◌, refl, ap, ◌∙◌, true, List, [], ◌∷◌, ◌++◌,
  length, take, drop, leb, ok, length-append, arith,
}
use drone_exploration_stack.Prelude.Int.{ℤ, pos, negsuc, signed, pattern_of}
use drone_exploration_stack.Raw.{
  little_endian, read_bytes, read_uint, CartesianRawPoint, SpherPoint, high_point, low_point,
  spher_point,
}

-- `n` bytes of a number, lowest first.
abbrev pub bytes_of : ℕ → ℕ → List ℕ
bytes_of zero a = []
bytes_of (suc n) a = a % 256 ∷ bytes_of n (a / 256)

little_endian-bytes_of : (n a : ℕ) → a < 256 ^ n → little_endian (bytes_of n a) ≡ a
unfolding little_endian
little_endian-bytes_of zero a h = omega arith
little_endian-bytes_of (suc n) a h =
    omega (arith, pow-suc 256 n, little_endian-bytes_of n (a / 256) (omega (arith, pow-suc 256 n)))

drop_front :
    {A : Type 0} (front tail : List A) (k : ℕ)
    → drop (length front + k) (front ++ tail) ≡ drop k tail
drop_front [] tail k = let same : 0 + k ≡ k = omega arith in ap (λ n. drop n tail) same
drop_front (x ∷ xs) tail k =
    let same : suc (length xs) + k ≡ suc (length xs + k) = omega arith in
    ap (λ n. drop n (x ∷ xs ++ tail)) same ∙ drop_front xs tail k

-- A read behind other bytes.
read_behind :
    (front tail : List ℕ) (k n : ℕ)
    → k + n ≤ length tail
    → read_uint (front ++ tail) (length front + k) n ≡ ok (little_endian (take n (drop k tail)))
unfolding read_uint read_bytes
read_behind front tail k n h =
    let fits : leb (length front + k + n) (length (front ++ tail)) ≡ true =
      ground (arith, length-append front tail) in
    rw fits (rw (drop_front front tail k) refl)

-- The numbers of a signed type of which `m` are not negative.
abbrev pub InRange : ℕ → ℤ → Type 0
InRange m (pos n) = n < m
InRange m (negsuc n) = n < m

signed_32 : (x : ℤ) → InRange (2 ^ 31) x → signed 32 (pattern_of 32 x) ≡ x
signed_32 (pos n) h = ground arith
signed_32 (negsuc n) h = ground arith

signed_16 : (x : ℤ) → InRange (2 ^ 15) x → signed 16 (pattern_of 16 x) ≡ x
signed_16 (pos n) h = ground arith
signed_16 (negsuc n) h = ground arith

pattern-lt_32 : (x : ℤ) → pattern_of 32 x < 256 ^ 4
pattern-lt_32 (pos n) = omega arith
pattern-lt_32 (negsuc n) = omega arith

pattern-lt_16 : (x : ℤ) → pattern_of 16 x < 256 ^ 2
pattern-lt_16 (pos n) = omega arith
pattern-lt_16 (negsuc n) = omega arith

-- The three structures, as the SDK's header lays them out.
abbrev pub high_bytes : CartesianRawPoint → List ℕ
high_bytes p =
    bytes_of 4 (pattern_of 32 p.x)
    ++ bytes_of 4 (pattern_of 32 p.y)
    ++ bytes_of 4 (pattern_of 32 p.z)
    ++ p.reflectivity ∷ p.tag ∷ []

abbrev pub low_bytes : CartesianRawPoint → List ℕ
low_bytes p =
    bytes_of 2 (pattern_of 16 p.x)
    ++ bytes_of 2 (pattern_of 16 p.y)
    ++ bytes_of 2 (pattern_of 16 p.z)
    ++ p.reflectivity ∷ p.tag ∷ []

abbrev pub spher_bytes : SpherPoint → List ℕ
spher_bytes p =
    bytes_of 4 p.depth ++ bytes_of 2 p.theta ++ bytes_of 2 p.phi ++ p.reflectivity ∷ p.tag ∷ []

-- The fields fit their types.
pub record FitsCartesian (m : ℕ) (p : CartesianRawPoint) : Type 0 where
  pub x : InRange m p.x
  pub y : InRange m p.y
  pub z : InRange m p.z
  pub reflectivity : p.reflectivity < 256
  pub tag : p.tag < 256

pub record FitsSpher (p : SpherPoint) : Type 0 where
  pub depth : p.depth < 2 ^ 32
  pub theta : p.theta < 2 ^ 16
  pub phi : p.phi < 2 ^ 16
  pub reflectivity : p.reflectivity < 256
  pub tag : p.tag < 256

-- One field of a structure that stands behind other bytes.
field :
    (front tail : List ℕ) (k n a at : ℕ)
    → at ≡ length front + k
    → k + n ≤ length tail
    → take n (drop k tail) ≡ bytes_of n a
    → a < 256 ^ n
    → read_uint (front ++ tail) at n ≡ ok a
field front tail k n a at place fits is small =
    ap (λ o. read_uint (front ++ tail) o n) place
    ∙ read_behind front tail k n fits
    ∙ ap (λ bs. ok (little_endian bs)) is
    ∙ ap ok (little_endian-bytes_of n a small)

-- A byte is one byte long.
one_byte : (b : ℕ) → b < 256 → b ∷ [] ≡ bytes_of 1 b
one_byte b h = ap (λ (a : ℕ). a ∷ []) (omega arith)

byte_field :
    (front tail : List ℕ) (k b at : ℕ)
    → at ≡ length front + k
    → k + 1 ≤ length tail
    → take 1 (drop k tail) ≡ b ∷ []
    → b < 256
    → read_uint (front ++ tail) at 1 ≡ ok b
byte_field front tail k b at place fits is small =
    field front tail k 1 b at place fits (is ∙ one_byte b small) (omega arith)

high_point_of :
    (raw : List ℕ) (i x y z r t : ℕ)
    → read_uint raw (i * 14) 4 ≡ ok x
    → read_uint raw (i * 14 + 4) 4 ≡ ok y
    → read_uint raw (i * 14 + 8) 4 ≡ ok z
    → read_uint raw (i * 14 + 12) 1 ≡ ok r
    → read_uint raw (i * 14 + 13) 1 ≡ ok t
    → high_point raw i
      ≡ ok (record { x = signed 32 x; y = signed 32 y; z = signed 32 z; reflectivity = r; tag = t })
unfolding high_point
high_point_of raw i x y z r t ex ey ez er et = rw ex (rw ey (rw ez (rw er (rw et refl))))

low_point_of :
    (raw : List ℕ) (i x y z r t : ℕ)
    → read_uint raw (i * 8) 2 ≡ ok x
    → read_uint raw (i * 8 + 2) 2 ≡ ok y
    → read_uint raw (i * 8 + 4) 2 ≡ ok z
    → read_uint raw (i * 8 + 6) 1 ≡ ok r
    → read_uint raw (i * 8 + 7) 1 ≡ ok t
    → low_point raw i
      ≡ ok (record { x = signed 16 x; y = signed 16 y; z = signed 16 z; reflectivity = r; tag = t })
unfolding low_point
low_point_of raw i x y z r t ex ey ez er et = rw ex (rw ey (rw ez (rw er (rw et refl))))

spher_point_of :
    (raw : List ℕ) (i d a b r t : ℕ)
    → read_uint raw (i * 10) 4 ≡ ok d
    → read_uint raw (i * 10 + 4) 2 ≡ ok a
    → read_uint raw (i * 10 + 6) 2 ≡ ok b
    → read_uint raw (i * 10 + 8) 1 ≡ ok r
    → read_uint raw (i * 10 + 9) 1 ≡ ok t
    → spher_point raw i ≡ ok (record { depth = d; theta = a; phi = b; reflectivity = r; tag = t })
unfolding spher_point
spher_point_of raw i d a b r t ed ea eb er et = rw ed (rw ea (rw eb (rw er (rw et refl))))

module _ (front back : List ℕ) (i : ℕ) where
  pub high_point-bytes :
      (p : CartesianRawPoint)
      → length front ≡ i * 14
      → FitsCartesian (2 ^ 31) p
      → high_point (front ++ (high_bytes p ++ back)) i ≡ ok p
  high_point-bytes p place fits =
      let tail = high_bytes p ++ back in
      high_point_of (front ++ tail) i (pattern_of 32 p.x) (pattern_of 32 p.y) (pattern_of 32 p.z)
        p.reflectivity p.tag
        (field front tail 0 4 _ (i * 14) (omega arith) (omega arith) refl (pattern-lt_32 p.x))
        (field front tail 4 4 _ (i * 14 + 4) (omega arith) (omega arith) refl (pattern-lt_32 p.y))
        (field front tail 8 4 _ (i * 14 + 8) (omega arith) (omega arith) refl (pattern-lt_32 p.z))
        (byte_field front tail 12 _ (i * 14 + 12) (omega arith) (omega arith) refl
          fits.reflectivity)
        (byte_field front tail 13 _ (i * 14 + 13) (omega arith) (omega arith) refl fits.tag)
      ∙ (λ j. ok (record p {
        x = signed_32 p.x fits.x j;
        y = signed_32 p.y fits.y j;
        z = signed_32 p.z fits.z j;
      }))

  pub low_point-bytes :
      (p : CartesianRawPoint)
      → length front ≡ i * 8
      → FitsCartesian (2 ^ 15) p
      → low_point (front ++ (low_bytes p ++ back)) i ≡ ok p
  low_point-bytes p place fits =
      let tail = low_bytes p ++ back in
      low_point_of (front ++ tail) i (pattern_of 16 p.x) (pattern_of 16 p.y) (pattern_of 16 p.z)
        p.reflectivity p.tag
        (field front tail 0 2 _ (i * 8) (omega arith) (omega arith) refl (pattern-lt_16 p.x))
        (field front tail 2 2 _ (i * 8 + 2) (omega arith) (omega arith) refl (pattern-lt_16 p.y))
        (field front tail 4 2 _ (i * 8 + 4) (omega arith) (omega arith) refl (pattern-lt_16 p.z))
        (byte_field front tail 6 _ (i * 8 + 6) (omega arith) (omega arith) refl fits.reflectivity)
        (byte_field front tail 7 _ (i * 8 + 7) (omega arith) (omega arith) refl fits.tag)
      ∙ (λ j. ok (record p {
        x = signed_16 p.x fits.x j;
        y = signed_16 p.y fits.y j;
        z = signed_16 p.z fits.z j;
      }))

  pub spher_point-bytes :
      (p : SpherPoint)
      → length front ≡ i * 10
      → FitsSpher p
      → spher_point (front ++ (spher_bytes p ++ back)) i ≡ ok p
  spher_point-bytes p place fits =
      let tail = spher_bytes p ++ back in
      spher_point_of (front ++ tail) i p.depth p.theta p.phi p.reflectivity p.tag
        (field front tail 0 4 _ (i * 10) (omega arith) (omega arith) refl fits.depth)
        (field front tail 4 2 _ (i * 10 + 4) (omega arith) (omega arith) refl fits.theta)
        (field front tail 6 2 _ (i * 10 + 6) (omega arith) (omega arith) refl fits.phi)
        (byte_field front tail 8 _ (i * 10 + 8) (omega arith) (omega arith) refl fits.reflectivity)
        (byte_field front tail 9 _ (i * 10 + 9) (omega arith) (omega arith) refl fits.tag)
