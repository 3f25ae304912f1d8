-- ===== src/Raw/Bounds.antt =====
-- When a raw point can be read, and when the read leaves the packet's bytes.
use drone_exploration_stack.Prelude.{
  ℕ, ◌+◌, ◌*◌, ◌≤◌, ◌<◌, ◌≡◌, ◌≢◌, refl, List, Fault, length, Outcome, ok, fault, out_of_bounds,
  arith,
}
use drone_exploration_stack.Raw.{
  high_point, low_point, spher_point, CartesianRawPoint, SpherPoint, high_size, low_size,
  spher_size,
}

-- A call that does not fault has a result.
total_of : {A : Type 0} (o : Outcome A) → ((e : Fault) → o ≢ fault e) → (a : A) × (o ≡ ok a)
total_of (ok a) h = (a, refl)
total_of (fault e) h = absurd (h e refl)

-- A decoder of structures of `size` bytes reads what lies in the array, and nothing else.
abbrev pub Reads : (A : Type 0) → (List ℕ → ℕ → Outcome A) → ℕ → Type 0
Reads A decode size =
    ((raw : List ℕ) (i : ℕ) → i * size + size ≤ length raw → (p : A) × (decode raw i ≡ ok p))
    × ((raw : List ℕ) (i : ℕ) → length raw < i * size + size → decode raw i ≡ fault out_of_bounds)

pub high_point-Reads : Reads CartesianRawPoint high_point high_size
unfolding high_point
high_point-Reads =
    (λ raw i h. total_of (high_point raw i) (λ e bad. ground arith), λ raw i h. ground arith)

pub low_point-Reads : Reads CartesianRawPoint low_point low_size
unfolding low_point
low_point-Reads =
    (λ raw i h. total_of (low_point raw i) (λ e bad. ground arith), λ raw i h. ground arith)

pub spher_point-Reads : Reads SpherPoint spher_point spher_size
unfolding spher_point
spher_point-Reads =
    (λ raw i h. total_of (spher_point raw i) (λ e bad. ground arith), λ raw i h. ground arith)
