-- ===== src/Ldq/Ring.antt =====
-- `QueuePushAny` and `QueuePop` on the ring over an array of `2 ^ k` packets, step by step.
use mathlib.Core.Path.{ap₂}
use native.Mathlib.Nat.{mod-add-mod}
use drone_exploration_stack.Prelude.{
  ℕ, zero, suc, ◌+◌, ◌-◌, ◌%◌, ◌^◌, ◌≤◌, ◌<◌, ◌≡◌, ◌≢◌, refl, sym, ap, ◌∙◌, arith, bit_and, true,
  false, List, [], ◌∷◌, ◌++◌, length, set, take, ◌==◌, length-set, ok,
}
use drone_exploration_stack.Prelude.Bits.{bit_and_mask}
use drone_exploration_stack.Prelude.Words.{u32, add32, sub32}
use drone_exploration_stack.Comm.{PointXyzlt, PointPacket, StoragePacket}
use drone_exploration_stack.Ldq.{
  live, blank_packet, queue_is_empty, queue_is_full, queue_push_any, queue_pop, slot_at, set_slot,
  copy_points,
}
use drone_exploration_stack.Ldq.Power.{pow2_pos, pow2_mono}
use drone_exploration_stack.Ldq.Window.{
  window, window_ext, window_snoc, length-window, add-mod-ne, u32-mod-pow2,
}
use drone_exploration_stack.Ldq.Invariant.{
  Entry, entry_of, get_or, entry_at, contents, ring, IsRing, mod_in, get_elem?-get_or,
  get_or-Counted, get_or-set_self, get_or-set_ne, set-Counted,
}

module _ {F : Type 0} where
  pub copy_points-ok :
      (n : ℕ) (points : List (PointXyzlt F))
      → n ≤ length points
      → copy_points n points ≡ ok (take n points)
  unfolding copy_points
  copy_points-ok n points h = ground arith

  take-length : (points : List (PointXyzlt F)) → take (length points) points ≡ points
  take-length [] = refl
  take-length (p ∷ ps) = ap (λ xs. p ∷ xs) (take-length ps)

  pub length-take :
      (n : ℕ) (points : List (PointXyzlt F)) → n ≤ length points → length (take n points) ≡ n
  length-take zero points h = refl
  length-take (suc n) [] h = absurd (omega arith)
  length-take (suc n) (p ∷ ps) h = ap suc (length-take n ps (omega arith))

  pub copy_points-all :
      (points : List (PointXyzlt F)) → copy_points (length points) points ≡ ok points
  copy_points-all points =
      copy_points-ok (length points) points (omega arith) ∙ ap ok (take-length points)

module _ {F : Type 0} (packets : List (StoragePacket F)) (k rd wr : ℕ)
    (v : IsRing packets k rd wr) where
  -- A read of a slot of the ring, and a write.
  pub slot-ok :
      (i : ℕ)
      → slot_at (live packets) (bit_and i (2 ^ k - 1))
        ≡ ok (get_or packets (i % 2 ^ k) (blank_packet F))
  unfolding slot_at
  slot-ok i =
      rw (bit_and_mask k i)
        (rw (get_elem?-get_or packets (i % 2 ^ k) (mod_in packets k i v.sized), slot_at))

  pub set_slot-ok :
      (i : ℕ) (p : StoragePacket F)
      → set_slot (live packets) (bit_and i (2 ^ k - 1)) p ≡ ok (live (set packets (i % 2 ^ k) p))
  unfolding set_slot
  set_slot-ok i p = rw (bit_and_mask k i) (ground (arith, mod_in packets k i v.sized))

  -- The counter of the next write is, up to whole rings, `n` behind that of the next read.
  pub write_place : wr % 2 ^ k ≡ (rd + sub32 wr rd) % 2 ^ k
  write_place =
      let wrapped : u32 (rd + sub32 wr rd) ≡ wr = omega (arith, v.rd_word, v.wr_word) in
      rw wrapped at (u32-mod-pow2 k (rd + sub32 wr rd) (omega (arith, v.small)))

  -- Below the number that waits, no read meets the slot that is written next.
  pub entry_at-set :
      (p : StoragePacket F) (j : ℕ)
      → sub32 wr rd < 2 ^ k
      → j < sub32 wr rd
      → entry_at (set packets (wr % 2 ^ k) p) (2 ^ k) (rd + j) ≡ entry_at packets (2 ^ k) (rd + j)
  entry_at-set p j h less =
      let n = sub32 wr rd in
      let apart : (rd + j + (n - j)) % 2 ^ k ≢ (rd + j) % 2 ^ k =
        add-mod-ne (2 ^ k) (rd + j) (n - j) (omega arith) (omega arith) in
      let same : rd + j + (n - j) ≡ rd + n = omega arith in
      ap entry_of (
        get_or-set_ne packets (wr % 2 ^ k) ((rd + j) % 2 ^ k) p
          (λ e. apart (ap (λ (t : ℕ). t % 2 ^ k) same ∙ sym write_place ∙ e)))

  window-set :
      (p : StoragePacket F)
      → sub32 wr rd < 2 ^ k
      → window (entry_at (set packets (wr % 2 ^ k) p) (2 ^ k)) rd (suc (sub32 wr rd))
        ≡ window (entry_at packets (2 ^ k)) rd (sub32 wr rd) ++ entry_of p ∷ []
  window-set p h =
      let n = sub32 wr rd in
      let after = entry_at (set packets (wr % 2 ^ k) p) (2 ^ k) in
      let last : after (rd + n) ≡ entry_of p = ap entry_of (
        ap (λ i. get_or (set packets (wr % 2 ^ k) p) i (blank_packet F)) (sym write_place)
        ∙ get_or-set_self packets (wr % 2 ^ k) p (mod_in packets k wr v.sized)) in
      window_snoc after rd n
      ∙ ap₂ (λ xs x. xs ++ x ∷ [])
          (window_ext after (entry_at packets (2 ^ k)) rd rd n (λ j less. entry_at-set p j h less))
          last

  pub ring_is_empty :
      queue_is_empty (ring packets k rd wr) ≡ (length (contents (ring packets k rd wr)) == 0)
  unfolding queue_is_empty
  ring_is_empty =
      ground
        (arith, length-window (entry_at packets (2 ^ k)) rd (sub32 wr rd), v.rd_word, v.wr_word)

  pub ring_is_full :
      queue_is_full (ring packets k rd wr) ≡ (length (contents (ring packets k rd wr)) == 2 ^ k)
  unfolding queue_is_full
  ring_is_full =
      ground
        (arith, length-window (entry_at packets (2 ^ k)) rd (sub32 wr rd), v.bounded, pow2_pos k)

  -- The packet that a push leaves in its slot.
  abbrev pub stored : PointPacket F → ℕ → StoragePacket F
  stored p base_time = record (get_or packets (wr % 2 ^ k) (blank_packet F)) {
    base_time = base_time;
    points_num = p.points_num;
    points = take p.points_num p.points;
  }

  pub ring_push :
      (p : PointPacket F) (t : ℕ)
      → p.points_num ≤ length p.points
      → queue_push_any (ring packets k rd wr) p t
        ≡ ok (ring (set packets (wr % 2 ^ k) (stored p t)) k rd (add32 wr 1))
  unfolding queue_push_any
  ring_push p t h =
      rw (slot-ok wr)
        (rw (copy_points-ok p.points_num p.points h) (rw (set_slot-ok wr (stored p t)) refl))

  pub push_used : sub32 wr rd < 2 ^ k → sub32 (add32 wr 1) rd ≡ suc (sub32 wr rd)
  push_used h = omega (arith, v.rd_word, v.wr_word, pow2_mono k 31 v.small)

  pub push-IsRing :
      (p : PointPacket F) (t : ℕ)
      → p.points_num ≤ length p.points
      → sub32 wr rd < 2 ^ k
      → IsRing (set packets (wr % 2 ^ k) (stored p t)) k rd (add32 wr 1)
  push-IsRing p t h room = record {
    small = v.small;
    sized = length-set packets (wr % 2 ^ k) (stored p t) ∙ v.sized;
    rd_word = v.rd_word;
    wr_word = omega arith;
    bounded = omega (arith, push_used room);
    all_counted =
        set-Counted packets (wr % 2 ^ k) (stored p t) v.all_counted
          (sym (length-take p.points_num p.points h));
  }

  pub ring_push-contents :
      (p : PointPacket F) (t : ℕ)
      → sub32 wr rd < 2 ^ k
      → contents (ring (set packets (wr % 2 ^ k) (stored p t)) k rd (add32 wr 1))
        ≡ contents (ring packets k rd wr) ++ entry_of (stored p t) ∷ []
  ring_push-contents p t room = rw (push_used room) (window-set (stored p t) room)

  pub pop_used : 0 < sub32 wr rd → sub32 wr rd ≡ suc (sub32 wr (add32 rd 1))
  pop_used h = omega (arith, v.rd_word, v.wr_word, v.bounded, pow2_mono k 31 v.small)

  pub ring_pop :
      (out : StoragePacket F)
      → 0 < sub32 wr rd
      → let slot = get_or packets (rd % 2 ^ k) (blank_packet F) in
        queue_pop (ring packets k rd wr) out
        ≡ ok (
          true,
          ring packets k (add32 rd 1) wr,
          record out {
            base_time = slot.base_time;
            points_num = length slot.points;
            points = slot.points;
          },
        )
  unfolding queue_pop
  ring_pop out h =
      let slot = get_or packets (rd % 2 ^ k) (blank_packet F) in
      let count = get_or-Counted packets (rd % 2 ^ k) v.all_counted in
      rw nonempty (rw (slot-ok rd) (rw count (rw (copy_points-all slot.points) refl)))
    where
      nonempty : queue_is_empty (ring packets k rd wr) ≡ false
      nonempty = ground (arith, v.rd_word, v.wr_word)

  pub pop-IsRing : 0 < sub32 wr rd → IsRing packets k (add32 rd 1) wr
  pop-IsRing h = record {
    small = v.small;
    sized = v.sized;
    rd_word = omega arith;
    wr_word = v.wr_word;
    bounded = omega (arith, pop_used h, v.bounded);
    all_counted = v.all_counted;
  }

  pub ring_pop-contents :
      0 < sub32 wr rd
      → contents (ring packets k rd wr)
        ≡ entry_at packets (2 ^ k) rd ∷ contents (ring packets k (add32 rd 1) wr)
  ring_pop-contents h =
      let n = sub32 wr (add32 rd 1) in
      let read = entry_at packets (2 ^ k) in
      ap (window read rd) (pop_used h)
      ∙ ap (λ xs. read rd ∷ xs)
          (window_ext read read (rd + 1) (add32 rd 1) n (λ j less. ap place (wrapped j)))
    where
      place : ℕ → Entry F
      place i = entry_of (get_or packets i (blank_packet F))

      wrapped : (j : ℕ) → (rd + 1 + j) % 2 ^ k ≡ (add32 rd 1 + j) % 2 ^ k
      wrapped j =
          sym (mod-add-mod (rd + 1) (2 ^ k) j)
          ∙ ap (λ (t : ℕ). (t + j) % 2 ^ k) (sym (u32-mod-pow2 k (rd + 1) (omega (arith, v.small))))
          ∙ mod-add-mod (add32 rd 1) (2 ^ k) j

  -- A queue that is not full has room for one packet more.
  pub room_of_not_full : queue_is_full (ring packets k rd wr) ≡ false → sub32 wr rd < 2 ^ k
  unfolding queue_is_full
  room_of_not_full h = ground (arith, pow2_pos k)

  pub used_of_cons :
      (e : Entry F) (es : List (Entry F))
      → contents (ring packets k rd wr) ≡ e ∷ es
      → 0 < sub32 wr rd
  used_of_cons e es h =
      omega (arith, ap length h, length-window (entry_at packets (2 ^ k)) rd (sub32 wr rd))

  pub used_of_nil : contents (ring packets k rd wr) ≡ [] → sub32 wr rd ≡ 0
  used_of_nil h =
      omega (arith, ap length h, length-window (entry_at packets (2 ^ k)) rd (sub32 wr rd))
