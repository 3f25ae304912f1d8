-- ===== src/Ldq/Threads/Moves.antt =====
-- What each access of the two threads does to the ring.

use drone_exploration_stack.Prelude.{
  ℕ, ◌+◌, ◌%◌, ◌^◌, ◌≤◌, ◌<◌, ◌≡◌, refl, sym, ap, ◌∙◌, arith, List, [], ◌∷◌, ◌++◌, length, set,
  length-set, ok,
}
use drone_exploration_stack.Prelude.Words.{add32, sub32}
use drone_exploration_stack.Comm.{PointPacket, StoragePacket}
use drone_exploration_stack.Ldq.{blank_packet}
use drone_exploration_stack.Ldq.Window.{window, window_ext, window_snoc}
use drone_exploration_stack.Ldq.Invariant.{
  entry_of, entry_at, get_or, get_or-set_self, get_or-Counted, set-Counted, mod_in, contents, ring,
  IsRing,
}
use drone_exploration_stack.Ldq.Ring
use drone_exploration_stack.Ldq.Refine.{pushed}
use drone_exploration_stack.Ldq.Threads.{write_slot, read_slot}

module _ {F : Type 0} (packets : List (StoragePacket F)) (k rd wr : ℕ)
    (v : IsRing packets k rd wr) where
  -- The array after the writer has filled its slot.
  abbrev pub filled : PointPacket F → ℕ → List (StoragePacket F)
  filled p t = set packets (wr % 2 ^ k) (Ring.stored packets k rd wr v p t)

  pub write_slot-ring :
      (p : PointPacket F) (t : ℕ)
      → p.points_num ≤ length p.points
      → write_slot (ring packets k rd wr) p t ≡ ok (ring (filled p t) k rd wr)
  unfolding write_slot
  write_slot-ring p t fits = rw (Ring.slot-ok packets k rd wr v wr) (
      rw (Ring.copy_points-ok p.points_num p.points fits)
        (rw (Ring.set_slot-ok packets k rd wr v wr (Ring.stored packets k rd wr v p t)) refl))

  pub filled-IsRing :
      (p : PointPacket F) (t : ℕ) → p.points_num ≤ length p.points → IsRing (filled p t) k rd wr
  filled-IsRing p t fits = record {
    small = v.small;
    sized = length-set packets (wr % 2 ^ k) (Ring.stored packets k rd wr v p t) ∙ v.sized;
    rd_word = v.rd_word;
    wr_word = v.wr_word;
    bounded = v.bounded;
    all_counted =
        set-Counted packets (wr % 2 ^ k) (Ring.stored packets k rd wr v p t) v.all_counted
          (sym (Ring.length-take p.points_num p.points fits));
  }

  -- The filled slot is none of those that wait.
  pub filled-contents :
      (p : PointPacket F) (t : ℕ)
      → sub32 wr rd < 2 ^ k
      → contents (ring (filled p t) k rd wr) ≡ contents (ring packets k rd wr)
  filled-contents p t room =
      window_ext (entry_at (filled p t) (2 ^ k)) (entry_at packets (2 ^ k)) rd rd (sub32 wr rd)
        (λ j less.
          Ring.entry_at-set packets k rd wr v (Ring.stored packets k rd wr v p t) j room less)

  pub filled-oldest :
      (p : PointPacket F) (t : ℕ)
      → sub32 wr rd < 2 ^ k
      → 0 < sub32 wr rd
      → entry_at (filled p t) (2 ^ k) rd ≡ entry_at packets (2 ^ k) rd
  filled-oldest p t room some_used =
      let here = rd + 0 in
      let same : here ≡ rd = omega arith in
      rw same at
        (Ring.entry_at-set packets k rd wr v (Ring.stored packets k rd wr v p t) 0 room some_used)

  pub filled-newest : (p : PointPacket F) (t : ℕ) → entry_at (filled p t) (2 ^ k) wr ≡ pushed p t
  filled-newest p t = ap entry_of (
      get_or-set_self packets (wr % 2 ^ k) (Ring.stored packets k rd wr v p t)
        (mod_in packets k wr v.sized))

  pub raised-IsRing : sub32 wr rd < 2 ^ k → IsRing packets k rd (add32 wr 1)
  raised-IsRing room = record {
    small = v.small;
    sized = v.sized;
    rd_word = v.rd_word;
    wr_word = omega arith;
    bounded = omega (arith, Ring.push_used packets k rd wr v room);
    all_counted = v.all_counted;
  }

  -- The raised counter appends the entry of its slot.
  pub raised-contents :
      sub32 wr rd < 2 ^ k
      → contents (ring packets k rd (add32 wr 1))
        ≡ contents (ring packets k rd wr) ++ entry_at packets (2 ^ k) wr ∷ []
  raised-contents room = rw (Ring.push_used packets k rd wr v room) (
      window_snoc (entry_at packets (2 ^ k)) rd (sub32 wr rd)
      ∙ ap
          (λ i.
            window (entry_at packets (2 ^ k)) rd (sub32 wr rd)
            ++ entry_of (get_or packets i (blank_packet F)) ∷ [])
          (sym (Ring.write_place packets k rd wr v)))

  pub read_slot-ring :
      (out : StoragePacket F)
      → (out' : StoragePacket F) × (read_slot (ring packets k rd wr) out ≡ ok out')
        × (entry_at packets (2 ^ k) rd ≡ entry_of out')
  unfolding read_slot
  read_slot-ring out =
      let slot = get_or packets (rd % 2 ^ k) (blank_packet F) in
      let count = get_or-Counted packets (rd % 2 ^ k) v.all_counted in
      (
        record out {
          base_time = slot.base_time;
          points_num = length slot.points;
          points = slot.points;
        },
        rw (Ring.slot-ok packets k rd wr v rd)
            (rw count (rw (Ring.copy_points-all slot.points) refl)),
        refl,
      )
