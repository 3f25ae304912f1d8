-- ===== src/Ldq/Threads/Agrees.antt =====
-- What the place of each thread says of the ring, and that an access of the other thread keeps it.

use drone_exploration_stack.Prelude.{
  ℕ, ◌-◌, ◌^◌, ◌≤◌, ◌<◌, ◌≡◌, ◌≢◌, refl, sym, ◌∙◌, arith, bit_and, false, List, length, ok,
}
use drone_exploration_stack.Prelude.Words.{add32, sub32}
use drone_exploration_stack.Prelude.Bits.{bit_and_mask}
use drone_exploration_stack.Comm.{PointPacket, StoragePacket}
use drone_exploration_stack.Ldq.{queue_is_empty, queue_pop_update}
use drone_exploration_stack.Ldq.Invariant.{entry_of, entry_at, ring, IsRing}
use drone_exploration_stack.Ldq.Ring
use drone_exploration_stack.Ldq.Window.{add-mod-ne}
use drone_exploration_stack.Ldq.Threads.{
  Writer, outside, has_room, written, Reader, idle, some_wait, copied, push_update,
}
use drone_exploration_stack.Ldq.Threads.Moves.{filled, filled-oldest}

module _ {F : Type 0} where
  -- What the place of each thread says of the ring.
  abbrev pub WriterAgrees : List (StoragePacket F) → ℕ → ℕ → ℕ → Writer F → Type 0
  WriterAgrees packets k rd wr outside = Unit
  WriterAgrees packets k rd wr (has_room p t) =
      (sub32 wr rd < 2 ^ k) × (p.points_num ≤ length p.points)
  WriterAgrees packets k rd wr (written e) =
      (sub32 wr rd < 2 ^ k) × (entry_at packets (2 ^ k) wr ≡ e)

  abbrev pub ReaderAgrees : List (StoragePacket F) → ℕ → ℕ → ℕ → Reader F → Type 0
  ReaderAgrees packets k rd wr idle = Unit
  ReaderAgrees packets k rd wr some_wait = 0 < sub32 wr rd
  ReaderAgrees packets k rd wr (copied out) =
      (0 < sub32 wr rd) × (entry_at packets (2 ^ k) rd ≡ entry_of out)

  pub filled-ReaderAgrees :
      (packets : List (StoragePacket F)) (k rd wr : ℕ) (v : IsRing packets k rd wr)
      (p : PointPacket F) (t : ℕ) (r : Reader F)
      → sub32 wr rd < 2 ^ k
      → ReaderAgrees packets k rd wr r
      → ReaderAgrees (filled packets k rd wr v p t) k rd wr r
  filled-ReaderAgrees packets k rd wr v p t idle room a = tt
  filled-ReaderAgrees packets k rd wr v p t some_wait room a = a
  filled-ReaderAgrees packets k rd wr v p t (copied out) room (used, same) =
      (used, filled-oldest packets k rd wr v p t room used ∙ same)

  pub raised-ReaderAgrees :
      (packets : List (StoragePacket F)) (k rd wr : ℕ) (v : IsRing packets k rd wr) (r : Reader F)
      → sub32 wr rd < 2 ^ k
      → ReaderAgrees packets k rd wr r
      → ReaderAgrees packets k rd (add32 wr 1) r
  raised-ReaderAgrees packets k rd wr v idle room a = tt
  raised-ReaderAgrees packets k rd wr v some_wait room a =
      omega (arith, Ring.push_used packets k rd wr v room)
  raised-ReaderAgrees packets k rd wr v (copied out) room (used, same) =
      (omega (arith, Ring.push_used packets k rd wr v room), same)

  pub popped-WriterAgrees :
      (packets : List (StoragePacket F)) (k rd wr : ℕ) (v : IsRing packets k rd wr) (w : Writer F)
      → 0 < sub32 wr rd
      → WriterAgrees packets k rd wr w
      → WriterAgrees packets k (add32 rd 1) wr w
  popped-WriterAgrees packets k rd wr v outside used a = tt
  popped-WriterAgrees packets k rd wr v (has_room p t) used (room, fits) =
      (omega (arith, Ring.pop_used packets k rd wr v used), fits)
  popped-WriterAgrees packets k rd wr v (written e) used (room, same) =
      (omega (arith, Ring.pop_used packets k rd wr v used), same)

  -- A thread's place, put in where it is known.
  pub writer_at :
      (packets : List (StoragePacket F)) (k rd wr : ℕ) (w w' : Writer F)
      → w ≡ w'
      → WriterAgrees packets k rd wr w
      → WriterAgrees packets k rd wr w'
  writer_at packets k rd wr w w' e a = rw e at a

  pub reader_at :
      (packets : List (StoragePacket F)) (k rd wr : ℕ) (r r' : Reader F)
      → r ≡ r'
      → ReaderAgrees packets k rd wr r
      → ReaderAgrees packets k rd wr r'
  reader_at packets k rd wr r r' e a = rw e at a

  pub used_of_not_empty :
      (packets : List (StoragePacket F)) (k rd wr : ℕ)
      → IsRing packets k rd wr
      → queue_is_empty (ring packets k rd wr) ≡ false
      → 0 < sub32 wr rd
  unfolding queue_is_empty
  used_of_not_empty packets k rd wr v h = ground (arith, v.rd_word, v.wr_word)

  pub raises_wr :
      (packets : List (StoragePacket F)) (k rd wr : ℕ)
      → push_update (ring packets k rd wr) ≡ ring packets k rd (add32 wr 1)
  unfolding push_update
  raises_wr packets k rd wr = refl

  pub raises_rd :
      (packets : List (StoragePacket F)) (k rd wr : ℕ)
      → queue_pop_update (ring packets k rd wr) ≡ ring packets k (add32 rd 1) wr
  unfolding queue_pop_update
  raises_rd packets k rd wr = refl

  pub ok_is : (a b : StoragePacket F) → ok a ≡ ok b → a ≡ b
  ok_is a b e = cc

  -- A slot with room and a slot that waits are different places of the ring.
  pub slots_apart :
      (packets : List (StoragePacket F)) (k rd wr : ℕ)
      → IsRing packets k rd wr
      → sub32 wr rd < 2 ^ k
      → 0 < sub32 wr rd
      → bit_and wr (2 ^ k - 1) ≢ bit_and rd (2 ^ k - 1)
  slots_apart packets k rd wr v room used e =
      add-mod-ne (2 ^ k) rd (sub32 wr rd) used room
        (sym (Ring.write_place packets k rd wr v) ∙ sym (bit_and_mask k wr) ∙ e ∙ bit_and_mask k rd)
