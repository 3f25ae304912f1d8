-- ===== src/Ldq/Threads/Safety.antt =====
-- Without a lock, and in whatever order the accesses of the two threads fall, the queue of
-- comm/ldq.cpp is a FIFO and the threads never use the same slot.
use mathlib.Core.List.{append_assoc, append-nil}
use drone_exploration_stack.Prelude.{ℕ, ◌≡◌, ◌≢◌, sym, ap, ◌∙◌, bit_and, List, [], ◌∷◌, ◌++◌, ok}
use drone_exploration_stack.Prelude.Words.{add32}
use drone_exploration_stack.Comm.{PointPacket, StoragePacket}
use drone_exploration_stack.Ldq.{LidarDataQueue, queue_pop_update}
use drone_exploration_stack.Ldq.Invariant.{Entry, entry_of, contents, ring, IsRing, IsValid}
use drone_exploration_stack.Ldq.Ring
use drone_exploration_stack.Ldq.Threads.{
  has_room, written, some_wait, copied, Threads, write_slot, read_slot, push_update, Step,
  find_room, write, raise_wr, find_packet, copy, raise_rd, Reach, start, later,
}
use drone_exploration_stack.Ldq.Threads.Moves.{
  filled, write_slot-ring, filled-IsRing, filled-contents, filled-newest, raised-IsRing,
  raised-contents, read_slot-ring,
}
use drone_exploration_stack.Ldq.Threads.Agrees.{
  WriterAgrees, ReaderAgrees, filled-ReaderAgrees, raised-ReaderAgrees, popped-WriterAgrees,
  writer_at, reader_at, used_of_not_empty, raises_wr, raises_rd, slots_apart, ok_is,
}

module _ {F : Type 0} where
  -- The ring is as in the sequential queue, and each thread's local values agree with it.
  record IsSafe (before : List (Entry F)) (s : Threads F) : Type 0 where
    packets : List (StoragePacket F)
    k : ℕ
    rd : ℕ
    wr : ℕ
    is : s.queue ≡ ring packets k rd wr
    holds : IsRing packets k rd wr
    writer_agrees : WriterAgrees packets k rd wr s.writer
    reader_agrees : ReaderAgrees packets k rd wr s.reader
    fifo : before ++ s.accepted ≡ s.taken ++ contents s.queue

  Step-IsSafe :
      {before : List (Entry F)} {s s' : Threads F} → Step s s' → IsSafe before s → IsSafe before s'
  Step-IsSafe {s = s} (find_room p t outside' fits room) f = record {
    packets = f.packets;
    k = f.k;
    rd = f.rd;
    wr = f.wr;
    is = f.is;
    holds = f.holds;
    writer_agrees = (Ring.room_of_not_full f.packets f.k f.rd f.wr f.holds (rw f.is at room), fits);
    reader_agrees = f.reader_agrees;
    fifo = f.fifo;
  }
  Step-IsSafe {s = s} (write p t q at_room done) f =
      let (room, fits) =
        writer_at f.packets f.k f.rd f.wr s.writer (has_room p t) at_room f.writer_agrees in
      let made : write_slot s.queue p t
          ≡ ok (ring (filled f.packets f.k f.rd f.wr f.holds p t) f.k f.rd f.wr) =
        rw f.is (write_slot-ring f.packets f.k f.rd f.wr f.holds p t fits) in
      let q_is : q ≡ ring (filled f.packets f.k f.rd f.wr f.holds p t) f.k f.rd f.wr = cc in
      record {
        packets = filled f.packets f.k f.rd f.wr f.holds p t;
        k = f.k;
        rd = f.rd;
        wr = f.wr;
        is = q_is;
        holds = filled-IsRing f.packets f.k f.rd f.wr f.holds p t fits;
        writer_agrees = (room, filled-newest f.packets f.k f.rd f.wr f.holds p t);
        reader_agrees =
            filled-ReaderAgrees f.packets f.k f.rd f.wr f.holds p t s.reader room f.reader_agrees;
        fifo =
            f.fifo
            ∙ ap (λ xs. s.taken ++ xs)
                (ap contents f.is
                  ∙ sym (filled-contents f.packets f.k f.rd f.wr f.holds p t room)
                  ∙ ap contents (sym q_is));
      }
  Step-IsSafe {before} {s} (raise_wr e at_written) f =
      let (room, same) =
        writer_at f.packets f.k f.rd f.wr s.writer (written e) at_written f.writer_agrees in
      let raised : push_update s.queue ≡ ring f.packets f.k f.rd (add32 f.wr 1) =
        ap push_update f.is ∙ raises_wr f.packets f.k f.rd f.wr in
      record {
        packets = f.packets;
        k = f.k;
        rd = f.rd;
        wr = add32 f.wr 1;
        is = raised;
        holds = raised-IsRing f.packets f.k f.rd f.wr f.holds room;
        writer_agrees = tt;
        reader_agrees =
            raised-ReaderAgrees f.packets f.k f.rd f.wr f.holds s.reader room f.reader_agrees;
        fifo =
            sym (append_assoc before s.accepted (e ∷ []))
            ∙ ap (λ xs. xs ++ e ∷ []) f.fifo
            ∙ append_assoc s.taken (contents s.queue) (e ∷ [])
            ∙ ap (λ xs. s.taken ++ xs)
                (ap (λ q. contents q ++ e ∷ []) f.is
                  ∙ ap (λ x. contents (ring f.packets f.k f.rd f.wr) ++ x ∷ []) (sym same)
                  ∙ sym (raised-contents f.packets f.k f.rd f.wr f.holds room)
                  ∙ ap contents (sym raised));
      }
  Step-IsSafe {s = s} (find_packet at_idle some_used) f = record {
    packets = f.packets;
    k = f.k;
    rd = f.rd;
    wr = f.wr;
    is = f.is;
    holds = f.holds;
    writer_agrees = f.writer_agrees;
    reader_agrees = used_of_not_empty f.packets f.k f.rd f.wr f.holds (rw f.is at some_used);
    fifo = f.fifo;
  }
  Step-IsSafe {s = s} (copy out out' at_wait done) f =
      let used = reader_at f.packets f.k f.rd f.wr s.reader some_wait at_wait f.reader_agrees in
      let (made, reads, same) = read_slot-ring f.packets f.k f.rd f.wr f.holds out in
      let made_is : made ≡ out' =
        ok_is made out' (sym reads ∙ ap (λ x. read_slot x out) (sym f.is) ∙ done) in
      record {
        packets = f.packets;
        k = f.k;
        rd = f.rd;
        wr = f.wr;
        is = f.is;
        holds = f.holds;
        writer_agrees = f.writer_agrees;
        reader_agrees = (used, same ∙ ap entry_of made_is);
        fifo = f.fifo;
      }
  Step-IsSafe {s = s} (raise_rd out at_copied) f =
      let (used, same) =
        reader_at f.packets f.k f.rd f.wr s.reader (copied out) at_copied f.reader_agrees in
      let raised : queue_pop_update s.queue ≡ ring f.packets f.k (add32 f.rd 1) f.wr =
        ap queue_pop_update f.is ∙ raises_rd f.packets f.k f.rd f.wr in
      let left = contents (ring f.packets f.k (add32 f.rd 1) f.wr) in
      record {
        packets = f.packets;
        k = f.k;
        rd = add32 f.rd 1;
        wr = f.wr;
        is = raised;
        holds = Ring.pop-IsRing f.packets f.k f.rd f.wr f.holds used;
        writer_agrees =
            popped-WriterAgrees f.packets f.k f.rd f.wr f.holds s.writer used f.writer_agrees;
        reader_agrees = tt;
        fifo =
            f.fifo
            ∙ ap (λ xs. s.taken ++ xs)
                (ap contents f.is
                  ∙ Ring.ring_pop-contents f.packets f.k f.rd f.wr f.holds used
                  ∙ ap (λ x. x ∷ left) same)
            ∙ sym (append_assoc s.taken (entry_of out ∷ []) left)
            ∙ ap (λ q. (s.taken ++ entry_of out ∷ []) ++ contents q) (sym raised);
      }

  Reach-IsSafe :
      {q : LidarDataQueue F} {s : Threads F} → Reach q s → IsValid q → IsSafe (contents q) s
  Reach-IsSafe {q} start v = record {
    packets = v.packets;
    k = v.k;
    rd = v.rd;
    wr = v.wr;
    is = v.is;
    holds = v.holds;
    writer_agrees = tt;
    reader_agrees = tt;
    fifo = append-nil (contents q);
  }
  Reach-IsSafe (later r step) v = Step-IsSafe step (Reach-IsSafe r v)

  -- In every order of the two threads' accesses that starts at a valid queue, the queue stays valid,
  -- and the entries taken so far, followed by those that wait, are the entries that waited at the
  -- start, followed by those accepted since: none is lost, changed, doubled or overtaken.
  pub unlocked_fifo :
      (q : LidarDataQueue F) (s : Threads F)
      → IsValid q
      → Reach q s
      → IsValid s.queue × (s.taken ++ contents s.queue ≡ contents q ++ s.accepted)
  unlocked_fifo q s v r =
      let f = Reach-IsSafe r v in
      (
        record { packets = f.packets; k = f.k; rd = f.rd; wr = f.wr; is = f.is; holds = f.holds },
        sym f.fifo,
      )

  -- In every order of accesses, a thread that is at its slot can use it without fault, and while both
  -- threads are at their slots, the slots differ.
  pub unlocked_slots :
      (q : LidarDataQueue F) (s : Threads F) (p : PointPacket F) (t : ℕ) (out : StoragePacket F)
      → IsValid q
      → Reach q s
      → s.writer ≡ has_room p t
      → s.reader ≡ some_wait
      → ((q' : LidarDataQueue F) × (write_slot s.queue p t ≡ ok q'))
        × ((out' : StoragePacket F) × (read_slot s.queue out ≡ ok out'))
        × (bit_and s.queue.wr_idx s.queue.mask ≢ bit_and s.queue.rd_idx s.queue.mask)
  unlocked_slots q s p t out v r at_room at_wait =
      let f = Reach-IsSafe r v in
      let (room, fits) =
        writer_at f.packets f.k f.rd f.wr s.writer (has_room p t) at_room f.writer_agrees in
      let used = reader_at f.packets f.k f.rd f.wr s.reader some_wait at_wait f.reader_agrees in
      let (out', reads, _) = read_slot-ring f.packets f.k f.rd f.wr f.holds out in
      (
        (
          ring (filled f.packets f.k f.rd f.wr f.holds p t) f.k f.rd f.wr,
          ap (λ x. write_slot x p t) f.is
              ∙ write_slot-ring f.packets f.k f.rd f.wr f.holds p t fits,
        ),
        (out', ap (λ x. read_slot x out) f.is ∙ reads),
        λ e. slots_apart f.packets f.k f.rd f.wr f.holds room used (
            sym (ap (λ x. bit_and x.wr_idx x.mask) f.is)
            ∙ e
            ∙ ap (λ x. bit_and x.rd_idx x.mask) f.is),
      )
