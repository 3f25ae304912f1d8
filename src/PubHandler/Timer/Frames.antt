-- ===== src/PubHandler/Timer/Frames.antt =====
-- What the timer of comm/pub_handler.cpp publishes: the frame of a round, and what the handlers
-- keep after it.

use mathlib.Core.List.{append_assoc, append-nil}
use drone_exploration_stack.Prelude.{
  ℕ, zero, suc, ◌+◌, ◌<◌, ◌≡◌, refl, sym, ap, ◌∙◌, none, List, [], ◌∷◌, ◌++◌, length, set, take, ok,
  ◌>>=◌, arith, length-set, length-append, lt→ltb,
}
use drone_exploration_stack.Prelude.Words.{u8, u32}
use drone_exploration_stack.Prelude.Assoc.{find, insert, nat_key}
use drone_exploration_stack.Floats.{Floats}
use drone_exploration_stack.Comm.{PointXyzlt, PointPacket, livox_lidar_type}
use drone_exploration_stack.Lds.{PointFrame}
use drone_exploration_stack.LidarHandler.{
  LidarPubHandler, first_time, get_lidar_base_time, get_lidar_point_clouds,
}
use drone_exploration_stack.PubHandler.{PubHandler}
use drone_exploration_stack.PubHandler.Timer.{put_base_time, put_lidar_point, put_points, collect}

take-set :
    {A : Type 0} (xs : List A) (n : ℕ) (v : A)
    → n < length xs
    → take (suc n) (set xs n v) ≡ take n xs ++ v ∷ []
take-set [] n v h = absurd (omega arith)
take-set (x ∷ xs) zero v h = refl
take-set (x ∷ xs) (suc n) v h = ap (λ zs. x ∷ zs) (take-set xs n v (omega arith))

take-set_past : {A : Type 0} (xs : List A) (n : ℕ) (v : A) → take n (set xs n v) ≡ take n xs
take-set_past [] n v = refl
take-set_past (x ∷ xs) zero v = refl
take-set_past (x ∷ xs) (suc n) v = ap (λ zs. x ∷ zs) (take-set_past xs n v)

module _ {F : Type 0} where
  -- A frame as it is declared, with two arrays of 32.
  unfoldable pub HasRoom : PointFrame F → Type 0
  HasRoom f = (length f.base_time ≡ 32) × (length f.lidar_point ≡ 32)

  -- What a subscriber reads of a frame.
  unfoldable pub packets : PointFrame F → List (PointPacket F)
  packets f = take f.lidar_num f.lidar_point

  unfoldable pub base_times : PointFrame F → List ℕ
  base_times f = take f.lidar_num f.base_time

  -- The packet of a lidar's points, and the packets of the lidars that have some.
  unfoldable pub packet_of : ℕ → List (PointXyzlt F) → PointPacket F
  packet_of id points = record {
    handle = id;
    lidar_type = livox_lidar_type;
    points_num = u32 (length points);
    points = points;
  }

  abbrev pub packets_then : ℕ → List (PointXyzlt F) → List (PointPacket F) → List (PointPacket F)
  packets_then id [] rest = rest
  packets_then id (q ∷ qs) rest = packet_of id (q ∷ qs) ∷ rest

  abbrev pub packets_of : List (ℕ × LidarPubHandler F) → List (PointPacket F)
  packets_of [] = []
  packets_of ((id, h) ∷ hs) = packets_then id h.points_clouds (packets_of hs)

  abbrev pub times_then : List (PointXyzlt F) → List ℕ → List ℕ
  times_then [] rest = rest
  times_then (q ∷ qs) rest = q.offset_time ∷ rest

  abbrev pub times_of : List (ℕ × LidarPubHandler F) → List ℕ
  times_of [] = []
  times_of ((id, h) ∷ hs) = times_then h.points_clouds (times_of hs)

  -- A handler without its points.
  unfoldable pub emptied : LidarPubHandler F → LidarPubHandler F
  emptied h = record h { points_clouds = [] }

  -- No key stands twice.
  abbrev pub IsMap : List (ℕ × LidarPubHandler F) → Type 0
  IsMap [] = Unit {0}
  IsMap ((id, h) ∷ hs) = (find id hs ≡ none) × IsMap hs

  -- How a round of the loop changes a frame that has room.
  unfoldable pub Adds : PointFrame F → List (PointPacket F) → List ℕ → PointFrame F → Type 0
  Adds f new times f' =
      HasRoom f'
      × (f'.lidar_num ≡ f.lidar_num + length new)
      × (packets f' ≡ packets f ++ new)
      × (base_times f' ≡ base_times f ++ times)

  put_points-Adds :
      (f : PointFrame F) (id : ℕ) (points : List (PointXyzlt F))
      → HasRoom f
      → f.lidar_num < 32
      → (f' : PointFrame F) × ((put_base_time f (first_time points) >>= λ g. put_points g id points)
          ≡ ok f')
        × Adds f (packets_then id points []) (times_then points []) f'
  unfolding put_base_time put_points put_lidar_point HasRoom Adds packets base_times packet_of
  put_points-Adds f id [] room less =
      let (rb, rp) = room in
      rw (lt→ltb f.lidar_num (length f.base_time) (omega arith)) (
        record f { base_time = set f.base_time f.lidar_num 0 },
        refl,
        (
          (length-set f.base_time f.lidar_num 0 ∙ rb, rp),
          omega arith,
          sym (append-nil (take f.lidar_num f.lidar_point)),
          take-set_past f.base_time f.lidar_num 0 ∙ sym (append-nil (take f.lidar_num f.base_time)),
        ),
      )
  put_points-Adds f id (q ∷ qs) room less =
      let (rb, rp) = room in
      let next : u8 (f.lidar_num + 1) ≡ suc f.lidar_num = omega arith in
      let time = q.offset_time in
      rw (lt→ltb f.lidar_num (length f.base_time) (omega arith)) (
        rw (lt→ltb f.lidar_num (length f.lidar_point) (omega arith)) (
          _,
          refl,
          (
            (
              length-set f.base_time f.lidar_num time ∙ rb,
              length-set f.lidar_point f.lidar_num _ ∙ rp,
            ),
            omega arith,
            ap (λ n. take n (set f.lidar_point f.lidar_num (packet_of id (q ∷ qs)))) next
                ∙ take-set f.lidar_point f.lidar_num _ (omega arith),
            ap (λ n. take n (set f.base_time f.lidar_num time)) next
                ∙ take-set f.base_time f.lidar_num time (omega arith),
          ),
        ))

  pub Adds-none : (f : PointFrame F) → HasRoom f → Adds f [] [] f
  unfolding Adds
  Adds-none f room =
      (room, omega arith, sym (append-nil (packets f)), sym (append-nil (base_times f)))

  pub Adds-join :
      (f f' f'' : PointFrame F) (new new' : List (PointPacket F)) (times times' : List ℕ)
      → Adds f new times f'
      → Adds f' new' times' f''
      → Adds f (new ++ new') (times ++ times') f''
  unfolding Adds
  Adds-join f f' f'' new new' times times' (room, n, ps, bs) (room', n', ps', bs') = (
    room',
    omega (arith, length-append new new'),
    ps' ∙ ap (λ l. l ++ new') ps ∙ append_assoc (packets f) new new',
    bs' ∙ ap (λ l. l ++ times') bs ∙ append_assoc (base_times f) times times',
  )

module _ {fl : Floats} where
  -- `p` after a lidar, with the frame that came of it.
  abbrev pub collected :
      PubHandler fl → ℕ → LidarPubHandler fl.Float → PointFrame fl.Float → PubHandler fl
  collected p id h f = record p {
    frame = f;
    points = insert id h.points_clouds p.points;
    lidar_process_handlers = insert id (emptied h) p.lidar_process_handlers;
  }

  pub collect-Adds :
      (p : PubHandler fl) (id : ℕ) (h : LidarPubHandler fl.Float)
      → HasRoom p.frame
      → p.frame.lidar_num < 32
      → (f : PointFrame fl.Float) × (collect p id h ≡ ok (collected p id h f))
        × Adds p.frame (packets_then id h.points_clouds []) (times_then h.points_clouds []) f
  unfolding collect get_lidar_base_time get_lidar_point_clouds emptied
  collect-Adds p id h room less =
      let (f, e, adds) = put_points-Adds p.frame id h.points_clouds room less in
      (f, rw e refl, adds)
