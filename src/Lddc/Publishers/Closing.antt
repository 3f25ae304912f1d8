-- ===== src/Lddc/Publishers/Closing.antt =====
-- `PrepareExit` and the destructor of lddc.cpp of ros_ws/src/livox_ros_driver2/src, as built for
-- ROS 1, and the publishers that the destructor deletes. A call of the bag file, of the data source
-- or of `delete` is a value that is returned, in the order of the calls.
use mathlib.Core.List.{append_assoc, append-nil}
use drone_exploration_stack.Prelude.{
  ◌≡◌, refl, sym, ap, ◌∙◌, Bool, true, false, Option, none, some, List, [], ◌∷◌, ◌++◌,
}
use drone_exploration_stack.Floats.{Floats}
use drone_exploration_stack.Lds.{Lds}
use drone_exploration_stack.Lddc.{Lddc}
use drone_exploration_stack.Lddc.Publishers.{Publisher, Publishers}

pub data Closing : Type 0 where
  bag_closed : Closing
  lds_prepared : Closing
  deleted : Publisher → Closing

-- `if (p) delete p;`
delete_one : Option Publisher → List Closing
delete_one none = []
delete_one (some p) = deleted p ∷ []

delete_each : List (Option Publisher) → List Closing
unfolding delete_one
delete_each [] = []
delete_each (p ∷ ps) = delete_one p ++ delete_each ps

close_bag : Bool → List Closing
close_bag true = bag_closed ∷ []
close_bag false = []

module _ {fl : Floats} where
  prepare_lds : Option (Lds fl) → List Closing
  prepare_lds none = []
  prepare_lds (some s) = lds_prepared ∷ []

  pub prepare_exit : Lddc fl → Lddc fl × List Closing
  unfolding close_bag prepare_lds
  prepare_exit l =
      (record l { has_bag = false; lds = none }, close_bag l.has_bag ++ prepare_lds l.lds)

  -- The destructor.
  pub destroy : Lddc fl → Publishers → List Closing
  unfolding delete_one delete_each prepare_exit
  destroy l ps =
      delete_one ps.global_pub
      ++ (delete_one ps.global_imu_pub
          ++ ((prepare_exit l).1 ++ (delete_each ps.private_pub ++ delete_each ps.private_imu_pub)))

-- The publishers among what is closed.
abbrev pub all_deleted : List Closing → List Publisher
all_deleted [] = []
all_deleted (deleted p ∷ cs) = p ∷ all_deleted cs
all_deleted (bag_closed ∷ cs) = all_deleted cs
all_deleted (lds_prepared ∷ cs) = all_deleted cs

abbrev pub present : Option Publisher → List Publisher
present none = []
present (some p) = p ∷ []

abbrev pub all_present : List (Option Publisher) → List Publisher
all_present [] = []
all_present (p ∷ ps) = present p ++ all_present ps

abbrev pub owned : Publishers → List Publisher
owned ps =
    present ps.global_pub
    ++ (present ps.global_imu_pub ++ (all_present ps.private_pub ++ all_present ps.private_imu_pub))

delete_one-present :
    (o : Option Publisher) (cs : List Closing)
    → all_deleted (delete_one o ++ cs) ≡ present o ++ all_deleted cs
unfolding delete_one
delete_one-present none cs = refl
delete_one-present (some p) cs = refl

delete_each-all_present :
    (ps : List (Option Publisher)) (cs : List Closing)
    → all_deleted (delete_each ps ++ cs) ≡ all_present ps ++ all_deleted cs
unfolding delete_each
delete_each-all_present [] cs = refl
delete_each-all_present (p ∷ ps) cs =
    ap all_deleted (append_assoc (delete_one p) (delete_each ps) cs)
    ∙ delete_one-present p (delete_each ps ++ cs)
    ∙ ap (λ qs. present p ++ qs) (delete_each-all_present ps cs)
    ∙ sym (append_assoc (present p) (all_present ps) (all_deleted cs))

delete_each-all : (ps : List (Option Publisher)) → all_deleted (delete_each ps) ≡ all_present ps
delete_each-all ps =
    ap all_deleted (sym (append-nil (delete_each ps)))
    ∙ delete_each-all_present ps []
    ∙ append-nil (all_present ps)

calls-delete_none :
    {fl : Floats} (has_bag : Bool) (lds : Option (Lds fl)) (cs : List Closing)
    → all_deleted (close_bag has_bag ++ prepare_lds lds ++ cs) ≡ all_deleted cs
unfolding close_bag prepare_lds
calls-delete_none true none cs = refl
calls-delete_none true (some s) cs = refl
calls-delete_none false none cs = refl
calls-delete_none false (some s) cs = refl

pub destroy-owned :
    {fl : Floats} (l : Lddc fl) (ps : Publishers) → all_deleted (destroy l ps) ≡ owned ps
unfolding destroy prepare_exit
destroy-owned l ps =
    let rest = delete_each ps.private_pub ++ delete_each ps.private_imu_pub in
    delete_one-present ps.global_pub (delete_one ps.global_imu_pub ++ ((prepare_exit l).1 ++ rest))
    ∙ ap (λ qs. present ps.global_pub ++ qs)
        (delete_one-present ps.global_imu_pub ((prepare_exit l).1 ++ rest)
          ∙ ap (λ qs. present ps.global_imu_pub ++ qs)
              (calls-delete_none l.has_bag l.lds rest
                ∙ delete_each-all_present ps.private_pub (delete_each ps.private_imu_pub)
                ∙ ap (λ qs. all_present ps.private_pub ++ qs) (delete_each-all ps.private_imu_pub)))
