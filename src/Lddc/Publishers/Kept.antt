-- ===== src/Lddc/Publishers/Kept.antt =====
-- `GetCurrentPublisher` of lddc.cpp, whatever stands in the place of the publisher.
use drone_exploration_stack.Prelude.{
  ℕ, zero, suc, ◌≡◌, refl, sym, ap, ◌∙◌, Bool, true, false, Option, none, some, List, [], ◌∷◌,
  get_elem?, set, Outcome, ok, ◌>>=◌, if_true, if_false, lt_of_get_elem?, get_elem?-set_self,
}
use drone_exploration_stack.Floats.{Floats}
use drone_exploration_stack.CacheIndex.{Text}
use drone_exploration_stack.Lds.{Lds, LidarDevice, element_at}
use drone_exploration_stack.Lds.Store.{element_at-ok, element_at-there}
use drone_exploration_stack.Lddc.Publishers.{
  Publisher, Publishers, lidar_topic, advertise, kept_or_made, own_topic, get_current_publisher,
}
use drone_exploration_stack.Lddc.Publishers.Topics.{IsAddressText, publisher_for}
use drone_exploration_stack.Lddc.Publishers.Owned.{lidar_slot}
use drone_exploration_stack.Lddc.Publishers.Table.{own_topic-topic_of}

set-set : {A : Type 0} (xs : List A) (i : ℕ) (v : A) → set (set xs i v) i v ≡ set xs i v
set-set [] i v = refl
set-set (x ∷ xs) zero v = refl
set-set (x ∷ xs) (suc i) v = ap (λ ys. x ∷ ys) (set-set xs i v)

-- What is in a place, or else what is to be made for it.
abbrev pub present_or : Option Publisher → Publisher → Publisher
present_or none made = made
present_or (some p) made = p

-- The table with `p` in the place of slot `i`, or in the place that all slots share.
abbrev pub stored : Bool → Publishers → ℕ → Publisher → Publishers
stored true ps i p = record ps { private_pub = set ps.private_pub i (some p) }
stored false ps i p = record ps { global_pub = some p }

keeps_or_makes :
    (current : Option Publisher) (made : Outcome Publisher) (wanted : Publisher)
    → made ≡ ok wanted
    → kept_or_made current made ≡ ok (present_or current wanted)
unfolding kept_or_made
keeps_or_makes none made wanted makes = makes
keeps_or_makes (some p) made wanted makes = refl

ok_same : {A : Type 0} {a b : A} → ok a ≡ ok b → a ≡ b
ok_same e = cc

module _ {fl : Floats} (ip_num_to_string : ℕ → Text) (text : IsAddressText ip_num_to_string) where
  own_call :
      (format : ℕ) (s : Lds fl) (ps : Publishers) (i : ℕ) (d : LidarDevice fl.Float)
      (current : Option Publisher)
      → get_elem? s.lidars i ≡ some d
      → ps.use_multi_topic ≡ true
      → element_at ps.private_pub i ≡ ok current
      → let p = present_or current (publisher_for ip_num_to_string true format d) in
        get_current_publisher ip_num_to_string format (some s) ps i ≡ ok (p, stored true ps i p)
  unfolding get_current_publisher publisher_for
  own_call format s ps i d current there multi slot =
      let wanted = publisher_for ip_num_to_string true format d in
      let makes : (own_topic ip_num_to_string lidar_topic (some s) i >>= λ topic.
      ok (advertise format topic 4))
          ≡ ok wanted =
        rw (own_topic-topic_of ip_num_to_string text s i d there) refl in
      let out = keeps_or_makes current _ wanted makes in
      if_true ps.use_multi_topic _ _ multi ∙ rw slot (rw out refl)

  shared_call :
      (format : ℕ) (s : Lds fl) (ps : Publishers) (i : ℕ) (d : LidarDevice fl.Float)
      (current : Option Publisher)
      → ps.use_multi_topic ≡ false
      → ps.global_pub ≡ current
      → let p = present_or current (publisher_for ip_num_to_string false format d) in
        get_current_publisher ip_num_to_string format (some s) ps i ≡ ok (p, stored false ps i p)
  unfolding get_current_publisher publisher_for
  shared_call format s ps i d current single slot =
      let out =
        keeps_or_makes ps.global_pub (ok (advertise format lidar_topic 256))
          (advertise format lidar_topic 256) refl in
      if_false ps.use_multi_topic _ _ single
      ∙ rw out (
          ap
            (λ o.
              let p = present_or o (advertise format lidar_topic 256) in
              ok (p, stored false ps i p))
            slot)

  pub get_current_publisher_lem :
      (format : ℕ) (s : Lds fl) (ps : Publishers) (i : ℕ) (d : LidarDevice fl.Float)
      (current : Option Publisher) (multi : Bool)
      → ps.use_multi_topic ≡ multi
      → get_elem? s.lidars i ≡ some d
      → lidar_slot ps i ≡ ok current
      → let p = present_or current (publisher_for ip_num_to_string multi format d) in
        (get_current_publisher ip_num_to_string format (some s) ps i ≡ ok (p, stored multi ps i p))
        × (get_current_publisher ip_num_to_string format (some s) (stored multi ps i p) i
            ≡ ok (p, stored multi ps i p))
  unfolding lidar_slot
  get_current_publisher_lem format s ps i d current true mode there slot =
      let p = present_or current (publisher_for ip_num_to_string true format d) in
      let at : element_at ps.private_pub i ≡ ok current =
        sym (if_true ps.use_multi_topic (element_at ps.private_pub i) (ok ps.global_pub) mode)
        ∙ slot in
      let less =
        lt_of_get_elem? ps.private_pub i current (element_at-there ps.private_pub i current at) in
      let again : element_at (set ps.private_pub i (some p)) i ≡ ok (some p) =
        element_at-ok (set ps.private_pub i (some p)) i (some p)
          (get_elem?-set_self ps.private_pub i (some p) less) in
      (
        own_call format s ps i d current there mode at,
        own_call format s (stored true ps i p) i d (some p) there mode again
            ∙ ap (λ xs. ok (p, record ps { private_pub = xs })) (set-set ps.private_pub i (some p)),
      )
  get_current_publisher_lem format s ps i d current false mode there slot =
      let p = present_or current (publisher_for ip_num_to_string false format d) in
      let at : ps.global_pub ≡ current = ok_same (
        sym (if_false ps.use_multi_topic (element_at ps.private_pub i) (ok ps.global_pub) mode)
        ∙ slot) in
      (
        shared_call format s ps i d current mode at,
        shared_call format s (stored false ps i p) i d (some p) mode refl,
      )
