-- ===== src/Lddc/Publishers/Owned.antt =====
-- The publishers that the calls of lddc.cpp of ros_ws/src/livox_ros_driver2/src make, and those that
-- its destructor deletes.
use mathlib.Core.List.{Perm}
use mathlib.Core.List.Perm
use mathlib.Core.Path.{subst}
use drone_exploration_stack.Prelude.{
  bind_ok, ℕ, ◌*◌, ◌/◌, zero, suc, ◌≡◌, refl, sym, ◌∙◌, ◌⊎◌, inl, inr, Bool, Bool-cases, Option,
  none, some, List, [], ◌++◌, set, replicate, if◌then◌else◌, if_true, if_false, Outcome, ok, ◌>>=◌,
}
use drone_exploration_stack.Floats.{Floats}
use drone_exploration_stack.CacheIndex.{Text}
use drone_exploration_stack.Lds.{Lds, element_at}
use drone_exploration_stack.Lddc.{Lddc}
use drone_exploration_stack.Lddc.Publishers.{
  Publisher, Publishers, no_publishers, get_current_publisher, get_current_imu_publisher, own_topic,
  advertise, kept_or_made, lidar_topic, imu_topic, min_eth_packet_queue_size, livox_imu_msg,
  advertised,
}
use drone_exploration_stack.Lddc.Publishers.Closing.{
  all_present, owned, all_deleted, destroy, destroy-owned,
}
use drone_exploration_stack.Lddc.Publishers.Newly.{
  newly, kept_or_made-newly, ok_lem, owned-private_pub, owned-private_imu_pub, owned-global_pub,
  owned-global_imu_pub,
}

unfoldable pub lidar_slot : Publishers → ℕ → Outcome (Option Publisher)
lidar_slot ps i = if ps.use_multi_topic then element_at ps.private_pub i else ok ps.global_pub

unfoldable pub imu_slot : Publishers → ℕ → Outcome (Option Publisher)
imu_slot ps i = if ps.use_multi_topic then element_at ps.private_imu_pub i else ok ps.global_imu_pub

-- The end of each branch: the publisher that is kept or made is stored and returned.
stored-owned :
    (ps ps' : Publishers) (current : Option Publisher) (p : Publisher) (made : Outcome Publisher)
    (store : Publisher → Publishers)
    → ((q : Publisher)
        → (current ≡ none) ⊎ (current ≡ some q)
        → Perm (owned (store q)) (newly current q ++ owned ps))
    → ◌>>=◌ {Y = Publisher × Publishers} (kept_or_made current made) (λ q. ok (q, store q))
      ≡ ok (p, ps')
    → Perm (owned ps') (newly current p ++ owned ps)
stored-owned ps ps' current p made store grows run =
    let (q, kept, returned) =
      bind_ok (kept_or_made current made) (λ r. ok (r, store r)) (p, ps') run in
    let same : ◌≡◌ {A = Publisher × Publishers} (q, store q) (p, ps') = cc in
    subst (λ (x : Publisher × Publishers). Perm (owned x.1) (newly current x.0 ++ owned ps)) same
      (grows q (kept_or_made-newly current q made kept))

module _ {fl : Floats} (ip_num_to_string : ℕ → Text) where
  -- What a call of `GetCurrentPublisher` makes is one more to delete.
  get_current_publisher-owned :
      (format : ℕ) (lds : Option (Lds fl)) (ps ps' : Publishers) (i : ℕ)
      (current : Option Publisher) (p : Publisher)
      → lidar_slot ps i ≡ ok current
      → get_current_publisher ip_num_to_string format lds ps i ≡ ok (p, ps')
      → Perm (owned ps') (newly current p ++ owned ps)
  unfolding lidar_slot get_current_publisher
  get_current_publisher-owned format lds ps ps' i current p slot run =
      elim (Bool-cases ps.use_multi_topic) [
        | inl multi ↦
            let there : element_at ps.private_pub i ≡ ok current =
              sym
                (if_true ps.use_multi_topic (element_at ps.private_pub i) (ok ps.global_pub) multi)
              ∙ slot in
            let made = own_topic ip_num_to_string lidar_topic lds i >>= λ topic.
            ok (advertise format topic (min_eth_packet_queue_size / 8)) in
            let store : Publisher → Publishers =
              λ q. record ps { private_pub = set ps.private_pub i (some q) } in
            let opened : get_current_publisher ip_num_to_string format lds ps i
                ≡ (kept_or_made current made >>= λ q. ok (q, store q)) =
              rw multi (rw there refl) in
            stored-owned ps ps' current p made store (λ q. owned-private_pub ps i current q there)
              (sym opened ∙ run)
        | inr one ↦
            let there : ps.global_pub ≡ current = ok_lem (
              sym (if_false ps.use_multi_topic (element_at ps.private_pub i) (ok ps.global_pub) one)
              ∙ slot) in
            let made : Outcome Publisher =
              ok (advertise format lidar_topic (min_eth_packet_queue_size * 8)) in
            let store : Publisher → Publishers = λ q. record ps { global_pub = some q } in
            let opened : get_current_publisher ip_num_to_string format lds ps i
                ≡ (kept_or_made ps.global_pub made >>= λ q. ok (q, store q)) =
              rw one refl in
            subst (λ o. Perm (owned ps') (newly o p ++ owned ps)) there
              (stored-owned ps ps' ps.global_pub p made store (owned-global_pub ps)
                (sym opened ∙ run))
      ]

  -- What a call of `GetCurrentImuPublisher` makes is one more to delete.
  get_current_imu_publisher-owned :
      (lds : Option (Lds fl)) (ps ps' : Publishers) (i : ℕ) (current : Option Publisher)
      (p : Publisher)
      → imu_slot ps i ≡ ok current
      → get_current_imu_publisher ip_num_to_string lds ps i ≡ ok (p, ps')
      → Perm (owned ps') (newly current p ++ owned ps)
  unfolding imu_slot get_current_imu_publisher
  get_current_imu_publisher-owned lds ps ps' i current p slot run =
      elim (Bool-cases ps.use_multi_topic) [
        | inl multi ↦
            let there : element_at ps.private_imu_pub i ≡ ok current =
              sym (
                if_true ps.use_multi_topic (element_at ps.private_imu_pub i) (ok ps.global_imu_pub)
                  multi)
              ∙ slot in
            let made = own_topic ip_num_to_string imu_topic lds i >>= λ topic.
            ok (advertised livox_imu_msg topic (min_eth_packet_queue_size * 2)) in
            let store : Publisher → Publishers =
              λ q. record ps { private_imu_pub = set ps.private_imu_pub i (some q) } in
            let opened : get_current_imu_publisher ip_num_to_string lds ps i
                ≡ (kept_or_made current made >>= λ q. ok (q, store q)) =
              rw multi (rw there refl) in
            stored-owned ps ps' current p made store
              (λ q. owned-private_imu_pub ps i current q there) (sym opened ∙ run)
        | inr one ↦
            let there : ps.global_imu_pub ≡ current = ok_lem (
              sym (
                if_false ps.use_multi_topic (element_at ps.private_imu_pub i) (ok ps.global_imu_pub)
                  one)
              ∙ slot) in
            let made : Outcome Publisher =
              ok (advertised livox_imu_msg imu_topic (min_eth_packet_queue_size * 8)) in
            let store : Publisher → Publishers = λ q. record ps { global_imu_pub = some q } in
            let opened : get_current_imu_publisher ip_num_to_string lds ps i
                ≡ (kept_or_made ps.global_imu_pub made >>= λ q. ok (q, store q)) =
              rw one refl in
            subst (λ o. Perm (owned ps') (newly o p ++ owned ps)) there
              (stored-owned ps ps' ps.global_imu_pub p made store (owned-global_imu_pub ps)
                (sym opened ∙ run))
      ]

-- A run of the driver from its constructor on: the publishers, and those that were made, newest
-- first.
pub data Calls (fl : Floats) (ip_num_to_string : ℕ → Text) (format : ℕ)
    : Publishers → List Publisher → Type 0 where
  constructed : (multi : Bool) → Calls fl ip_num_to_string format (no_publishers multi) []
  lidar_call :
      (ps ps' : Publishers) (made : List Publisher) (lds : Option (Lds fl)) (i : ℕ)
      (current : Option Publisher) (p : Publisher)
      → Calls fl ip_num_to_string format ps made
      → lidar_slot ps i ≡ ok current
      → get_current_publisher ip_num_to_string format lds ps i ≡ ok (p, ps')
      → Calls fl ip_num_to_string format ps' (newly current p ++ made)
  imu_call :
      (ps ps' : Publishers) (made : List Publisher) (lds : Option (Lds fl)) (i : ℕ)
      (current : Option Publisher) (p : Publisher)
      → Calls fl ip_num_to_string format ps made
      → imu_slot ps i ≡ ok current
      → get_current_imu_publisher ip_num_to_string lds ps i ≡ ok (p, ps')
      → Calls fl ip_num_to_string format ps' (newly current p ++ made)

all_present-none : (n : ℕ) → all_present (replicate n none) ≡ []
all_present-none zero = refl
all_present-none (suc n) = all_present-none n

module _ {fl : Floats} (ip_num_to_string : ℕ → Text) where
  calls-owned :
      (format : ℕ) (ps : Publishers) (made : List Publisher)
      → Calls fl ip_num_to_string format ps made
      → Perm (owned ps) made
  unfolding no_publishers
  calls-owned format ps made (constructed multi) = Perm.refl []
  calls-owned format ps made (lidar_call before after old lds i current p calls slot run) =
      Perm.trans
        (get_current_publisher-owned ip_num_to_string format lds before ps i current p slot run)
        (Perm.append_left (newly current p) (calls-owned format before old calls))
  calls-owned format ps made (imu_call before after old lds i current p calls slot run) =
      Perm.trans
        (get_current_imu_publisher-owned ip_num_to_string lds before ps i current p slot run)
        (Perm.append_left (newly current p) (calls-owned format before old calls))

  -- After a run of `GetCurrentPublisher` and `GetCurrentImuPublisher` from the constructor on, with
  -- any data sources, slots and number of calls that return, the destructor deletes the publishers
  -- that the run has made, each as often as it was made, and no other.
  pub destroy_after_calls :
      (format : ℕ) (l : Lddc fl) (ps : Publishers) (made : List Publisher)
      → Calls fl ip_num_to_string format ps made
      → Perm (all_deleted (destroy l ps)) made
  destroy_after_calls format l ps made calls =
      rw (destroy-owned l ps) (calls-owned format ps made calls)
