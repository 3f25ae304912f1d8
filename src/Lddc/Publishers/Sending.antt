-- ===== src/Lddc/Publishers/Sending.antt =====
-- What lddc.cpp does with its messages: it asks for the publisher of the slot, by `GetCurrentPublisher`
-- or `GetCurrentImuPublisher`, and then publishes the message or writes it to the bag file. The loops
-- of Polling return their messages in order; neither request reads what these loops change.
use drone_exploration_stack.Prelude.{
  ℕ, ◌<◌, ◌≡◌, refl, ap, ◌∙◌, arith, Bool, Option, none, some, List, [], ◌∷◌, ◌++◌, length,
  get_elem?, get_elem?-lt, Outcome, ok, ◌>>=◌, All,
}
use drone_exploration_stack.Floats.{Floats}
use drone_exploration_stack.CacheIndex.{Text}
use drone_exploration_stack.Lds.{Lds, LidarDevice}
use drone_exploration_stack.Lddc.{
  Message, Delivery, cloud2, custom, pcl, imu, published, recorded, unsent,
}
use drone_exploration_stack.Lddc.Publishers.{
  Publisher, Publishers, unadvertised, get_current_publisher, get_current_imu_publisher,
}
use drone_exploration_stack.Lddc.Publishers.Topics.{IsAddressText, publisher_for}
use drone_exploration_stack.Lddc.Publishers.Table.{IsTable, get_current_publisher-IsTable}

-- `publisher->publish(message)`, and `bag_->write(publisher->getTopic(), time, message)`.
pub data Sent (fl : Floats) : Type 0 where
  handed : Publisher → Message fl → Sent fl
  written : Publisher → fl.Double → Message fl → Sent fl

module _ {fl : Floats} (ip_num_to_string : ℕ → Text) (format : ℕ) (lds : Option (Lds fl)) where
  -- The publisher that the function for this kind of message asks for.
  pub asked_for : Publishers → ℕ → Message fl → Outcome (Publisher × Publishers)
  asked_for ps i (cloud2 m) = get_current_publisher ip_num_to_string format lds ps i
  asked_for ps i (custom m) = get_current_publisher ip_num_to_string format lds ps i
  asked_for ps i (pcl m) = get_current_publisher ip_num_to_string format lds ps i
  asked_for ps i (imu m) = get_current_imu_publisher ip_num_to_string lds ps i

  pub send_one : Publishers → Delivery fl → Outcome (Publishers × List (Sent fl))
  unfolding asked_for
  send_one ps (published i m) = do (p, ps') ← asked_for ps i m; ok (ps', handed p m ∷ [])
  send_one ps (recorded i time m) = do (p, ps') ← asked_for ps i m; ok (ps', written p time m ∷ [])
  send_one ps (unsent i m) = do (p, ps') ← asked_for ps i m; ok (ps', [])

  pub send_all : Publishers → List (Delivery fl) → Outcome (Publishers × List (Sent fl))
  unfolding send_one
  send_all ps [] = ok (ps, [])
  send_all ps (d ∷ ds) = do
    (ps', now) ← send_one ps d
    (ps'', later) ← send_all ps' ds
    ok (ps'', now ++ later)

-- A message of points in the driver's own format that is published for one of the slots.
abbrev pub IsCustom : {fl : Floats} → Delivery fl → Type 0
IsCustom (published i (custom m)) = i < 32
IsCustom (published i (cloud2 m)) = ⊥
IsCustom (published i (pcl m)) = ⊥
IsCustom (published i (imu m)) = ⊥
IsCustom (recorded i t m) = ⊥
IsCustom (unsent i m) = ⊥

-- The publisher that the lidar of a slot is to have.
abbrev pub publisher_in : {F : Type 0} → (ℕ → Text) → Bool → ℕ → Option (LidarDevice F) → Publisher
publisher_in ip_num_to_string multi format none = unadvertised
publisher_in ip_num_to_string multi format (some d) = publisher_for ip_num_to_string multi format d

module _ {fl : Floats} (ip_num_to_string : ℕ → Text) (text : IsAddressText ip_num_to_string) where
  -- What is to become of a delivery: its message goes to the publisher of the slot's lidar.
  abbrev pub wanted_sent : Bool → ℕ → Lds fl → Delivery fl → List (Sent fl)
  wanted_sent multi format s (published i m) =
      handed (publisher_in ip_num_to_string multi format (get_elem? s.lidars i)) m ∷ []
  wanted_sent multi format s (recorded i t m) = []
  wanted_sent multi format s (unsent i m) = []

  abbrev pub all_sent : Bool → ℕ → Lds fl → List (Delivery fl) → List (Sent fl)
  all_sent multi format s [] = []
  all_sent multi format s (d ∷ ds) = wanted_sent multi format s d ++ all_sent multi format s ds

  send_one-wanted :
      (format : ℕ) (s : Lds fl) (ps : Publishers) (d : Delivery fl)
      → IsTable ip_num_to_string text format s ps
      → length s.lidars ≡ 32
      → IsCustom d
      → (ps' : Publishers) × (send_one ip_num_to_string format (some s) ps d
          ≡ ok (ps', wanted_sent ps.use_multi_topic format s d))
        × IsTable ip_num_to_string text format s ps'
        × (ps'.use_multi_topic ≡ ps.use_multi_topic)
  unfolding send_one asked_for
  send_one-wanted format s ps (published i (custom m)) table sized small =
      let (d, there) = get_elem?-lt s.lidars i (omega (arith, small, sized)) in
      let (ps', given, table', mode) =
        get_current_publisher-IsTable ip_num_to_string text format s ps i d table there small in
      (ps', rw given (rw there refl), table', mode)
  send_one-wanted format s ps (published i (cloud2 m)) table sized small = absurd small
  send_one-wanted format s ps (published i (pcl m)) table sized small = absurd small
  send_one-wanted format s ps (published i (imu m)) table sized small = absurd small
  send_one-wanted format s ps (recorded i t m) table sized small = absurd small
  send_one-wanted format s ps (unsent i m) table sized small = absurd small

  -- Messages of points that are published for any of the 32 slots, in any order, all go out, in this
  -- order, each through the publisher of its slot's lidar, whether the publisher was there or is made
  -- on the way; the table of publishers is again one of such publishers.
  pub send_all_lem :
      (format : ℕ) (s : Lds fl) (ps : Publishers) (ds : List (Delivery fl))
      → IsTable ip_num_to_string text format s ps
      → length s.lidars ≡ 32
      → All IsCustom ds
      → (ps' : Publishers) × (send_all ip_num_to_string format (some s) ps ds
          ≡ ok (ps', all_sent ps.use_multi_topic format s ds))
        × IsTable ip_num_to_string text format s ps'
        × (ps'.use_multi_topic ≡ ps.use_multi_topic)
  unfolding send_all
  send_all_lem format s ps [] table sized kinds = (ps, refl, table, refl)
  send_all_lem format s ps (d ∷ ds) table sized kinds =
      let (ps₁, one, table₁, mode₁) = send_one-wanted format s ps d table sized kinds.0 in
      let (ps', rest, table', mode') = send_all_lem format s ps₁ ds table₁ sized kinds.1 in
      (
        ps',
        rw one (
            rw rest (
              ap
                (λ multi.
                  ok (ps', wanted_sent ps.use_multi_topic format s d ++ all_sent multi format s ds))
                mode₁)),
        table',
        mode' ∙ mode₁,
      )
