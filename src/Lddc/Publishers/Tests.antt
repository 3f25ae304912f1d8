-- ===== src/Lddc/Publishers/Tests.antt =====
-- The publishers of lddc.cpp for two lidars, with one byte for an address.
use drone_exploration_stack.Prelude.{
  ℕ, ◌+◌, ◌≡◌, ◌≢◌, refl, inl, inr, true, false, none, some, set, replicate, [], ◌∷◌, ok, arith,
}
use drone_exploration_stack.CacheIndex.{Text}
use drone_exploration_stack.Lds.{Lds, LidarDevice, element_at}
use drone_exploration_stack.Lds.Tests.{idle_device, source}
use mathlib.Core.List.{Perm}
use drone_exploration_stack.Floats.Tests.{naturals}
use drone_exploration_stack.Lddc.Tests.{distributor}
use drone_exploration_stack.Lddc.Publishers.{
  Publisher, Publishers, no_publishers, get_current_publisher, get_current_imu_publisher,
  livox_imu_msg, advertised, lidar_topic, imu_topic, advertise, kept_or_made,
}
use drone_exploration_stack.Lddc.Publishers.Closing.{all_deleted, destroy}
use drone_exploration_stack.Lddc.Publishers.Kept.{stored, get_current_publisher_lem}
use drone_exploration_stack.Lddc.Publishers.Owned.{
  Calls, constructed, lidar_call, imu_call, lidar_slot, imu_slot, destroy_after_calls,
}
use drone_exploration_stack.Lddc.Publishers.Topics.{IsAddressText, publisher_for}
use drone_exploration_stack.Lddc.Publishers.Table.{no_publishers-IsTable, publishers_distinct}

abbrev one_character : ℕ → Text
one_character a = (a + 96) ∷ []

one_character_eq : (a b : ℕ) → one_character a ≡ one_character b → a ≡ b
one_character_eq a b e = let same : a + 96 ≡ b + 96 = cc in omega arith

one_character-IsAddressText : IsAddressText one_character
one_character-IsAddressText = record {
  short = λ a. omega arith;
  no_underline = λ a. (λ e. absurd (omega arith), tt);
  distinct = λ a b small_a small_b e. one_character_eq a b e;
}

abbrev lidar_seven : LidarDevice ℕ
lidar_seven = record idle_device { handle = 7 }

abbrev lidar_nine : LidarDevice ℕ
lidar_nine = record idle_device { handle = 9 }

abbrev two_lidars : Lds naturals
two_lidars = record source { lidars = set (set source.lidars 0 lidar_seven) 1 lidar_nine }

own_topics : (no_publishers true).use_multi_topic ≡ true
unfolding no_publishers
own_topics = refl

none_in : lidar_slot (no_publishers true) 0 ≡ ok none
unfolding lidar_slot no_publishers element_at
none_in = refl

none_in_1 : lidar_slot (no_publishers true) 1 ≡ ok none
unfolding lidar_slot no_publishers element_at
none_in_1 = refl

abbrev for_seven : Publisher
for_seven = publisher_for one_character true 1 lidar_seven

abbrev for_nine : Publisher
for_nine = publisher_for one_character true 1 lidar_nine

publishers_distinct_example : for_seven ≢ for_nine
publishers_distinct_example =
    publishers_distinct one_character one_character-IsAddressText 1 two_lidars (no_publishers true)
      (stored true (no_publishers true) 0 for_seven) (no_publishers true)
      (stored true (no_publishers true) 1 for_nine) 0 1 lidar_seven lidar_nine for_seven for_nine
      (inr (inl refl))
      (no_publishers-IsTable one_character one_character-IsAddressText 1 two_lidars true) own_topics
      (no_publishers-IsTable one_character one_character-IsAddressText 1 two_lidars true) own_topics
      refl refl (omega arith) (omega arith) (omega arith) (omega arith) (λ e. absurd (omega arith))
      (get_current_publisher_lem one_character one_character-IsAddressText 1 two_lidars
        (no_publishers true) 0 lidar_seven none true own_topics refl none_in).0
      (get_current_publisher_lem one_character one_character-IsAddressText 1 two_lidars
        (no_publishers true) 1 lidar_nine none true own_topics refl none_in_1).0

-- A publisher that another call has left in the place of slot 0.
abbrev left_behind : Publisher
left_behind = advertised 0 imu_topic 9

abbrev with_left_behind : Publishers
with_left_behind = record (no_publishers true) {
  private_pub = set (replicate 32 none) 0 (some left_behind);
}

-- Two calls for points, of which the first makes the publisher that all lidars share, and one for
-- IMU samples.
abbrev cloud_publisher : Publisher
cloud_publisher = advertised 1 lidar_topic 256

abbrev imu_publisher : Publisher
imu_publisher = advertised livox_imu_msg imu_topic 256

abbrev with_clouds : Publishers
with_clouds = record (no_publishers false) { global_pub = some cloud_publisher }

abbrev with_both : Publishers
with_both = record with_clouds { global_imu_pub = some imu_publisher }

run_of_three : Calls naturals one_character 1 with_both (imu_publisher ∷ cloud_publisher ∷ [])
unfolding no_publishers get_current_publisher get_current_imu_publisher lidar_slot imu_slot
    advertise kept_or_made
run_of_three =
    imu_call with_clouds with_both (cloud_publisher ∷ []) (some source) 0 none imu_publisher
      (lidar_call with_clouds with_clouds (cloud_publisher ∷ []) (some source) 6
        (some cloud_publisher) cloud_publisher
        (lidar_call (no_publishers false) with_clouds [] (some source) 5 none cloud_publisher
          (constructed false) refl refl)
        refl refl)
      refl refl

destroy_after_calls_example :
    Perm (all_deleted (destroy distributor with_both)) (imu_publisher ∷ cloud_publisher ∷ [])
destroy_after_calls_example =
    destroy_after_calls one_character 1 distributor with_both (imu_publisher ∷ cloud_publisher ∷ [])
      run_of_three
