-- ===== src/Lddc/Publishers/Topics.antt =====
-- The names of the topics of lddc.cpp: with a topic for each lidar, no two lidars share one.

use drone_exploration_stack.Prelude.{
  ℕ, zero, suc, ◌^◌, ◌≤◌, ◌<◌, ◌≡◌, ◌≢◌, refl, sym, ap, ◌∙◌, ◌⊎◌, inl, inr, arith, Bool, true,
  false, [], ◌∷◌, ◌++◌, map, take, length, ◌==◌, All,
}
use drone_exploration_stack.Comm.Texts.{underlined}
use drone_exploration_stack.CacheIndex.{Text}
use drone_exploration_stack.Lds.{LidarDevice}
use drone_exploration_stack.Lddc.{point_cloud_2_msg, livox_custom_msg, pcl_pxyzi_msg}
use drone_exploration_stack.Lddc.Publishers.{Publisher, advertised, lidar_topic, advertise}

-- The three formats that are advertised.
abbrev pub IsFormat : ℕ → Type 0
IsFormat format =
    (format ≡ point_cloud_2_msg) ⊎ (format ≡ livox_custom_msg) ⊎ (format ≡ pcl_pxyzi_msg)

-- `inet_ntoa` writes at most 15 characters, none of which is an underline, and no two addresses
-- alike.
pub record IsAddressText (ip_num_to_string : ℕ → Text) : Type 0 where
  pub short : (a : ℕ) → length (ip_num_to_string a) ≤ 15
  pub no_underline : (a : ℕ) → All (λ c. c ≢ b'_') (ip_num_to_string a)
  pub distinct :
      (a b : ℕ) → a < 2 ^ 32 → b < 2 ^ 32 → ip_num_to_string a ≡ ip_num_to_string b → a ≡ b

pub take_all : (n : ℕ) (xs : Text) → length xs ≤ n → take n xs ≡ xs
take_all zero [] h = refl
take_all zero (x ∷ xs) h = absurd (omega arith)
take_all (suc n) [] h = refl
take_all (suc n) (x ∷ xs) h = ap (λ ys. x ∷ ys) (take_all n xs (omega arith))

pub length-map : (xs : Text) → length (map underlined xs) ≡ length xs
length-map [] = refl
length-map (x ∷ xs) = ap suc (length-map xs)

underlined_injective : (a b : ℕ) → a ≢ b'_' → b ≢ b'_' → underlined a ≡ underlined b → a ≡ b
underlined_injective a b ha hb e = ground arith

-- Without underlines, the periods can be told again.
map_injective :
    (xs ys : Text)
    → All (λ c. c ≢ b'_') xs
    → All (λ c. c ≢ b'_') ys
    → map underlined xs ≡ map underlined ys
    → xs ≡ ys
map_injective [] [] hx hy e = refl
map_injective [] (y ∷ ys) hx hy e = cc
map_injective (x ∷ xs) [] hx hy e = cc
map_injective (x ∷ xs) (y ∷ ys) hx hy e =
    let heads : underlined x ≡ underlined y = cc in
    let tails : map underlined xs ≡ map underlined ys = cc in
    let head : x ≡ y = underlined_injective x y hx.0 hy.0 heads in
    let tail : xs ≡ ys = map_injective xs ys hx.1 hy.1 tails in cc

advertise_known :
    (format : ℕ) (topic : Text) (n : ℕ)
    → IsFormat format
    → advertise format topic n ≡ advertised format topic n
unfolding advertise
advertise_known format topic n (inl e) =
    let is : (format == 0) ≡ true = ground arith in rw is (ap (λ f. advertised f topic n) (sym e))
advertise_known format topic n (inr (inl e)) =
    let not_cloud : (format == 0) ≡ false = ground arith in
    let is : (format == 1) ≡ true = ground arith in
    rw (not_cloud, is) (ap (λ f. advertised f topic n) (sym e))
advertise_known format topic n (inr (inr e)) =
    let not_cloud : (format == 0) ≡ false = ground arith in
    let not_custom : (format == 1) ≡ false = ground arith in
    let is : (format == 2) ≡ true = ground arith in
    rw (not_cloud, not_custom, is) (ap (λ f. advertised f topic n) (sym e))

topic_eq : (f n : ℕ) (a b : Text) → advertised f a n ≡ advertised f b n → a ≡ b
topic_eq f n a b e = cc

same_tail : (front a b : Text) → front ++ a ≡ front ++ b → a ≡ b
same_tail [] a b e = e
same_tail (x ∷ xs) a b e = let rest : xs ++ a ≡ xs ++ b = cc in same_tail xs a b rest

module _ {F : Type 0} (ip_num_to_string : ℕ → Text) where
  -- The topic of a lidar's own publisher.
  abbrev pub topic_of : LidarDevice F → Text
  topic_of d = lidar_topic ++ b'_' ∷ map underlined (ip_num_to_string d.handle)

  -- The publisher that a lidar is to have: one of its own, or the one of all lidars.
  unfoldable pub publisher_for : Bool → ℕ → LidarDevice F → Publisher
  publisher_for true format d = advertise format (topic_of d) 4
  publisher_for false format d = advertise format lidar_topic 256

  -- With a topic for each lidar, two lidars of different addresses have different publishers, in each
  -- of the three formats.
  pub names_distinct :
      (format : ℕ) (d e : LidarDevice F)
      → IsAddressText ip_num_to_string
      → IsFormat format
      → d.handle < 2 ^ 32
      → e.handle < 2 ^ 32
      → d.handle ≢ e.handle
      → publisher_for true format d ≢ publisher_for true format e
  unfolding publisher_for
  names_distinct format d e text known small_d small_e apart same =
      let topics : topic_of d ≡ topic_of e = topic_eq format 4 (topic_of d) (topic_of e) (
        sym (advertise_known format (topic_of d) 4 known)
        ∙ same
        ∙ advertise_known format (topic_of e) 4 known) in
      apart (
        text.distinct d.handle e.handle small_d small_e (
          map_injective (ip_num_to_string d.handle) (ip_num_to_string e.handle)
            (text.no_underline d.handle) (text.no_underline e.handle)
            (same_tail (lidar_topic ++ b'_' ∷ []) (map underlined (ip_num_to_string d.handle))
              (map underlined (ip_num_to_string e.handle)) topics)))
