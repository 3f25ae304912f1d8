-- ===== src/CacheIndex/Tests.antt =====
-- The table of slots of comm/cache_index.cpp at concrete inputs, with unary texts for the numbers.
use drone_exploration_stack.Prelude.{
  ℕ, ◌<◌, ◌≡◌, ◌≢◌, ◌↔◌, refl, ap, true, false, none, some, length, get_elem?, replicate,
  length-replicate, All, ◌∙◌, sym, ◌==◌, if◌then◌else◌, arith,
}
use drone_exploration_stack.Comm.{livox_lidar_type}
use drone_exploration_stack.CacheIndex.{
  CacheIndex, Text, init, get_free_index, get_index, lvx_get_index, reset_index,
}
use drone_exploration_stack.CacheIndex.Invariant.{
  IsValid, init-IsValid, get_free_index-IsValid, lvx_get_index-IsValid, reset_index-IsValid,
}
use drone_exploration_stack.CacheIndex.Lookup.{
  get_free_index-lookup, get_free_index_fails_iff, reset_index-lookup,
}
use drone_exploration_stack.CacheIndex.History.{constructed, after_free, distinct_after_any}

abbrev pub unary : ℕ → Text
unary n = replicate n b'1'

pub unary_injective : (a b : ℕ) → unary a ≡ unary b → a ≡ b
unary_injective a b e = sym (length-replicate a b'1') ∙ ap length e ∙ length-replicate b b'1'

-- The lidar 7 has slot 0.
abbrev pub one_lidar : CacheIndex
one_lidar = (get_free_index unary init livox_lidar_type 7).1

pub one_lidar-IsValid : IsValid one_lidar
one_lidar-IsValid = get_free_index-IsValid unary init livox_lidar_type 7 init-IsValid

pub has_slot : get_index unary one_lidar livox_lidar_type 7 ≡ some 0
unfolding get_free_index get_index init
has_slot = refl

-- The lidar 9 has slot 1 then.
abbrev two_lidars : CacheIndex
two_lidars = (get_free_index unary one_lidar livox_lidar_type 9).1

first_slot : get_index unary two_lidars livox_lidar_type 7 ≡ some 0
unfolding get_free_index get_index init
first_slot = refl

second_slot : get_index unary two_lidars livox_lidar_type 9 ≡ some 1
unfolding get_free_index get_index init
second_slot = refl

next_slot : (get_free_index unary one_lidar livox_lidar_type 9).0 ≡ some 1
unfolding get_free_index init
next_slot = refl

lvx_get_index-IsValid_example : IsValid (lvx_get_index unary one_lidar livox_lidar_type 9).1
lvx_get_index-IsValid_example =
    lvx_get_index-IsValid unary one_lidar livox_lidar_type 9 one_lidar-IsValid

get_free_index-IsValid_example : IsValid (get_free_index unary one_lidar livox_lidar_type 9).1
get_free_index-IsValid_example =
    get_free_index-IsValid unary one_lidar livox_lidar_type 9 one_lidar-IsValid

reset_index-IsValid_example : IsValid (reset_index unary one_lidar livox_lidar_type 7)
reset_index-IsValid_example =
    reset_index-IsValid unary one_lidar livox_lidar_type 7 one_lidar-IsValid

get_free_index-lookup_example :
    (1 < 32)
    × (get_index unary (get_free_index unary one_lidar livox_lidar_type 9).1 livox_lidar_type 7
        ≡ (if 7 == 9 then some 1 else get_index unary one_lidar livox_lidar_type 7))
get_free_index-lookup_example =
    get_free_index-lookup unary unary_injective one_lidar 9 1 7 one_lidar-IsValid next_slot

get_free_index_fails_iff_example :
    ((get_free_index unary one_lidar livox_lidar_type 9).0 ≡ none) ↔ (
      (get_index unary one_lidar livox_lidar_type 9 ≡ none)
      × All (λ taken. taken ≡ true) one_lidar.index_cache)
get_free_index_fails_iff_example =
    get_free_index_fails_iff unary unary_injective one_lidar 9 one_lidar-IsValid

distinct_after_any_example : ◌≢◌ {A = ℕ} 0 1
distinct_after_any_example =
    distinct_after_any unary unary_injective two_lidars 7 9 0 1
      (after_free one_lidar livox_lidar_type 9 (after_free init livox_lidar_type 7 constructed))
      (λ e. omega (arith, e)) first_slot second_slot

reset_index-lookup_example :
    (get_elem? (reset_index unary one_lidar livox_lidar_type 7).index_cache 0 ≡ some false)
    × (get_index unary (reset_index unary one_lidar livox_lidar_type 7) livox_lidar_type 9
        ≡ (if 9 == 7 then none else get_index unary one_lidar livox_lidar_type 9))
reset_index-lookup_example =
    reset_index-lookup unary unary_injective one_lidar 7 0 9 one_lidar-IsValid has_slot
