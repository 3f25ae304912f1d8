-- ===== src/CacheIndex/Table.antt =====
-- How the map and the flags of comm/cache_index.cpp, of ros_ws/src/livox_ros_driver2/src, change when
-- a key is registered or unregistered.
use drone_exploration_stack.Prelude.{
  ℕ, zero, suc, ◌<◌, ◌≡◌, ◌≢◌, refl, ap, inl, inr, arith, Bool, true, false, Option, none, some,
  List, [], ◌∷◌, ◌++◌, length, get_elem?, set, lt_of_get_elem?, Option-cases, All,
}
use mathlib.Core.Option.{some-injective}
use drone_exploration_stack.Prelude.Words.{u8}
use drone_exploration_stack.Prelude.Assoc.{
  find, insert, erase, text_key, find-insert, find-erase, same_text_iff,
}
use drone_exploration_stack.CacheIndex.{
  CacheIndex, Text, key_prefix, first_free, take_slot, register, get_index, unregister,
}
use drone_exploration_stack.CacheIndex.Invariant.{
  IsValid, IsFirstFree, first_free_zero, first_free-none,
}

-- Registering a key that is new and finds a slot.
register-new :
    (c : CacheIndex) (key : Text) (i : ℕ)
    → find key c.map_index ≡ none
    → first_free c.index_cache 0 ≡ some i
    → register c key ≡ take_slot c key i
unfolding register
register-new c key i fresh e = rw (fresh, register) (rw (e, register) refl)

-- The ways in which `GetFreeIndex` ends, after its key.
pub data Registered (c : CacheIndex) (key : Text) : Option ℕ × CacheIndex → Type 0 where
  known : (i : ℕ) → find key c.map_index ≡ some i → Registered c key (some i, c)
  full :
      find key c.map_index ≡ none
      → ((j : ℕ) → j < length c.index_cache → get_elem? c.index_cache j ≡ some true)
      → Registered c key (none, c)
  added :
      (i : ℕ)
      → find key c.map_index ≡ none
      → IsFirstFree c.index_cache i
      → Registered c key (
        some (u8 i),
        record {
          map_index = insert key (u8 i) c.map_index;
          index_cache = set c.index_cache i true;
        },
      )

pub register-Registered : (c : CacheIndex) (key : Text) → Registered c key (register c key)
unfolding register take_slot
register-Registered c key = elim (Option-cases (find key c.map_index)) [
  | inr (i, e) ↦ rw (e, register) (known i e)
  | inl e ↦
      rw (e, register)
        (elim (Option-cases (first_free c.index_cache 0)) [
          | inl taken ↦ rw (taken, register) (full e (first_free-none c.index_cache 0 taken))
          | inr (i, first) ↦ rw (first, register) (added i e (first_free_zero c i first))
        ])
]

-- A slot that `GetFreeIndex` returns is below 32, and a lookup of the key finds it afterwards.
pub Registered-found :
    (c : CacheIndex) (key : Text) (r : Option ℕ × CacheIndex) (i : ℕ)
    → IsValid c
    → Registered c key r
    → r.0 ≡ some i
    → (i < 32) × (find key r.1.map_index ≡ some i)
Registered-found c key r i v (known j e) h =
    ground (arith, lt_of_get_elem? c.index_cache j true (v.marked key j e), v.width)
Registered-found c key r i v (full e taken) h = cc
Registered-found c key r i v (added j e first) h = ground (
  arith,
  lt_of_get_elem? c.index_cache j false first.free,
  v.width,
  find-insert key key (u8 j) c.map_index,
  same_text_iff key key,
)

pub Registered-others :
    (c : CacheIndex) (key k : Text) (r : Option ℕ × CacheIndex)
    → Registered c key r
    → k ≢ key
    → find k r.1.map_index ≡ find k c.map_index
Registered-others c key k r (known j e) h = refl
Registered-others c key k r (full e taken) h = refl
Registered-others c key k r (added j e first) h =
    ground (arith, find-insert key k (u8 j) c.map_index, same_text_iff k key)

pub fails :
    (c : CacheIndex) (key : Text) (r : Option ℕ × CacheIndex)
    → IsValid c
    → Registered c key r
    → r.0 ≡ none
    → (find key c.map_index ≡ none) × ((j : ℕ) → j < 32 → get_elem? c.index_cache j ≡ some true)
fails c key r v (known i e) h = cc
fails c key r v (full e taken) h = (e, λ j less. taken j (omega (arith, v.width)))
fails c key r v (added i e first) h = cc

pub taken-All :
    (slots : List Bool)
    → ((j : ℕ) → j < length slots → get_elem? slots j ≡ some true)
    → All (λ taken. taken ≡ true) slots
taken-All [] h = tt
taken-All (b ∷ slots) h =
    (some-injective b true (h 0 (omega arith)), taken-All slots (λ j less. h (suc j) (omega arith)))

pub All-taken :
    (slots : List Bool) (j : ℕ)
    → All (λ taken. taken ≡ true) slots
    → j < length slots
    → get_elem? slots j ≡ some true
All-taken [] j h less = absurd (omega arith)
All-taken (b ∷ slots) zero h less = ap some h.0
All-taken (b ∷ slots) (suc j) h less = All-taken slots j h.1 (omega arith)

pub refuses :
    (c : CacheIndex) (key : Text) (r : Option ℕ × CacheIndex)
    → IsValid c
    → Registered c key r
    → find key c.map_index ≡ none
    → ((j : ℕ) → j < 32 → get_elem? c.index_cache j ≡ some true)
    → r.0 ≡ none
refuses c key r v (known i e) missing taken = cc
refuses c key r v (full e _) missing taken = refl
refuses c key r v (added i e first) missing taken =
    let in_range = lt_of_get_elem? c.index_cache i false first.free in
    ground (arith, taken i (omega (arith, v.width)), first.free)

pub unregister_lem :
    (c : CacheIndex) (key : Text) (i : ℕ)
    → find key c.map_index ≡ some i
    → unregister c key
      ≡ record { map_index = erase key c.map_index; index_cache = set c.index_cache i false }
unfolding unregister
unregister_lem c key i e = rw (e, unregister) refl

pub erased_other :
    (c : CacheIndex) (key k : Text) → k ≢ key → find k (erase key c.map_index) ≡ find k c.map_index
erased_other c key k h = ground (arith, find-erase key k c.map_index, same_text_iff k key)

-- A slot that `GetIndex` returns is below 32.
pub get_index-lt :
    (to_string : ℕ → Text) (c : CacheIndex) (lidar_type handle i : ℕ)
    → IsValid c
    → get_index to_string c lidar_type handle ≡ some i
    → i < 32
unfolding get_index
get_index-lt to_string c lidar_type handle i v e =
    let key = key_prefix ++ to_string handle in
    let there : find key c.map_index ≡ some i = ground arith in
    omega (arith, lt_of_get_elem? c.index_cache i true (v.marked key i there), v.width)
