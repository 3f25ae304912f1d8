-- ===== src/CacheIndex/Invariant.antt =====
-- The invariant of `CacheIndex`: the map and the slot flags agree, and no two lidars share a slot.
use native.Mathlib.Decide.{ℕ_discrete}
use drone_exploration_stack.Prelude.{
  ℕ, zero, suc, ◌+◌, ◌<◌, ◌≡◌, ◌≢◌, refl, sym, ◌∙◌, ◌⊎◌, inl, inr, arith, Bool, true, false, none,
  some, List, [], ◌∷◌, ◌++◌, length, get_elem?, set, replicate, length-set, get_elem?-set_self,
  get_elem?-set_ne, lt_of_get_elem?, Option-cases,
}
use drone_exploration_stack.Prelude.Words.{u8}
use drone_exploration_stack.Prelude.Assoc.{
  find, insert, erase, text_key, find-insert, find-erase, same_text_iff,
}
use drone_exploration_stack.CacheIndex.{
  CacheIndex, Text, key_prefix, init, first_free, take_slot, register, get_free_index,
  lvx_get_index, reset_index, unregister,
}

pub record IsValid (c : CacheIndex) : Type 0 where
  -- There are 32 slots.
  pub width : length c.index_cache ≡ 32
  -- The slot of a lidar is taken.
  pub marked :
      (k : Text) (i : ℕ) → find k c.map_index ≡ some i → get_elem? c.index_cache i ≡ some true
  -- A slot has one lidar.
  pub distinct :
      (k j : Text) (i : ℕ) → find k c.map_index ≡ some i → find j c.map_index ≡ some i → k ≡ j
  -- A slot that is taken has a lidar.
  pub owned :
      (i : ℕ) → get_elem? c.index_cache i ≡ some true → (k : Text) × (find k c.map_index ≡ some i)

get_elem?-replicate : (n i : ℕ) → get_elem? (replicate n false) i ≢ some true
get_elem?-replicate zero i e = cc
get_elem?-replicate (suc n) zero e = cc
get_elem?-replicate (suc n) (suc i) e = get_elem?-replicate n i e

pub init-IsValid : IsValid init
unfolding init
init-IsValid = record {
  width = refl;
  marked = λ k i e. cc;
  distinct = λ k j i e e'. cc;
  owned = λ i e. absurd (get_elem?-replicate 32 i e);
}

-- The slot that `GetFreeIndex` finds is free, and every slot before it is taken.
pub record IsFirstFree (slots : List Bool) (i : ℕ) : Type 0 where
  pub free : get_elem? slots i ≡ some false
  pub lowest : (j : ℕ) → j < i → get_elem? slots j ≡ some true

pub first_free-IsFirstFree :
    (slots : List Bool) (start i : ℕ)
    → first_free slots start ≡ some i
    → (d : ℕ) × (i ≡ start + d) × IsFirstFree slots d
first_free-IsFirstFree [] start i e = cc
first_free-IsFirstFree (false ∷ slots) start i e =
    (0, ground arith, record { free = refl; lowest = λ j less. absurd (omega arith) })
first_free-IsFirstFree (true ∷ slots) start i e =
    let (d, place, first) = first_free-IsFirstFree slots (start + 1) i e in
    (suc d, omega arith, record { free = first.free; lowest = after d first })
  where
    after :
        (d : ℕ) → IsFirstFree slots d → (j : ℕ) → j < suc d → get_elem? (true ∷ slots) j ≡ some true
    after d first zero less = refl
    after d first (suc j) less = first.lowest j (omega arith)

pub first_free_zero :
    (c : CacheIndex) (i : ℕ) → first_free c.index_cache 0 ≡ some i → IsFirstFree c.index_cache i
first_free_zero c i e =
    let (d, place, first) = first_free-IsFirstFree c.index_cache 0 i e in
    let same : i ≡ d = omega arith in rw same first

-- No slot is found exactly when all are taken.
pub first_free-none :
    (slots : List Bool) (start : ℕ)
    → first_free slots start ≡ none
    → (j : ℕ) → j < length slots
    → get_elem? slots j ≡ some true
first_free-none [] start e j less = absurd (omega arith)
first_free-none (false ∷ slots) start e j less = cc
first_free-none (true ∷ slots) start e zero less = refl
first_free-none (true ∷ slots) start e (suc j) less =
    first_free-none slots (start + 1) e j (omega arith)

-- A lookup after an insertion.
found :
    (key k : Text) (i j : ℕ) (m : List (Text × ℕ))
    → find k (insert key i m) ≡ some j
    → ((k ≡ key) × (j ≡ i)) ⊎ (find k m ≡ some j)
found key k i j m e = ground (arith, find-insert key k i m, same_text_iff k key)

kept :
    (key k : Text) (i j : ℕ) (m : List (Text × ℕ))
    → find key m ≡ none
    → find k m ≡ some j
    → find k (insert key i m) ≡ some j
kept key k i j m fresh e = ground (arith, find-insert key k i m, same_text_iff k key)

take_slot-IsValid :
    (c : CacheIndex) (key : Text) (i : ℕ)
    → IsValid c
    → find key c.map_index ≡ none
    → IsFirstFree c.index_cache i
    → IsValid (take_slot c key i).1
unfolding take_slot
take_slot-IsValid c key i v fresh first =
    let in_range = lt_of_get_elem? c.index_cache i false first.free in
    let small : u8 i ≡ i = omega (arith, v.width) in
    rw small (record {
      width = length-set c.index_cache i true ∙ v.width;
      marked = λ k j e. mark k j (found key k i j c.map_index e);
      distinct = λ k k' j e e'.
          apart k k' j (found key k i j c.map_index e) (found key k' i j c.map_index e');
      owned = λ j e. own j (ℕ_discrete i j) e;
    })
  where
    cache : List Bool
    cache = c.index_cache

    found_true : get_elem? cache i ≡ some true → ⊥
    found_true e = ground (arith, first.free)

    mark :
        (k : Text) (j : ℕ)
        → ((k ≡ key) × (j ≡ i)) ⊎ (find k c.map_index ≡ some j)
        → get_elem? (set cache i true) j ≡ some true
    mark k j (inl (same, at)) =
        rw at (get_elem?-set_self cache i true (lt_of_get_elem? cache i false first.free))
    mark k j (inr old) =
        get_elem?-set_ne cache i j true (λ e. found_true (rw e (v.marked k j old)))
        ∙ v.marked k j old

    apart :
        (k k' : Text) (j : ℕ)
        → ((k ≡ key) × (j ≡ i)) ⊎ (find k c.map_index ≡ some j)
        → ((k' ≡ key) × (j ≡ i)) ⊎ (find k' c.map_index ≡ some j)
        → k ≡ k'
    apart k k' j (inl (same, at)) (inl (same', at')) = same ∙ sym same'
    apart k k' j (inl (same, at)) (inr old) = absurd (found_true (rw (← at) (v.marked k' j old)))
    apart k k' j (inr old) (inl (same, at)) = absurd (found_true (rw (← at) (v.marked k j old)))
    apart k k' j (inr old) (inr old') = v.distinct k k' j old old'

    own :
        (j : ℕ)
        → Dec (i ≡ j)
        → get_elem? (set cache i true) j ≡ some true
        → (k : Text) × (find k (insert key i c.map_index) ≡ some j)
    own j (yes at) e =
        (key, ground (arith, find-insert key key i c.map_index, same_text_iff key key))
    own j (no ne) e =
        let (k, old) = v.owned j (sym (get_elem?-set_ne cache i j true ne) ∙ e) in
        (k, kept key k i j c.map_index fresh old)

register-IsValid : (c : CacheIndex) (key : Text) → IsValid c → IsValid (register c key).1
unfolding register
register-IsValid c key v = elim (Option-cases (find key c.map_index)) [
  | inr (i, known) ↦ rw (known, register) v
  | inl fresh ↦
      rw (fresh, register)
        (elim (Option-cases (first_free c.index_cache 0)) [
          | inl full ↦ rw (full, register) v
          | inr (i, e) ↦
              rw (e, register) (take_slot-IsValid c key i v fresh (first_free_zero c i e))
        ])
]

-- A lookup after an erasure.
found_erased :
    (key k : Text) (j : ℕ) (m : List (Text × ℕ))
    → find k (erase key m) ≡ some j
    → (k ≢ key) × (find k m ≡ some j)
found_erased key k j m e = (
  λ same. ground (arith, find-erase key k m, same_text_iff k key),
  ground (arith, find-erase key k m, same_text_iff k key),
)

erase-IsValid :
    (c : CacheIndex) (key : Text) (i : ℕ)
    → IsValid c
    → find key c.map_index ≡ some i
    → IsValid
        (record { map_index = erase key c.map_index; index_cache = set c.index_cache i false })
erase-IsValid c key i v known = record {
  width = length-set c.index_cache i false ∙ v.width;
  marked = λ k j e. mark k j (found_erased key k j c.map_index e);
  distinct = λ k k' j e e'.
      v.distinct k k' j (found_erased key k j c.map_index e).1
        (found_erased key k' j c.map_index e').1;
  owned = λ j e. own j (ℕ_discrete i j) e;
}
  where
    cache : List Bool
    cache = c.index_cache

    mark :
        (k : Text) (j : ℕ)
        → (k ≢ key) × (find k c.map_index ≡ some j)
        → get_elem? (set cache i false) j ≡ some true
    mark k j (other, old) =
        get_elem?-set_ne cache i j false (λ e. other (v.distinct k key j old (rw e at known)))
        ∙ v.marked k j old

    erased :
        (k : Text) (j : ℕ)
        → i ≢ j
        → find k c.map_index ≡ some j
        → find k (erase key c.map_index) ≡ some j
    erased k j ne old = ground (arith, find-erase key k c.map_index, same_text_iff k key)

    own :
        (j : ℕ)
        → Dec (i ≡ j)
        → get_elem? (set cache i false) j ≡ some true
        → (k : Text) × (find k (erase key c.map_index) ≡ some j)
    own j (yes at) e =
        let cleared =
          get_elem?-set_self cache i false (lt_of_get_elem? cache i true (v.marked key i known)) in
        absurd (ground arith)
    own j (no ne) e =
        let (k, old) = v.owned j (sym (get_elem?-set_ne cache i j false ne) ∙ e) in
        (k, erased k j ne old)

unregister-IsValid : (c : CacheIndex) (key : Text) → IsValid c → IsValid (unregister c key)
unfolding unregister
unregister-IsValid c key v = elim (Option-cases (find key c.map_index)) [
  | inl unknown ↦ rw (unknown, unregister) v
  | inr (i, known) ↦ rw (known, unregister) (erase-IsValid c key i v known)
]

module _ (to_string : ℕ → Text) where
  -- `GetFreeIndex` keeps the invariant of the table, whether it succeeds or fails.
  pub get_free_index-IsValid :
      (c : CacheIndex) (lidar_type handle : ℕ)
      → IsValid c
      → IsValid (get_free_index to_string c lidar_type handle).1
  unfolding get_free_index
  get_free_index-IsValid c lidar_type handle v =
      ground (arith, register-IsValid c (key_prefix ++ to_string handle) v)

  -- `LvxGetIndex` keeps the invariant of the table, whether it succeeds or fails.
  pub lvx_get_index-IsValid :
      (c : CacheIndex) (lidar_type handle : ℕ)
      → IsValid c
      → IsValid (lvx_get_index to_string c lidar_type handle).1
  unfolding lvx_get_index
  lvx_get_index-IsValid c lidar_type handle v =
      ground (arith, register-IsValid c (key_prefix ++ to_string handle) v)

  -- `ResetIndex` keeps the invariant of the table, whether the lidar had a slot or not.
  pub reset_index-IsValid :
      (c : CacheIndex) (lidar_type handle : ℕ)
      → IsValid c
      → IsValid (reset_index to_string c lidar_type handle)
  unfolding reset_index
  reset_index-IsValid c lidar_type handle v =
      ground (arith, unregister-IsValid c (key_prefix ++ to_string handle) v)
