-- ===== src/CacheIndex/Lookup.antt =====
-- What the calls of `CacheIndex` return, seen as a partial map from handles to slots.
use drone_exploration_stack.Prelude.{
  ℕ, ◌<◌, ◌≡◌, ◌≢◌, refl, sym, ap, ◌∙◌, ◌↔◌, inl, inr, arith, true, false, none, some, ◌++◌,
  get_elem?, ◌==◌, if◌then◌else◌, get_elem?-set_self, lt_of_get_elem?, Bool-cases, All, ==_iff,
  ==_refl, if_true, if_false,
}
use drone_exploration_stack.Prelude.Assoc.{find, text_key, find-erase, same_text_iff}
use drone_exploration_stack.Comm.{livox_lidar_type}
use drone_exploration_stack.CacheIndex.{
  CacheIndex, Text, key_prefix, register, get_free_index, get_index, reset_index, unregister,
}
use drone_exploration_stack.CacheIndex.Invariant.{IsValid}
use drone_exploration_stack.CacheIndex.Table.{
  register-Registered, Registered-found, Registered-others, fails, taken-All, All-taken, refuses,
  unregister_lem, erased_other,
}

module _ (to_string : ℕ → Text)
    (to_string_injective : (a b : ℕ) → to_string a ≡ to_string b → a ≡ b) where
  key_of : ℕ → Text
  key_of h = key_prefix ++ to_string h

  -- Both calls, of a lidar of the type that has keys.
  get_index-find :
      (c : CacheIndex) (h : ℕ)
      → get_index to_string c livox_lidar_type h ≡ find (key_of h) c.map_index
  unfolding get_index key_of
  get_index-find c h = refl

  get_free_index-register :
      (c : CacheIndex) (h : ℕ)
      → get_free_index to_string c livox_lidar_type h ≡ register c (key_of h)
  unfolding get_free_index key_of
  get_free_index-register c h = refl

  reset_index-unregister :
      (c : CacheIndex) (h : ℕ)
      → reset_index to_string c livox_lidar_type h ≡ unregister c (key_of h)
  unfolding reset_index key_of
  reset_index-unregister c h = refl

  -- Different handles have different keys.
  key_injective : (a b : ℕ) → key_of a ≡ key_of b → a ≡ b
  unfolding key_of
  key_injective a b e = to_string_injective a b cc

  get_free_index_found :
      (c : CacheIndex) (h i : ℕ)
      → IsValid c
      → (get_free_index to_string c livox_lidar_type h).0 ≡ some i
      → let c' = (get_free_index to_string c livox_lidar_type h).1 in
        (i < 32)
        × (get_index to_string c' livox_lidar_type h ≡ some i)
        × ((j : ℕ)
            → j ≢ h
            → get_index to_string c' livox_lidar_type j ≡ get_index to_string c livox_lidar_type j)
  get_free_index_found c h i v e =
      let r = register-Registered c (key_of h) in
      let e' = rw get_free_index-register at e in
      let (small, there) = Registered-found c (key_of h) (register c (key_of h)) i v r e' in
      rw get_free_index-register (
        small,
        rw get_index-find there,
        λ j other.
            rw (get_index-find, get_index-find)
              (Registered-others c (key_of h) (key_of j) (register c (key_of h)) r
                (λ s. other (key_injective j h s))),
      )

  -- `GetFreeIndex` that succeeds gives a slot below 32, which a later `GetIndex` of the handle
  -- returns, and leaves the slots of all other handles as they were.
  pub get_free_index-lookup :
      (c : CacheIndex) (h i j : ℕ)
      → IsValid c
      → (get_free_index to_string c livox_lidar_type h).0 ≡ some i
      → (i < 32)
        × (get_index to_string (get_free_index to_string c livox_lidar_type h).1 livox_lidar_type j
            ≡ (if j == h then some i else get_index to_string c livox_lidar_type j))
  get_free_index-lookup c h i j v e =
      let (small, same, others) = get_free_index_found c h i v e in
      (
        small,
        elim (Bool-cases (j == h)) [
          | inl is ↦ rw ((==_iff j h).0 is) (same ∙ sym (if_true (h == h) _ _ (==_refl h)))
          | inr not ↦
              others j (λ at. let is = (==_iff j h).1 at in cc) ∙ sym (if_false (j == h) _ _ not)
        ],
      )

  -- `GetFreeIndex` fails exactly when the lidar has no slot and all 32 are taken.
  pub get_free_index_fails_iff :
      (c : CacheIndex) (h : ℕ)
      → IsValid c
      → ((get_free_index to_string c livox_lidar_type h).0 ≡ none) ↔ (
          (get_index to_string c livox_lidar_type h ≡ none)
          × All (λ taken. taken ≡ true) c.index_cache)
  get_free_index_fails_iff c h v =
      rw (get_free_index-register, get_index-find)
        (
          λ e.
              let (missing, taken) =
                fails c (key_of h) (register c (key_of h)) v (register-Registered c (key_of h)) e in
              (missing, taken-All c.index_cache (λ j less. taken j (omega (arith, v.width)))),
          λ p.
              refuses c (key_of h) (register c (key_of h)) v (register-Registered c (key_of h)) p.0
                (λ j less. All-taken c.index_cache j p.1 (omega (arith, v.width))),
        )

  -- Two lidars that `GetIndex` finds have different slots.
  pub get_index_distinct :
      (c : CacheIndex) (a b i j : ℕ)
      → IsValid c
      → a ≢ b
      → get_index to_string c livox_lidar_type a ≡ some i
      → get_index to_string c livox_lidar_type b ≡ some j
      → i ≢ j
  get_index_distinct c a b i j v differ ea eb same = differ (
      key_injective a b (
        v.distinct (key_of a) (key_of b) i (rw get_index-find at ea)
          (rw get_index-find at (eb ∙ ap some (sym same)))))

  reset_index_found :
      (c : CacheIndex) (h i : ℕ)
      → IsValid c
      → get_index to_string c livox_lidar_type h ≡ some i
      → let c' = reset_index to_string c livox_lidar_type h in
        (get_index to_string c' livox_lidar_type h ≡ none)
        × ((j : ℕ)
            → j ≢ h
            → get_index to_string c' livox_lidar_type j ≡ get_index to_string c livox_lidar_type j)
        × (get_elem? c'.index_cache i ≡ some false)
  reset_index_found c h i v e =
      let e' = rw get_index-find at e in
      let key = key_of h in
      rw (reset_index-unregister, unregister_lem c key i e')
        (
          rw get_index-find (ground (arith, find-erase key key c.map_index, same_text_iff key key)),
          λ j other.
              rw (get_index-find, get_index-find)
                (erased_other c key (key_of j) (λ s. other (key_injective j h s))),
          get_elem?-set_self c.index_cache i false
              (lt_of_get_elem? c.index_cache i true (v.marked key i e')),
        )

  -- After `ResetIndex` of a lidar that has a slot `GetIndex` finds it no more, finds all others as
  -- before, and the slot can be given out again.
  pub reset_index-lookup :
      (c : CacheIndex) (h i j : ℕ)
      → IsValid c
      → get_index to_string c livox_lidar_type h ≡ some i
      → (get_elem? (reset_index to_string c livox_lidar_type h).index_cache i ≡ some false)
        × (get_index to_string (reset_index to_string c livox_lidar_type h) livox_lidar_type j
            ≡ (if j == h then none else get_index to_string c livox_lidar_type j))
  reset_index-lookup c h i j v e =
      let (gone, others, free) = reset_index_found c h i v e in
      (
        free,
        elim (Bool-cases (j == h)) [
          | inl is ↦ rw ((==_iff j h).0 is) (gone ∙ sym (if_true (h == h) _ _ (==_refl h)))
          | inr not ↦
              others j (λ at. let is = (==_iff j h).1 at in cc) ∙ sym (if_false (j == h) _ _ not)
        ],
      )
