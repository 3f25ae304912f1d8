-- ===== src/Prelude/Assoc.antt =====
-- `std::map` as an association list with distinct keys in ascending order.
use Prim.Native.Nat.{ℕ}
use mathlib.Core.Path.{◌≡◌, refl}
use mathlib.Core.Logic.{◌↔◌}
use mathlib.Core.Bool.{Bool, true, false, ◌&&◌, ◌||◌}
use mathlib.Core.Option.{Option, none, some}
use mathlib.Core.List.{List, [], ◌∷◌}
use native.Mathlib.Omega.{arith}
use drone_exploration_stack.Prelude.Tests.{ltb, ◌==◌, ==_iff, if◌then◌else◌}

-- A type of keys: equality, with what it decides, and the order of the map.
pub record Key {ℓ} (K : Type ℓ) : Type ℓ where
  pub same : K → K → Bool
  pub same_iff : (a b : K) → (same a b ≡ true) ↔ (a ≡ b)
  pub before : K → K → Bool

instance abbrev pub nat_key : Key ℕ
nat_key = record { same = ◌==◌; same_iff = ==_iff; before = ltb }

-- Texts, as their bytes, in the lexicographic order of `std::string`.
abbrev same_text : List ℕ → List ℕ → Bool
same_text [] [] = true
same_text [] (b ∷ bs) = false
same_text (a ∷ as') [] = false
same_text (a ∷ as') (b ∷ bs) = (a == b) && same_text as' bs

abbrev before_text : List ℕ → List ℕ → Bool
before_text as' [] = false
before_text [] (b ∷ bs) = true
before_text (a ∷ as') (b ∷ bs) = ltb a b || ((a == b) && before_text as' bs)

same_text_sound : (s t : List ℕ) → same_text s t ≡ true → s ≡ t
same_text_sound [] [] e = refl
same_text_sound [] (b ∷ bs) e = cc
same_text_sound (a ∷ s) [] e = cc
same_text_sound (a ∷ s) (b ∷ t) e = ground (arith, same_text_sound s t)

same_text_refl : (s : List ℕ) → same_text s s ≡ true
same_text_refl [] = refl
same_text_refl (a ∷ s) = ground (arith, same_text_refl s)

pub same_text_iff : (s t : List ℕ) → (same_text s t ≡ true) ↔ (s ≡ t)
same_text_iff s t = (same_text_sound s t, λ e. rw e (same_text_refl t))

instance abbrev pub text_key : Key (List ℕ)
text_key = record { same = same_text; same_iff = same_text_iff; before = before_text }

pub same_refl {ℓ} : {K : Type ℓ} ⦃key : Key K⦄ (k : K) → key.same k k ≡ true
same_refl ⦃key⦄ k = (key.same_iff k k).1 refl

module _ {ℓ κ} {K : Type ℓ} {V : Type κ} ⦃key : Key K⦄ where
  abbrev pub find : K → List (K × V) → Option V
  find k [] = none
  find k ((j, v) ∷ m) = if key.same k j then some v else find k m

  -- `map[k] = v`.
  abbrev pub insert : K → V → List (K × V) → List (K × V)
  insert k v [] = (k, v) ∷ []
  insert k v ((j, w) ∷ m) =
      if key.same k j
      then (k, v) ∷ m
      else if key.before k j
      then (k, v) ∷ (j, w) ∷ m
      else (j, w) ∷ insert k v m

  abbrev pub erase : K → List (K × V) → List (K × V)
  erase k [] = []
  erase k ((j, v) ∷ m) = if key.same k j then erase k m else (j, v) ∷ erase k m

  pub find-insert :
      (k j : K) (v : V) (m : List (K × V))
      → find j (insert k v m) ≡ (if key.same j k then some v else find j m)
  find-insert k j v [] = refl
  find-insert k j v ((i, w) ∷ m) =
      ground (arith, key.same_iff k i, key.same_iff j i, key.same_iff j k, find-insert k j v m)

  pub find-erase :
      (k j : K) (m : List (K × V)) → find j (erase k m) ≡ (if key.same j k then none else find j m)
  find-erase k j [] = ground arith
  find-erase k j ((i, w) ∷ m) =
      ground (arith, key.same_iff k i, key.same_iff j i, key.same_iff j k, find-erase k j m)
