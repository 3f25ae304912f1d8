-- ===== src/Callback/Sampling.antt =====
-- The course of a configured lidar in call_back/livox_lidar_callback.cpp: answers in any order, and
-- when the lidar begins to sample.
use drone_exploration_stack.Prelude.{
  ℕ, ◌<◌, ◌≡◌, ◌≢◌, refl, sym, ◌∙◌, Bool, true, false, not, ◌&&◌, ◌||◌, some, List, [], ◌∷◌,
  get_elem?, set, ◌==◌, if◌then◌else◌, Outcome, ok, ◌>>=◌, Bool-cases, inl, inr, if_true, if_false,
  ==_iff, lt_of_get_elem?, get_elem?-set_self,
}
use drone_exploration_stack.Floats.{Floats}
use drone_exploration_stack.Comm.{ConnectState, sampling, livox_lidar_type}
use drone_exploration_stack.CacheIndex.{Text, get_index}
use drone_exploration_stack.Lds.{Lds, LidarDevice}
use drone_exploration_stack.Lds.Store.{element_at-ok}
use drone_exploration_stack.Callback.{
  Setting, data_type, scan_pattern, blind_spot, dual_emit, success, clear_bit, answered,
  setting_callback, get_lidar_device,
}
use drone_exploration_stack.Callback.Settings.{
  pending, among, clear_bit-pending, clear_bit-lt, none_pending_lem,
}

-- Each pending setting is among those that were answered.
pub covers : List Setting → ℕ → Bool
covers ts bits =
    (not (pending bits data_type) || among data_type ts)
    && (not (pending bits scan_pattern) || among scan_pattern ts)
    && (not (pending bits blind_spot) || among blind_spot ts)
    && (not (pending bits dual_emit) || among dual_emit ts)

covered : (p s a : Bool) → (not (p && not s) || a) ≡ (not p || (s || a))
covered true true a = refl
covered true false a = refl
covered false s a = refl

covers-clear :
    (t : Setting) (ts : List Setting) (bits : ℕ)
    → bits < 16
    → covers ts (clear_bit bits t) ≡ covers (t ∷ ts) bits
unfolding covers
covers-clear t ts bits less =
    rw
      (
        clear_bit-pending bits t data_type less,
        clear_bit-pending bits t scan_pattern less,
        clear_bit-pending bits t blind_spot less,
        clear_bit-pending bits t dual_emit less,
        covered (pending bits data_type),
        covered (pending bits scan_pattern),
        covered (pending bits blind_spot),
        covered (pending bits dual_emit),
      )
      refl

or_false : (b : Bool) → (b || false) ≡ b
or_false true = refl
or_false false = refl

covers_none : (bits : ℕ) → bits < 16 → covers [] bits ≡ (bits == 0)
unfolding covers
covers_none bits less =
    rw
      (
        none_pending_lem bits less,
        or_false (not (pending bits data_type)),
        or_false (not (pending bits scan_pattern)),
        or_false (not (pending bits blind_spot)),
        or_false (not (pending bits dual_emit)),
      )
      refl

covers_zero : (ts : List Setting) → covers ts 0 ≡ true
unfolding covers pending
covers_zero ts = refl

-- The state of a lidar after answers: sampling if they cover what was pending.
abbrev pub state_after : List Setting → ℕ → ConnectState → ConnectState
state_after ts bits state = if covers ts bits then sampling else state

state_after-step :
    (t : Setting) (ts : List Setting) (bits : ℕ) (state : ConnectState)
    → bits < 16
    → state_after ts (clear_bit bits t) (if clear_bit bits t == 0 then sampling else state)
      ≡ state_after (t ∷ ts) bits state
state_after-step t ts bits state less =
    rw (← covers-clear t ts bits less) (elim (Bool-cases (clear_bit bits t == 0)) [
      | inl gone ↦
          let cleared : clear_bit bits t ≡ 0 = (==_iff (clear_bit bits t) 0).0 gone in
          rw cleared (rw (covers_zero ts) refl)
      | inr left ↦ rw left refl
    ])

module _ {fl : Floats} (to_string : ℕ → Text) where
  -- Successful answers of a lidar, one after the other.
  pub answers : List Setting → Lds fl → ℕ → Outcome (Lds fl)
  answers [] s handle = ok s
  answers (t ∷ ts) s handle =
      setting_callback to_string t success s handle >>= λ r. answers ts r.0 handle

  setting_callback-answered :
      (t : Setting) (s : Lds fl) (handle i : ℕ) (d : LidarDevice fl.Float)
      → get_index to_string s.cache_index livox_lidar_type handle ≡ some i
      → get_elem? s.lidars i ≡ some d
      → setting_callback to_string t success s handle
        ≡ ok (record s { lidars = set s.lidars i (answered t d) }, [])
  unfolding setting_callback get_lidar_device
  setting_callback-answered t s handle i d known there =
      rw (known, setting_callback) (rw (element_at-ok s.lidars i d there) refl)

  answers_from :
      (ts : List Setting) (s : Lds fl) (handle i : ℕ) (d : LidarDevice fl.Float)
      → get_index to_string s.cache_index livox_lidar_type handle ≡ some i
      → get_elem? s.lidars i ≡ some d
      → d.livox_config.set_bits < 16
      → (d.livox_config.set_bits ≡ 0 → d.connect_state ≡ sampling)
      → (s' : Lds fl) × (d' : LidarDevice fl.Float) × (answers ts s handle ≡ ok s')
        × (get_elem? s'.lidars i ≡ some d')
        × (d'.connect_state ≡ state_after ts d.livox_config.set_bits d.connect_state)
  unfolding answers answered
  answers_from [] s handle i d known there small settled = (
    s,
    d,
    refl,
    there,
    elim (Bool-cases (d.livox_config.set_bits == 0)) [
      | inl zero_left ↦
          settled ((==_iff d.livox_config.set_bits 0).0 zero_left)
          ∙ sym (if_true _ _ _ (covers_none d.livox_config.set_bits small ∙ zero_left))
      | inr some_left ↦ sym (if_false _ _ _ (covers_none d.livox_config.set_bits small ∙ some_left))
    ],
  )
  answers_from (t ∷ ts) s handle i d known there small settled =
      let bits = clear_bit d.livox_config.set_bits t in
      let (s', d', done, there', state) =
        answers_from ts (record s { lidars = set s.lidars i (answered t d) }) handle i
          (answered t d) known
          (get_elem?-set_self s.lidars i (answered t d) (lt_of_get_elem? s.lidars i d there))
          (clear_bit-lt d.livox_config.set_bits t small)
          (λ z. if_true (bits == 0) _ _ ((==_iff bits 0).1 z)) in
      (
        s',
        d',
        rw (setting_callback-answered t s handle i d known there) done,
        there',
        state ∙ state_after-step t ts d.livox_config.set_bits d.connect_state small,
      )

  -- Whatever settings a lidar with a slot answers successfully, in whatever order and how often, the
  -- callbacks succeed; the lidar is sampling afterwards if the answers cover all the settings that
  -- were pending, and is in its former state if they do not. Some setting is pending at first, of
  -- the four that there are.
  pub answers_lem :
      (ts : List Setting) (s : Lds fl) (handle i : ℕ) (d : LidarDevice fl.Float)
      → get_index to_string s.cache_index livox_lidar_type handle ≡ some i
      → get_elem? s.lidars i ≡ some d
      → d.livox_config.set_bits < 16
      → d.livox_config.set_bits ≢ 0
      → (s' : Lds fl) × (d' : LidarDevice fl.Float) × (answers ts s handle ≡ ok s')
        × (get_elem? s'.lidars i ≡ some d')
        × (d'.connect_state
            ≡ (if covers ts d.livox_config.set_bits then sampling else d.connect_state))
  answers_lem ts s handle i d known there small some_pending =
      answers_from ts s handle i d known there small (λ z. absurd (some_pending z))
