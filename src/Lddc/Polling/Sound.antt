-- ===== src/Lddc/Polling/Sound.antt =====
-- The states of lddc.cpp in which no signal is missing, and the calls of lds.cpp, lddc.cpp and call_back
-- that keep them so.
use mathlib.Core.Option.{some-injective}
use mathlib.Core.Path.{subst}
use native.Mathlib.Decide.{dec_lt}
use drone_exploration_stack.Prelude.{
  ℕ, ◌≤◌, ◌<◌, ◌≡◌, ◌≢◌, refl, sym, ap, ◌∙◌, inl, inr, arith, true, false, Option, none, some, List,
  [], length, get_elem?, get_elem?-lt, lt_of_get_elem?, ok, Outcome, Bool-cases,
}
use drone_exploration_stack.Floats.{Floats}
use drone_exploration_stack.Comm.{PointPacket}
use drone_exploration_stack.Ldq.Invariant.{contents}
use drone_exploration_stack.Lds.{Lds, LidarDevice, push_lidar_data, request_exit}
use drone_exploration_stack.Lds.Invariant.{IsValid}
use drone_exploration_stack.Lds.Store.{push_lidar_data-Stored}
use drone_exploration_stack.Callback.Frame.{SameTurn, IsFramed}
use drone_exploration_stack.Lddc.{Lddc, Delivery, livox_custom_msg}
use drone_exploration_stack.Lddc.Polling.{is_sampling, distribute_point_cloud_data}
use drone_exploration_stack.Lddc.Polling.Published.{
  publish_slots, publish_slots-format, Distributed,
}
use drone_exploration_stack.Lddc.Polling.Distribute.{
  distribute_point_cloud_data-Distributed, distribute_exit, distribute_waits,
}

module _ {fl : Floats} where
  -- Where a packet waits for a sampling device, the semaphore is above 0.
  abbrev pub IsAwake : Lds fl → Type 0
  IsAwake s =
      (i : ℕ) (d : LidarDevice fl.Float)
      → get_elem? s.lidars i ≡ some d
      → is_sampling d.connect_state ≡ true
      → contents d.queue ≢ []
      → 1 ≤ s.pcd_semaphore

  -- No lidar that begins to sample has packets from before. A packet may come for a lidar that does
  -- not sample yet; the round that its signal lets through passes it over, and no signal follows
  -- when the lidar begins to sample.
  abbrev pub BeginsEmpty : Lds fl → Lds fl → Type 0
  BeginsEmpty s s' =
      (i : ℕ) (d d' : LidarDevice fl.Float)
      → get_elem? s.lidars i ≡ some d
      → get_elem? s'.lidars i ≡ some d'
      → is_sampling d.connect_state ≡ false
      → is_sampling d'.connect_state ≡ true
      → contents d'.queue ≡ []

  pub record IsSound (l : Lddc fl) : Type 0 where
    pub source : Lds fl
    pub has : l.lds ≡ some source
    pub valid : IsValid source
    pub awake : IsAwake source
    pub format : l.transfer_format ≡ livox_custom_msg

  -- What a callback leaves is sound, if no lidar begins to sample with packets from before.
  pub framed-IsSound :
      (R : LidarDevice fl.Float → LidarDevice fl.Float → Type 0) (l : Lddc fl) (s s' : Lds fl)
      → ((d d' : LidarDevice fl.Float) → R d d' → d.queue ≡ d'.queue)
      → IsSound l
      → l.lds ≡ some s
      → IsFramed R s s'
      → BeginsEmpty s s'
      → IsSound (record l { lds = some s' })
  framed-IsSound R l s s' queues sound has framed begins =
      let same : sound.source ≡ s = some-injective sound.source s (sym sound.has ∙ has) in
      let awake : IsAwake s = rw same at sound.awake in
      record {
        source = s';
        has = refl;
        valid = framed.valid;
        awake = λ i d' there is waits.
            let (d, before, related) = framed.devices i d' there in
            let up : 1 ≤ s.pcd_semaphore = elim (Bool-cases (is_sampling d.connect_state)) [
              | inl sampled ↦
                  awake i d before sampled
                    (λ none_waits. waits (ap contents (sym (queues d d' related)) ∙ none_waits))
              | inr silent ↦ absurd (waits (begins i d d' before there silent is))
            ] in
            subst (λ n. 1 ≤ n) (sym framed.signal) up;
        format = sound.format;
      }

  pub SameTurn-BeginsEmpty : (s s' : Lds fl) → IsFramed SameTurn s s' → BeginsEmpty s s'
  SameTurn-BeginsEmpty s s' framed i d d' before there silent is =
      let (e, at, (queue, state)) = framed.devices i d' there in
      let same : d ≡ e = some-injective d e (sym before ∙ at) in
      let sampled : is_sampling d.connect_state ≡ true =
        ap (λ x. is_sampling x.connect_state) same ∙ ap is_sampling state ∙ is in
      cc

  pub push-IsSound :
      (l : Lddc fl) (s s' : Lds fl) (p : PointPacket fl.Float) (i t : ℕ)
      → IsSound l
      → l.lds ≡ some s
      → i < 32
      → p.points_num ≤ length p.points
      → push_lidar_data s p i t ≡ ok s'
      → IsSound (record l { lds = some s' })
  push-IsSound l s s' p i t sound has less fits e =
      let same : sound.source ≡ s = some-injective sound.source s (sym sound.has ∙ has) in
      let (s₁, e₁, stored) = push_lidar_data-Stored s p i t (rw same at sound.valid) less fits in
      let s₁_is : s₁ ≡ s' = cc in
      record {
        source = s₁;
        has = ap some (sym s₁_is);
        valid = stored.valid;
        awake = λ j d there is waits. stored.woken;
        format = sound.format;
      }

  pub exit-IsSound :
      (l : Lddc fl) (s : Lds fl)
      → IsSound l
      → l.lds ≡ some s
      → IsSound (record l { lds = some (request_exit s) })
  unfolding request_exit
  exit-IsSound l s sound has =
      let same : sound.source ≡ s = some-injective sound.source s (sym sound.has ∙ has) in
      let v : IsValid s = rw same at sound.valid in
      record {
        source = request_exit s;
        has = refl;
        valid = record {
          devices = v.devices;
          counted = v.counted;
          indexed = v.indexed;
          rate = v.rate;
          ready = v.ready;
        };
        awake = rw same at sound.awake;
        format = sound.format;
      }

  -- After a round nothing waits for a sampling device.
  Distributed-IsAwake : (s s' : Lds fl) → length s.lidars ≡ 32 → Distributed 0 s s' → IsAwake s'
  Distributed-IsAwake s s' sized dist i d there is waits =
      let less : i < 32 = omega (arith, lt_of_get_elem? s'.lidars i d there, dist.valid.devices) in
      let (d₀, before) = get_elem?-lt s.lidars i (omega (arith, sized)) in
      let (d', after, round) = dist.polled i (omega arith) d₀ before in
      let same : d' ≡ d = some-injective d' d (sym after ∙ there) in
      let (q, only) = round.queue_only in
      let sampled : is_sampling d₀.connect_state ≡ true =
        ap (λ x. is_sampling x.connect_state) (sym only ∙ same) ∙ is in
      absurd (waits (ap (λ x. contents x.queue) (sym same) ∙ round.emptied sampled))

  result_of :
      (r r' : Lddc fl × List (Delivery fl))
      → ◌≡◌ {A = Option (Outcome (Lddc fl × List (Delivery fl)))} (some (ok r)) (some (ok r'))
      → r.0 ≡ r'.0
  result_of r r' e = let same : r ≡ r' = cc in ap (λ t. t.0) same

  no_return : (o : Outcome (Lddc fl × List (Delivery fl))) → none ≢ some o
  no_return o e = cc

  -- A round that returned left the object sound.
  pub distribute-IsSound :
      (l l' : Lddc fl) (ds : List (Delivery fl))
      → IsSound l
      → distribute_point_cloud_data l ≡ some (ok (l', ds))
      → IsSound l'
  distribute-IsSound l l' ds sound returned = elim (Bool-cases sound.source.request_exit) [
    | inl stops ↦
        let same : l ≡ l' =
          result_of (l, []) (l', ds)
            (sym (distribute_exit l sound.source sound.has stops) ∙ returned) in
        rw same at sound
    | inr running ↦ elim (dec_lt 0 sound.source.pcd_semaphore) [
      | no down ↦ absurd (
          no_return (ok (l', ds))
            (sym (distribute_waits l sound.source sound.has running (omega arith)) ∙ returned))
      | yes up ↦
          let (s', done, dist) =
            distribute_point_cloud_data-Distributed l sound.source sound.has sound.valid running up
              sound.format in
          let made = (publish_slots 32 0 l sound.source.lidars).0 in
          let same : record made { lds = some s' } ≡ l' =
            result_of _ (l', ds) (sym done ∙ returned) in
          rw (← same) (record {
            source = s';
            has = refl;
            valid = dist.valid;
            awake = Distributed-IsAwake _ s' sound.valid.devices dist;
            format = publish_slots-format 32 0 l sound.source.lidars ∙ sound.format;
          })
    ]
  ]

  pub IsSound-IsValid : (l : Lddc fl) (s : Lds fl) → IsSound l → l.lds ≡ some s → IsValid s
  IsSound-IsValid l s sound has =
      let same : sound.source ≡ s = some-injective sound.source s (sym sound.has ∙ has) in
      rw same at sound.valid
