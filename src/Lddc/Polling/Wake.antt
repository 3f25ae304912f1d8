-- ===== src/Lddc/Polling/Wake.antt =====
-- The wake-ups between `PushLidarData` of lds.cpp and `DistributePointCloudData` of lddc.cpp, with the
-- callbacks of call_back that change a lidar's state in between.
use mathlib.Core.Option.{some-injective}
use drone_exploration_stack.Prelude.{
  ℕ, ◌-◌, ◌≤◌, ◌<◌, ◌≡◌, ◌≢◌, sym, ◌∙◌, true, false, some, List, [], length, get_elem?, ok,
}
use drone_exploration_stack.Floats.{Floats}
use drone_exploration_stack.Comm.{PointPacket}
use drone_exploration_stack.Ldq.Invariant.{contents}
use drone_exploration_stack.Lds.{Lds, LidarDevice, push_lidar_data, request_exit}
use drone_exploration_stack.Lds.Invariant.{IsValid}
use drone_exploration_stack.CacheIndex.{Text}
use drone_exploration_stack.Callback.{
  Setting, Status, Command, setting_callback, lidar_info_change_callback,
}
use drone_exploration_stack.Callback.Frame.{
  SameQueue, SameTurn, setting_callback-IsFramed, lidar_info_change_callback-IsFramed,
}
use drone_exploration_stack.Lddc.{Lddc, Delivery}
use drone_exploration_stack.Lddc.Polling.{is_sampling, distribute_point_cloud_data}
use drone_exploration_stack.Lddc.Polling.Published.{publish_slots, Distributed}
use drone_exploration_stack.Lddc.Polling.Distribute.{distribute_point_cloud_data-Distributed}
use drone_exploration_stack.Lddc.Polling.Sound.{
  IsAwake, BeginsEmpty, IsSound, framed-IsSound, SameTurn-BeginsEmpty, push-IsSound, exit-IsSound,
  distribute-IsSound, IsSound-IsValid,
}

module _ {fl : Floats} (to_string : ℕ → Text) where
  -- A call of one of the threads: a packet comes for a slot, the waiting packets are published, the
  -- exit is requested, a lidar answers a setting, or the SDK reports a lidar.
  pub data Step : Lddc fl → Lddc fl → Type 0 where
    push :
        (l : Lddc fl) (s s' : Lds fl) (p : PointPacket fl.Float) (i t : ℕ)
        → l.lds ≡ some s
        → i < 32
        → p.points_num ≤ length p.points
        → push_lidar_data s p i t ≡ ok s'
        → Step l (record l { lds = some s' })
    distribute :
        (l l' : Lddc fl) (ds : List (Delivery fl))
        → distribute_point_cloud_data l ≡ some (ok (l', ds))
        → Step l l'
    exit :
        (l : Lddc fl) (s : Lds fl)
        → l.lds ≡ some s
        → Step l (record l { lds = some (request_exit s) })
    answer :
        (l : Lddc fl) (s s' : Lds fl) (t : Setting) (status : Status) (handle : ℕ)
        (cs : List (Command fl.Float))
        → l.lds ≡ some s
        → setting_callback to_string t status s handle ≡ ok (s', cs)
        → BeginsEmpty s s'
        → Step l (record l { lds = some s' })
    report :
        (l : Lddc fl) (s s' : Lds fl) (handle : ℕ) (cs : List (Command fl.Float))
        → l.lds ≡ some s
        → lidar_info_change_callback to_string s handle ≡ ok (s', cs)
        → Step l (record l { lds = some s' })

  -- What any sequence of calls can lead to.
  pub data Reach (start : Lddc fl) : Lddc fl → Type 0 where
    here : Reach start start
    later : {l l' : Lddc fl} → Reach start l → Step l l' → Reach start l'

  Step-IsSound : {l l' : Lddc fl} → Step l l' → IsSound l → IsSound l'
  Step-IsSound (push l s s' p i t has less fits e) sound =
      push-IsSound l s s' p i t sound has less fits e
  Step-IsSound (distribute l l' ds e) sound = distribute-IsSound l l' ds sound e
  Step-IsSound (exit l s has) sound = exit-IsSound l s sound has
  Step-IsSound (answer l s s' t status handle cs has run begins) sound =
      let v : IsValid s = IsSound-IsValid l s sound has in
      framed-IsSound SameQueue l s s' (λ d d' queue. queue) sound has
        (setting_callback-IsFramed to_string t status s s' handle cs v run) begins
  Step-IsSound (report l s s' handle cs has run) sound =
      let v : IsValid s = IsSound-IsValid l s sound has in
      let framed = lidar_info_change_callback-IsFramed to_string s s' handle cs v run in
      framed-IsSound SameTurn l s s' (λ d d' related. related.0) sound has framed
        (SameTurn-BeginsEmpty s s' framed)

  Reach-IsSound : {start l : Lddc fl} → Reach start l → IsSound start → IsSound l
  Reach-IsSound here sound = sound
  Reach-IsSound (later r step) sound = Step-IsSound step (Reach-IsSound r sound)

  -- From a sound state in the driver's own message format, after any order of calls in which packets
  -- come, waiting packets are published, the exit is requested, the SDK reports lidars, and lidars
  -- answer settings, but none begins to sample while packets from before wait for it: while no exit
  -- is requested and a packet waits for a sampling device, the next `DistributePointCloudData` does not
  -- wait for the semaphore; it returns, and nothing waits for a sampling device any more.
  pub distribute_after_any_calls :
      (start l : Lddc fl) (s : Lds fl) (i : ℕ) (d : LidarDevice fl.Float)
      → IsSound start
      → Reach start l
      → l.lds ≡ some s
      → s.request_exit ≡ false
      → get_elem? s.lidars i ≡ some d
      → is_sampling d.connect_state ≡ true
      → contents d.queue ≢ []
      → (s' : Lds fl) × (distribute_point_cloud_data l
          ≡ some (
              ok (
                record (publish_slots 32 0 l s.lidars).0 { lds = some s' },
                (publish_slots 32 0 l s.lidars).1,
              )))
        × Distributed 0 (record s { pcd_semaphore = s.pcd_semaphore - 1 }) s'
  distribute_after_any_calls start l s i d first r has running there is waits =
      let sound = Reach-IsSound r first in
      let same : sound.source ≡ s = some-injective sound.source s (sym sound.has ∙ has) in
      let awake : IsAwake s = rw same at sound.awake in
      distribute_point_cloud_data-Distributed l s has (rw same at sound.valid) running
        (awake i d there is waits) sound.format
