-- ===== src/Ldq/Null.antt =====
-- `DeInitQueue` of comm/ldq.cpp on a queue that has no array.
use drone_exploration_stack.Prelude.{◌≡◌, refl, ok}
use drone_exploration_stack.Ldq.{LidarDataQueue, null, de_init_queue, delete_storage}

pub de_init_queue-null :
    {F : Type 0} (q : LidarDataQueue F)
    → q.storage_packet ≡ null
    → de_init_queue q
      ≡ ok (record { storage_packet = null; rd_idx = 0; wr_idx = 0; mask = 0; size = 0 })
unfolding de_init_queue delete_storage
de_init_queue-null q e = rw e refl
