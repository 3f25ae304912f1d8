-- ===== src/ImuQueue.antt =====
-- comm/lidar_imu_data_queue.h and .cpp of ros_ws/src/livox_ros_driver2/src: the queue of IMU
-- samples of a lidar, a `std::list` under a mutex, so that a call is one step.
use drone_exploration_stack.Prelude.{Bool, true, false, List, [], ◌∷◌, ◌++◌, Option, none, some}
use drone_exploration_stack.Comm.{ImuData}

abbrev pub ImuQueue : Type 0 → Type 0
ImuQueue F = List (ImuData F)

module _ {F : Type 0} where
  -- The copy that `Push` stores, field by field. It leaves out `slot`, which stays indeterminate in
  -- C++ and is never read; the model puts 0.
  pub stored_copy : ImuData F → ImuData F
  stored_copy d = record d { slot = 0 }

  pub push : ImuQueue F → ImuData F → ImuQueue F
  unfolding stored_copy
  push q d = q ++ stored_copy d ∷ []

  -- `none` is the result `false`.
  unfoldable pub pop : ImuQueue F → Option (ImuData F × ImuQueue F)
  pop [] = none
  pop (d ∷ q) = some (d, q)

  unfoldable pub empty : ImuQueue F → Bool
  empty [] = true
  empty (d ∷ q) = false

  pub clear : ImuQueue F → ImuQueue F
  clear q = []
