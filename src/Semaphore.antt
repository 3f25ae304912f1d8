-- ===== src/Semaphore.antt =====
-- comm/semaphore.h and comm/semaphore.cpp of ros_ws/src/livox_ros_driver2/src: the counter under
-- its mutex. The count starts at 0 and falls only from above 0, so it is a natural number; the
-- driver raises it only from 0 or below, so the `int` does not overflow.
use drone_exploration_stack.Prelude.{ℕ, ◌+◌, ◌-◌, ltb, Option, none, some, if◌then◌else◌}

unfoldable pub signal : ℕ → ℕ
signal count = count + 1

-- `none`: the call waits until another thread signals.
unfoldable pub wait : ℕ → Option ℕ
wait count = if ltb 0 count then some (count - 1) else none
