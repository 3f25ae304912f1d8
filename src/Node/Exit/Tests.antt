-- ===== src/Node/Exit/Tests.antt =====
-- The end of the thread of livox_ros_driver2.cpp, at a source where the semaphore is at 1.
use drone_exploration_stack.Prelude.{◌≡◌, refl, some, [], ok, if◌then◌else◌, ◌==◌, ◌-◌}
use drone_exploration_stack.Lds.{request_exit}
use drone_exploration_stack.Lddc.Polling.Tests.{ready_to_publish, one_packet, one_packet-IsValid}
use drone_exploration_stack.Node.{at_round, waiting, finished, request_node_exit}
use drone_exploration_stack.Node.Exit.{steps_alone, poll_thread_exit}

poll_thread_exit_example :
    let stopped = record ready_to_publish { lds = some (request_exit one_packet) } in
    (request_node_exit ready_to_publish ≡ ok stopped)
    × (steps_alone 3 at_round stopped ≡ ok (finished, stopped, []))
    × (steps_alone 3 waiting stopped ≡ (
        if one_packet.pcd_semaphore == 0
        then ok (waiting, stopped, [])
        else ok (
          finished,
          record ready_to_publish {
            lds =
                some (record (request_exit one_packet) {
                  pcd_semaphore = one_packet.pcd_semaphore - 1;
                });
          },
          [],
        )))
poll_thread_exit_example = poll_thread_exit ready_to_publish one_packet 2 refl one_packet-IsValid
