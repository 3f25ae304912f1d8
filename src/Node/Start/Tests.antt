-- ===== src/Node/Start/Tests.antt =====
-- The start of the node of livox_ros_driver2.cpp with one lidar in its configuration.
use drone_exploration_stack.Prelude.{◌/◌, ◌≡◌, refl, true, false, none, some, [], ◌∷◌, ok, arith}
use drone_exploration_stack.Prelude.Int.{pos}
use drone_exploration_stack.Floats.{Floats}
use drone_exploration_stack.PubHandler.{PubHandler}
use drone_exploration_stack.Floats.Tests.{naturals}
use drone_exploration_stack.CacheIndex.Tests.{unary, unary_injective}
use drone_exploration_stack.Config.Tests.{numbered, the_file, the_config, reads_the_file}
use drone_exploration_stack.PubHandler.Tests.{handler_with}
use drone_exploration_stack.LdsLidar.Slots.{HandlesAgree}
use drone_exploration_stack.Lddc.Polling.Sound.{IsSound}
use drone_exploration_stack.Node.{Params, Node, get_param, start_node}
use drone_exploration_stack.Node.Start.{ComparesRates, start_node-IsSound}

-- Rates in tenths of a hertz.
abbrev tenths : Floats
tenths = record naturals { truncate = λ n. n / 10 }

tenths-ComparesRates : ComparesRates tenths
tenths-ComparesRates = record { limit = refl; least = refl; whole = λ f h. ground arith }

abbrev the_handler : PubHandler tenths
the_handler = record {
  is_quit = (handler_with false).is_quit;
  has_points_callback = (handler_with false).has_points_callback;
  has_imu_callback = (handler_with false).has_imu_callback;
  frame = (handler_with false).frame;
  raw_packet_queue = (handler_with false).raw_packet_queue;
  publish_interval = (handler_with false).publish_interval;
  publish_interval_tolerance = (handler_with false).publish_interval_tolerance;
  publish_interval_ms = (handler_with false).publish_interval_ms;
  last_pub_time = (handler_with false).last_pub_time;
  lidar_process_handlers = (handler_with false).lidar_process_handlers;
  points = (handler_with false).points;
  lidar_extrinsics = (handler_with false).lidar_extrinsics;
  is_timestamp_sync = (handler_with false).is_timestamp_sync;
  first = (handler_with false).first;
  is_processing = (handler_with false).is_processing;
  lidar_listen_id = (handler_with false).lidar_listen_id;
}

abbrev the_params : Params tenths
the_params = record {
  xfer_format = some (pos 1);
  multi_topic = some (pos 1);
  data_src = none;
  publish_freq = some 2000;
  output_data_type = none;
  frame_id = none;
  enable_lidar_bag = none;
  enable_imu_bag = none;
}

data_src_is_raw : get_param the_params.data_src (pos 0) ≡ pos 0
unfolding get_param
data_src_is_raw = refl

format_is_custom : get_param the_params.xfer_format (pos 0) ≡ pos 1
unfolding get_param
format_is_custom = refl

start_node-IsSound_example :
    (node : Node tenths) × (start_node tenths unary numbered the_params the_handler the_file true 3
      ≡ ok node)
    × (sound : IsSound node.lddc) × HandlesAgree unary unary_injective sound.source
start_node-IsSound_example =
    start_node-IsSound tenths tenths-ComparesRates unary unary_injective numbered the_params
      the_handler the_file true 3 (true, the_config ∷ [], false) data_src_is_raw format_is_custom
      reads_the_file
