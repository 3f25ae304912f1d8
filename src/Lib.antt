-- ===== src/Lib.antt =====
-- The Livox ROS driver of this repository, ros_ws/src/livox_ros_driver2/src, in its ROS 1 build: it
-- receives UDP packets of points and IMU samples through the vendor's SDK, converts them, and hands
-- them to ROS. Paths below are in that directory.
--
-- A packet goes through the parts in this order. The SDK calls OnLivoxLidarPointCloudCallback
-- (comm/pub_handler.cpp), which queues a raw packet; the thread RawDataProcess takes it, converts its
-- points with the lidar's LidarPubHandler, and asks the timer (CheckTimer), which calls the subscriber
-- with a frame; the subscriber, Lds::StoragePointData (lds.cpp), finds the slot of each lidar of the
-- frame (comm/cache_index.cpp), pushes its points to the queue of that slot (comm/ldq.cpp), and
-- wakes the thread that publishes (comm/semaphore.cpp), which takes the packets off the queues and
-- makes ROS messages of them (lddc.cpp). Before that, lds_lidar.cpp reads the configuration
-- (parse_cfg_file) and gives the lidars their slots, and the callbacks (call_back) send a lidar its
-- settings and let it sample once it has answered.
--
-- Prelude       lists and tests over native numbers, machine words, C++ faults, std::map
-- Floats        float and double, a parameter of all that computes with them
-- Comm          comm/comm.h: the data that the parts exchange, and constants. Texts has
--               is_file_path_valid (IsFilePathValid) and replace_period_by_underline
--               (ReplacePeriodByUnderline) of comm/comm.cpp
-- Ldq           comm/ldq.h, comm/ldq.cpp: init_queue is InitQueue, queue_push_any is QueuePushAny, and
--               so on. Power, Window, Ring and Refine lead to the queue as a bounded FIFO, Null is
--               about a queue without storage. Threads has the accesses of a thread that pushes and
--               one that pops, which take no lock; Agrees, Moves and Safety are about its runs
-- CacheIndex    comm/cache_index.cpp: get_free_index is GetFreeIndex, and so on. Invariant has the
--               agreement of the map and the flags, Table their changes, Lookup the view as a partial
--               map, Failure the calls that find no slot, History any sequence of calls
-- Semaphore     comm/semaphore.cpp
-- ImuQueue      comm/lidar_imu_data_queue.cpp
-- Lds           lds.cpp and CalculatePacketQueueSize of comm/comm.cpp: push_lidar_data is
--               PushLidarData, storage_point_data is StoragePointData, and so on. Store is about a
--               frame's points, Reset about ResetLds
-- Raw           the raw points that comm/pub_handler.cpp reads out of a packet's bytes; Encode writes
--               such bytes, as the code's opposite
-- LidarHandler  LidarPubHandler of comm/pub_handler.cpp: the conversion of a packet's points; RoundTrip
--               converts a packet that Encode has written
-- PubHandler    PubHandler of comm/pub_handler.cpp; Timer has CheckTimer, Process RawDataProcess, and
--               Process/Received follows a packet from the SDK's callback through the thread, and
--               Process/Order the queue between the two
-- Lddc          lddc.cpp: Messages has the ROS messages, Publishers the table of publishers and their
--               topics (GetCurrentPublisher) and the destructor that deletes them, Polling the loops
--               over the queues. The loops return their messages; Publishers/Sending asks for the
--               publisher of each and sends it, and Publishers/Pass puts the two together. In
--               Polling, Wanted says what the messages are to be, Drain, Published, Slots and
--               Distribute are about one pass of DistributePointCloudData, Sound and Wake about its
--               semaphore between passes, Stop about the request to exit, Imu about IMU samples
-- Callback      call_back: the settings that a lidar is sent, and its answers. A call of the SDK is a
--               Command that the callback returns. Frame is about what the callbacks leave alone
-- Config        parse_cfg_file, over a parsed JSON document
-- LdsLidar      lds_lidar.cpp: the set-up of the data source from the configuration; Slots and SetUp
--               are about the slots that the lidars get
-- Node          livox_ros_driver2.cpp and driver_node.cpp: the start of the node from its parameters,
--               the two polling threads, and the end of the node (Exit)
--
-- State is passed explicitly: a method that changes its object returns the new object. A call that
-- could be undefined behaviour returns an Outcome, ok with a value or a fault: a null or dangling
-- pointer, a second delete, an access out of bounds, a division by zero. Unsigned integers are native
-- numbers with the wrap-around written out. A call is one step unless its file says otherwise; what
-- comes from outside (the clock, the SDK's packets, std::to_string, floating point) is an argument.
--
-- Fuel is used for the loops of lddc.cpp that run until a queue is empty: as much as packets wait,
-- and two rounds for the loop around them; the theorem on the polling says that the queue is empty
-- then. The other loops run a number of rounds that the code fixes beforehand (32 in
-- RoundupPowerOf2, the width of the word; the points of a packet; the packets of a frame) or over a
-- list; ReplacePeriodByUnderline gets as many rounds as its text has bytes. The bounds in the
-- theorems are the code's: 32 slots and array elements, sizes up to 2 ^ 31 for a queue, and a
-- publish rate that is at most 100 Hz.
--
-- The accesses of the unlocked queue are taken in the order of the program: a compiler or a processor
-- that reorders them is outside the model.
--
-- Calls of CacheIndex are taken not to overlap, which its mutex alone does not ensure.
--
-- Not modelled: the SDK, rapidjson and ROS themselves, which are third-party (inet_ntoa and inet_addr
-- are parameters); printing; in the node, the sleep of three seconds, the wait for ROS and the joins
-- of the threads; in lddc.h, SetPublishFrq and SetRosNode; the ROS 2 build.
pub mod Prelude
pub mod Floats
pub mod Comm
pub mod Ldq
pub mod CacheIndex
pub mod Semaphore
pub mod ImuQueue
pub mod Lds
pub mod Raw
pub mod LidarHandler
pub mod PubHandler
pub mod Lddc
pub mod Callback
pub mod Config
pub mod LdsLidar
pub mod Node
