-- ===== src/Lib.antt =====
-- Verification of the auto-targeting system: a companion computer that follows a target in a video
-- stream and steers a flight controller. Paths are from the root of the repository; `crates/` is
-- auto-targeting/crates/.
--
-- The parts and how they interact. The frame ring in shared memory hands frames from the capture
-- process to its readers. The commander owns a state machine, a registry of watchdogs, an anti-loop
-- guard, a rate limiter and an adapter to the flight controller. Every frame it is called with the
-- offset of its target: it makes a correction, passes it through the guard and the limiter, turns it
-- into a yaw and sends it through the adapter. The bus runner feeds it the tracks of the tracker, which
-- assigns the detections of every frame to the tracks it has. A frame is converted between the formats
-- of the camera, the network and the recorder; the network runs in a process of its own, to which the
-- frames go through a socket or a shared segment, and its output becomes detections. A bridge carries
-- commands from the bus to the flight controller and its telemetry and changes of state back.
--
-- Which file models what:
--   Types          crates/common/src/types.rs: states, flight modes, telemetry
--   Settings       crates/common/src/config.rs: the commander's section
--   StateMachine   crates/commander/src/state_machine.rs: `try_transition`, `force_transition`;
--                  Diagram has the table as a relation, Requests sequences of requests
--   Watchdogs      crates/commander/src/watchdogs.rs: every method of the registry; Expiry
--                  and History
--   AntiLoop       crates/commander/src/anti_loop.rs: `process` and its parts; Bounds, Freeze, Pacing,
--                  Escalation and Accounts prove what it does
--   RateLimiter    crates/fc-adapter/src/rate_limiter.rs; Spacing
--   Fc             crates/fc-adapter/src/traits.rs: the adapter, an interface that the commander takes
--                  as an instance; Fc/Mock is crates/fc-adapter/src/mock.rs, an instance of it
--   Transform      crates/commander/src/transform.rs: the part that the commander calls
--   Commander      crates/commander/src/commander.rs: the state; Control and Update have the methods,
--                  Health the snapshot; Targets, Effects and Corrections what they do
--   Safety         crates/commander/src/safety.rs: geofence and battery; Actions
--   Shmem          crates/shmem-buffer/src: Layout is layout.rs, Config and Ring are ring.rs; the
--                  reaper is in Ring/Reaper, what the ring keeps in Ring/Producer and Ring/Log,
--                  shared slots in Ring/Sharing; Threads is ring.rs again, with the
--                  producer and its readers at the same time
--   Detections     crates/common/src/types.rs: boxes, detections and targets
--   Suppression    crates/cv-inference/src/nms.rs; Greedy
--   Assignment     crates/target-tracker/src/hungarian.rs; Scans, Rounds and Search are about the search
--                  for a row's path, Paths and Matching about the rows, Outcome about `solve`
--   Tracking       crates/target-tracker/src: Kalman is kalman.rs, Single tracker.rs and Multi
--                  multi_tracker.rs; Lock and Choice are about the one, Numbering and Growth about
--                  the other
--   Pid            crates/commander/src/pid.rs; Limits
--   BusRunner      crates/commander/src/bus_runner.rs: the loop of the commander on the bus; Idle
--   Ota            crates/commander/src/ota.rs; Install
--   Frames         crates/common/src/types.rs: the frames of the camera
--   Convert        crates/video-capture/src/convert.rs: Defs has the checks and the arithmetic, Yuyv and
--                  Planes the loops, Dispatch the choice; Sizes and Outcome
--   Bridge         crates/cv-inference/src/bridge_client.rs: Base64 (with the decoder of
--                  auto-targeting/rknn-bridge/src/bridge_main.cpp), Framing, Segment and Client;
--                  Decoding, Answers and Buffers prove what they do
--   Yolo           crates/yolov8/src/lib.rs: Candidates and Postprocess; Columns and Frame
--   FcBridge       crates/fc-bridge/src/lib.rs: Dispatch has the commands, Loop a round of the loop;
--                  Commands and Edges
--   Recorder       crates/video-recorder/src/lib.rs: the reading from the ring of Shmem, with the
--                  frames of a whole recording; Ascent
--   Base, Floats   shared helpers, and floats as an interface with the laws of IEEE 754 that are used;
--                  Floats/Milli is an instance, for runs
--
-- How code becomes a definition. A method on `&mut self` is a function to the new state and the
-- result. A mutex is held for a whole call, so that a call is one step. A reading of a clock is an
-- argument, a number of nanoseconds. Machine words wrap as in a release build where the code adds to a
-- counter, and where a conversion computes the length that it asks for; its loops are written with the
-- sizes before any wrap. A hash map is an association list, whose order stands for the unspecified order
-- of iteration. An adapter to the flight controller may answer each command in any way. Logging and the
-- texts of errors are left out.
--
-- Bounds and fuel. The loops over slots and lists are structural. The two retry loops of the consumer
-- run on the number of rounds that the code has (64 and 256); with no other process running the first
-- exchange succeeds, so that they end in the first round. The search and the path of the assignment have
-- a round for each column and one more, which is enough where they end at all. `chunks_exact` runs on the
-- length of the slice, of which every chunk takes one at least, and the loop over pairs of chroma on the
-- width, of which every round takes two.
--
-- Not modelled. In Shmem/Threads the accesses are sequentially consistent and the reaper does not run;
-- elsewhere each call runs alone. The system calls for shared memory, MAVLink, the camera, the inference
-- runtimes, the message bus, the encoder's process and the command line. The JPEG decoder, the texts of
-- JSON, the rounding of floats (to an integer, and from 64 bits to 32), what the bus takes and the
-- grants of mappings are parameters.
pub mod Base
pub mod Types
pub mod StateMachine
pub mod Watchdogs
pub mod RateLimiter
pub mod Floats
pub mod Frames
pub mod Convert
pub mod Bridge
pub mod Settings
pub mod AntiLoop
pub mod Transform
pub mod Fc
pub mod Commander
pub mod Safety
pub mod Detections
pub mod Suppression
pub mod Yolo
pub mod Recorder
pub mod Assignment
pub mod Tracking
pub mod Pid
pub mod Ota
pub mod BusRunner
pub mod FcBridge
pub mod Shmem
