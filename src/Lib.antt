-- ===== src/Lib.antt =====
-- VisionTactile-Dataset: what of the capture and tracking software is modelled, and what is proved.
--
-- The repository records synchronized camera, tactile and tracker data. A capture is driven by a
-- controller on the host (ros2_ws/src/vt_realsense_capture): it takes START and STOP commands, keeps
-- the lifecycle of a session in a state machine, writes the session's files, and runs `ros2 bag
-- record` as a process that it must end in a known way. A tracker publisher
-- (ros2_ws/src/vt_vive_tracker) reads poses, puts the samples into a bounded queue, and keeps a health
-- book of each tracker, from which status messages are made. The offline tools under tools/ align
-- and calibrate what was recorded.
--
-- Files, and the code that each is about:
--   Common and its children: texts, tests on numbers, lists, Python's dictionaries in the order of
--     insertion (Common.Dict), `deque` with a bound (Common.Deque), Python's int (Common.Int), and a
--     method call as state and an exception (Common.Monad); the state survives a raise, since what was
--     written stays written.
--   Capture.Session: vt_realsense_capture/session.py. `CaptureStateMachine` is a record, each of its
--     methods a function of the same name, its `_requests` a dictionary, its errors constructors of
--     `Error`. Below it: the diagram of states (Lifecycle), the invariant (Invariant), retries
--     (Requests), and sequences of calls (Traces).
--   Capture.Facts: the facts of vt_realsense_capture/controller.py, and `Env`, the collaborators that
--     the controller is given: clock, session store, qos writer, recorder, sinks. They are parameters:
--     each, the clock included, answers or raises as a function of the calls so far, and what a theorem
--     assumes of an answer is among its hypotheses.
--   Capture.Controller: `CaptureController` of the same file; its `accept` is in Commands, the START
--     path in Start, and tick, shutdown and finalization in Finalization. Below it:
--     the invariant (Invariant, Runs), retries (Idempotence), the recorder's owner after a START
--     (Owning, Ownership), and the ends of a capture (Ending, Ticking).
--   Capture.Recorder: `RecorderProcess` of vt_realsense_capture/recorder.py. The operating system is the
--     parameter `Os`: spawning, polling, signalling, waiting and the log file answer, or raise, as a function of the
--     trace of calls so far. A wait is by its whole seconds, and a reason text by a constructor.
--   Tracker.Health: `TrackerHealthBook` of vt_vive_tracker/health.py; each method holds the lock from
--     its first read to its last write, so that it is one step. Runs has sequences of calls, Reports
--     what a report does.
--   Tracker.Queue: `BoundedSampleQueue` of the same file, with the health book as part of its state.
--   Tracker.Samples and Tracker.Roles: `NativePose`, `StampedTrackerSample` and `normalize_pose` of
--     vt_vive_tracker/model.py, `RoleMap` and `load_role_map` of roles.py, and identity.py. Floats, the
--     file that is read, its YAML and SHA-256 are parameters.
--   Tracker.PoseSource: `ReadOnlyPoseSource` of vt_vive_tracker/pose_source.py. The bundle, the HID backend,
--     the decoder, the clocks, the stop event and the node's callbacks are the parameter `env`, whose
--     answers are functions of the events so far. Start has `start` and `stop`, Reader the thread: one
--     step is one turn of the loop of `_run` or of `_recover_read_only`, so that no fuel is needed.
--   Tracker.Visualization: `TrackerVisualizationModel` of vt_vive_tracker/visualization_model.py, which the
--     visualizer and the GUI show: its observations, and its `snapshots` in Snapshots. The floats of a
--     pose are a type that is a parameter, with the test whether one is finite.
--   Gui.Store: `LatestSnapshotStore` of ros2_ws/src/vt_vive_tracker_gui/vt_vive_tracker_gui/
--     snapshot_store.py, and `overall_state` of display_model.py beside it.
--   Gui.Runtime: `RosRuntime` of runtime.py there; the executor, its thread, the node and the context
--     are the parameter `env`, whose answers are functions of the calls so far.
--   Alignment.ClockAudit: tools/multisensor_alignment/src/vt_multisensor_alignment/clock_audit.py, the audit
--     of a stream's two clocks, with Python's integers for the differences.
--   Alignment.Matcher: `_timestamps` and `select_generic_sample` of matcher.py beside it; `bisect` of
--     Python's library is the number of times before, or not after, a time, for times in order.
--   Alignment.Matching: `match_nearest_unique` of the same file. Chains, edges and the Fenwick tree are as
--     in the code; Tree is about the tree alone, Bisect about the candidates of a frame, Scans and Rows
--     about the loop over the frames, Written about the last loop, and Optimal about the whole.
--   Alignment.Interpolation: `_pose_timestamps` and `interpolate_pose` of the same file, with the poses of
--     model.py beside it; the transform and its interpolation, which may raise, are parameters.
-- Each module called Tests runs the definitions on concrete inputs, and applies the theorems there.
--
-- The controller calls the machine and the recorder: Capture.Controller runs the definitions of
-- Capture.Session on its own copy of the machine's state, and meets the recorder through `Env`, as
-- the code does by the protocol `Recorder`. The queue calls `record_drop` of Tracker.Health. The
-- roles that Tracker.Visualization shows are what Gui.Store publishes.
--
-- The loops of the Fenwick tree in Alignment.Matching take fuel: the way down as much as its index, the
-- way up as much as the tree is long, and the way back as many steps as there are edges. Each step
-- lowers the index, raises it, or goes to an earlier edge, so it is enough, and the theorems about the
-- whole rest on it. No other loop needs fuel. Numbers are natural numbers without a bound, as Python's
-- are; where the code takes an integer that may be negative, the model does too, except for the
-- sequences of timestamps in Alignment.Matcher and Alignment.Matching, whose check for negative ones is
-- left out. Times in the code that
-- are floats are not read by what is modelled. Python's checks of argument types are left out, since
-- the model is typed; its checks of values are kept.
--
-- Not modelled: the ROS nodes and launch files, which pass messages on; the files that session stores
-- and writers put on disk; the construction of the recorder's command line and its topics; the range
-- of the read timeout of the pose source; the other parts of the tools under tools/, which are
-- numerical or read and write files; the drawing of the GUI; the C++ timing normalizer; and the
-- generated message packages.
pub mod Alignment
pub mod Capture
pub mod Common
pub mod Gui
pub mod Tracker
