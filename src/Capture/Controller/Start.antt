-- ===== src/Capture/Controller/Start.antt =====
-- START: `_accept_start` and `_startup_failed` of
-- ros2_ws/src/vt_realsense_capture/vt_realsense_capture/controller.py.
use vision_tactile_dataset.Common.{
  ℕ, ◌+◌, ◌*◌, false, not, none, some, [], ◌∷◌, ◌++◌, String, ltb, ◌==◌, if◌then◌else◌,
}
use vision_tactile_dataset.Common.Monad.{Result, ok, err, pure, gets, modify, ◌>>=◌, ◌>>◌, raise_if}
use vision_tactile_dataset.Capture.Session
use vision_tactile_dataset.Capture.Session.{
  CaptureState, idle, recording, finalizing, complete, invalid, CommandKind, start_command,
  stop_command, kind_value, is_kind, is_state, is_one_of, CaptureStateMachine, Transition,
  new_machine,
}
use vision_tactile_dataset.Capture.Facts.{
  info, fatal, Error, session, Detail, text, FilePath, RecorderStartSpec, CaptureCommandFact,
  CommandReceipt, SessionInfoFact, made_session_id, created_session, wrote_qos, made_recorder,
  started_recorder, sent_session, Env,
}
use vision_tactile_dataset.Capture.Controller.{
  CaptureController, Method, lift, attempt, message, remember, call_out, nanoseconds_per_second,
  monotonic_ns, publish_event, publish_status,
}

-- What `_accept_start` resets before it creates the session.
abbrev pub reset : CaptureController → CaptureController
reset s = record s {
  machine = if is_state s.machine.state idle then s.machine else new_machine s.request_cache_size;
  recorder = none;
  termination_confirmed = false;
}

-- `command.planned_duration_sec or self._config.max_bag_duration_seconds`
unfoldable pub effective_duration : CaptureCommandFact → CaptureController → ℕ
effective_duration command s =
    if command.planned_duration_sec == 0
    then s.max_bag_duration_seconds
    else command.planned_duration_sec

-- The `RecorderStartSpec` of a new session.
abbrev pub start_spec : String → FilePath → CaptureController → RecorderStartSpec
start_spec sid dir s = record {
  session_id = sid;
  session_dir = dir;
  output_path = dir ++ "bag" ∷ [];
  qos_overrides_path = dir ++ "qos_overrides.yaml" ∷ [];
  topics = s.topics;
}

module _ (env : Env) where
  -- `_startup_failed`
  unfoldable pub startup_failed : CaptureCommandFact → String → Detail → Method CommandReceipt
  startup_failed command code detail = do
    state ← gets (λ s. s.machine.state)
    let receipt : CommandReceipt = record {
      request_id = command.request_id;
      command = command.command;
      code = code;
      state = state;
    }
    remember command.command receipt
    publish_event env code fatal detail (some command.request_id)
    publish_status env detail (some command.request_id)
    pure receipt

  -- `_accept_start` once a recorder runs, the machine has answered and the clock was read.
  unfoldable pub confirm_timed :
      CaptureCommandFact → String → Transition → ℕ → Method CommandReceipt
  confirm_timed command sid transition now = do
    modify (λ s. record s { recording_started_ns = some now })
    modify (λ s. record s {
      planned_deadline_ns = some (now + effective_duration command s * nanoseconds_per_second);
    })
    let receipt : CommandReceipt = record {
      request_id = command.request_id;
      command = command.command;
      code = transition.code;
      state = transition.state;
    }
    remember command.command receipt
    let session_info : SessionInfoFact = record {
      session_id = sid;
      request_id = command.request_id;
      session_label = command.session_label;
    }
    call_out (sent_session session_info) (λ t. env.session_sink t session_info)
    publish_event env "recorder_started" info (text "Recorder process started") none
    publish_status env (text "Recorder process started") none
    pure receipt

  -- `_accept_start` once a recorder runs and the machine has answered.
  unfoldable pub confirm_start : CaptureCommandFact → String → Transition → Method CommandReceipt
  confirm_start command sid transition = do
    now ← monotonic_ns env
    confirm_timed command sid transition now

  -- `_accept_start` once a recorder runs.
  unfoldable pub start_recording : CaptureCommandFact → String → ℕ → Method CommandReceipt
  start_recording command sid h = do
    modify (λ s. record s { recorder = some h })
    transition ← lift (Session.start command.request_id sid)
    confirm_start command sid transition

  -- `_accept_start` behind each of its three `try` blocks.
  unfoldable pub start_spawned :
      CaptureCommandFact → String → Result Error ℕ → Method CommandReceipt
  start_spawned command sid (err e) = startup_failed command "recorder_spawn_failed" (message e)
  start_spawned command sid (ok h) = start_recording command sid h

  unfoldable pub spawn : RecorderStartSpec → Method ℕ
  spawn spec = do
    h ← call_out made_recorder env.recorder_factory
    call_out (started_recorder h spec) (λ t. env.recorder_start t h spec)
    pure h

  unfoldable pub start_written :
      CaptureCommandFact → String → FilePath → Result Error (Unit {0}) → Method CommandReceipt
  start_written command sid dir (err e) =
      startup_failed command "recorder_parameters_failed" (message e)
  start_written command sid dir (ok _) = do
    spec ← gets (start_spec sid dir)
    spawned ← attempt (spawn spec)
    start_spawned command sid spawned

  unfoldable pub write_qos : FilePath → Method (Unit {0})
  write_qos path = do
    topics ← gets (λ s. s.topics)
    call_out (wrote_qos path topics) (λ t. env.write_qos t path topics)

  unfoldable pub start_created :
      CaptureCommandFact → Result Error (String × FilePath) → Method CommandReceipt
  start_created command (err e) = startup_failed command "session_create_failed" (message e)
  start_created command (ok (sid, dir)) = do
    written ← attempt (write_qos (dir ++ "qos_overrides.yaml" ∷ []))
    start_written command sid dir written

  unfoldable pub create_session : Method (String × FilePath)
  create_session = do
    sid ← call_out made_session_id env.session_id_factory
    root ← gets (λ s. s.output_root)
    dir ← call_out (created_session root sid) (λ t. env.create_session t root sid)
    pure (sid, dir)

  -- `_accept_start` behind its two guards.
  unfoldable pub launch : CaptureCommandFact → Method CommandReceipt
  launch command = do modify reset; created ← attempt create_session; start_created command created

  unfoldable pub accept_start : CaptureCommandFact → Method CommandReceipt
  accept_start command = do
    limit ← gets (λ s. s.max_bag_duration_seconds)
    raise_if (ltb limit command.planned_duration_sec)
        (session (Session.request_validation "planned_duration_sec exceeds configured maximum"))
    state ← gets (λ s. s.machine.state)
    raise_if (not (is_one_of state (idle ∷ complete ∷ invalid ∷ [])))
        (session (Session.invalid_transition "START" state []))
    launch command
