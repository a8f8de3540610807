-- ===== src/Capture/Controller/Finalization.antt =====
-- The end of a capture: `_drive_finalization` and the methods that reach it without a command,
-- `tick` and `shutdown`, in
-- ros2_ws/src/vt_realsense_capture/vt_realsense_capture/controller.py.
use vision_tactile_dataset.Common.{ℕ, Bool, true, false, Option, none, some, String, leb}
use vision_tactile_dataset.Common.Monad.{pure, gets, modify, ◌>>=◌, ◌>>◌}
use vision_tactile_dataset.Capture.Session
use vision_tactile_dataset.Capture.Session.{
  CaptureState, idle, recording, finalizing, complete, invalid, CommandKind, start_command,
  stop_command, kind_value, is_kind, is_state, is_one_of, CaptureStateMachine, Transition,
  new_machine,
}
use vision_tactile_dataset.Capture.Facts.{
  EventSeverity, info, fatal, RecorderHealth, exited, Detail, text, finished, RecorderStopFact,
  CaptureStatusFact, Env,
}
use vision_tactile_dataset.Capture.Controller.{
  Method, lift, attempt, require_recorder, recorder_health, recorder_stop, monotonic_ns,
  publish_event, publish_status,
}

module _ (env : Env) where
  -- One of the two publications of `_publish_finalization_result`.
  unfoldable pub publish_guarded : Bool → Method (Unit {0}) → Method (Unit {0})
  publish_guarded false publish = publish
  publish_guarded true publish = do attempt publish; pure tt

  unfoldable pub publish_finalization_result :
      String → EventSeverity → Detail → Detail → Bool → Method (Unit {0})
  publish_finalization_result code severity event_detail status_detail best_effort = do
    publish_guarded best_effort (publish_event env code severity event_detail none)
    publish_guarded best_effort (publish_status env status_detail none >> pure tt)

  -- `_drive_finalization` behind the answer of `recorder.stop()`.
  unfoldable pub finalize : String → Bool → RecorderStopFact → Bool → Method Bool
  finalize reason best_effort result false = do
    publish_finalization_result "recorder_termination_unconfirmed" fatal (text result.detail)
        (text "Recorder termination is unconfirmed") best_effort
    pure false
  finalize reason best_effort result true = do
    modify (λ s. record s { termination_confirmed = true })
    lift Session.finalize_passed
    publish_finalization_result "complete" info (finished reason result.returncode)
        (text "Recorder process lifecycle complete") best_effort
    pure true

  unfoldable pub drive_finalization : String → Bool → Method Bool
  drive_finalization reason best_effort = do
    h ← require_recorder
    result ← recorder_stop env h
    finalize reason best_effort result result.termination_confirmed

  -- `self._planned_deadline_ns is not None and self._clock.monotonic_ns() >= …`
  unfoldable pub is_due : Option ℕ → Method Bool
  is_due none = pure false
  is_due (some deadline) = do now ← monotonic_ns env; pure (leb deadline now)

  unfoldable pub tick_due : Bool → Method (Unit {0})
  tick_due false = pure tt
  tick_due true = do
    lift Session.planned_duration_reached
    drive_finalization "planned duration reached" false
    pure tt

  unfoldable pub tick_recording : RecorderHealth → Method (Unit {0})
  tick_recording exited = do
    lift Session.recorder_exited
    drive_finalization "Recorder exited before STOP" false
    pure tt
  tick_recording _ = do
    deadline ← gets (λ s. s.planned_deadline_ns)
    due ← is_due deadline
    tick_due due

  unfoldable pub tick_in : CaptureState → Method (Unit {0})
  tick_in recording = do h ← require_recorder; health ← recorder_health env h; tick_recording health
  tick_in finalizing = do drive_finalization "termination retry" false; pure tt
  tick_in _ = pure tt

  unfoldable pub tick : Method (Unit {0})
  tick s = tick_in s.machine.state s

  unfoldable pub publish_periodic_status : Method CaptureStatusFact
  publish_periodic_status = publish_status env (text "periodic status") none

  unfoldable pub shutdown_in : CaptureState → Method Bool
  shutdown_in idle = pure true
  shutdown_in complete = pure true
  shutdown_in invalid = pure true
  shutdown_in recording = do
    lift Session.shutdown_requested
    drive_finalization "controller shutdown" true
  shutdown_in _ = drive_finalization "controller shutdown" true

  unfoldable pub shutdown : Method Bool
  shutdown s = shutdown_in s.machine.state s
