-- ===== src/Capture/Controller/Commands.antt =====
-- Commands: `accept` and `_accept_stop` of
-- ros2_ws/src/vt_realsense_capture/vt_realsense_capture/controller.py.
use vision_tactile_dataset.Common.{false, Option, none, some, if◌then◌else◌}
use vision_tactile_dataset.Common.Dict.{lookup}
use vision_tactile_dataset.Common.Monad.{pure, raise, ◌>>=◌, ◌>>◌}
use vision_tactile_dataset.Capture.Session
use vision_tactile_dataset.Capture.Session.{
  CaptureState, idle, recording, finalizing, complete, invalid, CommandKind, start_command,
  stop_command, kind_value, is_kind, is_state, is_one_of, CaptureStateMachine, Transition,
  new_machine,
}
use vision_tactile_dataset.Capture.Facts.{
  info, warning, session, text, conflicting, CaptureCommandFact, CommandReceipt, Env,
}
use vision_tactile_dataset.Capture.Controller.{
  Method, lift, remember, publish_event, publish_status,
}
use vision_tactile_dataset.Capture.Controller.Finalization.{drive_finalization}
use vision_tactile_dataset.Capture.Controller.Start.{accept_start}

-- The receipt of a command that the machine has answered.
abbrev pub receipt_of : CaptureCommandFact → Transition → CommandReceipt
receipt_of command transition = record {
  request_id = command.request_id;
  command = command.command;
  code = transition.code;
  state = transition.state;
}

module _ (env : Env) where
  -- `_accept_stop` of an idle controller, once the machine has answered.
  unfoldable pub confirm_idle : CaptureCommandFact → Transition → Method CommandReceipt
  confirm_idle command transition = do
    remember command.command (receipt_of command transition)
    publish_event env "stop_while_idle" warning (text "STOP received while idle")
        (some command.request_id)
    publish_status env (text "STOP received while idle") (some command.request_id)
    pure (receipt_of command transition)

  unfoldable pub acknowledge_stop : CaptureCommandFact → Method CommandReceipt
  acknowledge_stop command = do
    transition ← lift (Session.stop_while_idle command.request_id)
    confirm_idle command transition

  -- `_accept_stop` of any other controller, once the machine has answered.
  unfoldable pub confirm_stop : CaptureCommandFact → Transition → Method CommandReceipt
  confirm_stop command transition = do
    remember command.command (receipt_of command transition)
    publish_event env "finalizing" info (text "STOP accepted") none
    publish_status env (text "STOP accepted; finalizing") none
    drive_finalization env "STOP requested" false
    pure (receipt_of command transition)

  unfoldable pub stop_recording : CaptureCommandFact → Method CommandReceipt
  stop_recording command = do
    transition ← lift (Session.stop command.request_id)
    confirm_stop command transition

  unfoldable pub accept_stop : CaptureCommandFact → Method CommandReceipt
  accept_stop command s =
      (if is_state s.machine.state idle then acknowledge_stop command else stop_recording command) s

  unfoldable pub accept_fresh : CommandKind → CaptureCommandFact → Method CommandReceipt
  accept_fresh start_command command = accept_start env command
  accept_fresh stop_command command = accept_stop command

  -- `accept` behind its lookup in the cache.
  unfoldable pub accept_known :
      Option (CommandKind × CommandReceipt) → CaptureCommandFact → Method CommandReceipt
  accept_known none command = accept_fresh command.command command
  accept_known (some (original, receipt)) command =
      if is_kind original command.command then pure receipt else (do
        publish_event env "request_conflict" warning
            (conflicting command.request_id (kind_value original) (kind_value command.command))
            (some command.request_id)
        raise (
            session (
              Session.request_conflict command.request_id (kind_value original)
                (kind_value command.command))))

  unfoldable pub accept : CaptureCommandFact → Method CommandReceipt
  accept command s = accept_known (lookup command.request_id s.commands) command s
