-- ===== src/Capture/Controller/Preservation.antt =====
-- The invariant of the capture controller, method by method.
use vision_tactile_dataset.Common.{ℕ, ◌≡◌, ◌⊎◌, Bool, true, false, Option, none, String, arith}
use vision_tactile_dataset.Common.Monad.{◌>>=◌, bind-keeps}
use vision_tactile_dataset.Capture.Session
use vision_tactile_dataset.Capture.Session.{
  CaptureState, idle, preflight, warming_up, recording, finalizing, complete, invalid, is_state,
  CaptureStateMachine,
}
use vision_tactile_dataset.Capture.Session.Invariant
use vision_tactile_dataset.Capture.Session.Invariant.{call-IsValid}
use vision_tactile_dataset.Capture.Facts.{Env, RecorderHealth, alive, exited, uncertain, text}
use vision_tactile_dataset.Capture.Controller.{
  CaptureController, lift, publish_status, require_recorder, recorder_health, monotonic_ns,
}
use vision_tactile_dataset.Capture.Controller.Finalization.{
  is_due, tick_due, tick_recording, tick_in, tick, publish_periodic_status, shutdown_in, shutdown,
}
use vision_tactile_dataset.Capture.Controller.Frames.{Frame, publish_status-Frame}
use vision_tactile_dataset.Capture.Controller.Invariant.{
  IsValid, Frame-IsValid, drive_finalization-IsValid,
}

-- A machine that stands still, or goes from RECORDING to FINALIZING.
abbrev pub StepsOn : CaptureStateMachine → CaptureStateMachine → Type 0
StepsOn m m' =
    ((m'.state ≡ m.state) ⊎ ((m.state ≡ recording) × (m'.state ≡ finalizing)))
    × (m'.request_cache_size ≡ m.request_cache_size)

pub step-IsValid :
    {clocked : Bool} (s : CaptureController) (m : CaptureStateMachine)
    → IsValid clocked s
    → Invariant.IsValid m
    → StepsOn s.machine m
    → IsValid clocked (record s { machine = m })
step-IsValid s m v w steps = record {
  machine = w;
  sizes = ground arith;
  bounded = v.bounded;
  keyed = v.keyed;
  recording_owns = ground arith;
  finalizing_owns = ground arith;
  recording_ends = λ c. let ends = v.recording_ends c in ground arith;
  complete_confirmed = ground arith;
  never_invalid = ground arith;
}

recorder_exited-StepsOn : (m : CaptureStateMachine) → StepsOn m (Session.recorder_exited m).1
unfolding Session.recorder_exited
recorder_exited-StepsOn m = ground arith

planned-StepsOn : (m : CaptureStateMachine) → StepsOn m (Session.planned_duration_reached m).1
unfolding Session.planned_duration_reached
planned-StepsOn m = ground arith

shutdown_requested-StepsOn : (m : CaptureStateMachine) → StepsOn m (Session.shutdown_requested m).1
unfolding Session.shutdown_requested
shutdown_requested-StepsOn m = ground arith

pub stop-StepsOn : (r : String) (m : CaptureStateMachine) → StepsOn m (Session.stop r m).1
unfolding Session.stop
stop-StepsOn r m = ground arith

pub stop_while_idle-StepsOn :
    (r : String) (m : CaptureStateMachine) → StepsOn m (Session.stop_while_idle r m).1
unfolding Session.stop_while_idle
stop_while_idle-StepsOn r m = ground arith

recorder_exited-IsValid :
    {clocked : Bool} (s : CaptureController)
    → IsValid clocked s
    → IsValid clocked (lift Session.recorder_exited s).1
unfolding Session.call
recorder_exited-IsValid s v =
    step-IsValid s (Session.recorder_exited s.machine).1 v
      (call-IsValid Session.exited_event s.machine v.machine) (recorder_exited-StepsOn s.machine)

planned-IsValid :
    {clocked : Bool} (s : CaptureController)
    → IsValid clocked s
    → IsValid clocked (lift Session.planned_duration_reached s).1
unfolding Session.call
planned-IsValid s v =
    step-IsValid s (Session.planned_duration_reached s.machine).1 v
      (call-IsValid Session.planned_event s.machine v.machine) (planned-StepsOn s.machine)

shutdown_requested-IsValid :
    {clocked : Bool} (s : CaptureController)
    → IsValid clocked s
    → IsValid clocked (lift Session.shutdown_requested s).1
unfolding Session.call
shutdown_requested-IsValid s v =
    step-IsValid s (Session.shutdown_requested s.machine).1 v
      (call-IsValid Session.shutdown_event s.machine v.machine)
      (shutdown_requested-StepsOn s.machine)

module _ (clocked : Bool) (env : Env) where
  is_due-Frame : (d : Option ℕ) (s : CaptureController) → Frame s (is_due env d s).1
  unfolding is_due monotonic_ns
  is_due-Frame d s = ground arith

  tick_due-IsValid :
      (due : Bool) (s : CaptureController)
      → IsValid clocked s
      → IsValid clocked (tick_due env due s).1
  unfolding tick_due
  tick_due-IsValid false s v = v
  tick_due-IsValid true s v =
      let t = (lift Session.planned_duration_reached s).1 in
      ground (
        arith,
        planned-IsValid s v,
        drive_finalization-IsValid clocked env "planned duration reached" false t,
      )

  tick_watching-IsValid :
      (s : CaptureController)
      → IsValid clocked s
      → IsValid clocked ((is_due env s.planned_deadline_ns >>= tick_due env) s).1
  tick_watching-IsValid s v =
      let t = (is_due env s.planned_deadline_ns s).1 in
      let w = Frame-IsValid s t (is_due-Frame s.planned_deadline_ns s) v in
      bind-keeps (IsValid clocked) (is_due env s.planned_deadline_ns) (tick_due env) s w
        (λ due e. tick_due-IsValid due t w)

  tick_recording-IsValid :
      (h : RecorderHealth) (s : CaptureController)
      → IsValid clocked s
      → IsValid clocked (tick_recording env h s).1
  unfolding tick_recording
  tick_recording-IsValid exited s v =
      let t = (lift Session.recorder_exited s).1 in
      ground (
        arith,
        recorder_exited-IsValid s v,
        drive_finalization-IsValid clocked env "Recorder exited before STOP" false t,
      )
  tick_recording-IsValid alive s v = tick_watching-IsValid s v
  tick_recording-IsValid uncertain s v = tick_watching-IsValid s v

  recorder_health-IsValid :
      (h : ℕ) (s : CaptureController)
      → IsValid clocked s
      → IsValid clocked (recorder_health env h s).1
  unfolding recorder_health
  recorder_health-IsValid h s v = Frame-IsValid s (recorder_health env h s).1 (ground arith) v

  require_recorder-IsValid :
      (s : CaptureController) → IsValid clocked s → IsValid clocked (require_recorder s).1
  require_recorder-IsValid s v = Frame-IsValid s (require_recorder s).1 (ground arith) v

  tick_in-IsValid :
      (st : CaptureState) (s : CaptureController)
      → IsValid clocked s
      → IsValid clocked (tick_in env st s).1
  unfolding tick_in
  tick_in-IsValid recording s v =
      let t = (require_recorder s).1 in
      let w = require_recorder-IsValid s v in
      bind-keeps (IsValid clocked) require_recorder
        (λ h. recorder_health env h >>= tick_recording env) s w
        (λ h e.
          bind-keeps (IsValid clocked) (recorder_health env h) (tick_recording env) t
            (recorder_health-IsValid h t w)
            (λ health q.
              tick_recording-IsValid health (recorder_health env h t).1
                (recorder_health-IsValid h t w)))
  tick_in-IsValid finalizing s v =
      ground (arith, drive_finalization-IsValid clocked env "termination retry" false s v)
  tick_in-IsValid _ s v = v

  -- A tick keeps the invariant.
  pub tick-IsValid : (s : CaptureController) → IsValid clocked s → IsValid clocked (tick env s).1
  unfolding tick
  tick-IsValid s v = tick_in-IsValid s.machine.state s v

  -- So does the publication of a status.
  pub publish_periodic_status-IsValid :
      (s : CaptureController)
      → IsValid clocked s
      → IsValid clocked (publish_periodic_status env s).1
  unfolding publish_periodic_status
  publish_periodic_status-IsValid s v =
      Frame-IsValid s (publish_status env (text "periodic status") none s).1
        (publish_status-Frame env (text "periodic status") none s) v

  shutdown_in-IsValid :
      (st : CaptureState) (s : CaptureController)
      → IsValid clocked s
      → IsValid clocked (shutdown_in env st s).1
  unfolding shutdown_in
  shutdown_in-IsValid recording s v =
      let t = (lift Session.shutdown_requested s).1 in
      ground (
        arith,
        shutdown_requested-IsValid s v,
        drive_finalization-IsValid clocked env "controller shutdown" true t,
      )
  shutdown_in-IsValid idle s v = v
  shutdown_in-IsValid complete s v = v
  shutdown_in-IsValid invalid s v = v
  shutdown_in-IsValid _ s v = drive_finalization-IsValid clocked env "controller shutdown" true s v

  -- And a shutdown.
  pub shutdown-IsValid :
      (s : CaptureController) → IsValid clocked s → IsValid clocked (shutdown env s).1
  unfolding shutdown
  shutdown-IsValid s v = shutdown_in-IsValid s.machine.state s v
