-- ===== src/Capture/Controller/Frames.antt =====
-- What the calls out of the controller leave alone: all but the record of the calls.
use vision_tactile_dataset.Common.{◌≡◌, Bool, Option, none, String, arith, ℕ}
use vision_tactile_dataset.Capture.Facts.{FilePath, RecorderStartSpec, Env, EventSeverity, Detail}
use vision_tactile_dataset.Capture.Controller.{
  CaptureController, publish_event, publish_status, ask_alive, recorder_alive, recorder_health,
}
use vision_tactile_dataset.Capture.Controller.Finalization.{
  publish_guarded, publish_finalization_result,
}
use vision_tactile_dataset.Capture.Controller.Start.{create_session, write_qos, spawn}

pub record Frame (s s' : CaptureController) : Type 0 where
  pub duration : s'.max_bag_duration_seconds ≡ s.max_bag_duration_seconds
  pub root : s'.output_root ≡ s.output_root
  pub size : s'.request_cache_size ≡ s.request_cache_size
  pub machine : s'.machine ≡ s.machine
  pub topics : s'.topics ≡ s.topics
  pub commands : s'.commands ≡ s.commands
  pub recorder : s'.recorder ≡ s.recorder
  pub started : s'.recording_started_ns ≡ s.recording_started_ns
  pub deadline : s'.planned_deadline_ns ≡ s.planned_deadline_ns
  pub confirmed : s'.termination_confirmed ≡ s.termination_confirmed

Frame-refl : (s : CaptureController) → Frame s s
Frame-refl s = ground arith

pub Frame-trans : {s t u : CaptureController} → Frame s t → Frame t u → Frame s u
Frame-trans f g = ground arith

module _ (env : Env) where
  pub publish_event-Frame :
      (code : String) (severity : EventSeverity) (detail : Detail) (r : Option String)
      (s : CaptureController)
      → Frame s (publish_event env code severity detail r s).1
  unfolding publish_event
  publish_event-Frame code severity detail r s = ground arith

  ask_alive-Frame :
      (h : Option ℕ) (b : Bool) (s : CaptureController) → Frame s (ask_alive env h b s).1
  unfolding ask_alive recorder_health
  ask_alive-Frame h b s = ground arith

  pub publish_status-Frame :
      (detail : Detail) (r : Option String) (s : CaptureController)
      → Frame s (publish_status env detail r s).1
  unfolding publish_status recorder_alive
  publish_status-Frame detail r s =
      ground (arith, ask_alive-Frame s.recorder s.termination_confirmed s)

  pub publish_finalization_result-Frame :
      (code : String) (severity : EventSeverity) (d e : Detail) (b : Bool) (s : CaptureController)
      → Frame s (publish_finalization_result env code severity d e b s).1
  unfolding publish_finalization_result publish_guarded
  publish_finalization_result-Frame code severity d e b s =
      let t = (publish_event env code severity d none s).1 in
      ground (arith, publish_event-Frame code severity d none s, publish_status-Frame e none t)

  pub create_session-Frame : (s : CaptureController) → Frame s (create_session env s).1
  unfolding create_session
  create_session-Frame s = ground arith

  pub spawn-Frame :
      (spec : RecorderStartSpec) (s : CaptureController) → Frame s (spawn env spec s).1
  unfolding spawn
  spawn-Frame spec s = ground arith

  pub write_qos-Frame : (path : FilePath) (s : CaptureController) → Frame s (write_qos env path s).1
  unfolding write_qos
  write_qos-Frame path s = ground arith
