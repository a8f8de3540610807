-- ===== src/Capture/Controller/Ending.antt =====
-- How a capture ends: by a shutdown, by its deadline, or by the exit of its recorder.
use vision_tactile_dataset.Common.{
  ℕ, ◌≡◌, refl, ◌⊎◌, inl, inr, Bool, true, false, some, String, arith, if◌then◌else◌,
}
use vision_tactile_dataset.Common.Monad.{ok}
use vision_tactile_dataset.Capture.Session
use vision_tactile_dataset.Capture.Session.{
  CaptureState, recording, finalizing, complete, CaptureStateMachine,
}
use vision_tactile_dataset.Capture.Facts.{Env, EventSeverity, Detail, RecorderStopFact}
use vision_tactile_dataset.Capture.Controller.{CaptureController, lift}
use vision_tactile_dataset.Capture.Controller.Finalization.{
  publish_guarded, publish_finalization_result, finalize, drive_finalization, shutdown_in, shutdown,
}
use vision_tactile_dataset.Capture.Controller.Closing.{
  finalize_unconfirmed-Frame, finalize_confirmed-Closed, noted, drive_answers,
}

finalize_passed-complete :
    (m : CaptureStateMachine)
    → m.state ≡ finalizing
    → (Session.finalize_passed m).1.state ≡ complete
unfolding Session.finalize_passed
finalize_passed-complete m h = ground arith

-- The state that the end of finalization leaves.
abbrev pub ended_state : Bool → CaptureState
ended_state confirmed = if confirmed then complete else finalizing

module _ (env : Env) where
  finalize-state :
      (reason : String) (b : Bool) (f : RecorderStopFact) (confirmed : Bool) (s : CaptureController)
      → s.machine.state ≡ finalizing
      → (finalize env reason b f confirmed s).1.machine.state ≡ ended_state confirmed
  finalize-state reason b f true s h =
      ground
        (arith, finalize_confirmed-Closed env reason b f s, finalize_passed-complete s.machine h)
  finalize-state reason b f false s h = ground (arith, finalize_unconfirmed-Frame env reason b f s)

  publish_best_effort :
      (code : String) (sev : EventSeverity) (d e : Detail) (s : CaptureController)
      → (publish_finalization_result env code sev d e true s).0 ≡ ok tt
  unfolding publish_finalization_result publish_guarded
  publish_best_effort code sev d e s = refl

  -- With publications that may fail, a finalization tells what the recorder confirmed.
  finalize_best_effort :
      (reason : String) (f : RecorderStopFact) (confirmed : Bool) (s : CaptureController)
      → s.machine.state ≡ finalizing
      → (finalize env reason true f confirmed s).0 ≡ ok confirmed
  unfolding finalize Session.finalize_passed publish_finalization_result publish_guarded
  finalize_best_effort reason f true s h = ground arith
  finalize_best_effort reason f false s h = refl

  abbrev IsActive : CaptureController → Type 0
  IsActive s = (s.machine.state ≡ recording) ⊎ (s.machine.state ≡ finalizing)

  -- What a finalization of an active capture does once the recorder answered.
  pub drive-state :
      (reason : String) (b : Bool) (s : CaptureController) (h : ℕ) (f : RecorderStopFact)
      → s.machine.state ≡ finalizing
      → s.recorder ≡ some h
      → env.recorder_stop s.calls h ≡ ok f
      → (drive_finalization env reason b s).1.machine.state ≡ ended_state f.termination_confirmed
  drive-state reason b s h f e o r =
      rw (drive_answers env reason b s h f o r)
        (finalize-state reason b f f.termination_confirmed (noted env s h) e)

  drive_best_effort :
      (reason : String) (s : CaptureController) (h : ℕ) (f : RecorderStopFact)
      → s.machine.state ≡ finalizing
      → s.recorder ≡ some h
      → env.recorder_stop s.calls h ≡ ok f
      → (drive_finalization env reason true s).0 ≡ ok f.termination_confirmed
  drive_best_effort reason s h f e o r =
      rw (drive_answers env reason true s h f o r)
        (finalize_best_effort reason f f.termination_confirmed (noted env s h) e)

  shutdown_requested-finalizing :
      (m : CaptureStateMachine)
      → m.state ≡ recording
      → (Session.shutdown_requested m).1.state ≡ finalizing
  unfolding Session.shutdown_requested
  shutdown_requested-finalizing m e = ground arith

  shutdown_in_recording :
      (s : CaptureController)
      → s.machine.state ≡ recording
      → shutdown_in env recording s
        ≡ drive_finalization env "controller shutdown" true (lift Session.shutdown_requested s).1
  unfolding shutdown_in Session.shutdown_requested
  shutdown_in_recording s e = ground arith

  -- A shutdown of an active capture that has a recorder, whose stop answers: it reports, whichever
  -- sinks raise, whether the end of the recorder is confirmed; the capture is then COMPLETE, and
  -- else FINALIZING.
  pub shutdown_reports :
      (s : CaptureController) (h : ℕ) (f : RecorderStopFact)
      → IsActive s
      → s.recorder ≡ some h
      → env.recorder_stop s.calls h ≡ ok f
      → ((shutdown env s).0 ≡ ok f.termination_confirmed)
        × ((shutdown env s).1.machine.state ≡ ended_state f.termination_confirmed)
  unfolding shutdown shutdown_in
  shutdown_reports s h f (inl e) o r =
      let t = (lift Session.shutdown_requested s).1 in
      let q = shutdown_requested-finalizing s.machine e in
      simp (e, shutdown_in_recording s e)
        (
          drive_best_effort "controller shutdown" t h f q o r,
          drive-state "controller shutdown" true t h f q o r,
        )
  shutdown_reports s h f (inr e) o r = simp e (
    drive_best_effort "controller shutdown" s h f e o r,
    drive-state "controller shutdown" true s h f e o r,
  )
