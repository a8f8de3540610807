-- ===== src/Capture/Controller/Ticking.antt =====
-- What a tick does to a recording controller: it watches the recorder and the clock.
use vision_tactile_dataset.Common.{ℕ, ◌≤◌, ◌<◌, ◌≡◌, true, false, some, ◌∷◌, arith, leb}
use vision_tactile_dataset.Common.Monad.{ok}
use vision_tactile_dataset.Capture.Session
use vision_tactile_dataset.Capture.Session.{recording, finalizing, CaptureStateMachine}
use vision_tactile_dataset.Capture.Facts.{
  Env, RecorderStopFact, RecorderHealth, alive, exited, uncertain, asked_health, read_clock,
}
use vision_tactile_dataset.Capture.Controller.{
  CaptureController, lift, is_running, recorder_health, monotonic_ns,
}
use vision_tactile_dataset.Capture.Controller.Finalization.{
  drive_finalization, is_due, tick_due, tick_recording, tick_in, tick,
}
use vision_tactile_dataset.Capture.Controller.Ending.{ended_state, drive-state}

recorder_exited-finalizing :
    (m : CaptureStateMachine)
    → m.state ≡ recording
    → (Session.recorder_exited m).1.state ≡ finalizing
unfolding Session.recorder_exited
recorder_exited-finalizing m e = ground arith

planned-finalizing :
    (m : CaptureStateMachine)
    → m.state ≡ recording
    → (Session.planned_duration_reached m).1.state ≡ finalizing
unfolding Session.planned_duration_reached
planned-finalizing m e = ground arith

module _ (env : Env) (s : CaptureController) (h : ℕ) where
  -- The controller once the health of its recorder was asked, and once the clock was read too.
  abbrev asked : CaptureController
  asked = record s { calls = asked_health h ∷ s.calls }

  abbrev timed : CaptureController
  timed = record s { calls = read_clock ∷ asked_health h ∷ s.calls }

  tick_by_health :
      (x : RecorderHealth)
      → s.machine.state ≡ recording
      → s.recorder ≡ some h
      → env.recorder_health s.calls h ≡ ok x
      → tick env s ≡ tick_recording env x asked
  unfolding tick tick_in recorder_health
  tick_by_health x e o r = simp e (ground arith)

  exit_drives :
      s.machine.state ≡ recording
      → (tick_recording env exited asked).1
        ≡ (drive_finalization env "Recorder exited before STOP" false
            (lift Session.recorder_exited asked).1).1
  unfolding tick_recording Session.recorder_exited
  exit_drives e = ground arith

  -- While the machine is RECORDING with a recorder that says it has exited, and whose stop answers:
  -- a tick ends the capture, which is COMPLETE if the stop confirms the end, and else FINALIZING.
  pub tick_exited :
      (f : RecorderStopFact)
      → s.machine.state ≡ recording
      → s.recorder ≡ some h
      → env.recorder_health s.calls h ≡ ok exited
      → env.recorder_stop asked.calls h ≡ ok f
      → (tick env s).1.machine.state ≡ ended_state f.termination_confirmed
  tick_exited f e o r q =
      let t = (lift Session.recorder_exited asked).1 in
      rw (tick_by_health exited e o r, exit_drives e)
        (drive-state env "Recorder exited before STOP" false t h f
          (recorder_exited-finalizing s.machine e) o q)

  running_watches :
      (x : RecorderHealth) (d now : ℕ)
      → is_running x ≡ true
      → s.planned_deadline_ns ≡ some d
      → env.monotonic_ns asked.calls ≡ ok now
      → tick_recording env x asked ≡ tick_due env (leb d now) timed
  unfolding tick_recording is_due monotonic_ns
  running_watches alive d now u p n = ground arith
  running_watches exited d now u p n = cc
  running_watches uncertain d now u p n = ground arith

  due_drives :
      s.machine.state ≡ recording
      → (tick_due env true timed).1
        ≡ (drive_finalization env "planned duration reached" false
            (lift Session.planned_duration_reached timed).1).1
  unfolding tick_due Session.planned_duration_reached
  due_drives e = ground arith

  -- While the machine is RECORDING with a recorder that says it runs and whose stop answers, and
  -- a clock that answers a time at the deadline or behind it: a tick ends the capture, which is COMPLETE if the stop
  -- confirms the end, and else FINALIZING.
  pub tick_reached :
      (x : RecorderHealth) (d now : ℕ) (f : RecorderStopFact)
      → s.machine.state ≡ recording
      → s.recorder ≡ some h
      → env.recorder_health s.calls h ≡ ok x
      → is_running x ≡ true
      → s.planned_deadline_ns ≡ some d
      → env.monotonic_ns asked.calls ≡ ok now
      → d ≤ now
      → env.recorder_stop timed.calls h ≡ ok f
      → (tick env s).1.machine.state ≡ ended_state f.termination_confirmed
  tick_reached x d now f e o r u p n late q =
      let t = (lift Session.planned_duration_reached timed).1 in
      let due : leb d now ≡ true = ground arith in
      rw (tick_by_health x e o r, running_watches x d now u p n, due, due_drives e)
        (drive-state env "planned duration reached" false t h f (planned-finalizing s.machine e) o
          q)

  -- While the machine is RECORDING with a recorder that says it runs, and a clock that answers a
  -- time before the deadline: a tick only asks the recorder and the clock; it stops nothing, publishes nothing
  -- and changes nothing else.
  pub tick_early :
      (x : RecorderHealth) (d now : ℕ)
      → s.machine.state ≡ recording
      → s.recorder ≡ some h
      → env.recorder_health s.calls h ≡ ok x
      → is_running x ≡ true
      → s.planned_deadline_ns ≡ some d
      → env.monotonic_ns asked.calls ≡ ok now
      → now < d
      → tick env s ≡ (ok tt, timed)
  unfolding tick_due
  tick_early x d now e o r u p n early =
      let not_due : leb d now ≡ false = ground arith in
      rw (tick_by_health x e o r, running_watches x d now u p n, not_due)
