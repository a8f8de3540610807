-- ===== src/Capture/Controller/Closing.antt =====
-- What `_drive_finalization` does, on each of its ways out.
use vision_tactile_dataset.Common.{
  ℕ, ◌≡◌, ◌≢◌, ◌⊎◌, inl, inr, Bool, true, false, none, some, ◌∷◌, String, arith, Bool-cases,
  Option-cases,
}
use vision_tactile_dataset.Common.Monad.{Result, ok, err, Result-cases}
use vision_tactile_dataset.Capture.Session
use vision_tactile_dataset.Capture.Session.{finalizing, complete, is_state, CaptureStateMachine}
use vision_tactile_dataset.Capture.Facts.{
  Env, Error, runtime, outside, RecorderStopFact, stopped_recorder, fatal, info, text, finished,
}
use vision_tactile_dataset.Capture.Controller.{CaptureController, recorder_stop, lift}
use vision_tactile_dataset.Capture.Controller.Finalization.{finalize, drive_finalization}
use vision_tactile_dataset.Capture.Controller.Frames.{Frame, publish_finalization_result-Frame}

-- The capture is closed: the recorder's end is confirmed, and the machine has gone its last step.
pub record Closed (s s' : CaptureController) : Type 0 where
  pub machine : s'.machine ≡ (Session.finalize_passed s.machine).1
  pub confirmed : s'.termination_confirmed ≡ true
  pub duration : s'.max_bag_duration_seconds ≡ s.max_bag_duration_seconds
  pub root : s'.output_root ≡ s.output_root
  pub size : s'.request_cache_size ≡ s.request_cache_size
  pub topics : s'.topics ≡ s.topics
  pub commands : s'.commands ≡ s.commands
  pub recorder : s'.recorder ≡ s.recorder
  pub started : s'.recording_started_ns ≡ s.recording_started_ns
  pub deadline : s'.planned_deadline_ns ≡ s.planned_deadline_ns

module _ (env : Env) where
  -- The answer of the recorder of `s` to `stop()`, asked now.
  abbrev pub stop_reply : CaptureController → ℕ → Result String RecorderStopFact
  stop_reply s h = env.recorder_stop s.calls h

  pub finalize_unconfirmed-Frame :
      (reason : String) (b : Bool) (f : RecorderStopFact) (s : CaptureController)
      → Frame s (finalize env reason b f false s).1
  unfolding finalize
  finalize_unconfirmed-Frame reason b f s = ground (
    arith,
    publish_finalization_result-Frame env "recorder_termination_unconfirmed" fatal (text f.detail)
        (text "Recorder termination is unconfirmed") b s,
  )

  pub finalize_confirmed-Closed :
      (reason : String) (b : Bool) (f : RecorderStopFact) (s : CaptureController)
      → Closed s (finalize env reason b f true s).1
  unfolding finalize
  finalize_confirmed-Closed reason b f s =
      let t = (lift Session.finalize_passed (record s { termination_confirmed = true })).1 in
      ground (
        arith,
        publish_finalization_result-Frame env "complete" info (finished reason f.returncode)
            (text "Recorder process lifecycle complete") b t,
      )

  abbrev pub noted : CaptureController → ℕ → CaptureController
  noted s h = record s { calls = stopped_recorder h ∷ s.calls }

  -- The recorder has confirmed its end, and the capture is closed.
  pub record Confirms (s s' : CaptureController) : Type 0 where
    pub handle : ℕ
    pub fact : RecorderStopFact
    pub owned : s.recorder ≡ some handle
    pub asked : stop_reply s handle ≡ ok fact
    pub gone : fact.termination_confirmed ≡ true
    pub closed : Closed s s'

  -- A confirmed end closes the capture; on any other way out nothing but the record of calls moves,
  -- and the result is not `True`.
  abbrev pub Drives : CaptureController → Result Error Bool × CaptureController → Type 0
  Drives s (r, s') = Frame s s' × (r ≢ ok true) ⊎ Confirms s s'

  drive_raises :
      (reason : String) (b : Bool) (s : CaptureController) (h : ℕ) (d : String)
      → s.recorder ≡ some h
      → stop_reply s h ≡ err d
      → drive_finalization env reason b s ≡ (err (outside d), noted s h)
  unfolding drive_finalization recorder_stop
  drive_raises reason b s h d e r = ground arith

  pub drive_answers :
      (reason : String) (b : Bool) (s : CaptureController) (h : ℕ) (f : RecorderStopFact)
      → s.recorder ≡ some h
      → stop_reply s h ≡ ok f
      → drive_finalization env reason b s
        ≡ finalize env reason b f f.termination_confirmed (noted s h)
  unfolding drive_finalization recorder_stop
  drive_answers reason b s h f e r = ground arith

  drive_ownerless :
      (reason : String) (b : Bool) (s : CaptureController)
      → s.recorder ≡ none
      → drive_finalization env reason b s ≡ (err (runtime "active session has no Recorder"), s)
  unfolding drive_finalization
  drive_ownerless reason b s e = ground arith

  finalize_unconfirmed-ne-true :
      (reason : String) (b : Bool) (f : RecorderStopFact) (s : CaptureController)
      → (finalize env reason b f false s).0 ≢ ok true
  unfolding finalize
  finalize_unconfirmed-ne-true reason b f s = ground arith

  drive_of_answer :
      (reason : String) (b : Bool) (s : CaptureController) (h : ℕ) (f : RecorderStopFact)
      → s.recorder ≡ some h
      → stop_reply s h ≡ ok f
      → Drives s (finalize env reason b f f.termination_confirmed (noted s h))
  drive_of_answer reason b s h f e r = elim (Bool-cases f.termination_confirmed) [
    | inl gone ↦
        let closed = finalize_confirmed-Closed reason b f (noted s h) in
        simp gone (
          inr (record {
            handle = h;
            fact = f;
            owned = e;
            asked = r;
            gone = gone;
            closed = ground arith;
          }))
    | inr not_gone ↦
        let same = finalize_unconfirmed-Frame reason b f (noted s h) in
        simp not_gone (inl (ground arith, finalize_unconfirmed-ne-true reason b f (noted s h)))
  ]

  pub drive_finalization-Drives :
      (reason : String) (b : Bool) (s : CaptureController)
      → Drives s (drive_finalization env reason b s)
  drive_finalization-Drives reason b s = elim (Option-cases s.recorder) [
    | inl nobody ↦ rw (drive_ownerless reason b s nobody) (inl (ground arith, λ e. cc))
    | inr (h, e) ↦ elim (Result-cases (stop_reply s h)) [
      | inl (f, r) ↦ rw (drive_answers reason b s h f e r) (drive_of_answer reason b s h f e r)
      | inr (d, r) ↦ rw (drive_raises reason b s h d e r) (inl (ground arith, λ e. cc))
    ]
  ]
