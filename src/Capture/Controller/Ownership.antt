-- ===== src/Capture/Controller/Ownership.antt =====
-- Who owns the recorder that START spawned. The controller's cache of receipts and the machine's
-- cache of transitions evict by themselves, so a request may be known to one and not to the other.
use vision_tactile_dataset.Common.{
  ℕ, ◌≤◌, ◌≡◌, refl, ap, ◌∙◌, true, false, none, some, [], ◌∷◌, ◌++◌, List, String, arith, is_blank,
  ltb,
}
use vision_tactile_dataset.Common.Dict.{lookup}
use vision_tactile_dataset.Common.Monad.{ok, err}
use vision_tactile_dataset.Capture.Session
use vision_tactile_dataset.Capture.Session.{
  idle, recording, complete, invalid, is_one_of, is_state, CaptureStateMachine, Transition,
  start_command, stop_command, CommandKind, request_conflict,
}
use vision_tactile_dataset.Capture.Facts.{
  Env, Trace, RecorderStartSpec, session, CaptureCommandFact, FilePath, alive, started_recorder,
  made_recorder, wrote_qos, created_session, made_session_id,
}
use vision_tactile_dataset.Capture.Controller.{CaptureController}
use vision_tactile_dataset.Capture.Controller.Start.{
  start_recording, start_spawned, spawn, start_written, write_qos, start_created, start_spec,
  create_session, reset, launch, accept_start,
}
use vision_tactile_dataset.Capture.Controller.Finalization.{shutdown, shutdown_in}
use vision_tactile_dataset.Capture.Controller.Commands.{accept, accept_known, accept_fresh}

-- The collaborators all succeed.
abbrev pub calm : String → FilePath → ℕ → Env
calm sid dir h = record {
  session_id_factory = λ t. ok sid;
  create_session = λ t root s. ok dir;
  write_qos = λ t path topics. ok tt;
  recorder_factory = λ t. ok h;
  recorder_start = λ t k spec. ok tt;
  recorder_health = λ t k. ok alive;
  recorder_stop = λ t k. ok (record {
    returncode = none;
    detail = "";
    termination_confirmed = true;
    possibly_alive = false;
  });
  monotonic_ns = λ t. ok 0;
  event_sink = λ t e. ok tt;
  status_sink = λ t s. ok tt;
  session_sink = λ t s. ok tt;
}

-- An idle machine that still knows a request as a STOP refuses it as a START.
stale_stop :
    (r sid : String) (m : CaptureStateMachine) (t : Transition)
    → is_blank r ≡ false
    → is_blank sid ≡ false
    → lookup r m.requests ≡ some (record { command = stop_command; transition = t })
    → Session.start r sid m ≡ (err (request_conflict r "STOP" "START"), m)
unfolding Session.start
stale_stop r sid m t hr hs h = ground arith

-- An idle controller that has started a recorder for a new session: what it called, and what it keeps.
abbrev pub started_for : String → FilePath → ℕ → CaptureController → CaptureController
started_for sid dir h s = record s {
  recorder = some h;
  termination_confirmed = false;
  calls =
      started_recorder h (start_spec sid dir s)
      ∷ made_recorder
      ∷ wrote_qos (dir ++ "qos_overrides.yaml" ∷ []) s.topics
      ∷ created_session s.output_root sid
      ∷ made_session_id
      ∷ s.calls;
}

module _ (env : Env) (sid : String) (dir : FilePath) (h : ℕ)
    (identified : (t : Trace) → env.session_id_factory t ≡ ok sid)
    (created : (t : Trace) (root : FilePath) → env.create_session t root sid ≡ ok dir)
    (written : (t : Trace) (path : FilePath) (topics : List String)
      → env.write_qos t path topics ≡ ok tt)
    (made : (t : Trace) → env.recorder_factory t ≡ ok h)
    (started : (t : Trace) (spec : RecorderStartSpec) → env.recorder_start t h spec ≡ ok tt)
    (c : CaptureCommandFact) where
  -- The calls of a START, up to the recorder's.
  abbrev launched : CaptureController → CaptureController
  launched s = record (started_for sid dir h s) {
    recorder = s.recorder;
    termination_confirmed = s.termination_confirmed;
  }

  spawned : CaptureController → CaptureController
  spawned s = record (started_for sid dir h s) { recorder = none }

  session_made :
      (s : CaptureController)
      → create_session env s ≡ (
        ok (sid, dir),
        record s { calls = created_session s.output_root sid ∷ made_session_id ∷ s.calls },
      )
  unfolding create_session
  session_made s =
      ground (arith, identified s.calls, created (made_session_id ∷ s.calls) s.output_root)

  qos_written :
      (path : FilePath) (s : CaptureController)
      → write_qos env path s ≡ (ok tt, record s { calls = wrote_qos path s.topics ∷ s.calls })
  unfolding write_qos
  qos_written path s = ground (arith, written s.calls path s.topics)

  recorder_made :
      (spec : RecorderStartSpec) (s : CaptureController)
      → spawn env spec s
        ≡ (ok h, record s { calls = started_recorder h spec ∷ made_recorder ∷ s.calls })
  unfolding spawn
  recorder_made spec s = ground (arith, made s.calls, started (made_recorder ∷ s.calls) spec)

  reset_idle :
      (s : CaptureController)
      → s.machine.state ≡ idle
      → reset s ≡ record s { recorder = none; termination_confirmed = false }
  reset_idle s i = ground arith

  calm_launch :
      (s : CaptureController)
      → s.machine.state ≡ idle
      → launch env c s ≡ start_recording env c sid h (spawned s)
  unfolding launch start_created start_written start_spawned spawned
  calm_launch s i =
      let path = dir ++ "qos_overrides.yaml" ∷ [] in
      let u = reset s in
      let w = record u { calls = created_session s.output_root sid ∷ made_session_id ∷ s.calls } in
      let x = record w { calls = wrote_qos path s.topics ∷ w.calls } in
      ap (λ m. start_created env c m.0 m.1) (session_made u)
      ∙ ap (λ m. start_written env c sid dir m.0 m.1) (qos_written path w)
      ∙ ap (λ m. start_spawned env c sid m.0 m.1) (recorder_made (start_spec sid dir s) x)
      ∙ ap (λ r. start_recording env c sid h (launched r)) (reset_idle s i)

  calm_start :
      (s : CaptureController)
      → c.command ≡ start_command
      → c.planned_duration_sec ≤ s.max_bag_duration_seconds
      → s.machine.state ≡ idle
      → lookup c.request_id s.commands ≡ none
      → accept env c s ≡ start_recording env c sid h (spawned s)
  unfolding accept accept_known accept_fresh accept_start
  calm_start s k p i u =
      let short : ltb s.max_bag_duration_seconds c.planned_duration_sec ≡ false = ground arith in
      let rested : is_one_of s.machine.state (idle ∷ complete ∷ invalid ∷ []) ≡ true =
        ground arith in
      simp (u, k, short, rested) (calm_launch s i)

  refused_start :
      (s : CaptureController) (e : Session.Error)
      → Session.start c.request_id sid s.machine ≡ (err e, s.machine)
      → start_recording env c sid h s ≡ (err (session e), record s { recorder = some h })
  unfolding start_recording
  refused_start s e r = ground arith

  -- A request that an idle controller has evicted, and its machine still knows as a STOP, is sent as
  -- a START, with a duration within the limit; its identifier and the new session's are not blank.
  -- Where the collaborators make the session and the recorder and start it, the call makes just these
  -- calls, the start of the recorder last, and then raises a conflict. The controller keeps the
  -- recorder and stays IDLE, and a shutdown reports that nothing is left to stop, without asking the
  -- recorder, whatever the collaborators answer by then.
  pub orphaned_recorder :
      (s : CaptureController) (t : Transition)
      → is_blank sid ≡ false
      → is_blank c.request_id ≡ false
      → c.command ≡ start_command
      → c.planned_duration_sec ≤ s.max_bag_duration_seconds
      → s.machine.state ≡ idle
      → lookup c.request_id s.commands ≡ none
      → lookup c.request_id s.machine.requests
        ≡ some (record { command = stop_command; transition = t })
      → let (r, s') = accept env c s in
        (r ≡ err (session (request_conflict c.request_id "STOP" "START")))
        × (s' ≡ started_for sid dir h s)
        × (s'.machine.state ≡ idle)
        × ((later : Env) → shutdown later s' ≡ (ok true, s'))
  unfolding shutdown shutdown_in spawned
  orphaned_recorder s t hs hr k p i u q =
      let e = request_conflict c.request_id "STOP" "START" in
      let stale = stale_stop c.request_id sid s.machine t hr hs q in
      rw (calm_start s k p i u, refused_start (spawned s) e stale) (refl, refl, i, λ later. simp i)
