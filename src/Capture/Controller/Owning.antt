-- ===== src/Capture/Controller/Owning.antt =====
-- START and the recorder, for a request that the machine does not know.
use vision_tactile_dataset.Common.{
  ℕ, ◌≡◌, refl, true, false, Option, none, some, [], ◌∷◌, ◌++◌, String, arith, is_some, is_blank,
}
use vision_tactile_dataset.Common.Dict.{lookup}
use vision_tactile_dataset.Common.Monad.{Result, ok, err, ◌>>◌, pure, bind-rule, bind-keeps}
use vision_tactile_dataset.Capture.Session
use vision_tactile_dataset.Capture.Session.{
  idle, recording, complete, invalid, is_state, is_one_of, CaptureStateMachine, Transition,
}
use vision_tactile_dataset.Capture.Facts.{
  Env, Error, Detail, EventSeverity, fatal, info, text, CaptureCommandFact, CommandReceipt,
  FilePath, SessionInfoFact, sent_session,
}
use vision_tactile_dataset.Capture.Controller.{
  CaptureController, lift, remember, message, publish_event, publish_status, monotonic_ns, call_out,
}
use vision_tactile_dataset.Capture.Controller.Start.{
  startup_failed, start_recording, confirm_start, confirm_timed, start_spawned, spawn,
  start_written, write_qos, start_created, start_spec, create_session, reset, launch,
  effective_duration,
}
use vision_tactile_dataset.Capture.Controller.Commands.{receipt_of}
use vision_tactile_dataset.Capture.Controller.Starting.{in_machine-eq-err}
use vision_tactile_dataset.Capture.Controller.Frames.{
  Frame, publish_event-Frame, publish_status-Frame, create_session-Frame, spawn-Frame,
  write_qos-Frame,
}

-- A recorder is owned only while recording.
abbrev pub Owns : CaptureController → Type 0
Owns s = is_some s.recorder ≡ true → s.machine.state ≡ recording

Frame-Owns : (s s' : CaptureController) → Frame s s' → Owns s → Owns s'
Frame-Owns s s' f o h = ground (arith, o (ground arith))

start-recording :
    (r sid : String) (m : CaptureStateMachine)
    → is_blank r ≡ false
    → is_blank sid ≡ false
    → m.state ≡ idle
    → lookup r m.requests ≡ none
    → (Session.start r sid m).1.state ≡ recording
unfolding Session.start
start-recording r sid m hr hs i n = ground arith

start_returns :
    (r sid : String) (m : CaptureStateMachine) (e : Session.Error)
    → is_blank r ≡ false
    → is_blank sid ≡ false
    → m.state ≡ idle
    → lookup r m.requests ≡ none
    → (Session.start r sid m).0 ≡ err e
    → ⊥
unfolding Session.start
start_returns r sid m e hr hs i n h = ground arith

module _ (env : Env) (c : CaptureCommandFact) (named : is_blank c.request_id ≡ false) where
  -- Behind the reset: no recorder, and a machine at rest that does not know the request.
  abbrev IsFree : CaptureController → Type 0
  IsFree s =
      (s.recorder ≡ none)
      × (s.machine.state ≡ idle)
      × (lookup c.request_id s.machine.requests ≡ none)

  Frame-IsFree : (s s' : CaptureController) → Frame s s' → IsFree s → IsFree s'
  Frame-IsFree s s' f n = ground arith

  announce-Owns :
      (code : String) (sev : EventSeverity) (d e : Detail) (o : Option String) (r : CommandReceipt)
      (s : CaptureController)
      → Owns s
      → Owns ((publish_event env code sev d o >> (publish_status env e o >> pure r)) s).1
  announce-Owns code sev d e o r s h =
      let event = publish_event env code sev d o in
      let t = (event s).1 in
      let w = Frame-Owns s t (publish_event-Frame env code sev d o s) h in
      let x = Frame-Owns t (publish_status env e o t).1 (publish_status-Frame env e o t) w in
      bind-keeps Owns event (λ _. publish_status env e o >> pure r) s w
        (λ _ p. bind-keeps Owns (publish_status env e o) (λ _. pure r) t x (λ _ q. x))

  startup_failed-Owns :
      (code : String) (d : Detail) (s : CaptureController)
      → IsFree s
      → Owns (startup_failed env c code d s).1
  unfolding startup_failed remember publish_event
  startup_failed-Owns code d s n =
      let r : CommandReceipt = record {
        request_id = c.request_id;
        command = c.command;
        code = code;
        state = s.machine.state;
      } in
      announce-Owns code fatal d d (some c.request_id) r (remember c.command r s).1
        (λ h. ground arith)

  confirm_timed-Owns :
      (sid : String) (t : Transition) (now : ℕ) (s : CaptureController)
      → s.machine.state ≡ recording
      → Owns (confirm_timed env c sid t now s).1
  unfolding confirm_timed remember effective_duration
  confirm_timed-Owns sid t now s h =
      let f : SessionInfoFact = record {
        session_id = sid;
        request_id = c.request_id;
        session_label = c.session_label;
      } in
      let started = text "Recorder process started" in
      let send = call_out (sent_session f) (λ t. env.session_sink t f) in
      bind-keeps Owns send
        (λ _.
          publish_event env "recorder_started" info started none
          >> (publish_status env started none >> pure (receipt_of c t)))
        _ (λ _. h)
        (λ _ q.
          announce-Owns "recorder_started" info started started none (receipt_of c t) _ (λ _. h))

  confirm_start-Owns :
      (sid : String) (t : Transition) (s : CaptureController)
      → s.machine.state ≡ recording
      → Owns (confirm_start env c sid t s).1
  unfolding confirm_start monotonic_ns
  confirm_start-Owns sid t s h =
      bind-keeps Owns (monotonic_ns env) (confirm_timed env c sid t) s (λ _. h)
        (λ now q. confirm_timed-Owns sid t now (monotonic_ns env s).1 h)

  start_recording-Owns :
      (sid : String) (h : ℕ) (s : CaptureController)
      → is_blank sid ≡ false
      → IsFree s
      → Owns (start_recording env c sid h s).1
  unfolding start_recording
  start_recording-Owns sid h s hs n =
      bind-rule Owns (lift (Session.start c.request_id sid)) (confirm_start env c sid)
        (record s { recorder = some h })
        (λ e raised.
          let (x, r) = in_machine-eq-err (Session.start c.request_id sid s.machine).0 e raised in
          absurd (start_returns c.request_id sid s.machine x named hs n.1 n.2 r))
        (λ t q.
          confirm_start-Owns sid t
            (lift (Session.start c.request_id sid) (record s { recorder = some h })).1
            (start-recording c.request_id sid s.machine named hs n.1 n.2))

  start_spawned-Owns :
      (sid : String) (r : Result Error ℕ) (s : CaptureController)
      → is_blank sid ≡ false
      → IsFree s
      → Owns (start_spawned env c sid r s).1
  unfolding start_spawned
  start_spawned-Owns sid (err e) s hs n =
      startup_failed-Owns "recorder_spawn_failed" (message e) s n
  start_spawned-Owns sid (ok h) s hs n = start_recording-Owns sid h s hs n

  start_written-Owns :
      (sid : String) (dir : FilePath) (r : Result Error (Unit {0})) (s : CaptureController)
      → is_blank sid ≡ false
      → IsFree s
      → Owns (start_written env c sid dir r s).1
  unfolding start_written
  start_written-Owns sid dir (err e) s hs n =
      startup_failed-Owns "recorder_parameters_failed" (message e) s n
  start_written-Owns sid dir (ok _) s hs n =
      let spec = start_spec sid dir s in
      let t = (spawn env spec s).1 in
      start_spawned-Owns sid (spawn env spec s).0 t hs (Frame-IsFree s t (spawn-Frame env spec s) n)

  -- A session that was created has a name that the factory gave.
  abbrev pub IsNamed : Result Error (String × FilePath) → Type 0
  IsNamed (err e) = Unit {0}
  IsNamed (ok (sid, dir)) = is_blank sid ≡ false

  start_created-Owns :
      (r : Result Error (String × FilePath)) (s : CaptureController)
      → IsNamed r
      → IsFree s
      → Owns (start_created env c r s).1
  unfolding start_created
  start_created-Owns (err e) s hs n = startup_failed-Owns "session_create_failed" (message e) s n
  start_created-Owns (ok (sid, dir)) s hs n =
      let path = dir ++ "qos_overrides.yaml" ∷ [] in
      let t = (write_qos env path s).1 in
      start_written-Owns sid dir (write_qos env path s).0 t hs
        (Frame-IsFree s t (write_qos-Frame env path s) n)

  -- START behind its guards, for a request that the machine does not know, where the session store
  -- raises or names the session with a text that is not blank: afterwards, also where it raises,
  -- the controller has a recorder only if it is RECORDING.
  pub launch-Owns :
      (s : CaptureController)
      → IsNamed (create_session env (reset s)).0
      → lookup c.request_id (reset s).machine.requests ≡ none
      → Owns (launch env c s).1
  unfolding launch
  launch-Owns s hs n =
      let t = (create_session env (reset s)).1 in
      start_created-Owns (create_session env (reset s)).0 t hs
        (Frame-IsFree (reset s) t (create_session-Frame env (reset s)) (refl, ground arith, n))
