-- ===== src/Capture/Controller/Accepting.antt =====
-- The invariant of the capture controller on the ways out of a command.
use vision_tactile_dataset.Common.{
  Bool, true, ◌≡◌, refl, Bool-cases, [], ◌++◌, inl, inr, false, Option, none, some, ◌∷◌, String,
  arith,
}
use vision_tactile_dataset.Common.Dict.{lookup}
use vision_tactile_dataset.Common.Monad.{is_ok, Result, ok, err, ◌>>◌, pure, bind-keeps}
use vision_tactile_dataset.Capture.Session
use vision_tactile_dataset.Capture.Session.{
  CommandKind, kind_value, CaptureState, Transition, idle, recording, complete, invalid, is_state,
  is_one_of, CaptureStateMachine, new_machine,
}
use vision_tactile_dataset.Capture.Session.Invariant
use vision_tactile_dataset.Capture.Session.Invariant.{call-IsValid, new_machine-IsValid}
use vision_tactile_dataset.Capture.Facts.{
  Env, Trace, Error, warning, conflicting, CaptureCommandFact, CommandReceipt, info, text, FilePath,
}
use vision_tactile_dataset.Capture.Controller.{
  CaptureController, lift, remember, publish_event, publish_status, message,
}
use vision_tactile_dataset.Capture.Controller.Start.{
  spawn, start_written, write_qos, start_created, start_spec, create_session, reset, launch,
  accept_start,
}
use vision_tactile_dataset.Capture.Controller.Frames.{
  Frame, create_session-Frame, spawn-Frame, write_qos-Frame,
}
use vision_tactile_dataset.Capture.Controller.Invariant.{IsValid, Frame-IsValid}
use vision_tactile_dataset.Capture.Controller.Finalization.{drive_finalization}
use vision_tactile_dataset.Capture.Controller.Commands.{
  acknowledge_stop, stop_recording, receipt_of, confirm_idle, confirm_stop, accept_stop,
  accept_fresh, accept_known, accept,
}
use vision_tactile_dataset.Capture.Controller.Invariant.{drive_finalization-IsValid}
use vision_tactile_dataset.Capture.Controller.Announcing.{
  remember-IsValid, announce-IsValid, publish_event-IsValid, publish_status-IsValid,
}
use vision_tactile_dataset.Capture.Controller.Preservation.{
  step-IsValid, stop-StepsOn, stop_while_idle-StepsOn,
}
use vision_tactile_dataset.Capture.Controller.Starting.{
  startup_failed-IsValid, start_spawned-IsValid,
}

module _ (clocked : Bool) (env : Env)
    (clock : clocked ≡ true → (t : Trace) → is_ok (env.monotonic_ns t) ≡ true) where
  -- An idle controller that satisfies the invariant, and whose parts a call out leaves alone.
  abbrev IsReady : CaptureController → Type 0
  IsReady s = IsValid clocked s × (s.machine.state ≡ idle)

  Frame-IsReady : (s s' : CaptureController) → Frame s s' → IsReady s → IsReady s'
  Frame-IsReady s s' f (v, i) = (Frame-IsValid s s' f v, ground arith)

  start_written-IsValid :
      (c : CaptureCommandFact) (sid : String) (dir : FilePath) (r : Result Error (Unit {0}))
      (s : CaptureController)
      → IsReady s
      → IsValid clocked (start_written env c sid dir r s).1
  unfolding start_written
  start_written-IsValid c sid dir (err e) s v =
      startup_failed-IsValid clocked env clock c "recorder_parameters_failed" (message e) s v.0
  start_written-IsValid c sid dir (ok _) s v =
      let spec = start_spec sid dir s in
      let t = (spawn env spec s).1 in
      let w = Frame-IsReady s t (spawn-Frame env spec s) v in
      start_spawned-IsValid clocked env clock c sid (spawn env spec s).0 t w.0 w.1

  start_created-IsValid :
      (c : CaptureCommandFact) (r : Result Error (String × FilePath)) (s : CaptureController)
      → IsReady s
      → IsValid clocked (start_created env c r s).1
  unfolding start_created
  start_created-IsValid c (err e) s v =
      startup_failed-IsValid clocked env clock c "session_create_failed" (message e) s v.0
  start_created-IsValid c (ok (sid, dir)) s v =
      let path = dir ++ "qos_overrides.yaml" ∷ [] in
      let t = (write_qos env path s).1 in
      start_written-IsValid c sid dir (write_qos env path s).0 t
        (Frame-IsReady s t (write_qos-Frame env path s) v)

  rested-IsReady :
      (s : CaptureController) (m : CaptureStateMachine)
      → IsValid clocked s
      → Invariant.IsValid m
      → m.state ≡ idle
      → m.request_cache_size ≡ s.request_cache_size
      → IsReady (record s { machine = m; recorder = none; termination_confirmed = false })
  rested-IsReady s m v w i e = (
    record {
      machine = w;
      sizes = e;
      bounded = v.bounded;
      keyed = v.keyed;
      recording_owns = ground arith;
      finalizing_owns = ground arith;
      recording_ends = λ c e. ground arith;
      complete_confirmed = ground arith;
      never_invalid = ground arith;
    },
    i,
  )

  -- START begins from a machine at rest: the idle one it has, or a new one.
  reset-IsReady : (s : CaptureController) → IsValid clocked s → IsReady (reset s)
  reset-IsReady s v = elim (Bool-cases (is_state s.machine.state idle)) [
    | inl i ↦ simp i (rested-IsReady s s.machine v v.machine (ground arith) v.sizes)
    | inr n ↦
        let size = s.request_cache_size in
        simp n (
          rested-IsReady s (new_machine size) v
            (new_machine-IsValid size (ground (arith, v.machine.size_positive))) refl refl)
  ]

  launch-IsValid :
      (c : CaptureCommandFact) (s : CaptureController)
      → IsValid clocked s
      → IsValid clocked (launch env c s).1
  unfolding launch
  launch-IsValid c s v =
      let t = (create_session env (reset s)).1 in
      start_created-IsValid c (create_session env (reset s)).0 t
        (Frame-IsReady (reset s) t (create_session-Frame env (reset s)) (reset-IsReady s v))

  accept_start-IsValid :
      (c : CaptureCommandFact) (s : CaptureController)
      → IsValid clocked s
      → IsValid clocked (accept_start env c s).1
  unfolding accept_start
  accept_start-IsValid c s v = ground (arith, launch-IsValid c s v)

  -- STOP: the machine's two answers.
  stop_while_idle-IsValid :
      (r : String) (s : CaptureController)
      → IsValid clocked s
      → IsValid clocked (lift (Session.stop_while_idle r) s).1
  unfolding Session.call
  stop_while_idle-IsValid r s v =
      step-IsValid s (Session.stop_while_idle r s.machine).1 v
        (call-IsValid (Session.stop_while_idle_event r) s.machine v.machine)
        (stop_while_idle-StepsOn r s.machine)

  stop-IsValid :
      (r : String) (s : CaptureController)
      → IsValid clocked s
      → IsValid clocked (lift (Session.stop r) s).1
  unfolding Session.call
  stop-IsValid r s v =
      step-IsValid s (Session.stop r s.machine).1 v
        (call-IsValid (Session.stop_event r) s.machine v.machine) (stop-StepsOn r s.machine)

  confirm_idle-IsValid :
      (c : CaptureCommandFact) (t : Transition) (s : CaptureController)
      → IsValid clocked s
      → IsValid clocked (confirm_idle env c t s).1
  unfolding confirm_idle remember publish_event
  confirm_idle-IsValid c t s v =
      let d = text "STOP received while idle" in
      announce-IsValid clocked env "stop_while_idle" warning d d (some c.request_id)
        (receipt_of c t) (remember c.command (receipt_of c t) s).1
        (remember-IsValid c.command (receipt_of c t) s v)

  confirm_stop-IsValid :
      (c : CaptureCommandFact) (t : Transition) (s : CaptureController)
      → IsValid clocked s
      → IsValid clocked (confirm_stop env c t s).1
  unfolding confirm_stop remember
  confirm_stop-IsValid c t s v =
      let u = (remember c.command (receipt_of c t) s).1 in
      let w = remember-IsValid c.command (receipt_of c t) s v in
      let event = publish_event env "finalizing" info (text "STOP accepted") none in
      let status = publish_status env (text "STOP accepted; finalizing") none in
      let drive = drive_finalization env "STOP requested" false in
      let w1 =
        publish_event-IsValid clocked env "finalizing" info (text "STOP accepted") none u w in
      let w2 =
        publish_status-IsValid clocked env (text "STOP accepted; finalizing") none (event u).1 w1 in
      let w3 =
        drive_finalization-IsValid clocked env "STOP requested" false (status (event u).1).1 w2 in
      bind-keeps (IsValid clocked) event (λ _. status >> (drive >> pure (receipt_of c t))) u w1
        (λ _ p.
          bind-keeps (IsValid clocked) status (λ _. drive >> pure (receipt_of c t)) (event u).1 w2
            (λ _ q.
              bind-keeps (IsValid clocked) drive (λ _. pure (receipt_of c t)) (status (event u).1).1
                w3 (λ _ r. w3)))

  accept_stop-IsValid :
      (c : CaptureCommandFact) (s : CaptureController)
      → IsValid clocked s
      → IsValid clocked (accept_stop env c s).1
  unfolding accept_stop acknowledge_stop stop_recording
  accept_stop-IsValid c s v =
      let r = c.request_id in
      elim (Bool-cases (is_state s.machine.state idle)) [
        | inl i ↦ simp i (
            bind-keeps (IsValid clocked) (lift (Session.stop_while_idle r)) (confirm_idle env c) s
              (stop_while_idle-IsValid r s v)
              (λ t q.
                confirm_idle-IsValid c t (lift (Session.stop_while_idle r) s).1
                  (stop_while_idle-IsValid r s v)))
        | inr n ↦ simp n (
            bind-keeps (IsValid clocked) (lift (Session.stop r)) (confirm_stop env c) s
              (stop-IsValid r s v)
              (λ t q. confirm_stop-IsValid c t (lift (Session.stop r) s).1 (stop-IsValid r s v)))
      ]

  accept_known-IsValid :
      (o : Option (CommandKind × CommandReceipt)) (c : CaptureCommandFact) (s : CaptureController)
      → IsValid clocked s
      → IsValid clocked (accept_known env o c s).1
  unfolding accept_known accept_fresh
  accept_known-IsValid none c s v =
      ground (arith, accept_start-IsValid c s v, accept_stop-IsValid c s v)
  accept_known-IsValid (some (k, r)) c s v = ground (
    arith,
    publish_event-IsValid clocked env "request_conflict" warning
        (conflicting c.request_id (kind_value k) (kind_value c.command)) (some c.request_id) s v,
  )

  -- Whatever a command is and however the collaborators answer, accepting it keeps the invariant,
  -- also where it raises.
  pub accept-IsValid :
      (c : CaptureCommandFact) (s : CaptureController)
      → IsValid clocked s
      → IsValid clocked (accept env c s).1
  unfolding accept
  accept-IsValid c s v = accept_known-IsValid (lookup c.request_id s.commands) c s v
