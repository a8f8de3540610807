-- ===== src/Capture/Controller/Starting.antt =====
-- The invariant of the capture controller on the ways out of START.
use mathlib.Core.Path.{subst, sym}
use vision_tactile_dataset.Common.{
  Bool, true, false, inl, inr, Bool-cases, ℕ, ◌+◌, ◌*◌, ◌≡◌, refl, ◌⊎◌, none, some, String, arith,
}
use vision_tactile_dataset.Common.Monad.{Result, ok, err, is_ok, ◌>>◌, pure, bind-rule, bind-keeps}
use vision_tactile_dataset.Capture.Session
use vision_tactile_dataset.Capture.Session.{
  CommandKind, CaptureState, Transition, idle, recording, complete, invalid, is_state,
  CaptureStateMachine, new_machine,
}
use vision_tactile_dataset.Capture.Session.Invariant
use vision_tactile_dataset.Capture.Session.Invariant.{call-IsValid, new_machine-IsValid}
use vision_tactile_dataset.Capture.Facts.{
  Env, Trace, Error, Detail, CaptureCommandFact, CommandReceipt, fatal, info, text, SessionInfoFact,
  sent_session,
}
use vision_tactile_dataset.Capture.Controller.{
  CaptureController, lift, remember, publish_event, publish_status, monotonic_ns,
  nanoseconds_per_second, message, call_out, in_machine,
}
use vision_tactile_dataset.Capture.Controller.Start.{
  startup_failed, start_recording, confirm_start, confirm_timed, effective_duration, start_spawned,
}
use vision_tactile_dataset.Capture.Controller.Invariant.{IsValid, Frame-IsValid}
use vision_tactile_dataset.Capture.Controller.Announcing.{remember-IsValid, announce-IsValid}

-- An answer of the machine to START: it stays where it was, or enters RECORDING.
start-state :
    (r sid : String) (m : CaptureStateMachine)
    → let m' = (Session.start r sid m).1 in
      ((m'.state ≡ m.state) ⊎ (m'.state ≡ recording))
      × (m'.request_cache_size ≡ m.request_cache_size)
unfolding Session.start
start-state r sid m = ground arith

start_error-state :
    (r sid : String) (m : CaptureStateMachine) (e : Session.Error)
    → (Session.start r sid m).0 ≡ err e
    → (Session.start r sid m).1 ≡ m
unfolding Session.start
start_error-state r sid m e h = ground arith

start-IsValid :
    (r sid : String) (m : CaptureStateMachine)
    → Invariant.IsValid m
    → Invariant.IsValid (Session.start r sid m).1
unfolding Session.call
start-IsValid r sid m v = call-IsValid (Session.start_event r sid) m v

pub in_machine-eq-err :
    {A : Type 0} (r : Result Session.Error A) (e : Error)
    → in_machine r ≡ err e
    → (x : Session.Error) × (r ≡ err x)
in_machine-eq-err (ok a) e h = cc
in_machine-eq-err (err x) e h = (x, refl)

module _ (clocked : Bool) (env : Env)
    (clock : clocked ≡ true → (t : Trace) → is_ok (env.monotonic_ns t) ≡ true) where
  pub startup_failed-IsValid :
      (c : CaptureCommandFact) (code : String) (d : Detail) (s : CaptureController)
      → IsValid clocked s
      → IsValid clocked (startup_failed env c code d s).1
  unfolding startup_failed remember publish_event
  startup_failed-IsValid c code d s v =
      let receipt : CommandReceipt = record {
        request_id = c.request_id;
        command = c.command;
        code = code;
        state = s.machine.state;
      } in
      announce-IsValid clocked env code fatal d d (some c.request_id) receipt
        (remember c.command receipt s).1 (remember-IsValid c.command receipt s v)

  -- The controller once the machine has answered START.
  abbrev answered_start : CaptureCommandFact → String → ℕ → CaptureController → CaptureController
  answered_start c sid h s = record s {
    recorder = some h;
    machine = (Session.start c.request_id sid s.machine).1;
  }

  -- And once its times are set.
  abbrev timed : CaptureCommandFact → ℕ → CaptureController → CaptureController
  timed c now s = record s {
    recording_started_ns = some now;
    planned_deadline_ns = some (now + effective_duration c s * nanoseconds_per_second);
  }

  timed-IsValid :
      (c : CaptureCommandFact) (now : ℕ) (s : CaptureController)
      → IsValid false s
      → IsValid clocked (timed c now s)
  timed-IsValid c now s v = record {
    machine = v.machine;
    sizes = v.sizes;
    bounded = v.bounded;
    keyed = v.keyed;
    recording_owns = v.recording_owns;
    finalizing_owns = v.finalizing_owns;
    recording_ends = λ c e. refl;
    complete_confirmed = v.complete_confirmed;
    never_invalid = v.never_invalid;
  }

  unclocked-IsValid : (s : CaptureController) → IsValid clocked s → IsValid false s
  unclocked-IsValid s v = record {
    machine = v.machine;
    sizes = v.sizes;
    bounded = v.bounded;
    keyed = v.keyed;
    recording_owns = v.recording_owns;
    finalizing_owns = v.finalizing_owns;
    recording_ends = λ c e. cc;
    complete_confirmed = v.complete_confirmed;
    never_invalid = v.never_invalid;
  }

  answered_start-IsValid :
      (c : CaptureCommandFact) (sid : String) (h : ℕ) (s : CaptureController)
      → IsValid clocked s
      → s.machine.state ≡ idle
      → IsValid false (answered_start c sid h s)
  answered_start-IsValid c sid h s v i =
      let step = start-state c.request_id sid s.machine in
      record {
        machine = start-IsValid c.request_id sid s.machine v.machine;
        sizes = ground arith;
        bounded = v.bounded;
        keyed = v.keyed;
        recording_owns = λ e. refl;
        finalizing_owns = λ e. refl;
        recording_ends = λ c e. cc;
        complete_confirmed = ground arith;
        never_invalid = ground arith;
      }

  owned-IsValid :
      (h : ℕ) (s : CaptureController)
      → IsValid clocked s
      → s.machine.state ≡ idle
      → IsValid clocked (record s { recorder = some h })
  owned-IsValid h s v i = record {
    machine = v.machine;
    sizes = v.sizes;
    bounded = v.bounded;
    keyed = v.keyed;
    recording_owns = λ e. refl;
    finalizing_owns = λ e. refl;
    recording_ends = v.recording_ends;
    complete_confirmed = v.complete_confirmed;
    never_invalid = v.never_invalid;
  }

  send_session-IsValid :
      (f : SessionInfoFact) (s : CaptureController)
      → IsValid clocked s
      → IsValid clocked (call_out (sent_session f) (λ t. env.session_sink t f) s).1
  send_session-IsValid f s v =
      Frame-IsValid s (call_out (sent_session f) (λ t. env.session_sink t f) s).1 (ground arith) v

  confirm_timed-IsValid :
      (c : CaptureCommandFact) (sid : String) (t : Transition) (now : ℕ) (s : CaptureController)
      → IsValid false s
      → IsValid clocked (confirm_timed env c sid t now s).1
  unfolding confirm_timed effective_duration remember
  confirm_timed-IsValid c sid t now s v =
      let receipt : CommandReceipt = record {
        request_id = c.request_id;
        command = c.command;
        code = t.code;
        state = t.state;
      } in
      let session_info : SessionInfoFact = record {
        session_id = sid;
        request_id = c.request_id;
        session_label = c.session_label;
      } in
      let started = text "Recorder process started" in
      let s1 = (remember c.command receipt (timed c now s)).1 in
      let w = remember-IsValid c.command receipt (timed c now s) (timed-IsValid c now s v) in
      let send = call_out (sent_session session_info) (λ t. env.session_sink t session_info) in
      bind-keeps (IsValid clocked) send
        (λ _.
          publish_event env "recorder_started" info started none
          >> (publish_status env started none >> pure receipt))
        s1 (send_session-IsValid session_info s1 w)
        (λ _ q.
          announce-IsValid clocked env "recorder_started" info started started none receipt
            (send s1).1 (send_session-IsValid session_info s1 w))

  -- Where the clock raises, it is not known never to raise.
  raised-IsValid : (s : CaptureController) → clocked ≡ false → IsValid false s → IsValid clocked s
  raised-IsValid s c v = subst (λ b. IsValid b s) (sym c) v

  clock_raised :
      (s : CaptureController) (e : Error) → (monotonic_ns env s).0 ≡ err e → clocked ≡ false
  unfolding monotonic_ns
  clock_raised s e raised = elim (Bool-cases clocked) [
    | inl known ↦ let answers = clock known s.calls in ground arith
    | inr unknown ↦ unknown
  ]

  confirm_start-IsValid :
      (c : CaptureCommandFact) (sid : String) (t : Transition) (s : CaptureController)
      → IsValid false s
      → IsValid clocked (confirm_start env c sid t s).1
  unfolding confirm_start monotonic_ns
  confirm_start-IsValid c sid t s v =
      let u = (monotonic_ns env s).1 in
      let w = Frame-IsValid s u (ground arith) v in
      bind-rule (IsValid clocked) (monotonic_ns env) (confirm_timed env c sid t) s
        (λ e raised. raised-IsValid u (clock_raised s e raised) w)
        (λ now q. confirm_timed-IsValid c sid t now u w)

  -- A START that the machine refuses leaves the recorder with the controller, which is still idle.
  start_recording-IsValid :
      (c : CaptureCommandFact) (sid : String) (h : ℕ) (s : CaptureController)
      → IsValid clocked s
      → s.machine.state ≡ idle
      → IsValid clocked (start_recording env c sid h s).1
  unfolding start_recording
  start_recording-IsValid c sid h s v i =
      bind-rule (IsValid clocked) (lift (Session.start c.request_id sid)) (confirm_start env c sid)
        (record s { recorder = some h })
        (λ e raised.
          let (x, r) = in_machine-eq-err (Session.start c.request_id sid s.machine).0 e raised in
          rw (start_error-state c.request_id sid s.machine x r) (owned-IsValid h s v i))
        (λ t answer.
          confirm_start-IsValid c sid t (answered_start c sid h s)
            (answered_start-IsValid c sid h s v i))

  pub start_spawned-IsValid :
      (c : CaptureCommandFact) (sid : String) (r : Result Error ℕ) (s : CaptureController)
      → IsValid clocked s
      → s.machine.state ≡ idle
      → IsValid clocked (start_spawned env c sid r s).1
  unfolding start_spawned
  start_spawned-IsValid c sid (err e) s v i =
      startup_failed-IsValid c "recorder_spawn_failed" (message e) s v
  start_spawned-IsValid c sid (ok h) s v i = start_recording-IsValid c sid h s v i
