-- ===== src/Capture/Controller/Retries.antt =====
-- A command that is sent again: the controller answers from its cache.
use vision_tactile_dataset.Common.{
  ℕ, ◌+◌, ◌*◌, ◌≡◌, refl, ◌<◌, false, Option, none, some, [], ◌∷◌, ◌++◌, String, arith, Bool-cases,
  inl, inr, ltb,
}
use vision_tactile_dataset.Common.Dict.{lookup, lookup-evict-insert_new}
use vision_tactile_dataset.Common.Monad.{Result, ok, err, ◌>>◌, pure, Ends, bind-Ends}
use vision_tactile_dataset.Capture.Session
use vision_tactile_dataset.Capture.Session.{
  CommandKind, start_command, stop_command, is_kind, is_state, is_one_of, idle, complete, invalid,
  Transition, kind_value,
}
use vision_tactile_dataset.Capture.Facts.{
  Env, Error, Detail, EventSeverity, CaptureCommandFact, CommandReceipt, FilePath, fatal, info,
  warning, text, SessionInfoFact, sent_session,
}
use vision_tactile_dataset.Capture.Controller.{
  CaptureController, lift, remember, publish_event, publish_status, monotonic_ns, message, call_out,
  nanoseconds_per_second,
}
use vision_tactile_dataset.Capture.Controller.Start.{
  startup_failed, confirm_start, confirm_timed, start_recording, start_spawned, spawn,
  start_written, write_qos, start_created, start_spec, create_session, reset, launch, accept_start,
  effective_duration,
}
use vision_tactile_dataset.Capture.Controller.Finalization.{drive_finalization}
use vision_tactile_dataset.Capture.Controller.Commands.{
  receipt_of, acknowledge_stop, confirm_idle, stop_recording, confirm_stop, accept_stop,
  accept_fresh,
}
use vision_tactile_dataset.Capture.Controller.Frames.{
  Frame, publish_event-Frame, publish_status-Frame, create_session-Frame, spawn-Frame,
  write_qos-Frame,
}
use vision_tactile_dataset.Capture.Controller.Closing.{drive_finalization-Drives}

-- The receipt that the cache holds for a command.
abbrev pub Remembers : CaptureCommandFact → CommandReceipt → CaptureController → Type 0
Remembers c r s = lookup c.request_id s.commands ≡ some (c.command, r)

-- Before the command: its request is unknown, and the cache has room for it.
abbrev pub IsNew : CaptureCommandFact → CaptureController → Type 0
IsNew c s = (0 < s.request_cache_size) × (lookup c.request_id s.commands ≡ none)

remember-Remembers :
    (c : CaptureCommandFact) (r : CommandReceipt) (s : CaptureController)
    → r.request_id ≡ c.request_id
    → IsNew c s
    → Remembers c r (remember c.command r s).1
unfolding remember
remember-Remembers c r s e n =
    simp e
      (lookup-evict-insert_new c.request_id (c.command, r) s.request_cache_size s.commands n.0 n.1)

Frame-Remembers :
    (c : CaptureCommandFact) (r : CommandReceipt) (s s' : CaptureController)
    → Frame s s'
    → Remembers c r s
    → Remembers c r s'
Frame-Remembers c r s s' f h = ground arith

Frame-IsNew :
    (c : CaptureCommandFact) (s s' : CaptureController) → Frame s s' → IsNew c s → IsNew c s'
Frame-IsNew c s s' f n = ground arith

module _ (env : Env) (c : CaptureCommandFact) where
  announce-Remembers :
      (code : String) (sev : EventSeverity) (d e : Detail) (o : Option String) (r : CommandReceipt)
      (s : CaptureController)
      → Remembers c r s
      → Ends
          (Remembers c)
          ((publish_event env code sev d o >> (publish_status env e o >> pure r)) s)
  announce-Remembers code sev d e o r s h =
      let event = publish_event env code sev d o in
      let t = (event s).1 in
      bind-Ends (Remembers c) event (λ _. publish_status env e o >> pure r) s
        (λ _ p.
          bind-Ends (Remembers c) (publish_status env e o) (λ _. pure r) t
            (λ _ q.
              Frame-Remembers c r t (publish_status env e o t).1 (publish_status-Frame env e o t)
                (Frame-Remembers c r s t (publish_event-Frame env code sev d o s) h)))

  startup_failed-Remembers :
      (code : String) (d : Detail) (s : CaptureController)
      → IsNew c s
      → Ends (Remembers c) (startup_failed env c code d s)
  unfolding startup_failed remember publish_event
  startup_failed-Remembers code d s n =
      let r : CommandReceipt = record {
        request_id = c.request_id;
        command = c.command;
        code = code;
        state = s.machine.state;
      } in
      announce-Remembers code fatal d d (some c.request_id) r (remember c.command r s).1
        (remember-Remembers c r s refl n)

  confirm_timed-Remembers :
      (sid : String) (t : Transition) (now : ℕ) (s : CaptureController)
      → IsNew c s
      → Ends (Remembers c) (confirm_timed env c sid t now s)
  unfolding confirm_timed remember effective_duration
  confirm_timed-Remembers sid t now s n =
      let r = receipt_of c t in
      let f : SessionInfoFact = record {
        session_id = sid;
        request_id = c.request_id;
        session_label = c.session_label;
      } in
      let started = text "Recorder process started" in
      let s1 =
        (remember c.command r (record s {
          recording_started_ns = some now;
          planned_deadline_ns = some (now + effective_duration c s * nanoseconds_per_second);
        })).1 in
      let send = call_out (sent_session f) (λ t. env.session_sink t f) in
      bind-Ends (Remembers c) send
        (λ _.
          publish_event env "recorder_started" info started none
          >> (publish_status env started none >> pure r))
        s1
        (λ _ q.
          announce-Remembers "recorder_started" info started started none r (send s1).1
            (remember-Remembers c r s refl n))

  confirm_start-Remembers :
      (sid : String) (t : Transition) (s : CaptureController)
      → IsNew c s
      → Ends (Remembers c) (confirm_start env c sid t s)
  unfolding confirm_start monotonic_ns
  confirm_start-Remembers sid t s n =
      bind-Ends (Remembers c) (monotonic_ns env) (confirm_timed env c sid t) s
        (λ now q. confirm_timed-Remembers sid t now (monotonic_ns env s).1 n)

  start_recording-Remembers :
      (sid : String) (h : ℕ) (s : CaptureController)
      → IsNew c s
      → Ends (Remembers c) (start_recording env c sid h s)
  unfolding start_recording
  start_recording-Remembers sid h s n =
      bind-Ends (Remembers c) (lift (Session.start c.request_id sid)) (confirm_start env c sid)
        (record s { recorder = some h })
        (λ t q.
          confirm_start-Remembers sid t
            (lift (Session.start c.request_id sid) (record s { recorder = some h })).1 n)

  start_spawned-Remembers :
      (sid : String) (r : Result Error ℕ) (s : CaptureController)
      → IsNew c s
      → Ends (Remembers c) (start_spawned env c sid r s)
  unfolding start_spawned
  start_spawned-Remembers sid (err e) s n =
      startup_failed-Remembers "recorder_spawn_failed" (message e) s n
  start_spawned-Remembers sid (ok h) s n = start_recording-Remembers sid h s n

  start_written-Remembers :
      (sid : String) (dir : FilePath) (r : Result Error (Unit {0})) (s : CaptureController)
      → IsNew c s
      → Ends (Remembers c) (start_written env c sid dir r s)
  unfolding start_written
  start_written-Remembers sid dir (err e) s n =
      startup_failed-Remembers "recorder_parameters_failed" (message e) s n
  start_written-Remembers sid dir (ok _) s n =
      let spec = start_spec sid dir s in
      let t = (spawn env spec s).1 in
      start_spawned-Remembers sid (spawn env spec s).0 t
        (Frame-IsNew c s t (spawn-Frame env spec s) n)

  start_created-Remembers :
      (r : Result Error (String × FilePath)) (s : CaptureController)
      → IsNew c s
      → Ends (Remembers c) (start_created env c r s)
  unfolding start_created
  start_created-Remembers (err e) s n =
      startup_failed-Remembers "session_create_failed" (message e) s n
  start_created-Remembers (ok (sid, dir)) s n =
      let path = dir ++ "qos_overrides.yaml" ∷ [] in
      let t = (write_qos env path s).1 in
      start_written-Remembers sid dir (write_qos env path s).0 t
        (Frame-IsNew c s t (write_qos-Frame env path s) n)

  launch-Remembers : (s : CaptureController) → IsNew c s → Ends (Remembers c) (launch env c s)
  unfolding launch
  launch-Remembers s n =
      let t = (create_session env (reset s)).1 in
      start_created-Remembers (create_session env (reset s)).0 t
        (Frame-IsNew c (reset s) t (create_session-Frame env (reset s)) n)

  accept_start-Remembers :
      (s : CaptureController) → IsNew c s → Ends (Remembers c) (accept_start env c s)
  unfolding accept_start
  accept_start-Remembers s n =
      elim (Bool-cases (ltb s.max_bag_duration_seconds c.planned_duration_sec)) [
        | inl long ↦ simp long tt
        | inr short ↦
            elim (Bool-cases (is_one_of s.machine.state (idle ∷ complete ∷ invalid ∷ []))) [
              | inl rested ↦ simp (short, rested) (launch-Remembers s n)
              | inr busy ↦ simp (short, busy) tt
            ]
      ]

  confirm_idle-Remembers :
      (t : Transition) (s : CaptureController)
      → IsNew c s
      → Ends (Remembers c) (confirm_idle env c t s)
  unfolding confirm_idle remember publish_event
  confirm_idle-Remembers t s n =
      let d = text "STOP received while idle" in
      announce-Remembers "stop_while_idle" warning d d (some c.request_id) (receipt_of c t)
        (remember c.command (receipt_of c t) s).1 (remember-Remembers c (receipt_of c t) s refl n)

  drive-Remembers :
      (r : CommandReceipt) (s : CaptureController)
      → Remembers c r s
      → Ends (Remembers c) ((drive_finalization env "STOP requested" false >> pure r) s)
  drive-Remembers r s h =
      let drive = drive_finalization env "STOP requested" false in
      bind-Ends (Remembers c) drive (λ _. pure r) s
        (λ _ q. elim (drive_finalization-Drives env "STOP requested" false s) [
          | inl same ↦ Frame-Remembers c r s (drive s).1 same.0 h
          | inr ended ↦ let closed = ended.closed in ground arith
        ])

  confirm_stop-Remembers :
      (t : Transition) (s : CaptureController)
      → IsNew c s
      → Ends (Remembers c) (confirm_stop env c t s)
  unfolding confirm_stop remember
  confirm_stop-Remembers t s n =
      let r = receipt_of c t in
      let u = (remember c.command r s).1 in
      let event = publish_event env "finalizing" info (text "STOP accepted") none in
      let status = publish_status env (text "STOP accepted; finalizing") none in
      let drive = drive_finalization env "STOP requested" false in
      let v = (event u).1 in
      bind-Ends (Remembers c) event (λ _. status >> (drive >> pure r)) u
        (λ _ p.
          bind-Ends (Remembers c) status (λ _. drive >> pure r) v
            (λ _ q. drive-Remembers r (status v).1 (
              Frame-Remembers c r v (status v).1
                (publish_status-Frame env (text "STOP accepted; finalizing") none v)
                (Frame-Remembers c r u v
                  (publish_event-Frame env "finalizing" info (text "STOP accepted") none u)
                  (remember-Remembers c r s refl n)))))

  accept_stop-Remembers :
      (s : CaptureController) → IsNew c s → Ends (Remembers c) (accept_stop env c s)
  unfolding accept_stop acknowledge_stop stop_recording
  accept_stop-Remembers s n = elim (Bool-cases (is_state s.machine.state idle)) [
    | inl i ↦ simp i (
        bind-Ends (Remembers c) (lift (Session.stop_while_idle c.request_id)) (confirm_idle env c) s
          (λ t q. confirm_idle-Remembers t (lift (Session.stop_while_idle c.request_id) s).1 n))
    | inr b ↦ simp b (
        bind-Ends (Remembers c) (lift (Session.stop c.request_id)) (confirm_stop env c) s
          (λ t q. confirm_stop-Remembers t (lift (Session.stop c.request_id) s).1 n))
  ]

  pub accept_fresh-Remembers :
      (k : CommandKind) (s : CaptureController)
      → IsNew c s
      → Ends (Remembers c) (accept_fresh env k c s)
  unfolding accept_fresh
  accept_fresh-Remembers start_command s n = accept_start-Remembers s n
  accept_fresh-Remembers stop_command s n = accept_stop-Remembers s n
