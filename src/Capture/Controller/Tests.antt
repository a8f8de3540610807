-- ===== src/Capture/Controller/Tests.antt =====
-- Captures with concrete collaborators, and the theorems of the siblings at them.
use vision_tactile_dataset.Common.{
  ◌≡◌, ◌≢◌, refl, Bool, true, false, not, some, none, [], ◌∷◌, String, arith, inl, is_blank,
}
use vision_tactile_dataset.Common.Dict.{insert, evict}
use vision_tactile_dataset.Common.Monad.{ok, err}
use vision_tactile_dataset.Capture.Session
use vision_tactile_dataset.Capture.Session.{
  idle, recording, finalizing, complete, CommandKind, start_command, stop_command, Transition,
  request_conflict,
}
use vision_tactile_dataset.Capture.Facts.{
  Env, CaptureCommandFact, CommandReceipt, session, asked_health, read_clock, alive, exited,
  RecorderStopFact,
}
use vision_tactile_dataset.Capture.Controller.{
  CaptureController, new_controller, remember, publish_event, publish_status, recorder_alive,
  ask_alive, recorder_health, recorder_stop, monotonic_ns,
}
use vision_tactile_dataset.Capture.Controller.Finalization.{
  publish_guarded, publish_finalization_result, finalize, drive_finalization, is_due, tick_due,
  tick_recording, tick_in, tick, shutdown_in, shutdown,
}
use vision_tactile_dataset.Capture.Controller.Start.{
  startup_failed, confirm_start, confirm_timed, start_recording, start_spawned, spawn,
  start_written, write_qos, start_created, create_session, launch, accept_start, effective_duration,
}
use vision_tactile_dataset.Capture.Controller.Commands.{
  confirm_idle, acknowledge_stop, confirm_stop, stop_recording, accept_stop, accept_fresh,
  accept_known, accept,
}
use vision_tactile_dataset.Capture.Controller.Idempotence.{accept_again, accept_conflict, warned}
use vision_tactile_dataset.Capture.Controller.Ending.{shutdown_reports, ended_state}
use vision_tactile_dataset.Capture.Controller.Ticking.{tick_exited, tick_reached, tick_early}
use vision_tactile_dataset.Capture.Controller.Ownership.{calm, started_for, orphaned_recorder}
use vision_tactile_dataset.Capture.Controller.Owning.{launch-Owns, Owns}
use vision_tactile_dataset.Capture.Controller.Runs.{accept_request, serve, run}

abbrev peaceful : Env
peaceful = calm "s1" ("data" ∷ "s1" ∷ []) 7

abbrev fresh : CaptureController
fresh = new_controller 300 ("data" ∷ []) 1 []

abbrev start_of : String → CaptureCommandFact
start_of r = record {
  request_id = r;
  command = start_command;
  session_label = "demo";
  planned_duration_sec = 0;
}

abbrev stop_of : String → CaptureCommandFact
stop_of r = record {
  request_id = r;
  command = stop_command;
  session_label = "";
  planned_duration_sec = 0;
}

-- All that a run computes with.
machinery : Unit {0}
unfolding insert evict is_blank Session.start Session.stop Session.stop_while_idle
    Session.finalize_passed Session.planned_duration_reached Session.recorder_exited
    Session.shutdown_requested remember publish_event publish_status recorder_alive ask_alive
    recorder_health recorder_stop monotonic_ns publish_guarded publish_finalization_result finalize
    drive_finalization is_due tick_due tick_recording tick_in tick shutdown_in shutdown
    startup_failed confirm_start confirm_timed start_recording start_spawned spawn start_written
    write_qos start_created create_session launch accept_start effective_duration confirm_idle
    acknowledge_stop confirm_stop stop_recording accept_stop accept_fresh accept_known accept serve
    run
machinery = tt

-- A START and a STOP.
started_then_stopped :
    let s = run peaceful (accept_request (start_of "r1") ∷ []) fresh in
    let t = run peaceful (accept_request (stop_of "r2") ∷ []) s in
    (s.machine.state ≡ recording)
    × (s.recorder ≡ some 7)
    × (s.planned_deadline_ns ≡ some 300000000000)
    × (t.machine.state ≡ complete)
unfolding machinery
started_then_stopped = (refl, refl, refl, refl)

abbrev recorded : CaptureController
recorded = run peaceful (accept_request (start_of "r1") ∷ []) fresh

abbrev start_receipt : CommandReceipt
start_receipt = record {
  request_id = "r1";
  command = start_command;
  code = "recorder_started";
  state = recording;
}

accept_again_example :
    accept peaceful (start_of "r1") (accept peaceful (start_of "r1") fresh).1
    ≡ (ok start_receipt, (accept peaceful (start_of "r1") fresh).1)
unfolding machinery
accept_again_example =
    accept_again peaceful (start_of "r1") fresh {r = start_receipt} (omega arith) refl

accept_conflict_example :
    let s = (accept peaceful (start_of "r1") fresh).1 in
    ((accept peaceful (stop_of "r1") s).1 ≡ warned (stop_of "r1") start_command s)
    × ((x : CommandReceipt) → (accept peaceful (stop_of "r1") s).0 ≢ ok x)
unfolding machinery
accept_conflict_example =
    accept_conflict peaceful (start_of "r1") (stop_of "r1") fresh {r = start_receipt} (omega arith)
      refl refl refl

abbrev stop_fact : Bool → RecorderStopFact
stop_fact confirmed = record {
  returncode = none;
  detail = "";
  termination_confirmed = confirmed;
  possibly_alive = not confirmed;
}

-- A recorder that does not end, and sinks that raise.
abbrev stubborn : Env
stubborn = record peaceful {
  recorder_stop = λ t h. ok (stop_fact false);
  event_sink = λ t e. err "sink";
  status_sink = λ t e. err "sink";
}

shutdown_reports_example :
    ((shutdown stubborn recorded).0 ≡ ok false)
    × ((shutdown stubborn recorded).1.machine.state ≡ ended_state false)
unfolding machinery
shutdown_reports_example =
    shutdown_reports stubborn recorded 7 (stop_fact false) (inl refl) refl refl

-- A recorder that has exited by itself.
abbrev dead : Env
dead = record peaceful { recorder_health = λ t h. ok exited }

tick_exited_example : (tick dead recorded).1.machine.state ≡ ended_state true
unfolding machinery
tick_exited_example = tick_exited dead recorded 7 (stop_fact true) refl refl refl refl

abbrev late : Env
late = record peaceful { monotonic_ns = λ t. ok 300000000000 }

tick_reached_example : (tick late recorded).1.machine.state ≡ ended_state true
unfolding machinery
tick_reached_example =
    tick_reached late recorded 7 alive 300000000000 300000000000 (stop_fact true) refl refl refl
      refl refl refl (omega arith) refl

tick_early_example :
    tick peaceful recorded
    ≡ (ok tt, record recorded { calls = read_clock ∷ asked_health 7 ∷ recorded.calls })
unfolding machinery
tick_early_example =
    tick_early peaceful recorded 7 alive 300000000000 0 refl refl refl refl refl refl (omega arith)

launch-Owns_example : Owns (launch peaceful (start_of "r1") fresh).1
unfolding machinery
launch-Owns_example = launch-Owns peaceful (start_of "r1") refl fresh refl refl

-- With a cache of one entry: a STOP to the idle controller, then a START that fails.
abbrev full : Env
full = record peaceful { create_session = λ t root s. err "no space left" }

abbrev evicted : CaptureController
evicted = run full (accept_request (stop_of "r1") ∷ accept_request (start_of "r2") ∷ []) fresh

abbrev stale : Transition
stale = record {
  state = idle;
  previous_state = idle;
  code = "stop_while_idle";
  detail = "";
  request_id = "r1";
  session_id = "";
  stop_recorder = false;
  sequence = 1;
}

orphaned_recorder_example :
    let (r, s) = accept peaceful (start_of "r1") evicted in
    (r ≡ err (session (request_conflict "r1" "STOP" "START")))
    × (s ≡ started_for "s1" ("data" ∷ "s1" ∷ []) 7 evicted)
    × (s.machine.state ≡ idle)
    × ((later : Env) → shutdown later s ≡ (ok true, s))
unfolding machinery
orphaned_recorder_example =
    orphaned_recorder peaceful "s1" ("data" ∷ "s1" ∷ []) 7 (λ t. refl) (λ t root. refl)
      (λ t path topics. refl) (λ t. refl) (λ t spec. refl) (start_of "r1") evicted stale refl refl
      refl (omega arith) refl refl refl
