-- ===== src/Capture/Session/Tests.antt =====
-- A capture from START to COMPLETE, and the theorems of the children at concrete machines.
use vision_tactile_dataset.Common.{
  ◌+◌, ◌≡◌, refl, List, [], ◌∷◌, arith, if◌then◌else◌, false, is_blank,
}
use vision_tactile_dataset.Common.Dict.{insert, evict}
use vision_tactile_dataset.Common.Monad.{ok, err}
use vision_tactile_dataset.Capture.Session.{
  recording, idle, Transition, CaptureStateMachine, request_conflict, is_state, new_machine, start,
  stop, stop_while_idle, finalize_passed, Event, start_event, stop_event, stop_while_idle_event,
  passed_event, call,
}
use vision_tactile_dataset.Capture.Session.Lifecycle.{Outcome, call-Outcome}
use vision_tactile_dataset.Capture.Session.Invariant.{IsValid, new_machine-IsValid, call-IsValid}
use vision_tactile_dataset.Capture.Session.Requests.{start_again}
use vision_tactile_dataset.Capture.Session.Traces.{run, run_balances, no_calls, count_result}

abbrev capture : List Event
capture =
    stop_while_idle_event "r0"
    ∷ start_event "r1" "s1"
    ∷ start_event "r1" "s2"
    ∷ stop_event "r1"
    ∷ stop_event "r2"
    ∷ passed_event
    ∷ start_event "r3" "s3"
    ∷ []

-- The second START is a replay, and the STOP after it a conflict.
capture_records :
    let (m, n) = run capture (new_machine 2) no_calls in
    (m.state ≡ recording) × (n.begun ≡ 2) × (n.stopped ≡ 1) × (m.sequence ≡ 5)
unfolding run call start stop stop_while_idle finalize_passed is_blank insert evict count_result
capture_records = (refl, refl, refl, refl)

abbrev started : CaptureStateMachine
started = (start "r1" "s1" (new_machine 2)).1

call-Outcome_example : Outcome (stop_event "r2") started (call (stop_event "r2") started)
call-Outcome_example = call-Outcome (stop_event "r2") started

call-IsValid_example : IsValid (call (start_event "r1" "s1") (new_machine 2)).1
call-IsValid_example =
    call-IsValid (start_event "r1" "s1") (new_machine 2) (new_machine-IsValid 2 (omega arith))

abbrev start_transition : Transition
start_transition = record {
  state = recording;
  previous_state = idle;
  code = "recorder_started";
  detail = "";
  request_id = "r1";
  session_id = "s1";
  stop_recorder = false;
  sequence = 1;
}

start_again_example :
    (start "r1" "s2" started ≡ (ok start_transition, started))
    × (stop "r1" started ≡ (err (request_conflict "r1" "START" "STOP"), started))
unfolding start is_blank
start_again_example =
    start_again "r1" "s1" "s2" (new_machine 2) {t = start_transition} (omega arith) refl refl

run_balances_example :
    let (m, n) = run capture (new_machine 2) no_calls in
    n.begun ≡ n.stopped + (if is_state m.state recording then 1 else 0)
run_balances_example = run_balances 2 capture (omega arith)
