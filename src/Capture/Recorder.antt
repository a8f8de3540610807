-- ===== src/Capture/Recorder.antt =====
-- The recorder's process, `RecorderProcess` of
-- ros2_ws/src/vt_realsense_capture/vt_realsense_capture/recorder.py: how it is started, watched and
-- stopped. The operating system is the parameter `os`.
pub mod Stopping
pub mod Signals
mod Tests
use vision_tactile_dataset.Common.{
  ℕ, zero, Bool, true, false, Option, none, some, List, [], ◌∷◌, String, if◌then◌else◌, ◌++◌,
}
use vision_tactile_dataset.Common.Int.{ℤ, pos, negsuc}
use vision_tactile_dataset.Common.Monad.{
  Result, ok, err, Action, pure, raise, gets, modify, ◌>>=◌, ◌>>◌, raise_if,
}

-- The signals that the recorder is sent, SIGINT, SIGTERM and SIGKILL.
pub data Signal : Type 0 where
  interrupt terminate kill : Signal

-- The reasons of a `RecorderStopResult`; `f"{reason}_…"` is `suffixed`.
pub data Reason : Type 0 where
  clean_exit nonzero_exit unexpected_exit sigint_timeout forced_kill : Reason
  poll_failed : Reason
  sigint_signal_failed sigint_wait_failed sigterm_signal_failed sigterm_wait_failed : Reason
  sigkill_signal_failed sigkill_wait_timeout sigkill_wait_failed : Reason
  suffixed : Reason → String → Reason

pub record RecorderStopResult : Type 0 where
  pub valid : Bool
  pub returncode : Option ℤ
  pub reason : Reason
  pub termination_confirmed : Bool
  pub possibly_alive : Bool

-- One call to the operating system about the recorder's process; `wait` with its seconds.
pub data Call : Type 0 where
  opened_log spawned removed_log closed_log polled : Call
  signalled : Signal → Call
  waited : ℕ → Call

-- The calls made so far, the latest first.
abbrev pub Trace : Type 0
Trace = List Call

-- What `wait(timeout=…)` does: the process ends, the time runs out, or it raises.
pub data Waited : Type 0 where
  ended : ℤ → Waited
  timed_out failed : Waited

-- The operating system: each answer may depend on all that has happened so far. `none` stands for an
-- exception.
pub record Os : Type 0 where
  pub open_log : Trace → Option (Unit {0})
  pub popen : Trace → Option ℕ
  pub close_log : Trace → Option (Unit {0})
  pub remove_log : Trace → Option (Unit {0})
  pub poll : Trace → Option (Option ℤ)
  pub killpg : Trace → Signal → Option (Unit {0})
  pub wait : Trace → ℕ → Waited

pub data Error : Type 0 where
  runtime : String → Error
  log_failed spawn_failed poll_raised close_failed remove_failed : Error

pub record RecorderProcess : Type 0 where
  pub process : Option ℕ
  pub log_open : Bool
  pub started : Bool
  pub stop_result : Option RecorderStopResult
  pub stop_fault_reason : Option Reason
  pub calls : Trace

abbrev pub Method : Type 0 → Type 0
Method = Action RecorderProcess Error

-- `__init__`, behind the validation of its arguments.
abbrev pub new_process : RecorderProcess
new_process = record {
  process = none;
  log_open = false;
  started = false;
  stop_result = none;
  stop_fault_reason = none;
  calls = [];
}

abbrev pub asked : {A : Type 0} → Call → (Trace → A) → Method A
asked c answer s = (ok (answer s.calls), record s { calls = c ∷ s.calls })

-- `_uncertain`
abbrev pub uncertain : Reason → RecorderStopResult
uncertain reason = record {
  valid = false;
  returncode = none;
  reason = reason;
  termination_confirmed = false;
  possibly_alive = true;
}

abbrev pub finished : Bool → ℤ → Reason → RecorderStopResult
finished valid code reason = record {
  valid = valid;
  returncode = some code;
  reason = reason;
  termination_confirmed = true;
  possibly_alive = false;
}

-- `_remember_stop_fault`: the first fault stays.
abbrev pub first_fault : Option Reason → Reason → Reason
first_fault none reason = reason
first_fault (some fault) reason = fault

unfoldable pub remember_stop_fault : Reason → Method Reason
remember_stop_fault reason s =
    let fault = first_fault s.stop_fault_reason reason in
    (ok fault, record s { stop_fault_reason = some fault })

abbrev pub is_zero : ℤ → Bool
is_zero (pos zero) = true
is_zero _ = false

module _ (os : Os) where
  -- `_finish`: the result is kept, then the log is closed, if there is one, which may raise.
  abbrev pub or_close_failed :
      RecorderStopResult → Option (Unit {0}) → Result Error RecorderStopResult
  or_close_failed result none = err close_failed
  or_close_failed result (some _) = ok result

  abbrev pub close_logged : Bool → RecorderStopResult → Method RecorderStopResult
  close_logged false result s = (ok result, s)
  close_logged true result s =
      (or_close_failed result (os.close_log s.calls), record s { calls = closed_log ∷ s.calls })

  unfoldable pub finish : Bool → ℤ → Reason → Method RecorderStopResult
  finish valid code reason s =
      let result = finished valid code reason in
      close_logged s.log_open result (record s { stop_result = some result })

  -- `_control_failure`, behind its poll.
  abbrev pub settle_failure : Reason → Option (Option ℤ) → Method RecorderStopResult
  settle_failure fault none = pure (uncertain fault)
  settle_failure fault (some none) = pure (uncertain fault)
  settle_failure fault (some (some code)) = finish false code fault

  unfoldable pub control_failure : Reason → Method RecorderStopResult
  control_failure reason = do
    fault ← remember_stop_fault reason
    code ← asked polled os.poll
    settle_failure fault code

  -- `_kill_and_reap`, behind the signal and behind the wait.
  unfoldable pub reap_killed : Reason → Waited → Method RecorderStopResult
  reap_killed reason (ended code) = finish false code reason
  reap_killed reason timed_out = control_failure sigkill_wait_timeout
  reap_killed reason failed = control_failure sigkill_wait_failed

  unfoldable pub killed : Reason → Option (Unit {0}) → Method RecorderStopResult
  killed reason none = control_failure sigkill_signal_failed
  killed reason (some _) = do
    outcome ← asked (waited 10) (λ t. os.wait t 10)
    reap_killed reason outcome

  unfoldable pub kill_and_reap : Reason → Method RecorderStopResult
  kill_and_reap reason = do
    sent ← asked (signalled kill) (λ t. os.killpg t kill)
    killed reason sent

  -- `_terminate_after_sigint_timeout`
  unfoldable pub reap_terminated : Waited → Method RecorderStopResult
  reap_terminated (ended code) = finish false code sigint_timeout
  reap_terminated timed_out = kill_and_reap forced_kill
  reap_terminated failed = control_failure sigterm_wait_failed

  unfoldable pub terminated : Option (Unit {0}) → Method RecorderStopResult
  terminated none = control_failure sigterm_signal_failed
  terminated (some _) = do outcome ← asked (waited 10) (λ t. os.wait t 10); reap_terminated outcome

  unfoldable pub terminate_after_sigint_timeout : Method RecorderStopResult
  terminate_after_sigint_timeout = do
    sent ← asked (signalled terminate) (λ t. os.killpg t terminate)
    terminated sent

  -- `_recover_with_termination`
  unfoldable pub reap_recovered : Reason → Waited → Method RecorderStopResult
  reap_recovered reason (ended code) = finish false code reason
  reap_recovered reason timed_out = kill_and_reap (suffixed reason "_forced_kill")
  reap_recovered reason failed = control_failure (suffixed reason "_sigterm_wait_failed")

  unfoldable pub recovered : Reason → Option (Unit {0}) → Method RecorderStopResult
  recovered reason none = control_failure (suffixed reason "_sigterm_signal_failed")
  recovered reason (some _) = do
    outcome ← asked (waited 10) (λ t. os.wait t 10)
    reap_recovered reason outcome

  unfoldable pub recover_with_termination : Reason → Method RecorderStopResult
  recover_with_termination reason = do
    fault ← remember_stop_fault reason
    sent ← asked (signalled terminate) (λ t. os.killpg t terminate)
    recovered reason sent

  -- The end of `stop` behind a SIGINT that ended the process.
  abbrev pub conclude : Option Reason → ℤ → Method RecorderStopResult
  conclude (some fault) code = finish false code fault
  conclude none code =
      finish (is_zero code) code (if is_zero code then clean_exit else nonzero_exit)

  unfoldable pub reap_interrupted : Waited → Method RecorderStopResult
  reap_interrupted (ended code) s = conclude s.stop_fault_reason code s
  reap_interrupted timed_out s = terminate_after_sigint_timeout s
  reap_interrupted failed s = control_failure sigint_wait_failed s

  unfoldable pub interrupted : Option (Unit {0}) → Method RecorderStopResult
  interrupted none = control_failure sigint_signal_failed
  interrupted (some _) = do
    outcome ← asked (waited 60) (λ t. os.wait t 60)
    reap_interrupted outcome

  -- `stop` behind its first poll.
  unfoldable pub stop_polled : Option (Option ℤ) → Method RecorderStopResult
  stop_polled none s = recover_with_termination poll_failed s
  stop_polled (some (some code)) s =
      finish false code (first_fault s.stop_fault_reason unexpected_exit) s
  stop_polled (some none) s =
      (do sent ← asked (signalled interrupt) (λ t. os.killpg t interrupt); interrupted sent) s

  unfoldable pub stop_running : Option ℕ → Method RecorderStopResult
  stop_running none = raise (runtime "recorder has not started")
  stop_running (some p) = do code ← asked polled os.poll; stop_polled code

  unfoldable pub stop_once : Option RecorderStopResult → Method RecorderStopResult
  stop_once (some result) s = (ok result, s)
  stop_once none s = stop_running s.process s

  unfoldable pub stop : Method RecorderStopResult
  stop s = stop_once s.stop_result s

  -- `start`, behind the log and behind the new process.
  abbrev pub unlinked : Option (Unit {0}) → Method ℕ
  unlinked none = raise remove_failed
  unlinked (some _) = raise spawn_failed

  -- What follows the close of the log of a recorder that did not start; it may raise, and so may
  -- the removal of the file.
  abbrev pub discarded : Option (Unit {0}) → Method ℕ
  discarded none = raise close_failed
  discarded (some _) = do
    modify (λ s. record s { log_open = false })
    removed ← asked removed_log os.remove_log
    unlinked removed

  unfoldable pub start_spawned : Option ℕ → Method ℕ
  start_spawned none = do closing ← asked closed_log os.close_log; discarded closing
  start_spawned (some p) = do modify (λ s. record s { process = some p; started = true }); pure p

  unfoldable pub start_logged : Option (Unit {0}) → Method ℕ
  start_logged none = raise log_failed
  start_logged (some _) = do
    modify (λ s. record s { log_open = true })
    p ← asked spawned os.popen
    start_spawned p

  unfoldable pub start : Method ℕ
  start = do
    again ← gets (λ s. s.started)
    raise_if again (runtime "RecorderProcess may be started only once")
    log ← asked opened_log os.open_log
    start_logged log

  -- `poll`, and the property `alive`.
  abbrev pub or_raised : Option (Option ℤ) → Method (Option ℤ)
  or_raised none = raise poll_raised
  or_raised (some code) = pure code

  unfoldable pub poll_of : Option ℕ → Method (Option ℤ)
  poll_of none = raise (runtime "recorder has not started")
  poll_of (some p) = do code ← asked polled os.poll; or_raised code

  unfoldable pub poll : Method (Option ℤ)
  poll s = poll_of s.process s

  abbrev pub alive_by : Result Error (Option ℤ) → Bool
  alive_by (ok none) = true
  alive_by (ok (some code)) = false
  alive_by (err e) = true

  unfoldable pub alive_of : Option ℕ → Option RecorderStopResult → Method Bool
  alive_of none result s = (ok false, s)
  alive_of (some p) (some result) s = (ok false, s)
  alive_of (some p) none s = let (r, s') = poll s in (ok (alive_by r), s')

  unfoldable pub alive : Method Bool
  alive s = alive_of s.process s.stop_result s
