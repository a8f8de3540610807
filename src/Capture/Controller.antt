-- ===== src/Capture/Controller.antt =====
-- The capture controller, `CaptureController` of
-- ros2_ws/src/vt_realsense_capture/vt_realsense_capture/controller.py, method by method. Its
-- collaborators are the parameter `env`; every call to one of them is kept in `calls`.
pub mod Finalization
pub mod Start
pub mod Commands
pub mod Frames
pub mod Closing
pub mod Invariant
pub mod Preservation
pub mod Announcing
pub mod Starting
pub mod Accepting
pub mod Retries
pub mod Idempotence
pub mod Ending
pub mod Ticking
pub mod Ownership
pub mod Owning
pub mod Runs
mod Tests
use vision_tactile_dataset.Common.{
  ℕ, ◌+◌, ◌*◌, Bool, true, false, ◌&&◌, not, Option, none, some, List, [], ◌∷◌, ◌++◌, String, ltb,
  leb, ◌==◌, if◌then◌else◌,
}
use vision_tactile_dataset.Common.Dict.{Dict, lookup, insert, evict}
use vision_tactile_dataset.Common.Monad.{
  Result, ok, err, Action, pure, raise, gets, modify, ◌>>=◌, ◌>>◌, raise_if,
}
use vision_tactile_dataset.Capture.Session
use vision_tactile_dataset.Capture.Session.{
  CaptureState, idle, recording, finalizing, complete, invalid, CommandKind, start_command,
  stop_command, kind_value, is_kind, is_state, is_one_of, CaptureStateMachine, Transition,
  new_machine,
}
use vision_tactile_dataset.Capture.Facts.{
  EventSeverity, info, warning, fatal, RecorderHealth, alive, exited, uncertain, Error, session,
  runtime, outside, Detail, text, message_of, conflicting, finished, FilePath, RecorderStopFact,
  RecorderStartSpec, CaptureCommandFact, CommandReceipt, CaptureStatusFact, CaptureEventFact,
  SessionInfoFact, Call, made_session_id, created_session, wrote_qos, made_recorder,
  started_recorder, asked_health, stopped_recorder, read_clock, sent_event, sent_status,
  sent_session, Trace, Reply, Env,
}

abbrev pub nanoseconds_per_second : ℕ
nanoseconds_per_second = 1000000000

pub record CaptureController : Type 0 where
  pub max_bag_duration_seconds : ℕ
  pub output_root : FilePath
  pub request_cache_size : ℕ
  pub machine : CaptureStateMachine
  pub topics : List String
  pub commands : Dict (CommandKind × CommandReceipt)
  pub recorder : Option ℕ
  pub recording_started_ns : Option ℕ
  pub planned_deadline_ns : Option ℕ
  pub termination_confirmed : Bool
  pub calls : Trace

abbrev pub Method : Type 0 → Type 0
Method = Action CaptureController Error

-- `__init__`, with the topics that `required_topics` gave; it refuses a cache of size 0.
abbrev pub new_controller : ℕ → FilePath → ℕ → List String → CaptureController
new_controller max_duration output_root size topics = record {
  max_bag_duration_seconds = max_duration;
  output_root = output_root;
  request_cache_size = size;
  machine = new_machine size;
  topics = topics;
  commands = [];
  recorder = none;
  recording_started_ns = none;
  planned_deadline_ns = none;
  termination_confirmed = false;
  calls = [];
}

-- A call out: it is noted, and what it raises is raised.
abbrev pub answered : {A : Type 0} → Reply A → Result Error A
answered (ok a) = ok a
answered (err e) = err (outside e)

abbrev pub call_out : {A : Type 0} → Call → (Trace → Reply A) → Method A
call_out c reply s = (answered (reply s.calls), record s { calls = c ∷ s.calls })

-- A call of a method of the state machine.
abbrev pub in_machine : {A : Type 0} → Result Session.Error A → Result Error A
in_machine (ok a) = ok a
in_machine (err e) = err (session e)

abbrev pub lift : {A : Type 0} → Session.Method A → Method A
lift m s = let (r, machine') = m s.machine in (in_machine r, record s { machine = machine' })

-- `try: … except Exception`
abbrev pub attempt : {A : Type 0} → Method A → Method (Result Error A)
attempt m s = let (r, s') = m s in (ok r, s')

abbrev pub message : Error → Detail
message (outside e) = text e
message (session e) = message_of (session e)
message (runtime e) = text e

-- `_require_recorder`
abbrev pub require_recorder : Method ℕ
require_recorder s = elim s.recorder [
  | none ↦ (err (runtime "active session has no Recorder"), s)
  | some h ↦ (ok h, s)
]

-- `_remember`
unfoldable pub remember : CommandKind → CommandReceipt → Method (Unit {0})
remember kind receipt s = (
  ok tt,
  record s {
    commands = evict s.request_cache_size (insert receipt.request_id (kind, receipt) s.commands);
  },
)

abbrev pub or_current : Option String → Method String
or_current request_id s =
    (ok (elim request_id [ none ↦ s.machine.current_request_id | some r ↦ r ]), s)

abbrev pub is_running : RecorderHealth → Bool
is_running alive = true
is_running exited = false
is_running uncertain = true

-- What the controller publishes and asks.
module _ (env : Env) where
  unfoldable pub recorder_health : ℕ → Method RecorderHealth
  recorder_health h = call_out (asked_health h) (λ t. env.recorder_health t h)

  unfoldable pub recorder_stop : ℕ → Method RecorderStopFact
  recorder_stop h = call_out (stopped_recorder h) (λ t. env.recorder_stop t h)

  unfoldable pub monotonic_ns : Method ℕ
  monotonic_ns = call_out read_clock env.monotonic_ns

  unfoldable pub ask_alive : Option ℕ → Bool → Method Bool
  ask_alive none confirmed = pure false
  ask_alive (some h) true = pure false
  ask_alive (some h) false = do health ← recorder_health h; pure (is_running health)

  unfoldable pub recorder_alive : Method Bool
  recorder_alive s = ask_alive s.recorder s.termination_confirmed s

  unfoldable pub publish_event : String → EventSeverity → Detail → Option String → Method (Unit {0})
  publish_event code severity detail request_id = do
    r ← or_current request_id
    sid ← gets (λ s. s.machine.session_id)
    let event : CaptureEventFact = record {
      request_id = r;
      session_id = sid;
      severity = severity;
      code = code;
      detail = detail;
    }
    call_out (sent_event event) (λ t. env.event_sink t event)

  unfoldable pub publish_status : Detail → Option String → Method CaptureStatusFact
  publish_status detail request_id = do
    r ← or_current request_id
    sid ← gets (λ s. s.machine.session_id)
    state ← gets (λ s. s.machine.state)
    is_alive ← recorder_alive
    let status : CaptureStatusFact = record {
      request_id = r;
      session_id = sid;
      state = state;
      recorder_alive = is_alive;
      detail = detail;
    }
    call_out (sent_status status) (λ t. env.status_sink t status)
    pure status
