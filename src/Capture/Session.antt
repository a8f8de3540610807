-- ===== src/Capture/Session.antt =====
-- The capture lifecycle and the identity rules of its commands:
-- ros2_ws/src/vt_realsense_capture/vt_realsense_capture/session.py, class by class and method by
-- method. A method takes the machine and gives back its result, or what it raised, and the machine.
pub mod Lifecycle
pub mod Invariant
pub mod Requests
pub mod Traces
mod Tests
use vision_tactile_dataset.Common.{
  ℕ, ◌+◌, Bool, true, false, ◌||◌, Option, none, some, List, [], ◌∷◌, String, ◌==◌, if◌then◌else◌,
  is_blank,
}
use vision_tactile_dataset.Common.Dict.{Dict, lookup, insert, evict}
use vision_tactile_dataset.Common.Monad.{
  Result, ok, err, Action, pure, raise, gets, ◌>>=◌, ◌>>◌, raise_if,
}

pub data CaptureState : Type 0 where
  idle preflight warming_up recording finalizing complete invalid : CaptureState

-- The values of the `IntEnum`.
abbrev pub value : CaptureState → ℕ
value idle = 0
value preflight = 1
value warming_up = 2
value recording = 3
value finalizing = 4
value complete = 5
value invalid = 6

abbrev pub is_state : CaptureState → CaptureState → Bool
is_state s t = value s == value t

abbrev pub is_one_of : CaptureState → List CaptureState → Bool
is_one_of s [] = false
is_one_of s (t ∷ ts) = is_state s t || is_one_of s ts

-- `InvalidTransitionError` (the event, the state it met, the states it expected),
-- `RequestValidationError` and `RequestConflictError`, with what their messages are made of.
pub data Error : Type 0 where
  invalid_transition : String → CaptureState → List CaptureState → Error
  request_validation : String → Error
  request_conflict : String → String → String → Error

pub record Transition : Type 0 where
  pub state : CaptureState
  pub previous_state : CaptureState
  pub code : String
  pub detail : String
  pub request_id : String
  pub session_id : String
  pub stop_recorder : Bool
  pub sequence : ℕ

pub data CommandKind : Type 0 where
  start_command stop_command : CommandKind

abbrev pub kind_value : CommandKind → String
kind_value start_command = "START"
kind_value stop_command = "STOP"

abbrev pub is_kind : CommandKind → CommandKind → Bool
is_kind start_command start_command = true
is_kind stop_command stop_command = true
is_kind _ _ = false

pub record CachedRequest : Type 0 where
  pub command : CommandKind
  pub transition : Transition

pub record CaptureStateMachine : Type 0 where
  pub state : CaptureState
  pub request_cache_size : ℕ
  pub requests : Dict CachedRequest
  pub current_request_id : String
  pub session_id : String
  pub sequence : ℕ

abbrev pub Method : Type 0 → Type 0
Method = Action CaptureStateMachine Error

-- `CaptureStateMachine(request_cache_size=…)`; the constructor refuses a size of 0.
abbrev pub new_machine : ℕ → CaptureStateMachine
new_machine size = record {
  state = idle;
  request_cache_size = size;
  requests = [];
  current_request_id = "";
  session_id = "";
  sequence = 0;
}

abbrev pub nonempty_identifier : String → String → Method (Unit {0})
nonempty_identifier name text = raise_if (is_blank text) (request_validation name)

abbrev pub require_state : String → List CaptureState → Method (Unit {0})
require_state event allowed m =
    if is_one_of m.state allowed
    then (ok tt, m)
    else (err (invalid_transition event m.state allowed), m)

-- `_result`: the machine enters `state`. A `request_id` of `none` stands for the current one.
unfoldable pub enter : CaptureState → String → String → Bool → Option String → Method Transition
enter state code detail stop_recorder request_id m = (
  ok (record {
    state = state;
    previous_state = m.state;
    code = code;
    detail = detail;
    request_id = elim request_id [ none ↦ m.current_request_id | some r ↦ r ];
    session_id = m.session_id;
    stop_recorder = stop_recorder;
    sequence = m.sequence + 1;
  }),
  record m { state = state; sequence = m.sequence + 1 },
)

abbrev check_kind : String → CommandKind → Option CachedRequest → Method (Option Transition)
check_kind request_id command none = pure none
check_kind request_id command (some cached) =
    if is_kind cached.command command
    then pure (some cached.transition)
    else raise (request_conflict request_id (kind_value cached.command) (kind_value command))

abbrev pub cached_transition : String → CommandKind → Method (Option Transition)
cached_transition request_id command m =
    check_kind request_id command (lookup request_id m.requests) m

unfoldable pub remember : String → CommandKind → Transition → Method Transition
remember request_id command t m =
    let entry : CachedRequest = record { command = command; transition = t } in
    (ok t, record m { requests = evict m.request_cache_size (insert request_id entry m.requests) })

-- `if cached is not None: return cached`
abbrev pub or_fresh : Method Transition → Option Transition → Method Transition
or_fresh fresh none = fresh
or_fresh fresh (some t) = pure t

abbrev set_current : String → Method (Unit {0})
set_current r m = (ok tt, record m { current_request_id = r })

abbrev set_session : String → Method (Unit {0})
set_session s m = (ok tt, record m { session_id = s })

-- The rest of each command behind its lookup in the cache.
abbrev pub start_fresh : String → String → Method Transition
start_fresh request_id session_id = do
  require_state "START" (idle ∷ complete ∷ invalid ∷ [])
  set_current request_id
  set_session session_id
  t ← enter recording "recorder_started" "" false none
  remember request_id start_command t

unfoldable pub start : String → String → Method Transition
unfolding enter remember
start request_id session_id = do
  nonempty_identifier "request_id" request_id
  nonempty_identifier "session_id" session_id
  cached ← cached_transition request_id start_command
  or_fresh (start_fresh request_id session_id) cached

abbrev pub stop_fresh : String → Method Transition
stop_fresh request_id = do
  require_state "STOP" (recording ∷ [])
  set_current request_id
  t ← enter finalizing "stop_accepted" "" true (some request_id)
  remember request_id stop_command t

unfoldable pub stop : String → Method Transition
unfolding enter remember
stop request_id = do
  nonempty_identifier "request_id" request_id
  cached ← cached_transition request_id stop_command
  or_fresh (stop_fresh request_id) cached

unfoldable pub planned_duration_reached : Method Transition
unfolding enter
planned_duration_reached = do
  require_state "planned_duration_reached" (recording ∷ [])
  enter finalizing "planned_duration_complete" "" true none

unfoldable pub recorder_exited : Method Transition
unfolding enter
recorder_exited = do
  require_state "recorder_exited" (recording ∷ [])
  enter finalizing "recorder_exited" "" true none

unfoldable pub shutdown_requested : Method Transition
unfolding enter
shutdown_requested = do
  require_state "shutdown_requested" (recording ∷ [])
  enter finalizing "shutdown_requested" "" true none

abbrev pub stop_while_idle_fresh : String → Method Transition
stop_while_idle_fresh request_id = do
  require_state "stop_while_idle" (idle ∷ [])
  t ← enter idle "stop_while_idle" "" false (some request_id)
  remember request_id stop_command t

unfoldable pub stop_while_idle : String → Method Transition
unfolding enter remember
stop_while_idle request_id = do
  nonempty_identifier "request_id" request_id
  cached ← cached_transition request_id stop_command
  or_fresh (stop_while_idle_fresh request_id) cached

unfoldable pub finalize_passed : Method Transition
unfolding enter
finalize_passed = do
  require_state "finalize_passed" (finalizing ∷ [])
  enter complete "finalize_passed" "" false none

unfoldable pub finalize_failed : String → String → Method Transition
unfolding enter
finalize_failed code detail = do
  require_state "finalize_failed" (finalizing ∷ [])
  nonempty_identifier "code" code
  enter invalid code detail false none

-- The calls that a client can make.
pub data Event : Type 0 where
  start_event : String → String → Event
  stop_event stop_while_idle_event : String → Event
  planned_event exited_event shutdown_event passed_event : Event
  failed_event : String → String → Event

unfoldable pub call : Event → Method Transition
call (start_event r s) = start r s
call (stop_event r) = stop r
call (stop_while_idle_event r) = stop_while_idle r
call planned_event = planned_duration_reached
call exited_event = recorder_exited
call shutdown_event = shutdown_requested
call passed_event = finalize_passed
call (failed_event c d) = finalize_failed c d
