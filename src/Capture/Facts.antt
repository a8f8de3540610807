-- ===== src/Capture/Facts.antt =====
-- The facts that the capture controller exchanges with its collaborators, and the collaborators
-- themselves: the dataclasses and protocols of
-- ros2_ws/src/vt_realsense_capture/vt_realsense_capture/controller.py (the record `Env` at the end).
use vision_tactile_dataset.Common.{
  ℕ, Bool, Option, none, some, List, String, ltb, is_blank, if◌then◌else◌,
}
use vision_tactile_dataset.Common.Int.{ℤ, pos, negsuc}
use vision_tactile_dataset.Common.Monad.{Result, ok, err}
use vision_tactile_dataset.Capture.Session
use vision_tactile_dataset.Capture.Session.{CaptureState, CommandKind}

pub data EventSeverity : Type 0 where
  info warning fatal : EventSeverity

pub data RecorderHealth : Type 0 where
  alive exited uncertain : RecorderHealth

-- What a controller method raises: an exception of session.py, `RuntimeError`, or what a
-- collaborator raised, by its text.
pub data Error : Type 0 where
  session : Session.Error → Error
  runtime : String → Error
  outside : String → Error

-- The texts of the events and statuses, by how the source puts them together.
pub data Detail : Type 0 where
  text : String → Detail
  message_of : Error → Detail
  conflicting : String → String → String → Detail
  finished : String → Option ℤ → Detail

-- A path, by its components.
abbrev pub FilePath : Type 0
FilePath = List String

pub record RecorderStopFact : Type 0 where
  pub returncode : Option ℤ
  pub detail : String
  pub termination_confirmed : Bool
  pub possibly_alive : Bool

pub record RecorderStartSpec : Type 0 where
  pub session_id : String
  pub session_dir : FilePath
  pub output_path : FilePath
  pub qos_overrides_path : FilePath
  pub topics : List String

-- The controller's own `CommandKind` has the same two members as the state machine's.
pub record CaptureCommandFact : Type 0 where
  pub request_id : String
  pub command : CommandKind
  pub session_label : String
  pub planned_duration_sec : ℕ

pub record CommandReceipt : Type 0 where
  pub request_id : String
  pub command : CommandKind
  pub code : String
  pub state : CaptureState

-- The fields that are constant, `streams`, `camera_groups`, `disk_free_bytes` and
-- `observed_write_mb_s`, are left out.
pub record CaptureStatusFact : Type 0 where
  pub request_id : String
  pub session_id : String
  pub state : CaptureState
  pub recorder_alive : Bool
  pub detail : Detail

pub record CaptureEventFact : Type 0 where
  pub request_id : String
  pub session_id : String
  pub severity : EventSeverity
  pub code : String
  pub detail : Detail

pub record SessionInfoFact : Type 0 where
  pub session_id : String
  pub request_id : String
  pub session_label : String

abbrev pub uint32_max : ℕ
uint32_max = 4294967295

abbrev check_duration : ℤ → Option ℕ
check_duration (pos n) = if ltb uint32_max n then none else some n
check_duration (negsuc n) = none

-- `CaptureCommandFact.__post_init__` over values of the annotated types.
unfoldable pub capture_command_fact :
    String → CommandKind → String → ℤ → Result Error CaptureCommandFact
capture_command_fact request_id command label duration =
    if is_blank request_id
    then err (session (Session.request_validation "request_id must be a nonempty string"))
    else (elim (check_duration duration) [
      | none ↦
          err (session (Session.request_validation "planned_duration_sec must be a uint32 integer"))
      | some n ↦ ok (record {
        request_id = request_id;
        command = command;
        session_label = label;
        planned_duration_sec = n;
      })
    ])

-- One call out of the controller. A recorder object is known by a number.
pub data Call : Type 0 where
  made_session_id : Call
  created_session : FilePath → String → Call
  wrote_qos : FilePath → List String → Call
  made_recorder : Call
  started_recorder : ℕ → RecorderStartSpec → Call
  asked_health : ℕ → Call
  stopped_recorder : ℕ → Call
  read_clock : Call
  sent_event : CaptureEventFact → Call
  sent_status : CaptureStatusFact → Call
  sent_session : SessionInfoFact → Call

-- The calls made so far, the latest first.
abbrev pub Trace : Type 0
Trace = List Call

-- What a collaborator returns, or the text of what it raises.
abbrev pub Reply : Type 0 → Type 0
Reply = Result String

-- The collaborators: each answers by all that has happened so far, or raises.
pub record Env : Type 0 where
  pub session_id_factory : Trace → Reply String
  pub create_session : Trace → FilePath → String → Reply FilePath
  pub write_qos : Trace → FilePath → List String → Reply (Unit {0})
  pub recorder_factory : Trace → Reply ℕ
  pub recorder_start : Trace → ℕ → RecorderStartSpec → Reply (Unit {0})
  pub recorder_health : Trace → ℕ → Reply RecorderHealth
  pub recorder_stop : Trace → ℕ → Reply RecorderStopFact
  pub monotonic_ns : Trace → Reply ℕ
  pub event_sink : Trace → CaptureEventFact → Reply (Unit {0})
  pub status_sink : Trace → CaptureStatusFact → Reply (Unit {0})
  pub session_sink : Trace → SessionInfoFact → Reply (Unit {0})
