-- ===== src/Capture/Session/Lifecycle.antt =====
-- The lifecycle of session.py as a diagram of states, and what one call does to the machine.
use vision_tactile_dataset.Common.{◌+◌, ◌≡◌, ◌⊎◌, some, String, arith}
use vision_tactile_dataset.Common.Dict.{lookup}
use vision_tactile_dataset.Common.Monad.{Result, ok, err}
use vision_tactile_dataset.Capture.Session.{
  CaptureState, idle, recording, finalizing, complete, invalid, Error, Transition, CommandKind,
  start_command, stop_command, CaptureStateMachine, is_state, start, stop, planned_duration_reached,
  recorder_exited, shutdown_requested, stop_while_idle, finalize_passed, finalize_failed, Event,
  start_event, stop_event, stop_while_idle_event, planned_event, exited_event, shutdown_event,
  passed_event, failed_event, call,
}

-- The diagram of the lifecycle. `rest` is the STOP that an idle machine acknowledges.
infix 40 ◌⟶◌
pub data ◌⟶◌ : CaptureState → CaptureState → Type 0 where
  begin : idle ⟶ recording
  again : complete ⟶ recording
  retry : invalid ⟶ recording
  finish : recording ⟶ finalizing
  pass : finalizing ⟶ complete
  fail : finalizing ⟶ invalid
  rest : idle ⟶ idle

ruleset edges = (begin, again, retry, finish, pass, fail, rest)

-- The command and the request of a call that carries one.
abbrev pub request_of : Event → String
request_of (start_event r s) = r
request_of (stop_event r) = r
request_of (stop_while_idle_event r) = r
request_of _ = ""

abbrev pub command_of : Event → CommandKind
command_of (start_event r s) = start_command
command_of _ = stop_command

-- A call that found its request in the cache: the transition is the one of then, and nothing moves.
abbrev pub IsReplay : Event → CaptureStateMachine → Transition → CaptureStateMachine → Type 0
IsReplay e m t m' =
    (m' ≡ m)
    × (lookup (request_of e) m.requests ≡ some (record { command = command_of e; transition = t }))

-- A call that took an edge of the diagram, and reports it: only a way into FINALIZING asks for the
-- recorder to be stopped.
pub record IsMove (m : CaptureStateMachine) (t : Transition) (m' : CaptureStateMachine)
    : Type 0 where
  pub edge : m.state ⟶ m'.state
  pub from_state : t.previous_state ≡ m.state
  pub to_state : t.state ≡ m'.state
  pub numbered : t.sequence ≡ m.sequence + 1
  pub counted : m'.sequence ≡ t.sequence
  pub session : t.session_id ≡ m'.session_id
  pub stops : t.stop_recorder ≡ is_state m'.state finalizing
  pub size_kept : m'.request_cache_size ≡ m.request_cache_size

abbrev pub Outcome :
    Event → CaptureStateMachine → Result Error Transition × CaptureStateMachine → Type 0
Outcome e m (err _, m') = m' ≡ m
Outcome e m (ok t, m') = IsReplay e m t m' ⊎ IsMove m t m'

-- Every call, in every state: it raises and leaves the machine as it was, or replays a cached
-- transition and leaves the machine as it was, or takes an edge of the diagram and reports it.
pub call-Outcome : (e : Event) (m : CaptureStateMachine) → Outcome e m (call e m)
unfolding call start stop stop_while_idle planned_duration_reached recorder_exited
    shutdown_requested finalize_passed finalize_failed
call-Outcome (start_event r s) m = grind (arith, edges)
call-Outcome (stop_event r) m = grind (arith, edges)
call-Outcome (stop_while_idle_event r) m = grind (arith, edges)
call-Outcome planned_event m = grind (arith, edges)
call-Outcome exited_event m = grind (arith, edges)
call-Outcome shutdown_event m = grind (arith, edges)
call-Outcome passed_event m = grind (arith, edges)
call-Outcome (failed_event c d) m = grind (arith, edges)
