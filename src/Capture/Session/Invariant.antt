-- ===== src/Capture/Session/Invariant.antt =====
-- What holds of a capture state machine between two calls.
use vision_tactile_dataset.Common.{
  ℕ, suc, ◌+◌, ◌≤◌, ◌<◌, ◌≡◌, ◌≢◌, true, false, String, [], ◌∷◌, arith, length, All, ltb,
  Bool-cases, inl, inr, ◌⊎◌,
}
use vision_tactile_dataset.Common.Dict.{
  Dict, insert, evict, IsDict, insert-IsDict, evict-IsDict, length-evict, str_eq,
}
use vision_tactile_dataset.Capture.Session.{
  idle, preflight, warming_up, recording, finalizing, start_command, stop_command, CachedRequest,
  CaptureStateMachine, new_machine, start, stop, planned_duration_reached, recorder_exited,
  shutdown_requested, stop_while_idle, finalize_passed, finalize_failed, Event, start_event,
  stop_event, stop_while_idle_event, planned_event, exited_event, shutdown_event, passed_event,
  failed_event, call,
}

-- A cached answer: numbered by a transition of the past, START ones enter RECORDING, STOP ones
-- enter FINALIZING with the recorder to be stopped, or were sent to an idle machine.
pub record IsAnswer (n : ℕ) (c : CachedRequest) : Type 0 where
  pub past : c.transition.sequence ≤ n
  pub start_records : c.command ≡ start_command → c.transition.state ≡ recording
  pub stop_finalizes :
      c.command ≡ stop_command
      → (c.transition.state ≡ finalizing) × (c.transition.stop_recorder ≡ true)
        ⊎ (c.transition.state ≡ idle) × (c.transition.stop_recorder ≡ false)

abbrev pub AllAnswers : ℕ → Dict CachedRequest → Type 0
AllAnswers n = All (λ e. IsAnswer n e.1)

pub record IsValid (m : CaptureStateMachine) : Type 0 where
  pub size_positive : 0 < m.request_cache_size
  pub bounded : length m.requests ≤ m.request_cache_size
  pub keyed : IsDict m.requests
  pub answers : AllAnswers m.sequence m.requests
  pub not_preflight : m.state ≢ preflight
  pub not_warming_up : m.state ≢ warming_up

AllAnswers-le : (n k : ℕ) (d : Dict CachedRequest) → n ≤ k → AllAnswers n d → AllAnswers k d
AllAnswers-le n k [] h a = tt
AllAnswers-le n k (e ∷ d) h a = ground (arith, AllAnswers-le n k d h a.1)

insert-AllAnswers :
    (n : ℕ) (r : String) (c : CachedRequest) (d : Dict CachedRequest)
    → IsAnswer n c
    → AllAnswers n d
    → AllAnswers n (insert r c d)
unfolding insert
insert-AllAnswers n r c [] h a = (h, tt)
insert-AllAnswers n r c (e ∷ d) h a = elim (Bool-cases (str_eq r e.0)) [
  | inl same ↦ rw same (h, a.1)
  | inr other ↦ rw other (a.0, insert-AllAnswers n r c d h a.1)
]

evict-AllAnswers :
    (n size : ℕ) (d : Dict CachedRequest) → AllAnswers n d → AllAnswers n (evict size d)
unfolding evict
evict-AllAnswers n size [] a = a
evict-AllAnswers n size (e ∷ d) a = elim (Bool-cases (ltb size (suc (length d)))) [
  | inl over ↦ rw over (evict-AllAnswers n size d a.1)
  | inr fits ↦ rw fits a
]

-- The cache after one more answer at the number that the machine has now.
pub record KeepsCache (n size : ℕ) (d : Dict CachedRequest) : Type 0 where
  pub fits : length d ≤ size
  pub unique : IsDict d
  pub true_answers : AllAnswers n d

remember-KeepsCache :
    (m : CaptureStateMachine) (r : String) (c : CachedRequest) (n : ℕ)
    → IsValid m
    → m.sequence ≤ n
    → IsAnswer n c
    → KeepsCache n m.request_cache_size (evict m.request_cache_size (insert r c m.requests))
remember-KeepsCache m r c n v le a = record {
  fits = length-evict m.request_cache_size (insert r c m.requests);
  unique =
      evict-IsDict m.request_cache_size (insert r c m.requests)
        (insert-IsDict r c m.requests v.keyed);
  true_answers =
      evict-AllAnswers n m.request_cache_size (insert r c m.requests)
        (insert-AllAnswers n r c m.requests a (AllAnswers-le m.sequence n m.requests le v.answers));
}

-- The answers that the three commands put in the cache.
abbrev pub start_answer : String → String → CaptureStateMachine → CachedRequest
start_answer r s m = record {
  command = start_command;
  transition = record {
    state = recording;
    previous_state = m.state;
    code = "recorder_started";
    detail = "";
    request_id = r;
    session_id = s;
    stop_recorder = false;
    sequence = m.sequence + 1;
  };
}

abbrev pub stop_answer : String → CaptureStateMachine → CachedRequest
stop_answer r m = record {
  command = stop_command;
  transition = record {
    state = finalizing;
    previous_state = m.state;
    code = "stop_accepted";
    detail = "";
    request_id = r;
    session_id = m.session_id;
    stop_recorder = true;
    sequence = m.sequence + 1;
  };
}

abbrev pub idle_answer : String → CaptureStateMachine → CachedRequest
idle_answer r m = record {
  command = stop_command;
  transition = record {
    state = idle;
    previous_state = m.state;
    code = "stop_while_idle";
    detail = "";
    request_id = r;
    session_id = m.session_id;
    stop_recorder = false;
    sequence = m.sequence + 1;
  };
}

kept_answers : (m : CaptureStateMachine) → IsValid m → AllAnswers (m.sequence + 1) m.requests
kept_answers m v = AllAnswers-le m.sequence (m.sequence + 1) m.requests (omega arith) v.answers

start-KeepsCache :
    (r s : String) (m : CaptureStateMachine)
    → IsValid m
    → KeepsCache
        (m.sequence + 1)
        m.request_cache_size
        (evict m.request_cache_size (insert r (start_answer r s m) m.requests))
start-KeepsCache r s m v =
    remember-KeepsCache m r (start_answer r s m) (m.sequence + 1) v (omega arith) (ground arith)

stop-KeepsCache :
    (r : String) (m : CaptureStateMachine)
    → IsValid m
    → KeepsCache
        (m.sequence + 1)
        m.request_cache_size
        (evict m.request_cache_size (insert r (stop_answer r m) m.requests))
stop-KeepsCache r m v =
    remember-KeepsCache m r (stop_answer r m) (m.sequence + 1) v (omega arith) (ground arith)

idle-KeepsCache :
    (r : String) (m : CaptureStateMachine)
    → IsValid m
    → KeepsCache
        (m.sequence + 1)
        m.request_cache_size
        (evict m.request_cache_size (insert r (idle_answer r m) m.requests))
idle-KeepsCache r m v =
    remember-KeepsCache m r (idle_answer r m) (m.sequence + 1) v (omega arith) (ground arith)

-- A new machine satisfies the invariant.
pub new_machine-IsValid : (size : ℕ) → 0 < size → IsValid (new_machine size)
new_machine-IsValid size h = ground arith

-- In a machine that satisfies the invariant, every call keeps it, also one that raises: the cache
-- stays within its size and holds each request once, its answers are answers of the past, and the
-- states that session.py names but never enters stay unreached.
pub call-IsValid : (e : Event) (m : CaptureStateMachine) → IsValid m → IsValid (call e m).1
unfolding call start stop stop_while_idle planned_duration_reached recorder_exited
    shutdown_requested finalize_passed finalize_failed
call-IsValid (start_event r s) m v = ground (arith, start-KeepsCache r s m v)
call-IsValid (stop_event r) m v = ground (arith, stop-KeepsCache r m v)
call-IsValid (stop_while_idle_event r) m v = ground (arith, idle-KeepsCache r m v)
call-IsValid planned_event m v = ground (arith, kept_answers m v)
call-IsValid exited_event m v = ground (arith, kept_answers m v)
call-IsValid shutdown_event m v = ground (arith, kept_answers m v)
call-IsValid passed_event m v = ground (arith, kept_answers m v)
call-IsValid (failed_event c d) m v = ground (arith, kept_answers m v)
