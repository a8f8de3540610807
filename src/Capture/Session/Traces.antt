-- ===== src/Capture/Session/Traces.antt =====
-- What holds over every sequence of calls to one machine, with what is raised caught by the caller.
use vision_tactile_dataset.Common.{
  ℕ, ◌+◌, ◌≤◌, ◌<◌, ◌≡◌, inl, inr, String, some, true, false, List, [], ◌∷◌, arith, if◌then◌else◌,
  ltb,
}
use vision_tactile_dataset.Common.Dict.{Dict, lookup}
use vision_tactile_dataset.Common.Monad.{Result, ok, err}
use vision_tactile_dataset.Capture.Session.{
  CaptureState, recording, finalizing, Error, Transition, CachedRequest, CaptureStateMachine,
  is_state, new_machine, Event, call,
}
use vision_tactile_dataset.Capture.Session.Invariant.{
  IsValid, AllAnswers, new_machine-IsValid, call-IsValid,
}
use vision_tactile_dataset.Capture.Session.Lifecycle.{
  ◌⟶◌, begin, again, retry, finish, pass, fail, rest, request_of, command_of, Outcome, call-Outcome,
}

-- How often a capture was begun, and how often the caller was asked to stop the recorder, by the
-- transitions that are new (their number is past the machine's).
pub record Tally : Type 0 where
  pub begun : ℕ
  pub stopped : ℕ

unfoldable pub count_result : CaptureStateMachine → Result Error Transition → Tally → Tally
count_result m (err _) n = n
count_result m (ok t) n =
    if ltb m.sequence t.sequence
    then record n {
      begun = n.begun + (if is_state t.state recording then 1 else 0);
      stopped = n.stopped + (if t.stop_recorder then 1 else 0);
    }
    else n

abbrev pub no_calls : Tally
no_calls = record { begun = 0; stopped = 0 }

unfoldable pub run : List Event → CaptureStateMachine → Tally → CaptureStateMachine × Tally
run [] m n = (m, n)
run (e ∷ es) m n = let (r, m') = call e m in run es m' (count_result m r n)

-- While a machine records, one capture more was begun than was asked to stop.
abbrev pub IsBalanced : CaptureStateMachine → Tally → Type 0
IsBalanced m n = n.begun ≡ n.stopped + (if is_state m.state recording then 1 else 0)

-- An edge into RECORDING comes from elsewhere, and RECORDING is left for FINALIZING, which is
-- entered from nowhere else.
edge_balance :
    {s u : CaptureState}
    → s ⟶ u
    → (is_state u recording ≡ true → is_state s recording ≡ false)
      × (is_state s recording ≡ true → is_state u finalizing ≡ true)
      × (is_state u finalizing ≡ true → is_state s recording ≡ true)
edge_balance begin = ground arith
edge_balance again = ground arith
edge_balance retry = ground arith
edge_balance finish = ground arith
edge_balance pass = ground arith
edge_balance fail = ground arith
edge_balance rest = ground arith

answer_of_past :
    (n : ℕ) (r : String) (d : Dict CachedRequest) (c : CachedRequest)
    → AllAnswers n d
    → lookup r d ≡ some c
    → c.transition.sequence ≤ n
answer_of_past n r [] c a h = cc
answer_of_past n r (e ∷ d) c a h = ground (arith, answer_of_past n r d c a.1)

count_result-IsBalanced :
    (e : Event) (m : CaptureStateMachine) (n : Tally) (r : Result Error Transition)
    (m' : CaptureStateMachine)
    → IsValid m
    → Outcome e m (r, m')
    → IsBalanced m n
    → IsBalanced m' (count_result m r n)
unfolding count_result
count_result-IsBalanced e m n (err x) m' v o b = rw o b
count_result-IsBalanced e m n (ok t) m' v (inl replay) b = rw replay.0 (
    ground (
      arith,
      answer_of_past m.sequence (request_of e) m.requests
          (record { command = command_of e; transition = t }) v.answers replay.1,
    ))
count_result-IsBalanced e m n (ok t) m' v (inr move) b = ground (arith, edge_balance move.edge)

run-IsBalanced :
    (es : List Event) (m : CaptureStateMachine) (n : Tally)
    → IsValid m
    → IsBalanced m n
    → let (m', n') = run es m n in IsValid m' × IsBalanced m' n'
unfolding run
run-IsBalanced [] m n v b = (v, b)
run-IsBalanced (e ∷ es) m n v b =
    let (r, m') = call e m in
    run-IsBalanced es m' (count_result m r n) (call-IsValid e m v)
      (count_result-IsBalanced e m n r m' v (call-Outcome e m) b)

-- Over any calls at all to a new machine with a cache of size one or more, the captures begun and
-- the requests to stop the recorder alternate: there are as many of both, or one capture more while
-- the machine is RECORDING.
pub run_balances :
    (size : ℕ) (es : List Event)
    → 0 < size
    → let (m, n) = run es (new_machine size) no_calls in
      n.begun ≡ n.stopped + (if is_state m.state recording then 1 else 0)
run_balances size es p =
    (run-IsBalanced es (new_machine size) no_calls (new_machine-IsValid size p) (omega arith)).1
