-- ===== src/Capture/Recorder/Signals.antt =====
-- Which signals one stop of the recorder's process sends, in which order, and how long it waits.
use mathlib.Core.Path.{subst}
use vision_tactile_dataset.Common.{
  sym, ℕ, ◌+◌, ◌≤◌, ◌≡◌, ◌⊎◌, Bool, true, false, Option, none, some, List, [], ◌∷◌, arith,
}
use vision_tactile_dataset.Common.Int.{ℤ}
use vision_tactile_dataset.Common.Monad.{Result, ok, err}
use vision_tactile_dataset.Capture.Recorder.{
  Reason, RecorderStopResult, Os, Error, RecorderProcess, opened_log, spawned, removed_log,
  closed_log, Trace, Signal, interrupt, terminate, kill, polled, signalled, waited, forced_kill,
  poll_failed, suffixed, sigint_signal_failed, sigint_wait_failed, sigterm_signal_failed,
  sigterm_wait_failed, finish, remember_stop_fault, control_failure, reap_killed, killed,
  kill_and_reap, reap_terminated, terminated, terminate_after_sigint_timeout, reap_recovered,
  recovered, recover_with_termination, reap_interrupted, interrupted, stop_polled, stop,
}
use vision_tactile_dataset.Capture.Recorder.Stopping.{stop_fresh}

-- The signals of a record of calls, the latest first.
abbrev pub sent : Trace → List Signal
sent [] = []
sent (signalled x ∷ t) = x ∷ sent t
sent (opened_log ∷ t) = sent t
sent (spawned ∷ t) = sent t
sent (removed_log ∷ t) = sent t
sent (closed_log ∷ t) = sent t
sent (polled ∷ t) = sent t
sent (waited n ∷ t) = sent t

-- The seconds that the waits of a record of calls may take.
abbrev pub waiting : Trace → ℕ
waiting [] = 0
waiting (waited n ∷ t) = n + waiting t
waiting (opened_log ∷ t) = waiting t
waiting (spawned ∷ t) = waiting t
waiting (removed_log ∷ t) = waiting t
waiting (closed_log ∷ t) = waiting t
waiting (polled ∷ t) = waiting t
waiting (signalled x ∷ t) = waiting t

-- From the signals `l` a call went on by the signals `new`, and waited `n` seconds at most.
abbrev Adds :
    RecorderProcess
    → (List Signal → List Signal)
    → ℕ
    → Result Error RecorderStopResult × RecorderProcess
    → Type 0
Adds s new n (r, s') =
    (sent s'.calls ≡ new (sent s.calls)) × (waiting s'.calls ≤ waiting s.calls + n)

abbrev is_valid : Result Error RecorderStopResult → Bool
is_valid (ok r) = r.valid
is_valid (err e) = false

-- The ways to end behind a SIGTERM: by it, or by a SIGKILL after it; never with a valid result.
abbrev Terminates : List Signal → ℕ → Result Error RecorderStopResult × RecorderProcess → Type 0
Terminates l n (r, s') =
    ((sent s'.calls ≡ terminate ∷ l) ⊎ (sent s'.calls ≡ kill ∷ terminate ∷ l))
    × (waiting s'.calls ≤ n + 20)
    × (is_valid r ≡ false)

-- The ways to end behind a SIGINT.
abbrev Climbs : List Signal → ℕ → Result Error RecorderStopResult × RecorderProcess → Type 0
Climbs l n (r, s') =
    ((sent s'.calls ≡ l) ⊎ (sent s'.calls ≡ terminate ∷ l) ⊎ (sent s'.calls ≡ kill ∷ terminate ∷ l))
    × (waiting s'.calls ≤ n + 80)
    × (is_valid r ≡ true → sent s'.calls ≡ l)

-- The ways to end of a stop, by what its poll answers: where it raises, by a SIGTERM first; where the
-- process has ended, without a signal; where it runs, by a SIGINT first. A valid result comes by the
-- SIGINT alone.
abbrev pub Ladder :
    Option (Option ℤ) → List Signal → ℕ → Result Error RecorderStopResult × RecorderProcess → Type 0
Ladder none l n (r, s') =
    ((sent s'.calls ≡ terminate ∷ l) ⊎ (sent s'.calls ≡ kill ∷ terminate ∷ l))
    × (waiting s'.calls ≤ n + 20)
    × (is_valid r ≡ false)
Ladder (some (some code)) l n (r, s') =
    (sent s'.calls ≡ l) × (waiting s'.calls ≡ n) × (is_valid r ≡ false)
Ladder (some none) l n (r, s') =
    ((sent s'.calls ≡ interrupt ∷ l)
      ⊎ (sent s'.calls ≡ terminate ∷ interrupt ∷ l)
      ⊎ (sent s'.calls ≡ kill ∷ terminate ∷ interrupt ∷ l))
    × (waiting s'.calls ≤ n + 80)
    × (is_valid r ≡ true → sent s'.calls ≡ interrupt ∷ l)

module _ (os : Os) where
  control_failure-Adds :
      (reason : Reason) (s : RecorderProcess) → Adds s (λ l. l) 0 (control_failure os reason s)
  unfolding control_failure remember_stop_fault finish
  control_failure-Adds reason s = ground arith

  kill_and_reap-Adds :
      (reason : Reason) (s : RecorderProcess)
      → Adds s (λ l. kill ∷ l) 10 (kill_and_reap os reason s)
  unfolding kill_and_reap killed reap_killed control_failure remember_stop_fault finish
  kill_and_reap-Adds reason s = ground arith

  control_failure-invalid :
      (reason : Reason) (s : RecorderProcess) → is_valid (control_failure os reason s).0 ≡ false
  unfolding control_failure remember_stop_fault finish
  control_failure-invalid reason s = ground arith

  kill_and_reap-invalid :
      (reason : Reason) (s : RecorderProcess) → is_valid (kill_and_reap os reason s).0 ≡ false
  unfolding kill_and_reap killed reap_killed control_failure remember_stop_fault finish
  kill_and_reap-invalid reason s = ground arith

  abbrev after : RecorderProcess → Trace → RecorderProcess
  after s calls = record s { calls = calls }

  terminate_after_sigint_timeout-Terminates :
      (s : RecorderProcess)
      → Terminates (sent s.calls) (waiting s.calls) (terminate_after_sigint_timeout os s)
  unfolding terminate_after_sigint_timeout terminated reap_terminated finish
  terminate_after_sigint_timeout-Terminates s =
      let t = after s (signalled terminate ∷ s.calls) in
      let u = after s (waited 10 ∷ t.calls) in
      ground (
        arith,
        control_failure-Adds sigterm_signal_failed t,
        control_failure-Adds sigterm_wait_failed u,
        kill_and_reap-Adds forced_kill u,
        control_failure-invalid sigterm_signal_failed t,
        control_failure-invalid sigterm_wait_failed u,
        kill_and_reap-invalid forced_kill u,
      )

  recover_with_termination-Terminates :
      (reason : Reason) (s : RecorderProcess)
      → Terminates (sent s.calls) (waiting s.calls) (recover_with_termination os reason s)
  unfolding recover_with_termination recovered reap_recovered remember_stop_fault finish
  recover_with_termination-Terminates reason s =
      let f = (remember_stop_fault reason s).1 in
      let t = after f (signalled terminate ∷ s.calls) in
      let u = after f (waited 10 ∷ t.calls) in
      ground (
        arith,
        control_failure-Adds (suffixed reason "_sigterm_signal_failed") t,
        control_failure-Adds (suffixed reason "_sigterm_wait_failed") u,
        kill_and_reap-Adds (suffixed reason "_forced_kill") u,
        control_failure-invalid (suffixed reason "_sigterm_signal_failed") t,
        control_failure-invalid (suffixed reason "_sigterm_wait_failed") u,
        kill_and_reap-invalid (suffixed reason "_forced_kill") u,
      )

  interrupted-Climbs :
      (reply : Option (Unit {0})) (s : RecorderProcess)
      → Climbs (sent s.calls) (waiting s.calls) (interrupted os reply s)
  unfolding interrupted reap_interrupted finish
  interrupted-Climbs reply s =
      let u = after s (waited 60 ∷ s.calls) in
      ground (
        arith,
        control_failure-Adds sigint_signal_failed s,
        control_failure-Adds sigint_wait_failed u,
        control_failure-invalid sigint_signal_failed s,
        control_failure-invalid sigint_wait_failed u,
        terminate_after_sigint_timeout-Terminates u,
      )

  stop_polled-Ladder :
      (code : Option (Option ℤ)) (s : RecorderProcess)
      → Ladder code (sent s.calls) (waiting s.calls) (stop_polled os code s)
  unfolding stop_polled finish
  stop_polled-Ladder none s = ground (arith, recover_with_termination-Terminates poll_failed s)
  stop_polled-Ladder (some none) s = ground (
    arith,
    interrupted-Climbs (os.killpg s.calls interrupt) (after s (signalled interrupt ∷ s.calls)),
  )
  stop_polled-Ladder (some (some code)) s = ground arith

  -- One stop of a started process without an earlier result, by its first poll: where the process is
  -- found to run, it sends a SIGINT, then perhaps a SIGTERM, and then perhaps a SIGKILL, and waits 80
  -- seconds at most; where the poll raises, a SIGTERM and then perhaps a SIGKILL, and waits 20 seconds at
  -- most; where the process has ended, no signal, and does not wait. A valid result comes by the
  -- SIGINT alone.
  pub stop-Ladder :
      (s : RecorderProcess) (p : ℕ)
      → s.process ≡ some p
      → s.stop_result ≡ none
      → Ladder (os.poll s.calls) (sent s.calls) (waiting s.calls) (stop os s)
  stop-Ladder s p started h =
      subst (Ladder (os.poll s.calls) (sent s.calls) (waiting s.calls))
        (sym (stop_fresh os s p started h))
        (stop_polled-Ladder (os.poll s.calls) (after s (polled ∷ s.calls)))
