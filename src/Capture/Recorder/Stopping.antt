-- ===== src/Capture/Recorder/Stopping.antt =====
-- What a stop of the recorder's process promises, on every way through its signals and waits.
use mathlib.Core.Path.{subst}
use vision_tactile_dataset.Common.{
  ℕ, ◌≡◌, ◌⊎◌, refl, sym, ap, Bool, true, false, not, Option, none, some, ◌∷◌, arith, is_some,
  Option-cases, inl, inr,
}
use vision_tactile_dataset.Common.Int.{ℤ, pos}
use vision_tactile_dataset.Common.Monad.{Result, ok, err}
use vision_tactile_dataset.Capture.Recorder.{
  Reason, clean_exit, sigint_signal_failed, sigint_wait_failed, sigterm_signal_failed,
  sigterm_wait_failed, forced_kill, suffixed, poll_failed, Trace, RecorderStopResult, Os, Error,
  RecorderProcess, close_failed, interrupt, terminate, polled, signalled, waited, finish,
  remember_stop_fault, control_failure, reap_killed, killed, kill_and_reap, reap_terminated,
  terminated, terminate_after_sigint_timeout, reap_recovered, recovered, recover_with_termination,
  reap_interrupted, interrupted, stop_polled, stop_running, stop_once, stop,
}

-- What is true of every result: the end of the process is confirmed just when its return code is
-- known, it may be alive just when that is not so, and a valid result is a clean exit with code 0.
pub record IsHonest (r : RecorderStopResult) : Type 0 where
  pub coded : r.termination_confirmed ≡ is_some r.returncode
  pub open_end : r.possibly_alive ≡ not r.termination_confirmed
  pub clean : r.valid ≡ true → r.reason ≡ clean_exit
  pub zeroed : r.valid ≡ true → r.returncode ≡ some (pos 0)

-- What a call that began without a result leaves behind: a confirmed end is kept as the result, and
-- any other leaves a fault, which is the one of before if there was one.
pub record Leaves (s : RecorderProcess) (r : RecorderStopResult) (s' : RecorderProcess)
    : Type 0 where
  pub honest : IsHonest r
  pub kept : r.termination_confirmed ≡ true → s'.stop_result ≡ some r
  pub unsettled : r.termination_confirmed ≡ false → s'.stop_result ≡ none
  pub faulted : r.termination_confirmed ≡ false → is_some s'.stop_fault_reason ≡ true
  pub spotless : r.valid ≡ true → s.stop_fault_reason ≡ none
  pub sticky : is_some s.stop_fault_reason ≡ true → s'.stop_fault_reason ≡ s.stop_fault_reason
  pub owned : s'.process ≡ s.process

abbrev is_confirmed : Option RecorderStopResult → Bool
is_confirmed none = false
is_confirmed (some r) = r.termination_confirmed

-- What it returns is as said, and where it raises, it was the close of the log, and the result that it
-- would have returned is kept: that of a confirmed end.
abbrev pub Promise : RecorderProcess → Result Error RecorderStopResult × RecorderProcess → Type 0
Promise s (ok r, s') = Leaves s r s'
Promise s (err e, s') =
    (e ≡ close_failed) × (s.log_open ≡ true) × (is_confirmed s'.stop_result ≡ true)

confirmed_result :
    (kept : Option RecorderStopResult)
    → is_confirmed kept ≡ true
    → (r : RecorderStopResult) × (kept ≡ some r) × (r.termination_confirmed ≡ true)
confirmed_result (some r) h = (r, refl, h)
confirmed_result none h = cc

module _ (os : Os) where
  control_failure-Leaves :
      (reason : Reason) (s : RecorderProcess)
      → s.stop_result ≡ none
      → Promise s (control_failure os reason s)
  unfolding control_failure remember_stop_fault finish
  control_failure-Leaves reason s h = ground arith

  kill_and_reap-Leaves :
      (reason : Reason) (s : RecorderProcess)
      → s.stop_result ≡ none
      → Promise s (kill_and_reap os reason s)
  unfolding kill_and_reap killed reap_killed control_failure remember_stop_fault finish
  kill_and_reap-Leaves reason s h = ground arith

  -- The state after calls that leave all but their record alone.
  abbrev after : RecorderProcess → Trace → RecorderProcess
  after s calls = record s { calls = calls }

  terminate_after_sigint_timeout-Leaves :
      (s : RecorderProcess) → s.stop_result ≡ none → Promise s (terminate_after_sigint_timeout os s)
  unfolding terminate_after_sigint_timeout terminated reap_terminated finish
  terminate_after_sigint_timeout-Leaves s h =
      let t = after s (signalled terminate ∷ s.calls) in
      let u = after s (waited 10 ∷ t.calls) in
      ground (
        arith,
        control_failure-Leaves sigterm_signal_failed t h,
        control_failure-Leaves sigterm_wait_failed u h,
        kill_and_reap-Leaves forced_kill u h,
      )

  recover_with_termination-Leaves :
      (reason : Reason) (s : RecorderProcess)
      → s.stop_result ≡ none
      → Promise s (recover_with_termination os reason s)
  unfolding recover_with_termination recovered reap_recovered remember_stop_fault finish
  recover_with_termination-Leaves reason s h =
      let f = (remember_stop_fault reason s).1 in
      let t = after f (signalled terminate ∷ s.calls) in
      let u = after f (waited 10 ∷ t.calls) in
      ground (
        arith,
        control_failure-Leaves (suffixed reason "_sigterm_signal_failed") t h,
        control_failure-Leaves (suffixed reason "_sigterm_wait_failed") u h,
        kill_and_reap-Leaves (suffixed reason "_forced_kill") u h,
      )

  interrupted-Leaves :
      (sent : Option (Unit {0})) (s : RecorderProcess)
      → s.stop_result ≡ none
      → Promise s (interrupted os sent s)
  unfolding interrupted reap_interrupted finish
  interrupted-Leaves sent s h =
      let u = after s (waited 60 ∷ s.calls) in
      ground (
        arith,
        control_failure-Leaves sigint_signal_failed s h,
        control_failure-Leaves sigint_wait_failed u h,
        terminate_after_sigint_timeout-Leaves u h,
      )

  stop_polled-Leaves :
      (code : Option (Option ℤ)) (s : RecorderProcess)
      → s.stop_result ≡ none
      → Promise s (stop_polled os code s)
  unfolding stop_polled finish
  stop_polled-Leaves none s h = recover_with_termination-Leaves poll_failed s h
  stop_polled-Leaves (some none) s h = ground (
    arith,
    interrupted-Leaves (os.killpg s.calls interrupt) (after s (signalled interrupt ∷ s.calls)) h,
  )
  stop_polled-Leaves (some (some code)) s h = ground arith

  -- A stop that returns a result, of a process that had none: the end is confirmed just when the
  -- return code is known, the process may be alive just when that is not so, a valid result is a
  -- clean exit with code 0 of a process that had no fault before, a confirmed end is kept as the
  -- result, any other end leaves a fault, and a fault of before stays.
  pub stop-Leaves :
      (s : RecorderProcess) {r : RecorderStopResult}
      → s.stop_result ≡ none
      → (stop os s).0 ≡ ok r
      → Leaves s r (stop os s).1
  unfolding stop stop_once stop_running
  stop-Leaves s {r} h e =
      ground (arith, stop_polled-Leaves (os.poll s.calls) (after s (polled ∷ s.calls)) h)

  pub stop_fresh :
      (s : RecorderProcess) (p : ℕ)
      → s.process ≡ some p
      → s.stop_result ≡ none
      → stop os s ≡ stop_polled os (os.poll s.calls) (after s (polled ∷ s.calls))
  unfolding stop stop_once stop_running
  stop_fresh s p h e = simp (e, h)

  stop_known :
      (s : RecorderProcess) (r : RecorderStopResult)
      → s.stop_result ≡ some r
      → stop os s ≡ (ok r, s)
  unfolding stop stop_once
  stop_known s r h = simp h

  -- A call that returned, or one that closing the log made raise; then another stop returns.
  Settles : Result Error RecorderStopResult × RecorderProcess → Bool → Type 0
  Settles (o, s') has_log =
      ((r : RecorderStopResult) × (o ≡ ok r))
      ⊎ ((o ≡ err close_failed)
          × (has_log ≡ true)
          × ((r : RecorderStopResult) × (r.termination_confirmed ≡ true)
              × (stop os s' ≡ (ok r, s'))))

  Promise-Settles :
      (s : RecorderProcess) (o : Result Error RecorderStopResult) (s' : RecorderProcess)
      → Promise s (o, s')
      → Settles (o, s') s.log_open
  unfolding Settles
  Promise-Settles s (ok r) s' h = inl (r, refl)
  Promise-Settles s (err e) s' (closing, log, h) =
      let (r, kept, confirmed) = confirmed_result s'.stop_result h in
      inr (ap (λ x. err x) closing, log, (r, confirmed, stop_known s' r kept))

  -- A started process that is asked to stop gives a result, whatever the operating system answers or
  -- raises, unless closing the recorder's log raises: then it raises that, behind a confirmed end, and
  -- the next stop returns the result of that end.
  pub stop_returns :
      (s : RecorderProcess) (p : ℕ)
      → s.process ≡ some p
      → ((r : RecorderStopResult) × ((stop os s).0 ≡ ok r))
        ⊎ (((stop os s).0 ≡ err close_failed)
            × (s.log_open ≡ true)
            × ((r : RecorderStopResult) × (r.termination_confirmed ≡ true)
                × (stop os (stop os s).1 ≡ (ok r, (stop os s).1))))
  unfolding Settles
  stop_returns s p h = elim (Option-cases s.stop_result) [
    | inl unsettled ↦
        let t = after s (polled ∷ s.calls) in
        let made = stop_polled os (os.poll s.calls) t in
        subst (λ m. Settles m s.log_open) (sym (stop_fresh s p h unsettled))
          (Promise-Settles t made.0 made.1 (stop_polled-Leaves (os.poll s.calls) t unsettled))
    | inr (r, settled) ↦ inl (r, ap (λ m. m.0) (stop_known s r settled))
  ]

  -- After a stop that confirmed the end of a process without an earlier result, a stop gives that
  -- result again, and calls nothing.
  pub confirmed_stop_again :
      (s : RecorderProcess) {r : RecorderStopResult}
      → s.stop_result ≡ none
      → (stop os s).0 ≡ ok r
      → r.termination_confirmed ≡ true
      → stop os (stop os s).1 ≡ (ok r, (stop os s).1)
  confirmed_stop_again s {r} h e c = stop_known (stop os s).1 r ((stop-Leaves s {r = r} h e).kept c)
