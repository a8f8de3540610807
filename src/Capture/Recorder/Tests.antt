-- ===== src/Capture/Recorder/Tests.antt =====
-- A recorder that ignores SIGINT and SIGTERM, one that ends as asked, and the theorems at them.
use vision_tactile_dataset.Common.{◌≡◌, ◌⊎◌, refl, true, false, none, some, [], ◌∷◌}
use vision_tactile_dataset.Common.Int.{pos, negsuc}
use vision_tactile_dataset.Common.Monad.{ok, err}
use vision_tactile_dataset.Capture.Recorder.{
  Os, close_failed, RecorderProcess, RecorderStopResult, new_process, finished, clean_exit,
  forced_kill, ended, timed_out, kill, terminate, interrupt, signalled, start, start_logged,
  start_spawned, Trace, Waited, finish, remember_stop_fault, control_failure, reap_killed, killed,
  kill_and_reap, reap_terminated, terminated, terminate_after_sigint_timeout, reap_recovered,
  recovered, recover_with_termination, reap_interrupted, interrupted, stop_polled, stop_running,
  stop_once, stop,
}
use vision_tactile_dataset.Capture.Recorder.Stopping.{
  Leaves, stop-Leaves, stop_returns, confirmed_stop_again,
}
use vision_tactile_dataset.Capture.Recorder.Signals.{sent, waiting, Ladder, stop-Ladder}

-- A process that ends with code 0 on SIGINT.
abbrev obedient : Os
obedient = record {
  open_log = λ t. some tt;
  popen = λ t. some 42;
  close_log = λ t. some tt;
  remove_log = λ t. some tt;
  poll = λ t. some none;
  killpg = λ t x. some tt;
  wait = λ t n. ended (pos 0);
}

-- One that only SIGKILL ends.
abbrev ends_by_kill : Trace → Waited
ends_by_kill (signalled kill ∷ t) = ended (negsuc 8)
ends_by_kill _ = timed_out

abbrev stubborn : Os
stubborn = record obedient { wait = λ t n. ends_by_kill t }

machinery : Unit {0}
unfolding start start_logged start_spawned finish remember_stop_fault control_failure reap_killed
    killed kill_and_reap reap_terminated terminated terminate_after_sigint_timeout reap_recovered
    recovered recover_with_termination reap_interrupted interrupted stop_polled stop_running
    stop_once stop
machinery = tt

abbrev running : RecorderProcess
running = (start obedient new_process).1

stubborn_is_killed :
    let (r, s) = stop stubborn running in
    (r ≡ ok (finished false (negsuc 8) forced_kill))
    × (sent s.calls ≡ kill ∷ terminate ∷ interrupt ∷ [])
    × (waiting s.calls ≡ 80)
unfolding machinery
stubborn_is_killed = (refl, refl, refl)

abbrev clean : RecorderStopResult
clean = finished true (pos 0) clean_exit

stop-Leaves_example : Leaves running clean (stop obedient running).1
unfolding machinery
stop-Leaves_example = stop-Leaves obedient running {r = clean} refl refl

-- Closing the log of an obedient process raises.
abbrev full_disk : Os
full_disk = record obedient { close_log = λ t. none }

close_raises :
    let s = (stop full_disk running).1 in
    ((stop full_disk running).0 ≡ err close_failed) × (stop full_disk s ≡ (ok clean, s))
unfolding machinery
close_raises = (refl, refl)

stop_returns_example :
    let s = (stop full_disk running).1 in
    ((r : RecorderStopResult) × ((stop full_disk running).0 ≡ ok r))
    ⊎ (((stop full_disk running).0 ≡ err close_failed)
        × (running.log_open ≡ true)
        × ((r : RecorderStopResult) × (r.termination_confirmed ≡ true)
            × (stop full_disk s ≡ (ok r, s))))
unfolding machinery
stop_returns_example = stop_returns full_disk running 42 refl

confirmed_stop_again_example :
    stop obedient (stop obedient running).1 ≡ (ok clean, (stop obedient running).1)
unfolding machinery
confirmed_stop_again_example = confirmed_stop_again obedient running {r = clean} refl refl refl

stop-Ladder_example :
    Ladder (some none) (sent running.calls) (waiting running.calls) (stop stubborn running)
unfolding machinery
stop-Ladder_example = stop-Ladder stubborn running 42 refl refl
