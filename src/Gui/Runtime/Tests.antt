-- ===== src/Gui/Runtime/Tests.antt =====
-- A runtime whose thread does not end and whose node cannot be destroyed.
use vision_tactile_dataset.Common.{◌≡◌, refl, true, false, none, some, [], ◌∷◌, ◌↔◌}
use vision_tactile_dataset.Common.Monad.{ok, err}
use vision_tactile_dataset.Gui.Runtime.{
  Env, thread_started, executor_shut, thread_joined, alive_asked, node_destroyed, context_shut,
  raised, did_not_stop, group, RosRuntime, new_runtime, start, cleanup, stop,
}
use vision_tactile_dataset.Gui.Runtime.Cleanup.{IsCleanup, IsQuiet, stop-IsCleanup}
use vision_tactile_dataset.Gui.Runtime.Runs.{
  start_asked, stop_asked, starts, destroyed, one_if, run, run_counts,
}

machinery : Unit {0}
unfolding start cleanup stop run
machinery = tt

abbrev stubborn : Env
stubborn = record {
  thread_start = λ t. none;
  executor_shutdown = λ t. none;
  thread_join = λ t. none;
  thread_is_alive = λ t. true;
  destroy_node = λ t. some "handle is invalid";
  shutdown_context = λ t. none;
}

abbrev started : RosRuntime
started = record { started = true; stopped = false; calls = thread_started ∷ [] }

stop_goes_on : stop stubborn started ≡ (
  err (group (did_not_stop ∷ raised "handle is invalid" ∷ [])),
  record {
    started = true;
    stopped = true;
    calls =
        context_shut ∷ node_destroyed ∷ alive_asked ∷ thread_joined ∷ executor_shut ∷ thread_started
        ∷ [];
  },
)
unfolding machinery
stop_goes_on = refl

stop-IsCleanup_example :
    IsCleanup true (thread_started ∷ []) (stop stubborn started).1.calls
    × ((stop stubborn started).1.stopped ≡ true)
    × (((stop stubborn started).0 ≡ ok tt) ↔ IsQuiet stubborn true (thread_started ∷ []))
stop-IsCleanup_example = stop-IsCleanup stubborn started refl

run_counts_example :
    let s = run stubborn (start_asked ∷ start_asked ∷ stop_asked ∷ stop_asked ∷ []) new_runtime in
    (starts s.calls ≡ one_if s.started) × (destroyed s.calls ≡ one_if s.stopped)
run_counts_example = run_counts stubborn (start_asked ∷ start_asked ∷ stop_asked ∷ stop_asked ∷ [])
