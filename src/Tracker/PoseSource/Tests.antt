-- ===== src/Tracker/PoseSource/Tests.antt =====
-- A source that reads poses from a dongle, loses it once, and is stopped.
use vision_tactile_dataset.Common.{
  ℕ, ◌≡◌, refl, true, false, none, some, List, [], ◌∷◌, String, ltb, ◌==◌, if◌then◌else◌, length,
}
use vision_tactile_dataset.Common.Int.{pos}
use vision_tactile_dataset.Common.Monad.{ok}
use vision_tactile_dataset.Tracker.Samples.{
  is_tracker_id, is_native, is_sample, normalized, normalize_pose,
}
use vision_tactile_dataset.Tracker.Samples.Tests.{zeros}
use vision_tactile_dataset.Tracker.Roles.{canonical_address}
use vision_tactile_dataset.Tracker.Roles.Tests.{id_a, id_b, id_c, three_roles}
use vision_tactile_dataset.Tracker.PoseSource.{
  Identity, decoded, Env, PoseSource, new_source, canonical_report, open_unique_handle,
  close_current_handle,
}
use vision_tactile_dataset.Tracker.PoseSource.Reader.{
  reading, recovering, ended, mapped_identity, process_report, recover_read_only, run_turn, step,
  steps,
}
use vision_tactile_dataset.Tracker.PoseSource.Start.{load_and_verify_bundle, start}
use vision_tactile_dataset.Tracker.PoseSource.Invariant.{stored_count, closed_count}
use vision_tactile_dataset.Tracker.PoseSource.Runs.{IsThread}
use vision_tactile_dataset.Tracker.PoseSource.Ending.{run-IsThread_new, stop_ends}

abbrev address : ℕ → List ℕ
address n = n ∷ 8 ∷ 0 ∷ 0 ∷ 0 ∷ 0 ∷ []

abbrev id_of : List ℕ → String
id_of [] = ""
id_of (n ∷ _) = if n == 1 then id_a else if n == 2 then id_b else id_c

abbrev dongle : Identity
dongle = record { serial_number = some "s"; path_sha256 = "p"; path = "/dev/hidraw0" }

-- The second read fails; the stop event is set behind that many events.
abbrev env : ℕ → Env ℕ (Unit {0})
env events = record {
  tracker_addresses = λ _. some (address 1 ∷ address 2 ∷ address 3 ∷ []);
  load_runtime = λ _. true;
  make_backend = λ _. true;
  probe_dongle = λ _. some record { exact_match_count = 1; identity = some dongle };
  open_path = λ _. true;
  read_only_view = λ _. true;
  close = λ _. true;
  read = λ t. if length t == 14 then none else some (40 ∷ []);
  is_set = λ t. ltb events (length t);
  clocks = λ _. (pos 1, pos 2);
  callback = λ _. true;
  thread_start = λ _. true;
  thread_join = λ _. some false;
  decode_envelope = λ _. some (address 2, tt);
  decode_pose = λ _. decoded zeros;
  sha256 = id_of;
  is_finite = λ _. true;
  norm_in_range = λ _. true;
}

machinery : Unit {0}
unfolding is_tracker_id is_native is_sample normalized normalize_pose canonical_address
    canonical_report open_unique_handle close_current_handle mapped_identity process_report
    recover_read_only run_turn step steps load_and_verify_bundle start
machinery = tt

abbrev started : PoseSource ℕ
started = (start (env 30) three_roles new_source).1

runs :
    ((start (env 30) three_roles new_source).0 ≡ ok tt)
    × (stored_count started.events ≡ 1)
    × (length started.events ≡ 9)
    × ((steps (env 30) three_roles 1 reading started).0 ≡ reading)
    × ((steps (env 30) three_roles 2 reading started).0 ≡ recovering)
    × (stored_count (steps (env 30) three_roles 3 reading started).1.events ≡ 2)
    × ((steps (env 30) three_roles 20 reading started).0 ≡ ended)
    × ((steps (env 30) three_roles 20 reading started).1.handle ≡ none)
unfolding machinery
runs = (refl, refl, refl, refl, refl, refl, refl, refl)

run-IsThread_new_example :
    let run = steps (env 30) three_roles 20 reading (start (env 30) three_roles new_source).1 in
    IsThread (env 30) three_roles run.0 run.1
run-IsThread_new_example = run-IsThread_new (env 30) three_roles 20

-- The same, with the stop event set from the first turn on.
abbrev stopped_env : Env ℕ (Unit {0})
stopped_env = record (env 30) { is_set = λ _. true }

abbrev opened_source : PoseSource ℕ
opened_source = (start stopped_env three_roles new_source).1

stop_ends_example :
    let run = steps stopped_env three_roles 2 reading opened_source in
    (run.0 ≡ ended)
    × (run.1.handle ≡ none)
    × (stored_count run.1.events ≡ closed_count run.1.events)
unfolding steps
stop_ends_example =
    stop_ends stopped_env three_roles reading opened_source
      (run-IsThread_new stopped_env three_roles 0) (λ more. refl)
