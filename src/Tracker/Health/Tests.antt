-- ===== src/Tracker/Health/Tests.antt =====
-- A book of two roles, and the theorems at it.
use vision_tactile_dataset.Common.{◌≡◌, refl, true, false, [], ◌∷◌, arith}
use vision_tactile_dataset.Common.Int.{pos}
use vision_tactile_dataset.Common.Dict.{insert}
use vision_tactile_dataset.Common.Monad.{ok}
use vision_tactile_dataset.Tracker.Health.{
  Health, TrackerHealthBook, StampedTrackerSample, new_health, with_sample, with_invalid,
  has_recent_valid_pose, observe_sample, observe_invalid, record_drop, expire, snapshot,
  consume_status_publish_request, tracking,
}
use vision_tactile_dataset.Tracker.Health.Invariant.{IsSoundBook}
use vision_tactile_dataset.Tracker.Health.Runs.{
  sample_seen, invalid_seen, snapshot_taken, call, run, run-IsSoundBook_new,
}
use vision_tactile_dataset.Tracker.Health.Reports.{
  Reported, Samples, Invalidates, observe_sample-Reported, observe_invalid-Reported,
}

machinery : Unit {0}
unfolding insert with_sample with_invalid has_recent_valid_pose observe_sample observe_invalid
    record_drop expire snapshot consume_status_publish_request call run
machinery = tt

abbrev left_at_5 : StampedTrackerSample
left_at_5 = record {
  role = "left";
  tracker_id = "A";
  host_monotonic_ns = 5;
  host_realtime_ns = 7;
  packet_index = 1;
  tracking_status = 2;
  raw_buttons = 0;
  pose_valid = true;
}

abbrev left_tracked : Health
left_tracked = record (new_health "left" "A") {
  state = tracking;
  tracking_status = 2;
  valid_sample_count = 1;
  last_report_monotonic_ns = 5;
  last_valid_pose_monotonic_ns = 5;
  has_report = true;
  has_valid_pose = true;
}

abbrev empty_book : TrackerHealthBook
empty_book = record {
  disconnect_timeout_ns = 10;
  values = ("left", new_health "left" "A") ∷ ("right", new_health "right" "B") ∷ [];
  status_publish_requested = false;
}

abbrev tracked_book : TrackerHealthBook
tracked_book = record empty_book {
  values = ("left", left_tracked) ∷ ("right", new_health "right" "B") ∷ [];
  status_publish_requested = true;
}

sample_is_stored : observe_sample left_at_5 empty_book ≡ (ok true, tracked_book)
unfolding machinery
sample_is_stored = refl

run-IsSoundBook_new_example : IsSoundBook (
    run
      (sample_seen left_at_5 ∷ snapshot_taken (pos 15) ∷ invalid_seen "left" "A" (pos 20) ∷ [])
      empty_book)
run-IsSoundBook_new_example =
    run-IsSoundBook_new (("left", "A") ∷ ("right", "B") ∷ []) (pos 10)
      (sample_seen left_at_5 ∷ snapshot_taken (pos 15) ∷ invalid_seen "left" "A" (pos 20) ∷ []) refl

observe_sample-Reported_example :
    Reported "left" "A" 5 (Samples left_at_5) empty_book (observe_sample left_at_5 empty_book)
observe_sample-Reported_example = observe_sample-Reported left_at_5 empty_book

observe_invalid-Reported_example :
    Reported "left" "A" 4
      (Invalidates 10 4)
      tracked_book
      (observe_invalid "left" "A" (pos 4) tracked_book)
observe_invalid-Reported_example = observe_invalid-Reported "left" "A" 4 tracked_book (omega arith)
