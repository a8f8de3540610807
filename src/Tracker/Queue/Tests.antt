-- ===== src/Tracker/Queue/Tests.antt =====
-- A queue for two samples that takes three.
use vision_tactile_dataset.Common.{◌≡◌, refl, true, false, none, some, [], ◌∷◌, arith}
use vision_tactile_dataset.Common.Int.{pos, negsuc}
use vision_tactile_dataset.Common.Dict.{insert}
use vision_tactile_dataset.Common.Monad.{ok}
use vision_tactile_dataset.Tracker.Health.{
  TrackerHealthBook, StampedTrackerSample, new_health, record_drop,
}
use vision_tactile_dataset.Common.Deque.{append_bounded}
use vision_tactile_dataset.Tracker.Queue.{BoundedSampleQueue, new_queue, put, drain, len}
use vision_tactile_dataset.Tracker.Queue.Runs.{IsQueue, Took, put_all, put_all-Took}

machinery : Unit {0}
unfolding insert record_drop append_bounded put drain len put_all
machinery = tt

abbrev sample_1 : StampedTrackerSample
sample_1 = record {
  role = "left";
  tracker_id = "A";
  host_monotonic_ns = 5;
  host_realtime_ns = 7;
  packet_index = 1;
  tracking_status = 2;
  raw_buttons = 0;
  pose_valid = true;
}

abbrev sample_2 : StampedTrackerSample
sample_2 = record sample_1 { packet_index = 2 }

abbrev sample_3 : StampedTrackerSample
sample_3 = record sample_1 { packet_index = 3 }

abbrev book : TrackerHealthBook
book = record {
  disconnect_timeout_ns = 10;
  values = ("left", new_health "left" "A") ∷ [];
  status_publish_requested = false;
}

abbrev queue : BoundedSampleQueue
queue = record { health_book = book; capacity = 2; values = [] }

capacity_is_positive :
    (new_queue book (pos 2) ≡ some queue)
    × (new_queue book (pos 0) ≡ none)
    × (new_queue book (negsuc 0) ≡ none)
capacity_is_positive = (refl, refl, refl)

third_drops_first :
    let filled = (put_all (sample_1 ∷ sample_2 ∷ sample_3 ∷ []) queue).1 in
    ((drain filled).0 ≡ ok (sample_2 ∷ sample_3 ∷ []))
    × (len filled ≡ 2)
    × (len (drain filled).1 ≡ 0)
unfolding machinery
third_drops_first = (refl, refl, refl)

queue-IsQueue : IsQueue queue
unfolding IsQueue
queue-IsQueue = (omega arith, omega arith, tt)

put_all-Took_example :
    Took
      (sample_1 ∷ sample_2 ∷ sample_3 ∷ [])
      queue
      (put_all (sample_1 ∷ sample_2 ∷ sample_3 ∷ []) queue)
put_all-Took_example =
    put_all-Took (sample_1 ∷ sample_2 ∷ sample_3 ∷ []) queue queue-IsQueue
      (refl, (refl, (refl, tt)))
