-- ===== src/Tracker/Queue.antt =====
-- The queue of samples between the pose source and the publisher, `BoundedSampleQueue` of
-- ros2_ws/src/vt_vive_tracker/vt_vive_tracker/health.py. Each method holds the queue's lock, so a call
-- is one step; the health book is the queue's collaborator and part of its state.
pub mod Counts
pub mod Runs
mod Tests
use vision_tactile_dataset.Common.{
  ℕ, zero, suc, Bool, String, true, false, Option, none, some, List, [], ◌∷◌, ◌++◌, ltb, ◌==◌,
  if◌then◌else◌, length, drop,
}
use vision_tactile_dataset.Common.Int.{ℤ, pos, negsuc}
use vision_tactile_dataset.Common.Deque.{append_bounded}
use vision_tactile_dataset.Common.Monad.{Result, ok, err, Action, pure, gets, modify, ◌>>=◌, ◌>>◌}
use vision_tactile_dataset.Tracker.Health.{
  TrackerHealthBook, StampedTrackerSample, Error, record_drop,
}

pub record BoundedSampleQueue : Type 0 where
  pub health_book : TrackerHealthBook
  pub capacity : ℕ
  pub values : List StampedTrackerSample

-- The constructor, which refuses a capacity that is not positive.
abbrev pub new_queue : TrackerHealthBook → ℤ → Option BoundedSampleQueue
new_queue book (negsuc n) = none
new_queue book (pos zero) = none
new_queue book (pos (suc n)) = some record { health_book = book; capacity = suc n; values = [] }

abbrev pub Method : Type 0 → Type 0
Method = Action BoundedSampleQueue Error

-- A call of the health book's `record_drop`.
abbrev pub report_drop : String → Method (Unit {0})
report_drop role q =
    let (r, book) = record_drop role q.health_book in (r, record q { health_book = book })

-- The drop of the oldest sample is reported before it is done.
abbrev pub report_oldest : List StampedTrackerSample → Method (Unit {0})
report_oldest [] = pure tt
report_oldest (dropped ∷ rest) = report_drop dropped.role

abbrev pub make_room : Bool → Method (Unit {0})
make_room false q = pure tt q
make_room true q = report_oldest q.values q

unfoldable pub put : StampedTrackerSample → Method (Unit {0})
put sample = do
  full ← gets (λ q. length q.values == q.capacity)
  make_room full
  modify (λ q. record q { values = append_bounded q.capacity q.values sample })

unfoldable pub drain : Method (List StampedTrackerSample)
drain q = (ok q.values, record q { values = [] })

-- `__len__`
unfoldable pub len : BoundedSampleQueue → ℕ
len q = length q.values
