-- ===== src/Tracker/Health.antt =====
-- The health of each tracker, `TrackerHealthBook` of
-- ros2_ws/src/vt_vive_tracker/vt_vive_tracker/health.py, method by method. Each method holds the
-- book's lock from its first read to its last write, so a call is one step.
pub mod Rules
pub mod Invariant
pub mod Runs
pub mod Reports
mod Tests
use Prim.Native.String.{compare as compare_texts}
use Prim.Native.Nat.{Ordering}
use vision_tactile_dataset.Common.{
  ℕ, zero, suc, ◌+◌, ◌-◌, Bool, true, false, not, ◌&&◌, ◌||◌, Option, none, some, List, [], ◌∷◌,
  String, ltb, leb, ◌==◌, if◌then◌else◌, is_some, map,
}
use vision_tactile_dataset.Common.Int.{ℤ, pos, negsuc}
use vision_tactile_dataset.Common.Dict.{Dict, lookup, insert, str_eq}
use vision_tactile_dataset.Common.Monad.{
  Result, ok, err, Action, pure, raise, gets, modify, ◌>>=◌, ◌>>◌, raise_if,
}

-- DISCONNECTED, CONNECTED_NO_TRACKING, TRACKING and INVALID_DATA, the numbers 0 to 3.
pub data TrackerState : Type 0 where
  disconnected connected_no_tracking tracking invalid_data : TrackerState

abbrev pub value : TrackerState → ℕ
value disconnected = 0
value connected_no_tracking = 1
value tracking = 2
value invalid_data = 3

-- The `StampedTrackerSample` of model.py, without its vectors of floats, which the book and the queue
-- do not read. Its constructor has checked that the times are not negative.
pub record StampedTrackerSample : Type 0 where
  pub role : String
  pub tracker_id : String
  pub host_monotonic_ns : ℕ
  pub host_realtime_ns : ℕ
  pub packet_index : ℕ
  pub tracking_status : ℕ
  pub raw_buttons : ℕ
  pub pose_valid : Bool

-- `_MutableHealth`, and the snapshot that it gives.
pub record Health : Type 0 where
  pub role : String
  pub tracker_id : String
  pub state : TrackerState
  pub tracking_status : ℕ
  pub valid_sample_count : ℕ
  pub invalid_report_count : ℕ
  pub dropped_queue_count : ℕ
  pub last_report_monotonic_ns : ℕ
  pub last_valid_pose_monotonic_ns : ℕ
  pub has_report : Bool
  pub has_valid_pose : Bool

pub record TrackerHealthSnapshot : Type 0 where
  pub role : String
  pub tracker_id : String
  pub state : TrackerState
  pub tracking_status : ℕ
  pub valid_sample_count : ℕ
  pub invalid_report_count : ℕ
  pub dropped_queue_count : ℕ
  pub last_report_monotonic_ns : ℕ
  pub last_valid_pose_monotonic_ns : ℕ

abbrev pub snapshot_of : Health → TrackerHealthSnapshot
snapshot_of v = record {
  role = v.role;
  tracker_id = v.tracker_id;
  state = v.state;
  tracking_status = v.tracking_status;
  valid_sample_count = v.valid_sample_count;
  invalid_report_count = v.invalid_report_count;
  dropped_queue_count = v.dropped_queue_count;
  last_report_monotonic_ns = v.last_report_monotonic_ns;
  last_valid_pose_monotonic_ns = v.last_valid_pose_monotonic_ns;
}

pub record TrackerHealthBook : Type 0 where
  pub disconnect_timeout_ns : ℕ
  pub values : Dict Health
  pub status_publish_requested : Bool

pub data Error : Type 0 where
  bad_timeout negative_timestamp unknown_role identity_mismatch timestamp_backwards : Error

abbrev pub Method : Type 0 → Type 0
Method = Action TrackerHealthBook Error

-- A tracker of which nothing was heard.
abbrev pub new_health : String → String → Health
new_health role tracker_id = record {
  role = role;
  tracker_id = tracker_id;
  state = disconnected;
  tracking_status = 0;
  valid_sample_count = 0;
  invalid_report_count = 0;
  dropped_queue_count = 0;
  last_report_monotonic_ns = 0;
  last_valid_pose_monotonic_ns = 0;
  has_report = false;
  has_valid_pose = false;
}

-- The book of the roles of a `RoleMap`, in their order, each with its tracker.
abbrev pub new_values : List (String × String) → Dict Health
new_values [] = []
new_values ((role, tracker_id) ∷ roles) = (role, new_health role tracker_id) ∷ new_values roles

abbrev pub new_book : List (String × String) → ℤ → Result Error TrackerHealthBook
new_book roles (negsuc n) = err bad_timeout
new_book roles (pos zero) = err bad_timeout
new_book roles (pos (suc n)) = ok record {
  disconnect_timeout_ns = suc n;
  values = new_values roles;
  status_publish_requested = false;
}

-- `_require_timestamp`
abbrev pub require_timestamp : ℤ → Method ℕ
require_timestamp (pos n) = pure n
require_timestamp (negsuc n) = raise negative_timestamp

-- `_set_state` answers whether the state changes.
abbrev pub changes : Health → TrackerState → Bool
changes v state = not (value v.state == value state)

-- `_value_for`
abbrev pub checked_value : String → Option Health → Method Health
checked_value tracker_id none = raise unknown_role
checked_value tracker_id (some v) =
    if str_eq v.tracker_id tracker_id then pure v else raise identity_mismatch

abbrev pub value_for : String → String → Method Health
value_for role tracker_id s = checked_value tracker_id (lookup role s.values) s

-- `_require_ordered_timestamp`
abbrev pub require_ordered_timestamp : Health → ℕ → Method (Unit {0})
require_ordered_timestamp v now =
    raise_if (v.has_report && ltb now v.last_report_monotonic_ns) timestamp_backwards

-- What a method writes back: the value of its role, and the request for a status.
abbrev pub store : String → Health → Bool → Method Bool
store role v changed s = (
  ok changed,
  record s {
    values = insert role v s.values;
    status_publish_requested = s.status_publish_requested || changed;
  },
)

-- The value of a tracker behind a sample, and behind an invalid report.
unfoldable pub with_sample : Health → StampedTrackerSample → Health
with_sample v sample = record v {
  state = if sample.pose_valid then tracking else connected_no_tracking;
  tracking_status = sample.tracking_status;
  valid_sample_count = v.valid_sample_count + 1;
  last_report_monotonic_ns = sample.host_monotonic_ns;
  has_report = true;
  last_valid_pose_monotonic_ns =
      if sample.pose_valid then sample.host_monotonic_ns else v.last_valid_pose_monotonic_ns;
  has_valid_pose = v.has_valid_pose || sample.pose_valid;
}

-- A difference of times that is negative in Python is 0 here; both are below the timeout, which is
-- positive.
unfoldable pub has_recent_valid_pose : ℕ → Health → ℕ → Bool
has_recent_valid_pose timeout v now =
    v.has_valid_pose && ltb (now - v.last_valid_pose_monotonic_ns) timeout

unfoldable pub with_invalid : ℕ → Health → ℕ → Health
with_invalid timeout v now = record v {
  state = if has_recent_valid_pose timeout v now then v.state else invalid_data;
  invalid_report_count = v.invalid_report_count + 1;
  last_report_monotonic_ns = now;
  has_report = true;
}

unfoldable pub observe_sample : StampedTrackerSample → Method Bool
observe_sample sample = do
  v ← value_for sample.role sample.tracker_id
  require_ordered_timestamp v sample.host_monotonic_ns
  store sample.role (with_sample v sample) (changes v (with_sample v sample).state)

unfoldable pub observe_invalid : String → String → ℤ → Method Bool
observe_invalid role tracker_id monotonic_ns = do
  now ← require_timestamp monotonic_ns
  v ← value_for role tracker_id
  require_ordered_timestamp v now
  timeout ← gets (λ s. s.disconnect_timeout_ns)
  store role (with_invalid timeout v now) (changes v (with_invalid timeout v now).state)

abbrev pub drop_in : String → Option Health → Method (Unit {0})
drop_in role none = raise unknown_role
drop_in role (some v) = modify (λ s. record s {
  values = insert role (record v { dropped_queue_count = v.dropped_queue_count + 1 }) s.values;
})

unfoldable pub record_drop : String → Method (Unit {0})
record_drop role s = drop_in role (lookup role s.values) s

-- The value of a tracker when a snapshot is taken: disconnected if its last report is too old.
abbrev pub is_expired : ℕ → ℕ → Health → Bool
is_expired timeout now v = v.has_report && leb timeout (now - v.last_report_monotonic_ns)

unfoldable pub expire : ℕ → ℕ → Health → Health
expire timeout now v = if is_expired timeout now v then record v { state = disconnected } else v

abbrev pub expire_all : ℕ → ℕ → Dict Health → Dict Health
expire_all timeout now [] = []
expire_all timeout now ((role, v) ∷ d) = (role, expire timeout now v) ∷ expire_all timeout now d

abbrev pub any_expires : ℕ → ℕ → Dict Health → Bool
any_expires timeout now [] = false
any_expires timeout now ((role, v) ∷ d) =
    (is_expired timeout now v && changes v disconnected) || any_expires timeout now d

-- `sorted(self._values)`, by code points.
abbrev pub before : String → String → Bool
before a b = elim (compare_texts a b) [ Ordering.lt ↦ true | _ ↦ false ]

abbrev pub insert_sorted : String → List String → List String
insert_sorted k [] = k ∷ []
insert_sorted k (j ∷ ks) = if before k j then k ∷ j ∷ ks else j ∷ insert_sorted k ks

abbrev pub sorted_keys : Dict Health → List String
sorted_keys [] = []
sorted_keys ((k, v) ∷ d) = insert_sorted k (sorted_keys d)

abbrev pub and_snapshot : Option Health → List TrackerHealthSnapshot → List TrackerHealthSnapshot
and_snapshot none rest = rest
and_snapshot (some v) rest = snapshot_of v ∷ rest

abbrev pub snapshots : List String → Dict Health → List TrackerHealthSnapshot
snapshots [] d = []
snapshots (k ∷ ks) d = and_snapshot (lookup k d) (snapshots ks d)

unfoldable pub snapshot : ℤ → Method (List TrackerHealthSnapshot)
snapshot now_ns = do
  now ← require_timestamp now_ns
  modify (λ s. record s {
    values = expire_all s.disconnect_timeout_ns now s.values;
    status_publish_requested =
        s.status_publish_requested || any_expires s.disconnect_timeout_ns now s.values;
  })
  gets (λ s. snapshots (sorted_keys s.values) s.values)

unfoldable pub consume_status_publish_request : Method Bool
consume_status_publish_request s =
    (ok s.status_publish_requested, record s { status_publish_requested = false })
