-- ===== src/Tracker/Visualization.antt =====
-- What the visualizer and the GUI know of the trackers: `TrackerVisualizationModel` of
-- ros2_ws/src/vt_vive_tracker/vt_vive_tracker/visualization_model.py, method by method. The type of
-- floats and the test that one is finite are parameters; no other operation on floats is used, since
-- the rate that a snapshot shows is a count per second.
pub mod Snapshots
pub mod Window
pub mod Invariant
pub mod Calls
pub mod Shown
mod Tests
use vision_tactile_dataset.Common.{
  ℕ, zero, suc, ◌+◌, ◌-◌, ◌*◌, ◌/◌, Bool, true, false, not, ◌&&◌, ◌||◌, Option, none, some, List,
  [], ◌∷◌, ◌++◌, String, ltb, leb, ◌==◌, if◌then◌else◌, length, map,
}
use vision_tactile_dataset.Common.Int.{ℤ, pos, negsuc}
use vision_tactile_dataset.Common.Dict.{Dict, lookup, insert}
use vision_tactile_dataset.Common.Deque.{append_bounded}
use vision_tactile_dataset.Common.Monad.{Result, ok, err}

abbrev pub fixed_roles : List String
fixed_roles = "left_wrist" ∷ "right_wrist" ∷ "torso" ∷ []

abbrev pub fresh_ns : ℕ
fresh_ns = 250_000_000

abbrev pub offline_ns : ℕ
offline_ns = 1_000_000_000

abbrev pub trail_ns : ℕ
trail_ns = 3_000_000_000

abbrev pub rate_ns : ℕ
rate_ns = 1_000_000_000

pub data VisualHealth : Type 0 where
  fresh delayed offline : VisualHealth

-- The tuples of a pose, of any lengths until they are checked.
pub record PoseValue (F : Type 0) : Type 0 where
  pub position : List F
  pub orientation_xyzw : List F

pub record StatusValue : Type 0 where
  pub state : ℕ
  pub valid_sample_count : ℕ
  pub invalid_report_count : ℕ
  pub dropped_queue_count : ℕ
  pub tracker_id : String
  pub tracking_status : ℕ

pub record TimedPose (F : Type 0) : Type 0 where
  pub arrival_ns : ℕ
  pub pose : PoseValue F

pub record RoleSnapshot (F : Type 0) : Type 0 where
  pub role : String
  pub health : VisualHealth
  pub pose : Option (PoseValue F)
  pub trail : List (PoseValue F)
  pub receive_rate_hz : ℕ
  pub status : Option StatusValue
  pub pose_age_ns : Option ℕ

pub record RoleState (F : Type 0) : Type 0 where
  pub trail : List (TimedPose F)
  pub rate_times : List ℕ
  pub last_pose : Option (TimedPose F)
  pub status : Option StatusValue

-- `_states` has the keys FIXED_ROLES, in this order; the deques have the maximal length
-- `max_trail_points`.
pub record TrackerVisualizationModel (F : Type 0) : Type 0 where
  pub max_trail_points : ℕ
  pub states : Dict (RoleState F)

pub data Error : Type 0 where
  bad_max_trail_points negative_now : Error

-- `observe_status`: the tests of the values, and the value that is kept.
abbrev pub status_value : ℤ → ℤ → ℤ → ℤ → String → ℤ → Option StatusValue
status_value (pos state) (pos valid) (pos invalid) (pos dropped) tracker_id (pos tracking_status) =
    if leb state 3 && leb tracking_status 255
    then some record {
      state = state;
      valid_sample_count = valid;
      invalid_report_count = invalid;
      dropped_queue_count = dropped;
      tracker_id = tracker_id;
      tracking_status = tracking_status;
    }
    else none
status_value _ _ _ _ _ _ = none

module _ {F : Type 0} where
  abbrev pub new_role : RoleState F
  new_role = record { trail = []; rate_times = []; last_pose = none; status = none }

  abbrev pub new_states : List String → Dict (RoleState F)
  new_states [] = []
  new_states (role ∷ roles) = (role, new_role) ∷ new_states roles

  -- The constructor.
  abbrev pub new_model : ℤ → Result Error (TrackerVisualizationModel F)
  new_model (negsuc n) = err bad_max_trail_points
  new_model (pos zero) = err bad_max_trail_points
  new_model (pos (suc n)) = ok record { max_trail_points = suc n; states = new_states fixed_roles }

  -- Whether a pose arrives before the last one.
  abbrev pub is_late : Option (TimedPose F) → ℕ → Bool
  is_late none arrival_ns = false
  is_late (some last) arrival_ns = ltb arrival_ns last.arrival_ns

  unfoldable pub with_pose : ℕ → RoleState F → TimedPose F → RoleState F
  with_pose max_points state timed_pose = record state {
    last_pose = some timed_pose;
    trail = append_bounded max_points state.trail timed_pose;
    rate_times = append_bounded max_points state.rate_times timed_pose.arrival_ns;
  }

  abbrev pub store :
      String → RoleState F → TrackerVisualizationModel F → Bool × TrackerVisualizationModel F
  store role state m = (true, record m { states = insert role state m.states })

  abbrev pub observe_status_in :
      String
      → Option (RoleState F)
      → Option StatusValue
      → TrackerVisualizationModel F
      → Bool × TrackerVisualizationModel F
  observe_status_in role none _ m = (false, m)
  observe_status_in role (some state) none m = (false, m)
  observe_status_in role (some state) (some value) m =
      store role (record state { status = some value }) m

  unfoldable pub observe_status :
      String
      → ℤ
      → ℤ
      → ℤ
      → ℤ
      → String
      → ℤ
      → TrackerVisualizationModel F
      → Bool × TrackerVisualizationModel F
  observe_status role state valid invalid dropped tracker_id tracking_status m =
      observe_status_in role (lookup role m.states)
        (status_value state valid invalid dropped tracker_id tracking_status) m

-- `_valid_pose`: three and four components, all finite.
module _ {F : Type 0} (is_finite : F → Bool) where
  abbrev pub all_finite : List F → Bool
  all_finite [] = true
  all_finite (x ∷ xs) = is_finite x && all_finite xs

  abbrev pub is_valid_pose : PoseValue F → Bool
  is_valid_pose pose =
      length pose.position == 3
      && length pose.orientation_xyzw == 4
      && all_finite (pose.position ++ pose.orientation_xyzw)

  abbrev pub observe_pose_in :
      String
      → Option (RoleState F)
      → PoseValue F
      → ℤ
      → TrackerVisualizationModel F
      → Bool × TrackerVisualizationModel F
  observe_pose_in role none pose arrival_ns m = (false, m)
  observe_pose_in role (some state) pose (negsuc n) m = (false, m)
  observe_pose_in role (some state) pose (pos arrival_ns) m =
      if not (is_valid_pose pose) || is_late state.last_pose arrival_ns
      then (false, m)
      else store role
          (with_pose m.max_trail_points state (record { arrival_ns = arrival_ns; pose = pose })) m

  unfoldable pub observe_pose :
      String → PoseValue F → ℤ → TrackerVisualizationModel F → Bool × TrackerVisualizationModel F
  observe_pose role pose arrival_ns m =
      observe_pose_in role (lookup role m.states) pose arrival_ns m
