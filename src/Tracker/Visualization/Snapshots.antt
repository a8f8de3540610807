-- ===== src/Tracker/Visualization/Snapshots.antt =====
-- What is shown of the trackers: `_health`, `_prune` and `snapshots` of
-- ros2_ws/src/vt_vive_tracker/vt_vive_tracker/visualization_model.py.
use vision_tactile_dataset.Common.{
  ℕ, ◌-◌, ◌*◌, ◌/◌, Bool, true, false, ◌||◌, Option, none, some, List, [], ◌∷◌, String, ltb, ◌==◌,
  if◌then◌else◌, length, map,
}
use vision_tactile_dataset.Common.Int.{ℤ, pos, negsuc}
use vision_tactile_dataset.Common.Dict.{Dict}
use vision_tactile_dataset.Common.Monad.{Result, ok, err}
use vision_tactile_dataset.Tracker.Visualization.{
  trail_ns, rate_ns, fresh_ns, offline_ns, VisualHealth, fresh, delayed, offline, PoseValue,
  StatusValue, TimedPose, RoleSnapshot, RoleState, TrackerVisualizationModel, Error, negative_now,
}

-- `status_state == 0`, and `status_state in (None, 1, 3)`.
abbrev pub is_disconnected : Option StatusValue → Bool
is_disconnected none = false
is_disconnected (some status) = status.state == 0

abbrev pub is_untracked : Option StatusValue → Bool
is_untracked none = true
is_untracked (some status) = status.state == 1 || status.state == 3

-- `_health`. A negative age is 0 here; it is below both limits either way.
abbrev pub health_of_age : ℕ → Option StatusValue → VisualHealth
health_of_age age_ns status =
    if ltb offline_ns age_ns || is_disconnected status
    then offline
    else if ltb fresh_ns age_ns || is_untracked status
    then delayed
    else fresh

-- `snapshots` at the time that is given, or at that of the clock.
abbrev pub now_of : Option ℤ → ℤ → ℤ
now_of none monotonic_ns = monotonic_ns
now_of (some now_ns) monotonic_ns = now_ns

module _ {F : Type 0} where
  abbrev pub health_by : Option (TimedPose F) → Option StatusValue → ℕ → VisualHealth
  health_by none status now_ns = offline
  health_by (some last) status now_ns = health_of_age (now_ns - last.arrival_ns) status

  unfoldable pub health : RoleState F → ℕ → VisualHealth
  health state now_ns = health_by state.last_pose state.status now_ns

  -- The two loops of `_prune`: a negative cutoff is 0 here, and no time is below it either way.
  unfoldable pub prune_trail : ℕ → List (TimedPose F) → List (TimedPose F)
  prune_trail cutoff [] = []
  prune_trail cutoff (p ∷ trail) =
      if ltb p.arrival_ns cutoff then prune_trail cutoff trail else p ∷ trail

unfoldable pub prune_times : ℕ → List ℕ → List ℕ
prune_times cutoff [] = []
prune_times cutoff (t ∷ times) = if ltb t cutoff then prune_times cutoff times else t ∷ times

module _ {F : Type 0} where
  unfoldable pub prune : RoleState F → ℕ → RoleState F
  prune state now_ns = record state {
    trail = prune_trail (now_ns - trail_ns) state.trail;
    rate_times = prune_times (now_ns - rate_ns) state.rate_times;
  }

  abbrev pub prune_all : ℕ → Dict (RoleState F) → Dict (RoleState F)
  prune_all now_ns [] = []
  prune_all now_ns ((role, state) ∷ states) = (role, prune state now_ns) ∷ prune_all now_ns states

  -- The snapshot of a role whose state is pruned.
  abbrev pub pose_of : TimedPose F → PoseValue F
  pose_of p = p.pose

  abbrev pub age_at : ℕ → TimedPose F → ℕ
  age_at now_ns p = now_ns - p.arrival_ns

  abbrev pub of_last : {A : Type 0} → (TimedPose F → A) → Option (TimedPose F) → Option A
  of_last f none = none
  of_last f (some p) = some (f p)

  abbrev pub role_snapshot : String → RoleState F → ℕ → RoleSnapshot F
  role_snapshot role state now_ns = record {
    role = role;
    health = health state now_ns;
    pose = of_last pose_of state.last_pose;
    trail = map pose_of state.trail;
    receive_rate_hz = length state.rate_times * 1_000_000_000 / rate_ns;
    status = state.status;
    pose_age_ns = of_last (age_at now_ns) state.last_pose;
  }

  abbrev pub snapshots_of : Dict (RoleState F) → ℕ → List (RoleSnapshot F)
  snapshots_of [] now_ns = []
  snapshots_of ((role, state) ∷ states) now_ns =
      role_snapshot role state now_ns ∷ snapshots_of states now_ns

  abbrev pub snapshots_at :
      ℤ
      → TrackerVisualizationModel F
      → Result Error (List (RoleSnapshot F)) × TrackerVisualizationModel F
  snapshots_at (negsuc n) m = (err negative_now, m)
  snapshots_at (pos now_ns) m =
      let states = prune_all now_ns m.states in
      (ok (snapshots_of states now_ns), record m { states = states })

  unfoldable pub snapshots :
      Option ℤ
      → ℤ
      → TrackerVisualizationModel F
      → Result Error (List (RoleSnapshot F)) × TrackerVisualizationModel F
  snapshots now_ns monotonic_ns m = snapshots_at (now_of now_ns monotonic_ns) m
