-- ===== src/Tracker/Visualization/Invariant.antt =====
-- The invariant of `TrackerVisualizationModel` of visualization_model.py.
use vision_tactile_dataset.Common.{
  ℕ, ◌-◌, ◌≤◌, ◌<◌, ◌≡◌, ◌∙◌, false, Option, none, some, List, [], ◌∷◌, String, arith, ltb, length,
  All, Bool-cases, inl, inr,
}
use vision_tactile_dataset.Common.Dict.{
  lookup, keys, keys-insert, AllValues, lookup-AllValues, insert-AllValues,
}
use vision_tactile_dataset.Common.Deque.{append_bounded}
use vision_tactile_dataset.Tracker.Visualization.{
  fixed_roles, trail_ns, rate_ns, StatusValue, TimedPose, RoleState, TrackerVisualizationModel,
  is_late, with_pose, store,
}
use vision_tactile_dataset.Tracker.Visualization.Snapshots.{prune_times, prune}
use vision_tactile_dataset.Tracker.Visualization.Window.{
  Sorted, All-up, IsWindow, append_bounded-IsWindow, arrivals, arrivals-prune_trail,
  arrivals-append_bounded,
}

module _ (P : ℕ → Type 0) where
  prune_times-All : (c : ℕ) (ts : List ℕ) → All P ts → All P (prune_times c ts)
  unfolding prune_times
  prune_times-All c [] h = tt
  prune_times-All c (t ∷ ts) h = elim (Bool-cases (ltb t c)) [
    | inl older ↦ rw older (prune_times-All c ts h.1)
    | inr kept ↦ rw kept h
  ]

prune_times-Sorted : (c : ℕ) (ts : List ℕ) → Sorted ts → Sorted (prune_times c ts)
unfolding prune_times
prune_times-Sorted c [] h = tt
prune_times-Sorted c (t ∷ ts) h = elim (Bool-cases (ltb t c)) [
  | inl older ↦ rw older (prune_times-Sorted c ts h.1)
  | inr kept ↦ rw kept h
]

length-prune_times : (c : ℕ) (ts : List ℕ) → length (prune_times c ts) ≤ length ts
unfolding prune_times
length-prune_times c [] = omega arith
length-prune_times c (t ∷ ts) = elim (Bool-cases (ltb t c)) [
  | inl older ↦ rw older (omega (arith, length-prune_times c ts))
  | inr kept ↦ rw kept (omega arith)
]

prune_times-IsWindow :
    (max a c : ℕ) (ts : List ℕ) → IsWindow max a ts → IsWindow max a (prune_times c ts)
prune_times-IsWindow max a c ts w = (
  prune_times-Sorted c ts w.0,
  omega (arith, length-prune_times c ts, w.1),
  prune_times-All (λ u. u ≤ a) c ts w.2,
)

-- The state that a status message reports is one of four.
abbrev pub IsKnownStatus : Option StatusValue → Type 0
IsKnownStatus none = Unit
IsKnownStatus (some value) = value.state ≤ 3

module _ {F : Type 0} where
  -- Times stand against the last pose: without one there are none.
  abbrev pub IsUpTo : ℕ → Option (TimedPose F) → List ℕ → Type 0
  IsUpTo max none ts = ts ≡ []
  IsUpTo max (some p) ts = IsWindow max p.arrival_ns ts

  unfoldable pub IsRole : ℕ → RoleState F → Type 0
  IsRole max state =
      IsUpTo max state.last_pose (arrivals state.trail)
      × IsUpTo max state.last_pose state.rate_times
      × IsKnownStatus state.status

  unfoldable pub IsModel : TrackerVisualizationModel F → Type 0
  IsModel m =
      (0 < m.max_trail_points)
      × (keys m.states ≡ fixed_roles)
      × AllValues (IsRole m.max_trail_points) m.states

  append-IsUpTo :
      (max : ℕ) (last : Option (TimedPose F)) (ts : List ℕ) (p : TimedPose F)
      → is_late last p.arrival_ns ≡ false
      → IsUpTo max last ts
      → IsUpTo max (some p) (append_bounded max ts p.arrival_ns)
  append-IsUpTo max none ts p late h =
      append_bounded-IsWindow max p.arrival_ns ts (rw h tt) (rw h (omega arith)) (rw h tt)
  append-IsUpTo max (some q) ts p late (s, n, b) =
      append_bounded-IsWindow max p.arrival_ns ts s n
        (All-up q.arrival_ns p.arrival_ns ts (ground arith) b)

  pub with_pose-IsRole :
      (max : ℕ) (state : RoleState F) (p : TimedPose F)
      → is_late state.last_pose p.arrival_ns ≡ false
      → IsRole max state
      → IsRole max (with_pose max state p)
  unfolding IsRole with_pose
  with_pose-IsRole max state p late (trail, times, status) = (
    rw (arrivals-append_bounded max state.trail p)
        (append-IsUpTo max state.last_pose (arrivals state.trail) p late trail),
    append-IsUpTo max state.last_pose state.rate_times p late times,
    status,
  )

  prune-IsUpTo :
      (max c : ℕ) (last : Option (TimedPose F)) (ts : List ℕ)
      → IsUpTo max last ts
      → IsUpTo max last (prune_times c ts)
  unfolding prune_times
  prune-IsUpTo max c none ts h = rw h
  prune-IsUpTo max c (some p) ts h = prune_times-IsWindow max p.arrival_ns c ts h

  pub prune-IsRole :
      (max now_ns : ℕ) (state : RoleState F) → IsRole max state → IsRole max (prune state now_ns)
  unfolding IsRole prune
  prune-IsRole max now_ns state (trail, times, status) = (
    rw (arrivals-prune_trail (now_ns - trail_ns) state.trail)
        (prune-IsUpTo max (now_ns - trail_ns) state.last_pose (arrivals state.trail) trail),
    prune-IsUpTo max (now_ns - rate_ns) state.last_pose state.rate_times times,
    status,
  )

  pub store-IsModel :
      (role : String) (state state' : RoleState F) (m : TrackerVisualizationModel F)
      → lookup role m.states ≡ some state
      → IsRole m.max_trail_points state'
      → IsModel m
      → IsModel (store role state' m).1
  unfolding IsModel
  store-IsModel role state state' m found r (room, names, all) = (
    room,
    keys-insert role state state' m.states found ∙ names,
    insert-AllValues (IsRole m.max_trail_points) role state' m.states r all,
  )

  pub lookup-IsRole :
      (role : String) (state : RoleState F) (m : TrackerVisualizationModel F)
      → lookup role m.states ≡ some state
      → IsModel m
      → IsRole m.max_trail_points state
  unfolding IsModel
  lookup-IsRole role state m found (room, names, all) =
      lookup-AllValues (IsRole m.max_trail_points) role state m.states found all
