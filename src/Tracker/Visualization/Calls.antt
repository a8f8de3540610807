-- ===== src/Tracker/Visualization/Calls.antt =====
-- Any calls to a model of visualization_model.py, from its creation on.
use mathlib.Core.Path.{subst}
use vision_tactile_dataset.Common.{
  ap, ℕ, zero, suc, ◌≤◌, ◌≡◌, refl, ◌∙◌, Bool, Option, none, some, List, [], ◌∷◌, String, arith,
  Bool-cases, inl, inr,
}
use vision_tactile_dataset.Common.Int.{ℤ, pos, negsuc}
use vision_tactile_dataset.Common.Dict.{Dict, lookup, keys, AllValues}
use vision_tactile_dataset.Common.Monad.{ok}
use vision_tactile_dataset.Tracker.Visualization.{
  fixed_roles, PoseValue, StatusValue, TimedPose, RoleState, TrackerVisualizationModel, new_role,
  new_states, new_model, is_late, with_pose, status_value, observe_status_in, observe_status,
  is_valid_pose, observe_pose_in, observe_pose,
}
use vision_tactile_dataset.Tracker.Visualization.Snapshots.{
  prune_all, snapshots_at, snapshots, now_of,
}
use vision_tactile_dataset.Tracker.Visualization.Invariant.{
  IsKnownStatus, IsRole, IsModel, with_pose-IsRole, prune-IsRole, store-IsModel, lookup-IsRole,
}

module _ {F : Type 0} (is_finite : F → Bool) where
  observe_pose_in-IsModel :
      (role : String) (o : Option (RoleState F)) (pose : PoseValue F) (arrival_ns : ℤ)
      (m : TrackerVisualizationModel F)
      → lookup role m.states ≡ o
      → IsModel m
      → IsModel (observe_pose_in is_finite role o pose arrival_ns m).1
  observe_pose_in-IsModel role none pose arrival_ns m found h = h
  observe_pose_in-IsModel role (some state) pose (negsuc n) m found h = h
  observe_pose_in-IsModel role (some state) pose (pos t) m found h =
      let p : TimedPose F = record { arrival_ns = t; pose = pose } in
      elim (Bool-cases (is_late state.last_pose t)) [
        | inl late ↦ elim (Bool-cases (is_valid_pose is_finite pose)) [
          | inl valid ↦ rw (valid, late) h
          | inr bad ↦ rw bad h
        ]
        | inr in_order ↦ elim (Bool-cases (is_valid_pose is_finite pose)) [
          | inl valid ↦
              rw (valid, in_order)
                (store-IsModel role state (with_pose m.max_trail_points state p) m found
                  (with_pose-IsRole m.max_trail_points state p in_order
                    (lookup-IsRole role state m found h))
                  h)
          | inr bad ↦ rw bad h
        ]
      ]

  observe_pose-IsModel :
      (role : String) (pose : PoseValue F) (arrival_ns : ℤ) (m : TrackerVisualizationModel F)
      → IsModel m
      → IsModel (observe_pose is_finite role pose arrival_ns m).1
  unfolding observe_pose
  observe_pose-IsModel role pose arrival_ns m =
      observe_pose_in-IsModel role (lookup role m.states) pose arrival_ns m refl

module _ {F : Type 0} where
  with_status-IsRole :
      (max : ℕ) (state : RoleState F) (value : StatusValue)
      → value.state ≤ 3
      → IsRole max state
      → IsRole max (record state { status = some value })
  unfolding IsRole
  with_status-IsRole max state value k h = (h.0, h.1, k)

  observe_status_in-IsModel :
      (role : String) (o : Option (RoleState F)) (v : Option StatusValue)
      (m : TrackerVisualizationModel F)
      → lookup role m.states ≡ o
      → IsKnownStatus v
      → IsModel m
      → IsModel (observe_status_in role o v m).1
  observe_status_in-IsModel role none v m found k h = h
  observe_status_in-IsModel role (some state) none m found k h = h
  observe_status_in-IsModel role (some state) (some value) m found k h =
      store-IsModel role state (record state { status = some value }) m found
        (with_status-IsRole m.max_trail_points state value k (lookup-IsRole role state m found h)) h

  prune_all-AllValues :
      (max now_ns : ℕ) (states : Dict (RoleState F))
      → AllValues (IsRole max) states
      → AllValues (IsRole max) (prune_all now_ns states)
  prune_all-AllValues max now_ns [] h = tt
  prune_all-AllValues max now_ns ((role, state) ∷ states) h =
      (prune-IsRole max now_ns state h.0, prune_all-AllValues max now_ns states h.1)

  pub keys-prune_all :
      (now_ns : ℕ) (states : Dict (RoleState F)) → keys (prune_all now_ns states) ≡ keys states
  keys-prune_all now_ns [] = refl
  keys-prune_all now_ns ((role, state) ∷ states) =
      ap (λ ks. role ∷ ks) (keys-prune_all now_ns states)

  snapshots_at-IsModel :
      (now_ns : ℤ) (m : TrackerVisualizationModel F) → IsModel m → IsModel (snapshots_at now_ns m).1
  unfolding IsModel
  snapshots_at-IsModel (negsuc n) m h = h
  snapshots_at-IsModel (pos now_ns) m (room, names, all) = (
    room,
    keys-prune_all now_ns m.states ∙ names,
    prune_all-AllValues m.max_trail_points now_ns m.states all,
  )

  snapshots-IsModel :
      (now_ns : Option ℤ) (clock : ℤ) (m : TrackerVisualizationModel F)
      → IsModel m
      → IsModel (snapshots now_ns clock m).1
  unfolding snapshots
  snapshots-IsModel now_ns clock m h = snapshots_at-IsModel (now_of now_ns clock) m h

status_value-IsKnownStatus :
    (state valid invalid dropped : ℤ) (tracker_id : String) (tracking_status : ℤ)
    → IsKnownStatus (status_value state valid invalid dropped tracker_id tracking_status)
status_value-IsKnownStatus (pos s) (pos v) (pos i) (pos d) t (pos ts) = ground arith
status_value-IsKnownStatus (negsuc s) v i d t ts = tt
status_value-IsKnownStatus (pos s) (negsuc v) i d t ts = tt
status_value-IsKnownStatus (pos s) (pos v) (negsuc i) d t ts = tt
status_value-IsKnownStatus (pos s) (pos v) (pos i) (negsuc d) t ts = tt
status_value-IsKnownStatus (pos s) (pos v) (pos i) (pos d) t (negsuc ts) = tt

module _ {F : Type 0} where
  observe_status-IsModel :
      (role : String) (state valid invalid dropped : ℤ) (tracker_id : String) (tracking_status : ℤ)
      (m : TrackerVisualizationModel F)
      → IsModel m
      → IsModel (observe_status role state valid invalid dropped tracker_id tracking_status m).1
  unfolding observe_status
  observe_status-IsModel role state valid invalid dropped tracker_id tracking_status m =
      observe_status_in-IsModel role (lookup role m.states)
        (status_value state valid invalid dropped tracker_id tracking_status) m refl
        (status_value-IsKnownStatus state valid invalid dropped tracker_id tracking_status)

pub data Call (F : Type 0) : Type 0 where
  pose_seen : String → PoseValue F → ℤ → Call F
  status_seen : String → ℤ → ℤ → ℤ → ℤ → String → ℤ → Call F
  shown : Option ℤ → ℤ → Call F

module _ {F : Type 0} (is_finite : F → Bool) where
  unfoldable pub call : Call F → TrackerVisualizationModel F → TrackerVisualizationModel F
  call (pose_seen role pose arrival_ns) m = (observe_pose is_finite role pose arrival_ns m).1
  call (status_seen role state valid invalid dropped tracker_id tracking_status) m =
      (observe_status role state valid invalid dropped tracker_id tracking_status m).1
  call (shown now_ns clock) m = (snapshots now_ns clock m).1

  unfoldable pub run : List (Call F) → TrackerVisualizationModel F → TrackerVisualizationModel F
  run [] m = m
  run (c ∷ cs) m = run cs (call c m)

  call-IsModel : (c : Call F) (m : TrackerVisualizationModel F) → IsModel m → IsModel (call c m)
  unfolding call
  call-IsModel (pose_seen role pose arrival_ns) m =
      observe_pose-IsModel is_finite role pose arrival_ns m
  call-IsModel (status_seen role state valid invalid dropped tracker_id tracking_status) m =
      observe_status-IsModel role state valid invalid dropped tracker_id tracking_status m
  call-IsModel (shown now_ns clock) m = snapshots-IsModel now_ns clock m

  run-IsModel :
      (cs : List (Call F)) (m : TrackerVisualizationModel F) → IsModel m → IsModel (run cs m)
  unfolding run
  run-IsModel [] m h = h
  run-IsModel (c ∷ cs) m h = run-IsModel cs (call c m) (call-IsModel c m h)

  new_model-IsModel : (max : ℤ) (m : TrackerVisualizationModel F) → new_model max ≡ ok m → IsModel m
  unfolding IsModel IsRole
  new_model-IsModel (negsuc n) m h = absurd (ground arith)
  new_model-IsModel (pos zero) m h = absurd (ground arith)
  new_model-IsModel (pos (suc n)) m h =
      let first : TrackerVisualizationModel F = record {
        max_trail_points = suc n;
        states = new_states fixed_roles;
      } in
      let same : first ≡ m = cc in
      let empty : IsRole {F = F} (suc n) new_role = (refl, refl, tt) in
      subst IsModel same (omega arith, refl, (empty, (empty, (empty, tt))))

  -- Whatever calls a model gets that its constructor accepted: it keeps the three roles in their order,
  -- and of each role the trail and the times of arrival are in order, none after the last pose and at
  -- most as many as the points allowed, and empty before the first pose; a status is one of the four.
  pub run-IsModel_new :
      (max : ℤ) (cs : List (Call F)) {m : TrackerVisualizationModel F}
      → new_model max ≡ ok m
      → IsModel (run cs m)
  run-IsModel_new max cs {m = m} h = run-IsModel cs m (new_model-IsModel max m h)
