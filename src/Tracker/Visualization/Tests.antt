-- ===== src/Tracker/Visualization/Tests.antt =====
-- A model over floats that are numbers, all finite, and the theorems at it.
use vision_tactile_dataset.Common.{ℕ, ◌≡◌, refl, Bool, true, false, some, List, [], ◌∷◌, map}
use vision_tactile_dataset.Common.Int.{pos, negsuc}
use vision_tactile_dataset.Common.Dict.{insert}
use vision_tactile_dataset.Common.Deque.{append_bounded}
use vision_tactile_dataset.Common.Monad.{ok, err}
use vision_tactile_dataset.Tracker.Visualization.{
  fixed_roles, VisualHealth, fresh, delayed, offline, PoseValue, RoleSnapshot,
  TrackerVisualizationModel, new_states, with_pose, observe_status, observe_pose,
}
use vision_tactile_dataset.Tracker.Visualization.Snapshots.{
  health, prune_trail, prune_times, prune, snapshots,
}
use vision_tactile_dataset.Tracker.Visualization.Invariant.{IsModel}
use vision_tactile_dataset.Tracker.Visualization.Calls.{
  Call, pose_seen, status_seen, call, run, run-IsModel_new,
}
use vision_tactile_dataset.Tracker.Visualization.Shown.{roles_shown, AreShown, snapshots-AreShown}

machinery : Unit {0}
unfolding insert append_bounded with_pose observe_status observe_pose health prune_trail prune_times
    prune snapshots call run
machinery = tt

abbrev all_are_finite : ℕ → Bool
all_are_finite x = true

abbrev pose : PoseValue ℕ
pose = record { position = 1 ∷ 2 ∷ 3 ∷ []; orientation_xyzw = 0 ∷ 0 ∷ 0 ∷ 1 ∷ [] }

abbrev short_pose : PoseValue ℕ
short_pose = record { position = 1 ∷ 2 ∷ []; orientation_xyzw = 0 ∷ 0 ∷ 0 ∷ 1 ∷ [] }

abbrev health_of : RoleSnapshot ℕ → VisualHealth
health_of x = x.health

abbrev empty_model : TrackerVisualizationModel ℕ
empty_model = record { max_trail_points = 2; states = new_states fixed_roles }

abbrev seen : List (Call ℕ)
seen =
    pose_seen "torso" pose (pos 100)
    ∷ pose_seen "torso" pose (pos 200)
    ∷ status_seen "torso" (pos 2) (pos 2) (pos 0) (pos 0) "T" (pos 2)
    ∷ []

refused :
    ((observe_pose all_are_finite "head" pose (pos 1) empty_model).0 ≡ false)
    × ((observe_pose all_are_finite "torso" short_pose (pos 1) empty_model).0 ≡ false)
    × ((observe_pose all_are_finite "torso" pose (negsuc 0) empty_model).0 ≡ false)
    × ((observe_pose all_are_finite "torso" pose (pos 150) (run all_are_finite seen empty_model)).0
        ≡ false)
    × ((observe_pose all_are_finite "torso" pose (pos 200) (run all_are_finite seen empty_model)).0
        ≡ true)
unfolding machinery
refused = (refl, refl, refl, refl, refl)

health_at : ℕ → List VisualHealth
unfolding machinery
health_at now_ns =
    elim (snapshots (some (pos now_ns)) (pos 0) (run all_are_finite seen empty_model)).0 [
      | ok xs ↦ map health_of xs
      | err e ↦ []
    ]

torso_ages :
    (health_at 250_000_200 ≡ offline ∷ offline ∷ fresh ∷ [])
    × (health_at 250_000_201 ≡ offline ∷ offline ∷ delayed ∷ [])
    × (health_at 1_000_000_201 ≡ offline ∷ offline ∷ offline ∷ [])
unfolding health_at
torso_ages = (refl, refl, refl)

run-IsModel_new_example : IsModel (run all_are_finite seen empty_model)
run-IsModel_new_example = run-IsModel_new all_are_finite (pos 2) seen refl

snapshots-AreShown_example :
    (xs : List (RoleSnapshot ℕ)) × ((snapshots
        (some (pos 300))
        (pos 0)
        (run all_are_finite seen empty_model)).0
      ≡ ok xs)
    × (roles_shown xs ≡ fixed_roles)
    × AreShown 300 (run all_are_finite seen empty_model).states xs
snapshots-AreShown_example =
    snapshots-AreShown 300 (pos 0) (run all_are_finite seen empty_model) run-IsModel_new_example
