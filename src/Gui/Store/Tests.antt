-- ===== src/Gui/Store/Tests.antt =====
-- Snapshots of an empty model, published, and the theorems at them.
use vision_tactile_dataset.Common.{ℕ, ◌≤◌, ◌≡◌, refl, true, none, some, List, [], ◌∷◌}
use vision_tactile_dataset.Common.Int.{pos, negsuc}
use vision_tactile_dataset.Common.Monad.{ok, err}
use vision_tactile_dataset.Tracker.Visualization.{
  fixed_roles, fresh, offline, RoleSnapshot, TrackerVisualizationModel, new_states,
}
use vision_tactile_dataset.Tracker.Visualization.Snapshots.{snapshots}
use vision_tactile_dataset.Tracker.Visualization.Invariant.{IsModel}
use vision_tactile_dataset.Tracker.Visualization.Calls.{run-IsModel_new}
use vision_tactile_dataset.Tracker.Visualization.Calls
use vision_tactile_dataset.Gui.Store.{
  LatestSnapshotStore, roles_out_of_order, empty_text, negative_time, new_store, publish,
  publish_diagnostic, OverallState, degraded, overall_state,
}
use vision_tactile_dataset.Gui.Store.Overall.{Means, overall_state-Means, shown_is_published}
use vision_tactile_dataset.Gui.Store.Versions.{published, diagnosed, IsStore, run, run-IsStore_new}

machinery : Unit {0}
unfolding publish publish_diagnostic overall_state run
machinery = tt

abbrev nothing_of : List (RoleSnapshot ℕ)
nothing_of = []

abbrev empty_store : LatestSnapshotStore ℕ
empty_store = new_store

refused :
    (publish nothing_of empty_store ≡ (err roles_out_of_order, empty_store))
    × (publish_diagnostic "" (pos 1) empty_store ≡ (err empty_text, empty_store))
    × (publish_diagnostic "late" (negsuc 0) empty_store ≡ (err negative_time, empty_store))
unfolding machinery
refused = (refl, refl, refl)

abbrev empty_model : TrackerVisualizationModel ℕ
empty_model = record { max_trail_points = 2; states = new_states fixed_roles }

empty_model-IsModel : IsModel empty_model
unfolding Calls.run
empty_model-IsModel = run-IsModel_new (λ (x : ℕ). true) (pos 2) [] refl

abbrev left_is_fresh : List (RoleSnapshot ℕ)
left_is_fresh =
    (record {
      role = "left_wrist";
      health = fresh;
      pose = none;
      trail = [];
      receive_rate_hz = 0;
      status = none;
      pose_age_ns = none;
    })
    ∷ (record {
      role = "right_wrist";
      health = offline;
      pose = none;
      trail = [];
      receive_rate_hz = 0;
      status = none;
      pose_age_ns = none;
    })
    ∷ (record {
      role = "torso";
      health = offline;
      pose = none;
      trail = [];
      receive_rate_hz = 0;
      status = none;
      pose_age_ns = none;
    })
    ∷ []

one_fresh_is_degraded : overall_state left_is_fresh ≡ ok degraded
unfolding machinery
one_fresh_is_degraded = refl

overall_state-Means_example :
    (o : OverallState) × (overall_state left_is_fresh ≡ ok o) × Means left_is_fresh o
overall_state-Means_example = overall_state-Means left_is_fresh refl

shown_is_published_example :
    (xs : List (RoleSnapshot ℕ)) × (o : OverallState) × ((snapshots
        (some (pos 5))
        (pos 0)
        empty_model).0
      ≡ ok xs)
    × ((publish xs empty_store).0 ≡ ok (record { version = 1; roles = xs }))
    × (((publish xs empty_store).1).latest ≡ some (record { version = 1; roles = xs }))
    × (overall_state xs ≡ ok o)
shown_is_published_example =
    shown_is_published 5 (pos 0) empty_model empty_store empty_model-IsModel

run-IsStore_new_example :
    IsStore (run (published left_is_fresh ∷ []) empty_store)
    × ((run (published left_is_fresh ∷ []) empty_store).version
        ≤ (run (published left_is_fresh ∷ diagnosed "late" (pos 3) ∷ []) empty_store).version)
run-IsStore_new_example =
    run-IsStore_new (published left_is_fresh ∷ []) (diagnosed "late" (pos 3) ∷ [])
