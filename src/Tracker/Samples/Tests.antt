-- ===== src/Tracker/Samples/Tests.antt =====
-- A pose of zeros, normalized.
use vision_tactile_dataset.Common.{ℕ, ◌≡◌, refl, Bool, true, none, some, List, [], ◌∷◌, String}
use vision_tactile_dataset.Common.Int.{pos, negsuc}
use vision_tactile_dataset.Tracker.Samples.{
  NativePose, is_tracker_id, is_native, is_sample, normalized, normalize_pose,
}
use vision_tactile_dataset.Tracker.Samples.Normal.{normalize_pose_total}

abbrev pub zeros : NativePose ℕ
zeros = record {
  address = 1 ∷ 2 ∷ 3 ∷ 4 ∷ 5 ∷ 6 ∷ [];
  packet_index = pos 7;
  tracker_index = pos 1;
  buttons = pos 0;
  position = 0 ∷ 0 ∷ 0 ∷ [];
  quaternion_wzyx = 1 ∷ 2 ∷ 3 ∷ 4 ∷ [];
  acceleration = 0 ∷ 0 ∷ 0 ∷ [];
  angular_velocity_native = 5 ∷ 6 ∷ 7 ∷ 8 ∷ [];
  tracking_status = pos 18;
}

abbrev an_id : String
an_id = "aaaaaaaaaaaaaaaaaaaaaaaaaaaaaaaaaaaaaaaaaaaaaaaaaaaaaaaaaaaaaaaa"

abbrev anything : ℕ → Bool
anything _ = true

abbrev normal : List ℕ → Bool
normal _ = true

turned :
    ((normalized anything normal zeros "torso" an_id (pos 1) (pos 2)).quaternion_xyzw
      ≡ 4 ∷ 3 ∷ 2 ∷ 1 ∷ [])
    × ((normalized anything normal zeros "torso" an_id (pos 1) (pos 2)).pose_valid ≡ true)
    × ((normalized anything normal zeros "torso" an_id (pos 1) (pos 2)).angular_velocity_xyz
        ≡ 5 ∷ 6 ∷ 7 ∷ [])
    × (normalize_pose anything normal zeros "torso" an_id (negsuc 0) (pos 2) ≡ none)
    × (normalize_pose anything normal zeros "head" an_id (pos 1) (pos 2) ≡ none)
unfolding normalized normalize_pose is_native is_sample is_tracker_id
turned = (refl, refl, refl, refl, refl)

normalize_pose_total_example :
    let sample = normalized anything normal zeros "torso" an_id (pos 1) (pos 2) in
    (is_sample anything sample ≡ true)
    × (normalize_pose anything normal zeros "torso" an_id (pos 1) (pos 2) ≡ some sample)
unfolding is_native is_tracker_id
normalize_pose_total_example =
    normalize_pose_total anything normal zeros "torso" an_id (pos 1) (pos 2) refl refl refl refl
      refl
