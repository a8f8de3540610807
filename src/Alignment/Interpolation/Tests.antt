-- ===== src/Alignment/Interpolation/Tests.antt =====
-- Poses between two samples.
use vision_tactile_dataset.Common.{ℕ, ◌≡◌, ◌+◌, ◌-◌, ◌*◌, ◌/◌, refl, Option, none, some, [], ◌∷◌}
use vision_tactile_dataset.Common.Int.{pos, negsuc}
use vision_tactile_dataset.Common.Monad.{ok, err}
use vision_tactile_dataset.Alignment.Interpolation.{
  TimedPose, InterpolatedPose, bad_timestamp, mixed_identity, transform_failed, interpolate_pose,
}
use vision_tactile_dataset.Alignment.Interpolation.Bracket.{Poses, interpolate_pose-Poses}

-- Positions on a line.
abbrev linear : ℕ → ℕ → ℕ → ℕ → Option ℕ
linear a b n d = some (a + (b - a) * n / d)

-- An interpolation that raises.
abbrev overflowing : ℕ → ℕ → ℕ → ℕ → Option ℕ
overflowing a b n d = none

abbrev at_ten : TimedPose ℕ
at_ten = record {
  role = "torso";
  tracker_id = "a";
  host_realtime_ns = 10;
  transform = 100;
  sequence = 1;
}

abbrev at_twenty : TimedPose ℕ
at_twenty = record {
  role = "torso";
  tracker_id = "a";
  host_realtime_ns = 20;
  transform = 200;
  sequence = 2;
}

abbrev in_between : InterpolatedPose ℕ
in_between = record {
  timestamp_ns = 13;
  transform = 130;
  bracket_gap_ns = 10;
  before_sequence = 1;
  after_sequence = 2;
}

poses :
    (interpolate_pose linear (at_ten ∷ at_twenty ∷ []) (pos 13) (pos 10) ≡ ok (some in_between))
    × (interpolate_pose linear (at_ten ∷ at_twenty ∷ []) (pos 13) (pos 9) ≡ ok none)
    × (interpolate_pose linear (at_ten ∷ at_twenty ∷ []) (pos 21) (pos 10) ≡ ok none)
    × (interpolate_pose linear (at_ten ∷ []) (negsuc 0) (pos 10) ≡ err bad_timestamp)
    × (interpolate_pose linear (at_ten ∷ record at_twenty { role = "head" } ∷ []) (pos 13) (pos 10)
        ≡ err mixed_identity)
    × (interpolate_pose overflowing (at_ten ∷ at_twenty ∷ []) (pos 13) (pos 10)
        ≡ err transform_failed)
unfolding interpolate_pose
poses = (refl, refl, refl, refl, refl, refl)

interpolate_pose-Poses_example :
    Poses linear
      (at_ten ∷ at_twenty ∷ [])
      13
      10
      (interpolate_pose linear (at_ten ∷ at_twenty ∷ []) (pos 13) (pos 10))
interpolate_pose-Poses_example =
    interpolate_pose-Poses linear (at_ten ∷ at_twenty ∷ []) 13 10 refl refl refl
