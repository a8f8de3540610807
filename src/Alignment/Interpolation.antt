-- ===== src/Alignment/Interpolation.antt =====
-- The pose of a tracker at a time between its samples: `_pose_timestamps` and `interpolate_pose` of
-- tools/multisensor_alignment/src/vt_multisensor_alignment/matcher.py. A transform is a parameter, and so is
-- its interpolation, `Transform.interpolate` of model.py, by a fraction with numerator and denominator;
-- `none` is that it raises.
pub mod Insertion
pub mod Bracket
mod Tests
use vision_tactile_dataset.Common.{
  ℕ, zero, suc, ◌-◌, Bool, true, false, not, ◌&&◌, Option, none, some, List, [], ◌∷◌, String, ltb,
  ◌==◌, if◌then◌else◌, get_elem?, map,
}
use vision_tactile_dataset.Common.Dict.{str_eq}
use vision_tactile_dataset.Common.Int.{ℤ, pos, negsuc}
use vision_tactile_dataset.Common.Monad.{Result, ok, err}
use vision_tactile_dataset.Alignment.Matcher.{is_increasing, bisect_left}

-- Without the monotonic time, which is not read; of the reference only the sequence is.
pub record TimedPose (T : Type 0) : Type 0 where
  pub role : String
  pub tracker_id : String
  pub host_realtime_ns : ℕ
  pub transform : T
  pub sequence : ℕ

pub record InterpolatedPose (T : Type 0) : Type 0 where
  pub timestamp_ns : ℕ
  pub transform : T
  pub bracket_gap_ns : ℕ
  pub before_sequence : ℕ
  pub after_sequence : ℕ

pub data Error : Type 0 where
  bad_timestamp bad_max_gap not_increasing mixed_identity : Error
  transform_failed sequence_out_of_order : Error

-- `len({…}) > 1` is that some text is not the first.
abbrev pub all_are : String → List String → Bool
all_are s [] = true
all_are s (t ∷ ts) = str_eq s t && all_are s ts

abbrev pub is_stable : List String → Bool
is_stable [] = true
is_stable (s ∷ ss) = all_are s ss

module _ {T : Type 0} where
  abbrev pub times : List (TimedPose T) → List ℕ
  times [] = []
  times (s ∷ samples) = s.host_realtime_ns ∷ times samples

  -- The sample before a position.
  abbrev pub previous : List (TimedPose T) → ℕ → Option (TimedPose T)
  previous samples zero = none
  previous samples (suc i) = get_elem? samples i

  -- The constructor of `InterpolatedPose`, which raises where the sequences are out of order.
  abbrev pub interpolated : InterpolatedPose T → Result Error (Option (InterpolatedPose T))
  interpolated p =
      if ltb p.after_sequence p.before_sequence then err sequence_out_of_order else ok (some p)

  abbrev pub exact : ℕ → TimedPose T → InterpolatedPose T
  exact timestamp_ns s = record {
    timestamp_ns = timestamp_ns;
    transform = s.transform;
    bracket_gap_ns = 0;
    before_sequence = s.sequence;
    after_sequence = s.sequence;
  }

  abbrev pub gap_between : TimedPose T → TimedPose T → ℕ
  gap_between before after = after.host_realtime_ns - before.host_realtime_ns

  abbrev pub between : ℕ → TimedPose T → TimedPose T → T → InterpolatedPose T
  between timestamp_ns before after transform = record {
    timestamp_ns = timestamp_ns;
    transform = transform;
    bracket_gap_ns = gap_between before after;
    before_sequence = before.sequence;
    after_sequence = after.sequence;
  }

  -- Behind the interpolation of the transforms, which may raise.
  abbrev pub interpolated_between :
      ℕ → TimedPose T → TimedPose T → Option T → Result Error (Option (InterpolatedPose T))
  interpolated_between timestamp_ns before after none = err transform_failed
  interpolated_between timestamp_ns before after (some transform) =
      interpolated (between timestamp_ns before after transform)

  module _ (interpolate : T → T → ℕ → ℕ → Option T) where
    -- `before.transform.interpolate(after.transform, fraction)`
    abbrev pub transform_between : ℕ → TimedPose T → TimedPose T → Option T
    transform_between timestamp_ns before after =
        interpolate before.transform after.transform (timestamp_ns - before.host_realtime_ns)
          (gap_between before after)

    abbrev pub bracketed :
        ℕ → ℕ → Option (TimedPose T) → TimedPose T → Result Error (Option (InterpolatedPose T))
    bracketed timestamp_ns max_gap_ns none after = ok none
    bracketed timestamp_ns max_gap_ns (some before) after =
        if ltb max_gap_ns (gap_between before after)
        then ok none
        else interpolated_between timestamp_ns before after
            (transform_between timestamp_ns before after)

    -- By the samples before and at the insertion point.
    abbrev pub located :
        ℕ
        → ℕ
        → Option (TimedPose T)
        → Option (TimedPose T)
        → Result Error (Option (InterpolatedPose T))
    located timestamp_ns max_gap_ns before none = ok none
    located timestamp_ns max_gap_ns before (some at) =
        if at.host_realtime_ns == timestamp_ns
        then interpolated (exact timestamp_ns at)
        else bracketed timestamp_ns max_gap_ns before at

    abbrev pub interpolate_known :
        List (TimedPose T) → ℕ → ℕ → Result Error (Option (InterpolatedPose T))
    interpolate_known samples timestamp_ns max_gap_ns =
        let position = bisect_left (times samples) timestamp_ns in
        if not (is_increasing (times samples))
        then err not_increasing
        else if not (
            is_stable (map (λ (s : TimedPose T). s.role) samples)
            && is_stable (map (λ (s : TimedPose T). s.tracker_id) samples))
        then err mixed_identity
        else located timestamp_ns max_gap_ns (previous samples position)
            (get_elem? samples position)

    unfoldable pub interpolate_pose :
        List (TimedPose T) → ℤ → ℤ → Result Error (Option (InterpolatedPose T))
    interpolate_pose samples (negsuc n) max_gap_ns = err bad_timestamp
    interpolate_pose samples (pos timestamp_ns) (negsuc n) = err bad_max_gap
    interpolate_pose [] (pos timestamp_ns) (pos max_gap_ns) = ok none
    interpolate_pose (s ∷ samples) (pos timestamp_ns) (pos max_gap_ns) =
        interpolate_known (s ∷ samples) timestamp_ns max_gap_ns
