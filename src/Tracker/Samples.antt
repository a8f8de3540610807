-- ===== src/Tracker/Samples.antt =====
-- The poses and samples of a tracker: `NativePose`, `StampedTrackerSample` with its vectors, and
-- `normalize_pose` of ros2_ws/src/vt_vive_tracker/vt_vive_tracker/model.py. The floats are a type that is
-- a parameter, with the test whether one is finite, and whether the norm of a quaternion is within 0.90
-- and 1.10.
pub mod Normal
pub mod Tests
use Prim.Native.Char.{code}
use vision_tactile_dataset.Common.{
  ℕ, zero, suc, ◌+◌, ◌%◌, Bool, true, false, ◌&&◌, ◌||◌, Option, none, some, List, [], ◌∷◌, String,
  ltb, leb, ◌==◌, if◌then◌else◌, length,
}
use vision_tactile_dataset.Common.Dict.{str_eq}
use vision_tactile_dataset.Common.Int.{ℤ, pos, negsuc}
use vision_tactile_dataset.Tracker.Visualization.{all_finite}

-- `character in _LOWERCASE_HEX`
abbrev pub is_lowercase_hex : ℕ → Bool
is_lowercase_hex c = (leb 48 c && leb c 57) || (leb 97 c && leb c 102)

abbrev pub is_hex_text : ℕ → String → Bool
is_hex_text zero String.[] = true
is_hex_text zero (String.◌∷◌ c s) = false
is_hex_text (suc n) String.[] = false
is_hex_text (suc n) (String.◌∷◌ c s) = is_lowercase_hex (code c) && is_hex_text n s

unfoldable pub is_tracker_id : String → Bool
is_tracker_id value = is_hex_text 64 value

-- `value in EXPECTED_ROLES`
abbrev pub is_expected_role : String → Bool
is_expected_role role = str_eq role "left_wrist" || str_eq role "right_wrist" || str_eq role "torso"

-- `0 <= value <= maximum`
abbrev pub is_unsigned : ℕ → ℤ → Bool
is_unsigned maximum (pos n) = leb n maximum
is_unsigned maximum (negsuc n) = false

abbrev pub is_timestamp : ℤ → Bool
is_timestamp (pos n) = true
is_timestamp (negsuc n) = false

abbrev pub first {ℓ} : {A : Type ℓ} → ℕ → List A → List A
first zero xs = []
first (suc n) [] = []
first (suc n) (x ∷ xs) = x ∷ first n xs

pub record NativePose (F : Type 0) : Type 0 where
  pub address : List ℕ
  pub packet_index : ℤ
  pub tracker_index : ℤ
  pub buttons : ℤ
  pub position : List F
  pub quaternion_wzyx : List F
  pub acceleration : List F
  pub angular_velocity_native : List F
  pub tracking_status : ℤ

pub record Sample (F : Type 0) : Type 0 where
  pub role : String
  pub tracker_id : String
  pub host_monotonic_ns : ℤ
  pub host_realtime_ns : ℤ
  pub packet_index : ℤ
  pub tracking_status : ℤ
  pub raw_buttons : ℤ
  pub pose_valid : Bool
  pub position : List F
  pub quaternion_xyzw : List F
  pub acceleration : List F
  pub angular_velocity_xyz : List F

-- `value & 0x0F == 2`
abbrev pub has_low_nibble_two : ℤ → Bool
has_low_nibble_two (pos n) = n % 16 == 2
has_low_nibble_two (negsuc n) = n % 16 == 13

-- `(q[3], q[2], q[1], q[0])`
abbrev pub reversed_four {ℓ} : {A : Type ℓ} → List A → List A
reversed_four [] = []
reversed_four (w ∷ []) = w ∷ []
reversed_four (w ∷ z ∷ []) = z ∷ w ∷ []
reversed_four (w ∷ z ∷ y ∷ []) = y ∷ z ∷ w ∷ []
reversed_four (w ∷ z ∷ y ∷ x ∷ more) = x ∷ y ∷ z ∷ w ∷ []

module _ {F : Type 0} (is_finite : F → Bool) where
  -- `_require_vector`
  abbrev pub is_vector : ℕ → ℕ → List F → Bool
  is_vector size required value =
      length value == size && all_finite is_finite (first required value)

  -- `NativePose.__post_init__`
  unfoldable pub is_native : NativePose F → Bool
  is_native p =
      length p.address == 6
      && is_unsigned 65535 p.packet_index
      && is_unsigned 255 p.tracker_index
      && is_unsigned 255 p.buttons
      && is_unsigned 255 p.tracking_status
      && is_vector 3 3 p.position
      && is_vector 4 4 p.quaternion_wzyx
      && is_vector 3 3 p.acceleration
      && is_vector 4 3 p.angular_velocity_native

  -- `StampedTrackerSample.__post_init__`
  unfoldable pub is_sample : Sample F → Bool
  is_sample s =
      is_expected_role s.role
      && is_tracker_id s.tracker_id
      && is_timestamp s.host_monotonic_ns
      && is_timestamp s.host_realtime_ns
      && is_unsigned 65535 s.packet_index
      && is_unsigned 255 s.tracking_status
      && is_unsigned 255 s.raw_buttons
      && is_vector 3 3 s.position
      && is_vector 4 4 s.quaternion_xyzw
      && is_vector 3 3 s.acceleration
      && is_vector 3 3 s.angular_velocity_xyz

  module _ (norm_in_range : List F → Bool) where
    -- What `normalize_pose` puts into the sample.
    unfoldable pub normalized : NativePose F → String → String → ℤ → ℤ → Sample F
    normalized native role tracker_id host_monotonic_ns host_realtime_ns =
        let quaternion_xyzw = reversed_four native.quaternion_wzyx in
        record {
          role = role;
          tracker_id = tracker_id;
          host_monotonic_ns = host_monotonic_ns;
          host_realtime_ns = host_realtime_ns;
          packet_index = native.packet_index;
          tracking_status = native.tracking_status;
          raw_buttons = native.buttons;
          pose_valid = has_low_nibble_two native.tracking_status && norm_in_range quaternion_xyzw;
          position = native.position;
          quaternion_xyzw = quaternion_xyzw;
          acceleration = native.acceleration;
          angular_velocity_xyz = first 3 native.angular_velocity_native;
        }

    -- `none` stands for the TypeError or ValueError of a check.
    unfoldable pub normalize_pose : NativePose F → String → String → ℤ → ℤ → Option (Sample F)
    normalize_pose native role tracker_id host_monotonic_ns host_realtime_ns =
        let sample = normalized native role tracker_id host_monotonic_ns host_realtime_ns in
        if is_native native && is_sample sample then some sample else none
