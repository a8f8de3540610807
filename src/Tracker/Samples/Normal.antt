-- ===== src/Tracker/Samples/Normal.antt =====
-- What `normalize_pose` of model.py makes of a pose.
use mathlib.Core.Path.{subst}
use vision_tactile_dataset.Common.{
  ◌≡◌, refl, sym, ap, Bool, true, false, ◌&&◌, none, some, List, [], ◌∷◌, String, arith, ◌==◌,
  if◌then◌else◌, length,
}
use vision_tactile_dataset.Common.Int.{ℤ}
use vision_tactile_dataset.Tracker.Samples.{
  is_tracker_id, is_expected_role, is_unsigned, is_timestamp, first, NativePose, Sample,
  reversed_four, is_vector, is_native, is_sample, normalized, normalize_pose,
}

module _ {F : Type 0} (is_finite : F → Bool) where
  reversed-is_vector :
      (xs : List F)
      → is_vector is_finite 4 4 xs ≡ true
      → is_vector is_finite 4 4 (reversed_four xs) ≡ true
  reversed-is_vector (w ∷ z ∷ y ∷ x ∷ []) h = ground arith
  reversed-is_vector [] h = h
  reversed-is_vector (w ∷ []) h = ground arith
  reversed-is_vector (w ∷ z ∷ []) h = ground arith
  reversed-is_vector (w ∷ z ∷ y ∷ []) h = ground arith
  reversed-is_vector (w ∷ z ∷ y ∷ x ∷ v ∷ more) h = ground arith

  first-is_vector :
      (xs : List F)
      → is_vector is_finite 4 3 xs ≡ true
      → is_vector is_finite 3 3 (first 3 xs) ≡ true
  first-is_vector (w ∷ z ∷ y ∷ x ∷ []) h = ground arith
  first-is_vector [] h = ground arith
  first-is_vector (w ∷ []) h = ground arith
  first-is_vector (w ∷ z ∷ []) h = ground arith
  first-is_vector (w ∷ z ∷ y ∷ []) h = ground arith
  first-is_vector (w ∷ z ∷ y ∷ x ∷ v ∷ more) h = ground arith

-- What is given behind two checks has passed the second.
kept :
    {A : Type 0} (a b : Bool) (made given : A)
    → (if a && b then some made else none) ≡ some given
    → (b ≡ true) × (made ≡ given)
kept true true made given h = (refl, ap (λ o. elim o [ none ↦ made | some x ↦ x ]) h)
kept true false made given h = absurd (ground arith)
kept false b made given h = absurd (ground arith)

-- The checks of a sample, from those of the pose and of the other arguments.
and-true : (a b : Bool) → a ≡ true → b ≡ true → (a && b) ≡ true
and-true true true p q = refl
and-true true false p q = q
and-true false b p q = p

nine :
    (a b c d e f g h k : Bool)
    → (a && b && c && d && e && f && g && h && k) ≡ true
    → (b ≡ true) × (d ≡ true) × (e ≡ true) × (f ≡ true) × (g ≡ true) × (h ≡ true) × (k ≡ true)
nine true true true true true true true true k p = (refl, refl, refl, refl, refl, refl, p)
nine true true true true true true true false k p = absurd (ground arith)
nine true true true true true true false h k p = absurd (ground arith)
nine true true true true true false g h k p = absurd (ground arith)
nine true true true true false f g h k p = absurd (ground arith)
nine true true true false e f g h k p = absurd (ground arith)
nine true true false d e f g h k p = absurd (ground arith)
nine true false c d e f g h k p = absurd (ground arith)
nine false b c d e f g h k p = absurd (ground arith)

infixl 30 ◌also◌
◌also◌ : {a b : Bool} → a ≡ true → b ≡ true → (a && b) ≡ true
◌also◌ {a} {b} p q = and-true a b p q

module _ {F : Type 0} (is_finite : F → Bool) where
  normalize_pose_passes :
      (norm_in_range : List F → Bool) (native : NativePose F) (role tracker_id : String)
      (monotonic realtime : ℤ)
      → is_native is_finite native ≡ true
      → is_sample is_finite
          (normalized is_finite norm_in_range native role tracker_id monotonic realtime)
        ≡ true
      → normalize_pose is_finite norm_in_range native role tracker_id monotonic realtime
        ≡ some (normalized is_finite norm_in_range native role tracker_id monotonic realtime)
  unfolding normalize_pose
  normalize_pose_passes norm_in_range native role tracker_id monotonic realtime p q = rw (p, q) refl

  -- A pose that passes the checks of `NativePose`, with a supported role, a tracker id of 64 lower case hex
  -- digits, and times that are not negative, is normalized: the checks of the sample do not fail.
  pub normalize_pose_total :
      (norm_in_range : List F → Bool) (native : NativePose F) (role tracker_id : String)
      (monotonic realtime : ℤ)
      → is_native is_finite native ≡ true
      → is_expected_role role ≡ true
      → is_tracker_id tracker_id ≡ true
      → is_timestamp monotonic ≡ true
      → is_timestamp realtime ≡ true
      → let sample = normalized is_finite norm_in_range native role tracker_id monotonic realtime in
        (is_sample is_finite sample ≡ true)
        × (normalize_pose is_finite norm_in_range native role tracker_id monotonic realtime
            ≡ some sample)
  unfolding is_native is_sample normalized
  normalize_pose_total norm_in_range native role tracker_id monotonic realtime checked r i m t =
      let parts =
        nine (length native.address == 6) (is_unsigned 65535 native.packet_index)
          (is_unsigned 255 native.tracker_index) (is_unsigned 255 native.buttons)
          (is_unsigned 255 native.tracking_status) (is_vector is_finite 3 3 native.position)
          (is_vector is_finite 4 4 native.quaternion_wzyx)
          (is_vector is_finite 3 3 native.acceleration)
          (is_vector is_finite 4 3 native.angular_velocity_native) checked in
      let (index, buttons, status, position, quaternion, acceleration, velocity) = parts in
      let sample =
        r
        also i
        also m
        also t
        also index
        also status
        also buttons
        also position
        also reversed-is_vector is_finite native.quaternion_wzyx quaternion
        also acceleration
        also first-is_vector is_finite native.angular_velocity_native velocity in
      (
        sample,
        normalize_pose_passes norm_in_range native role tracker_id monotonic realtime checked
            sample,
      )

  -- What is normalized passes the checks of a sample, and is of the role and the tracker given.
  pub normalize_pose_gives :
      (norm_in_range : List F → Bool) (native : NativePose F) (role tracker_id : String)
      (monotonic realtime : ℤ) (sample : Sample F)
      → normalize_pose is_finite norm_in_range native role tracker_id monotonic realtime
        ≡ some sample
      → (sample.role ≡ role)
        × (sample.tracker_id ≡ tracker_id)
        × (is_sample is_finite sample ≡ true)
  unfolding normalize_pose normalized
  normalize_pose_gives norm_in_range native role tracker_id monotonic realtime sample h =
      let made = normalized is_finite norm_in_range native role tracker_id monotonic realtime in
      let (checked, same) =
        kept (is_native is_finite native) (is_sample is_finite made) made sample h in
      let back = sym same in
      (
        ap (λ s. s.role) back,
        ap (λ s. s.tracker_id) back,
        subst (λ s. is_sample is_finite s ≡ true) same checked,
      )
