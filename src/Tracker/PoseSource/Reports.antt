-- ===== src/Tracker/PoseSource/Reports.antt =====
-- What `_process_report` of pose_source.py tells the node.
use vision_tactile_dataset.Common.{
  ℕ, ◌≡◌, refl, sym, ap, ◌∙◌, true, Option, none, some, List, [], ◌∷◌, String, ◌==◌, Bool-cases,
  inl, inr,
}
use vision_tactile_dataset.Common.Int.{ℤ}
use vision_tactile_dataset.Common.Monad.{Result, pure}
use vision_tactile_dataset.Tracker.Samples.{Sample, is_sample, normalize_pose}
use vision_tactile_dataset.Tracker.Samples.Normal.{normalize_pose_gives}
use vision_tactile_dataset.Tracker.Roles.{RoleMap, role_for_tracker_id}
use vision_tactile_dataset.Tracker.PoseSource.{
  identity_mismatch, malformed_report, delivered, invalid, reported, Decoded, undecodable, no_pose,
  decoded, Env, Error, PoseSource, canonical_report, answered, tell,
}
use vision_tactile_dataset.Tracker.PoseSource.Reader.{
  tracker_id, with_role, mapped_identity, tell_sample, tell_pose, process_identified,
  process_envelope, envelope_of, process_report,
}
use vision_tactile_dataset.Tracker.PoseSource.Rules.{After, bind-After, answered-After}
use vision_tactile_dataset.Tracker.PoseSource.Invariant.{IsSource, tell-IsSource}

module _ {F E : Type 0} (env : Env F E) (role_map : RoleMap) where
  abbrev pub Keeps : {A : Type 0} → Result Error A × PoseSource F → Type 0
  Keeps = After (λ _. IsSource env role_map) (IsSource env role_map)

  -- The identity that is found, if any, is of a tracker that the map has.
  abbrev IsMapped : Option (String × String) → PoseSource F → Type 0
  IsMapped none s = IsSource env role_map s
  IsMapped (some (role, value)) s =
      IsSource env role_map s × (role_for_tracker_id role_map value ≡ some role)

  with_role-IsMapped :
      (value : String) (o : Option String) (s : PoseSource F)
      → role_for_tracker_id role_map value ≡ o
      → IsSource env role_map s
      → After IsMapped (IsSource env role_map) (with_role env role_map value o s)
  with_role-IsMapped value (some role) s e h = (h, e)
  with_role-IsMapped value none s e h =
      bind-After (λ _. IsSource env role_map) IsMapped (IsSource env role_map)
        (tell env (reported (identity_mismatch "unmapped report" (some value)))) (λ _. pure none) s
        (tell-IsSource env role_map (reported (identity_mismatch "unmapped report" (some value))) s
          (refl, refl) tt h)
        (λ _ s h. h)

  mapped_identity-IsMapped :
      (address : List ℕ) (s : PoseSource F)
      → IsSource env role_map s
      → After IsMapped (IsSource env role_map) (mapped_identity env role_map address s)
  unfolding mapped_identity
  mapped_identity-IsMapped address s h =
      bind-After (λ _. IsSource env role_map) IsMapped (IsSource env role_map)
        (answered (tracker_id env role_map address))
        (λ value. with_role env role_map value (role_for_tracker_id role_map value)) s
        (answered-After (IsSource env role_map) (IsSource env role_map)
          (tracker_id env role_map address) s h h)
        (λ value s h. with_role-IsMapped value (role_for_tracker_id role_map value) s refl h)

  tell_sample-Keeps :
      (role value : String) (time : ℤ) (o : Option (Sample F)) (s : PoseSource F)
      → role_for_tracker_id role_map value ≡ some role
      → ((sample : Sample F)
          → o ≡ some sample
          → (sample.role ≡ role)
            × (sample.tracker_id ≡ value)
            × (is_sample env.is_finite sample ≡ true))
      → IsSource env role_map s
      → Keeps (tell_sample env role_map role value time o s)
  tell_sample-Keeps role value time none s mapped made h =
      tell-IsSource env role_map (invalid role value time) s (refl, refl) mapped h
  tell_sample-Keeps role value time (some sample) s mapped made h =
      let (own, id, checked) = made sample refl in
      let known : role_for_tracker_id role_map sample.tracker_id ≡ some sample.role =
        ap (role_for_tracker_id role_map) id ∙ mapped ∙ ap (λ r. some r) (sym own) in
      tell-IsSource env role_map (delivered sample) s (refl, refl) (known, checked) h

  tell_pose-Keeps :
      (role value : String) (monotonic realtime : ℤ) (d : Decoded F) (s : PoseSource F)
      → role_for_tracker_id role_map value ≡ some role
      → IsSource env role_map s
      → Keeps (tell_pose env role_map role value monotonic realtime d s)
  tell_pose-Keeps role value monotonic realtime undecodable s mapped h =
      tell-IsSource env role_map (invalid role value monotonic) s (refl, refl) mapped h
  tell_pose-Keeps role value monotonic realtime no_pose s mapped h = h
  tell_pose-Keeps role value monotonic realtime (decoded native) s mapped h =
      tell_sample-Keeps role value monotonic
        (normalize_pose env.is_finite env.norm_in_range native role value monotonic realtime) s
        mapped
        (normalize_pose_gives env.is_finite env.norm_in_range native role value monotonic realtime)
        h

  process_identified-Keeps :
      (monotonic realtime : ℤ) (envelope : E) (o : Option (String × String)) (s : PoseSource F)
      → IsMapped o s
      → Keeps (process_identified env role_map monotonic realtime envelope o s)
  process_identified-Keeps monotonic realtime envelope none s h = h
  process_identified-Keeps monotonic realtime envelope (some (role, value)) s (h, mapped) =
      tell_pose-Keeps role value monotonic realtime (env.decode_pose envelope) s mapped h

  process_envelope-Keeps :
      (monotonic realtime : ℤ) (o : Option (List ℕ × E)) (s : PoseSource F)
      → IsSource env role_map s
      → Keeps (process_envelope env role_map monotonic realtime o s)
  process_envelope-Keeps monotonic realtime none s h =
      tell-IsSource env role_map (reported malformed_report) s (refl, refl) tt h
  process_envelope-Keeps monotonic realtime (some (address, envelope)) s h =
      bind-After IsMapped (λ _. IsSource env role_map) (IsSource env role_map)
        (mapped_identity env role_map address)
        (process_identified env role_map monotonic realtime envelope) s
        (mapped_identity-IsMapped address s h)
        (λ o s h. process_identified-Keeps monotonic realtime envelope o s h)

  -- A report keeps what the events and the handle say of each other: a sample is told with the role that the
  -- map gives its tracker.
  pub process_report-Keeps :
      (report : List ℕ) (monotonic realtime : ℤ) (s : PoseSource F)
      → IsSource env role_map s
      → Keeps (process_report env role_map report monotonic realtime s)
  unfolding process_report
  process_report-Keeps [] monotonic realtime s h =
      process_envelope-Keeps monotonic realtime (envelope_of env role_map (canonical_report [])) s h
  process_report-Keeps (kind ∷ bytes) monotonic realtime s h = elim (Bool-cases (kind == 40)) [
    | inl pose ↦ rw pose (
        process_envelope-Keeps monotonic realtime
          (envelope_of env role_map (canonical_report (kind ∷ bytes))) s h)
    | inr another ↦ rw another h
  ]
