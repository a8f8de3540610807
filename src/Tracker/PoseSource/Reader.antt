-- ===== src/Tracker/PoseSource/Reader.antt =====
-- The thread of `ReadOnlyPoseSource` in pose_source.py: `_process_report`, `_recover_read_only` and `_run`, and
-- `start` and `stop` around it. One step of the thread is one turn of the loop of `_run`, or of that of
-- `_recover_read_only`.
use vision_tactile_dataset.Common.{
  ℕ, zero, suc, Bool, true, false, Option, none, some, List, [], ◌∷◌, String, ◌==◌, if◌then◌else◌,
}
use vision_tactile_dataset.Common.Int.{ℤ}
use vision_tactile_dataset.Common.Monad.{Result, ok, err, pure, ◌>>=◌, ◌>>◌}
use vision_tactile_dataset.Tracker.Samples.{Sample, normalize_pose}
use vision_tactile_dataset.Tracker.Roles.{RoleMap, role_for_tracker_id, canonical_address}
use vision_tactile_dataset.Tracker.PoseSource.{
  PoseSourceError, identity_mismatch, read_failure, malformed_report, read, clocked, waited,
  asked_stop, delivered, invalid, reported, Decoded, undecodable, no_pose, decoded, Env, Error,
  source, already_started, other, PoseSource, canonical_report, Method, note, ask, answered,
  attempt, tell, open_unique_handle, close_current_handle,
}

-- Where the thread is: in the loop of `_run`, in that of `_recover_read_only`, or behind both.
pub data Phase : Type 0 where
  reading recovering ended : Phase

module _ {F E : Type 0} (env : Env F E) (role_map : RoleMap) where
  -- `tracker_id`, of an address; one that is not of six bytes raises.
  abbrev pub hashed : Option (List ℕ) → Option String
  hashed none = none
  hashed (some address) = some (env.sha256 address)

  abbrev pub tracker_id : List ℕ → Option String
  tracker_id raw = hashed (canonical_address raw)

  -- `_mapped_identity`
  abbrev pub with_role : String → Option String → Method F (Option (String × String))
  with_role value (some role) = pure (some (role, value))
  with_role value none = do
    tell env (reported (identity_mismatch "unmapped report" (some value)))
    pure none

  unfoldable pub mapped_identity : List ℕ → Method F (Option (String × String))
  mapped_identity address = do
    value ← answered (tracker_id address)
    with_role value (role_for_tracker_id role_map value)

  -- The sample, or its failure, of a decoded pose.
  abbrev pub tell_sample : String → String → ℤ → Option (Sample F) → Method F (Unit {0})
  tell_sample role value host_monotonic_ns none = tell env (invalid role value host_monotonic_ns)
  tell_sample role value host_monotonic_ns (some sample) = tell env (delivered sample)

  abbrev pub tell_pose : String → String → ℤ → ℤ → Decoded F → Method F (Unit {0})
  tell_pose role value host_monotonic_ns host_realtime_ns undecodable =
      tell env (invalid role value host_monotonic_ns)
  tell_pose role value host_monotonic_ns host_realtime_ns no_pose = pure tt
  tell_pose role value host_monotonic_ns host_realtime_ns (decoded native) =
      tell_sample role value host_monotonic_ns (
        normalize_pose env.is_finite env.norm_in_range native role value host_monotonic_ns
          host_realtime_ns)

  abbrev pub process_identified : ℤ → ℤ → E → Option (String × String) → Method F (Unit {0})
  process_identified host_monotonic_ns host_realtime_ns envelope none = pure tt
  process_identified host_monotonic_ns host_realtime_ns envelope (some (role, value)) =
      tell_pose role value host_monotonic_ns host_realtime_ns (env.decode_pose envelope)

  abbrev pub process_envelope : ℤ → ℤ → Option (List ℕ × E) → Method F (Unit {0})
  process_envelope host_monotonic_ns host_realtime_ns none = tell env (reported malformed_report)
  process_envelope host_monotonic_ns host_realtime_ns (some (address, envelope)) = do
    identity ← mapped_identity address
    process_identified host_monotonic_ns host_realtime_ns envelope identity

  abbrev pub envelope_of : Option (List ℕ) → Option (List ℕ × E)
  envelope_of none = none
  envelope_of (some report) = env.decode_envelope report

  unfoldable pub process_report : List ℕ → ℤ → ℤ → Method F (Unit {0})
  process_report [] host_monotonic_ns host_realtime_ns =
      process_envelope host_monotonic_ns host_realtime_ns (envelope_of (canonical_report []))
  process_report (kind ∷ bytes) host_monotonic_ns host_realtime_ns =
      if kind == 40
      then process_envelope host_monotonic_ns host_realtime_ns
          (envelope_of (canonical_report (kind ∷ bytes)))
      else pure tt

  -- A turn of `_recover_read_only`: what follows an attempt.
  abbrev pub reported_as : Error → PoseSourceError
  reported_as (source e) = e
  reported_as already_started = read_failure
  reported_as other = read_failure

  abbrev pub recovered : Result Error (Unit {0}) → Method F Phase
  recovered (ok _) = pure reading
  recovered (err e) = do tell env (reported (reported_as e)); note waited; pure recovering

  abbrev pub recover_unless : Bool → Method F Phase
  recover_unless true = pure reading
  recover_unless false = do outcome ← attempt (open_unique_handle env true); recovered outcome

  unfoldable pub recover_read_only : Method F Phase
  recover_read_only = do stopping ← ask asked_stop env.is_set; recover_unless stopping

  -- A turn of `_run`: what follows a read.
  abbrev pub after_read : Option (List ℕ) → Method F Phase
  after_read none = do close_current_handle env; tell env (reported read_failure); pure recovering
  after_read (some []) = pure reading
  after_read (some (kind ∷ bytes)) = do
    times ← ask clocked env.clocks
    process_report (kind ∷ bytes) times.0 times.1
    pure reading

  abbrev pub read_held : Option String → Method F Phase
  read_held none = pure recovering
  read_held (some path) = do report ← ask read env.read; after_read report

  abbrev pub run_unless : Bool → Method F Phase
  run_unless true s = (ok ended, s)
  run_unless false s = read_held s.handle s

  unfoldable pub run_turn : Method F Phase
  run_turn = do stopping ← ask asked_stop env.is_set; run_unless stopping

  -- `finally`: the thread ends, by a return or by a raise.
  abbrev pub finally : Result Error Phase × PoseSource F → Phase × PoseSource F
  finally (ok reading, s) = (reading, s)
  finally (ok recovering, s) = (recovering, s)
  finally (ok ended, s) = (ended, (close_current_handle env s).1)
  finally (err e, s) = (ended, (close_current_handle env s).1)

  unfoldable pub step : Phase → PoseSource F → Phase × PoseSource F
  step reading s = finally (run_turn s)
  step recovering s = finally (recover_read_only s)
  step ended s = (ended, s)

  unfoldable pub steps : ℕ → Phase → PoseSource F → Phase × PoseSource F
  steps zero phase s = (phase, s)
  steps (suc n) phase s = let (phase', s') = step phase s in steps n phase' s'
