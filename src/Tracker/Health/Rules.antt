-- ===== src/Tracker/Health/Rules.antt =====
-- How a method of health.py ends, by the guards it stands behind.
use vision_tactile_dataset.Common.{
  ℕ, ◌≡◌, ◌≢◌, ◌≤◌, ◌<◌, arith, refl, Bool, true, false, ◌&&◌, Option, none, some, String, ltb,
  if◌then◌else◌,
}
use vision_tactile_dataset.Common.Int.{pos}
use vision_tactile_dataset.Common.Dict.{lookup, str_eq}
use vision_tactile_dataset.Common.Monad.{Result, err, ◌>>=◌, ◌>>◌, pure, raise, raise_if}
use vision_tactile_dataset.Tracker.Health.{
  Health, TrackerHealthBook, Error, Method, unknown_role, identity_mismatch, timestamp_backwards,
  negative_timestamp, bad_timeout, checked_value, value_for, require_ordered_timestamp,
  StampedTrackerSample, with_sample, with_invalid, store, changes, observe_sample, observe_invalid,
}
use text.Mathlib.TextEquality.{eq_iff}

-- Why a report at a time is refused: its role is unknown, its tracker is not that of the role, or the
-- last report is later.
pub Refuses : String → String → ℕ → TrackerHealthBook → Error → Type 0
Refuses role tracker_id now s unknown_role = lookup role s.values ≡ none
Refuses role tracker_id now s identity_mismatch =
    (v : Health) × (lookup role s.values ≡ some v) × (v.tracker_id ≢ tracker_id)
Refuses role tracker_id now s timestamp_backwards =
    (v : Health) × (lookup role s.values ≡ some v)
    × (v.tracker_id ≡ tracker_id)
    × (v.has_report ≡ true)
    × (now < v.last_report_monotonic_ns)
Refuses role tracker_id now s bad_timeout = ⊥
Refuses role tracker_id now s negative_timestamp = ⊥

-- Why one is let pass, for the value of its role.
abbrev pub Passes : String → String → ℕ → TrackerHealthBook → Health → Type 0
Passes role tracker_id now s v =
    (lookup role s.values ≡ some v)
    × (v.tracker_id ≡ tracker_id)
    × (v.has_report ≡ true → v.last_report_monotonic_ns ≤ now)

module _ (P : Result Error Bool × TrackerHealthBook → Type 0) (s : TrackerHealthBook)
    (role tracker_id : String) (now : ℕ) (write : Health → Method Bool)
    (bad : (e : Error) → Refuses role tracker_id now s e → P (err e, s))
    (good : (v : Health) → Passes role tracker_id now s v → P (write v s)) where
  ordered-rule :
      (v : Health) (b : Bool)
      → lookup role s.values ≡ some v
      → v.tracker_id ≡ tracker_id
      → v.has_report && ltb now v.last_report_monotonic_ns ≡ b
      → P ((raise_if b timestamp_backwards >> write v) s)
  unfolding Refuses
  ordered-rule v true found known back =
      bad timestamp_backwards (v, found, known, ground arith, ground arith)
  ordered-rule v false found known ordered = good v (found, known, λ h. ground arith)

  check : Health → Method Bool
  check v = require_ordered_timestamp v now >> write v

  identified-rule :
      (v : Health) (b : Bool)
      → lookup role s.values ≡ some v
      → str_eq v.tracker_id tracker_id ≡ b
      → P (((if b then pure v else raise identity_mismatch) >>= check) s)
  unfolding check Refuses
  identified-rule v true found same =
      ordered-rule v (v.has_report && ltb now v.last_report_monotonic_ns) found
        ((eq_iff v.tracker_id tracker_id).0 same) refl
  identified-rule v false found other =
      bad identity_mismatch (v, found, λ same. ground (arith, eq_iff v.tracker_id tracker_id))

  found-rule :
      (o : Option Health) → lookup role s.values ≡ o → P ((checked_value tracker_id o >>= check) s)
  unfolding Refuses
  found-rule none unknown = bad unknown_role unknown
  found-rule (some v) found = identified-rule v (str_eq v.tracker_id tracker_id) found refl

  -- A report for a role, behind its guards.
  pub report-rule :
      P ((value_for role tracker_id >>= (λ v. require_ordered_timestamp v now >> write v)) s)
  unfolding check
  report-rule = found-rule (lookup role s.values) refl

-- The methods that report on a tracker: they raise and change nothing, or store a value for its role.
module _ (P : Result Error Bool × TrackerHealthBook → Type 0) (s : TrackerHealthBook) where
  pub observe_sample-rule :
      (sample : StampedTrackerSample)
      → ((e : Error)
          → Refuses sample.role sample.tracker_id sample.host_monotonic_ns s e
          → P (err e, s))
      → ((v : Health)
          → Passes sample.role sample.tracker_id sample.host_monotonic_ns s v
          → P (store sample.role (with_sample v sample) (changes v (with_sample v sample).state) s))
      → P (observe_sample sample s)
  unfolding observe_sample
  observe_sample-rule sample bad good =
      report-rule P s sample.role sample.tracker_id sample.host_monotonic_ns
        (λ v. store sample.role (with_sample v sample) (changes v (with_sample v sample).state)) bad
        good

  pub observe_invalid-rule :
      (role tracker_id : String) (now : ℕ)
      → ((e : Error) → Refuses role tracker_id now s e → P (err e, s))
      → ((v : Health)
          → Passes role tracker_id now s v
          → let u = with_invalid s.disconnect_timeout_ns v now in
            P (store role u (changes v u.state) s))
      → P (observe_invalid role tracker_id (pos now) s)
  unfolding observe_invalid
  observe_invalid-rule role tracker_id now bad good =
      let write : Health → Method Bool = λ v t.
        let u = with_invalid t.disconnect_timeout_ns v now in store role u (changes v u.state) t in
      report-rule P s role tracker_id now write bad good
