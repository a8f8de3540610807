-- ===== src/Tracker/Health/Invariant.antt =====
-- The invariant of `TrackerHealthBook` of health.py.
use vision_tactile_dataset.Common.{
  sym, ◌∙◌, ℕ, ◌+◌, ◌≤◌, ◌<◌, ◌≡◌, refl, true, false, Option, none, some, [], ◌∷◌, String, arith,
  inl, inr, Bool-cases,
}
use vision_tactile_dataset.Common.Int.{ℤ, pos, negsuc}
use vision_tactile_dataset.Common.Dict.{
  Dict, lookup, insert, str_eq, lookup-insert_self, lookup-insert_ne,
}
use vision_tactile_dataset.Common.Monad.{Result}
use vision_tactile_dataset.Tracker.Health.{
  disconnected, tracking, Health, TrackerHealthBook, StampedTrackerSample, Error, with_sample,
  with_invalid, has_recent_valid_pose, observe_sample, observe_invalid, record_drop, drop_in,
  expire, expire_all, snapshot, store, changes, new_health,
}
use vision_tactile_dataset.Tracker.Health.Rules.{observe_sample-rule, observe_invalid-rule}
use mathlib.Core.Option.{map}
use text.Mathlib.TextEquality.{eq_iff}

-- A tracker that never reported is disconnected, with counts and times of 0; one with a valid pose has
-- reported, not before that pose; and only one with a valid pose is TRACKING.
unfoldable pub IsSound : Health → Type 0
IsSound v =
    (v.has_report ≡ false
      → (v.state ≡ disconnected)
        × (v.valid_sample_count ≡ 0)
        × (v.invalid_report_count ≡ 0)
        × (v.has_valid_pose ≡ false)
        × (v.last_report_monotonic_ns ≡ 0))
    × (v.last_valid_pose_monotonic_ns ≤ v.last_report_monotonic_ns)
    × (v.state ≡ tracking → v.has_valid_pose ≡ true)

unfoldable pub IsSoundBook : TrackerHealthBook → Type 0
IsSoundBook s =
    (0 < s.disconnect_timeout_ns)
    × ((role : String) (v : Health) → lookup role s.values ≡ some v → IsSound v)

pub new_health-IsSound : (role tracker_id : String) → IsSound (new_health role tracker_id)
unfolding IsSound
new_health-IsSound role tracker_id = ground arith

pub with_sample-IsSound :
    (v : Health) (sample : StampedTrackerSample)
    → v.last_report_monotonic_ns ≤ sample.host_monotonic_ns
    → IsSound v
    → IsSound (with_sample v sample)
unfolding IsSound with_sample
with_sample-IsSound v sample later h = ground arith

pub with_invalid-IsSound :
    (timeout : ℕ) (v : Health) (now : ℕ)
    → v.last_report_monotonic_ns ≤ now
    → IsSound v
    → IsSound (with_invalid timeout v now)
unfolding IsSound with_invalid has_recent_valid_pose
with_invalid-IsSound timeout v now later h = ground arith

pub expire-IsSound : (timeout now : ℕ) (v : Health) → IsSound v → IsSound (expire timeout now v)
unfolding IsSound expire
expire-IsSound timeout now v h = ground arith

-- What a method may write for one role.
pub insert-IsSoundBook :
    (s s' : TrackerHealthBook) (role : String) (v : Health)
    → s'.disconnect_timeout_ns ≡ s.disconnect_timeout_ns
    → s'.values ≡ insert role v s.values
    → IsSound v
    → IsSoundBook s
    → IsSoundBook s'
unfolding IsSoundBook
insert-IsSoundBook s s' role v same written sound h = (
  ground arith,
  λ j u found. elim (Bool-cases (str_eq j role)) [
    | inl eq ↦ ground (arith, eq_iff j role, lookup-insert_self role v s.values)
    | inr ne ↦ ground (arith, eq_iff j role, lookup-insert_ne j role v s.values, h.1 j u)
  ],
)

-- The entries after a snapshot are those before it, expired.
pub lookup-expire_all :
    (timeout now : ℕ) (d : Dict Health) (role : String)
    → lookup role (expire_all timeout now d) ≡ map (expire timeout now) (lookup role d)
lookup-expire_all timeout now [] role = refl
lookup-expire_all timeout now ((j, v) ∷ d) role =
    ground (arith, lookup-expire_all timeout now d role)

-- The last report of a sound value is not after a time that the guard lets pass.
ordered_le :
    (v : Health) (now : ℕ)
    → IsSound v
    → (v.has_report ≡ true → v.last_report_monotonic_ns ≤ now)
    → v.last_report_monotonic_ns ≤ now
unfolding IsSound
ordered_le v now h q = ground arith

abbrev Keeps : {A : Type 0} → Result Error A × TrackerHealthBook → Type 0
Keeps (r, s) = IsSoundBook s

pub observe_sample-IsSoundBook :
    (sample : StampedTrackerSample) (s : TrackerHealthBook)
    → IsSoundBook s
    → IsSoundBook (observe_sample sample s).1
unfolding IsSoundBook
observe_sample-IsSoundBook sample s h =
    observe_sample-rule Keeps s sample (λ e q. h)
      λ v passes.
        let sound = h.1 sample.role v passes.0 in
        let later = ordered_le v sample.host_monotonic_ns sound passes.2 in
        let u = with_sample v sample in
        insert-IsSoundBook s (store sample.role u (changes v u.state) s).1 sample.role u refl refl
          (with_sample-IsSound v sample later sound) h

pub observe_invalid-IsSoundBook :
    (role tracker_id : String) (monotonic_ns : ℤ) (s : TrackerHealthBook)
    → IsSoundBook s
    → IsSoundBook (observe_invalid role tracker_id monotonic_ns s).1
unfolding IsSoundBook observe_invalid
observe_invalid-IsSoundBook role tracker_id (negsuc n) s h = h
observe_invalid-IsSoundBook role tracker_id (pos now) s h =
    observe_invalid-rule Keeps s role tracker_id now (λ e q. h)
      λ v passes.
        let sound = h.1 role v passes.0 in
        let later = ordered_le v now sound passes.2 in
        let u = with_invalid s.disconnect_timeout_ns v now in
        insert-IsSoundBook s (store role u (changes v u.state) s).1 role u refl refl
          (with_invalid-IsSound s.disconnect_timeout_ns v now later sound) h

drop_in-IsSoundBook :
    (role : String) (s : TrackerHealthBook) (o : Option Health)
    → lookup role s.values ≡ o
    → IsSoundBook s
    → IsSoundBook (drop_in role o s).1
unfolding IsSoundBook IsSound
drop_in-IsSoundBook role s none q h = h
drop_in-IsSoundBook role s (some v) q h =
    let u = record v { dropped_queue_count = v.dropped_queue_count + 1 } in
    insert-IsSoundBook s (record s { values = insert role u s.values }) role u refl refl
      (h.1 role v q) h

pub record_drop-IsSoundBook :
    (role : String) (s : TrackerHealthBook) → IsSoundBook s → IsSoundBook (record_drop role s).1
unfolding record_drop
record_drop-IsSoundBook role s h = drop_in-IsSoundBook role s (lookup role s.values) refl h

expired_value-IsSound :
    (timeout now : ℕ) (o : Option Health) (u : Health)
    → ((v : Health) → o ≡ some v → IsSound v)
    → map (expire timeout now) o ≡ some u
    → IsSound u
expired_value-IsSound timeout now none u h q = ground arith
expired_value-IsSound timeout now (some v) u h q =
    ground (arith, expire-IsSound timeout now v (h v refl))

expired-IsSoundBook :
    (now : ℕ) (s : TrackerHealthBook) → IsSoundBook s → IsSoundBook (snapshot (pos now) s).1
unfolding snapshot IsSoundBook
expired-IsSoundBook now s h = (
  h.0,
  λ role u found.
      expired_value-IsSound s.disconnect_timeout_ns now (lookup role s.values) u (h.1 role)
        (sym (lookup-expire_all s.disconnect_timeout_ns now s.values role) ∙ found),
)

pub snapshot-IsSoundBook :
    (now : ℤ) (s : TrackerHealthBook) → IsSoundBook s → IsSoundBook (snapshot now s).1
unfolding snapshot
snapshot-IsSoundBook (negsuc n) s h = h
snapshot-IsSoundBook (pos now) s h = expired-IsSoundBook now s h
