-- ===== src/Tracker/Health/Reports.antt =====
-- What a report on a tracker does to the book of health.py, on every branch.
use vision_tactile_dataset.Common.{
  ℕ, ◌+◌, ◌≤◌, ◌<◌, ◌≡◌, ◌≢◌, refl, Bool, true, false, ◌||◌, String, arith,
}
use vision_tactile_dataset.Common.Int.{pos}
use vision_tactile_dataset.Common.Dict.{insert}
use vision_tactile_dataset.Common.Monad.{Result, ok, err}
use vision_tactile_dataset.Tracker.Health.{
  tracking, connected_no_tracking, invalid_data, Health, TrackerHealthBook, StampedTrackerSample,
  Error, changes, with_sample, with_invalid, has_recent_valid_pose, observe_sample, observe_invalid,
}
use vision_tactile_dataset.Tracker.Health.Rules.{
  Refuses, Passes, observe_sample-rule, observe_invalid-rule,
}

-- The book once an entry was written, and a status asked for where its state has changed; and what an
-- answer says of the entry before and after.
abbrev pub written : String → Health → Bool → TrackerHealthBook → TrackerHealthBook
written role v changed s = record s {
  values = insert role v s.values;
  status_publish_requested = s.status_publish_requested || changed;
}

abbrev pub Tells : Bool → Health → Health → Type 0
Tells changed v v' = (changed ≡ true → v'.state ≢ v.state) × (changed ≡ false → v'.state ≡ v.state)

-- How an entry moves by a sample.
abbrev pub Samples : StampedTrackerSample → Health → Health → Type 0
Samples sample v v' =
    (sample.pose_valid ≡ true
      → (v'.state ≡ tracking)
        × (v'.has_valid_pose ≡ true)
        × (v'.last_valid_pose_monotonic_ns ≡ sample.host_monotonic_ns))
    × (sample.pose_valid ≡ false
        → (v'.state ≡ connected_no_tracking)
          × (v'.has_valid_pose ≡ v.has_valid_pose)
          × (v'.last_valid_pose_monotonic_ns ≡ v.last_valid_pose_monotonic_ns))
    × (v'.tracking_status ≡ sample.tracking_status)
    × (v'.valid_sample_count ≡ v.valid_sample_count + 1)
    × (v'.invalid_report_count ≡ v.invalid_report_count)
    × (v'.last_report_monotonic_ns ≡ sample.host_monotonic_ns)
    × (v'.has_report ≡ true)

-- And by an invalid report, with the timeout of the book.
abbrev pub Invalidates : ℕ → ℕ → Health → Health → Type 0
Invalidates timeout now v v' =
    (v.has_valid_pose ≡ true → now < v.last_valid_pose_monotonic_ns + timeout → v'.state ≡ v.state)
    × (v.has_valid_pose ≡ false → v'.state ≡ invalid_data)
    × (v.last_valid_pose_monotonic_ns + timeout ≤ now → v'.state ≡ invalid_data)
    × (v'.tracking_status ≡ v.tracking_status)
    × (v'.valid_sample_count ≡ v.valid_sample_count)
    × (v'.invalid_report_count ≡ v.invalid_report_count + 1)
    × (v'.last_report_monotonic_ns ≡ now)
    × (v'.has_report ≡ true)
    × (v'.has_valid_pose ≡ v.has_valid_pose)
    × (v'.last_valid_pose_monotonic_ns ≡ v.last_valid_pose_monotonic_ns)

-- What no report changes in an entry.
abbrev pub Keeps : Health → Health → Type 0
Keeps v v' =
    (v'.role ≡ v.role)
    × (v'.tracker_id ≡ v.tracker_id)
    × (v'.dropped_queue_count ≡ v.dropped_queue_count)

-- A report of a tracker on a role at a time: it is refused, for its reason, and the book is as it was; or
-- it is let pass, and the entry of the role is written, as the report says.
abbrev pub Reported :
    String
    → String
    → ℕ
    → (Health → Health → Type 0)
    → TrackerHealthBook
    → Result Error Bool × TrackerHealthBook
    → Type 0
Reported role tracker_id now Moves s (err e, s') = Refuses role tracker_id now s e × (s' ≡ s)
Reported role tracker_id now Moves s (ok changed, s') =
    (v : Health) × (v' : Health) × Passes role tracker_id now s v
    × Moves v v'
    × Keeps v v'
    × Tells changed v v'
    × (s' ≡ written role v' changed s)

changes-Tells : (v v' : Health) → Tells (changes v v'.state) v v'
changes-Tells v v' = (λ h same. ground arith, λ h. ground arith)

with_sample-Samples :
    (v : Health) (sample : StampedTrackerSample) → Samples sample v (with_sample v sample)
unfolding with_sample
with_sample-Samples v sample = ground arith

with_invalid-Invalidates :
    (timeout now : ℕ) (v : Health)
    → 0 < timeout
    → Invalidates timeout now v (with_invalid timeout v now)
unfolding with_invalid has_recent_valid_pose
with_invalid-Invalidates timeout now v p = ground arith

-- A sample is refused, and the book stays as it was, where its role is unknown, its tracker is not that
-- of the role, or the last report of the role is later than the sample. Else only the entry of its role is
-- written: with a valid pose the state is TRACKING and the time of the sample is that of the last valid
-- pose, and without one the state is CONNECTED_NO_TRACKING and the last valid pose stays; the tracking
-- status and the time of the last report are the sample's, and the valid samples are one more, and the
-- invalid reports and drops as many as before. It answers whether the state changed, and a change asks
-- for a status.
pub observe_sample-Reported :
    (sample : StampedTrackerSample) (s : TrackerHealthBook)
    → Reported sample.role sample.tracker_id sample.host_monotonic_ns
        (Samples sample)
        s
        (observe_sample sample s)
unfolding with_sample
observe_sample-Reported sample s =
    let P = Reported sample.role sample.tracker_id sample.host_monotonic_ns (Samples sample) s in
    observe_sample-rule P s sample (λ e refused. (refused, refl))
      λ v passes.
        let u = with_sample v sample in
        (v, u, passes, with_sample-Samples v sample, (refl, refl, refl), changes-Tells v u, refl)

-- In a book with a timeout of 1 or more, as its constructor demands: an invalid report at a time that is
-- not negative is refused, and the book stays as it was, where its role is unknown, its tracker is not
-- that of the role, or the last report of the role is later. Else only the entry of its role is written:
-- the state stays where a valid pose came and less than the timeout has passed since the last one, and
-- is INVALID_DATA otherwise; the invalid reports are one more, the time of the last report is that
-- of this one, and the valid samples, the drops, the tracking status and the last valid pose are as
-- before. It answers whether the state changed, and a change asks for a status.
pub observe_invalid-Reported :
    (role tracker_id : String) (now : ℕ) (s : TrackerHealthBook)
    → 0 < s.disconnect_timeout_ns
    → Reported role tracker_id now
        (Invalidates s.disconnect_timeout_ns now)
        s
        (observe_invalid role tracker_id (pos now) s)
unfolding with_invalid
observe_invalid-Reported role tracker_id now s p =
    let timeout = s.disconnect_timeout_ns in
    let P = Reported role tracker_id now (Invalidates timeout now) s in
    observe_invalid-rule P s role tracker_id now (λ e refused. (refused, refl))
      λ v passes.
        let u = with_invalid timeout v now in
        (
          v,
          u,
          passes,
          with_invalid-Invalidates timeout now v p,
          (refl, refl, refl),
          changes-Tells v u,
          refl,
        )
