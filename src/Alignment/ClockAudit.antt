-- ===== src/Alignment/ClockAudit.antt =====
-- The audit of a stream's clocks: tools/multisensor_alignment/src/vt_multisensor_alignment/
-- clock_audit.py. Differences of times are integers, as in Python.
pub mod Steady
mod Tests
use vision_tactile_dataset.Common.{
  ℕ, zero, suc, ◌+◌, Bool, true, false, ◌||◌, Option, none, some, List, [], ◌∷◌, String, ltb, leb,
  if◌then◌else◌, length,
}
use vision_tactile_dataset.Common.Int.{ℤ, pos, negsuc, ◌-ℤ◌, abs}
use vision_tactile_dataset.Common.Monad.{Result, ok, err}

-- The times of the `ClockObservation` of model.py, which checks that they are not negative.
pub record ClockObservation : Type 0 where
  pub monotonic_ns : ℕ
  pub realtime_ns : ℕ

pub data Reason : Type 0 where
  non_increasing clock_step : Reason

pub record ClockViolation : Type 0 where
  pub index : ℕ
  pub reason : Reason
  pub realtime_delta_ns : ℤ
  pub monotonic_delta_ns : ℤ
  pub step_error_ns : ℕ

pub record ClockAudit : Type 0 where
  pub stream_name : String
  pub sample_count : ℕ
  pub maximum_step_error_ns : ℕ
  pub violations : List ClockViolation

-- The property `valid`: no violations.
abbrev pub is_valid : ClockAudit → Bool
is_valid audit = elim audit.violations [ [] ↦ true | _ ∷ _ ↦ false ]

pub data Error : Type 0 where
  empty_stream_name negative_max_step : Error

-- `value <= 0`
abbrev pub is_nonpositive : ℤ → Bool
is_nonpositive (pos zero) = true
is_nonpositive (pos (suc n)) = false
is_nonpositive (negsuc n) = true

abbrev pub max : ℕ → ℕ → ℕ
max a b = if ltb a b then b else a

-- The reason to report a step, or none (the empty text of the code).
unfoldable pub reason_of : ℕ → ℤ → ℤ → ℕ → Option Reason
reason_of max_step realtime_delta monotonic_delta step_error =
    if is_nonpositive realtime_delta || is_nonpositive monotonic_delta
    then some non_increasing
    else if ltb max_step step_error
    then some clock_step
    else none

unfoldable pub delta_of : ℕ → ℕ → ℤ
delta_of current previous = pos current -ℤ pos previous

-- `abs(realtime_delta - monotonic_delta)`
unfoldable pub step_error_of : ClockObservation → ClockObservation → ℕ
step_error_of previous current = abs (
    delta_of current.realtime_ns previous.realtime_ns
    -ℤ delta_of current.monotonic_ns previous.monotonic_ns)

abbrev pub and_violation :
    Option Reason
    → ℕ
    → ClockObservation
    → ClockObservation
    → List ClockViolation
    → List ClockViolation
and_violation none index previous current rest = rest
and_violation (some reason) index previous current rest =
    (record {
      index = index;
      reason = reason;
      realtime_delta_ns = delta_of current.realtime_ns previous.realtime_ns;
      monotonic_delta_ns = delta_of current.monotonic_ns previous.monotonic_ns;
      step_error_ns = step_error_of previous current;
    })
    ∷ rest

-- The reason for the step from an observation to the next.
unfoldable pub step_reason : ℕ → ClockObservation → ClockObservation → Option Reason
step_reason max_step previous current =
    reason_of max_step (delta_of current.realtime_ns previous.realtime_ns)
      (delta_of current.monotonic_ns previous.monotonic_ns) (step_error_of previous current)

-- The loop over consecutive pairs, which are counted from 1: what it appends, and its maximum.
unfoldable pub violations_from :
    ℕ → ℕ → ClockObservation → List ClockObservation → List ClockViolation
violations_from max_step index previous [] = []
violations_from max_step index previous (current ∷ rest) =
    let later = violations_from max_step (index + 1) current rest in
    and_violation (step_reason max_step previous current) index previous current later

unfoldable pub maximum_from : ℕ → ClockObservation → List ClockObservation → ℕ
maximum_from maximum previous [] = maximum
maximum_from maximum previous (current ∷ rest) =
    maximum_from (max maximum (step_error_of previous current)) current rest

abbrev pub violations_of : ℕ → List ClockObservation → List ClockViolation
violations_of max_step [] = []
violations_of max_step (o ∷ os) = violations_from max_step 1 o os

abbrev pub maximum_of : List ClockObservation → ℕ
maximum_of [] = 0
maximum_of (o ∷ os) = maximum_from 0 o os

abbrev pub audited : String → List ClockObservation → ℕ → ClockAudit
audited stream_name observations max_step = record {
  stream_name = stream_name;
  sample_count = length observations;
  maximum_step_error_ns = maximum_of observations;
  violations = violations_of max_step observations;
}

unfoldable pub audit_clock_stream : String → List ClockObservation → ℤ → Result Error ClockAudit
audit_clock_stream String.[] observations max_step = err empty_stream_name
audit_clock_stream (String.◌∷◌ c s) observations (negsuc n) = err negative_max_step
audit_clock_stream (String.◌∷◌ c s) observations (pos n) =
    ok (audited (String.◌∷◌ c s) observations n)
