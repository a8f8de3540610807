-- ===== src/Alignment/ClockAudit/Tests.antt =====
-- A stream whose realtime clock is set forward once, and the theorems at it.
use vision_tactile_dataset.Common.{◌≡◌, refl, true, [], ◌∷◌, ◌↔◌, All}
use vision_tactile_dataset.Common.Int.{pos, negsuc}
use vision_tactile_dataset.Common.Monad.{ok, err}
use vision_tactile_dataset.Alignment.ClockAudit.{
  ClockObservation, ClockAudit, ClockViolation, clock_step, reason_of, delta_of, step_error_of,
  step_reason, violations_from, maximum_from, audit_clock_stream, is_valid, negative_max_step,
}
use vision_tactile_dataset.Alignment.ClockAudit.Steady.{
  AllSteady, IsReported, audit-AllSteady, audit-IsReported,
}

machinery : Unit {0}
unfolding reason_of delta_of step_error_of step_reason violations_from maximum_from
    audit_clock_stream
machinery = tt

abbrev at_10 : ClockObservation
at_10 = record { monotonic_ns = 10; realtime_ns = 110 }

abbrev at_20 : ClockObservation
at_20 = record { monotonic_ns = 20; realtime_ns = 121 }

abbrev at_30 : ClockObservation
at_30 = record { monotonic_ns = 30; realtime_ns = 171 }

abbrev step_found : ClockViolation
step_found = record {
  index = 2;
  reason = clock_step;
  realtime_delta_ns = pos 50;
  monotonic_delta_ns = pos 10;
  step_error_ns = 40;
}

abbrev found : ClockAudit
found = record {
  stream_name = "left";
  sample_count = 3;
  maximum_step_error_ns = 40;
  violations = step_found ∷ [];
}

step_is_found : audit_clock_stream "left" (at_10 ∷ at_20 ∷ at_30 ∷ []) (pos 5) ≡ ok found
unfolding machinery
step_is_found = refl

negative_is_refused : audit_clock_stream "left" (at_10 ∷ []) (negsuc 0) ≡ err negative_max_step
unfolding machinery
negative_is_refused = refl

audit-AllSteady_example : (is_valid found ≡ true) ↔ AllSteady 5 (at_10 ∷ at_20 ∷ at_30 ∷ [])
audit-AllSteady_example =
    audit-AllSteady "left" (at_10 ∷ at_20 ∷ at_30 ∷ []) 5 {a = found} step_is_found

audit-IsReported_example : All (IsReported 5 1 2 40) found.violations
audit-IsReported_example =
    audit-IsReported "left" (at_10 ∷ at_20 ∷ at_30 ∷ []) 5 {a = found} step_is_found
