-- ===== src/Alignment/ClockAudit/Steady.antt =====
-- What the audit of clock_audit.py accepts, described without its integers.
use vision_tactile_dataset.Common.{
  sym, suc, ℕ, ◌+◌, ◌-◌, ◌≤◌, ◌<◌, ◌≡◌, refl, true, false, none, some, List, [], ◌∷◌, String, arith,
  ◌↔◌, All, Option-cases, inl, inr, length,
}
use vision_tactile_dataset.Common.Int.{pos}
use vision_tactile_dataset.Common.Monad.{ok}
use vision_tactile_dataset.Alignment.ClockAudit.{
  ClockObservation, ClockViolation, ClockAudit, Reason, clock_step, reason_of, delta_of,
  step_error_of, step_reason, violations_from, maximum_from, violations_of, maximum_of, audited,
  audit_clock_stream, is_valid, max,
}

-- From an observation to the next both clocks go on, and by as much, up to a tolerance.
abbrev pub IsSteady : ℕ → ClockObservation → ClockObservation → Type 0
IsSteady tolerance p c =
    (p.realtime_ns < c.realtime_ns)
    × (p.monotonic_ns < c.monotonic_ns)
    × (c.realtime_ns + p.monotonic_ns ≤ p.realtime_ns + c.monotonic_ns + tolerance)
    × (p.realtime_ns + c.monotonic_ns ≤ c.realtime_ns + p.monotonic_ns + tolerance)

-- The same of every two consecutive observations.
abbrev pub AllSteady : ℕ → List ClockObservation → Type 0
AllSteady tolerance [] = Unit
AllSteady tolerance (p ∷ []) = Unit
AllSteady tolerance (p ∷ c ∷ os) = IsSteady tolerance p c × AllSteady tolerance (c ∷ os)

step_reason-none→ :
    (tolerance : ℕ) (p c : ClockObservation)
    → step_reason tolerance p c ≡ none
    → IsSteady tolerance p c
unfolding step_reason reason_of delta_of step_error_of
step_reason-none→ tolerance p c h = ground arith

step_reason-none← :
    (tolerance : ℕ) (p c : ClockObservation)
    → IsSteady tolerance p c
    → step_reason tolerance p c ≡ none
unfolding step_reason reason_of delta_of step_error_of
step_reason-none← tolerance p c h = ground arith

violations_from-Steady :
    (tolerance i : ℕ) (p : ClockObservation) (os : List ClockObservation)
    → violations_from tolerance i p os ≡ []
    → AllSteady tolerance (p ∷ os)
unfolding violations_from
violations_from-Steady tolerance i p [] h = tt
violations_from-Steady tolerance i p (c ∷ os) h = elim (Option-cases (step_reason tolerance p c)) [
  | inl fine ↦
      ground
        (arith, step_reason-none→ tolerance p c fine, violations_from-Steady tolerance (i + 1) c os)
  | inr (r, bad) ↦ absurd (ground arith)
]

Steady-violations_from :
    (tolerance i : ℕ) (p : ClockObservation) (os : List ClockObservation)
    → AllSteady tolerance (p ∷ os)
    → violations_from tolerance i p os ≡ []
unfolding violations_from
Steady-violations_from tolerance i p [] h = refl
Steady-violations_from tolerance i p (c ∷ os) h =
    rw (step_reason-none← tolerance p c h.0) (Steady-violations_from tolerance (i + 1) c os h.1)

violations_of-Steady :
    (tolerance : ℕ) (os : List ClockObservation)
    → (violations_of tolerance os ≡ []) ↔ AllSteady tolerance os
violations_of-Steady tolerance [] = (λ h. tt, λ h. refl)
violations_of-Steady tolerance (p ∷ os) =
    (violations_from-Steady tolerance 1 p os, Steady-violations_from tolerance 1 p os)

is_valid-empty : (a : ClockAudit) → (is_valid a ≡ true) ↔ (a.violations ≡ [])
is_valid-empty a = go a.violations
  where
    go : (vs : List ClockViolation) → (elim vs [ [] ↦ true | _ ∷ _ ↦ false ] ≡ true) ↔ (vs ≡ [])
    go [] = (λ h. refl, λ h. refl)
    go (v ∷ vs) = (λ h. absurd (ground arith), λ h. absurd (ground arith))

audit-is :
    (name : String) (os : List ClockObservation) (tolerance : ℕ) {a : ClockAudit}
    → audit_clock_stream name os (pos tolerance) ≡ ok a
    → audited name os tolerance ≡ a
unfolding audit_clock_stream
audit-is String.[] os tolerance h = absurd (ground arith)
audit-is (String.◌∷◌ c s) os tolerance h = ground arith

-- An audit that was made is valid just when from each observation of the stream to the next both
-- clocks go on, and their advances differ by the tolerance at most.
pub audit-AllSteady :
    (name : String) (os : List ClockObservation) (tolerance : ℕ) {a : ClockAudit}
    → audit_clock_stream name os (pos tolerance) ≡ ok a
    → (is_valid a ≡ true) ↔ AllSteady tolerance os
audit-AllSteady name os tolerance {a} h =
    let same = violations_of-Steady tolerance os in
    let empty = is_valid-empty (audited name os tolerance) in
    simp (sym (audit-is name os tolerance h)) (λ v. same.0 (empty.0 v), λ v. empty.1 (same.1 v))

-- What a violation says: a step of the stream, its error up to a bound, and why it is reported.
abbrev pub IsReported : ℕ → ℕ → ℕ → ℕ → ClockViolation → Type 0
IsReported tolerance first count maximum v =
    (first ≤ v.index)
    × (v.index < first + count)
    × (v.step_error_ns ≤ maximum)
    × (v.reason ≡ clock_step → tolerance < v.step_error_ns)

maximum_from-ge :
    (m : ℕ) (p : ClockObservation) (os : List ClockObservation) → m ≤ maximum_from m p os
unfolding maximum_from
maximum_from-ge m p [] = omega arith
maximum_from-ge m p (c ∷ os) = ground (arith, maximum_from-ge (max m (step_error_of p c)) c os)

weaken :
    (tolerance first count maximum : ℕ) (vs : List ClockViolation)
    → All (IsReported tolerance (first + 1) count maximum) vs
    → All (IsReported tolerance first (count + 1) maximum) vs
weaken tolerance first count maximum [] h = tt
weaken tolerance first count maximum (v ∷ vs) (h, hs) =
    ((omega arith, omega arith, h.2, h.3), weaken tolerance first count maximum vs hs)

clock_step-over :
    (tolerance : ℕ) (p c : ClockObservation) (r : Reason)
    → step_reason tolerance p c ≡ some r
    → r ≡ clock_step
    → tolerance < step_error_of p c
unfolding step_reason reason_of
clock_step-over tolerance p c r h e = ground arith

violations_from-IsReported :
    (tolerance i m : ℕ) (p : ClockObservation) (os : List ClockObservation)
    → All
        (IsReported tolerance i (length os) (maximum_from m p os))
        (violations_from tolerance i p os)
unfolding maximum_from violations_from
violations_from-IsReported tolerance i m p [] = tt
violations_from-IsReported tolerance i m p (c ∷ os) =
    let error = step_error_of p c in
    let top = maximum_from (max m error) c os in
    let below : error ≤ top = ground (arith, maximum_from-ge (max m error) c os) in
    let later = violations_from tolerance (i + 1) c os in
    let one_more : suc (length os) ≡ length os + 1 = omega arith in
    let rest : All (IsReported tolerance i (suc (length os)) top) later = rw one_more (
      weaken tolerance i (length os) top later
        (violations_from-IsReported tolerance (i + 1) (max m error) c os)) in
    elim (Option-cases (step_reason tolerance p c)) [
      | inl fine ↦ rw fine rest
      | inr (r, bad) ↦
          rw bad ((omega arith, omega arith, below, clock_step-over tolerance p c r bad), rest)
    ]

violations_of-IsReported :
    (tolerance : ℕ) (os : List ClockObservation)
    → All (IsReported tolerance 1 (length os - 1) (maximum_of os)) (violations_of tolerance os)
violations_of-IsReported tolerance [] = tt
violations_of-IsReported tolerance (p ∷ os) =
    let count : suc (length os) - 1 ≡ length os = omega arith in
    rw count (violations_from-IsReported tolerance 1 0 p os)

-- Each violation of an audit that was made stands at a step of the stream, counted from 1; its error
-- is at most the maximum of the audit, and is above the tolerance where a clock step is reported.
pub audit-IsReported :
    (name : String) (os : List ClockObservation) (tolerance : ℕ) {a : ClockAudit}
    → audit_clock_stream name os (pos tolerance) ≡ ok a
    → All (IsReported tolerance 1 (length os - 1) a.maximum_step_error_ns) a.violations
audit-IsReported name os tolerance {a} h =
    simp (sym (audit-is name os tolerance h)) (violations_of-IsReported tolerance os)
