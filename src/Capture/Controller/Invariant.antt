-- ===== src/Capture/Controller/Invariant.antt =====
-- What holds of a capture controller between two calls.
use mathlib.Core.Path.{subst, sym}
use vision_tactile_dataset.Common.{
  ◌⊎◌, inl, inr, ◌≤◌, ◌≡◌, Bool, true, false, String, arith, length, is_some,
}
use vision_tactile_dataset.Common.Dict.{IsDict}
use vision_tactile_dataset.Capture.Session
use vision_tactile_dataset.Capture.Session.{
  CaptureState, idle, recording, finalizing, complete, invalid, is_state, CaptureStateMachine,
}
use vision_tactile_dataset.Capture.Session.Invariant
use vision_tactile_dataset.Capture.Session.Invariant.{new_machine-IsValid, call-IsValid}
use vision_tactile_dataset.Capture.Facts.{Env}
use vision_tactile_dataset.Capture.Controller.{CaptureController}
use vision_tactile_dataset.Capture.Controller.Finalization.{drive_finalization}
use vision_tactile_dataset.Capture.Controller.Frames.{Frame}
use vision_tactile_dataset.Capture.Controller.Closing.{Closed, drive_finalization-Drives}

-- The invariant; `clocked` says that the clock is known never to raise. Without it, a controller may
-- record without a deadline.
pub record IsValid (clocked : Bool) (s : CaptureController) : Type 0 where
  pub machine : Invariant.IsValid s.machine
  pub sizes : s.machine.request_cache_size ≡ s.request_cache_size
  pub bounded : length s.commands ≤ s.request_cache_size
  pub keyed : IsDict s.commands
  pub recording_owns : is_state s.machine.state recording ≡ true → is_some s.recorder ≡ true
  pub finalizing_owns : is_state s.machine.state finalizing ≡ true → is_some s.recorder ≡ true
  pub recording_ends :
      clocked ≡ true
      → is_state s.machine.state recording ≡ true
      → is_some s.planned_deadline_ns ≡ true
  pub complete_confirmed : is_state s.machine.state complete ≡ true → s.termination_confirmed ≡ true
  pub never_invalid : is_state s.machine.state invalid ≡ false

-- The invariant of a controller whose parts are those of another but for the record of calls.
pub Frame-IsValid :
    {clocked : Bool} (s s' : CaptureController)
    → Frame s s'
    → IsValid clocked s
    → IsValid clocked s'
Frame-IsValid s s' f v = record {
  machine = subst Invariant.IsValid (sym f.machine) v.machine;
  sizes = ground arith;
  bounded = ground arith;
  keyed = subst IsDict (sym f.commands) v.keyed;
  recording_owns = ground arith;
  finalizing_owns = ground arith;
  recording_ends = λ c. let ends = v.recording_ends c in ground arith;
  complete_confirmed = ground arith;
  never_invalid = ground arith;
}

-- The machine's last step leaves it where it was, or in COMPLETE.
pub finalize_passed-state :
    (m : CaptureStateMachine)
    → let m' = (Session.finalize_passed m).1 in
      ((m' ≡ m) ⊎ (m'.state ≡ complete)) × (m'.request_cache_size ≡ m.request_cache_size)
unfolding Session.finalize_passed
finalize_passed-state m = ground arith

finalize_passed-IsValid :
    (m : CaptureStateMachine)
    → Invariant.IsValid m
    → Invariant.IsValid (Session.finalize_passed m).1
unfolding Session.call
finalize_passed-IsValid m v = call-IsValid Session.passed_event m v

Closed-IsValid :
    {clocked : Bool} (s s' : CaptureController)
    → Closed s s'
    → IsValid clocked s
    → IsValid clocked s'
Closed-IsValid s s' c v =
    let step = finalize_passed-state s.machine in
    record {
      machine =
          subst Invariant.IsValid (sym c.machine) (finalize_passed-IsValid s.machine v.machine);
      sizes = ground arith;
      bounded = ground arith;
      keyed = subst IsDict (sym c.commands) v.keyed;
      recording_owns = ground arith;
      finalizing_owns = ground arith;
      recording_ends = λ clock. let ends = v.recording_ends clock in ground arith;
      complete_confirmed = ground arith;
      never_invalid = ground arith;
    }

module _ (clocked : Bool) (env : Env) where
  pub drive_finalization-IsValid :
      (reason : String) (b : Bool) (s : CaptureController)
      → IsValid clocked s
      → IsValid clocked (drive_finalization env reason b s).1
  drive_finalization-IsValid reason b s v = elim (drive_finalization-Drives env reason b s) [
    | inl same ↦ Frame-IsValid s (drive_finalization env reason b s).1 same.0 v
    | inr c ↦ Closed-IsValid s (drive_finalization env reason b s).1 c.closed v
  ]
