-- ===== src/Capture/Controller/Announcing.antt =====
-- Receipts and publications of the capture controller, and its invariant.
use vision_tactile_dataset.Common.{Bool, Option, String}
use vision_tactile_dataset.Common.Dict.{insert, length-evict, evict-IsDict, insert-IsDict}
use vision_tactile_dataset.Common.Monad.{◌>>◌, pure, bind-keeps}
use vision_tactile_dataset.Capture.Session.{CommandKind}
use vision_tactile_dataset.Capture.Facts.{Env, Detail, EventSeverity, CommandReceipt}
use vision_tactile_dataset.Capture.Controller.{
  CaptureController, remember, publish_event, publish_status,
}
use vision_tactile_dataset.Capture.Controller.Frames.{publish_event-Frame, publish_status-Frame}
use vision_tactile_dataset.Capture.Controller.Invariant.{IsValid, Frame-IsValid}

pub remember-IsValid :
    {clocked : Bool} (k : CommandKind) (r : CommandReceipt) (s : CaptureController)
    → IsValid clocked s
    → IsValid clocked (remember k r s).1
unfolding remember
remember-IsValid k r s v = record {
  machine = v.machine;
  sizes = v.sizes;
  bounded = length-evict s.request_cache_size (insert r.request_id (k, r) s.commands);
  keyed =
      evict-IsDict s.request_cache_size (insert r.request_id (k, r) s.commands)
        (insert-IsDict r.request_id (k, r) s.commands v.keyed);
  recording_owns = v.recording_owns;
  finalizing_owns = v.finalizing_owns;
  recording_ends = v.recording_ends;
  complete_confirmed = v.complete_confirmed;
  never_invalid = v.never_invalid;
}

module _ (clocked : Bool) (env : Env) where
  -- Publishing an event and a status keeps the invariant.
  pub publish_event-IsValid :
      (code : String) (sev : EventSeverity) (d : Detail) (r : Option String) (s : CaptureController)
      → IsValid clocked s
      → IsValid clocked (publish_event env code sev d r s).1
  publish_event-IsValid code sev d r s v =
      Frame-IsValid s (publish_event env code sev d r s).1 (publish_event-Frame env code sev d r s)
        v

  pub publish_status-IsValid :
      (d : Detail) (r : Option String) (s : CaptureController)
      → IsValid clocked s
      → IsValid clocked (publish_status env d r s).1
  publish_status-IsValid d r s v =
      Frame-IsValid s (publish_status env d r s).1 (publish_status-Frame env d r s) v

  -- An event, a status and the receipt: how every command ends that does not stop a recorder.
  pub announce-IsValid :
      (code : String) (sev : EventSeverity) (d e : Detail) (r : Option String)
      (receipt : CommandReceipt) (s : CaptureController)
      → IsValid clocked s
      → IsValid clocked
          ((publish_event env code sev d r >> (publish_status env e r >> pure receipt)) s).1
  announce-IsValid code sev d e r receipt s v =
      let t = (publish_event env code sev d r s).1 in
      let w = publish_event-IsValid code sev d r s v in
      bind-keeps (IsValid clocked) (publish_event env code sev d r)
        (λ _. publish_status env e r >> pure receipt) s w
        (λ _ q.
          bind-keeps (IsValid clocked) (publish_status env e r) (λ _. pure receipt) t
            (publish_status-IsValid e r t w) (λ _ p. publish_status-IsValid e r t w))
