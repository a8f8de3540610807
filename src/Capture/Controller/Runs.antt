-- ===== src/Capture/Controller/Runs.antt =====
-- What holds over every sequence of calls to one capture controller, with what is raised caught by
-- the caller, as the ROS node does.
use vision_tactile_dataset.Common.{Bool, true, ◌≡◌, List, [], ◌∷◌}
use vision_tactile_dataset.Common.Monad.{is_ok}
use vision_tactile_dataset.Capture.Facts.{Env, Trace, CaptureCommandFact}
use vision_tactile_dataset.Capture.Controller.{CaptureController}
use vision_tactile_dataset.Capture.Controller.Finalization.{tick, publish_periodic_status, shutdown}
use vision_tactile_dataset.Capture.Controller.Commands.{accept}
use vision_tactile_dataset.Capture.Controller.Invariant.{IsValid}
use vision_tactile_dataset.Capture.Controller.Preservation.{
  tick-IsValid, publish_periodic_status-IsValid, shutdown-IsValid,
}
use vision_tactile_dataset.Capture.Controller.Accepting.{accept-IsValid}

pub data Request : Type 0 where
  accept_request : CaptureCommandFact → Request
  tick_request status_request shutdown_request : Request

module _ (env : Env) where
  unfoldable pub serve : Request → CaptureController → CaptureController
  serve (accept_request c) s = (accept env c s).1
  serve tick_request s = (tick env s).1
  serve status_request s = (publish_periodic_status env s).1
  serve shutdown_request s = (shutdown env s).1

  unfoldable pub run : List Request → CaptureController → CaptureController
  run [] s = s
  run (r ∷ rs) s = run rs (serve r s)

  module _ (clocked : Bool)
      (clock : clocked ≡ true → (t : Trace) → is_ok (env.monotonic_ns t) ≡ true) where
    -- Each call keeps the invariant.
    pub serve-IsValid :
        (r : Request) (s : CaptureController) → IsValid clocked s → IsValid clocked (serve r s)
    unfolding serve
    serve-IsValid (accept_request c) s v = accept-IsValid clocked env clock c s v
    serve-IsValid tick_request s v = tick-IsValid clocked env s v
    serve-IsValid status_request s v = publish_periodic_status-IsValid clocked env s v
    serve-IsValid shutdown_request s v = shutdown-IsValid clocked env s v
