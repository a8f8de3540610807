-- ===== src/Capture/Session/Requests.antt =====
-- The identity rules of commands: what a second call with a request's identifier gives.
use vision_tactile_dataset.Common.{◌<◌, ◌≡◌, false, some, String, arith, is_blank, if◌then◌else◌}
use vision_tactile_dataset.Common.Dict.{lookup, lookup-evict-insert_new}
use vision_tactile_dataset.Common.Monad.{Result, ok, err}
use vision_tactile_dataset.Capture.Session.{
  Transition, CachedRequest, CaptureStateMachine, start, stop, stop_while_idle, start_command,
  stop_command, request_conflict, CommandKind, kind_value, is_kind, Error,
}
use vision_tactile_dataset.Capture.Session.Invariant.{start_answer, stop_answer, idle_answer}

-- After a START that returned `t`, the cache answers its request with `t`.
lookup-start :
    (r s : String) (m : CaptureStateMachine) {t : Transition}
    → 0 < m.request_cache_size
    → (start r s m).0 ≡ ok t
    → lookup r (start r s m).1.requests ≡ some (record { command = start_command; transition = t })
unfolding start
lookup-start r s m p h =
    ground (arith, lookup-evict-insert_new r (start_answer r s m) m.request_cache_size m.requests p)

lookup-stop :
    (r : String) (m : CaptureStateMachine) {t : Transition}
    → 0 < m.request_cache_size
    → (stop r m).0 ≡ ok t
    → lookup r (stop r m).1.requests ≡ some (record { command = stop_command; transition = t })
unfolding stop
lookup-stop r m p h =
    ground (arith, lookup-evict-insert_new r (stop_answer r m) m.request_cache_size m.requests p)

lookup-stop_while_idle :
    (r : String) (m : CaptureStateMachine) {t : Transition}
    → 0 < m.request_cache_size
    → (stop_while_idle r m).0 ≡ ok t
    → lookup r (stop_while_idle r m).1.requests
      ≡ some (record { command = stop_command; transition = t })
unfolding stop_while_idle
lookup-stop_while_idle r m p h =
    ground (arith, lookup-evict-insert_new r (idle_answer r m) m.request_cache_size m.requests p)

-- What a command with a cached request gives: the cached transition if the kinds agree, and a
-- conflict if not. The machine stays as it is.
abbrev Replayed :
    CommandKind
    → CachedRequest
    → String
    → CaptureStateMachine
    → Result Error Transition × CaptureStateMachine
    → Type 0
Replayed command c r m out = out ≡ (
  if is_kind c.command command
      then ok c.transition
      else err (request_conflict r (kind_value c.command) (kind_value command)),
  m,
)

start_cached :
    (r s : String) (m : CaptureStateMachine) (c : CachedRequest)
    → is_blank r ≡ false
    → is_blank s ≡ false
    → lookup r m.requests ≡ some c
    → Replayed start_command c r m (start r s m)
unfolding start
start_cached r s m c hr hs h = ground arith

stop_cached :
    (r : String) (m : CaptureStateMachine) (c : CachedRequest)
    → is_blank r ≡ false
    → lookup r m.requests ≡ some c
    → Replayed stop_command c r m (stop r m)
unfolding stop
stop_cached r m c hr h = ground arith

stop_while_idle_cached :
    (r : String) (m : CaptureStateMachine) (c : CachedRequest)
    → is_blank r ≡ false
    → lookup r m.requests ≡ some c
    → Replayed stop_command c r m (stop_while_idle r m)
unfolding stop_while_idle
stop_while_idle_cached r m c hr h = ground arith

start_named :
    (r s : String) (m : CaptureStateMachine) {t : Transition}
    → (start r s m).0 ≡ ok t
    → is_blank r ≡ false
unfolding start
start_named r s m h = ground arith

stop_named :
    (r : String) (m : CaptureStateMachine) {t : Transition}
    → (stop r m).0 ≡ ok t
    → is_blank r ≡ false
unfolding stop
stop_named r m h = ground arith

stop_while_idle_named :
    (r : String) (m : CaptureStateMachine) {t : Transition}
    → (stop_while_idle r m).0 ≡ ok t
    → is_blank r ≡ false
unfolding stop_while_idle
stop_while_idle_named r m h = ground arith

-- With a cache of size one or more: right after a START that returned `t`, a START with the same
-- request and any session that is not blank returns `t` again and changes nothing; a STOP with that
-- request raises a conflict, and changes nothing either.
pub start_again :
    (r s s' : String) (m : CaptureStateMachine) {t : Transition}
    → 0 < m.request_cache_size
    → is_blank s' ≡ false
    → (start r s m).0 ≡ ok t
    → let m' = (start r s m).1 in
      (start r s' m' ≡ (ok t, m')) × (stop r m' ≡ (err (request_conflict r "START" "STOP"), m'))
start_again r s s' m {t} p hs h =
    let named = start_named r s m h in
    let found = lookup-start r s m p h in
    (
      start_cached r s' (start r s m).1 (record { command = start_command; transition = t }) named
          hs found,
      stop_cached r (start r s m).1 (record { command = start_command; transition = t }) named
          found,
    )

-- With a cache of size one or more: right after a STOP that returned `t`, a STOP with the same
-- request returns `t` again and changes nothing; a START with that request and a session that is
-- not blank raises a conflict, and changes nothing either.
stop_again :
    (r s : String) (m : CaptureStateMachine) {t : Transition}
    → 0 < m.request_cache_size
    → is_blank s ≡ false
    → (stop r m).0 ≡ ok t
    → let m' = (stop r m).1 in
      (stop r m' ≡ (ok t, m')) × (start r s m' ≡ (err (request_conflict r "STOP" "START"), m'))
stop_again r s m {t} p hs h =
    let named = stop_named r m h in
    let found = lookup-stop r m p h in
    (
      stop_cached r (stop r m).1 (record { command = stop_command; transition = t }) named found,
      start_cached r s (stop r m).1 (record { command = stop_command; transition = t }) named hs
          found,
    )

-- With a cache of size one or more: right after a STOP that an idle machine acknowledged with `t`,
-- both ways to stop with the same request return `t` again and change nothing; a START with that
-- request and a session that is not blank raises a conflict, and changes nothing either.
stop_while_idle_again :
    (r s : String) (m : CaptureStateMachine) {t : Transition}
    → 0 < m.request_cache_size
    → is_blank s ≡ false
    → (stop_while_idle r m).0 ≡ ok t
    → let m' = (stop_while_idle r m).1 in
      (stop_while_idle r m' ≡ (ok t, m'))
      × (stop r m' ≡ (ok t, m'))
      × (start r s m' ≡ (err (request_conflict r "STOP" "START"), m'))
stop_while_idle_again r s m {t} p hs h =
    let named = stop_while_idle_named r m h in
    let found = lookup-stop_while_idle r m p h in
    let m' = (stop_while_idle r m).1 in
    let c : CachedRequest = record { command = stop_command; transition = t } in
    (
      stop_while_idle_cached r m' c named found,
      stop_cached r m' c named found,
      start_cached r s m' c named hs found,
    )
