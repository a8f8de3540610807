-- ===== src/Capture/Controller/Idempotence.antt =====
-- What the controller answers to a request identifier that it knows.
use mathlib.Core.Path.{subst}
use vision_tactile_dataset.Common.{
  ◌∷◌, ◌<◌, ◌≡◌, refl, ◌≢◌, true, false, Option, none, some, arith, Bool-cases, inl, inr,
}
use vision_tactile_dataset.Common.Dict.{lookup}
use vision_tactile_dataset.Common.Monad.{Result, ok, err, raise, Ends, bind-Ends}
use vision_tactile_dataset.Capture.Session
use vision_tactile_dataset.Capture.Session.{
  CommandKind, start_command, stop_command, is_kind, kind_value,
}
use vision_tactile_dataset.Capture.Facts.{
  Env, session, CaptureCommandFact, CommandReceipt, warning, conflicting, CaptureEventFact,
  sent_event,
}
use vision_tactile_dataset.Capture.Controller.{CaptureController, publish_event}
use vision_tactile_dataset.Capture.Controller.Commands.{accept_known, accept}
use vision_tactile_dataset.Capture.Controller.Retries.{Remembers, accept_fresh-Remembers}

is_kind→eq : (j k : CommandKind) → is_kind j k ≡ true → j ≡ k
is_kind→eq j k h = ground arith

is_kind_refl : (k : CommandKind) → is_kind k k ≡ true
is_kind_refl k = ground arith

-- The event of a command whose request identifier is known with another kind, and the controller that
-- has sent it and nothing else.
abbrev pub conflict_event : CaptureCommandFact → CommandKind → CaptureController → CaptureEventFact
conflict_event c k s = record {
  request_id = c.request_id;
  session_id = s.machine.session_id;
  severity = warning;
  code = "request_conflict";
  detail = conflicting c.request_id (kind_value k) (kind_value c.command);
}

abbrev pub warned : CaptureCommandFact → CommandKind → CaptureController → CaptureController
warned c k s = record s { calls = sent_event (conflict_event c k s) ∷ s.calls }

module _ (env : Env) where
  accept_known-Remembers :
      (o : Option (CommandKind × CommandReceipt)) (c : CaptureCommandFact) (s : CaptureController)
      → 0 < s.request_cache_size
      → lookup c.request_id s.commands ≡ o
      → Ends (Remembers c) (accept_known env o c s)
  unfolding accept_known
  accept_known-Remembers none c s p h = accept_fresh-Remembers env c c.command s (p, h)
  accept_known-Remembers (some (k, r)) c s p h = elim (Bool-cases (is_kind k c.command)) [
    | inl same ↦ let e = is_kind→eq k c.command same in simp same (rw (← e) h)
    | inr other ↦
        let refused = Session.request_conflict c.request_id (kind_value k) (kind_value c.command) in
        simp other (
          bind-Ends (Remembers c)
            (publish_event env "request_conflict" warning
              (conflicting c.request_id (kind_value k) (kind_value c.command)) (some c.request_id))
            (λ _. raise (session refused)) s (λ _ q. tt))
  ]

  accept-Remembers :
      (c : CaptureCommandFact) (s : CaptureController)
      → 0 < s.request_cache_size
      → Ends (Remembers c) (accept env c s)
  unfolding accept
  accept-Remembers c s p = accept_known-Remembers (lookup c.request_id s.commands) c s p refl

  Ends-elim :
      {A : Type 0} (P : A → CaptureController → Type 0) {E : Type 0}
      (o : Result E A × CaptureController) {a : A}
      → Ends P o
      → o.0 ≡ ok a
      → P a o.1
  Ends-elim P (ok b, s) {a} h e = let q : b ≡ a = cc in subst (λ x. P x s) q h
  Ends-elim P (err x, s) h e = cc

  replay :
      (c : CaptureCommandFact) (s : CaptureController) (r : CommandReceipt)
      → Remembers c r s
      → accept env c s ≡ (ok r, s)
  unfolding accept accept_known
  replay c s r h = simp (h, is_kind_refl c.command)

  refuse :
      (c : CaptureCommandFact) (s : CaptureController) (k : CommandKind) (r : CommandReceipt)
      → is_kind k c.command ≡ false
      → lookup c.request_id s.commands ≡ some (k, r)
      → ((accept env c s).1 ≡ warned c k s) × ((x : CommandReceipt) → (accept env c s).0 ≢ ok x)
  unfolding accept accept_known publish_event
  refuse c s k r n h = simp (h, n) (ground arith, λ x. ground arith)

  -- With a cache of size one or more: a command that was answered with a receipt, sent again at
  -- once, is answered with that receipt, and nothing changes; no collaborator is called.
  pub accept_again :
      (c : CaptureCommandFact) (s : CaptureController) {r : CommandReceipt}
      → 0 < s.request_cache_size
      → (accept env c s).0 ≡ ok r
      → accept env c (accept env c s).1 ≡ (ok r, (accept env c s).1)
  accept_again c s {r} p h =
      replay c (accept env c s).1 r
        (Ends-elim (Remembers c) (accept env c s) (accept-Remembers c s p) h)

  -- With a cache of size one or more: right after a command that was answered with a receipt, one
  -- of the other kind with its request identifier gets no receipt, its only call sends a warning of
  -- the conflict, with both kinds and the session, and nothing else changes: it starts no recorder,
  -- stops none, and the machine does not move.
  pub accept_conflict :
      (c d : CaptureCommandFact) (s : CaptureController) {r : CommandReceipt}
      → 0 < s.request_cache_size
      → (accept env c s).0 ≡ ok r
      → d.request_id ≡ c.request_id
      → is_kind c.command d.command ≡ false
      → let s' = (accept env c s).1 in
        ((accept env d s').1 ≡ warned d c.command s')
        × ((x : CommandReceipt) → (accept env d s').0 ≢ ok x)
  accept_conflict c d s {r} p h e n =
      let known = Ends-elim (Remembers c) (accept env c s) (accept-Remembers c s p) h in
      refuse d (accept env c s).1 c.command r n (rw e known)
