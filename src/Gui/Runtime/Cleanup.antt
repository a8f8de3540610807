-- ===== src/Gui/Runtime/Cleanup.antt =====
-- One stop of the GUI's runtime, whichever of its steps raise.
use vision_tactile_dataset.Common.{
  ◌≡◌, ◌⊎◌, ◌↔◌, refl, Bool, true, false, none, List, [], ◌∷◌, arith, Bool-cases, Option-cases, inl,
  inr,
}
use vision_tactile_dataset.Common.Monad.{ok}
use vision_tactile_dataset.Gui.Runtime.{
  executor_shut, thread_joined, alive_asked, node_destroyed, context_shut, Trace, Env, Fault,
  RosRuntime, outcome, start, cleanup, stop,
}

-- The steps of a cleanup, the latest first: the thread is joined if it was started, and asked whether it
-- is alive unless the join raises.
abbrev pub IsCleanup : Bool → Trace → Trace → Type 0
IsCleanup false t t' = t' ≡ context_shut ∷ node_destroyed ∷ executor_shut ∷ t
IsCleanup true t t' =
    (t' ≡ context_shut ∷ node_destroyed ∷ thread_joined ∷ executor_shut ∷ t)
    ⊎ (t' ≡ context_shut ∷ node_destroyed ∷ alive_asked ∷ thread_joined ∷ executor_shut ∷ t)

outcome_quiet : (es : List Fault) → (outcome es ≡ ok tt) ↔ (es ≡ [])
outcome_quiet [] = (λ h. refl, λ h. refl)
outcome_quiet (e ∷ []) = (λ h. absurd (ground arith), λ h. absurd (ground arith))
outcome_quiet (e ∷ f ∷ es) = (λ h. absurd (ground arith), λ h. absurd (ground arith))

module _ (env : Env) where
  -- Nothing raises in a cleanup, and the thread ends.
  abbrev pub IsQuiet : Bool → Trace → Type 0
  IsQuiet false t =
      (env.executor_shutdown t ≡ none)
      × (env.destroy_node (executor_shut ∷ t) ≡ none)
      × (env.shutdown_context (node_destroyed ∷ executor_shut ∷ t) ≡ none)
  IsQuiet true t =
      let asked = alive_asked ∷ thread_joined ∷ executor_shut ∷ t in
      (env.executor_shutdown t ≡ none)
      × (env.thread_join (executor_shut ∷ t) ≡ none)
      × (env.thread_is_alive (thread_joined ∷ executor_shut ∷ t) ≡ false)
      × (env.destroy_node asked ≡ none)
      × (env.shutdown_context (node_destroyed ∷ asked) ≡ none)

  pub cleanup-IsCleanup : (b : Bool) (t : Trace) → IsCleanup b t (cleanup env b t).1
  unfolding cleanup
  cleanup-IsCleanup false t = refl
  cleanup-IsCleanup true t = elim (Option-cases (env.thread_join (executor_shut ∷ t))) [
    | inl quiet ↦ rw quiet (inr refl)
    | inr (e, bad) ↦ rw bad (inl refl)
  ]

  cleanup-IsQuiet : (b : Bool) (t : Trace) → ((cleanup env b t).0 ≡ []) ↔ IsQuiet b t
  unfolding cleanup
  cleanup-IsQuiet false t = (λ h. ground arith, λ h. ground arith)
  cleanup-IsQuiet true t = (λ h. ground arith, λ h. ground arith)

  -- The first stop: whichever steps raise, it shuts the executor down, then joins the thread if it was
  -- started, then destroys the node, then shuts the context down, once each; the runtime is stopped; and
  -- it returns just when no step raised and the thread has ended.
  pub stop-IsCleanup :
      (s : RosRuntime)
      → s.stopped ≡ false
      → IsCleanup s.started s.calls (stop env s).1.calls
        × ((stop env s).1.stopped ≡ true)
        × (((stop env s).0 ≡ ok tt) ↔ IsQuiet s.started s.calls)
  unfolding stop
  stop-IsCleanup s h =
      let quiet = cleanup-IsQuiet s.started s.calls in
      let out = outcome_quiet (cleanup env s.started s.calls).0 in
      simp h (
        cleanup-IsCleanup s.started s.calls,
        refl,
        (λ k. quiet.0 (out.0 k), λ k. out.1 (quiet.1 k)),
      )

  stopped_is_final :
      (s : RosRuntime) → s.stopped ≡ true → (stop env s ≡ (ok tt, s)) × (start env s ≡ (ok tt, s))
  unfolding stop start
  stopped_is_final s h = (
    simp h refl,
    elim (Bool-cases s.started) [ inl begun ↦ simp begun refl | inr idle ↦ simp (idle, h) refl ],
  )

  stop_stops : (s : RosRuntime) → (stop env s).1.stopped ≡ true
  unfolding stop
  stop_stops s = elim (Bool-cases s.stopped) [
    | inl over ↦ simp over refl
    | inr running ↦ simp running refl
  ]

  -- After a stop, also one that raised, neither a stop nor a start does anything.
  stop_is_final :
      (s : RosRuntime)
      → let s' = (stop env s).1 in (stop env s' ≡ (ok tt, s')) × (start env s' ≡ (ok tt, s'))
  stop_is_final s = stopped_is_final (stop env s).1 (stop_stops s)
