-- ===== src/Gui/Runtime/Runs.antt =====
-- Any starts and stops of the GUI's runtime.
use vision_tactile_dataset.Common.{
  ℕ, suc, ◌+◌, ◌≡◌, refl, Bool, true, false, List, [], ◌∷◌, arith, Bool-cases, inl, inr,
}
use vision_tactile_dataset.Gui.Runtime.{
  thread_started, executor_shut, thread_joined, alive_asked, node_destroyed, context_shut, Trace,
  Env, RosRuntime, new_runtime, start, stop, cleanup,
}
use vision_tactile_dataset.Gui.Runtime.Cleanup.{IsCleanup, cleanup-IsCleanup}

pub data Request : Type 0 where
  start_asked stop_asked : Request

-- How often the thread was started, and the node destroyed.
abbrev pub starts : Trace → ℕ
starts [] = 0
starts (thread_started ∷ t) = suc (starts t)
starts (executor_shut ∷ t) = starts t
starts (thread_joined ∷ t) = starts t
starts (alive_asked ∷ t) = starts t
starts (node_destroyed ∷ t) = starts t
starts (context_shut ∷ t) = starts t

abbrev pub destroyed : Trace → ℕ
destroyed [] = 0
destroyed (thread_started ∷ t) = destroyed t
destroyed (executor_shut ∷ t) = destroyed t
destroyed (thread_joined ∷ t) = destroyed t
destroyed (alive_asked ∷ t) = destroyed t
destroyed (node_destroyed ∷ t) = suc (destroyed t)
destroyed (context_shut ∷ t) = destroyed t

abbrev pub one_if : Bool → ℕ
one_if true = 1
one_if false = 0

abbrev IsCounted : RosRuntime → Type 0
IsCounted s = (starts s.calls ≡ one_if s.started) × (destroyed s.calls ≡ one_if s.stopped)

module _ (env : Env) where
  unfoldable pub run : List Request → RosRuntime → RosRuntime
  run [] s = s
  run (start_asked ∷ rs) s = run rs (start env s).1
  run (stop_asked ∷ rs) s = run rs (stop env s).1

  start-IsCounted : (s : RosRuntime) → IsCounted s → IsCounted (start env s).1
  unfolding start
  start-IsCounted s h = ground arith

  cleaned_counts :
      (b : Bool) (t t' : Trace)
      → IsCleanup b t t'
      → (starts t' ≡ starts t) × (destroyed t' ≡ destroyed t + 1)
  cleaned_counts false t t' h = rw h (refl, omega arith)
  cleaned_counts true t t' (inl h) = rw h (refl, omega arith)
  cleaned_counts true t t' (inr h) = rw h (refl, omega arith)

  stop-IsCounted : (s : RosRuntime) → IsCounted s → IsCounted (stop env s).1
  unfolding stop
  stop-IsCounted s h = elim (Bool-cases s.stopped) [
    | inl over ↦ simp over (h.0, ground arith)
    | inr running ↦
        let t' = (cleanup env s.started s.calls).1 in
        let counts =
          cleaned_counts s.started s.calls t' (cleanup-IsCleanup env s.started s.calls) in
        simp running (omega (arith, counts.0, h.0), ground (arith, counts.1, h.1))
  ]

  run-IsCounted : (rs : List Request) (s : RosRuntime) → IsCounted s → IsCounted (run rs s)
  unfolding run
  run-IsCounted [] s h = h
  run-IsCounted (start_asked ∷ rs) s h = run-IsCounted rs (start env s).1 (start-IsCounted s h)
  run-IsCounted (stop_asked ∷ rs) s h = run-IsCounted rs (stop env s).1 (stop-IsCounted s h)

  -- Over any starts and stops of a new runtime, whatever its collaborators answer, the thread is started
  -- once at most and the node destroyed once at most, and just so where the runtime says that it was
  -- started and stopped.
  pub run_counts :
      (rs : List Request)
      → let s = run rs new_runtime in
        (starts s.calls ≡ one_if s.started) × (destroyed s.calls ≡ one_if s.stopped)
  run_counts rs = run-IsCounted rs new_runtime (refl, refl)
