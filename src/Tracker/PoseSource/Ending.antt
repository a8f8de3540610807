-- ===== src/Tracker/PoseSource/Ending.antt =====
-- A source of pose_source.py from its start to the end of its thread.
use vision_tactile_dataset.Common.{
  ℕ, ◌≡◌, refl, ap, Bool, true, false, not, Option, none, some, List, [], ◌∷◌, ◌++◌, String, arith,
  ◌==◌, length,
}
use vision_tactile_dataset.Common.Dict.{keys}
use vision_tactile_dataset.Common.Monad.{Result, ok, err, raise_if, raise, modify, ◌>>◌}
use vision_tactile_dataset.Tracker.Roles.{RoleMap}
use vision_tactile_dataset.Tracker.PoseSource.{
  identity_mismatch, Event, bundle_loaded, runtime_loaded, backend_made, event_cleared,
  thread_started, asked_stop, Env, Error, source, other, PoseSource, new_source, open_unique_handle,
  close_current_handle,
}
use vision_tactile_dataset.Tracker.PoseSource.Reader.{
  Phase, reading, recovering, ended, recover_read_only, run_turn, step, steps,
}
use vision_tactile_dataset.Tracker.PoseSource.Start.{
  ids_of, disagrees, check_ids, verify_bundle, load_and_verify_bundle, begun, launch, with_backend,
  with_runtime, load_runtime, start,
}
use vision_tactile_dataset.Tracker.PoseSource.Rules.{
  After, bind-After, raise_if-After, After-weaken,
}
use vision_tactile_dataset.Tracker.PoseSource.Invariant.{
  IsSource, IsIdle, stored_count, closed_count, held, close_current_handle-IsIdle,
}
use vision_tactile_dataset.Tracker.PoseSource.Opening.{
  IsReady, plain-IsReady, open_unique_handle-Opens,
}
use vision_tactile_dataset.Tracker.PoseSource.Runs.{IsThread, steps-IsThread}

module _ {F E : Type 0} (env : Env F E) (role_map : RoleMap) where
  abbrev IsFresh : PoseSource F → Type 0
  IsFresh = IsReady env role_map false

  abbrev Sources : Result Error (Unit {0}) × PoseSource F → Type 0
  Sources = After (λ _. IsSource env role_map) (IsSource env role_map)

  abbrev Loads : Result Error (Unit {0}) × PoseSource F → Type 0
  Loads = After (λ _. IsFresh) (IsSource env role_map)

  raise_if-Loads : (b : Bool) (e : Error) (s : PoseSource F) → IsFresh s → Loads (raise_if b e s)
  raise_if-Loads b e s h = raise_if-After IsFresh (IsSource env role_map) b e s h h.0.0

  check_ids-Loads :
      (o : Option (List String)) (s : PoseSource F) → IsFresh s → Loads (check_ids env role_map o s)
  check_ids-Loads none s h = h.0.0
  check_ids-Loads (some observed) s h =
      raise_if-Loads (disagrees env role_map observed (keys role_map.by_tracker_id))
        (source (identity_mismatch "bundle and role map disagree" none)) s h

  verify-Loads :
      (o : Option (List (List ℕ))) (s : PoseSource F)
      → IsFresh s
      → Loads (verify_bundle env role_map o s)
  verify-Loads none s h = h.0.0
  verify-Loads (some addresses) s h =
      let e = source (identity_mismatch "bundle address set is invalid" none) in
      bind-After (λ _. IsFresh) (λ _. IsFresh) (IsSource env role_map)
        (raise_if (not (length addresses == 3)) e)
        (λ _. check_ids env role_map (ids_of env role_map addresses)) s
        (raise_if-Loads (not (length addresses == 3)) e s h)
        (λ _ s h. check_ids-Loads (ids_of env role_map addresses) s h)

  begun-Sources :
      (b : Bool) (s : PoseSource F) → IsSource env role_map s → Sources (begun env role_map b s)
  unfolding IsSource
  begun-Sources true s h = h
  begun-Sources false s h =
      let shut = close_current_handle env s in
      bind-After (λ _. IsIdle env role_map) (λ _. IsSource env role_map) (IsSource env role_map)
        (close_current_handle env) (λ _. modify (λ s. record s { started = false }) >> raise other)
        s
        (After-weaken (λ _. IsIdle env role_map) (IsIdle env role_map) (IsSource env role_map)
          shut.0 shut.1 (λ h. h.0) (close_current_handle-IsIdle env role_map s h))
        (λ _ s h. h.0)

  launch-Sources : (s : PoseSource F) → IsSource env role_map s → Sources (launch env role_map s)
  unfolding IsSource
  launch-Sources s (balance, fits) =
      begun-Sources (env.thread_start (event_cleared ∷ s.events))
        (record s {
          started = true;
          has_thread = true;
          events = thread_started ∷ event_cleared ∷ s.events;
        })
        (omega (arith, balance), (tt, (tt, fits)))

  with_backend-Sources :
      (b : Bool) (s : PoseSource F) → IsFresh s → Sources (with_backend env role_map b s)
  with_backend-Sources false s h = h.0.0
  with_backend-Sources true s h =
      let tried = open_unique_handle env false s in
      bind-After (λ _. IsSource env role_map) (λ _. IsSource env role_map) (IsSource env role_map)
        (open_unique_handle env false) (λ _. launch env role_map) s
        (After-weaken (λ _. IsSource env role_map) (IsIdle env role_map) (IsSource env role_map)
          tried.0 tried.1 (λ h. h.0) (open_unique_handle-Opens env role_map false s h))
        (λ _ s h. launch-Sources s h)

  with_runtime-Sources :
      (b : Bool) (s : PoseSource F) → IsFresh s → Sources (with_runtime env role_map b s)
  with_runtime-Sources false s h = h.0.0
  with_runtime-Sources true s h =
      with_backend-Sources (env.make_backend s.events)
        (record s { events = backend_made ∷ s.events })
        (plain-IsReady env role_map false backend_made s (refl, refl) tt h)

  load_runtime-Sources : (s : PoseSource F) → IsFresh s → Sources (load_runtime env role_map s)
  load_runtime-Sources s h =
      with_runtime-Sources (env.load_runtime s.events)
        (record s { events = runtime_loaded ∷ s.events })
        (plain-IsReady env role_map false runtime_loaded s (refl, refl) tt h)

  start_new-Sources : Sources (start env role_map new_source)
  unfolding start load_and_verify_bundle IsSource
  start_new-Sources =
      bind-After (λ _. IsFresh) (λ _. IsSource env role_map) (IsSource env role_map)
        (load_and_verify_bundle env role_map) (λ _. load_runtime env role_map) new_source
        (verify-Loads (env.tracker_addresses []) (record new_source { events = bundle_loaded ∷ [] })
          (((refl, (tt, tt)), refl), refl))
        (λ _ s h. load_runtime-Sources s h)

  either :
      (r : Result Error (Unit {0})) (s : PoseSource F) → Sources (r, s) → IsSource env role_map s
  either (ok _) s h = h
  either (err e) s h = h

  -- From a start of a new source, after any number of turns of its thread: the handles stored are those
  -- closed and the one held, each is of the device that was opened first, no handle is held by a thread that
  -- recovers or has ended, and each sample told has passed its checks and has the role that the map gives its
  -- tracker, as each report of an invalid pose has.
  pub run-IsThread_new :
      (n : ℕ)
      → let run = steps env role_map n reading (start env role_map new_source).1 in
        IsThread env role_map run.0 run.1
  run-IsThread_new n =
      let begin = start env role_map new_source in
      steps-IsThread env role_map n reading begin.1 (either begin.0 begin.1 start_new-Sources)

  reading_stops :
      (s : PoseSource F) → env.is_set s.events ≡ true → (step env role_map reading s).0 ≡ ended
  unfolding step run_turn
  reading_stops s e = rw e refl

  recovering_stops :
      (s : PoseSource F)
      → env.is_set s.events ≡ true
      → step env role_map recovering s ≡ (reading, record s { events = asked_stop ∷ s.events })
  unfolding step recover_read_only
  recovering_stops s e = rw e refl

  stays : (s : PoseSource F) → (step env role_map ended s).0 ≡ ended
  unfolding step
  stays s = refl

  stays_at : (s : PoseSource F) → step env role_map ended s ≡ (ended, s)
  unfolding step
  stays_at s = refl

  ends :
      (phase : Phase) (s : PoseSource F)
      → ((more : List (Event F)) → env.is_set (more ++ s.events) ≡ true)
      → (steps env role_map 2 phase s).0 ≡ ended
  unfolding steps
  ends reading s set = rw (reading_stops s (set [])) (stays (step env role_map reading s).1)
  ends recovering s set =
      rw (recovering_stops s (set []))
        (reading_stops (record s { events = asked_stop ∷ s.events }) (set (asked_stop ∷ [])))
  ends ended s set = rw (stays_at s) (stays s)

  settled :
      (phase : Phase) (s : PoseSource F)
      → phase ≡ ended
      → IsThread env role_map phase s
      → (s.handle ≡ none) × (stored_count s.events ≡ closed_count s.events)
  unfolding IsSource
  settled reading s e h = absurd (ground arith)
  settled recovering s e ((balance, fits), idle) = (idle, omega (arith, balance, ap held idle))
  settled ended s e ((balance, fits), idle) = (idle, omega (arith, balance, ap held idle))

  -- Once the stop event is set and stays so, the thread ends within two turns, wherever it is; it holds no
  -- handle then, and has closed as many as it has stored.
  pub stop_ends :
      (phase : Phase) (s : PoseSource F)
      → IsThread env role_map phase s
      → ((more : List (Event F)) → env.is_set (more ++ s.events) ≡ true)
      → let run = steps env role_map 2 phase s in
        (run.0 ≡ ended)
        × (run.1.handle ≡ none)
        × (stored_count run.1.events ≡ closed_count run.1.events)
  stop_ends phase s h set =
      let run = steps env role_map 2 phase s in
      let end = ends phase s set in
      let (given_up, balanced) =
        settled run.0 run.1 end (steps-IsThread env role_map 2 phase s h) in
      (end, given_up, balanced)
