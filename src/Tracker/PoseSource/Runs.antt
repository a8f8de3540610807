-- ===== src/Tracker/PoseSource/Runs.antt =====
-- Runs of the reader thread of pose_source.py: from a start, by turns of its loops, to its end.
use vision_tactile_dataset.Common.{
  ℕ, zero, suc, ◌≡◌, refl, Bool, true, false, Option, none, some, List, [], ◌∷◌, String,
}
use vision_tactile_dataset.Common.Monad.{Result, ok, err, pure, ◌>>◌}
use vision_tactile_dataset.Tracker.Roles.{RoleMap}
use vision_tactile_dataset.Tracker.PoseSource.{
  PoseSourceError, Method, note, read_failure, read, clocked, waited, asked_stop, reported, Env,
  Error, PoseSource, tell, open_unique_handle, close_current_handle,
}
use vision_tactile_dataset.Tracker.PoseSource.Reader.{
  Phase, reading, recovering, ended, process_report, reported_as, recovered, recover_unless,
  recover_read_only, after_read, read_held, run_unless, run_turn, finally, step, steps,
}
use vision_tactile_dataset.Tracker.PoseSource.Rules.{After, bind-After, After-weaken}
use vision_tactile_dataset.Tracker.PoseSource.Invariant.{
  IsSource, IsIdle, note-IsSource, tell-IsIdle, close_current_handle-IsIdle,
}
use vision_tactile_dataset.Tracker.PoseSource.Opening.{open_unique_handle-Opens}
use vision_tactile_dataset.Tracker.PoseSource.Reports.{process_report-Keeps}

module _ {F E : Type 0} (env : Env F E) (role_map : RoleMap) where
  -- The source while its thread is in a phase: only the loop of `_run` may hold a handle.
  abbrev pub IsThread : Phase → PoseSource F → Type 0
  IsThread reading s = IsSource env role_map s
  IsThread recovering s = IsIdle env role_map s
  IsThread ended s = IsIdle env role_map s

  -- Behind a turn, before `finally`: a thread that is to end may hold a handle yet.
  abbrev IsTurn : Phase → PoseSource F → Type 0
  IsTurn reading s = IsSource env role_map s
  IsTurn recovering s = IsIdle env role_map s
  IsTurn ended s = IsSource env role_map s

  abbrev Turns : Result Error Phase × PoseSource F → Type 0
  Turns = After IsTurn (IsSource env role_map)

  -- Told of an error without a handle, the source goes on to recover.
  told-Turns :
      (e : PoseSourceError) (k : Method F Phase) (s : PoseSource F)
      → IsIdle env role_map s
      → ((s : PoseSource F) → IsIdle env role_map s → Turns (k s))
      → Turns ((tell env (reported e) >> k) s)
  told-Turns e k s h f =
      let told = tell env (reported e) s in
      bind-After (λ _. IsIdle env role_map) IsTurn (IsSource env role_map) (tell env (reported e))
        (λ _. k) s
        (After-weaken (λ _. IsIdle env role_map) (IsIdle env role_map) (IsSource env role_map)
          told.0 told.1 (λ h. h.0) (tell-IsIdle env role_map (reported e) s (refl, refl) tt h))
        (λ _ s h. f s h)

  recovered-Turns :
      (r : Result Error (Unit {0})) (s : PoseSource F)
      → After (λ _. IsSource env role_map) (IsIdle env role_map) (r, s)
      → Turns (recovered env role_map r s)
  recovered-Turns (ok _) s h = h
  recovered-Turns (err e) s h =
      told-Turns (reported_as env role_map e) (note waited >> pure recovering) s h
        (λ s (h, idle). (note-IsSource env role_map waited s (refl, refl) tt h, idle))

  recover-Turns :
      (b : Bool) (s : PoseSource F)
      → IsIdle env role_map s
      → Turns (recover_unless env role_map b s)
  recover-Turns true s h = h.0
  recover-Turns false s h =
      recovered-Turns (open_unique_handle env true s).0 (open_unique_handle env true s).1
        (open_unique_handle-Opens env role_map true s h)

  after_read-Turns :
      (o : Option (List ℕ)) (s : PoseSource F)
      → IsSource env role_map s
      → Turns (after_read env role_map o s)
  after_read-Turns none s h =
      let shut = close_current_handle env s in
      bind-After (λ _. IsIdle env role_map) IsTurn (IsSource env role_map)
        (close_current_handle env) (λ _. tell env (reported read_failure) >> pure recovering) s
        (After-weaken (λ _. IsIdle env role_map) (IsIdle env role_map) (IsSource env role_map)
          shut.0 shut.1 (λ h. h.0) (close_current_handle-IsIdle env role_map s h))
        (λ _ s h. told-Turns read_failure (pure recovering) s h (λ s h. h))
  after_read-Turns (some []) s h = h
  after_read-Turns (some (kind ∷ bytes)) s h =
      let times = env.clocks s.events in
      bind-After (λ _. IsSource env role_map) IsTurn (IsSource env role_map)
        (process_report env role_map (kind ∷ bytes) times.0 times.1) (λ _. pure reading)
        (record s { events = clocked ∷ s.events })
        (process_report-Keeps env role_map (kind ∷ bytes) times.0 times.1
          (record s { events = clocked ∷ s.events })
          (note-IsSource env role_map clocked s (refl, refl) tt h))
        (λ _ s h. h)

  read_held-Turns :
      (o : Option String) (s : PoseSource F)
      → s.handle ≡ o
      → IsSource env role_map s
      → Turns (read_held env role_map o s)
  read_held-Turns none s e h = (h, e)
  read_held-Turns (some path) s e h =
      after_read-Turns (env.read s.events) (record s { events = read ∷ s.events })
        (note-IsSource env role_map read s (refl, refl) tt h)

  run-Turns :
      (b : Bool) (s : PoseSource F) → IsSource env role_map s → Turns (run_unless env role_map b s)
  run-Turns true s h = h
  run-Turns false s h = read_held-Turns s.handle s refl h

  closed-IsIdle :
      (r : Result Error (Unit {0})) (s : PoseSource F)
      → After (λ _. IsIdle env role_map) (IsIdle env role_map) (r, s)
      → IsIdle env role_map s
  closed-IsIdle (ok _) s h = h
  closed-IsIdle (err e) s h = h

  finally-IsThread :
      (r : Result Error Phase) (s : PoseSource F)
      → Turns (r, s)
      → IsThread (finally env role_map (r, s)).0 (finally env role_map (r, s)).1
  finally-IsThread (ok reading) s h = h
  finally-IsThread (ok recovering) s h = h
  finally-IsThread (ok ended) s h =
      closed-IsIdle (close_current_handle env s).0 (close_current_handle env s).1
        (close_current_handle-IsIdle env role_map s h)
  finally-IsThread (err e) s h =
      closed-IsIdle (close_current_handle env s).0 (close_current_handle env s).1
        (close_current_handle-IsIdle env role_map s h)

  step-IsThread :
      (phase : Phase) (s : PoseSource F)
      → IsThread phase s
      → IsThread (step env role_map phase s).0 (step env role_map phase s).1
  unfolding step run_turn recover_read_only
  step-IsThread reading s h =
      let turn =
        run_unless env role_map (env.is_set s.events)
          (record s { events = asked_stop ∷ s.events }) in
      finally-IsThread turn.0 turn.1 (
        run-Turns (env.is_set s.events) (record s { events = asked_stop ∷ s.events })
          (note-IsSource env role_map asked_stop s (refl, refl) tt h))
  step-IsThread recovering s (h, idle) =
      let turn =
        recover_unless env role_map (env.is_set s.events)
          (record s { events = asked_stop ∷ s.events }) in
      finally-IsThread turn.0 turn.1 (
        recover-Turns (env.is_set s.events) (record s { events = asked_stop ∷ s.events })
          (note-IsSource env role_map asked_stop s (refl, refl) tt h, idle))
  step-IsThread ended s h = h

  pub steps-IsThread :
      (n : ℕ) (phase : Phase) (s : PoseSource F)
      → IsThread phase s
      → IsThread (steps env role_map n phase s).0 (steps env role_map n phase s).1
  unfolding steps
  steps-IsThread zero phase s h = h
  steps-IsThread (suc n) phase s h =
      let next = step env role_map phase s in
      steps-IsThread n next.0 next.1 (step-IsThread phase s h)
