-- ===== src/Tracker/PoseSource/Start.antt =====
-- `start` and `stop` of `ReadOnlyPoseSource` in pose_source.py.
use vision_tactile_dataset.Common.{
  ℕ, Bool, true, false, not, ◌&&◌, ◌||◌, Option, none, some, List, [], ◌∷◌, String, ◌==◌, length,
}
use vision_tactile_dataset.Common.Dict.{keys}
use vision_tactile_dataset.Common.Monad.{pure, raise, modify, ◌>>=◌, ◌>>◌, raise_if}
use vision_tactile_dataset.Tracker.Roles.{RoleMap, all_texts, is_among, count_distinct}
use vision_tactile_dataset.Tracker.PoseSource.{
  identity_mismatch, bundle_loaded, runtime_loaded, backend_made, event_cleared, event_set,
  thread_started, thread_joined, Env, source, already_started, other, Method, note, ask,
  open_unique_handle, close_current_handle,
}
use vision_tactile_dataset.Tracker.PoseSource.Reader.{tracker_id}

module _ {F E : Type 0} (env : Env F E) (role_map : RoleMap) where
  -- The ids of the bundle's addresses; a bad address raises.
  abbrev pub and_id : Option String → Option (List String) → Option (List String)
  and_id none ids = none
  and_id (some s) none = none
  and_id (some s) (some ids) = some (s ∷ ids)

  abbrev pub ids_of : List (List ℕ) → Option (List String)
  ids_of [] = some []
  ids_of (a ∷ addresses) = and_id (tracker_id env role_map a) (ids_of addresses)

  -- `len(observed) != 3 or observed != expected`
  abbrev pub disagrees : List String → List String → Bool
  disagrees observed expected =
      not (count_distinct observed == 3)
      || not (
          all_texts (λ s. is_among s expected) observed
          && all_texts (λ s. is_among s observed) expected)

  abbrev pub check_ids : Option (List String) → Method F (Unit {0})
  check_ids none = raise other
  check_ids (some observed) =
      raise_if (disagrees observed (keys role_map.by_tracker_id))
        (source (identity_mismatch "bundle and role map disagree" none))

  abbrev pub verify_bundle : Option (List (List ℕ)) → Method F (Unit {0})
  verify_bundle none = raise other
  verify_bundle (some addresses) = do
    raise_if (not (length addresses == 3))
        (source (identity_mismatch "bundle address set is invalid" none))
    check_ids (ids_of addresses)

  unfoldable pub load_and_verify_bundle : Method F (Unit {0})
  load_and_verify_bundle = do loaded ← ask bundle_loaded env.tracker_addresses; verify_bundle loaded

  -- What follows the start of the thread.
  abbrev pub begun : Bool → Method F (Unit {0})
  begun true = pure tt
  begun false = do close_current_handle env; modify (λ s. record s { started = false }); raise other

  abbrev pub launch : Method F (Unit {0})
  launch = do
    note event_cleared
    modify (λ s. record s { started = true; has_thread = true })
    fine ← ask thread_started env.thread_start
    begun fine

  -- What follows `self._backend_factory()` and `_load_runtime`, each of which may raise.
  abbrev pub with_backend : Bool → Method F (Unit {0})
  with_backend false = raise other
  with_backend true = do open_unique_handle env false; launch

  abbrev pub with_runtime : Bool → Method F (Unit {0})
  with_runtime false = raise other
  with_runtime true = do backend ← ask backend_made env.make_backend; with_backend backend

  abbrev pub load_runtime : Method F (Unit {0})
  load_runtime = do runtime ← ask runtime_loaded env.load_runtime; with_runtime runtime

  abbrev pub start_unless : Bool → Method F (Unit {0})
  start_unless true = raise already_started
  start_unless false = do load_and_verify_bundle; load_runtime

  unfoldable pub start : Method F (Unit {0})
  start s = start_unless s.started s

  -- What follows the join of the thread: it may raise, or find the thread alive.
  abbrev pub joined : Option Bool → Method F (Unit {0})
  joined none = raise other
  joined (some true) = raise other
  joined (some false) = modify (λ s. record s { has_thread = false })

  abbrev pub stop_thread : Bool → Method F (Unit {0})
  stop_thread false = pure tt
  stop_thread true = do note event_set; alive ← ask thread_joined env.thread_join; joined alive

  unfoldable pub stop : Method F (Unit {0})
  stop s = stop_thread s.has_thread s
