-- ===== src/Tracker/PoseSource/Invariant.antt =====
-- What the events of a source in pose_source.py and its handle say of each other.
use vision_tactile_dataset.Common.{
  ℕ, ◌+◌, ◌≡◌, refl, ap, Bool, true, false, not, Option, none, some, List, [], ◌∷◌, String, arith,
  if◌then◌else◌, All,
}
use vision_tactile_dataset.Common.Monad.{pure, raise_if}
use vision_tactile_dataset.Tracker.Samples.{is_sample}
use vision_tactile_dataset.Tracker.Roles.{RoleMap, role_for_tracker_id}
use vision_tactile_dataset.Tracker.PoseSource.{
  IdentityKey, Event, closed, stored, delivered, invalid, reported, read_failure, Env, other,
  PoseSource, ask, tell, close_held, close_current_handle,
}
use vision_tactile_dataset.Tracker.PoseSource.Rules.{After, bind-After, raise_if-After}

abbrev pub held : Option String → ℕ
held none = 0
held (some path) = 1

module _ {F : Type 0} where
  abbrev pub stores : Event F → ℕ
  stores (stored k) = 1
  stores _ = 0

  abbrev pub closes : Event F → ℕ
  closes closed = 1
  closes _ = 0

  -- How many handles the source has stored, and how many it has closed.
  abbrev pub stored_count : List (Event F) → ℕ
  stored_count [] = 0
  stored_count (e ∷ es) = stores e + stored_count es

  abbrev pub closed_count : List (Event F) → ℕ
  closed_count [] = 0
  closed_count (e ∷ es) = closes e + closed_count es

module _ {F E : Type 0} (env : Env F E) (role_map : RoleMap) where
  -- An event fits: a handle is of the device whose key the source knows, a sample is well formed and has
  -- the role that the map gives its tracker, and so has a report of an invalid pose.
  abbrev pub Fits : Option IdentityKey → Event F → Type 0
  Fits key (stored k) = key ≡ some k
  Fits key (delivered sample) =
      (role_for_tracker_id role_map sample.tracker_id ≡ some sample.role)
      × (is_sample env.is_finite sample ≡ true)
  Fits key (invalid role value time) = role_for_tracker_id role_map value ≡ some role
  Fits key _ = Unit

  unfoldable pub IsSource : PoseSource F → Type 0
  IsSource s =
      (stored_count s.events ≡ closed_count s.events + held s.handle)
      × All (Fits s.identity_key) s.events

  abbrev pub IsIdle : PoseSource F → Type 0
  IsIdle s = IsSource s × (s.handle ≡ none)

  -- An event that stores and closes nothing.
  abbrev pub IsPlain : Event F → Type 0
  IsPlain e = (stores e ≡ 0) × (closes e ≡ 0)

  pub note-IsSource :
      (e : Event F) (s : PoseSource F)
      → IsPlain e
      → Fits s.identity_key e
      → IsSource s
      → IsSource (record s { events = e ∷ s.events })
  unfolding IsSource
  note-IsSource e s (p, q) f (balance, fits) = (omega (arith, p, q, balance), (f, fits))

  -- A predicate on the source that an event of no effect keeps.
  ask-IsSource :
      {A : Type 0} (e : Event F) (answer : List (Event F) → A) (s : PoseSource F)
      → IsPlain e
      → Fits s.identity_key e
      → IsSource s
      → After (λ (_ : A). IsSource) IsSource (ask e answer s)
  ask-IsSource e answer s p f h = note-IsSource e s p f h

  ask-IsIdle :
      {A : Type 0} (e : Event F) (answer : List (Event F) → A) (s : PoseSource F)
      → IsPlain e
      → Fits s.identity_key e
      → IsIdle s
      → After (λ (_ : A). IsIdle) IsIdle (ask e answer s)
  ask-IsIdle e answer s p f (h, i) = (note-IsSource e s p f h, i)

  pub tell-IsSource :
      (e : Event F) (s : PoseSource F)
      → IsPlain e
      → Fits s.identity_key e
      → IsSource s
      → After (λ _. IsSource) IsSource (tell env e s)
  tell-IsSource e s p f h =
      bind-After (λ _. IsSource) (λ _. IsSource) IsSource (ask e env.callback)
        (λ fine. raise_if (not fine) other) s (ask-IsSource e env.callback s p f h)
        (λ fine s h. raise_if-After IsSource IsSource (not fine) other s h h)

  pub tell-IsIdle :
      (e : Event F) (s : PoseSource F)
      → IsPlain e
      → Fits s.identity_key e
      → IsIdle s
      → After (λ _. IsIdle) IsIdle (tell env e s)
  tell-IsIdle e s p f h =
      bind-After (λ _. IsIdle) (λ _. IsIdle) IsIdle (ask e env.callback)
        (λ fine. raise_if (not fine) other) s (ask-IsIdle e env.callback s p f h)
        (λ fine s h. raise_if-After IsIdle IsIdle (not fine) other s h h)

  -- Closing gives the handle up, also where it raises.
  close_held-IsIdle :
      (o : Option String) (s : PoseSource F)
      → s.handle ≡ o
      → IsSource s
      → After (λ _. IsIdle) IsIdle (close_held env o s)
  unfolding IsSource
  close_held-IsIdle none s e h = (h, e)
  close_held-IsIdle (some path) s e (balance, fits) =
      bind-After (λ (fine : Bool). IsIdle) (λ _. IsIdle) IsIdle (ask closed env.close)
        (λ fine. if fine then pure tt else tell env (reported read_failure))
        (record s { handle = none }) ((omega (arith, balance, ap held e), (tt, fits)), refl)
        (λ fine s h.
          elim fine
            as (λ b.
              After (λ _. IsIdle) IsIdle
                ((if b then pure tt else tell env (reported read_failure)) s)) [
                  | true ↦ h
                  | false ↦ tell-IsIdle (reported read_failure) s (refl, refl) tt h
                ])

  pub close_current_handle-IsIdle :
      (s : PoseSource F) → IsSource s → After (λ _. IsIdle) IsIdle (close_current_handle env s)
  unfolding close_current_handle
  close_current_handle-IsIdle s h = close_held-IsIdle s.handle s refl h
