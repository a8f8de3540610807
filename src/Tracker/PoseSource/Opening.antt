-- ===== src/Tracker/PoseSource/Opening.antt =====
-- What `_open_unique_handle` of pose_source.py does: for the first device, and for a replacement.
use vision_tactile_dataset.Common.{
  ◌≡◌, refl, sym, ap, Bool, true, false, Option, none, some, List, [], ◌∷◌, arith, ◌==◌, All,
  Bool-cases, inl, inr,
}
use mathlib.Core.Path.{subst}
use text.Mathlib.TextEquality.{eq_iff}
use vision_tactile_dataset.Common.Monad.{Result}
use vision_tactile_dataset.Tracker.Roles.{RoleMap}
use vision_tactile_dataset.Tracker.PoseSource.{
  IdentityKey, serial, path_hash, Identity, Probe, Event, bundle_loaded, runtime_loaded,
  backend_made, event_cleared, event_set, thread_started, thread_joined, probed, viewed, closed,
  read, clocked, waited, opened, stored, asked_stop, delivered, invalid, reported, Env, Error,
  PoseSource, key_eq, is_other_key, identity_key_for, identified, check_key, store_handle,
  view_opened, path_opened, acquire, open_identified, open_probed, open_unique_handle,
}
use vision_tactile_dataset.Tracker.PoseSource.Rules.{After, bind-After}
use vision_tactile_dataset.Tracker.PoseSource.Invariant.{
  held, Fits, IsSource, IsIdle, IsPlain, note-IsSource,
}

key_eq-same : (a b : IdentityKey) → key_eq a b ≡ true → a ≡ b
key_eq-same (serial a) (serial b) h = ap (λ t. serial t) (ground (arith, eq_iff a b))
key_eq-same (serial a) (path_hash b) h = absurd (ground arith)
key_eq-same (path_hash a) (serial b) h = absurd (ground arith)
key_eq-same (path_hash a) (path_hash b) h = ap (λ t. path_hash t) (ground (arith, eq_iff a b))

known_key : (key : IdentityKey) (o : Option IdentityKey) → is_other_key key o ≡ false → o ≡ some key
known_key key none h = absurd (ground arith)
known_key key (some k) h = ap (λ t. some t) (sym (key_eq-same key k (ground arith)))

module _ {F E : Type 0} (env : Env F E) (role_map : RoleMap) where
  -- Idle, with the key of the device that is being opened.
  abbrev IsKnown : IdentityKey → PoseSource F → Type 0
  IsKnown key s = IsIdle env role_map s × (s.identity_key ≡ some key)

  Fits-any :
      (key : Option IdentityKey) (e : Event F) → Fits env role_map none e → Fits env role_map key e
  Fits-any key (stored k) h = absurd (ground arith)
  Fits-any key bundle_loaded h = h
  Fits-any key runtime_loaded h = h
  Fits-any key backend_made h = h
  Fits-any key event_cleared h = h
  Fits-any key event_set h = h
  Fits-any key thread_started h = h
  Fits-any key thread_joined h = h
  Fits-any key probed h = h
  Fits-any key viewed h = h
  Fits-any key closed h = h
  Fits-any key read h = h
  Fits-any key clocked h = h
  Fits-any key waited h = h
  Fits-any key (opened p) h = h
  Fits-any key asked_stop h = h
  Fits-any key (delivered x) h = h
  Fits-any key (invalid r v t) h = h
  Fits-any key (reported e) h = h

  All-Fits :
      (key : Option IdentityKey) (es : List (Event F))
      → All (Fits env role_map none) es
      → All (Fits env role_map key) es
  All-Fits key [] h = tt
  All-Fits key (e ∷ es) h = (Fits-any key e h.0, All-Fits key es h.1)

  -- The key of a replacement is the known one; that of the first device becomes it.
  abbrev pub IsReady : Bool → PoseSource F → Type 0
  IsReady true s = IsIdle env role_map s
  IsReady false s = IsIdle env role_map s × (s.identity_key ≡ none)

  check_key-IsKnown :
      (replacement : Bool) (key : IdentityKey) (s : PoseSource F)
      → IsReady replacement s
      → After (λ _. IsKnown key) (IsIdle env role_map) (check_key env replacement key s)
  unfolding IsSource
  check_key-IsKnown true key s h = elim (Bool-cases (is_other_key key s.identity_key)) [
    | inl differs ↦ rw differs h
    | inr same ↦ rw same (h, known_key key s.identity_key same)
  ]
  check_key-IsKnown false key s (((balance, fits), idle), first) =
      let start : All (Fits env role_map none) s.events =
        subst (λ k. All (Fits env role_map k) s.events) first fits in
      (((balance, All-Fits (some key) s.events start), idle), refl)

  store_handle-IsSource :
      (identity : Identity) (s : PoseSource F)
      → IsKnown (identity_key_for identity) s
      → IsSource env role_map (store_handle env identity s).1
  unfolding IsSource
  store_handle-IsSource identity s (((balance, fits), idle), key) =
      (omega (arith, balance, ap held idle), (key, fits))

  abbrev Opens : Result Error (Unit {0}) × PoseSource F → Type 0
  Opens = After (λ _. IsSource env role_map) (IsIdle env role_map)

  plain-IsKnown :
      (key : IdentityKey) (e : Event F) (s : PoseSource F)
      → IsPlain env role_map e
      → Fits env role_map s.identity_key e
      → IsKnown key s
      → IsKnown key (record s { events = e ∷ s.events })
  plain-IsKnown key e s p f ((h, idle), k) = ((note-IsSource env role_map e s p f h, idle), k)

  view_opened-Opens :
      (identity : Identity) (b : Bool) (s : PoseSource F)
      → IsKnown (identity_key_for identity) s
      → Opens (view_opened env identity b s)
  view_opened-Opens identity false s h = h.0
  view_opened-Opens identity true s h = store_handle-IsSource identity s h

  path_opened-Opens :
      (identity : Identity) (b : Bool) (s : PoseSource F)
      → IsKnown (identity_key_for identity) s
      → Opens (path_opened env identity b s)
  path_opened-Opens identity false s h = h.0
  path_opened-Opens identity true s h =
      view_opened-Opens identity (env.read_only_view s.events)
        (record s { events = viewed ∷ s.events })
        (plain-IsKnown (identity_key_for identity) viewed s (refl, refl) tt h)

  acquire-Opens :
      (identity : Identity) (s : PoseSource F)
      → IsKnown (identity_key_for identity) s
      → Opens (acquire env identity s)
  acquire-Opens identity s h =
      let e = opened identity.path in
      path_opened-Opens identity (env.open_path s.events) (record s { events = e ∷ s.events })
        (plain-IsKnown (identity_key_for identity) e s (refl, refl) tt h)

  open_identified-Opens :
      (replacement : Bool) (identity : Identity) (s : PoseSource F)
      → IsReady replacement s
      → Opens (open_identified env replacement identity s)
  open_identified-Opens replacement identity s h =
      bind-After (λ _. IsKnown (identity_key_for identity)) (λ _. IsSource env role_map)
        (IsIdle env role_map) (check_key env replacement (identity_key_for identity))
        (λ _. acquire env identity) s
        (check_key-IsKnown replacement (identity_key_for identity) s h)
        (λ _ s h. acquire-Opens identity s h)

  ready-IsIdle :
      (replacement : Bool) (s : PoseSource F) → IsReady replacement s → IsIdle env role_map s
  ready-IsIdle true s h = h
  ready-IsIdle false s h = h.0

  identified-IsReady :
      (replacement : Bool) (p : Probe) (o : Option Identity) (s : PoseSource F)
      → IsReady replacement s
      → After (λ _. IsReady replacement) (IsIdle env role_map) (identified env p o s)
  identified-IsReady replacement p none s h = ready-IsIdle replacement s h
  identified-IsReady replacement p (some identity) s h =
      elim (Bool-cases (p.exact_match_count == 1)) [
        | inl one ↦ rw one h
        | inr several ↦ rw several (ready-IsIdle replacement s h)
      ]

  open_probed-Opens :
      (replacement : Bool) (o : Option Probe) (s : PoseSource F)
      → IsReady replacement s
      → Opens (open_probed env replacement o s)
  open_probed-Opens replacement none s h = ready-IsIdle replacement s h
  open_probed-Opens replacement (some p) s h =
      bind-After (λ _. IsReady replacement) (λ _. IsSource env role_map) (IsIdle env role_map)
        (identified env p p.identity) (open_identified env replacement) s
        (identified-IsReady replacement p p.identity s h)
        (λ identity s h. open_identified-Opens replacement identity s h)

  pub plain-IsReady :
      (replacement : Bool) (e : Event F) (s : PoseSource F)
      → IsPlain env role_map e
      → Fits env role_map s.identity_key e
      → IsReady replacement s
      → IsReady replacement (record s { events = e ∷ s.events })
  plain-IsReady true e s p f (h, idle) = (note-IsSource env role_map e s p f h, idle)
  plain-IsReady false e s p f ((h, idle), k) = ((note-IsSource env role_map e s p f h, idle), k)

  -- A source that holds no handle holds one that fits behind a return, and none behind a raise.
  pub open_unique_handle-Opens :
      (replacement : Bool) (s : PoseSource F)
      → IsReady replacement s
      → After
          (λ _. IsSource env role_map)
          (IsIdle env role_map)
          (open_unique_handle env replacement s)
  unfolding open_unique_handle
  open_unique_handle-Opens replacement s h =
      open_probed-Opens replacement (env.probe_dongle s.events)
        (record s { events = probed ∷ s.events })
        (plain-IsReady replacement probed s (refl, refl) tt h)
