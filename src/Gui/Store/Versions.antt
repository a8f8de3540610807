-- ===== src/Gui/Store/Versions.antt =====
-- Any publications to the store of snapshot_store.py.
use vision_tactile_dataset.Common.{
  ℕ, ◌≤◌, ◌<◌, ◌≡◌, refl, false, Option, none, some, List, [], ◌∷◌, ◌++◌, String, arith, Bool-cases,
  inl, inr,
}
use vision_tactile_dataset.Common.Int.{ℤ, pos, negsuc}
use vision_tactile_dataset.Tracker.Visualization.{fixed_roles, RoleSnapshot}
use vision_tactile_dataset.Tracker.Visualization.Shown.{roles_shown}
use vision_tactile_dataset.Gui.Store.{
  StoredSnapshot, DiagnosticEvent, LatestSnapshotStore, texts_eq, is_empty, new_store, publish,
  publish_diagnostic,
}
use vision_tactile_dataset.Gui.Store.Overall.{texts_eq→eq}

module _ {F : Type 0} where
  abbrev IsLatest : ℕ → Option (StoredSnapshot F) → Type 0
  IsLatest n none = n ≡ 0
  IsLatest n (some x) = (x.version ≡ n) × (0 < n) × (roles_shown x.roles ≡ fixed_roles)

abbrev IsLatestEvent : ℕ → Option DiagnosticEvent → Type 0
IsLatestEvent n none = n ≡ 0
IsLatestEvent n (some e) = (e.version ≡ n) × (0 < n) × (is_empty e.text ≡ false)

module _ {F : Type 0} where
  -- What the store holds carries the latest version, and there is nothing only at version 0; the roles
  -- of a snapshot are in their order, and an event has a text.
  unfoldable pub IsStore : LatestSnapshotStore F → Type 0
  IsStore s = IsLatest s.version s.latest × IsLatestEvent s.diagnostic_version s.latest_diagnostic

pub data Call (F : Type 0) : Type 0 where
  published : List (RoleSnapshot F) → Call F
  diagnosed : String → ℤ → Call F

module _ {F : Type 0} where
  unfoldable pub call : Call F → LatestSnapshotStore F → LatestSnapshotStore F
  call (published roles) s = (publish roles s).1
  call (diagnosed text monotonic_ns) s = (publish_diagnostic text monotonic_ns s).1

  unfoldable pub run : List (Call F) → LatestSnapshotStore F → LatestSnapshotStore F
  run [] s = s
  run (c ∷ cs) s = run cs (call c s)

  publish-IsStore :
      (roles : List (RoleSnapshot F)) (s : LatestSnapshotStore F)
      → IsStore s
      → IsStore (publish roles s).1 × (s.version ≤ (publish roles s).1.version)
  unfolding publish IsStore
  publish-IsStore roles s h = elim (Bool-cases (texts_eq (roles_shown roles) fixed_roles)) [
    | inl fits ↦
        let in_order = texts_eq→eq (roles_shown roles) fixed_roles fits in
        simp fits ((((refl, omega arith, in_order), h.1)), omega arith)
    | inr wrong ↦ simp wrong (h, omega arith)
  ]

  diagnose-IsStore :
      (text : String) (monotonic_ns : ℤ) (s : LatestSnapshotStore F)
      → IsStore s
      → IsStore (publish_diagnostic text monotonic_ns s).1
        × (s.version ≤ (publish_diagnostic text monotonic_ns s).1.version)
  unfolding publish_diagnostic IsStore
  diagnose-IsStore String.[] t s h = (h, omega arith)
  diagnose-IsStore (String.◌∷◌ c text) (negsuc n) s h = (h, omega arith)
  diagnose-IsStore (String.◌∷◌ c text) (pos n) s h = ((h.0, (refl, omega arith, refl)), omega arith)

  call-IsStore :
      (c : Call F) (s : LatestSnapshotStore F)
      → IsStore s
      → IsStore (call c s) × (s.version ≤ (call c s).version)
  unfolding call
  call-IsStore (published roles) s h = publish-IsStore roles s h
  call-IsStore (diagnosed text t) s h = diagnose-IsStore text t s h

  run-IsStore :
      (cs : List (Call F)) (s : LatestSnapshotStore F)
      → IsStore s
      → IsStore (run cs s) × (s.version ≤ (run cs s).version)
  unfolding run
  run-IsStore [] s h = (h, omega arith)
  run-IsStore (c ∷ cs) s h =
      let (kept, up) = call-IsStore c s h in
      let (kept', up') = run-IsStore cs (call c s) kept in (kept', omega (arith, up, up'))

  run_append :
      (cs ds : List (Call F)) (s : LatestSnapshotStore F) → run (cs ++ ds) s ≡ run ds (run cs s)
  unfolding run
  run_append [] ds s = refl
  run_append (c ∷ cs) ds s = run_append cs ds (call c s)

  new_store-IsStore : (s : LatestSnapshotStore F) → s ≡ new_store → IsStore s
  unfolding IsStore
  new_store-IsStore s e = simp e (refl, refl)

  -- Over any publications to a new store: what it holds carries the latest version, there is nothing
  -- only at version 0, a snapshot has the three roles in their order, an event has a text, and the
  -- version of the snapshot never falls when more calls follow.
  pub run-IsStore_new :
      (cs ds : List (Call F))
      → IsStore (run cs new_store)
        × ((run cs new_store).version ≤ (run (cs ++ ds) new_store).version)
  run-IsStore_new cs ds =
      let (first, up) = run-IsStore cs new_store (new_store-IsStore new_store refl) in
      let (both, up') = run-IsStore ds (run cs new_store) first in
      (first, rw (run_append cs ds new_store) up')
