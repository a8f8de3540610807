-- ===== src/Tracker/Visualization/Shown.antt =====
-- What a snapshot of visualization_model.py shows.
use vision_tactile_dataset.Common.{
  ℕ, ◌+◌, ◌-◌, ◌≤◌, ◌<◌, ◌≡◌, ◌⊎◌, refl, ap, ◌∙◌, false, Option, none, some, List, [], ◌∷◌, ◌++◌,
  String, arith, ltb, ◌==◌, length, map, All, All-map, Bool-cases, inl, inr,
}
use vision_tactile_dataset.Common.Int.{ℤ, pos}
use vision_tactile_dataset.Common.Dict.{Dict, keys, AllValues}
use vision_tactile_dataset.Common.Monad.{ok}
use vision_tactile_dataset.Tracker.Visualization.{
  fixed_roles, fresh_ns, offline_ns, trail_ns, rate_ns, VisualHealth, fresh, delayed, offline,
  StatusValue, TimedPose, RoleState, RoleSnapshot, TrackerVisualizationModel,
}
use vision_tactile_dataset.Tracker.Visualization.Snapshots.{
  health, health_by, health_of_age, is_disconnected, prune, prune_trail, prune_times, prune_all,
  snapshots_of, snapshots, pose_of, role_snapshot,
}
use vision_tactile_dataset.Tracker.Visualization.Window.{
  Sorted, arrivals, prune_trail-splits, prune_times-splits,
}
use vision_tactile_dataset.Tracker.Visualization.Invariant.{IsKnownStatus, IsUpTo, IsRole, IsModel}

module _ {F : Type 0} where
  -- What each health stands for: the last pose is at most 250 ms old, and the status says TRACKING; or
  -- it is at most a second old, the status does not say DISCONNECTED, and one of the former fails; or
  -- there is no pose, or it is older than a second, or the status says DISCONNECTED.
  unfoldable pub Shows : RoleState F → ℕ → VisualHealth → Type 0
  Shows state now_ns fresh =
      (p : TimedPose F) × (s : StatusValue) × (state.last_pose ≡ some p)
      × (state.status ≡ some s)
      × (now_ns ≤ p.arrival_ns + 250_000_000)
      × (s.state ≡ 2)
  Shows state now_ns delayed =
      (p : TimedPose F) × (state.last_pose ≡ some p)
      × (now_ns ≤ p.arrival_ns + 1_000_000_000)
      × (is_disconnected state.status ≡ false)
      × ((p.arrival_ns + 250_000_000 < now_ns)
          ⊎ ((state.status ≡ none)
              ⊎ ((s : StatusValue) × (state.status ≡ some s) × ((s.state ≡ 1) ⊎ (s.state ≡ 3)))))
  Shows state now_ns offline =
      (state.last_pose ≡ none)
      ⊎ (((p : TimedPose F) × (state.last_pose ≡ some p) × (p.arrival_ns + 1_000_000_000 < now_ns))
          ⊎ ((s : StatusValue) × (state.status ≡ some s) × (s.state ≡ 0)))

  shown_without :
      (now_ns : ℕ) (state : RoleState F) (p : TimedPose F)
      → state.last_pose ≡ some p
      → state.status ≡ none
      → Shows state now_ns (health_of_age (now_ns - p.arrival_ns) none)
  unfolding Shows
  shown_without now_ns state p e n = elim (Bool-cases (ltb offline_ns (now_ns - p.arrival_ns))) [
    | inl old ↦ simp old (inr (inl (p, e, ground arith)))
    | inr recent ↦
        let none_known : is_disconnected state.status ≡ false = rw n in
        elim (Bool-cases (ltb fresh_ns (now_ns - p.arrival_ns))) [
          | inl late ↦ simp (recent, late) (p, e, ground arith, none_known, inr (inl n))
          | inr early ↦ simp (recent, early) (p, e, ground arith, none_known, inr (inl n))
        ]
  ]

  shown_with :
      (now_ns : ℕ) (state : RoleState F) (p : TimedPose F) (s : StatusValue)
      → state.last_pose ≡ some p
      → state.status ≡ some s
      → s.state ≤ 3
      → Shows state now_ns (health_of_age (now_ns - p.arrival_ns) (some s))
  unfolding Shows
  shown_with now_ns state p s e q k = elim (Bool-cases (ltb offline_ns (now_ns - p.arrival_ns))) [
    | inl old ↦ simp old (inr (inl (p, e, ground arith)))
    | inr recent ↦ elim (Bool-cases (s.state == 0)) [
      | inl gone ↦ simp (recent, gone) (inr (inr (s, q, ground arith)))
      | inr there ↦
          let connected : is_disconnected state.status ≡ false = rw q there in
          elim (Bool-cases (ltb fresh_ns (now_ns - p.arrival_ns))) [
            | inl late ↦
                simp (recent, there, late) (p, e, ground arith, connected, inl (ground arith))
            | inr early ↦ elim (Bool-cases (s.state == 1)) [
              | inl idle ↦
                  simp (recent, there, early, idle)
                    (p, e, ground arith, connected, inr (inr (s, q, inl (ground arith))))
              | inr busy ↦ elim (Bool-cases (s.state == 3)) [
                | inl bad ↦
                    simp (recent, there, early, busy, bad)
                      (p, e, ground arith, connected, inr (inr (s, q, inr (ground arith))))
                | inr good ↦
                    simp (recent, there, early, busy, good) (p, s, e, q, ground arith, ground arith)
              ]
            ]
          ]
    ]
  ]

  shown_by :
      (now_ns : ℕ) (state : RoleState F) (last : Option (TimedPose F)) (status : Option StatusValue)
      → state.last_pose ≡ last
      → state.status ≡ status
      → IsKnownStatus status
      → Shows state now_ns (health_by last status now_ns)
  unfolding Shows
  shown_by now_ns state none status e q k = inl e
  shown_by now_ns state (some p) none e q k = shown_without now_ns state p e q
  shown_by now_ns state (some p) (some s) e q k = shown_with now_ns state p s e q k

  -- For a role of the invariant, `_health` says what it stands for.
  pub health-Shows :
      (max now_ns : ℕ) (state : RoleState F)
      → IsRole max state
      → Shows state now_ns (health state now_ns)
  unfolding health IsRole
  health-Shows max now_ns state h = shown_by now_ns state state.last_pose state.status refl refl h.2

  -- A snapshot of a role at a time: its health as above, the status, and of the trail and of the times
  -- of arrival those of the last three seconds and of the last second, the others being older.
  abbrev pub IsShown : ℕ → String → RoleState F → RoleSnapshot F → Type 0
  IsShown now_ns role state x =
      (old kept : List (TimedPose F)) × (before since : List ℕ) × (x.role ≡ role)
      × Shows state now_ns x.health
      × (x.status ≡ state.status)
      × (state.trail ≡ old ++ kept)
      × All (λ p. p.arrival_ns + 3_000_000_000 < now_ns) old
      × All (λ p. now_ns ≤ p.arrival_ns + 3_000_000_000) kept
      × (x.trail ≡ map pose_of kept)
      × (state.rate_times ≡ before ++ since)
      × All (λ t. t + 1_000_000_000 < now_ns) before
      × All (λ t. now_ns ≤ t + 1_000_000_000) since
      × (x.receive_rate_hz ≡ length since)

  abbrev pub AreShown : ℕ → Dict (RoleState F) → List (RoleSnapshot F) → Type 0
  AreShown now_ns [] [] = Unit
  AreShown now_ns [] (x ∷ xs) = ⊥
  AreShown now_ns (e ∷ d) [] = ⊥
  AreShown now_ns ((role, state) ∷ d) (x ∷ xs) = IsShown now_ns role state x × AreShown now_ns d xs

  IsUpTo-Sorted :
      (max : ℕ) (last : Option (TimedPose F)) (ts : List ℕ) → IsUpTo max last ts → Sorted ts
  IsUpTo-Sorted max none ts h = rw h tt
  IsUpTo-Sorted max (some p) ts h = h.0

  role_snapshot-IsShown :
      (max now_ns : ℕ) (role : String) (state : RoleState F)
      → IsRole max state
      → IsShown now_ns role state (role_snapshot role (prune state now_ns) now_ns)
  unfolding IsRole prune health Shows
  role_snapshot-IsShown max now_ns role state h =
      let c = now_ns - trail_ns in
      let d = now_ns - rate_ns in
      let (old, e, older, newer) =
        prune_trail-splits c state.trail
          (IsUpTo-Sorted max state.last_pose (arrivals state.trail) h.0) in
      let (before, e', older', newer') =
        prune_times-splits d state.rate_times
          (IsUpTo-Sorted max state.last_pose state.rate_times h.1) in
      (
        old,
        prune_trail c state.trail,
        before,
        prune_times d state.rate_times,
        refl,
        health-Shows max now_ns state h,
        refl,
        e,
        All-map (λ (p : TimedPose F). p.arrival_ns < c) _ old (λ p k. omega arith) older,
        All-map (λ (p : TimedPose F). c ≤ p.arrival_ns) _ (prune_trail c state.trail)
            (λ p k. omega arith) newer,
        refl,
        e',
        All-map (λ (t : ℕ). t < d) _ before (λ t k. omega arith) older',
        All-map (λ (t : ℕ). d ≤ t) _ (prune_times d state.rate_times) (λ t k. omega arith) newer',
        omega arith,
      )

  snapshots_of-AreShown :
      (max now_ns : ℕ) (d : Dict (RoleState F))
      → AllValues (IsRole max) d
      → AreShown now_ns d (snapshots_of (prune_all now_ns d) now_ns)
  snapshots_of-AreShown max now_ns [] h = tt
  snapshots_of-AreShown max now_ns ((role, state) ∷ d) h =
      (role_snapshot-IsShown max now_ns role state h.0, snapshots_of-AreShown max now_ns d h.1)

  abbrev pub roles_shown : List (RoleSnapshot F) → List String
  roles_shown [] = []
  roles_shown (x ∷ xs) = x.role ∷ roles_shown xs

  roles_shown-keys :
      (now_ns : ℕ) (d : Dict (RoleState F))
      → roles_shown (snapshots_of (prune_all now_ns d) now_ns) ≡ keys d
  roles_shown-keys now_ns [] = refl
  roles_shown-keys now_ns ((role, state) ∷ d) = ap (λ ks. role ∷ ks) (roles_shown-keys now_ns d)

  -- In a model of the invariant, a snapshot at a time that is not negative returns: one of each role, in
  -- the fixed order, with the health and the status of the role, and with just the poses of the last
  -- three seconds and the arrivals of the last second.
  pub snapshots-AreShown :
      (now_ns : ℕ) (clock : ℤ) (m : TrackerVisualizationModel F)
      → IsModel m
      → (xs : List (RoleSnapshot F)) × ((snapshots (some (pos now_ns)) clock m).0 ≡ ok xs)
        × (roles_shown xs ≡ fixed_roles)
        × AreShown now_ns m.states xs
  unfolding snapshots IsModel
  snapshots-AreShown now_ns clock m (room, names, all) = (
    snapshots_of (prune_all now_ns m.states) now_ns,
    refl,
    roles_shown-keys now_ns m.states ∙ names,
    snapshots_of-AreShown m.max_trail_points now_ns m.states all,
  )
