-- ===== src/Gui/Store/Overall.antt =====
-- The overall state of the GUI, and what reaches it from the trackers' model.
use vision_tactile_dataset.Common.{
  ℕ, ◌+◌, ◌≡◌, ◌↔◌, refl, Bool, true, some, List, [], ◌∷◌, String, arith, All, Bool-cases, inl, inr,
}
use vision_tactile_dataset.Common.Int.{ℤ, pos}
use vision_tactile_dataset.Common.Monad.{ok}
use vision_tactile_dataset.Tracker.Visualization.{
  fixed_roles, VisualHealth, fresh, delayed, offline, RoleSnapshot, TrackerVisualizationModel,
}
use vision_tactile_dataset.Tracker.Visualization.Snapshots.{snapshots}
use vision_tactile_dataset.Tracker.Visualization.Invariant.{IsModel}
use vision_tactile_dataset.Tracker.Visualization.Shown.{roles_shown, snapshots-AreShown}
use vision_tactile_dataset.Gui.Store.{
  LatestSnapshotStore, texts_eq, publish, OverallState, live, degraded, disconnected, is_fresh,
  is_offline, all_health, overall_state,
}
use text.Mathlib.TextEquality.{eq_iff}

pub texts_eq_refl : (ts : List String) → texts_eq ts ts ≡ true
texts_eq_refl [] = refl
texts_eq_refl (t ∷ ts) = ground (arith, eq_iff t t, texts_eq_refl ts)

pub texts_eq→eq : (ss ts : List String) → texts_eq ss ts ≡ true → ss ≡ ts
texts_eq→eq [] [] h = refl
texts_eq→eq [] (t ∷ ts) h = absurd (ground arith)
texts_eq→eq (s ∷ ss) [] h = absurd (ground arith)
texts_eq→eq (s ∷ ss) (t ∷ ts) h = ground (arith, eq_iff s t, texts_eq→eq ss ts)

module _ {F : Type 0} where
  abbrev pub AllAre : VisualHealth → List (RoleSnapshot F) → Type 0
  AllAre v = All (λ x. x.health ≡ v)

  -- What an overall state stands for.
  unfoldable pub Means : List (RoleSnapshot F) → OverallState → Type 0
  Means xs live = AllAre fresh xs
  Means xs disconnected = AllAre offline xs
  Means xs degraded = ¬ AllAre fresh xs × ¬ AllAre offline xs

  all_health-AllAre :
      (test : VisualHealth → Bool) (v : VisualHealth) (xs : List (RoleSnapshot F))
      → ((h : VisualHealth) → (test h ≡ true) ↔ (h ≡ v))
      → (all_health test xs ≡ true) ↔ AllAre v xs
  all_health-AllAre test v [] meaning = (λ h. tt, λ h. refl)
  all_health-AllAre test v (x ∷ xs) meaning =
      let rest = all_health-AllAre test v xs meaning in
      let first = meaning x.health in
      (
        λ h.
            let here : test x.health ≡ true = ground arith in
            let there : all_health test xs ≡ true = ground arith in (first.0 here, rest.0 there),
        λ h. rw (first.1 h.0, rest.1 h.1),
      )

is_fresh_iff : (h : VisualHealth) → (is_fresh h ≡ true) ↔ (h ≡ fresh)
is_fresh_iff fresh = (λ h. refl, λ h. refl)
is_fresh_iff delayed = (λ h. absurd (ground arith), λ h. absurd (ground arith))
is_fresh_iff offline = (λ h. absurd (ground arith), λ h. absurd (ground arith))

is_offline_iff : (h : VisualHealth) → (is_offline h ≡ true) ↔ (h ≡ offline)
is_offline_iff fresh = (λ h. absurd (ground arith), λ h. absurd (ground arith))
is_offline_iff delayed = (λ h. absurd (ground arith), λ h. absurd (ground arith))
is_offline_iff offline = (λ h. refl, λ h. refl)

module _ {F : Type 0} where
  -- Snapshots of the three roles in their order have an overall state: LIVE where all are fresh,
  -- DISCONNECTED where all are offline, and DEGRADED where neither is so.
  pub overall_state-Means :
      (xs : List (RoleSnapshot F))
      → roles_shown xs ≡ fixed_roles
      → (o : OverallState) × (overall_state xs ≡ ok o) × Means xs o
  unfolding overall_state Means
  overall_state-Means xs names =
      let in_order : texts_eq (roles_shown xs) fixed_roles ≡ true = rw names refl in
      let all_fresh = all_health-AllAre is_fresh fresh xs is_fresh_iff in
      let all_offline = all_health-AllAre is_offline offline xs is_offline_iff in
      elim (Bool-cases (all_health is_fresh xs)) [
        | inl yes_fresh ↦ (live, simp (in_order, yes_fresh) refl, all_fresh.0 yes_fresh)
        | inr no_fresh ↦ elim (Bool-cases (all_health is_offline xs)) [
          | inl yes_offline ↦
              (disconnected, simp (in_order, no_fresh, yes_offline) refl, all_offline.0 yes_offline)
          | inr no_offline ↦ (
            degraded,
            simp (in_order, no_fresh, no_offline) refl,
            (λ h. cc (all_fresh.1 h), λ h. cc (all_offline.1 h)),
          )
        ]
      ]

  -- What a model of the invariant shows at a time that is not negative, the store takes as its next
  -- snapshot, and it has an overall state.
  pub shown_is_published :
      (now_ns : ℕ) (clock : ℤ) (m : TrackerVisualizationModel F) (s : LatestSnapshotStore F)
      → IsModel m
      → (xs : List (RoleSnapshot F)) × (o : OverallState) × ((snapshots
            (some (pos now_ns))
            clock
            m).0
          ≡ ok xs)
        × ((publish xs s).0 ≡ ok (record { version = s.version + 1; roles = xs }))
        × (((publish xs s).1).latest ≡ some (record { version = s.version + 1; roles = xs }))
        × (overall_state xs ≡ ok o)
  unfolding publish
  shown_is_published now_ns clock m s h =
      let (xs, shown, names, all) = snapshots-AreShown now_ns clock m h in
      let (o, state, means) = overall_state-Means xs names in
      let in_order : texts_eq (roles_shown xs) fixed_roles ≡ true = rw names refl in
      (xs, o, shown, simp in_order refl, simp in_order refl, state)
