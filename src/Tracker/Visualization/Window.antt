-- ===== src/Tracker/Visualization/Window.antt =====
-- Times in order, and what the deques of visualization_model.py do to them.
use vision_tactile_dataset.Common.{
  ℕ, suc, ◌≤◌, ◌<◌, ◌≡◌, refl, ap, List, [], ◌∷◌, ◌++◌, arith, ltb, length, drop, All, Bool-cases,
  inl, inr,
}
use vision_tactile_dataset.Common.Deque.{
  append_bounded, append_bounded-eq-latest, append_bounded-rule, length-latest,
}
use vision_tactile_dataset.Tracker.Visualization.{TimedPose}
use vision_tactile_dataset.Tracker.Visualization.Snapshots.{prune_trail, prune_times}

abbrev pub Sorted : List ℕ → Type 0
Sorted [] = Unit
Sorted (t ∷ ts) = All (λ u. t ≤ u) ts × Sorted ts

All-snoc : (P : ℕ → Type 0) (ts : List ℕ) (a : ℕ) → All P ts → P a → All P (ts ++ (a ∷ []))
All-snoc P [] a h p = (p, tt)
All-snoc P (t ∷ ts) a h p = (h.0, All-snoc P ts a h.1 p)

pub All-up : (a b : ℕ) (ts : List ℕ) → a ≤ b → All (λ u. u ≤ a) ts → All (λ u. u ≤ b) ts
All-up a b [] p h = tt
All-up a b (t ∷ ts) p h = (omega (arith, h.0), All-up a b ts p h.1)

pub Sorted-snoc : (ts : List ℕ) (a : ℕ) → Sorted ts → All (λ u. u ≤ a) ts → Sorted (ts ++ (a ∷ []))
Sorted-snoc [] a s h = (tt, tt)
Sorted-snoc (t ∷ ts) a s h = (All-snoc (λ u. t ≤ u) ts a s.0 h.0, Sorted-snoc ts a s.1 h.1)

All-from : (c t : ℕ) (ts : List ℕ) → c ≤ t → All (λ u. t ≤ u) ts → All (λ u. c ≤ u) ts
All-from c t [] p h = tt
All-from c t (u ∷ ts) p h = (omega (arith, h.0), All-from c t ts p h.1)

drop_one-Sorted : (ts : List ℕ) → Sorted ts → Sorted (drop 1 ts)
drop_one-Sorted [] s = tt
drop_one-Sorted (t ∷ ts) s = s.1

drop_one-All : (P : ℕ → Type 0) (ts : List ℕ) → All P ts → All P (drop 1 ts)
drop_one-All P [] h = tt
drop_one-All P (t ∷ ts) h = h.1

-- Times in order, at most `max` of them, none after `a`.
abbrev pub IsWindow : ℕ → ℕ → List ℕ → Type 0
IsWindow max a ts = Sorted ts × (length ts ≤ max) × All (λ u. u ≤ a) ts

pub append_bounded-IsWindow :
    (max a : ℕ) (ts : List ℕ)
    → Sorted ts
    → length ts ≤ max
    → All (λ u. u ≤ a) ts
    → IsWindow max a (append_bounded max ts a)
append_bounded-IsWindow max a ts s n h =
    let all = ts ++ (a ∷ []) in
    let sorted = Sorted-snoc ts a s h in
    let below = All-snoc (λ u. u ≤ a) ts a h (omega arith) in
    (
      append_bounded-rule Sorted max ts a sorted (drop_one-Sorted all sorted),
      rw (append_bounded-eq-latest max ts a n) (length-latest max all),
      append_bounded-rule (All (λ u. u ≤ a)) max ts a below (drop_one-All (λ u. u ≤ a) all below),
    )

-- What a loop of `_prune` leaves out is older than the cutoff, and what it leaves is not.
pub prune_times-splits :
    (c : ℕ) (ts : List ℕ)
    → Sorted ts
    → (old : List ℕ) × (ts ≡ old ++ prune_times c ts)
      × All (λ t. t < c) old
      × All (λ t. c ≤ t) (prune_times c ts)
unfolding prune_times
prune_times-splits c [] s = ([], refl, tt, tt)
prune_times-splits c (t ∷ ts) s = elim (Bool-cases (ltb t c)) [
  | inl older ↦
      let (old, e, before, after) = prune_times-splits c ts s.1 in
      (t ∷ old, rw older (ap (λ l. t ∷ l) e), (ground arith, before), rw older after)
  | inr kept ↦
      let from : c ≤ t = ground arith in ([], rw kept, tt, rw kept (from, All-from c t ts from s.0))
]

module _ {F : Type 0} where
  abbrev pub arrivals : List (TimedPose F) → List ℕ
  arrivals [] = []
  arrivals (p ∷ ps) = p.arrival_ns ∷ arrivals ps

  -- The loop over poses is that over their times.
  pub arrivals-prune_trail :
      (c : ℕ) (ps : List (TimedPose F)) → arrivals (prune_trail c ps) ≡ prune_times c (arrivals ps)
  unfolding prune_trail prune_times
  arrivals-prune_trail c [] = refl
  arrivals-prune_trail c (p ∷ ps) = elim (Bool-cases (ltb p.arrival_ns c)) [
    | inl older ↦ rw older (arrivals-prune_trail c ps)
    | inr kept ↦ rw kept
  ]

  arrivals-append : (ps qs : List (TimedPose F)) → arrivals (ps ++ qs) ≡ arrivals ps ++ arrivals qs
  arrivals-append [] qs = refl
  arrivals-append (p ∷ ps) qs = ap (λ l. p.arrival_ns ∷ l) (arrivals-append ps qs)

  pub length-arrivals : (ps : List (TimedPose F)) → length (arrivals ps) ≡ length ps
  length-arrivals [] = refl
  length-arrivals (p ∷ ps) = ap (λ n. suc n) (length-arrivals ps)

  arrivals-drop_one : (ps : List (TimedPose F)) → arrivals (drop 1 ps) ≡ drop 1 (arrivals ps)
  arrivals-drop_one [] = refl
  arrivals-drop_one (p ∷ ps) = refl

  pub arrivals-append_bounded :
      (n : ℕ) (ps : List (TimedPose F)) (p : TimedPose F)
      → arrivals (append_bounded n ps p) ≡ append_bounded n (arrivals ps) p.arrival_ns
  unfolding append_bounded
  arrivals-append_bounded n ps p =
      let all = ps ++ (p ∷ []) in
      let times = arrivals-append ps (p ∷ []) in
      let same = length-arrivals all in
      rw (← times) (elim (Bool-cases (ltb n (length all))) [
        | inl over ↦ simp (same, over) (arrivals-drop_one all)
        | inr fits ↦ simp (same, fits) refl
      ])

  arrivals_from :
      (c t : ℕ) (ps : List (TimedPose F))
      → c ≤ t
      → All (λ u. t ≤ u) (arrivals ps)
      → All (λ q. c ≤ q.arrival_ns) ps
  arrivals_from c t [] p h = tt
  arrivals_from c t (q ∷ ps) p h = (omega (arith, h.0), arrivals_from c t ps p h.1)

  -- The trail that `_prune` leaves: the poses that it leaves out are older than the cutoff, and the
  -- others are not.
  pub prune_trail-splits :
      (c : ℕ) (ps : List (TimedPose F))
      → Sorted (arrivals ps)
      → (old : List (TimedPose F)) × (ps ≡ old ++ prune_trail c ps)
        × All (λ p. p.arrival_ns < c) old
        × All (λ p. c ≤ p.arrival_ns) (prune_trail c ps)
  unfolding prune_trail
  prune_trail-splits c [] s = ([], refl, tt, tt)
  prune_trail-splits c (p ∷ ps) s = elim (Bool-cases (ltb p.arrival_ns c)) [
    | inl older ↦
        let (old, e, before, after) = prune_trail-splits c ps s.1 in
        (p ∷ old, rw older (ap (λ l. p ∷ l) e), (ground arith, before), rw older after)
    | inr kept ↦
        let from : c ≤ p.arrival_ns = ground arith in
        ([], rw kept, tt, rw kept (from, arrivals_from c p.arrival_ns ps from s.0))
  ]
