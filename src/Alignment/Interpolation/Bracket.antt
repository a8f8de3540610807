-- ===== src/Alignment/Interpolation/Bracket.antt =====
-- The samples that `interpolate_pose` of matcher.py takes its pose from.
use vision_tactile_dataset.Common.{
  ℕ, zero, suc, ◌≤◌, ◌<◌, ◌≡◌, ◌≢◌, ◌⊎◌, refl, ap, ◌∙◌, true, Option, none, some, List, [], ◌∷◌,
  arith, ltb, ◌==◌, Bool-cases, inl, inr, get_elem?, map,
}
use vision_tactile_dataset.Common.Int.{pos}
use vision_tactile_dataset.Common.Monad.{Result, ok, err}
use vision_tactile_dataset.Alignment.Matcher.{is_increasing, bisect_left}
use vision_tactile_dataset.Alignment.Interpolation.Insertion.{
  increasing_le, some-none, some-same, nothing_behind, time_at, before_insertion, behind_insertion,
}
use vision_tactile_dataset.Alignment.Interpolation.{
  TimedPose, InterpolatedPose, Error, transform_failed, sequence_out_of_order, is_stable, times,
  previous, interpolated, exact, gap_between, between, interpolated_between, transform_between,
  bracketed, located, interpolate_pose,
}

module _ {T : Type 0} where
  module _ (interpolate : T → T → ℕ → ℕ → Option T) (samples : List (TimedPose T))
      (t max_gap : ℕ) where
    -- Two samples in succession around the time, and the pose between them.
    abbrev IsAround : ℕ → TimedPose T → TimedPose T → Type 0
    IsAround i before after =
        (get_elem? samples i ≡ some before)
        × (get_elem? samples (suc i) ≡ some after)
        × (before.host_realtime_ns < t)
        × (t < after.host_realtime_ns)

    -- What a result says of the samples.
    abbrev pub IsPose : Option (InterpolatedPose T) → Type 0
    IsPose none =
        ((i : ℕ) (s : TimedPose T) → get_elem? samples i ≡ some s → s.host_realtime_ns ≢ t)
        × ((i : ℕ) (before after : TimedPose T)
            → IsAround i before after
            → max_gap < gap_between before after)
    IsPose (some p) =
        ((i : ℕ) × (s : TimedPose T) × (get_elem? samples i ≡ some s)
          × (s.host_realtime_ns ≡ t)
          × (p ≡ exact t s))
        ⊎ ((i : ℕ) × (before : TimedPose T) × (after : TimedPose T) × IsAround i before after
            × (gap_between before after ≤ max_gap)
            × ((x : T) × (transform_between interpolate t before after ≡ some x)
                × (p ≡ between t before after x)))

    abbrev pub Poses : Result Error (Option (InterpolatedPose T)) → Type 0
    Poses (ok o) = IsPose o
    Poses (err e) =
        (i : ℕ) × (before : TimedPose T) × (after : TimedPose T) × IsAround i before after
        × (gap_between before after ≤ max_gap)
        × (((e ≡ transform_failed) × (transform_between interpolate t before after ≡ none))
            ⊎ ((e ≡ sequence_out_of_order)
                × (after.sequence < before.sequence)
                × ((x : T) × (transform_between interpolate t before after ≡ some x))))

    exact-Poses :
        (i : ℕ) (s : TimedPose T)
        → get_elem? samples i ≡ some s
        → s.host_realtime_ns ≡ t
        → Poses (interpolated (exact t s))
    exact-Poses i s e same = elim (Bool-cases (ltb s.sequence s.sequence)) [
      | inl bad ↦ absurd (ground arith)
      | inr good ↦ rw good (inl (i, s, e, same, refl))
    ]

    between-Poses :
        (i : ℕ) (before after : TimedPose T)
        → IsAround i before after
        → gap_between before after ≤ max_gap
        → (o : Option T) → transform_between interpolate t before after ≡ o
        → Poses (interpolated_between t before after o)
    between-Poses i before after around near none made =
        (i, before, after, around, near, inl (refl, made))
    between-Poses i before after around near (some x) made =
        elim (Bool-cases (ltb after.sequence before.sequence)) [
          | inl bad ↦ rw bad (i, before, after, around, near, inr (refl, ground arith, (x, made)))
          | inr good ↦ rw good (inr (i, before, after, around, near, (x, made, refl)))
        ]

    module _ (sorted : is_increasing (times samples) ≡ true) where
      -- Where all that stands at the insertion point or behind it is after the time, a sample at the time
      -- or around it is only before.
      module _ (n : ℕ) (at_n : bisect_left (times samples) t ≡ n)
          (later : (i : ℕ) (s : TimedPose T)
            → get_elem? samples i ≡ some s
            → n ≤ i
            → t < s.host_realtime_ns) where
        not_exact :
            (i : ℕ) (s : TimedPose T) → get_elem? samples i ≡ some s → s.host_realtime_ns ≢ t
        not_exact i s e same = elim (Bool-cases (ltb i n)) [
          | inl early ↦
              let before = before_insertion samples t sorted i s e (ground (arith, at_n)) in
              omega (arith, same, before)
          | inr late ↦ let after = later i s e (ground arith) in omega (arith, same, after)
        ]

        around_insertion :
            (i : ℕ) (before after : TimedPose T) → IsAround i before after → n ≡ suc i
        around_insertion i before after (e, e', lt, gt) = elim (Bool-cases (ltb i n)) [
          | inr late ↦ let after = later i before e (ground arith) in absurd (omega arith)
          | inl early ↦ elim (Bool-cases (ltb (suc i) n)) [
            | inr next ↦ ground arith
            | inl further ↦
                let soon =
                  before_insertion samples t sorted (suc i) after e' (ground (arith, at_n)) in
                absurd (omega arith)
          ]
        ]

      -- Behind a sample that is after the time there are only such.
      all_later :
          (n : ℕ) (a : TimedPose T)
          → get_elem? samples n ≡ some a
          → t < a.host_realtime_ns
          → (i : ℕ) (s : TimedPose T) → get_elem? samples i ≡ some s
          → n ≤ i
          → t < s.host_realtime_ns
      all_later n a ea gt i s e le =
          let (room, same) = time_at samples n a ea in
          let (room', same') = time_at samples i s e in
          let up = increasing_le (times samples) n i sorted le room' in
          omega (arith, same, same', up, gt)

      -- By the sample before, where the one at the insertion point is after the time.
      bracketed-Poses :
          (n : ℕ) (b : Option (TimedPose T)) (a : TimedPose T)
          → bisect_left (times samples) t ≡ n
          → previous samples n ≡ b
          → get_elem? samples n ≡ some a
          → t < a.host_realtime_ns
          → Poses (bracketed interpolate t max_gap b a)
      bracketed-Poses n none a at_n eb ea gt =
          let later = all_later n a ea gt in
          (
            not_exact n at_n later,
            λ i before after around.
                let e = around_insertion n at_n later i before after around in
                absurd (some-none (previous samples n) (ap (previous samples) e ∙ around.0) eb),
          )
      bracketed-Poses zero (some before) a at_n eb ea gt = absurd (ground arith)
      bracketed-Poses (suc m) (some before) a at_n eb ea gt =
          let later = all_later (suc m) a ea gt in
          elim (Bool-cases (ltb max_gap (gap_between before a))) [
            | inl far ↦ rw far (
              not_exact (suc m) at_n later,
              λ i before' after' around.
                  let e = around_insertion (suc m) at_n later i before' after' around in
                  let same_before =
                    some-same (previous samples (suc m)) eb (ap (previous samples) e ∙ around.0) in
                  let same_after =
                    some-same (get_elem? samples (suc m)) ea
                      (ap (get_elem? samples) e ∙ around.1) in
                  let b_time = ap (λ (s : TimedPose T). s.host_realtime_ns) same_before in
                  let a_time = ap (λ (s : TimedPose T). s.host_realtime_ns) same_after in
                  ground (arith, b_time, a_time),
            )
            | inr near ↦
                let early = before_insertion samples t sorted m before eb (omega (arith, at_n)) in
                rw near (
                  between-Poses m before a (eb, ea, early, gt) (ground arith)
                    (transform_between interpolate t before a) refl)
          ]

      located-Poses :
          (n : ℕ) (b a : Option (TimedPose T))
          → bisect_left (times samples) t ≡ n
          → previous samples n ≡ b
          → get_elem? samples n ≡ a
          → Poses (located interpolate t max_gap b a)
      located-Poses n b none at_n eb ea =
          let later : (i : ℕ) (s : TimedPose T)
              → get_elem? samples i ≡ some s
              → n ≤ i
              → t < s.host_realtime_ns =
            λ i s e le. absurd (nothing_behind samples n i le ea e) in
          (
            not_exact n at_n later,
            λ i before after around.
                let e = around_insertion n at_n later i before after around in
                absurd (some-none (get_elem? samples n) (ap (get_elem? samples) e ∙ around.1) ea),
          )
      located-Poses n b (some a) at_n eb ea = elim (Bool-cases (a.host_realtime_ns == t)) [
        | inl same ↦ rw same (exact-Poses n a ea (ground arith))
        | inr other ↦
            let late = behind_insertion samples t sorted n a ea (omega (arith, at_n)) in
            rw other (bracketed-Poses n b a at_n eb ea (ground arith))
      ]

  -- For samples in order, of one role and one tracker: a pose that `interpolate_pose` returns is that of the
  -- sample at the time, or is interpolated from the two samples in succession around the time, which are no
  -- further apart than `max_gap_ns`, with the transform that their interpolation gives; it returns none where
  -- no sample is at the time, and two in succession around it are further apart; and it raises only where
  -- the interpolation of such two raises, or gives a transform and their sequences are out of order.
  pub interpolate_pose-Poses :
      (interpolate : T → T → ℕ → ℕ → Option T) (samples : List (TimedPose T)) (t max_gap : ℕ)
      → is_increasing (times samples) ≡ true
      → is_stable (map (λ (s : TimedPose T). s.role) samples) ≡ true
      → is_stable (map (λ (s : TimedPose T). s.tracker_id) samples) ≡ true
      → Poses interpolate samples t max_gap
          (interpolate_pose interpolate samples (pos t) (pos max_gap))
  unfolding interpolate_pose
  interpolate_pose-Poses interpolate [] t max_gap sorted roles ids = (
    λ i s e same. some-none none e refl,
    λ i before after around. absurd (some-none none around.0 refl),
  )
  interpolate_pose-Poses interpolate (s ∷ samples) t max_gap sorted roles ids =
      let position = bisect_left (times (s ∷ samples)) t in
      rw (sorted, roles, ids)
        (located-Poses interpolate (s ∷ samples) t max_gap sorted position
          (previous (s ∷ samples) position) (get_elem? (s ∷ samples) position) refl refl refl)
