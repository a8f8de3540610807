-- ===== src/Alignment/Interpolation/Insertion.antt =====
-- The samples before and behind the insertion point of a time, in matcher.py.
use vision_tactile_dataset.Common.{
  ℕ, zero, suc, ◌≤◌, ◌<◌, ◌≡◌, sym, ap, ◌∙◌, true, Option, none, some, List, [], ◌∷◌, arith, length,
  get_elem?, get_or,
}
use vision_tactile_dataset.Alignment.Matcher.{is_increasing, bisect_left}
use vision_tactile_dataset.Alignment.Matcher.Latest.{tail_increasing}
use vision_tactile_dataset.Alignment.Matching.Bisect.{
  increasing-least, bisect_left_before, bisect_left_behind,
}
use vision_tactile_dataset.Alignment.Interpolation.{TimedPose, times}

pub increasing_le :
    (ts : List ℕ) (n i : ℕ)
    → is_increasing ts ≡ true
    → n ≤ i
    → i < length ts
    → get_or 0 ts n ≤ get_or 0 ts i
increasing_le [] n i h le room = absurd (omega arith)
increasing_le (t ∷ ts) zero i h le room = increasing-least t ts i h room
increasing_le (t ∷ ts) (suc n) zero h le room = absurd (omega arith)
increasing_le (t ∷ ts) (suc n) (suc i) h le room =
    increasing_le ts n i (tail_increasing t ts h) (omega arith) (omega arith)

pub some-none : {A : Type 0} (o : Option A) {a : A} → o ≡ some a → o ≡ none → ⊥
some-none none h e = ground arith
some-none (some a) h e = ground arith

pub some-same : {A : Type 0} (o : Option A) {a b : A} → o ≡ some a → o ≡ some b → a ≡ b
some-same o {a} h e = ap (λ p. elim p [ none ↦ a | some x ↦ x ]) (sym h ∙ e)

pub nothing_behind :
    {A : Type 0} (xs : List A) (n i : ℕ) {a : A}
    → n ≤ i
    → get_elem? xs n ≡ none
    → get_elem? xs i ≡ some a
    → ⊥
nothing_behind [] n i le h e = ground arith
nothing_behind (x ∷ xs) zero i le h e = ground arith
nothing_behind (x ∷ xs) (suc n) zero le h e = omega arith
nothing_behind (x ∷ xs) (suc n) (suc i) le h e = nothing_behind xs n i (omega arith) h e

module _ {T : Type 0} where
  -- The time at an index where there is a sample.
  pub time_at :
      (samples : List (TimedPose T)) (i : ℕ) (s : TimedPose T)
      → get_elem? samples i ≡ some s
      → (i < length (times samples)) × (get_or 0 (times samples) i ≡ s.host_realtime_ns)
  time_at [] i s e = absurd (ground arith)
  time_at (r ∷ samples) zero s e =
      (omega arith, ap (λ o. elim o [ none ↦ 0 | some x ↦ x.host_realtime_ns ]) e)
  time_at (r ∷ samples) (suc i) s e =
      let (room, same) = time_at samples i s e in (omega arith, same)

  module _ (samples : List (TimedPose T)) (t : ℕ)
      (sorted : is_increasing (times samples) ≡ true) where
    pub before_insertion :
        (i : ℕ) (s : TimedPose T)
        → get_elem? samples i ≡ some s
        → i < bisect_left (times samples) t
        → s.host_realtime_ns < t
    before_insertion i s e lt =
        let (room, same) = time_at samples i s e in
        let early = bisect_left_before (times samples) t i lt in omega (arith, same, early)

    pub behind_insertion :
        (i : ℕ) (s : TimedPose T)
        → get_elem? samples i ≡ some s
        → bisect_left (times samples) t ≤ i
        → t ≤ s.host_realtime_ns
    behind_insertion i s e le =
        let (room, same) = time_at samples i s e in
        let late = bisect_left_behind (times samples) t i sorted le room in
        omega (arith, same, late)
