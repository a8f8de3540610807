-- ===== src/Alignment/Matching/Bisect.antt =====
-- The candidates that `match_nearest_unique` of matcher.py scans for a reference frame, by the two
-- bisections.
use vision_tactile_dataset.Common.{
  ℕ, zero, suc, ◌+◌, ◌-◌, ◌≤◌, ◌<◌, ◌≡◌, true, List, [], ◌∷◌, arith, ltb, leb, Bool-cases, inl, inr,
  length, get_or,
}
use vision_tactile_dataset.Alignment.Matcher.{is_increasing, bisect_left, bisect_right, distance}
use vision_tactile_dataset.Alignment.Matcher.Latest.{tail_increasing}

pub increasing-least :
    (t : ℕ) (ts : List ℕ) (i : ℕ)
    → is_increasing (t ∷ ts) ≡ true
    → i < length (t ∷ ts)
    → t ≤ get_or 0 (t ∷ ts) i
increasing-least t ts zero h room = omega arith
increasing-least t [] (suc i) h room = absurd (omega arith)
increasing-least t (u ∷ ts) (suc i) h room =
    let up : t < u = ground arith in
    let least = increasing-least u ts i (ground arith) (omega arith) in omega arith

pub bisect_left_before : (ts : List ℕ) (x i : ℕ) → i < bisect_left ts x → get_or 0 ts i < x
bisect_left_before [] x i h = absurd (omega arith)
bisect_left_before (t ∷ ts) x zero h = ground arith
bisect_left_before (t ∷ ts) x (suc i) h = elim (Bool-cases (ltb t x)) [
  | inl below ↦ bisect_left_before ts x i (ground arith)
  | inr above ↦ absurd (ground arith)
]

pub bisect_left_behind :
    (ts : List ℕ) (x i : ℕ)
    → is_increasing ts ≡ true
    → bisect_left ts x ≤ i
    → i < length ts
    → x ≤ get_or 0 ts i
bisect_left_behind [] x i h le room = absurd (omega arith)
bisect_left_behind (t ∷ ts) x zero h le room = ground arith
bisect_left_behind (t ∷ ts) x (suc i) h le room = elim (Bool-cases (ltb t x)) [
  | inl below ↦ bisect_left_behind ts x i (tail_increasing t ts h) (ground arith) (omega arith)
  | inr above ↦ let least = increasing-least t ts (suc i) h room in ground arith
]

bisect_right_before : (ts : List ℕ) (x i : ℕ) → i < bisect_right ts x → get_or 0 ts i ≤ x
bisect_right_before [] x i h = absurd (omega arith)
bisect_right_before (t ∷ ts) x zero h = ground arith
bisect_right_before (t ∷ ts) x (suc i) h = elim (Bool-cases (leb t x)) [
  | inl below ↦ bisect_right_before ts x i (ground arith)
  | inr above ↦ absurd (ground arith)
]

bisect_right_behind :
    (ts : List ℕ) (x i : ℕ)
    → is_increasing ts ≡ true
    → bisect_right ts x ≤ i
    → i < length ts
    → x < get_or 0 ts i
bisect_right_behind [] x i h le room = absurd (omega arith)
bisect_right_behind (t ∷ ts) x zero h le room = ground arith
bisect_right_behind (t ∷ ts) x (suc i) h le room = elim (Bool-cases (leb t x)) [
  | inl below ↦ bisect_right_behind ts x i (tail_increasing t ts h) (ground arith) (omega arith)
  | inr above ↦ let least = increasing-least t ts (suc i) h room in ground arith
]

bisect_right_bound : (ts : List ℕ) (x : ℕ) → bisect_right ts x ≤ length ts
bisect_right_bound [] x = omega arith
bisect_right_bound (t ∷ ts) x = let rest = bisect_right_bound ts x in ground arith

module _ (candidates : List ℕ) (time max_delta : ℕ) where
  -- Each candidate between the bisections is near enough.
  pub scanned_is_near :
      (c : ℕ)
      → is_increasing candidates ≡ true
      → bisect_left candidates (time - max_delta) ≤ c
      → c < bisect_right candidates (time + max_delta)
      → (c < length candidates) × (distance (get_or 0 candidates c) time ≤ max_delta)
  scanned_is_near c sorted low up =
      let bound = bisect_right_bound candidates (time + max_delta) in
      let not_after = bisect_right_before candidates (time + max_delta) c up in
      let not_before =
        bisect_left_behind candidates (time - max_delta) c sorted low (omega arith) in
      (omega arith, ground arith)

  -- And no other is.
  pub near_is_scanned :
      (c : ℕ)
      → is_increasing candidates ≡ true
      → c < length candidates
      → distance (get_or 0 candidates c) time ≤ max_delta
      → (bisect_left candidates (time - max_delta) ≤ c)
        × (c < bisect_right candidates (time + max_delta))
  near_is_scanned c sorted room near =
      let low : bisect_left candidates (time - max_delta) ≤ c =
        elim (Bool-cases (ltb c (bisect_left candidates (time - max_delta)))) [
          | inr in_range ↦ ground arith
          | inl before ↦
              let early = bisect_left_before candidates (time - max_delta) c (ground arith) in
              absurd (ground arith)
        ] in
      let up : c < bisect_right candidates (time + max_delta) =
        elim (Bool-cases (ltb c (bisect_right candidates (time + max_delta)))) [
          | inl in_range ↦ ground arith
          | inr behind ↦
              let late =
                bisect_right_behind candidates (time + max_delta) c sorted (ground arith) room in
              absurd (ground arith)
        ] in
      (low, up)
