-- ===== src/Alignment/Matcher/Latest.antt =====
-- `select_generic_sample` of matcher.py with the strategy "previous".
use vision_tactile_dataset.Common.{
  ℕ, zero, suc, ◌+◌, ◌≤◌, ◌<◌, ◌≡◌, refl, true, false, Option, none, some, List, [], ◌∷◌, ◌⊎◌,
  arith, ltb, leb, get_elem?, All, Bool-cases, inl, inr,
}
use vision_tactile_dataset.Common.Int.{pos}
use vision_tactile_dataset.Common.Monad.{ok}
use vision_tactile_dataset.Alignment.Matcher.{
  is_increasing, bisect_right, distance, select_previous, within, select_generic_sample,
}
use vision_tactile_dataset.Alignment.Matcher.Selection.{All-le}

-- The times up to `u` and those after `t`: none lies between.
abbrev Splits : ℕ → ℕ → List ℕ → Type 0
Splits u t = All (λ v. (v ≤ u) ⊎ (t < v))

-- What a selection of the previous says: the latest time not after `t`, near enough; or none there.
unfoldable pub IsLatest : ℕ → ℕ → List ℕ → Option ℕ → Type 0
IsLatest max_delta t ts none = All (λ v. (t < v) ⊎ (v + max_delta < t)) ts
IsLatest max_delta t ts (some i) =
    (u : ℕ) × (get_elem? ts i ≡ some u) × (u ≤ t) × (t ≤ u + max_delta) × Splits u t ts

-- What `bisect_right` gives for times in order: no time is up to `t`, or the latest such is before it.
unfoldable Found : ℕ → List ℕ → ℕ → Type 0
Found t ts zero = All (λ v. t < v) ts
Found t ts (suc i) = (u : ℕ) × (get_elem? ts i ≡ some u) × (u ≤ t) × Splits u t ts

All-lt : (t x : ℕ) (ts : List ℕ) → t < x → All (λ v. x ≤ v) ts → All (λ v. t < v) ts
All-lt t x [] p h = tt
All-lt t x (v ∷ ts) p h = (omega (arith, h.0), All-lt t x ts p h.1)

All-Splits : (u t : ℕ) (ts : List ℕ) → All (λ v. t < v) ts → Splits u t ts
All-Splits u t [] h = tt
All-Splits u t (v ∷ ts) h = (inr h.0, All-Splits u t ts h.1)

All-get : (x i u : ℕ) (ts : List ℕ) → All (λ v. x ≤ v) ts → get_elem? ts i ≡ some u → x ≤ u
All-get x i u [] h g = absurd (ground arith)
All-get x zero u (v ∷ ts) h g = ground arith
All-get x (suc i) u (v ∷ ts) h g = All-get x i u ts h.1 g

Found-cons :
    (t x k : ℕ) (ts : List ℕ)
    → x ≤ t
    → All (λ v. x ≤ v) ts
    → Found t ts k
    → Found t (x ∷ ts) (suc k)
unfolding Found
Found-cons t x zero ts p above h = (x, refl, p, (inl (omega arith), All-Splits x t ts h))
Found-cons t x (suc k) ts p above (u, g, q, split) =
    (u, g, q, (inl (All-get x k u ts above g), split))

none-Found : (t x : ℕ) (ts : List ℕ) → t < x → All (λ v. x ≤ v) ts → Found t (x ∷ ts) 0
unfolding Found
none-Found t x ts p above = (p, All-lt t x ts p above)

nil-Found : (t : ℕ) → Found t [] 0
unfolding Found
nil-Found t = tt

pub tail_increasing :
    (x : ℕ) (ts : List ℕ) → is_increasing (x ∷ ts) ≡ true → is_increasing ts ≡ true
tail_increasing x [] h = refl
tail_increasing x (y ∷ ts) h = ground arith

bisect_right-Found :
    (t : ℕ) (ts : List ℕ) → is_increasing ts ≡ true → Found t ts (bisect_right ts t)
bisect_right-Found t [] h = nil-Found t
bisect_right-Found t (x ∷ ts) h =
    let above = All-le x x ts (omega arith) h in
    elim (Bool-cases (leb x t)) [
      | inl below ↦ rw below (
          Found-cons t x (bisect_right ts t) ts (ground arith) above
            (bisect_right-Found t ts (tail_increasing x ts h)))
      | inr past ↦ rw past (none-Found t x ts (ground arith) above)
    ]

none-IsLatest : (m t : ℕ) (ts : List ℕ) → All (λ v. t < v) ts → IsLatest m t ts none
unfolding IsLatest
none-IsLatest m t [] h = tt
none-IsLatest m t (v ∷ ts) h = (inl h.0, none-IsLatest m t ts h.1)

far-IsLatest : (m t u : ℕ) (ts : List ℕ) → u + m < t → Splits u t ts → IsLatest m t ts none
unfolding IsLatest
far-IsLatest m t u [] p h = tt
far-IsLatest m t u (v ∷ ts) p (inl early, h) = (inr (omega arith), far-IsLatest m t u ts p h)
far-IsLatest m t u (v ∷ ts) p (inr late, h) = (inl late, far-IsLatest m t u ts p h)

near-IsLatest :
    (m t u i : ℕ) (ts : List ℕ)
    → ltb m (distance u t) ≡ false
    → get_elem? ts i ≡ some u
    → u ≤ t
    → Splits u t ts
    → IsLatest m t ts (some i)
unfolding IsLatest
near-IsLatest m t u i ts near g p h = (u, g, p, ground arith, h)

select_previous-IsLatest :
    (m t k : ℕ) (ts : List ℕ) → Found t ts k → IsLatest m t ts (within m ts t (select_previous k))
unfolding within select_previous Found
select_previous-IsLatest m t zero ts h = none-IsLatest m t ts h
select_previous-IsLatest m t (suc i) ts (u, g, p, split) =
    elim (Bool-cases (ltb m (distance u t))) [
      | inl far ↦ rw (g, far) (far-IsLatest m t u ts (ground arith) split)
      | inr near ↦ rw (g, near) (near-IsLatest m t u i ts near g p split)
    ]

-- A selection of the previous from times in order returns: either an index, of a time not after the one
-- asked for and before it by the distance allowed at most, with no time between; or none, where every
-- time is after the one asked for, or before it by more than that distance.
pub select_generic_sample-IsLatest :
    (ts : List ℕ) (t max_delta : ℕ)
    → is_increasing ts ≡ true
    → (o : Option ℕ) × (select_generic_sample ts (pos t) "previous" (pos max_delta) ≡ ok o)
      × IsLatest max_delta t ts o
unfolding select_generic_sample
select_generic_sample-IsLatest ts t max_delta sorted =
    let k = bisect_right ts t in
    (
      within max_delta ts t (select_previous k),
      simp sorted refl,
      select_previous-IsLatest max_delta t k ts (bisect_right-Found t ts sorted),
    )
