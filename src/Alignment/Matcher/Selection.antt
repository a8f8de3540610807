-- ===== src/Alignment/Matcher/Selection.antt =====
-- `select_generic_sample` of matcher.py with the strategy "nearest".
use vision_tactile_dataset.Common.{
  ℕ, suc, ◌≤◌, ◌<◌, ◌≡◌, refl, sym, true, false, Option, none, some, List, [], ◌∷◌, arith, ltb,
  get_elem?, All, Bool-cases, Option-cases, inl, inr, ltb→lt,
}
use mathlib.Core.Path.{subst}
use vision_tactile_dataset.Common.Int.{pos}
use vision_tactile_dataset.Common.Monad.{ok}
use vision_tactile_dataset.Alignment.Matcher.{
  is_increasing, bisect_left, distance, closer, select_nearest, within, select_generic_sample,
}

-- Times in order: all behind the first are after it.
pub All-le : (a t : ℕ) (ts : List ℕ) → a ≤ t → is_increasing (t ∷ ts) ≡ true → All (λ v. a ≤ v) ts
All-le a t [] p h = tt
All-le a t (u ∷ ts) p h =
    let up : t < u = ground arith in
    let rest : is_increasing (u ∷ ts) ≡ true = ground arith in
    (omega arith, All-le a u ts (omega arith) rest)

closer_than_later :
    (d a t : ℕ) (ts : List ℕ)
    → d ≤ distance a t
    → t ≤ a
    → All (λ v. a ≤ v) ts
    → All (λ v. d ≤ distance v t) ts
closer_than_later d a t [] p q h = tt
closer_than_later d a t (u ∷ ts) p q h = (ground arith, closer_than_later d a t ts p q h.1)

-- A selected index, with the time that stands there, of which none is nearer.
abbrev IsBest : ℕ → List ℕ → Option ℕ → Type 0
IsBest t ts o =
    (i : ℕ) × (u : ℕ) × (o ≡ some i)
    × (get_elem? ts i ≡ some u)
    × All (λ v. distance u t ≤ distance v t) ts

closer-shift : (t i b : ℕ) (o : Option ℕ) → closer t (suc i) b o ≡ suc (closer t i b o)
closer-shift t i b none = refl
closer-shift t i b (some c) = ground arith

-- In a list with one more time in front, the choice is one further.
select_nearest-shift :
    (x : ℕ) (ts : List ℕ) (t k i : ℕ)
    → select_nearest ts t (suc k) ≡ some i
    → select_nearest (x ∷ ts) t (suc (suc k)) ≡ some (suc i)
unfolding select_nearest
select_nearest-shift x ts t k i h = elim (Option-cases (get_elem? ts k)) [
  | inl gone ↦ absurd (ground arith)
  | inr (b, e) ↦
      let shifted = closer-shift t k b (get_elem? ts (suc k)) in ground (arith, e, shifted)
]

-- Where the first time is not before `t`, it is the nearest.
first-IsBest :
    (t x : ℕ) (ts : List ℕ)
    → is_increasing (x ∷ ts) ≡ true
    → t ≤ x
    → All (λ v. distance x t ≤ distance v t) ts
first-IsBest t x ts h p =
    closer_than_later (distance x t) x t ts (omega arith) p (All-le x x ts (omega arith) h)

farther :
    (d e t : ℕ) (ts : List ℕ)
    → d ≤ e
    → All (λ v. e ≤ distance v t) ts
    → All (λ v. d ≤ distance v t) ts
farther d e t [] p h = tt
farther d e t (u ∷ ts) p h = (omega (arith, h.0), farther d e t ts p h.1)

select_nearest-IsBest :
    (t x : ℕ) (ts : List ℕ)
    → is_increasing (x ∷ ts) ≡ true
    → IsBest t (x ∷ ts) (select_nearest (x ∷ ts) t (bisect_left (x ∷ ts) t))
unfolding select_nearest
select_nearest-IsBest t x [] h = elim (Bool-cases (ltb x t)) [
  | inl below ↦ (0, x, simp below refl, refl, (omega arith, tt))
  | inr above ↦ (0, x, simp above refl, refl, (omega arith, tt))
]
select_nearest-IsBest t x (y ∷ ts) h =
    let order : x < y = ground arith in
    let rest : is_increasing (y ∷ ts) ≡ true = ground arith in
    elim (Bool-cases (ltb x t)) [
      | inr above ↦
          let past : t ≤ x = ground arith in
          (0, x, simp above refl, refl, (omega arith, first-IsBest t x (y ∷ ts) h past))
      | inl below ↦ elim (Bool-cases (ltb y t)) [
        | inl y_below ↦
            let (i, u, chosen, there, all) = select_nearest-IsBest t y ts rest in
            let moved =
              select_nearest-shift x (y ∷ ts) t (bisect_left ts t) i (simp y_below at chosen) in
            (suc i, u, simp (below, y_below) moved, there, (ground arith, all))
        | inr y_above ↦
            let past : t ≤ y = ground arith in
            let tail = first-IsBest t y ts rest past in
            elim (Bool-cases (ltb (distance y t) (distance x t))) [
              | inl closer_y ↦ (1, y, ground arith, refl, (ground arith, (omega arith, tail)))
              | inr closer_x ↦
                  let d : distance x t ≤ distance y t = ground arith in
                  (
                    0,
                    x,
                    ground arith,
                    refl,
                    (omega arith, (d, farther (distance x t) (distance y t) t ts d tail)),
                  )
            ]
      ]
    ]

-- What a selection of the nearest says: the selected time is as near as any, and near enough; or no
-- time is near enough.
unfoldable pub IsNearest : ℕ → ℕ → List ℕ → Option ℕ → Type 0
IsNearest max_delta t ts none = All (λ v. max_delta < distance v t) ts
IsNearest max_delta t ts (some i) =
    (u : ℕ) × (get_elem? ts i ≡ some u)
    × (distance u t ≤ max_delta)
    × All (λ v. distance u t ≤ distance v t) ts

beyond :
    (m d t : ℕ) (ts : List ℕ)
    → m < d
    → All (λ v. d ≤ distance v t) ts
    → All (λ v. m < distance v t) ts
beyond m d t [] p h = tt
beyond m d t (u ∷ ts) p h = (omega (arith, h.0), beyond m d t ts p h.1)

too_far :
    (m t : ℕ) (ts : List ℕ) (u : ℕ)
    → ltb m (distance u t) ≡ true
    → All (λ v. distance u t ≤ distance v t) ts
    → IsNearest m t ts none
unfolding IsNearest
too_far m t ts u far = beyond m (distance u t) t ts (ltb→lt m (distance u t) far)

near_enough :
    (m t : ℕ) (ts : List ℕ) (i u : ℕ)
    → ltb m (distance u t) ≡ false
    → get_elem? ts i ≡ some u
    → All (λ v. distance u t ≤ distance v t) ts
    → IsNearest m t ts (some i)
unfolding IsNearest
near_enough m t ts i u near g all = (u, g, ground arith, all)

chosen-IsNearest :
    (m t : ℕ) (ts : List ℕ) (i u : ℕ)
    → get_elem? ts i ≡ some u
    → All (λ v. distance u t ≤ distance v t) ts
    → IsNearest m t ts (within m ts t (some i))
unfolding within
chosen-IsNearest m t ts i u g all = elim (Bool-cases (ltb m (distance u t))) [
  | inl far ↦ rw (g, far) (too_far m t ts u far all)
  | inr near ↦ rw (g, near) (near_enough m t ts i u near g all)
]

none_there : (m t : ℕ) → IsNearest m t [] (within m [] t none)
unfolding IsNearest within
none_there m t = tt

within-IsNearest :
    (m t : ℕ) (ts : List ℕ)
    → is_increasing ts ≡ true
    → IsNearest m t ts (within m ts t (select_nearest ts t (bisect_left ts t)))
unfolding select_nearest
within-IsNearest m t [] h = none_there m t
within-IsNearest m t (x ∷ ts) h =
    let (i, u, e, g, all) = select_nearest-IsBest t x ts h in
    subst (λ o. IsNearest m t (x ∷ ts) (within m (x ∷ ts) t o)) (sym e)
      (chosen-IsNearest m t (x ∷ ts) i u g all)

-- A selection of the nearest from times in order returns: either an index, of a time of which none is
-- nearer to the one asked for, within the distance allowed; or none, where every time is farther
-- than that distance.
pub select_generic_sample-IsNearest :
    (ts : List ℕ) (t max_delta : ℕ)
    → is_increasing ts ≡ true
    → (o : Option ℕ) × (select_generic_sample ts (pos t) "nearest" (pos max_delta) ≡ ok o)
      × IsNearest max_delta t ts o
unfolding select_generic_sample
select_generic_sample-IsNearest ts t max_delta sorted =
    let o = within max_delta ts t (select_nearest ts t (bisect_left ts t)) in
    (o, simp sorted refl, within-IsNearest max_delta t ts sorted)
