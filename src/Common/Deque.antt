-- ===== src/Common/Deque.antt =====
-- A Python deque with a maximal length, as a list with the oldest entry first.
use native.Mathlib.Numerals.{unary_clauses}
use Prim.Native.Nat.{ℕ, zero, suc, ◌+◌, ◌-◌, ◌≤◌}
use mathlib.Core.Path.{◌≡◌, refl, sym, ap, ◌∙◌}
use mathlib.Core.Logic.{inl, inr}
use mathlib.Core.List.{List, [], ◌∷◌, ◌++◌}
use native.Mathlib.Omega.{arith}
use vision_tactile_dataset.Common.Tests.{ltb, Bool-cases, if◌then◌else◌}
use vision_tactile_dataset.Common.Lists.{length, drop, length-append}

module _ {ℓ} {A : Type ℓ} where
  -- `deque(maxlen=capacity).append(value)`: past the maximal length the oldest entry goes.
  unfoldable pub append_bounded : ℕ → List A → A → List A
  append_bounded capacity values value =
      let longer = values ++ (value ∷ []) in
      if ltb capacity (length longer) then drop 1 longer else longer

  -- The last `n` of a list.
  unfoldable pub latest : ℕ → List A → List A
  latest n xs = drop (length xs - n) xs

  pub length-drop : (n : ℕ) (xs : List A) → length (drop n xs) ≡ length xs - n
  length-drop zero xs = omega arith
  length-drop (suc n) [] = omega arith
  length-drop (suc n) (x ∷ xs) = omega (arith, length-drop n xs)

  drop-append : (n : ℕ) (xs ys : List A) → n ≤ length xs → drop n (xs ++ ys) ≡ drop n xs ++ ys
  drop-append zero xs ys h = refl
  drop-append (suc n) [] ys h = absurd (omega arith)
  drop-append (suc n) (x ∷ xs) ys h = drop-append n xs ys (omega arith)

  drop-drop : (m n : ℕ) (xs : List A) → drop m (drop n xs) ≡ drop (n + m) xs
  drop-drop m zero xs = ap (λ k. drop k xs) (omega arith)
  drop-drop zero (suc n) [] = simp unary_clauses refl
  drop-drop (suc m) (suc n) [] = simp unary_clauses refl
  drop-drop m (suc n) (x ∷ xs) =
      let next : suc n + m ≡ suc (n + m) = omega arith in
      drop-drop m n xs ∙ ap (λ k. drop k (x ∷ xs)) (sym next)

  -- What is kept of the latest is what is kept of all.
  pub latest-append : (n : ℕ) (xs ys : List A) → latest n (latest n xs ++ ys) ≡ latest n (xs ++ ys)
  unfolding latest
  latest-append n xs ys =
      let k = length xs - n in
      let short : k ≤ length xs = omega arith in
      let count : k + (length (drop k xs ++ ys) - n) ≡ length (xs ++ ys) - n =
        omega (arith, length-append (drop k xs) ys, length-drop k xs, length-append xs ys) in
      ap (drop (length (drop k xs ++ ys) - n)) (sym (drop-append k xs ys short))
      ∙ drop-drop (length (drop k xs ++ ys) - n) k (xs ++ ys)
      ∙ ap (λ i. drop i (xs ++ ys)) count

  pub length-latest : (n : ℕ) (xs : List A) → length (latest n xs) ≤ n
  unfolding latest
  length-latest n xs = omega (arith, length-drop (length xs - n) xs)

  pub append_bounded-eq-latest :
      (n : ℕ) (xs : List A) (x : A)
      → length xs ≤ n
      → append_bounded n xs x ≡ latest n (xs ++ (x ∷ []))
  unfolding append_bounded latest
  append_bounded-eq-latest n xs x h =
      let long : length (xs ++ (x ∷ [])) ≡ suc (length xs) =
        omega (arith, length-append xs (x ∷ [])) in
      elim (Bool-cases (ltb n (length (xs ++ (x ∷ []))))) [
        | inl over ↦ let one : length (xs ++ (x ∷ [])) - n ≡ 1 = ground arith in rw (over, one)
        | inr fits ↦
            let zero_over : length (xs ++ (x ∷ [])) - n ≡ 0 = ground arith in rw (fits, zero_over)
      ]

  -- What holds with the new entry, and without the oldest then.
  pub append_bounded-rule {κ} :
      (P : List A → Type κ) (n : ℕ) (xs : List A) (x : A)
      → P (xs ++ (x ∷ []))
      → P (drop 1 (xs ++ (x ∷ [])))
      → P (append_bounded n xs x)
  unfolding append_bounded
  append_bounded-rule P n xs x h k = elim (Bool-cases (ltb n (length (xs ++ (x ∷ []))))) [
    | inl over ↦ rw over k
    | inr fits ↦ rw fits h
  ]
