-- ===== src/Alignment/Matching/Chains.antt =====
-- Matchings in order, their order of merit, and the choice of the better of two in matcher.py.
use vision_tactile_dataset.Common.{
  ℕ, ◌+◌, ◌≤◌, ◌<◌, ◌≡◌, ◌⊎◌, refl, true, false, Option, none, some, List, [], ◌∷◌, ◌++◌, arith,
  ltb, Bool-cases, inl, inr, length, get_elem?, get_or, get_elem?-append,
}
use vision_tactile_dataset.Alignment.Matcher.{distance}
use vision_tactile_dataset.Alignment.Matching.{
  Chain, Edge, is_above, has_equal_key, by_edge, better,
}

-- A matching of `n` pairs whose distances sum up to `w` is no better than a chain: it has fewer pairs, or
-- as many at no less cost.
abbrev pub AtMost : ℕ → ℕ → Chain → Type 0
AtMost n w ch = (n ≤ ch.count) × (n ≡ ch.count → ch.cost ≤ w)

abbrev pub IsBelow : Chain → Chain → Type 0
IsBelow a b = AtMost a.count a.cost b

pub AtMost-trans : (n w : ℕ) (a b : Chain) → AtMost n w a → IsBelow a b → AtMost n w b
AtMost-trans n w a b (h, k) (h', k') =
    (omega arith, λ e. let e' : n ≡ a.count = omega arith in omega (arith, k e', k' (omega arith)))

pub IsBelow-refl : (a : Chain) → IsBelow a a
IsBelow-refl a = (omega arith, λ e. omega arith)

by_edge_is : (a b : Chain) (l r : Option ℕ) → (by_edge a b l r ≡ a) ⊎ (by_edge a b l r ≡ b)
by_edge_is a b none r = inr refl
by_edge_is a b (some l) none = inl refl
by_edge_is a b (some l) (some r) = elim (Bool-cases (ltb l r)) [
  | inl first ↦ rw first (inl refl)
  | inr second ↦ rw second (inr refl)
]

-- The better of two is one of them.
pub better_is : (a b : Chain) → (better a b ≡ a) ⊎ (better a b ≡ b)
unfolding better
better_is a b = elim (Bool-cases (has_equal_key a b)) [
  | inl equal ↦ rw equal (by_edge_is a b a.last b.last)
  | inr other ↦ elim (Bool-cases (is_above a b)) [
    | inl above ↦ rw (other, above) (inl refl)
    | inr below ↦ rw (other, below) (inr refl)
  ]
]

-- Both are below a chain that is one of them, where their keys are equal.
equal-IsBelow :
    (a b x : Chain)
    → a.count ≡ b.count
    → a.cost ≡ b.cost
    → (x ≡ a) ⊎ (x ≡ b)
    → IsBelow a x × IsBelow b x
equal-IsBelow a b x n w (inl e) =
    rw e ((omega arith, λ k. omega arith), (omega arith, λ k. omega arith))
equal-IsBelow a b x n w (inr e) =
    rw e ((omega arith, λ k. omega arith), (omega arith, λ k. omega arith))

above-IsBelow : (a b : Chain) → has_equal_key a b ≡ false → is_above a b ≡ true → IsBelow b a
above-IsBelow a b other above = (ground arith, λ k. ground arith)

not_above-IsBelow : (a b : Chain) → has_equal_key a b ≡ false → is_above a b ≡ false → IsBelow a b
not_above-IsBelow a b other below = (ground arith, λ k. ground arith)

-- And neither is above it.
pub IsBelow-better : (a b : Chain) → IsBelow a (better a b) × IsBelow b (better a b)
unfolding better
IsBelow-better a b = elim (Bool-cases (has_equal_key a b)) [
  | inl equal ↦ rw equal (
      equal-IsBelow a b (by_edge a b a.last b.last) (ground arith) (ground arith)
        (by_edge_is a b a.last b.last))
  | inr other ↦ elim (Bool-cases (is_above a b)) [
    | inl above ↦ rw (other, above) (IsBelow-refl a, above-IsBelow a b other above)
    | inr below ↦ rw (other, below) (not_above-IsBelow a b other below, IsBelow-refl b)
  ]
]

module _ (references candidates : List ℕ) where
  -- The distance of a reference frame and a candidate.
  abbrev pub weight : ℕ → ℕ → ℕ
  weight r c = distance (get_or 0 candidates c) (get_or 0 references r)

  abbrev pub total : List (ℕ × ℕ) → ℕ
  total [] = 0
  total ((r, c) ∷ xs) = weight r c + total xs

  module _ (max_delta : ℕ) where
    abbrev pub IsEdge : ℕ → ℕ → Type 0
    IsEdge r c = (r < length references) × (c < length candidates) × (weight r c ≤ max_delta)

    -- A matching, the latest pair first: both indices go down and stay below the bounds, and each
    -- pair is within the distance allowed.
    abbrev pub IsChain : ℕ → ℕ → List (ℕ × ℕ) → Type 0
    IsChain i j [] = Unit
    IsChain i j ((r, c) ∷ xs) = (r < i) × (c < j) × IsEdge r c × IsChain r c xs

    pub IsChain-mono :
        (i i' j j' : ℕ) (xs : List (ℕ × ℕ)) → i ≤ i' → j ≤ j' → IsChain i j xs → IsChain i' j' xs
    IsChain-mono i i' j j' [] p q h = tt
    IsChain-mono i i' j j' ((r, c) ∷ xs) p q h = (omega (arith, h.0), omega (arith, h.1), h.2, h.3)

-- The pairs that an edge stands for, by the edges before; each leads to an earlier one.
abbrev pub Traces : List Edge → ℕ → Option ℕ → List (ℕ × ℕ) → Type 0
Traces edges n none [] = Unit
Traces edges n none (x ∷ xs) = ⊥
Traces edges n (some e) [] = ⊥
Traces edges n (some e) ((r, c) ∷ xs) =
    (e < n)
    × (p : Option ℕ) × (get_elem? edges e
        ≡ some (record { reference_index = r; candidate_index = c; previous = p }))
    × Traces edges e p xs

pub Traces-append :
    (edges more : List Edge) (n m : ℕ) (o : Option ℕ) (xs : List (ℕ × ℕ))
    → n ≤ m
    → Traces edges n o xs
    → Traces (edges ++ more) m o xs
Traces-append edges more n m none [] le h = tt
Traces-append edges more n m none (x ∷ xs) le h = h
Traces-append edges more n m (some e) [] le h = h
Traces-append edges more n m (some e) ((r, c) ∷ xs) le (lt, p, there, rest) = (
  omega arith,
  p,
  get_elem?-append edges more e _ there,
  Traces-append edges more e e p xs (omega arith) rest,
)
