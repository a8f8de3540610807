-- ===== src/Alignment/Matching/Written.antt =====
-- The last loop of `match_nearest_unique` of matcher.py, which follows the edges back and writes the result.
use vision_tactile_dataset.Common.{
  ℕ, zero, suc, ◌≤◌, ◌<◌, ◌≡◌, ◌≢◌, refl, sym, ap, ◌∙◌, Option, none, some, List, [], ◌∷◌, arith,
  ◌==◌, Bool-cases, inl, inr, length, get_or, set, length-set, get_or-set_self, get_or-set_ne,
  replicate, length-replicate, get_or-replicate,
}
use vision_tactile_dataset.Alignment.Matching.{Edge, write_back}
use vision_tactile_dataset.Alignment.Matching.Chains.{IsChain, IsChain-mono, Traces}

-- The pairs that a result holds below a row, the latest first.
abbrev pub pair_at : ℕ → Option ℕ → List (ℕ × ℕ) → List (ℕ × ℕ)
pair_at r none xs = xs
pair_at r (some c) xs = (r, c) ∷ xs

abbrev pub pairs_below : ℕ → List (Option ℕ) → List (ℕ × ℕ)
pairs_below zero result = []
pairs_below (suc r) result = pair_at r (get_or none result r) (pairs_below r result)

abbrev pub pairs : List (Option ℕ) → List (ℕ × ℕ)
pairs result = pairs_below (length result) result

abbrev written : List (ℕ × ℕ) → List (Option ℕ) → List (Option ℕ)
written [] result = result
written ((r, c) ∷ xs) result = written xs (set result r (some c))

length-written :
    (xs : List (ℕ × ℕ)) (result : List (Option ℕ)) → length (written xs result) ≡ length result
length-written [] result = refl
length-written ((r, c) ∷ xs) result =
    length-written xs (set result r (some c)) ∙ length-set result r (some c)

-- The loop writes the pairs that the edges trace; fuel for each edge is enough.
write_back-written :
    (fuel : ℕ) (edges : List Edge) (n : ℕ) (o : Option ℕ) (xs : List (ℕ × ℕ))
    (result : List (Option ℕ))
    → n ≤ fuel
    → Traces edges n o xs
    → write_back fuel edges o result ≡ written xs result
unfolding write_back
write_back-written zero edges n none [] result le traced = refl
write_back-written (suc fuel) edges n none [] result le traced = refl
write_back-written fuel edges n none (x ∷ xs) result le traced = absurd traced
write_back-written fuel edges n (some e) [] result le traced = absurd traced
write_back-written zero edges n (some e) ((r, c) ∷ xs) result le (below, p, there, rest) =
    absurd (omega arith)
write_back-written (suc fuel) edges n (some e) ((r, c) ∷ xs) result le (below, p, there, rest) =
    rw (there, write_back)
      (write_back-written fuel edges e p xs (set result r (some c)) (omega arith) rest)

module _ (references candidates : List ℕ) (max_delta : ℕ) where
  get_or-written :
      (b i j : ℕ) (xs : List (ℕ × ℕ)) (result : List (Option ℕ))
      → b ≤ i
      → IsChain references candidates max_delta b j xs
      → get_or none (written xs result) i ≡ get_or none result i
  get_or-written b i j [] result le chain = refl
  get_or-written b i j ((r, c) ∷ xs) result le (row, cand, edge, chain) =
      let other : i ≢ r = λ e. omega arith in
      get_or-written r i c xs (set result r (some c)) (omega arith) chain
      ∙ get_or-set_ne none result r i (some c) other

  -- What is written into an empty result is what it holds.
  pairs-written :
      (b j : ℕ) (xs : List (ℕ × ℕ)) (result : List (Option ℕ))
      → b ≤ length result
      → ((i : ℕ) → i < b → get_or none result i ≡ none)
      → IsChain references candidates max_delta b j xs
      → pairs_below b (written xs result) ≡ xs
  pairs-written zero j [] result room free chain = refl
  pairs-written zero j ((r, c) ∷ xs) result room free chain = absurd (omega (arith, chain.0))
  pairs-written (suc b) j [] result room free chain =
      rw (free b (omega arith))
        (pairs-written b j [] result (omega arith) (λ i lt. free i (omega arith)) tt)
  pairs-written (suc b) j ((r, c) ∷ xs) result room free (row, cand, edge, chain) =
      elim (Bool-cases (r == b)) [
        | inr before ↦
            let whole : IsChain references candidates max_delta b j ((r, c) ∷ xs) =
              (ground arith, cand, edge, chain) in
            let untouched = get_or-written b b j ((r, c) ∷ xs) result (omega arith) whole in
            rw (untouched ∙ free b (omega arith)) (
              pairs-written b j ((r, c) ∷ xs) result (omega arith) (λ i lt. free i (omega arith))
                whole)
        | inl here ↦
            let e : r ≡ b = ground arith in
            let next = set result r (some c) in
            let at : get_or none next b ≡ some c =
              ap (get_or none next) (sym e)
              ∙ get_or-set_self none result r (some c) (omega arith) in
            let found = get_or-written r b c xs next (omega arith) chain ∙ at in
            let below =
              pairs-written b c xs next (omega (arith, length-set result r (some c)))
                (λ i lt.
                  let other : i ≢ r = λ k. omega arith in
                  get_or-set_ne none result r i (some c) other ∙ free i (omega arith))
                (IsChain-mono references candidates max_delta r b c c xs (omega arith) (omega arith)
                  chain) in
            rw (found, below, e) refl
      ]

  -- The result of a matching that the edges trace.
  pub write_back-pairs :
      (edges : List Edge) (o : Option ℕ) (xs : List (ℕ × ℕ))
      → Traces edges (length edges) o xs
      → IsChain references candidates max_delta (length references) (length candidates) xs
      → let result = write_back (length edges) edges o (replicate (length references) none) in
        (length result ≡ length references) × (pairs result ≡ xs)
  write_back-pairs edges o xs traced chain =
      let blank = replicate (length references) none in
      let wrote =
        write_back-written (length edges) edges (length edges) o xs blank (omega arith) traced in
      let size = length-replicate (length references) none in
      let long = ap length wrote ∙ length-written xs blank ∙ size in
      let held =
        pairs-written (length references) (length candidates) xs blank (omega (arith, size))
          (λ i lt. get_or-replicate none (length references) i) chain in
      (long, rw (long, wrote) held)
