-- ===== src/Alignment/Matching/Rows.antt =====
-- The rows of `match_nearest_unique` of matcher.py: what the tree and the edges hold behind each
-- reference frame.
use vision_tactile_dataset.Common.{
  ℕ, ◌+◌, ◌≤◌, ◌≡◌, refl, List, [], ◌∷◌, ◌++◌, arith, length, length-append,
}
use vision_tactile_dataset.Alignment.Matching.{Chain, empty, Edge, query}
use vision_tactile_dataset.Alignment.Matching.Chains.{
  AtMost, weight, total, IsChain, IsChain-mono, Traces, Traces-append,
}
use vision_tactile_dataset.Alignment.Matching.Tree.{entry, Covers, query-finds, query_is}

module _ (references candidates : List ℕ) (max_delta : ℕ) where
  -- A chain that the edges trace to a matching of that count and cost.
  abbrev pub Sound : List Edge → ℕ → ℕ → Chain → Type 0
  Sound edges r c ch =
      (xs : List (ℕ × ℕ)) × Traces edges (length edges) ch.last xs
      × IsChain references candidates max_delta r c xs
      × (ch.count ≡ length xs)
      × (ch.cost ≡ total references candidates xs)

  -- The tree covers every matching of the rows so far by its last pair.
  abbrev pub IsComplete : ℕ → List Chain → Type 0
  IsComplete row tree =
      (r c : ℕ) (xs : List (ℕ × ℕ))
      → IsChain references candidates max_delta row (length candidates) ((r, c) ∷ xs)
      → Covers tree c (length xs + 1)
          (weight references candidates r c + total references candidates xs)

  abbrev pub Good : ℕ → List Chain → List Edge → Type 0
  Good row tree edges =
      (length tree ≡ length candidates + 1)
      × IsComplete row tree
      × ((j : ℕ) → Sound edges row j (entry tree j))

  pub empty-Sound : (edges : List Edge) (r c : ℕ) → Sound edges r c empty
  empty-Sound edges r c = ([], tt, tt, refl, refl)

  pub Sound-mono :
      (edges : List Edge) (r r' c c' : ℕ) (ch : Chain)
      → r ≤ r'
      → c ≤ c'
      → Sound edges r c ch
      → Sound edges r' c' ch
  Sound-mono edges r r' c c' ch p q (xs, traced, chain, count, cost) =
      (xs, traced, IsChain-mono references candidates max_delta r r' c c' xs p q chain, count, cost)

  Sound-append :
      (edges more : List Edge) (r c : ℕ) (ch : Chain)
      → Sound edges r c ch
      → Sound (edges ++ more) r c ch
  Sound-append edges more r c ch (xs, traced, chain, count, cost) = (
    xs,
    Traces-append edges more (length edges) (length (edges ++ more)) ch.last xs
        (omega (arith, length-append edges more)) traced,
    chain,
    count,
    cost,
  )

  pub Good-append :
      (row : ℕ) (tree : List Chain) (edges more : List Edge)
      → Good row tree edges
      → Good row tree (edges ++ more)
  Good-append row tree edges more (size, complete, sound) =
      (size, complete, λ j. Sound-append edges more row j (entry tree j) (sound j))

  pub query-Sound :
      (row : ℕ) (tree : List Chain) (edges : List Edge) (i : ℕ)
      → Good row tree edges
      → Sound edges row i (query tree i)
  query-Sound row tree edges i (size, complete, sound) =
      query_is (Sound edges row i) tree i (empty-Sound edges row i)
        (λ j le. Sound-mono edges row row j i (entry tree j) (omega arith) le (sound j))

  Sound-free :
      (edges : List Edge) (r c : ℕ) (ch : Chain) → Sound edges r c ch → 0 ≡ ch.count → ch.cost ≤ 0
  Sound-free edges r c ch ([], traced, chain, count, cost) e = omega arith
  Sound-free edges r c ch (x ∷ xs, traced, chain, count, cost) e = absurd (omega arith)

  -- A query is not below any matching of the rows so far and the candidates before.
  pub query-best :
      (row : ℕ) (tree : List Chain) (edges : List Edge) (i : ℕ) (xs : List (ℕ × ℕ))
      → Good row tree edges
      → i ≤ length candidates
      → IsChain references candidates max_delta row i xs
      → AtMost (length xs) (total references candidates xs) (query tree i)
  query-best row tree edges i [] good le chain =
      let found = query-Sound row tree edges i good in
      (omega arith, Sound-free edges row i (query tree i) found)
  query-best row tree edges i ((r, c) ∷ xs) (size, complete, sound) le chain =
      let wider =
        IsChain-mono references candidates max_delta row row i (length candidates) ((r, c) ∷ xs)
          (omega arith) le chain in
      let (count, cost) =
        query-finds tree i c (length xs + 1)
          (weight references candidates r c + total references candidates xs) (omega (arith, size))
          chain.1 (complete r c xs wider) in
      (omega arith, λ e. cost (omega arith))
