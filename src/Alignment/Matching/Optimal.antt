-- ===== src/Alignment/Matching/Optimal.antt =====
-- `match_nearest_unique` of matcher.py as a whole: the matching that it returns, and any other.
use mathlib.Core.Path.{subst}
use vision_tactile_dataset.Common.{
  ℕ, suc, ◌+◌, ◌-◌, ◌≤◌, ◌<◌, ◌≡◌, ◌⊎◌, refl, sym, ap, ◌∙◌, true, Option, List, [], ◌∷◌, arith,
  ◌==◌, Bool-cases, inl, inr, length, get_or, replicate, length-replicate, get_or-replicate,
}
use vision_tactile_dataset.Common.Int.{pos}
use vision_tactile_dataset.Common.Monad.{ok}
use vision_tactile_dataset.Alignment.Matcher.{is_increasing, bisect_left, bisect_right}
use vision_tactile_dataset.Alignment.Matching.{
  Chain, empty, Edge, Pending, query, scan, update_all, match_rows, matched, match_nearest_unique,
}
use vision_tactile_dataset.Alignment.Matching.Bisect.{scanned_is_near, near_is_scanned}
use vision_tactile_dataset.Alignment.Matching.Chains.{AtMost, total, IsChain}
use vision_tactile_dataset.Alignment.Matching.Written.{pairs, write_back-pairs}
use vision_tactile_dataset.Alignment.Matching.Rows.{
  Good, Good-append, empty-Sound, query-Sound, query-best,
}
use vision_tactile_dataset.Alignment.Matching.Scans.{update_all-Good, scan-Scanned}

module _ (references candidates : List ℕ) (max_delta : ℕ) where
  abbrev lower_of : ℕ → ℕ
  lower_of time = bisect_left candidates (time - max_delta)

  abbrev upper_of : ℕ → ℕ
  upper_of time = bisect_right candidates (time + max_delta)

  abbrev scanned_of : ℕ → List Chain → List Edge → ℕ → List Pending × List Edge
  scanned_of row tree edges time =
      scan tree candidates row time (upper_of time - lower_of time) (lower_of time) edges

  -- One row of the loop.
  row-Good :
      (row time : ℕ) (tree : List Chain) (edges : List Edge)
      → is_increasing candidates ≡ true
      → row < length references
      → get_or 0 references row ≡ time
      → Good references candidates max_delta row tree edges
      → Good references candidates max_delta
          (row + 1)
          (update_all tree (scanned_of row tree edges time).0)
          (scanned_of row tree edges time).1
  row-Good row time tree edges sorted room e good =
      let t = get_or 0 references row in
      let low = lower_of t in
      let count = upper_of t - lower_of t in
      let (more, grown, scanned) =
        scan-Scanned references candidates max_delta row tree count low edges good (λ c above below.
          let (inside, near) =
            scanned_is_near candidates t max_delta c sorted above (omega arith) in
          (room, inside, near)) in
      subst
        (λ m.
          Good references candidates max_delta (row + 1)
            (update_all tree (scanned_of row tree edges m).0) (scanned_of row tree edges m).1)
        e
        (update_all-Good references candidates max_delta (scanned_of row tree edges t).1 row tree
          low count (scanned_of row tree edges t).0
          (subst (λ es. Good references candidates max_delta row tree es) (sym grown)
            (Good-append references candidates max_delta row tree edges more good))
          scanned
          (λ c edge.
            let (above, below) = near_is_scanned candidates t max_delta c sorted edge.1 edge.2 in
            (above, omega arith)))

  match_rows-Good :
      (times : List ℕ) (row : ℕ) (tree : List Chain) (edges : List Edge)
      → is_increasing candidates ≡ true
      → ((j : ℕ) → get_or 0 times j ≡ get_or 0 references (row + j))
      → row + length times ≡ length references
      → Good references candidates max_delta row tree edges
      → Good references candidates max_delta
          (length references)
          (match_rows candidates max_delta row times tree edges).0
          (match_rows candidates max_delta row times tree edges).1
  unfolding match_rows
  match_rows-Good [] row tree edges sorted same size good =
      let e : row ≡ length references = omega (arith, size) in
      subst (λ n. Good references candidates max_delta n tree edges) e good
  match_rows-Good (time ∷ times) row tree edges sorted same size good =
      let now : get_or 0 references row ≡ time =
        sym (same 0 ∙ ap (get_or 0 references) (omega arith)) in
      let scanned = scanned_of row tree edges time in
      match_rows-Good times (row + 1) (update_all tree scanned.0) scanned.1 sorted
        (λ j. same (suc j) ∙ ap (get_or 0 references) (omega arith)) (omega (arith, size))
        (row-Good row time tree edges sorted (omega (arith, size)) now good)

  -- The tree at first: all of it is empty, and there are no rows.
  start-Good : Good references candidates max_delta 0 (replicate (length candidates + 1) empty) []
  start-Good = (
    length-replicate (length candidates + 1) empty,
    λ r c xs chain. absurd (omega (arith, chain.0)),
    λ j.
        rw (get_or-replicate empty (length candidates + 1) j)
          (empty-Sound references candidates max_delta [] 0 j),
  )

  rows : List Chain × List Edge
  rows = match_rows candidates max_delta 0 references (replicate (length candidates + 1) empty) []

  rows-Good :
      is_increasing candidates ≡ true
      → Good references candidates max_delta (length references) rows.0 rows.1
  unfolding rows
  rows-Good sorted =
      match_rows-Good references 0 (replicate (length candidates + 1) empty) [] sorted
        (λ j. ap (get_or 0 references) (omega arith)) (omega arith) start-Good

  -- The chain that the last query finds, as a matching, is what the result holds.
  matched-pairs :
      is_increasing candidates ≡ true
      → let result = matched references candidates max_delta in
        let found = query rows.0 (length candidates) in
        (length result ≡ length references)
        × IsChain references candidates max_delta
            (length references)
            (length candidates)
            (pairs result)
        × (found.count ≡ length (pairs result))
        × (found.cost ≡ total references candidates (pairs result))
  unfolding matched rows
  matched-pairs sorted =
      let good = rows-Good sorted in
      let (xs, traced, chain, count, cost) =
        query-Sound references candidates max_delta (length references) rows.0 rows.1
          (length candidates) good in
      let (size, held) =
        write_back-pairs references candidates max_delta rows.1
          (query rows.0 (length candidates)).last xs traced chain in
      (size, rw held chain, rw held count, rw held cost)

  accepted :
      is_increasing references ≡ true
      → is_increasing candidates ≡ true
      → match_nearest_unique references candidates (pos max_delta)
        ≡ ok (matched references candidates max_delta)
  unfolding match_nearest_unique
  accepted ordered sorted = rw (ordered, sorted) refl

  at_least :
      (n w : ℕ) (ch : Chain) → AtMost n w ch → (n < ch.count) ⊎ ((n ≡ ch.count) × (ch.cost ≤ w))
  at_least n w ch (le, cost) = elim (Bool-cases (n == ch.count)) [
    | inl same ↦ inr (ground arith, cost (ground arith))
    | inr fewer ↦ inl (ground arith)
  ]

  -- For frames and candidates in order, `match_nearest_unique` returns an entry for each reference frame,
  -- and the entries that are there, from the last back, go down in their frames and in their candidates:
  -- no candidate is used twice, the order is kept, and each is no further than `max_delta_ns` from its
  -- frame.
  pub match_nearest_unique-IsChain :
      is_increasing references ≡ true
      → is_increasing candidates ≡ true
      → (result : List (Option ℕ)) × (match_nearest_unique references candidates (pos max_delta)
          ≡ ok result)
        × (length result ≡ length references)
        × IsChain references candidates max_delta
            (length references)
            (length candidates)
            (pairs result)
  match_nearest_unique-IsChain ordered sorted =
      let (size, chain, count, cost) = matched-pairs sorted in
      (matched references candidates max_delta, accepted ordered sorted, size, chain)

  -- For frames and candidates in order, no matching that uses each frame and each candidate once, keeps the
  -- order and stays within `max_delta_ns`, is better than what `match_nearest_unique` returns: it has fewer
  -- pairs, or as many and a sum of distances that is no less.
  pub match_nearest_unique-optimal :
      (other : List (ℕ × ℕ))
      → is_increasing references ≡ true
      → is_increasing candidates ≡ true
      → IsChain references candidates max_delta (length references) (length candidates) other
      → (result : List (Option ℕ)) × (match_nearest_unique references candidates (pos max_delta)
          ≡ ok result)
        × ((length other < length (pairs result))
            ⊎ ((length other ≡ length (pairs result))
                × (total references candidates (pairs result) ≤ total references candidates other)))
  match_nearest_unique-optimal other ordered sorted chain =
      let (size, own, count, cost) = matched-pairs sorted in
      let best =
        query-best references candidates max_delta (length references) rows.0 rows.1
          (length candidates) other (rows-Good sorted) (omega arith) chain in
      (
        matched references candidates max_delta,
        accepted ordered sorted,
        elim (at_least (length other) (total references candidates other)
            (query rows.0 (length candidates)) best) [
              | inl fewer ↦ inl (omega (arith, count))
              | inr (same, cheaper) ↦ inr (same ∙ count, omega (arith, cost))
            ],
      )
