-- ===== src/Alignment/Matching/Scans.antt =====
-- The candidates of one reference frame in `match_nearest_unique` of matcher.py: the scan that collects
-- the chains, and the updates of the tree behind it.
use mathlib.Core.Path.{subst}
use mathlib.Core.List.{append-nil, append_assoc}
use vision_tactile_dataset.Common.{
  ℕ, zero, suc, ◌+◌, ◌≤◌, ◌<◌, ◌≡◌, refl, sym, ◌∙◌, List, [], ◌∷◌, ◌++◌, arith, ◌==◌, Bool-cases,
  inl, inr, length, get_or, length-append, get_elem?-append_at,
}
use vision_tactile_dataset.Alignment.Matching.{
  Chain, Edge, Pending, extended, query, update, scan, update_all,
}
use vision_tactile_dataset.Alignment.Matching.Chains.{
  AtMost, AtMost-trans, weight, total, IsEdge, IsChain, Traces-append,
}
use vision_tactile_dataset.Alignment.Matching.Tree.{
  entry, Covers, length-update, update-ge, update-Covers, update_is,
}
use vision_tactile_dataset.Alignment.Matching.Rows.{
  Sound, IsComplete, Good, Sound-mono, Good-append, query-Sound, query-best,
}

module _ (references candidates : List ℕ) (max_delta : ℕ) where
  -- An update, or several, of chains that are sound keep the entries so.
  update-Sound :
      (edges : List Edge) (row : ℕ) (tree : List Chain) (k : ℕ) (v : Chain)
      → Sound references candidates max_delta edges row (k + 1) v
      → ((j : ℕ) → Sound references candidates max_delta edges row j (entry tree j))
      → (j : ℕ) → Sound references candidates max_delta edges row j (entry (update tree k v) j)
  update-Sound edges row tree k v new old =
      update_is tree k v (Sound references candidates max_delta edges row) old (λ j lt.
        Sound-mono references candidates max_delta edges row row (k + 1) j v (omega arith)
          (omega arith) new)

  update-keeps :
      (tree : List Chain) (k : ℕ) (v : Chain) (c n w : ℕ)
      → Covers tree c n w
      → Covers (update tree k v) c n w
  update-keeps tree k v c n w covers i room before range =
      AtMost-trans n w (entry tree i) (entry (update tree k v) i)
        (covers i (omega (arith, length-update tree k v)) before range) (update-ge tree k v i)

  -- What `pending` holds of the candidates from `k` on: a sound chain for each, that is not below any
  -- matching which ends there.
  abbrev pub Scanned : List Edge → ℕ → ℕ → ℕ → List Pending → Type 0
  Scanned all row k zero [] = Unit
  Scanned all row k zero (p ∷ ps) = ⊥
  Scanned all row k (suc n) [] = ⊥
  Scanned all row k (suc n) (p ∷ ps) =
      (p.candidate_index ≡ k)
      × Sound references candidates max_delta all (row + 1) (k + 1) p.value
      × ((xs : List (ℕ × ℕ))
          → IsChain references candidates max_delta row k xs
          → AtMost (length xs + 1)
              (weight references candidates row k + total references candidates xs) p.value)
      × Scanned all row (k + 1) n ps

  length-update_all :
      (tree : List Chain) (pending : List Pending) → length (update_all tree pending) ≡ length tree
  unfolding update_all
  length-update_all tree [] = refl
  length-update_all tree (p ∷ ps) =
      length-update_all (update tree p.candidate_index p.value) ps
      ∙ length-update tree p.candidate_index p.value

  update_all-keeps :
      (tree : List Chain) (pending : List Pending) (c n w : ℕ)
      → Covers tree c n w
      → Covers (update_all tree pending) c n w
  unfolding update_all
  update_all-keeps tree [] c n w covers = covers
  update_all-keeps tree (p ∷ ps) c n w covers =
      update_all-keeps (update tree p.candidate_index p.value) ps c n w
        (update-keeps tree p.candidate_index p.value c n w covers)

  update_all-Sound :
      (edges : List Edge) (row : ℕ) (tree : List Chain) (k n : ℕ) (pending : List Pending)
      → Scanned edges row k n pending
      → ((j : ℕ) → Sound references candidates max_delta edges (row + 1) j (entry tree j))
      → (j : ℕ)
      → Sound references candidates max_delta edges (row + 1) j (entry (update_all tree pending) j)
  unfolding update_all
  update_all-Sound edges row tree k zero [] scanned old = old
  update_all-Sound edges row tree k zero (p ∷ ps) scanned old = absurd scanned
  update_all-Sound edges row tree k (suc n) [] scanned old = absurd scanned
  update_all-Sound edges row tree k (suc n) (p ∷ ps) (at, sound, best, rest) old =
      update_all-Sound edges row (update tree p.candidate_index p.value) (k + 1) n ps rest (
        update-Sound edges (row + 1) tree p.candidate_index p.value
          (Sound-mono references candidates max_delta edges (row + 1) (row + 1) (k + 1)
            (p.candidate_index + 1) p.value (omega arith) (omega (arith, at)) sound)
          old)

  -- Behind the updates each candidate of the scan covers the matchings that end there.
  update_all-Covers :
      (edges : List Edge) (row : ℕ) (tree : List Chain) (k n : ℕ) (pending : List Pending)
      → Scanned edges row k n pending
      → (c : ℕ) (xs : List (ℕ × ℕ)) → k ≤ c
      → c < k + n
      → IsChain references candidates max_delta row c xs
      → Covers
          (update_all tree pending)
          c
          (length xs + 1)
          (weight references candidates row c + total references candidates xs)
  unfolding update_all
  update_all-Covers edges row tree k zero pending scanned c xs low up chain = absurd (omega arith)
  update_all-Covers edges row tree k (suc n) [] scanned c xs low up chain = absurd scanned
  update_all-Covers edges row tree k (suc n) (p ∷ ps) (at, sound, best, rest) c xs low up chain =
      elim (Bool-cases (c == k)) [
        | inr further ↦
            update_all-Covers edges row (update tree p.candidate_index p.value) (k + 1) n ps rest c
              xs (ground arith) (omega arith) chain
        | inl here ↦
            let e : k ≡ c = ground arith in
            let at' : p.candidate_index ≡ c = at ∙ e in
            let chain' : IsChain references candidates max_delta row k xs =
              subst (λ m. IsChain references candidates max_delta row m xs) (sym e) chain in
            let best' =
              subst
                (λ m.
                  AtMost (length xs + 1)
                    (weight references candidates row m + total references candidates xs) p.value)
                e (best xs chain') in
            let written = update-Covers tree p.candidate_index p.value in
            let written' =
              subst
                (λ m. Covers (update tree p.candidate_index p.value) m p.value.count p.value.cost)
                at' written in
            update_all-keeps (update tree p.candidate_index p.value) ps c (length xs + 1)
              (weight references candidates row c + total references candidates xs)
              (λ i room before range.
                AtMost-trans (length xs + 1)
                  (weight references candidates row c + total references candidates xs) p.value
                  (entry (update tree p.candidate_index p.value) i) best'
                  (written' i room before range))
      ]

  update_all-IsComplete :
      (edges : List Edge) (row : ℕ) (tree : List Chain) (k n : ℕ) (pending : List Pending)
      → Good references candidates max_delta row tree edges
      → Scanned edges row k n pending
      → ((c : ℕ) → IsEdge references candidates max_delta row c → (k ≤ c) × (c < k + n))
      → IsComplete references candidates max_delta (row + 1) (update_all tree pending)
  update_all-IsComplete edges row tree k n pending (size, complete, sound) scanned near r c xs
        (rows, cands, edge, chain) =
      elim (Bool-cases (r == row)) [
        | inr before ↦
            update_all-keeps tree pending c (length xs + 1)
              (weight references candidates r c + total references candidates xs)
              (complete r c xs (ground arith, cands, edge, chain))
        | inl here ↦
            let e : r ≡ row = ground arith in
            let (low, up) =
              near c (subst (λ m. IsEdge references candidates max_delta m c) e edge) in
            subst
              (λ m.
                Covers (update_all tree pending) c (length xs + 1)
                  (weight references candidates m c + total references candidates xs))
              (sym e)
              (update_all-Covers edges row tree k n pending scanned c xs low up
                (subst (λ m. IsChain references candidates max_delta m c xs) e chain))
      ]

  -- The tree of a row, behind the updates of a row whose scan reaches every candidate near enough.
  pub update_all-Good :
      (edges : List Edge) (row : ℕ) (tree : List Chain) (k n : ℕ) (pending : List Pending)
      → Good references candidates max_delta row tree edges
      → Scanned edges row k n pending
      → ((c : ℕ) → IsEdge references candidates max_delta row c → (k ≤ c) × (c < k + n))
      → Good references candidates max_delta (row + 1) (update_all tree pending) edges
  update_all-Good edges row tree k n pending (size, complete, sound) scanned near = (
    length-update_all tree pending ∙ size,
    update_all-IsComplete edges row tree k n pending (size, complete, sound) scanned near,
    update_all-Sound edges row tree k n pending scanned (λ j.
        Sound-mono references candidates max_delta edges row (row + 1) j j (entry tree j)
          (omega arith) (omega arith) (sound j)),
  )

  -- The chain behind a scanned candidate.
  extended-Sound :
      (row : ℕ) (tree : List Chain) (edges more : List Edge) (i : ℕ)
      → Good references candidates max_delta row tree edges
      → IsEdge references candidates max_delta row i
      → Sound references candidates max_delta
          (edges
            ++ (record {
              reference_index = row;
              candidate_index = i;
              previous = (query tree i).last;
            }
                ∷ more))
          (row + 1)
          (i + 1)
          (extended (query tree i) (weight references candidates row i) (length edges))
  extended-Sound row tree edges more i good near =
      let e : Edge = record {
        reference_index = row;
        candidate_index = i;
        previous = (query tree i).last;
      } in
      let (xs, traced, chain, count, cost) =
        query-Sound references candidates max_delta row tree edges i good in
      (
        (row, i) ∷ xs,
        (
          omega (arith, length-append edges (e ∷ more)),
          (query tree i).last,
          get_elem?-append_at edges more e,
          Traces-append edges (e ∷ more) (length edges) (length edges) (query tree i).last xs
              (omega arith) traced,
        ),
        (omega arith, omega arith, near, chain),
        omega arith,
        omega arith,
      )

  extended-best :
      (row : ℕ) (tree : List Chain) (edges : List Edge) (i : ℕ)
      → Good references candidates max_delta row tree edges
      → IsEdge references candidates max_delta row i
      → (xs : List (ℕ × ℕ)) → IsChain references candidates max_delta row i xs
      → AtMost
          (length xs + 1)
          (weight references candidates row i + total references candidates xs)
          (extended (query tree i) (weight references candidates row i) (length edges))
  extended-best row tree edges i good near xs chain =
      let (count, cost) =
        query-best references candidates max_delta row tree edges i xs good (omega (arith, near.1))
          chain in
      (omega arith, λ e. omega (arith, cost (omega arith)))

  -- The scan of a row appends edges, and collects a chain for each of its candidates.
  pub scan-Scanned :
      (row : ℕ) (tree : List Chain) (n i : ℕ) (edges : List Edge)
      → Good references candidates max_delta row tree edges
      → ((c : ℕ) → i ≤ c → c < i + n → IsEdge references candidates max_delta row c)
      → (more : List Edge) × ((scan tree candidates row (get_or 0 references row) n i edges).1
          ≡ edges ++ more)
        × Scanned
            (scan tree candidates row (get_or 0 references row) n i edges).1
            row
            i
            n
            (scan tree candidates row (get_or 0 references row) n i edges).0
  unfolding scan
  scan-Scanned row tree zero i edges good near = ([], sym (append-nil edges), tt)
  scan-Scanned row tree (suc n) i edges good near =
      let e : Edge = record {
        reference_index = row;
        candidate_index = i;
        previous = (query tree i).last;
      } in
      let (more, eq, scanned) =
        scan-Scanned row tree n (i + 1) (edges ++ (e ∷ []))
          (Good-append references candidates max_delta row tree edges (e ∷ []) good)
          (λ c low up. near c (omega arith) (omega arith)) in
      let all : edges ++ (e ∷ []) ++ more ≡ edges ++ (e ∷ more) =
        append_assoc edges (e ∷ []) more in
      let grown = eq ∙ all in
      (
        e ∷ more,
        grown,
        (
          refl,
          subst
              (λ es.
                Sound references candidates max_delta es (row + 1) (i + 1)
                  (extended (query tree i) (weight references candidates row i) (length edges)))
              (sym grown)
              (extended-Sound row tree edges more i good (near i (omega arith) (omega arith))),
          extended-best row tree edges i good (near i (omega arith) (omega arith)),
          scanned,
        ),
      )
