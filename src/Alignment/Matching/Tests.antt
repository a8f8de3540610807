-- ===== src/Alignment/Matching/Tests.antt =====
-- Matchings of a few frames.
use vision_tactile_dataset.Common.{
  ◌≡◌, ◌<◌, ◌≤◌, ◌⊎◌, refl, Option, none, some, List, [], ◌∷◌, ℕ, arith, length,
}
use vision_tactile_dataset.Common.Int.{pos, negsuc}
use vision_tactile_dataset.Common.Monad.{ok, err}
use vision_tactile_dataset.Alignment.Matching.{
  better, low_bit_on, low_bit, query_on, query, update_on, update, scan, update_all, match_rows,
  write_back, matched, match_nearest_unique, references_not_increasing, bad_max_delta,
}
use vision_tactile_dataset.Alignment.Matching.Chains.{total, IsChain}
use vision_tactile_dataset.Alignment.Matching.Written.{pairs}
use vision_tactile_dataset.Alignment.Matching.Optimal.{
  match_nearest_unique-IsChain, match_nearest_unique-optimal,
}

machinery : Unit {0}
unfolding better low_bit_on low_bit query_on query update_on update scan update_all match_rows
    write_back matched match_nearest_unique
machinery = tt

low_bits : (low_bit 12 ≡ 4) × (low_bit 7 ≡ 1) × (low_bit 8 ≡ 8)
unfolding machinery
low_bits = (refl, refl, refl)

-- The nearest candidate of the first frame is left to the second, which has no other.
matchings :
    (match_nearest_unique (10 ∷ 20 ∷ []) (0 ∷ 13 ∷ []) (pos 10) ≡ ok (some 0 ∷ some 1 ∷ []))
    × (match_nearest_unique (10 ∷ 20 ∷ 30 ∷ []) (11 ∷ 29 ∷ []) (pos 5)
        ≡ ok (some 0 ∷ none ∷ some 1 ∷ []))
    × (match_nearest_unique (10 ∷ 20 ∷ []) [] (pos 5) ≡ ok (none ∷ none ∷ []))
    × (match_nearest_unique (10 ∷ 10 ∷ []) [] (pos 5) ≡ err references_not_increasing)
    × (match_nearest_unique (10 ∷ []) [] (negsuc 0) ≡ err bad_max_delta)
unfolding machinery
matchings = (refl, refl, refl, refl, refl)

abbrev two_frames : List ℕ
two_frames = 10 ∷ 20 ∷ []

abbrev two_candidates : List ℕ
two_candidates = 0 ∷ 13 ∷ []

match_nearest_unique-IsChain_example :
    (result : List (Option ℕ)) × (match_nearest_unique two_frames two_candidates (pos 10)
      ≡ ok result)
    × (length result ≡ 2)
    × IsChain two_frames two_candidates 10 2 2 (pairs result)
match_nearest_unique-IsChain_example =
    match_nearest_unique-IsChain two_frames two_candidates 10 refl refl

-- The greedy matching of the first frame with the nearest candidate.
match_nearest_unique-optimal_example :
    (result : List (Option ℕ)) × (match_nearest_unique two_frames two_candidates (pos 10)
      ≡ ok result)
    × ((1 < length (pairs result))
        ⊎ ((1 ≡ length (pairs result)) × (total two_frames two_candidates (pairs result) ≤ 3)))
match_nearest_unique-optimal_example =
    match_nearest_unique-optimal two_frames two_candidates 10 ((0, 1) ∷ []) refl refl
      (omega arith, omega arith, (omega arith, omega arith, omega arith), tt)
