-- ===== src/Alignment/Matching.antt =====
-- The unique matching of a camera's frames to the reference frames: `match_nearest_unique` of
-- tools/multisensor_alignment/src/vt_multisensor_alignment/matcher.py, with its Fenwick tree of chains.
-- A loop that goes on by the lowest set bit of its index takes fuel: as much as the index on the way
-- down, and as the length of the tree on the way up. Timestamps are natural numbers here; the check of
-- `_timestamps` for negative ones is left out.
pub mod LowBit
pub mod Chains
pub mod Tree
pub mod Bisect
pub mod Rows
pub mod Scans
pub mod Written
pub mod Optimal
mod Tests
use vision_tactile_dataset.Common.{
  ℕ, zero, suc, ◌+◌, ◌-◌, ◌*◌, ◌/◌, ◌%◌, Bool, true, false, ◌&&◌, Option, none, some, List, [], ◌∷◌,
  ◌++◌, ltb, ◌==◌, if◌then◌else◌, length, get_elem?, get_or, set, replicate,
}
use vision_tactile_dataset.Common.Int.{ℤ, pos, negsuc}
use vision_tactile_dataset.Common.Monad.{Result, ok, err}
use vision_tactile_dataset.Alignment.Matcher.{is_increasing, bisect_left, bisect_right, distance}

-- The tuple `chain`: how many matches, the sum of their distances, and the edge of the last one.
pub record Chain : Type 0 where
  pub count : ℕ
  pub cost : ℕ
  pub last : Option ℕ

abbrev pub empty : Chain
empty = record { count = 0; cost = 0; last = none }

-- An entry of `edges`: the indices that are matched, and the edge before.
pub record Edge : Type 0 where
  pub reference_index : ℕ
  pub candidate_index : ℕ
  pub previous : Option ℕ

-- `left_key > right_key`, of keys (count, -cost).
abbrev pub is_above : Chain → Chain → Bool
is_above left right =
    if ltb right.count left.count
    then true
    else left.count == right.count && ltb left.cost right.cost

abbrev pub has_equal_key : Chain → Chain → Bool
has_equal_key left right = left.count == right.count && left.cost == right.cost

abbrev pub by_edge : Chain → Chain → Option ℕ → Option ℕ → Chain
by_edge left right none r = right
by_edge left right (some l) none = left
by_edge left right (some l) (some r) = if ltb l r then left else right

unfoldable pub better : Chain → Chain → Chain
better left right =
    if has_equal_key left right
    then by_edge left right left.last right.last
    else if is_above left right
    then left
    else right

-- `index & -index` of a positive index: the largest power of two that divides it.
unfoldable pub low_bit_on : ℕ → ℕ → ℕ
low_bit_on zero n = 1
low_bit_on (suc fuel) n = let half = low_bit_on fuel (n / 2) in if n % 2 == 0 then 2 * half else 1

unfoldable pub low_bit : ℕ → ℕ
low_bit n = low_bit_on n n

-- `query`: the loop down.
unfoldable pub query_on : ℕ → List Chain → ℕ → Chain → Chain
query_on zero tree index result = result
query_on (suc fuel) tree index result =
    let rest =
      query_on fuel tree (index - low_bit index) (better result (get_or empty tree index)) in
    if index == 0 then result else rest

unfoldable pub query : List Chain → ℕ → Chain
query tree candidate_count = query_on candidate_count tree candidate_count empty

-- `update`: the loop up.
unfoldable pub update_on : ℕ → List Chain → ℕ → Chain → List Chain
update_on zero tree index value = tree
update_on (suc fuel) tree index value =
    let rest =
      update_on fuel (set tree index (better (get_or empty tree index) value))
        (index + low_bit index) value in
    if ltb index (length tree) then rest else tree

unfoldable pub update : List Chain → ℕ → Chain → List Chain
update tree candidate_index value = update_on (length tree) tree (candidate_index + 1) value

-- `pending.append((candidate_index, value))`
pub record Pending : Type 0 where
  pub candidate_index : ℕ
  pub value : Chain

-- The edge to a candidate, behind the best chain of the candidates before.
abbrev pub extended : Chain → ℕ → ℕ → Chain
extended before weight edge_index = record {
  count = before.count + 1;
  cost = before.cost + weight;
  last = some edge_index;
}

-- The loop over `range(lower, upper)`: the edges are appended, and the tree is only read.
unfoldable pub scan : List Chain → List ℕ → ℕ → ℕ → ℕ → ℕ → List Edge → List Pending × List Edge
scan tree candidates reference_index reference zero i edges = ([], edges)
scan tree candidates reference_index reference (suc n) i edges =
    let before = query tree i in
    let edge : Edge = record {
      reference_index = reference_index;
      candidate_index = i;
      previous = before.last;
    } in
    let (pending, all) =
      scan tree candidates reference_index reference n (i + 1) (edges ++ (edge ∷ [])) in
    (
      (record {
        candidate_index = i;
        value = extended before (distance (get_or 0 candidates i) reference) (length edges);
      })
          ∷ pending,
      all,
    )

unfoldable pub update_all : List Chain → List Pending → List Chain
update_all tree [] = tree
update_all tree (p ∷ pending) = update_all (update tree p.candidate_index p.value) pending

-- The loop over the reference frames.
unfoldable pub match_rows :
    List ℕ → ℕ → ℕ → List ℕ → List Chain → List Edge → List Chain × List Edge
match_rows candidates max_delta reference_index [] tree edges = (tree, edges)
match_rows candidates max_delta reference_index (reference ∷ references) tree edges =
    let lower = bisect_left candidates (reference - max_delta) in
    let upper = bisect_right candidates (reference + max_delta) in
    let (pending, edges') =
      scan tree candidates reference_index reference (upper - lower) lower edges in
    match_rows candidates max_delta (reference_index + 1) references (update_all tree pending)
      edges'

-- The last loop follows the edges back and writes the result; each edge leads to an earlier one.
unfoldable pub write_back : ℕ → List Edge → Option ℕ → List (Option ℕ) → List (Option ℕ)
write_back zero edges edge_index result = result
write_back (suc fuel) edges none result = result
write_back (suc fuel) edges (some edge_index) result = elim (get_elem? edges edge_index) [
  | none ↦ result
  | some e ↦
      write_back fuel edges e.previous (set result e.reference_index (some e.candidate_index))
]

unfoldable pub matched : List ℕ → List ℕ → ℕ → List (Option ℕ)
matched references candidates max_delta =
    let (tree, edges) =
      match_rows candidates max_delta 0 references (replicate (length candidates + 1) empty) [] in
    write_back (length edges) edges (query tree (length candidates)).last
      (replicate (length references) none)

pub data Error : Type 0 where
  references_not_increasing candidates_not_increasing bad_max_delta : Error

unfoldable pub match_nearest_unique : List ℕ → List ℕ → ℤ → Result Error (List (Option ℕ))
match_nearest_unique references candidates max_delta =
    if is_increasing references
    then if is_increasing candidates
      then elim max_delta [
        | negsuc n ↦ err bad_max_delta
        | pos n ↦ ok (matched references candidates n)
      ]
      else err candidates_not_increasing
    else err references_not_increasing
