-- ===== src/Alignment/Matcher.antt =====
-- The choice of a sample for a time: `_timestamps` and `select_generic_sample` of
-- tools/multisensor_alignment/src/vt_multisensor_alignment/matcher.py. A sample is read by its time
-- alone. `bisect_left` and `bisect_right` of Python's library give, for times in order, the number of
-- those before a time, and of those not after it. The times of the samples are natural numbers; the
-- check for negative ones is left out.
pub mod Selection
pub mod Latest
mod Tests
use vision_tactile_dataset.Common.{
  ℕ, zero, suc, ◌+◌, ◌-◌, Bool, true, false, ◌&&◌, Option, none, some, List, [], ◌∷◌, String, ltb,
  leb, if◌then◌else◌, length, get_elem?,
}
use vision_tactile_dataset.Common.Dict.{str_eq}
use vision_tactile_dataset.Common.Int.{ℤ, pos, negsuc}
use vision_tactile_dataset.Common.Monad.{Result, ok, err}

pub data Error : Type 0 where
  bad_timestamp bad_max_delta bad_strategy not_increasing : Error

-- `all(left < right for left, right in zip(result, result[1:]))`
abbrev pub is_increasing : List ℕ → Bool
is_increasing [] = true
is_increasing (t ∷ []) = true
is_increasing (t ∷ u ∷ ts) = ltb t u && is_increasing (u ∷ ts)

abbrev pub bisect_left : List ℕ → ℕ → ℕ
bisect_left [] x = 0
bisect_left (t ∷ ts) x = if ltb t x then suc (bisect_left ts x) else 0

abbrev pub bisect_right : List ℕ → ℕ → ℕ
bisect_right [] x = 0
bisect_right (t ∷ ts) x = if leb t x then suc (bisect_right ts x) else 0

-- `abs(a - b)`
abbrev pub distance : ℕ → ℕ → ℕ
distance a b = if ltb a b then b - a else a - b

pub data Strategy : Type 0 where
  nearest previous : Strategy

-- `strategy not in {"nearest", "previous"}`
abbrev pub strategy_of : String → Option Strategy
strategy_of name =
    if str_eq name "nearest"
    then some nearest
    else if str_eq name "previous"
    then some previous
    else none

-- The smaller by distance, and by index where the distances are equal.
abbrev pub closer : ℕ → ℕ → ℕ → Option ℕ → ℕ
closer t i before none = i
closer t i before (some after) = if ltb (distance after t) (distance before t) then suc i else i

-- The choices are the index before the insertion point and the insertion point, where they exist.
unfoldable pub select_nearest : List ℕ → ℕ → ℕ → Option ℕ
select_nearest ts t zero = elim ts [ [] ↦ none | _ ∷ _ ↦ some 0 ]
select_nearest ts t (suc i) = elim (get_elem? ts i) [
  | none ↦ none
  | some before ↦ some (closer t i before (get_elem? ts (suc i)))
]

unfoldable pub select_previous : ℕ → Option ℕ
select_previous zero = none
select_previous (suc i) = some i

abbrev pub select_by : Strategy → List ℕ → ℕ → Option ℕ
select_by nearest ts t = select_nearest ts t (bisect_left ts t)
select_by previous ts t = select_previous (bisect_right ts t)

-- The last test: the selected time is not too far.
abbrev pub if_close : ℕ → ℕ → ℕ → Option ℕ → Option ℕ
if_close max_delta t i none = none
if_close max_delta t i (some u) = if ltb max_delta (distance u t) then none else some i

unfoldable pub within : ℕ → List ℕ → ℕ → Option ℕ → Option ℕ
within max_delta ts t none = none
within max_delta ts t (some i) = if_close max_delta t i (get_elem? ts i)

abbrev pub select_known : Option Strategy → List ℕ → ℕ → ℕ → Result Error (Option ℕ)
select_known none ts t max_delta = err bad_strategy
select_known (some strategy) ts t max_delta =
    if is_increasing ts
    then ok (within max_delta ts t (select_by strategy ts t))
    else err not_increasing

unfoldable pub select_generic_sample : List ℕ → ℤ → String → ℤ → Result Error (Option ℕ)
select_generic_sample ts (negsuc n) strategy max_delta = err bad_timestamp
select_generic_sample ts (pos t) strategy (negsuc n) = err bad_max_delta
select_generic_sample ts (pos t) strategy (pos max_delta) =
    select_known (strategy_of strategy) ts t max_delta
