-- ===== src/Alignment/Matcher/Tests.antt =====
-- Selections from three times.
use vision_tactile_dataset.Common.{◌≡◌, refl, Option, none, some, [], ◌∷◌, ℕ}
use vision_tactile_dataset.Common.Int.{pos}
use vision_tactile_dataset.Common.Monad.{ok, err}
use vision_tactile_dataset.Alignment.Matcher.{
  select_nearest, select_previous, within, select_generic_sample, not_increasing, bad_strategy,
}
use vision_tactile_dataset.Alignment.Matcher.Selection.{IsNearest, select_generic_sample-IsNearest}
use vision_tactile_dataset.Alignment.Matcher.Latest.{IsLatest, select_generic_sample-IsLatest}

machinery : Unit {0}
unfolding select_nearest select_previous within select_generic_sample
machinery = tt

-- A tie goes to the earlier time.
selections :
    (select_generic_sample (10 ∷ 20 ∷ 30 ∷ []) (pos 15) "nearest" (pos 5) ≡ ok (some 0))
    × (select_generic_sample (10 ∷ 20 ∷ 30 ∷ []) (pos 16) "nearest" (pos 5) ≡ ok (some 1))
    × (select_generic_sample (10 ∷ 20 ∷ 30 ∷ []) (pos 40) "nearest" (pos 5) ≡ ok none)
    × (select_generic_sample (10 ∷ 20 ∷ 30 ∷ []) (pos 29) "previous" (pos 9) ≡ ok (some 1))
    × (select_generic_sample (10 ∷ 20 ∷ 30 ∷ []) (pos 9) "previous" (pos 9) ≡ ok none)
    × (select_generic_sample (10 ∷ 10 ∷ []) (pos 9) "previous" (pos 9) ≡ err not_increasing)
    × (select_generic_sample [] (pos 9) "latest" (pos 9) ≡ err bad_strategy)
unfolding machinery
selections = (refl, refl, refl, refl, refl, refl, refl)

select_generic_sample-IsNearest_example :
    (o : Option ℕ) × (select_generic_sample (10 ∷ 20 ∷ 30 ∷ []) (pos 16) "nearest" (pos 5) ≡ ok o)
    × IsNearest 5 16 (10 ∷ 20 ∷ 30 ∷ []) o
select_generic_sample-IsNearest_example =
    select_generic_sample-IsNearest (10 ∷ 20 ∷ 30 ∷ []) 16 5 refl

select_generic_sample-IsLatest_example :
    (o : Option ℕ) × (select_generic_sample (10 ∷ 20 ∷ 30 ∷ []) (pos 29) "previous" (pos 9) ≡ ok o)
    × IsLatest 9 29 (10 ∷ 20 ∷ 30 ∷ []) o
select_generic_sample-IsLatest_example =
    select_generic_sample-IsLatest (10 ∷ 20 ∷ 30 ∷ []) 29 9 refl
