-- ===== src/Tracker/Queue/Counts.antt =====
-- The drops that the queue of health.py reports to the health book.
use vision_tactile_dataset.Common.{
  ℕ, ◌+◌, ◌≡◌, refl, Bool, true, Option, none, some, List, [], ◌∷◌, String, arith, is_some,
  Bool-cases, inl, inr, ap, All, length, ◌<◌, ◌++◌, drop, zero, suc,
}
use vision_tactile_dataset.Tracker.Queue.{BoundedSampleQueue, report_oldest}
use vision_tactile_dataset.Common.Dict.{
  Dict, lookup, insert, str_eq, lookup-insert_self, lookup-insert_ne,
}
use vision_tactile_dataset.Common.Monad.{Result, ok}
use vision_tactile_dataset.Tracker.Health.{
  Health, TrackerHealthBook, Error, record_drop, drop_in, StampedTrackerSample,
}
use text.Mathlib.TextEquality.{eq_iff}

-- The drops counted for all roles.
abbrev pub drops : Dict Health → ℕ
drops [] = 0
drops ((role, v) ∷ d) = v.dropped_queue_count + drops d

abbrev pub is_known : TrackerHealthBook → String → Bool
is_known s role = is_some (lookup role s.values)

drops-insert :
    (role : String) (v u : Health) (d : Dict Health)
    → lookup role d ≡ some v
    → drops (insert role u d) + v.dropped_queue_count ≡ drops d + u.dropped_queue_count
unfolding insert
drops-insert role v u [] q = ground arith
drops-insert role v u (e ∷ d) q = ground (arith, drops-insert role v u d)

is_some-insert :
    (j role : String) (u : Health) (d : Dict Health)
    → is_some (lookup j d) ≡ true
    → is_some (lookup j (insert role u d)) ≡ true
is_some-insert j role u d q = elim (Bool-cases (str_eq j role)) [
  | inl same ↦ ground (arith, eq_iff j role, lookup-insert_self role u d)
  | inr other ↦ ground (arith, eq_iff j role, lookup-insert_ne j role u d)
]

-- A drop that is counted: one more in all, and every known role stays known.
unfoldable pub Dropped : TrackerHealthBook → Result Error (Unit {0}) × TrackerHealthBook → Type 0
Dropped s (r, s') =
    (r ≡ ok tt)
    × (drops s'.values ≡ drops s.values + 1)
    × ((j : String) → is_known s j ≡ true → is_known s' j ≡ true)

drop_in-Dropped :
    (role : String) (s : TrackerHealthBook) (o : Option Health)
    → lookup role s.values ≡ o
    → is_some o ≡ true
    → Dropped s (drop_in role o s)
unfolding Dropped
drop_in-Dropped role s none q h = ground arith
drop_in-Dropped role s (some v) q h =
    let u = record v { dropped_queue_count = v.dropped_queue_count + 1 } in
    (refl, omega (arith, drops-insert role v u s.values q), λ j. is_some-insert j role u s.values)

pub record_drop-Dropped :
    (role : String) (s : TrackerHealthBook)
    → is_known s role ≡ true
    → Dropped s (record_drop role s)
unfolding record_drop
record_drop-Dropped role s h = drop_in-Dropped role s (lookup role s.values) refl h

abbrev pub AllKnown : TrackerHealthBook → List StampedTrackerSample → Type 0
AllKnown s = All (λ x. is_known s x.role ≡ true)

-- Reporting the oldest sample of a queue that is not empty, of a known role.
pub report_oldest-counts :
    (xs : List StampedTrackerSample) (q : BoundedSampleQueue)
    → 0 < length xs
    → AllKnown q.health_book xs
    → (s' : TrackerHealthBook) × (report_oldest xs q ≡ (ok tt, record q { health_book = s' }))
      × (drops s'.values ≡ drops q.health_book.values + 1)
      × ((j : String) → is_known q.health_book j ≡ true → is_known s' j ≡ true)
unfolding Dropped
report_oldest-counts [] q p h = absurd (omega arith)
report_oldest-counts (x ∷ xs) q p h =
    let dropped = record_drop-Dropped x.role q.health_book h.0 in
    let s' = (record_drop x.role q.health_book).1 in
    (s', ap (λ r. (r, record q { health_book = s' })) dropped.0, dropped.1, dropped.2)

pub AllKnown-mono :
    (s s' : TrackerHealthBook) (xs : List StampedTrackerSample)
    → ((j : String) → is_known s j ≡ true → is_known s' j ≡ true)
    → AllKnown s xs
    → AllKnown s' xs
AllKnown-mono s s' [] f h = tt
AllKnown-mono s s' (x ∷ xs) f h = (f x.role h.0, AllKnown-mono s s' xs f h.1)

pub AllKnown-append :
    (s : TrackerHealthBook) (xs ys : List StampedTrackerSample)
    → AllKnown s xs
    → AllKnown s ys
    → AllKnown s (xs ++ ys)
AllKnown-append s [] ys h k = k
AllKnown-append s (x ∷ xs) ys h k = (h.0, AllKnown-append s xs ys h.1 k)

pub AllKnown-drop :
    (s : TrackerHealthBook) (n : ℕ) (xs : List StampedTrackerSample)
    → AllKnown s xs
    → AllKnown s (drop n xs)
AllKnown-drop s zero xs h = h
AllKnown-drop s (suc n) [] h = tt
AllKnown-drop s (suc n) (x ∷ xs) h = AllKnown-drop s n xs h.1
