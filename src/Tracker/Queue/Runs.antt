-- ===== src/Tracker/Queue/Runs.antt =====
-- Any samples put into the queue of health.py: what it holds then, and what it has dropped.
use mathlib.Core.Path.{subst}
use vision_tactile_dataset.Common.{
  List, ◌+◌, ◌≤◌, ◌<◌, ◌≡◌, refl, sym, ap, ◌∙◌, Bool, true, false, if◌then◌else◌, ◌-◌, [], ◌∷◌,
  ◌++◌, String, ◌==◌, arith, length, length-append,
}
use vision_tactile_dataset.Common.Monad.{Result, ok, bind-eq, pure, modify, ◌>>◌}
use vision_tactile_dataset.Tracker.Health.{StampedTrackerSample, TrackerHealthBook, Error}
use vision_tactile_dataset.Tracker.Queue.{BoundedSampleQueue, Method, make_room, put}
use vision_tactile_dataset.Common.Deque.{
  append_bounded, latest, length-drop, append_bounded-eq-latest, latest-append, length-latest,
}
use vision_tactile_dataset.Tracker.Queue.Counts.{
  drops, is_known, AllKnown, report_oldest-counts, AllKnown-mono, AllKnown-append, AllKnown-drop,
}

abbrev pub Samples : Type 0
Samples = List StampedTrackerSample

-- A queue of which the book knows the roles, with room for a sample, not over its capacity.
unfoldable pub IsQueue : BoundedSampleQueue → Type 0
IsQueue q = (0 < q.capacity) × (length q.values ≤ q.capacity) × AllKnown q.health_book q.values

-- How a queue that took samples stands to the one before: it keeps the latest, and each of the others
-- is counted as a drop.
unfoldable pub Took :
    Samples → BoundedSampleQueue → Result Error (Unit {0}) × BoundedSampleQueue → Type 0
Took xs q (r, q') =
    (r ≡ ok tt)
    × (q'.capacity ≡ q.capacity)
    × (q'.values ≡ latest q.capacity (q.values ++ xs))
    × (drops q'.health_book.values + length q'.values
        ≡ drops q.health_book.values + length (q.values ++ xs))

-- `put` for each sample of a list.
unfoldable pub put_all : Samples → Method (Unit {0})
put_all [] = pure tt
put_all (x ∷ xs) = put x >> put_all xs

-- The state after the room is made.
room-Took :
    (x : StampedTrackerSample) (q : BoundedSampleQueue) (s' : TrackerHealthBook)
    → length q.values ≤ q.capacity
    → (drops s'.values + length (latest q.capacity (q.values ++ (x ∷ [])))
        ≡ drops q.health_book.values + length (q.values ++ (x ∷ [])))
    → let values = append_bounded q.capacity q.values x in
      Took (x ∷ []) q (ok tt, record q { health_book = s'; values = values })
unfolding Took
room-Took x q s' fits counted =
    let kept = append_bounded-eq-latest q.capacity q.values x fits in
    (refl, refl, kept, simp kept counted)

full_length :
    (q : BoundedSampleQueue) (x : StampedTrackerSample) (b : Bool)
    → (length q.values == q.capacity) ≡ b
    → length q.values ≤ q.capacity
    → length (latest q.capacity (q.values ++ (x ∷ []))) + (if b then 1 else 0)
      ≡ length (q.values ++ (x ∷ []))
unfolding latest
full_length q x b e fits =
    let one_more = length-append q.values (x ∷ []) in
    let short = length-drop (length (q.values ++ (x ∷ [])) - q.capacity) (q.values ++ (x ∷ [])) in
    ground arith

-- What a `put` of a known role gives, by whether the queue is full.
PutWell :
    StampedTrackerSample
    → BoundedSampleQueue
    → Result Error (Unit {0}) × BoundedSampleQueue
    → Type 0
PutWell x q (r, q') =
    Took (x ∷ []) q (r, q')
    × ((j : String) → is_known q.health_book j ≡ true → is_known q'.health_book j ≡ true)

room-PutWell :
    (x : StampedTrackerSample) (q : BoundedSampleQueue)
    → (length q.values == q.capacity) ≡ false
    → IsQueue q
    → PutWell x q (ok tt, record q { values = append_bounded q.capacity q.values x })
unfolding IsQueue PutWell
room-PutWell x q e h =
    (room-Took x q q.health_book h.1 (omega (arith, full_length q x false e h.1)), λ j k. k)

full-PutWell :
    (x : StampedTrackerSample) (q : BoundedSampleQueue) (s' : TrackerHealthBook)
    → (length q.values == q.capacity) ≡ true
    → IsQueue q
    → drops s'.values ≡ drops q.health_book.values + 1
    → ((j : String) → is_known q.health_book j ≡ true → is_known s' j ≡ true)
    → let values = append_bounded q.capacity q.values x in
      PutWell x q (ok tt, record q { health_book = s'; values = values })
unfolding IsQueue PutWell
full-PutWell x q s' e h counted known =
    (room-Took x q s' h.1 (omega (arith, counted, full_length q x true e h.1)), known)

occupied :
    (q : BoundedSampleQueue)
    → (length q.values == q.capacity) ≡ true
    → IsQueue q
    → (0 < length q.values) × AllKnown q.health_book q.values
unfolding IsQueue
occupied q e h = (ground arith, h.2)

put_in :
    (x : StampedTrackerSample) (q : BoundedSampleQueue) (b : Bool)
    → (length q.values == q.capacity) ≡ b
    → IsQueue q
    → PutWell x q (
        (make_room b
            >> modify (λ q'. record q' { values = append_bounded q'.capacity q'.values x }))
          q)
put_in x q false e h = room-PutWell x q e h
put_in x q true e h =
    let write : Method (Unit {0}) =
      modify (λ q'. record q' { values = append_bounded q'.capacity q'.values x }) in
    let (some_held, known_held) = occupied q e h in
    let (s', reported, counted, known) = report_oldest-counts q.values q some_held known_held in
    let ends = bind-eq (make_room true) (λ _. write) q reported in
    subst (PutWell x q) (sym ends) (full-PutWell x q s' e h counted known)

put_well : (x : StampedTrackerSample) (q : BoundedSampleQueue) → IsQueue q → PutWell x q (put x q)
unfolding put
put_well x q h = put_in x q (length q.values == q.capacity) refl h

put-IsQueue :
    (x : StampedTrackerSample) (q : BoundedSampleQueue)
    → is_known q.health_book x.role ≡ true
    → IsQueue q
    → IsQueue (put x q).1
unfolding IsQueue Took PutWell latest
put-IsQueue x q known h =
    let ((r, same, values, counted), mono) = put_well x q h in
    let all = q.values ++ (x ∷ []) in
    let known_all = AllKnown-append q.health_book q.values (x ∷ []) h.2 (known, tt) in
    let known_kept = AllKnown-drop q.health_book (length all - q.capacity) all known_all in
    (
      omega (arith, same, h.0),
      simp (values, same) (length-latest q.capacity all),
      simp values (AllKnown-mono q.health_book (put x q).1.health_book _ mono known_kept),
    )

append_nil : (xs : Samples) → xs ++ [] ≡ xs
append_nil [] = refl
append_nil (x ∷ xs) = ap (λ l. x ∷ l) (append_nil xs)

append_assoc : (xs ys zs : Samples) → (xs ++ ys) ++ zs ≡ xs ++ (ys ++ zs)
append_assoc [] ys zs = refl
append_assoc (x ∷ xs) ys zs = ap (λ l. x ∷ l) (append_assoc xs ys zs)

Took-append :
    (x : StampedTrackerSample) (xs : Samples) (q q' : BoundedSampleQueue)
    (r : Result Error (Unit {0}) × BoundedSampleQueue)
    → Took (x ∷ []) q (ok tt, q')
    → Took xs q' r
    → Took (x ∷ xs) q r
unfolding Took
Took-append x xs q q' r (_, same, values, counted) (well, same', values', counted') = (
  well,
  same' ∙ same,
  simp (values', values, same)
      (latest-append q.capacity (q.values ++ (x ∷ [])) xs
        ∙ ap (latest q.capacity) (append_assoc q.values (x ∷ []) xs)),
  omega (
    arith,
    counted,
    counted',
    length-append q'.values xs,
    length-append q.values (x ∷ xs),
    length-append q.values (x ∷ []),
  ),
)

-- A `put` that returns, as an equation.
taken :
    (x : StampedTrackerSample) (q : BoundedSampleQueue)
    → IsQueue q
    → ((put x q ≡ (ok tt, (put x q).1)) × Took (x ∷ []) q (ok tt, (put x q).1))
      × ((j : String) → is_known q.health_book j ≡ true → is_known (put x q).1.health_book j ≡ true)
unfolding PutWell Took
taken x q h =
    let ((well, same, values, counted), mono) = put_well x q h in
    ((ap (λ r. (r, (put x q).1)) well, (refl, same, values, counted)), mono)

none-Took : (q : BoundedSampleQueue) → IsQueue q → Took [] q (ok tt, q)
unfolding IsQueue Took latest
none-Took q h =
    let none_over : length (q.values ++ []) - q.capacity ≡ 0 =
      omega (arith, length-append q.values [], h.1) in
    (
      refl,
      refl,
      simp none_over (sym (append_nil q.values)),
      omega (arith, length-append q.values []),
    )

-- Samples of known roles, put one after the other into a queue that is not over its capacity and of
-- whose samples the book knows the roles: every `put` returns; the queue then holds the latest of all
-- these samples, as many as its capacity, in order; and each of the others is one drop more in the
-- health book.
pub put_all-Took :
    (xs : Samples) (q : BoundedSampleQueue)
    → IsQueue q
    → AllKnown q.health_book xs
    → Took xs q (put_all xs q)
unfolding put_all
put_all-Took [] q h k = none-Took q h
put_all-Took (x ∷ xs) q h k =
    let ((well, first), mono) = taken x q h in
    let q' = (put x q).1 in
    let known = AllKnown-mono q.health_book q'.health_book xs mono k.1 in
    let rest = put_all-Took xs q' (put-IsQueue x q k.0 h) known in
    let ends = bind-eq (put x) (λ _. put_all xs) q well in
    subst (Took (x ∷ xs) q) (sym ends) (Took-append x xs q q' (put_all xs q') first rest)
