-- ===== src/Tracker/Health/Runs.antt =====
-- The life of a health book of health.py: any calls, from its creation on.
use vision_tactile_dataset.Common.{
  zero, suc, ◌≡◌, some, List, [], ◌∷◌, String, arith, Bool-cases, inl, inr,
}
use vision_tactile_dataset.Common.Int.{ℤ, pos, negsuc}
use vision_tactile_dataset.Common.Dict.{lookup, str_eq}
use vision_tactile_dataset.Common.Monad.{ok}
use vision_tactile_dataset.Tracker.Health.{
  Health, TrackerHealthBook, StampedTrackerSample, new_values, new_book, observe_sample,
  observe_invalid, record_drop, snapshot, consume_status_publish_request,
}
use vision_tactile_dataset.Tracker.Health.Invariant.{
  IsSound, IsSoundBook, new_health-IsSound, observe_sample-IsSoundBook, observe_invalid-IsSoundBook,
  record_drop-IsSoundBook, snapshot-IsSoundBook,
}

pub data Call : Type 0 where
  sample_seen : StampedTrackerSample → Call
  invalid_seen : String → String → ℤ → Call
  drop_seen : String → Call
  snapshot_taken : ℤ → Call
  request_consumed : Call

unfoldable pub call : Call → TrackerHealthBook → TrackerHealthBook
call (sample_seen sample) s = (observe_sample sample s).1
call (invalid_seen role tracker_id now) s = (observe_invalid role tracker_id now s).1
call (drop_seen role) s = (record_drop role s).1
call (snapshot_taken now) s = (snapshot now s).1
call request_consumed s = (consume_status_publish_request s).1

unfoldable pub run : List Call → TrackerHealthBook → TrackerHealthBook
run [] s = s
run (c ∷ cs) s = run cs (call c s)

consume-IsSoundBook :
    (s : TrackerHealthBook) → IsSoundBook s → IsSoundBook (consume_status_publish_request s).1
unfolding IsSoundBook consume_status_publish_request
consume-IsSoundBook s h = h

call-IsSoundBook : (c : Call) (s : TrackerHealthBook) → IsSoundBook s → IsSoundBook (call c s)
unfolding call
call-IsSoundBook (sample_seen sample) s h = observe_sample-IsSoundBook sample s h
call-IsSoundBook (invalid_seen role tracker_id now) s h =
    observe_invalid-IsSoundBook role tracker_id now s h
call-IsSoundBook (drop_seen role) s h = record_drop-IsSoundBook role s h
call-IsSoundBook (snapshot_taken now) s h = snapshot-IsSoundBook now s h
call-IsSoundBook request_consumed s h = consume-IsSoundBook s h

run-IsSoundBook : (cs : List Call) (s : TrackerHealthBook) → IsSoundBook s → IsSoundBook (run cs s)
unfolding run
run-IsSoundBook [] s h = h
run-IsSoundBook (c ∷ cs) s h = run-IsSoundBook cs (call c s) (call-IsSoundBook c s h)

new_values-IsSound :
    (roles : List (String × String)) (role : String) (v : Health)
    → lookup role (new_values roles) ≡ some v
    → IsSound v
new_values-IsSound [] role v q = ground arith
new_values-IsSound ((j, tracker_id) ∷ roles) role v q = elim (Bool-cases (str_eq role j)) [
  | inl same ↦ ground (arith, new_health-IsSound j tracker_id)
  | inr other ↦ ground (arith, new_values-IsSound roles role v)
]

new_book-IsSoundBook :
    (roles : List (String × String)) (timeout : ℤ) (s : TrackerHealthBook)
    → new_book roles timeout ≡ ok s
    → IsSoundBook s
unfolding IsSoundBook
new_book-IsSoundBook roles (negsuc n) s q = ground arith
new_book-IsSoundBook roles (pos zero) s q = ground arith
new_book-IsSoundBook roles (pos (suc n)) s q = ground (arith, new_values-IsSound roles)

-- Whatever calls a book gets that its constructor accepted: its timeout is positive, and of each role it
-- says that a tracker that never reported is DISCONNECTED, with counts of reports and a time of the
-- last report of 0, that the last valid pose is not after the last report, and that a tracker is
-- TRACKING only if it has had a valid pose.
pub run-IsSoundBook_new :
    (roles : List (String × String)) (timeout : ℤ) (cs : List Call) {s : TrackerHealthBook}
    → new_book roles timeout ≡ ok s
    → IsSoundBook (run cs s)
run-IsSoundBook_new roles timeout cs {s = s} q =
    run-IsSoundBook cs s (new_book-IsSoundBook roles timeout s q)
