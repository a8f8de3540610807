-- ===== src/Tracker/PoseSource.antt =====
-- The reader of the dongle: `ReadOnlyPoseSource` of
-- ros2_ws/src/vt_vive_tracker/vt_vive_tracker/pose_source.py. The bundle, the HID backend with its handles,
-- the decoder, the clocks, the stop event and the thread are the parameter `env`: each answers, or raises,
-- as a function of what happened so far.
pub mod Reader
pub mod Start
pub mod Rules
pub mod Invariant
pub mod Opening
pub mod Reports
pub mod Runs
pub mod Ending
mod Tests
use vision_tactile_dataset.Common.{
  ℕ, zero, suc, ◌+◌, Bool, true, false, not, ◌&&◌, ◌||◌, Option, none, some, List, [], ◌∷◌, String,
  ltb, leb, ◌==◌, if◌then◌else◌, length, get_or,
}
use vision_tactile_dataset.Common.Dict.{Dict, lookup, keys, str_eq}
use vision_tactile_dataset.Common.Int.{ℤ}
use vision_tactile_dataset.Common.Monad.{
  Result, ok, err, Action, pure, raise, gets, modify, ◌>>=◌, ◌>>◌, raise_if,
}
use vision_tactile_dataset.Tracker.Samples.{NativePose, Sample, first, normalize_pose}
use vision_tactile_dataset.Tracker.Roles.{
  RoleMap, all_texts, is_among, role_for_tracker_id, canonical_address, count_distinct,
}

-- The errors that are reported.
pub data PoseSourceError : Type 0 where
  dongle_cardinality : ℕ → PoseSourceError
  identity_mismatch : String → Option String → PoseSourceError
  dongle_identity_changed read_failure malformed_report : PoseSourceError

-- `("serial", …)` or `("path", …)`
pub data IdentityKey : Type 0 where
  serial path_hash : String → IdentityKey

pub record Identity : Type 0 where
  pub serial_number : Option String
  pub path_sha256 : String
  pub path : String

pub record Probe : Type 0 where
  pub exact_match_count : ℕ
  pub identity : Option Identity

-- What happens: calls to the outside, and `stored`, a handle of the device with that key that the source
-- keeps.
pub data Event (F : Type 0) : Type 0 where
  bundle_loaded runtime_loaded backend_made event_cleared event_set : Event F
  thread_started thread_joined : Event F
  probed viewed closed read clocked waited : Event F
  opened : String → Event F
  stored : IdentityKey → Event F
  asked_stop : Event F
  delivered : Sample F → Event F
  invalid : String → String → ℤ → Event F
  reported : PoseSourceError → Event F

-- The latest first.
abbrev pub Trace : Type 0 → Type 0
Trace F = List (Event F)

-- `decode_native_pose` raises, finds no pose, or gives one.
pub data Decoded (F : Type 0) : Type 0 where
  undecodable no_pose : Decoded F
  decoded : NativePose F → Decoded F

-- `none` and `false` stand for an exception.
pub record Env (F E : Type 0) : Type 0 where
  pub tracker_addresses : Trace F → Option (List (List ℕ))
  pub load_runtime : Trace F → Bool
  pub make_backend : Trace F → Bool
  pub probe_dongle : Trace F → Option Probe
  pub open_path : Trace F → Bool
  pub read_only_view : Trace F → Bool
  pub close : Trace F → Bool
  pub read : Trace F → Option (List ℕ)
  pub is_set : Trace F → Bool
  pub clocks : Trace F → ℤ × ℤ
  pub callback : Trace F → Bool
  pub thread_start : Trace F → Bool
  pub thread_join : Trace F → Option Bool
  pub decode_envelope : List ℕ → Option (List ℕ × E)
  pub decode_pose : E → Decoded F
  pub sha256 : List ℕ → String
  pub is_finite : F → Bool
  pub norm_in_range : List F → Bool

pub data Error : Type 0 where
  source : PoseSourceError → Error
  already_started other : Error

pub record PoseSource (F : Type 0) : Type 0 where
  pub handle : Option String
  pub identity_key : Option IdentityKey
  pub started : Bool
  pub has_thread : Bool
  pub events : Trace F

abbrev pub key_eq : IdentityKey → IdentityKey → Bool
key_eq (serial a) (serial b) = str_eq a b
key_eq (serial a) (path_hash b) = false
key_eq (path_hash a) (serial b) = false
key_eq (path_hash a) (path_hash b) = str_eq a b

-- `identity_key != self._identity_key`
abbrev pub is_other_key : IdentityKey → Option IdentityKey → Bool
is_other_key key none = true
is_other_key key (some k) = not (key_eq key k)

-- `_identity_key_for`
abbrev pub identity_key_by : Option String → String → IdentityKey
identity_key_by (some s) sha = serial s
identity_key_by none sha = path_hash sha

abbrev pub identity_key_for : Identity → IdentityKey
identity_key_for identity = identity_key_by identity.serial_number identity.path_sha256

-- `_canonical_report`; a report of more than 64 bytes raises.
unfoldable pub canonical_report : List ℕ → Option (List ℕ)
canonical_report report =
    let canonical_length = 12 + get_or 0 report 11 in
    if ltb 64 (length report)
    then none
    else if ltb (length report) 12
    then some report
    else if length report == 64 && get_or 0 report 0 == 40 && leb canonical_length 64
    then some (first canonical_length report)
    else some report

abbrev pub Method : Type 0 → Type 0 → Type 0
Method F A = Action (PoseSource F) Error A

module _ {F : Type 0} where
  abbrev pub new_source : PoseSource F
  new_source = record {
    handle = none;
    identity_key = none;
    started = false;
    has_thread = false;
    events = [];
  }

  abbrev pub note : Event F → Method F (Unit {0})
  note e s = (ok tt, record s { events = e ∷ s.events })

  -- A call whose answer is by what happened so far.
  abbrev pub ask : {A : Type 0} → Event F → (Trace F → A) → Method F A
  ask e answer s = (ok (answer s.events), record s { events = e ∷ s.events })

  abbrev pub answered : {A : Type 0} → Option A → Method F A
  answered none s = (err other, s)
  answered (some a) s = (ok a, s)

  -- `try: … except Exception as error: …`
  abbrev pub attempt : {A : Type 0} → Method F A → Method F (Result Error A)
  attempt m s = let (r, s') = m s in (ok r, s')

module _ {F E : Type 0} (env : Env F E) where
  -- A callback of the node: it may raise.
  abbrev pub tell : Event F → Method F (Unit {0})
  tell e = do fine ← ask e env.callback; raise_if (not fine) other

  abbrev pub identified : Probe → Option Identity → Method F Identity
  identified p none s = (err (source (dongle_cardinality p.exact_match_count)), s)
  identified p (some identity) s =
      if p.exact_match_count == 1
      then (ok identity, s)
      else (err (source (dongle_cardinality p.exact_match_count)), s)

  -- The key is compared for a replacement, and stored else.
  abbrev pub check_key : Bool → IdentityKey → Method F (Unit {0})
  check_key true key s =
      if is_other_key key s.identity_key
      then (err (source dongle_identity_changed), s)
      else (ok tt, s)
  check_key false key s = (ok tt, record s { identity_key = some key })

  abbrev pub store_handle : Identity → Method F (Unit {0})
  store_handle identity s = (
    ok tt,
    record s {
      handle = some identity.path;
      events = stored (identity_key_for identity) ∷ s.events;
    },
  )

  -- Behind the checks: the device is opened, and its handle stored; each call may raise.
  abbrev pub view_opened : Identity → Bool → Method F (Unit {0})
  view_opened identity false = raise other
  view_opened identity true = store_handle identity

  abbrev pub path_opened : Identity → Bool → Method F (Unit {0})
  path_opened identity false = raise other
  path_opened identity true = do view ← ask viewed env.read_only_view; view_opened identity view

  abbrev pub acquire : Identity → Method F (Unit {0})
  acquire identity = do raw ← ask (opened identity.path) env.open_path; path_opened identity raw

  abbrev pub open_identified : Bool → Identity → Method F (Unit {0})
  open_identified replacement identity = do
    check_key replacement (identity_key_for identity)
    acquire identity

  abbrev pub open_probed : Bool → Option Probe → Method F (Unit {0})
  open_probed replacement none = raise other
  open_probed replacement (some probe) = do
    identity ← identified probe probe.identity
    open_identified replacement identity

  unfoldable pub open_unique_handle : Bool → Method F (Unit {0})
  open_unique_handle replacement = do
    probe ← ask probed env.probe_dongle
    open_probed replacement probe

  -- The handle is given up, whatever its `close` does.
  abbrev pub close_held : Option String → Method F (Unit {0})
  close_held none = pure tt
  close_held (some path) = do
    modify (λ s. record s { handle = none })
    fine ← ask closed env.close
    if fine then pure tt else tell (reported read_failure)

  unfoldable pub close_current_handle : Method F (Unit {0})
  close_current_handle s = close_held s.handle s
