-- ===== src/Gui/Store.antt =====
-- What the GUI's threads hand to one another, and its overall state: `LatestSnapshotStore` of
-- ros2_ws/src/vt_vive_tracker_gui/vt_vive_tracker_gui/snapshot_store.py, whose methods hold the lock
-- throughout, and `overall_state` of display_model.py beside it.
pub mod Versions
pub mod Overall
mod Tests
use vision_tactile_dataset.Common.{
  ℕ, ◌+◌, Bool, true, false, not, ◌&&◌, Option, none, some, List, [], ◌∷◌, String, if◌then◌else◌,
}
use vision_tactile_dataset.Common.Int.{ℤ, pos, negsuc}
use vision_tactile_dataset.Common.Dict.{str_eq}
use vision_tactile_dataset.Common.Monad.{Result, ok, err, Action}
use vision_tactile_dataset.Tracker.Visualization.{
  fixed_roles, VisualHealth, fresh, delayed, offline, RoleSnapshot,
}
use vision_tactile_dataset.Tracker.Visualization.Shown.{roles_shown}

pub record StoredSnapshot (F : Type 0) : Type 0 where
  pub version : ℕ
  pub roles : List (RoleSnapshot F)

pub record DiagnosticEvent : Type 0 where
  pub version : ℕ
  pub text : String
  pub monotonic_ns : ℕ

pub record LatestSnapshotStore (F : Type 0) : Type 0 where
  pub version : ℕ
  pub latest : Option (StoredSnapshot F)
  pub diagnostic_version : ℕ
  pub latest_diagnostic : Option DiagnosticEvent

pub data Error : Type 0 where
  roles_out_of_order empty_text negative_time : Error

-- `left == right` of two tuples of texts.
abbrev pub texts_eq : List String → List String → Bool
texts_eq [] [] = true
texts_eq [] (t ∷ ts) = false
texts_eq (s ∷ ss) [] = false
texts_eq (s ∷ ss) (t ∷ ts) = str_eq s t && texts_eq ss ts

abbrev pub is_empty : String → Bool
is_empty String.[] = true
is_empty (String.◌∷◌ c s) = false

module _ {F : Type 0} where
  abbrev pub new_store : LatestSnapshotStore F
  new_store = record {
    version = 0;
    latest = none;
    diagnostic_version = 0;
    latest_diagnostic = none;
  }

  abbrev pub next_snapshot : List (RoleSnapshot F) → LatestSnapshotStore F → StoredSnapshot F
  next_snapshot roles s = record { version = s.version + 1; roles = roles }

  unfoldable pub publish :
      List (RoleSnapshot F) → Action (LatestSnapshotStore F) Error (StoredSnapshot F)
  publish roles s =
      if texts_eq (roles_shown roles) fixed_roles
      then (
        ok (next_snapshot roles s),
        record s { version = s.version + 1; latest = some (next_snapshot roles s) },
      )
      else (err roles_out_of_order, s)

  abbrev pub next_diagnostic : String → ℕ → LatestSnapshotStore F → DiagnosticEvent
  next_diagnostic text monotonic_ns s = record {
    version = s.diagnostic_version + 1;
    text = text;
    monotonic_ns = monotonic_ns;
  }

  unfoldable pub publish_diagnostic :
      String → ℤ → Action (LatestSnapshotStore F) Error DiagnosticEvent
  publish_diagnostic String.[] monotonic_ns s = (err empty_text, s)
  publish_diagnostic (String.◌∷◌ c text) (negsuc n) s = (err negative_time, s)
  publish_diagnostic (String.◌∷◌ c text) (pos n) s =
      let event = next_diagnostic (String.◌∷◌ c text) n s in
      (
        ok event,
        record s { diagnostic_version = s.diagnostic_version + 1; latest_diagnostic = some event },
      )

pub data OverallState : Type 0 where
  live degraded disconnected : OverallState

abbrev pub is_fresh : VisualHealth → Bool
is_fresh fresh = true
is_fresh delayed = false
is_fresh offline = false

abbrev pub is_offline : VisualHealth → Bool
is_offline fresh = false
is_offline delayed = false
is_offline offline = true

module _ {F : Type 0} where
  abbrev pub all_health : (VisualHealth → Bool) → List (RoleSnapshot F) → Bool
  all_health test [] = true
  all_health test (x ∷ xs) = test x.health && all_health test xs

  unfoldable pub overall_state : List (RoleSnapshot F) → Result Error OverallState
  overall_state roles =
      if not (texts_eq (roles_shown roles) fixed_roles)
      then err roles_out_of_order
      else if all_health is_fresh roles
      then ok live
      else if all_health is_offline roles
      then ok disconnected
      else ok degraded
