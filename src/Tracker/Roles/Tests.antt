-- ===== src/Tracker/Roles/Tests.antt =====
-- A role map of three trackers.
use vision_tactile_dataset.Common.{◌≡◌, ◌↔◌, refl, true, false, some, [], ◌∷◌, String}
use vision_tactile_dataset.Common.Dict.{Dict, insert}
use vision_tactile_dataset.Common.Monad.{ok, err}
use vision_tactile_dataset.Tracker.Samples.{is_tracker_id}
use vision_tactile_dataset.Tracker.Roles.{
  canonical_address, RoleMap, role_map, tracker_id_for_role, role_for_tracker_id, Metadata, Value,
  mapping, one, another, reversed_on, load_role_map, repeated_tracker_id, not_private,
  unsupported_version,
}
use vision_tactile_dataset.Tracker.Roles.Inverse.{load_role_map-inverse}

abbrev pub id_a : String
id_a = "aaaaaaaaaaaaaaaaaaaaaaaaaaaaaaaaaaaaaaaaaaaaaaaaaaaaaaaaaaaaaaaa"

abbrev pub id_b : String
id_b = "bbbbbbbbbbbbbbbbbbbbbbbbbbbbbbbbbbbbbbbbbbbbbbbbbbbbbbbbbbbbbbbb"

abbrev pub id_c : String
id_c = "cccccccccccccccccccccccccccccccccccccccccccccccccccccccccccccccc"

abbrev metadata : Metadata
metadata = record { is_regular = true; is_link = false; is_own = true; is_private = true }

abbrev document : String → Dict Value
document torso =
    ("schema_version", one)
    ∷ (
      "roles",
      mapping (("torso", some torso) ∷ ("left_wrist", some id_a) ∷ ("right_wrist", some id_b) ∷ []),
    )
    ∷ []

abbrev pub three_roles : RoleMap
three_roles = record {
  by_role = ("left_wrist", id_a) ∷ ("right_wrist", id_b) ∷ ("torso", id_c) ∷ [];
  by_tracker_id = (id_a, "left_wrist") ∷ (id_b, "right_wrist") ∷ (id_c, "torso") ∷ [];
}

machinery : Unit {0}
unfolding load_role_map role_map reversed_on is_tracker_id insert canonical_address
machinery = tt

loads :
    (load_role_map metadata (some (document id_c)) ≡ ok three_roles)
    × (load_role_map metadata (some (document id_a)) ≡ err repeated_tracker_id)
    × (load_role_map (record metadata { is_private = false }) (some (document id_c))
        ≡ err not_private)
    × (load_role_map metadata (some (("schema_version", another) ∷ ("roles", one) ∷ []))
        ≡ err unsupported_version)
    × (canonical_address (1 ∷ 15 ∷ 3 ∷ 4 ∷ 5 ∷ 6 ∷ []) ≡ some (1 ∷ 8 ∷ 3 ∷ 4 ∷ 5 ∷ 6 ∷ []))
unfolding machinery
loads = (refl, refl, refl, refl, refl)

load_role_map-inverse_example :
    (tracker_id_for_role three_roles "torso" ≡ some id_c)
    ↔ (role_for_tracker_id three_roles id_c ≡ some "torso")
unfolding machinery
load_role_map-inverse_example =
    load_role_map-inverse metadata (some (document id_c)) three_roles "torso" id_c refl
