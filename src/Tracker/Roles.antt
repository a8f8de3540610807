-- ===== src/Tracker/Roles.antt =====
-- The roles of the trackers and their identities: `RoleMap` and `load_role_map` of
-- ros2_ws/src/vt_vive_tracker/vt_vive_tracker/roles.py, and identity.py beside it. The file, its text read
-- as YAML, and SHA-256 are parameters.
pub mod Inverse
pub mod Tests
use vision_tactile_dataset.Common.{
  ℕ, zero, suc, ◌+◌, ◌*◌, ◌/◌, Bool, true, false, not, ◌&&◌, ◌||◌, Option, none, some, List, [],
  ◌∷◌, String, ◌==◌, if◌then◌else◌, length, is_some,
}
use vision_tactile_dataset.Common.Dict.{Dict, lookup, insert, keys, str_eq}
use vision_tactile_dataset.Common.Monad.{Result, ok, err}
use vision_tactile_dataset.Tracker.Samples.{is_tracker_id, is_expected_role}

-- `bytes((raw[0], raw[1] & 0xF8, *raw[2:]))` of six bytes; the others raise.
unfoldable pub canonical_address : List ℕ → Option (List ℕ)
canonical_address [] = none
canonical_address (a ∷ []) = none
canonical_address (a ∷ b ∷ more) = if length more == 4 then some (a ∷ (b / 8) * 8 ∷ more) else none

pub record RoleMap : Type 0 where
  pub by_role : Dict String
  pub by_tracker_id : Dict String

pub data Error : Type 0 where
  not_regular not_owned not_private invalid_document unsupported_version wrong_roles : Error
  bad_tracker_id repeated_tracker_id inconsistent : Error

abbrev pub all_texts : (String → Bool) → List String → Bool
all_texts test [] = true
all_texts test (s ∷ ss) = test s && all_texts test ss

-- `set(values) == EXPECTED_ROLES`, of a dictionary's keys.
abbrev pub has_expected_roles : {V : Type 0} → Dict V → Bool
has_expected_roles d =
    all_texts is_expected_role (keys d)
    && is_some (lookup "left_wrist" d)
    && is_some (lookup "right_wrist" d)
    && is_some (lookup "torso" d)

abbrev pub is_text : String → Option String → Bool
is_text s none = false
is_text s (some t) = str_eq t s

-- `all(tracker_values.get(value) == role for role, value in role_values.items())`
abbrev pub is_reverse : Dict String → Dict String → Bool
is_reverse tracker_values [] = true
is_reverse tracker_values ((role, value) ∷ d) =
    is_text role (lookup value tracker_values) && is_reverse tracker_values d

-- `__post_init__`
unfoldable pub role_map : Dict String → Dict String → Result Error RoleMap
role_map by_role by_tracker_id =
    if not (has_expected_roles by_role)
    then err wrong_roles
    else if not (length by_role == length by_tracker_id && is_reverse by_tracker_id by_role)
    then err inconsistent
    else ok (record { by_role = by_role; by_tracker_id = by_tracker_id })

-- A missing key raises.
abbrev pub tracker_id_for_role : RoleMap → String → Option String
tracker_id_for_role m role = lookup role m.by_role

abbrev pub role_for_tracker_id : RoleMap → String → Option String
role_for_tracker_id m value = lookup value m.by_tracker_id

-- What `path.lstat()` says.
pub record Metadata : Type 0 where
  pub is_regular : Bool
  pub is_link : Bool
  pub is_own : Bool
  pub is_private : Bool

-- A value of the document: a text, or another; a version that equals 1 in Python, or another.
pub data Value : Type 0 where
  a_text : String → Value
  one : Value
  mapping : Dict (Option String) → Value
  another : Value

-- The texts among the values of `roles`; `none` where one is no tracker id.
abbrev pub tracker_ids : Dict (Option String) → Option (Dict String)
tracker_ids [] = some []
tracker_ids ((role, none) ∷ d) = none
tracker_ids ((role, some value) ∷ d) =
    let rest = tracker_ids d in
    if is_tracker_id value
    then elim rest [ none ↦ none | some ids ↦ some ((role, value) ∷ ids) ]
    else none

-- `{value: role for role, value in by_role.items()}`
unfoldable pub reversed_on : Dict String → Dict String → Dict String
reversed_on [] d = d
reversed_on ((role, value) ∷ by_role) d = reversed_on by_role (insert value role d)

-- `sorted(EXPECTED_ROLES)`, of a dictionary that has them.
abbrev pub at_role : String → Option String → Dict String → Dict String
at_role role none rest = rest
at_role role (some value) rest = (role, value) ∷ rest

abbrev pub in_order : Dict String → Dict String
in_order d =
    at_role "left_wrist" (lookup "left_wrist" d)
      (at_role "right_wrist" (lookup "right_wrist" d) (at_role "torso" (lookup "torso" d) []))

abbrev pub is_among : String → List String → Bool
is_among s [] = false
is_among s (t ∷ ts) = str_eq s t || is_among s ts

-- `len(set(…))`
abbrev pub count_distinct : List String → ℕ
count_distinct [] = 0
count_distinct (s ∷ ss) = let rest = count_distinct ss in if is_among s ss then rest else suc rest

abbrev pub values : Dict String → List String
values [] = []
values ((k, v) ∷ d) = v ∷ values d

-- The last lines of `load_role_map`.
abbrev pub map_of : Option (Dict String) → Result Error RoleMap
map_of none = err bad_tracker_id
map_of (some roles) =
    let by_role = in_order roles in
    if not (count_distinct (values roles) == 3)
    then err repeated_tracker_id
    else role_map by_role (reversed_on by_role [])

abbrev pub roles_of : Option Value → Result Error RoleMap
roles_of (some (mapping d)) =
    if not (has_expected_roles d) then err wrong_roles else map_of (tracker_ids d)
roles_of (some (a_text s)) = err wrong_roles
roles_of (some one) = err wrong_roles
roles_of (some another) = err wrong_roles
roles_of none = err wrong_roles

abbrev pub is_one : Option Value → Bool
is_one (some one) = true
is_one (some (a_text s)) = false
is_one (some (mapping d)) = false
is_one (some another) = false
is_one none = false

abbrev pub is_document_key : String → Bool
is_document_key k = str_eq k "schema_version" || str_eq k "roles"

-- The document is none where it is no dictionary.
abbrev pub document_of : Option (Dict Value) → Result Error RoleMap
document_of none = err invalid_document
document_of (some d) =
    if not (
      all_texts is_document_key (keys d)
      && is_some (lookup "schema_version" d)
      && is_some (lookup "roles" d))
    then err invalid_document
    else if not (is_one (lookup "schema_version" d))
    then err unsupported_version
    else roles_of (lookup "roles" d)

unfoldable pub load_role_map : Metadata → Option (Dict Value) → Result Error RoleMap
load_role_map metadata document =
    if not metadata.is_regular || metadata.is_link
    then err not_regular
    else if not metadata.is_own
    then err not_owned
    else if not metadata.is_private
    then err not_private
    else document_of document
