-- ===== src/Tracker/Roles/Inverse.antt =====
-- The two dictionaries of a `RoleMap` that roles.py loads.
use vision_tactile_dataset.Common.{
  ◌≡◌, ◌⊎◌, ◌↔◌, refl, sym, ap, ◌∙◌, Bool, true, false, not, ◌&&◌, ◌||◌, Option, none, some, [],
  ◌∷◌, String, arith, ◌==◌, if◌then◌else◌, length, Bool-cases, Option-cases, inl, inr, is_some,
}
use text.Mathlib.TextEquality.{eq_iff}
use vision_tactile_dataset.Common.Dict.{
  Dict, lookup, insert, keys, IsDict, str_eq, lookup-insert_self, lookup-insert_ne,
}
use vision_tactile_dataset.Common.Monad.{Result, ok, err}
use vision_tactile_dataset.Tracker.Roles.{
  RoleMap, Metadata, Value, a_text, one, mapping, another, repeated_tracker_id, wrong_roles,
  inconsistent, invalid_document, unsupported_version, not_private, not_owned, not_regular,
  all_texts, is_document_key, document_of, has_expected_roles, is_text, is_reverse, role_map,
  tracker_id_for_role, role_for_tracker_id, tracker_ids, reversed_on, at_role, in_order,
  count_distinct, values, map_of, roles_of, is_one, load_role_map,
}

reverse_first :
    (t : Dict String) (r v : String) → is_text r (lookup v t) ≡ true → lookup v t ≡ some r
reverse_first t r v h = elim (Option-cases (lookup v t)) [
  | inl e ↦ absurd (ground arith)
  | inr (w, e) ↦ ground (arith, eq_iff w r)
]

reverse_finds :
    (t d : Dict String) (role value : String)
    → is_reverse t d ≡ true
    → lookup role d ≡ some value
    → lookup value t ≡ some role
reverse_finds t [] role value h e = absurd (ground arith)
reverse_finds t ((r, v) ∷ d) role value h e = elim (Bool-cases (str_eq role r)) [
  | inl same ↦ ground (arith, eq_iff role r, eq_iff r role, reverse_first t r v (ground arith))
  | inr other ↦ reverse_finds t d role value (ground arith) (ground arith)
]

-- What the reversed dictionary holds was a pair of the other, or was there before.
reversed_on-holds :
    (d acc : Dict String) (role value : String)
    → IsDict d
    → lookup value (reversed_on d acc) ≡ some role
    → (lookup role d ≡ some value) ⊎ (lookup value acc ≡ some role)
unfolding reversed_on
reversed_on-holds [] acc role value u e = inr e
reversed_on-holds ((r, v) ∷ d) acc role value (fresh, u) e =
    elim (reversed_on-holds d (insert v r acc) role value u e) [
      | inl found ↦ inl (ground (arith, eq_iff role r, found, fresh))
      | inr before ↦ elim (Bool-cases (str_eq value v)) [
        | inl same ↦
            inl (ground (arith, eq_iff value v, eq_iff role r, lookup-insert_self v r acc, before))
        | inr other ↦ inr (ground (arith, eq_iff value v, lookup-insert_ne value v r acc, before))
      ]
    ]

at_role-IsDict :
    (a b c : Option String)
    → IsDict (at_role "left_wrist" a (at_role "right_wrist" b (at_role "torso" c [])))
at_role-IsDict none none none = tt
at_role-IsDict none none (some c) = (refl, tt)
at_role-IsDict none (some b) none = (refl, tt)
at_role-IsDict none (some b) (some c) = (refl, (refl, tt))
at_role-IsDict (some a) none none = (refl, tt)
at_role-IsDict (some a) none (some c) = (refl, (refl, tt))
at_role-IsDict (some a) (some b) none = (refl, (refl, tt))
at_role-IsDict (some a) (some b) (some c) = (refl, (refl, (refl, tt)))

-- A check that raises was passed, where there is a result.
module _ {E A : Type 0} where
  past : (b : Bool) (e : E) (r : Result E A) (a : A) → (if b then err e else r) ≡ ok a → r ≡ ok a
  past true e r a h = absurd (ground arith)
  past false e r a h = h

  passed : (b : Bool) (e : E) (r : Result E A) (a : A) → (if b then err e else r) ≡ ok a → b ≡ false
  passed true e r a h = absurd (ground arith)
  passed false e r a h = refl

IsInverse : RoleMap → Type 0
IsInverse m =
    (role value : String)
    → (tracker_id_for_role m role ≡ some value) ↔ (role_for_tracker_id m value ≡ some role)

role_map-IsInverse :
    (d : Dict String) (m : RoleMap) → IsDict d → role_map d (reversed_on d []) ≡ ok m → IsInverse m
unfolding role_map IsInverse
role_map-IsInverse d m u h role value =
    let t = reversed_on d [] in
    let result : RoleMap = record { by_role = d; by_tracker_id = t } in
    let checks = not (length d == length t && is_reverse t d) in
    let rest =
      past (not (has_expected_roles d)) wrong_roles (if checks then err inconsistent else ok result)
        m h in
    let consistent = passed checks inconsistent (ok result) m rest in
    let e = past checks inconsistent (ok result) m rest in
    let own : d ≡ m.by_role = ap (λ r. elim r [ ok n ↦ n.by_role | err x ↦ [] ]) e in
    let back : t ≡ m.by_tracker_id = ap (λ r. elim r [ ok n ↦ n.by_tracker_id | err x ↦ [] ]) e in
    let forth = reverse_finds t d role value (ground arith) in
    let origin = reversed_on-holds d [] role value u in
    (
      λ p. ap (lookup value) (sym back) ∙ forth (ap (lookup role) own ∙ p),
      λ q. elim (origin (ap (lookup value) back ∙ q)) [
        | inl found ↦ ap (lookup role) (sym own) ∙ found
        | inr before ↦ absurd (ground arith)
      ],
    )

map_of-IsInverse : (o : Option (Dict String)) (m : RoleMap) → map_of o ≡ ok m → IsInverse m
map_of-IsInverse none m h = absurd (ground arith)
map_of-IsInverse (some roles) m h =
    role_map-IsInverse (in_order roles) m
      (at_role-IsDict (lookup "left_wrist" roles) (lookup "right_wrist" roles)
        (lookup "torso" roles))
      (past (not (count_distinct (values roles) == 3)) repeated_tracker_id
        (role_map (in_order roles) (reversed_on (in_order roles) [])) m h)

roles_of-IsInverse : (o : Option Value) (m : RoleMap) → roles_of o ≡ ok m → IsInverse m
roles_of-IsInverse none m h = absurd (ground arith)
roles_of-IsInverse (some (a_text s)) m h = absurd (ground arith)
roles_of-IsInverse (some one) m h = absurd (ground arith)
roles_of-IsInverse (some another) m h = absurd (ground arith)
roles_of-IsInverse (some (mapping d)) m h =
    map_of-IsInverse (tracker_ids d) m
      (past (not (has_expected_roles d)) wrong_roles (map_of (tracker_ids d)) m h)

document_of-IsInverse :
    (document : Option (Dict Value)) (m : RoleMap) → document_of document ≡ ok m → IsInverse m
document_of-IsInverse none m h = absurd (ground arith)
document_of-IsInverse (some d) m h =
    let version = not (is_one (lookup "schema_version" d)) in
    let keyed = not (
      all_texts is_document_key (keys d)
      && is_some (lookup "schema_version" d)
      && is_some (lookup "roles" d)) in
    roles_of-IsInverse (lookup "roles" d) m (
      past version unsupported_version (roles_of (lookup "roles" d)) m (
        past keyed invalid_document
          (if version then err unsupported_version else roles_of (lookup "roles" d)) m h))

-- The two dictionaries of a role map that `load_role_map` returns are the inverses of each other: a role
-- has a tracker id just when the tracker id has the role.
pub load_role_map-inverse :
    (metadata : Metadata) (document : Option (Dict Value)) (m : RoleMap) (role value : String)
    → load_role_map metadata document ≡ ok m
    → (tracker_id_for_role m role ≡ some value) ↔ (role_for_tracker_id m value ≡ some role)
unfolding load_role_map IsInverse
load_role_map-inverse metadata document m role value h =
    let end = document_of document in
    let private = if not metadata.is_private then err not_private else end in
    let owned = if not metadata.is_own then err not_owned else private in
    document_of-IsInverse document m
      (past (not metadata.is_private) not_private end m (
        past (not metadata.is_own) not_owned private m
          (past (not metadata.is_regular || metadata.is_link) not_regular owned m h)))
      role value
