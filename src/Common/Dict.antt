-- ===== src/Common/Dict.antt =====
-- A Python dictionary keyed by texts, in the order of insertion (also `OrderedDict`).
use Prim.Native.Nat.{ℕ, suc, ◌-◌, ◌≤◌, ◌<◌}
use Prim.Native.String.{String}
use mathlib.Core.Path.{◌≡◌, refl, subst}
use mathlib.Core.Logic.{◌≢◌, inl, inr}
use mathlib.Core.Option.{Option, none, some}
use mathlib.Core.List.{List, [], ◌∷◌}
use native.Mathlib.Omega.{arith}
use text.Mathlib.TextEquality.{eq_iff}
use vision_tactile_dataset.Common.Tests.{ltb, Bool-cases, if◌then◌else◌}
use vision_tactile_dataset.Common.Lists.{length, drop}
pub use text.Mathlib.Text.{◌==◌ as str_eq}

abbrev pub Dict {ℓ} : Type ℓ → Type ℓ
Dict V = List (String × V)

module _ {ℓ} {V : Type ℓ} where
  -- `d.get(k)`
  abbrev pub lookup : String → Dict V → Option V
  lookup k [] = none
  lookup k ((j, v) ∷ d) = if str_eq k j then some v else lookup k d

  -- `d[k] = v`: a known key keeps its place.
  unfoldable pub insert : String → V → Dict V → Dict V
  insert k v [] = (k, v) ∷ []
  insert k v (e ∷ d) = if str_eq k e.0 then (k, v) ∷ d else e ∷ insert k v d

  -- `while len(d) > size: d.popitem(last=False)`
  unfoldable pub evict : ℕ → Dict V → Dict V
  evict size [] = []
  evict size (e ∷ d) = if ltb size (suc (length d)) then evict size d else e ∷ d

  -- No key twice.
  abbrev pub IsDict : Dict V → Type ℓ
  IsDict [] = Unit
  IsDict ((k, v) ∷ d) = (lookup k d ≡ none) × IsDict d

  pub lookup-insert_self : (k : String) (v : V) (d : Dict V) → lookup k (insert k v d) ≡ some v
  unfolding insert
  lookup-insert_self k v [] = ground (arith, eq_iff k k)
  lookup-insert_self k v (e ∷ d) =
      ground (arith, eq_iff k k, eq_iff k e.0, lookup-insert_self k v d)

  pub lookup-insert_ne :
      (j k : String) (v : V) (d : Dict V) → j ≢ k → lookup j (insert k v d) ≡ lookup j d
  unfolding insert
  lookup-insert_ne j k v [] h = ground (arith, eq_iff j k)
  lookup-insert_ne j k v (e ∷ d) h =
      ground (arith, eq_iff j k, eq_iff k e.0, eq_iff j e.0, lookup-insert_ne j k v d h)

  pub insert-IsDict : (k : String) (v : V) (d : Dict V) → IsDict d → IsDict (insert k v d)
  unfolding insert
  insert-IsDict k v [] h = (refl, tt)
  insert-IsDict k v (e ∷ d) h =
      ground
        (arith, eq_iff k e.0, eq_iff e.0 k, insert-IsDict k v d h.1, lookup-insert_ne e.0 k v d)

  pub evict-IsDict : (size : ℕ) (d : Dict V) → IsDict d → IsDict (evict size d)
  unfolding evict
  evict-IsDict size [] h = h
  evict-IsDict size (e ∷ d) h = ground (arith, evict-IsDict size d h.1)

  -- Eviction stops at the size.
  pub length-evict : (size : ℕ) (d : Dict V) → length (evict size d) ≤ size
  unfolding evict
  length-evict size [] = omega arith
  length-evict size (e ∷ d) = ground (arith, length-evict size d)

  -- What eviction removes is the oldest entries, and only as many as are over the size.
  pub evict-eq-drop : (size : ℕ) (d : Dict V) → evict size d ≡ drop (length d - size) d
  unfolding evict
  evict-eq-drop size [] = ground arith
  evict-eq-drop size (e ∷ d) = elim (Bool-cases (ltb size (suc (length d)))) [
    | inl over ↦
        let one_more : suc (length d) - size ≡ suc (length d - size) = ground arith in
        rw (over, one_more) (evict-eq-drop size d)
    | inr fits ↦ let none_over : suc (length d) - size ≡ 0 = ground arith in rw (fits, none_over)
  ]

  -- A new entry stands at the end, so a dictionary of size one or more keeps it.
  pub lookup-evict-insert_new :
      (k : String) (v : V) (size : ℕ) (d : Dict V)
      → 0 < size
      → lookup k d ≡ none
      → lookup k (evict size (insert k v d)) ≡ some v
  unfolding evict insert
  lookup-evict-insert_new k v size [] p h = ground (arith, eq_iff k k)
  lookup-evict-insert_new k v size (e ∷ d) p h = elim (Bool-cases (str_eq k e.0)) [
    | inl same ↦ absurd (ground arith)
    | inr other ↦
        let found : lookup k (insert k v d) ≡ some v = lookup-insert_self k v d in
        rw other (ground (arith, lookup-evict-insert_new k v size d p))
  ]

  abbrev pub keys : Dict V → List String
  keys [] = []
  keys ((k, v) ∷ d) = k ∷ keys d

  -- A known key keeps its place.
  pub keys-insert :
      (k : String) (u v : V) (d : Dict V) → lookup k d ≡ some u → keys (insert k v d) ≡ keys d
  unfolding insert
  keys-insert k u v [] h = absurd (ground arith)
  keys-insert k u v (e ∷ d) h = ground (arith, eq_iff k e.0, keys-insert k u v d)

-- A predicate on every value.
module _ {ℓ κ} {V : Type ℓ} (P : V → Type κ) where
  abbrev pub AllValues : Dict V → Type κ
  AllValues [] = Unit
  AllValues ((k, v) ∷ d) = P v × AllValues d

  pub lookup-AllValues : (k : String) (v : V) (d : Dict V) → lookup k d ≡ some v → AllValues d → P v
  lookup-AllValues k v [] h a = absurd (ground arith)
  lookup-AllValues k v ((j, u) ∷ d) h a = elim (Bool-cases (str_eq k j)) [
    | inl same ↦ let first : u ≡ v = ground arith in subst P first a.0
    | inr other ↦ let later : lookup k d ≡ some v = ground arith in lookup-AllValues k v d later a.1
  ]

  pub insert-AllValues :
      (k : String) (v : V) (d : Dict V) → P v → AllValues d → AllValues (insert k v d)
  unfolding insert
  insert-AllValues k v [] p a = (p, tt)
  insert-AllValues k v ((j, u) ∷ d) p a = elim (Bool-cases (str_eq k j)) [
    | inl same ↦ rw same (p, a.1)
    | inr other ↦ rw other (a.0, insert-AllValues k v d p a.1)
  ]
