-- ===== src/Common/Monad.antt =====
-- A method call of a Python object: state and exceptions. The state comes back after a raise too,
-- since what was written stays written.
use mathlib.Core.Path.{◌≡◌, refl, ap}
use mathlib.Core.Logic.{◌⊎◌, inl, inr}
use mathlib.Core.Bool.{Bool, true, false}
use vision_tactile_dataset.Common.Tests.{if◌then◌else◌}

pub data Result (E A : Type 0) : Type 0 where
  ok : A → Result E A
  err : E → Result E A

abbrev pub Action : Type 0 → Type 0 → Type 0 → Type 0
Action S E A = S → Result E A × S

module _ {S E A : Type 0} where
  abbrev pub pure : A → Action S E A
  pure a s = (ok a, s)

  abbrev pub raise : E → Action S E A
  raise e s = (err e, s)

  abbrev pub gets : (S → A) → Action S E A
  gets f s = (ok (f s), s)

infixl 5 ◌>>=◌ ◌>>◌
abbrev pub ◌>>=◌ : {S E A B : Type 0} → Action S E A → (A → Action S E B) → Action S E B
◌>>=◌ m f s = let (r, s') = m s in elim r [ ok a ↦ f a s' | err e ↦ (err e, s') ]

abbrev pub ◌>>◌ : {S E A B : Type 0} → Action S E A → Action S E B → Action S E B
m >> k = m >>= λ _. k

module _ {S E : Type 0} where
  abbrev pub modify : (S → S) → Action S E (Unit {0})
  modify f s = (ok tt, f s)

  abbrev pub raise_if : Bool → E → Action S E (Unit {0})
  raise_if c e s = (if c then err e else ok tt, s)

pub Result-cases :
    {E A : Type 0} (r : Result E A) → ((a : A) × (r ≡ ok a)) ⊎ ((e : E) × (r ≡ err e))
Result-cases (ok a) = inl (a, refl)
Result-cases (err e) = inr (e, refl)

pub bind-eq :
    {S E A B : Type 0} (m : Action S E A) (k : A → Action S E B) (s : S) {a : A} {s' : S}
    → m s ≡ (ok a, s')
    → (m >>= k) s ≡ k a s'
bind-eq m k s q = ap (λ r. ◌>>=◌ (λ _. r) k s) q

-- What holds of the state after `m >>= k`: by how `m` ended.
module _ {S E A B : Type 0} (P : S → Type 0) where
  resume :
      (k : A → Action S E B) (s : S) (r : Result E A)
      → ((e : E) → r ≡ err e → P s)
      → ((a : A) → r ≡ ok a → P (k a s).1)
      → P (◌>>=◌ (λ _. (r, s)) k s).1
  resume k s (ok a) g f = f a refl
  resume k s (err e) g f = g e refl

  pub bind-rule :
      (m : Action S E A) (k : A → Action S E B) (s : S)
      → ((e : E) → (m s).0 ≡ err e → P (m s).1)
      → ((a : A) → (m s).0 ≡ ok a → P (k a (m s).1).1)
      → P ((m >>= k) s).1
  bind-rule m k s g f = resume k (m s).1 (m s).0 g f

  -- Where it holds after `m` in any case.
  pub bind-keeps :
      (m : Action S E A) (k : A → Action S E B) (s : S)
      → P (m s).1
      → ((a : A) → (m s).0 ≡ ok a → P (k a (m s).1).1)
      → P ((m >>= k) s).1
  bind-keeps m k s h f = bind-rule m k s (λ e q. h) f

abbrev pub is_ok : {E A : Type 0} → Result E A → Bool
is_ok (ok a) = true
is_ok (err e) = false

-- What holds of the result and the state of a call that returns.
abbrev pub Ends : {S E A : Type 0} → (A → S → Type 0) → Result E A × S → Type 0
Ends P (ok a, s) = P a s
Ends P (err e, s) = Unit

module _ {S E A B : Type 0} (P : B → S → Type 0) where
  resume-Ends :
      (k : A → Action S E B) (s : S) (r : Result E A)
      → ((a : A) → r ≡ ok a → Ends P (k a s))
      → Ends P (◌>>=◌ (λ _. (r, s)) k s)
  resume-Ends k s (ok a) f = f a refl
  resume-Ends k s (err e) f = tt

  pub bind-Ends :
      (m : Action S E A) (k : A → Action S E B) (s : S)
      → ((a : A) → (m s).0 ≡ ok a → Ends P (k a (m s).1))
      → Ends P ((m >>= k) s)
  bind-Ends m k s f = resume-Ends k (m s).1 (m s).0 f
