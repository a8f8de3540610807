-- ===== src/Tracker/PoseSource/Rules.antt =====
-- What holds after a method of the source in pose_source.py, by whether it returned or raised.
use vision_tactile_dataset.Common.{Bool, true, false, Option, none, some}
use vision_tactile_dataset.Common.Monad.{Result, ok, err, ◌>>=◌, raise_if}
use vision_tactile_dataset.Tracker.PoseSource.{Error, PoseSource, Method, answered}

abbrev pub After :
    {F A : Type 0}
    → (A → PoseSource F → Type 0)
    → (PoseSource F → Type 0)
    → Result Error A × PoseSource F
    → Type 0
After Q X (ok a, s) = Q a s
After Q X (err e, s) = X s

module _ {F A B : Type 0} (Q : A → PoseSource F → Type 0) (R : B → PoseSource F → Type 0)
    (X : PoseSource F → Type 0) where
  resume :
      (k : A → Method F B) (r : Result Error A) (s : PoseSource F)
      → After Q X (r, s)
      → ((a : A) (s : PoseSource F) → Q a s → After R X (k a s))
      → After R X (◌>>=◌ (λ _. (r, s)) k s)
  resume k (ok a) s h f = f a s h
  resume k (err e) s h f = h

  pub bind-After :
      (m : Method F A) (k : A → Method F B) (s : PoseSource F)
      → After Q X (m s)
      → ((a : A) (s : PoseSource F) → Q a s → After R X (k a s))
      → After R X ((m >>= k) s)
  bind-After m k s h f = resume k (m s).0 (m s).1 h f

module _ {F : Type 0} (Q X : PoseSource F → Type 0) where
  pub answered-After :
      {A : Type 0} (o : Option A) (s : PoseSource F) → Q s → X s → After (λ _. Q) X (answered o s)
  answered-After none s q x = x
  answered-After (some a) s q x = q

  pub raise_if-After :
      (b : Bool) (e : Error) (s : PoseSource F) → Q s → X s → After (λ _. Q) X (raise_if b e s)
  raise_if-After true e s q x = x
  raise_if-After false e s q x = q

pub After-weaken :
    {F A : Type 0} (Q : A → PoseSource F → Type 0) (X Y : PoseSource F → Type 0)
    (r : Result Error A) (s : PoseSource F)
    → (X s → Y s)
    → After Q X (r, s)
    → After Q Y (r, s)
After-weaken Q X Y (ok a) s f h = h
After-weaken Q X Y (err e) s f h = f h
