-- ===== src/Alignment/Matching/Tree.antt =====
-- The Fenwick tree of matcher.py: what `query` finds, and what `update` keeps.
use mathlib.Core.Path.{subst}
use vision_tactile_dataset.Common.{
  ℕ, zero, suc, ◌+◌, ◌-◌, ◌≤◌, ◌<◌, ◌≡◌, ◌≢◌, refl, sym, ◌∙◌, true, false, List, arith, ltb, ◌==◌,
  Bool-cases, inl, inr, length, get_or, set, length-set, get_or-set_self, get_or-set_ne,
}
use vision_tactile_dataset.Alignment.Matching.{
  Chain, empty, better, low_bit, query_on, query, update_on, update,
}
use vision_tactile_dataset.Alignment.Matching.LowBit.{low_bit_bounds, low_bit_carry}
use vision_tactile_dataset.Alignment.Matching.Chains.{
  AtMost, IsBelow, AtMost-trans, IsBelow-refl, better_is, IsBelow-better,
}

abbrev pub entry : List Chain → ℕ → Chain
entry tree i = get_or empty tree i

-- The entries of the tree that a candidate counts for are not below a matching.
abbrev pub Covers : List Chain → ℕ → ℕ → ℕ → Type 0
Covers tree k n w =
    (i : ℕ) → i < length tree → k < i → i < k + 1 + low_bit i → AtMost n w (entry tree i)

query_on-ge :
    (f : ℕ) (tree : List Chain) (i : ℕ) (acc : Chain) → IsBelow acc (query_on f tree i acc)
unfolding query_on
query_on-ge zero tree i acc = IsBelow-refl acc
query_on-ge (suc f) tree i acc = elim (Bool-cases (i == 0)) [
  | inl done ↦ rw done (IsBelow-refl acc)
  | inr more ↦
      let next = better acc (entry tree i) in
      rw more (
        AtMost-trans acc.count acc.cost next (query_on f tree (i - low_bit i) next)
          (IsBelow-better acc (entry tree i)).0 (query_on-ge f tree (i - low_bit i) next))
]

-- What covers a candidate before the index is found on the way down.
query_on-finds :
    (f : ℕ) (tree : List Chain) (i : ℕ) (acc : Chain) (k n w : ℕ)
    → i ≤ f
    → i < length tree
    → k < i
    → Covers tree k n w
    → AtMost n w (query_on f tree i acc)
unfolding query_on
query_on-finds zero tree i acc k n w le room before covers = absurd (omega arith)
query_on-finds (suc f) tree i acc k n w le room before covers =
    let more : (i == 0) ≡ false = ground arith in
    let next = better acc (entry tree i) in
    let (pos_bit, le_bit) = low_bit_bounds i (omega arith) in
    elim (Bool-cases (ltb (k + low_bit i) i)) [
      | inl further ↦ rw more (
          query_on-finds f tree (i - low_bit i) next k n w (omega arith) (omega arith)
            (ground arith) covers)
      | inr here ↦
          let found = covers i room before (ground arith) in
          rw more (
            AtMost-trans n w next (query_on f tree (i - low_bit i) next)
              (AtMost-trans n w (entry tree i) next found (IsBelow-better acc (entry tree i)).1)
              (query_on-ge f tree (i - low_bit i) next))
    ]

-- What is found was there.
query_on-is :
    (P : Chain → Type 0) (f : ℕ) (tree : List Chain) (i : ℕ) (acc : Chain)
    → P acc
    → ((j : ℕ) → j ≤ i → P (entry tree j))
    → P (query_on f tree i acc)
unfolding query_on
query_on-is P zero tree i acc p all = p
query_on-is P (suc f) tree i acc p all = elim (Bool-cases (i == 0)) [
  | inl done ↦ rw done p
  | inr more ↦
      let chosen : P (better acc (entry tree i)) = elim (better_is acc (entry tree i)) [
        | inl e ↦ subst P (sym e) p
        | inr e ↦ subst P (sym e) (all i (omega arith))
      ] in
      rw more (
        query_on-is P f tree (i - low_bit i) (better acc (entry tree i)) chosen
          (λ j le. all j (omega arith)))
]

pub query-finds :
    (tree : List Chain) (i k n w : ℕ)
    → i < length tree
    → k < i
    → Covers tree k n w
    → AtMost n w (query tree i)
unfolding query
query-finds tree i k n w = query_on-finds i tree i empty k n w (omega arith)

pub query_is :
    (P : Chain → Type 0) (tree : List Chain) (i : ℕ)
    → P empty
    → ((j : ℕ) → j ≤ i → P (entry tree j))
    → P (query tree i)
unfolding query
query_is P tree i = query_on-is P i tree i empty

-- One write of an update.
step : List Chain → ℕ → Chain → List Chain
step tree i v = set tree i (better (entry tree i) v)

step-ge :
    (tree : List Chain) (i : ℕ) (v : Chain) (j : ℕ)
    → i < length tree
    → IsBelow (entry tree j) (entry (step tree i v) j)
unfolding step
step-ge tree i v j room = elim (Bool-cases (j == i)) [
  | inl same ↦
      let e : j ≡ i = ground arith in
      subst (λ k. IsBelow (entry tree k) (entry (set tree i (better (entry tree i) v)) k)) (sym e)
        (rw (get_or-set_self empty tree i (better (entry tree i) v) room)
          (IsBelow-better (entry tree i) v).0)
  | inr other ↦
      let e : j ≢ i = λ h. ground arith in
      rw (get_or-set_ne empty tree i j (better (entry tree i) v) e) (IsBelow-refl (entry tree j))
]

step-has :
    (tree : List Chain) (i : ℕ) (v : Chain) → i < length tree → IsBelow v (entry (step tree i v) i)
unfolding step
step-has tree i v room =
    rw (get_or-set_self empty tree i (better (entry tree i) v) room)
      (IsBelow-better (entry tree i) v).1

step_is :
    (P : ℕ → Chain → Type 0) (tree : List Chain) (i : ℕ) (v : Chain) (j : ℕ)
    → i < length tree
    → P j (entry tree j)
    → P i v
    → P j (entry (step tree i v) j)
unfolding step
step_is P tree i v j room p q = elim (Bool-cases (j == i)) [
  | inl same ↦
      let e : j ≡ i = ground arith in
      let old : P i (entry tree i) = subst (λ k. P k (entry tree k)) e p in
      let written : P i (better (entry tree i) v) = elim (better_is (entry tree i) v) [
        | inl k ↦ subst (P i) (sym k) old
        | inr k ↦ subst (P i) (sym k) q
      ] in
      subst (λ k. P k (entry (set tree i (better (entry tree i) v)) k)) (sym e)
        (rw (get_or-set_self empty tree i (better (entry tree i) v) room) written)
  | inr other ↦
      let e : j ≢ i = λ h. ground arith in
      rw (get_or-set_ne empty tree i j (better (entry tree i) v) e) p
]

length-step : (tree : List Chain) (i : ℕ) (v : Chain) → length (step tree i v) ≡ length tree
unfolding step
length-step tree i v = length-set tree i (better (entry tree i) v)

-- An update keeps the length, lowers no entry, reaches the entries that its candidate counts for, and
-- writes nothing else than its value.
length-update_on :
    (f : ℕ) (tree : List Chain) (i : ℕ) (v : Chain) → length (update_on f tree i v) ≡ length tree
unfolding update_on step
length-update_on zero tree i v = refl
length-update_on (suc f) tree i v = elim (Bool-cases (ltb i (length tree))) [
  | inl more ↦ rw more (length-update_on f (step tree i v) (i + low_bit i) v ∙ length-step tree i v)
  | inr done ↦ rw done
]

update_on-ge :
    (f : ℕ) (tree : List Chain) (i : ℕ) (v : Chain) (j : ℕ)
    → IsBelow (entry tree j) (entry (update_on f tree i v) j)
unfolding update_on step
update_on-ge zero tree i v j = IsBelow-refl (entry tree j)
update_on-ge (suc f) tree i v j = elim (Bool-cases (ltb i (length tree))) [
  | inl more ↦
      let old = entry tree j in
      rw more (
        AtMost-trans old.count old.cost (entry (step tree i v) j)
          (entry (update_on f (step tree i v) (i + low_bit i) v) j)
          (step-ge tree i v j (ground arith)) (update_on-ge f (step tree i v) (i + low_bit i) v j))
  | inr done ↦ rw done (IsBelow-refl (entry tree j))
]

update_on-reaches :
    (f : ℕ) (tree : List Chain) (i : ℕ) (v : Chain) (j : ℕ)
    → 0 < i
    → length tree ≤ f + i
    → j < length tree
    → i ≤ j
    → j < i + low_bit j
    → IsBelow v (entry (update_on f tree i v) j)
unfolding update_on step
update_on-reaches zero tree i v j p fuel room from range = absurd (omega arith)
update_on-reaches (suc f) tree i v j p fuel room from range =
    let more : ltb i (length tree) ≡ true = ground arith in
    let here : i < length tree = omega arith in
    let t = step tree i v in
    let same = length-step tree i v in
    elim (Bool-cases (i == j)) [
      | inl at ↦
          let e : i ≡ j = ground arith in
          let now : IsBelow v (entry t j) =
            subst (λ k. IsBelow v (entry t k)) e (step-has tree i v here) in
          rw more (
            AtMost-trans v.count v.cost (entry t j) (entry (update_on f t (i + low_bit i) v) j) now
              (update_on-ge f t (i + low_bit i) v j))
      | inr below ↦
          let lt : i < j = ground arith in
          let up = low_bit_carry j i range lt p in
          let (pos_bit, le_bit) = low_bit_bounds i p in
          rw more (
            update_on-reaches f t (i + low_bit i) v j (omega arith) (omega (arith, same))
              (omega (arith, same)) up (omega arith))
    ]

update_on-is :
    (P : ℕ → Chain → Type 0) (f : ℕ) (tree : List Chain) (i : ℕ) (v : Chain)
    → ((j : ℕ) → P j (entry tree j))
    → ((j : ℕ) → i ≤ j → P j v)
    → (j : ℕ) → P j (entry (update_on f tree i v) j)
unfolding update_on step
update_on-is P zero tree i v old new j = old j
update_on-is P (suc f) tree i v old new j = elim (Bool-cases (ltb i (length tree))) [
  | inl more ↦
      let written = λ (k : ℕ). step_is P tree i v k (ground arith) (old k) (new i (omega arith)) in
      rw more
        (update_on-is P f (step tree i v) (i + low_bit i) v written (λ k le. new k (omega arith)) j)
  | inr done ↦ rw done (old j)
]

module _ (tree : List Chain) (k : ℕ) (v : Chain) where
  pub length-update : length (update tree k v) ≡ length tree
  unfolding update
  length-update = length-update_on (length tree) tree (k + 1) v

  pub update-ge : (j : ℕ) → IsBelow (entry tree j) (entry (update tree k v) j)
  unfolding update
  update-ge j = update_on-ge (length tree) tree (k + 1) v j

  -- An update covers its candidate.
  pub update-Covers : Covers (update tree k v) k v.count v.cost
  unfolding update
  update-Covers i room before range =
      let same = length-update_on (length tree) tree (k + 1) v in
      update_on-reaches (length tree) tree (k + 1) v i (omega arith) (omega arith)
        (omega (arith, same)) (omega arith) range

  pub update_is :
      (P : ℕ → Chain → Type 0)
      → ((j : ℕ) → P j (entry tree j))
      → ((j : ℕ) → k < j → P j v)
      → (j : ℕ) → P j (entry (update tree k v) j)
  unfolding update
  update_is P old new =
      update_on-is P (length tree) tree (k + 1) v old (λ j le. new j (omega arith))
