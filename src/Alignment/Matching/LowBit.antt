-- ===== src/Alignment/Matching/LowBit.antt =====
-- The lowest set bit of an index, by which the loops of the tree go on.
use vision_tactile_dataset.Common.{
  ℕ, zero, suc, ◌+◌, ◌*◌, ◌/◌, ◌%◌, ◌≤◌, ◌<◌, ◌≡◌, arith, ◌==◌, Bool-cases, inl, inr,
}
use vision_tactile_dataset.Alignment.Matching.{low_bit_on, low_bit}

low_bit_on_bounds : (f n : ℕ) → 0 < n → n ≤ f → (0 < low_bit_on f n) × (low_bit_on f n ≤ n)
unfolding low_bit_on
low_bit_on_bounds zero n p h = absurd (omega arith)
low_bit_on_bounds (suc f) n p h = elim (Bool-cases (n % 2 == 0)) [
  | inl even ↦
      let two : n ≡ 2 * (n / 2) = ground arith in
      let (low, high) = low_bit_on_bounds f (n / 2) (omega arith) (omega arith) in
      rw even (omega arith, omega arith)
  | inr odd ↦ rw odd (omega arith, omega arith)
]

pub low_bit_bounds : (n : ℕ) → 0 < n → (0 < low_bit n) × (low_bit n ≤ n)
unfolding low_bit
low_bit_bounds n p = low_bit_on_bounds n n p (omega arith)

-- From inside the range of an entry, the way up stays at or below the entry.
low_bit_on_carry :
    (f g i j : ℕ) → i ≤ f → j ≤ g → i < j + low_bit_on f i → j < i → 0 < j → j + low_bit_on g j ≤ i
unfolding low_bit_on
low_bit_on_carry zero g i j hi hj above below p = absurd (omega arith)
low_bit_on_carry (suc f) zero i j hi hj above below p = absurd (omega arith)
low_bit_on_carry (suc f) (suc g) i j hi hj above below p = elim (Bool-cases (i % 2 == 0)) [
  | inr odd ↦ absurd (ground arith)
  | inl even ↦ elim (Bool-cases (j % 2 == 0)) [
    | inr odd ↦ rw odd (omega arith)
    | inl even' ↦
        let range : i < j + 2 * low_bit_on f (i / 2) = rw even at above in
        let two : i ≡ 2 * (i / 2) = ground arith in
        let two' : j ≡ 2 * (j / 2) = ground arith in
        let carry =
          low_bit_on_carry f g (i / 2) (j / 2) (omega arith) (omega arith) (omega arith)
            (omega arith) (omega arith) in
        rw even' (omega arith)
  ]
]

pub low_bit_carry : (i j : ℕ) → i < j + low_bit i → j < i → 0 < j → j + low_bit j ≤ i
unfolding low_bit
low_bit_carry i j above below p = low_bit_on_carry i j i j (omega arith) (omega arith) above below p
