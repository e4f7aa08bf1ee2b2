-- ===== src/Grace/Layout.antt =====
-- src/hash_join_grace.hpp: the places of the rows in DDR2 memory.

use fpga_postgresql_hash_joi.Types.{
  grace_words_per_tuple, grace_max_k, grace_inner_slot_words, grace_outer_area_base,
  grace_ddr2_total_words,
}
use fpga_postgresql_hash_joi.Base.{
  ℕ, ◌+◌, ◌*◌, ◌^◌, ◌≤◌, ◌<◌, ◌≡◌, refl, ap, ◌≢◌, ◌⊎◌, inl, inr, false, arith,
}
use native.Mathlib.Nat.{mul-le-mul_right, suc-mul}
use fpga_postgresql_hash_joi.Kernel.Configure.{layout_overflows}
use fpga_postgresql_hash_joi.Grace.{
  inner_index, outer_index, Side, side_capacity, side_index, inner, outer,
}

trichotomy : (a b : ℕ) → (a < b) ⊎ (a ≡ b) ⊎ (b < a)
trichotomy a b = ground arith

-- A layout that the kernel's test accepts.
pub record IsLayout (partitions slot_words : ℕ) : Type 0 where
  pub few : partitions ≤ grace_max_k
  pub word : slot_words < 2 ^ 32
  pub fits : layout_overflows partitions slot_words ≡ false

-- All outer areas end in the memory, without a wrap-around.
pub outer_areas-le :
    (partitions slot_words : ℕ)
    → IsLayout partitions slot_words
    → grace_outer_area_base + partitions * slot_words ≤ grace_ddr2_total_words
unfolding layout_overflows
outer_areas-le partitions slot_words h =
    let bound : partitions * slot_words ≤ 256 * slot_words = mul-le-mul_right slot_words h.few in
    ground (arith, bound, h.fits, h.word)

outer_area-lt :
    (partitions slot_words p : ℕ)
    → IsLayout partitions slot_words
    → p < partitions
    → grace_outer_area_base + p * slot_words + slot_words ≤ grace_ddr2_total_words
outer_area-lt partitions slot_words p h lt =
    let next : p * slot_words + slot_words ≤ partitions * slot_words =
      rw (← suc-mul p slot_words) (mul-le-mul_right slot_words lt) in
    omega (arith, next, outer_areas-le partitions slot_words h)

-- A row that the layout has a place for.
abbrev pub HasPlace : Side → ℕ → ℕ → ℕ → ℕ → Type 0
HasPlace side partitions slot_words p i = (p < partitions) × (i < side_capacity side slot_words)

-- The two words of one place come before those of the other.
abbrev pub Before : ℕ → ℕ → Type 0
Before a b = a + 2 ≤ b

-- The places without the wrap-around of 32 bits.
abbrev flat_index : Side → ℕ → ℕ → ℕ → ℕ
flat_index inner slot_words p i = p * grace_inner_slot_words + i * grace_words_per_tuple
flat_index outer slot_words p i = grace_outer_area_base + p * slot_words + i * grace_words_per_tuple

flat_index-lt :
    (side : Side) (partitions slot_words p i : ℕ)
    → IsLayout partitions slot_words
    → HasPlace side partitions slot_words p i
    → flat_index side slot_words p i + 2 ≤ grace_ddr2_total_words
unfolding side_capacity
flat_index-lt inner partitions slot_words p i h (lt, room) = omega (arith, h.few)
flat_index-lt outer partitions slot_words p i h (lt, room) =
    omega (arith, outer_area-lt partitions slot_words p h lt)

side_index-flat :
    (side : Side) (partitions slot_words p i : ℕ)
    → IsLayout partitions slot_words
    → HasPlace side partitions slot_words p i
    → side_index side slot_words p i ≡ flat_index side slot_words p i
unfolding side_index inner_index outer_index
side_index-flat inner partitions slot_words p i h q =
    omega (arith, flat_index-lt inner partitions slot_words p i h q)
side_index-flat outer partitions slot_words p i h q =
    omega (arith, flat_index-lt outer partitions slot_words p i h q)

-- Both words of a row's place are within the DDR2 memory.
pub side_index-lt :
    (side : Side) (partitions slot_words p i : ℕ)
    → IsLayout partitions slot_words
    → HasPlace side partitions slot_words p i
    → side_index side slot_words p i + 1 < grace_ddr2_total_words
side_index-lt side partitions slot_words p i h q = omega (
  arith,
  side_index-flat side partitions slot_words p i h q,
  flat_index-lt side partitions slot_words p i h q,
)

next_area : (w p q : ℕ) → p < q → p * w + w ≤ q * w
next_area w p q lt = rw (← suc-mul p w) (mul-le-mul_right w lt)

-- Places in areas of `w` words that differ are apart.
areas-apart :
    (w p i q j : ℕ)
    → i * 2 + 1 < w
    → j * 2 + 1 < w
    → (p ≢ q) ⊎ (i ≢ j)
    → Before (p * w + i * 2) (q * w + j * 2) ⊎ Before (q * w + j * 2) (p * w + i * 2)
areas-apart w p i q j hi hj ne = elim (trichotomy p q) [
  | inl below ↦ inl (omega (arith, next_area w p q below))
  | inr (inl same) ↦ elim (trichotomy i j) [
    | inl below ↦ inl (omega (arith, ap (λ r. r * w) same))
    | inr (inl equal) ↦ absurd (elim ne [ inl other ↦ other same | inr other ↦ other equal ])
    | inr (inr above) ↦ inr (omega (arith, ap (λ r. r * w) same))
  ]
  | inr (inr above) ↦ inr (omega (arith, next_area w q p above))
]

flat_index-apart :
    (s t : Side) (partitions slot_words p i q j : ℕ)
    → IsLayout partitions slot_words
    → HasPlace s partitions slot_words p i
    → HasPlace t partitions slot_words q j
    → (s ≢ t) ⊎ (p ≢ q) ⊎ (i ≢ j)
    → Before (flat_index s slot_words p i) (flat_index t slot_words q j)
      ⊎ Before (flat_index t slot_words q j) (flat_index s slot_words p i)
unfolding side_capacity
flat_index-apart inner inner partitions slot_words p i q j h a b (inl other) = absurd (other refl)
flat_index-apart inner inner partitions slot_words p i q j h a b (inr ne) =
    areas-apart grace_inner_slot_words p i q j (omega (arith, a)) (omega (arith, b)) ne
flat_index-apart inner outer partitions slot_words p i q j h a b ne =
    inl (omega (arith, h.few, a, b))
flat_index-apart outer inner partitions slot_words p i q j h a b ne =
    inr (omega (arith, h.few, a, b))
flat_index-apart outer outer partitions slot_words p i q j h a b (inl other) = absurd (other refl)
flat_index-apart outer outer partitions slot_words p i q j h a b (inr ne) =
    elim (areas-apart slot_words p i q j (omega (arith, a)) (omega (arith, b)) ne) [
      | inl before ↦ inl (omega arith)
      | inr before ↦ inr (omega arith)
    ]

-- Different rows, of one side or of both, have places that do not overlap.
pub side_index-apart :
    (s t : Side) (partitions slot_words p i q j : ℕ)
    → IsLayout partitions slot_words
    → HasPlace s partitions slot_words p i
    → HasPlace t partitions slot_words q j
    → (s ≢ t) ⊎ (p ≢ q) ⊎ (i ≢ j)
    → Before (side_index s slot_words p i) (side_index t slot_words q j)
      ⊎ Before (side_index t slot_words q j) (side_index s slot_words p i)
side_index-apart s t partitions slot_words p i q j h a b ne =
    rw
      (
        side_index-flat s partitions slot_words p i h a,
        side_index-flat t partitions slot_words q j h b,
      )
      (flat_index-apart s t partitions slot_words p i q j h a b ne)
