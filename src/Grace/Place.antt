-- ===== src/Grace/Place.antt =====
-- src/hash_join_grace.hpp: a row that is placed in DDR2 memory, and the rows that are there.

use fpga_postgresql_hash_joi.Types.{InputTuple}
use fpga_postgresql_hash_joi.Base.{ℕ, ◌<◌, ◌≡◌, refl, ◌∙◌, ◌≢◌, ◌⊎◌, arith}
use mathlib.Core.Path.{ap₂}
use native.Mathlib.Nat.{mod-lt}
use fpga_postgresql_hash_joi.Kernel.State.{State}
use fpga_postgresql_hash_joi.RoundTrip.Numbers.{IsTid}
use fpga_postgresql_hash_joi.Grace.{
  partition_of, pack_tid, pack_tuple, unpack_tuple, Side, side_counts, side_capacity, side_index,
  side_received, set_received, place_row, inner, outer,
}
use fpga_postgresql_hash_joi.Grace.Layout.{IsLayout, HasPlace, Before, side_index-apart}

-- The row that the join reads at a place of a partition.
abbrev pub row_at : Side → State → ℕ → ℕ → InputTuple
row_at side k p i = unpack_tuple k.ddr2 (side_index side k.outer_slot_w p i)

unpack-pack_tuple :
    (t : InputTuple) (idx : ℕ) (ddr2 : ℕ → ℕ)
    → IsTid t.tid
    → unpack_tuple (pack_tuple t idx ddr2) idx ≡ t
unfolding unpack_tuple pack_tuple pack_tid
unpack-pack_tuple t idx ddr2 h = ground (arith, h)

unpack-pack_apart :
    (t : InputTuple) (idx at : ℕ) (ddr2 : ℕ → ℕ)
    → Before idx at ⊎ Before at idx
    → unpack_tuple (pack_tuple t idx ddr2) at ≡ unpack_tuple ddr2 at
unfolding unpack_tuple pack_tuple
unpack-pack_apart t idx at ddr2 h = ground (arith, h)

-- Counting a row does not touch the memory.
placed-ddr2 :
    (side : Side) (t : InputTuple) (k : State)
    → ((place_row side t k).ddr2
        ≡ pack_tuple t
            (side_index side k.outer_slot_w
              (partition_of t.key k.partitions)
              (side_counts side k.grace (partition_of t.key k.partitions)))
            k.ddr2)
      × ((place_row side t k).outer_slot_w ≡ k.outer_slot_w)
unfolding place_row set_received side_received
placed-ddr2 inner t k = (refl, refl)
placed-ddr2 outer t k = (refl, refl)

pub partition_of-lt :
    (key partitions : ℕ) → 0 < partitions → partition_of key partitions < partitions
unfolding partition_of
partition_of-lt key partitions pos = mod-lt _ pos

-- A row goes to the first free place of its partition, where the join reads it; the rows in all
-- other places, of both sides, stay as they are. The layout is one that the kernel accepts, the
-- partition is not full, and the row's identifier has its widths.
pub place_row-row_at :
    (side : Side) (t : InputTuple) (k : State)
    → IsLayout k.partitions k.outer_slot_w
    → 0 < k.partitions
    → IsTid t.tid
    → side_counts side k.grace (partition_of t.key k.partitions) < side_capacity side k.outer_slot_w
    → (row_at side
          (place_row side t k)
          (partition_of t.key k.partitions)
          (side_counts side k.grace (partition_of t.key k.partitions))
        ≡ t)
      × ((s : Side) (q i : ℕ)
          → HasPlace s k.partitions k.outer_slot_w q i
          → (side ≢ s)
            ⊎ (partition_of t.key k.partitions ≢ q)
            ⊎ (side_counts side k.grace (partition_of t.key k.partitions) ≢ i)
          → row_at s (place_row side t k) q i ≡ row_at s k q i)
place_row-row_at side t k h pos tid room =
    let p = partition_of t.key k.partitions in
    let n = side_counts side k.grace p in
    let (memory, width) = placed-ddr2 side t k in
    (
      ap₂ (λ m w. unpack_tuple m (side_index side w p n)) memory width
          ∙ unpack-pack_tuple t (side_index side k.outer_slot_w p n) k.ddr2 tid,
      λ s q i place ne.
          ap₂ (λ m w. unpack_tuple m (side_index s w q i)) memory width
          ∙ unpack-pack_apart t _ (side_index s k.outer_slot_w q i) k.ddr2 (
              side_index-apart side s k.partitions k.outer_slot_w p n q i h
                (partition_of-lt t.key k.partitions pos, room) place ne),
    )
