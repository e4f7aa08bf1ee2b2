-- ===== src/Grace/Accepted.antt =====
-- src/hash_join_kernel.cpp: what the kernel's test of a session of algorithm B ensures.

use fpga_postgresql_hash_joi.Types.{
  ht_max_rows, grace_max_k, grace_outer_area_base, grace_ddr2_total_words, grace_max_inner_rows,
  algorithm_a, algorithm_b, FpgaError, overflow, invalid_cmd,
}
use fpga_postgresql_hash_joi.Base.{
  ℕ, ◌+◌, ◌*◌, ◌≤◌, ◌<◌, ◌≡◌, sym, ap, false, arith, ltb, ◌==◌, if◌then◌else◌, if_cases,
}
use mathlib.Core.Path.{subst}
use fpga_postgresql_hash_joi.Kernel.State.{State, fail_session}
use fpga_postgresql_hash_joi.Kernel.Configure.{
  partitions_for, outer_slot_words, layout_overflows, begin_building, check_limits,
}
use fpga_postgresql_hash_joi.Grace.Layout.{IsLayout, outer_areas-le, HasPlace, side_index-lt}
use fpga_postgresql_hash_joi.Grace.{Side, side_index}

-- The layout of a session of algorithm B, as CONFIGURE announces it.
abbrev pub announced : State → State
announced k = record k {
  session = record k.session {
    partitions = partitions_for k.inner_total;
    outer_slot_w = outer_slot_words k.outer_total (partitions_for k.inner_total);
  };
}

pub partitions_for-bounds :
    (total : ℕ)
    → total ≤ grace_max_inner_rows
    → (0 < partitions_for total) × (partitions_for total ≤ grace_max_k)
unfolding partitions_for
partitions_for-bounds total h = ground arith

pub check_limits-grace :
    (k : State)
    → k.algorithm ≡ algorithm_b
    → check_limits k ≡ (
        if ltb grace_max_inner_rows k.inner_total
        then fail_session overflow k
        else if layout_overflows (announced k).partitions (announced k).outer_slot_w
        then fail_session overflow (announced k)
        else begin_building (announced k))
unfolding check_limits
check_limits-grace k b =
    ap
      (λ a.
        if a == algorithm_a
        then (if ltb ht_max_rows k.inner_total then fail_session overflow k else begin_building k)
        else if a == algorithm_b
        then (if ltb grace_max_inner_rows k.inner_total
            then fail_session overflow k
            else if layout_overflows (announced k).partitions (announced k).outer_slot_w
            then fail_session overflow (announced k)
            else begin_building (announced k))
        else fail_session invalid_cmd k)
      b

-- If the session goes on, its layout is one for the places of the rows.
abbrev Laid : State → Type 0
Laid k = k.session_done ≡ false → IsLayout k.partitions k.outer_slot_w × (0 < k.partitions)

stopped : (err : FpgaError) (k : State) → Laid (fail_session err k)
unfolding fail_session
stopped err k going = cc (going)

begun-Laid :
    (k : State)
    → k.inner_total ≤ grace_max_inner_rows
    → layout_overflows (announced k).partitions (announced k).outer_slot_w ≡ false
    → Laid (begin_building (announced k))
unfolding begin_building
begun-Laid k few fits going =
    let (some_one, most) = partitions_for-bounds k.inner_total few in
    (record { few = most; word = unfold outer_slot_words in omega arith; fits = fits }, some_one)

check_limits-IsLayout :
    (k : State)
    → k.algorithm ≡ algorithm_b
    → (check_limits k).session_done ≡ false
    → IsLayout (check_limits k).partitions (check_limits k).outer_slot_w
      × (0 < (check_limits k).partitions)
check_limits-IsLayout k b = subst Laid (sym (check_limits-grace k b)) (
    if_cases Laid (ltb grace_max_inner_rows k.inner_total) (fail_session overflow k) _
      (λ many. stopped overflow k)
      λ few.
        if_cases Laid (layout_overflows (announced k).partitions (announced k).outer_slot_w)
          (fail_session overflow (announced k)) (begin_building (announced k))
          (λ over. stopped overflow (announced k)) λ fits. begun-Laid k (ground (arith, few)) fits)

-- The layout of a session is within the DDR2 memory: there are partitions, and as many as the
-- counters; the outer area ends in the memory, in numbers without wrap-around, and the two words
-- of every row that has a place are there.
pub record IsInMemory (partitions slot_words : ℕ) : Type 0 where
  pub some_partition : 0 < partitions
  pub few : partitions ≤ grace_max_k
  pub area_lem : grace_outer_area_base + partitions * slot_words ≤ grace_ddr2_total_words
  pub place_lem :
      (side : Side) (p i : ℕ)
      → HasPlace side partitions slot_words p i
      → side_index side slot_words p i + 1 < grace_ddr2_total_words

-- A session of algorithm B that the kernel's test lets go on has from one to GRACE_MAX_K
-- partitions; its outer area ends within the DDR2 memory, without a wrap-around, and every place of
-- a row, of either side, is within the memory.
pub check_limits-IsInMemory :
    (k : State)
    → k.algorithm ≡ algorithm_b
    → (check_limits k).session_done ≡ false
    → IsInMemory (check_limits k).partitions (check_limits k).outer_slot_w
check_limits-IsInMemory k b going =
    let (laid, some_one) = check_limits-IsLayout k b going in
    record {
      some_partition = some_one;
      few = laid.few;
      area_lem = outer_areas-le (check_limits k).partitions (check_limits k).outer_slot_w laid;
      place_lem = λ side p i place.
          side_index-lt side (check_limits k).partitions (check_limits k).outer_slot_w p i laid
            place;
    }
