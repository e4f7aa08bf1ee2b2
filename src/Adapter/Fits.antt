-- ===== src/Adapter/Fits.antt =====
-- The test of the DDR2 layout on the host and on the kernel.
use fpga_postgresql_hash_joi.Types.{
  ht_max_rows, grace_words_per_tuple, grace_max_k, grace_outer_area_base, grace_ddr2_total_words,
  grace_max_inner_rows, algorithm_b, overflow,
}
use fpga_postgresql_hash_joi.Base.Words.{u64, add64}
use fpga_postgresql_hash_joi.Base.{
  ℕ, ◌+◌, ◌-◌, ◌*◌, ◌/◌, ◌^◌, ◌≤◌, ◌<◌, ◌≡◌, refl, sym, ap, ◌∙◌, Bool, true, false, not, arith, ltb,
  leb, ◌==◌, if◌then◌else◌, if_cases,
}
use fpga_postgresql_hash_joi.Kernel.State.{State, fail_session}
use fpga_postgresql_hash_joi.Kernel.Configure.{
  partitions_for, outer_slot_words, layout_overflows, begin_building, check_limits,
}
use mathlib.Core.Path.{subst}
use fpga_postgresql_hash_joi.Grace.Accepted.{announced, check_limits-grace, partitions_for-bounds}
use fpga_postgresql_hash_joi.Adapter.{grace_ddr_layout_fits}
use native.Mathlib.Nat.{mul-le-mul_right, div-le_self}

-- The host's words of a partition's outer area, and the kernel's.
slot_words_eq :
    (outer k : ℕ)
    → outer + 1 < 2 ^ 30
    → u64 (add64 (outer / k) 1 * grace_words_per_tuple * 2) ≡ outer_slot_words outer k
unfolding outer_slot_words
slot_words_eq outer k h = omega (arith, div-le_self outer k, h)

sizes_eq :
    (k w : ℕ)
    → k ≤ grace_max_k
    → w < 2 ^ 32
    → leb (u64 (grace_outer_area_base + u64 (k * w))) grace_ddr2_total_words
      ≡ not (layout_overflows k w)
unfolding layout_overflows
sizes_eq k w few small =
    let bound : k * w ≤ grace_max_k * w = mul-le-mul_right w few in ground (arith, bound, small)

-- The host's test, once the partitions are counted.
abbrev fits_partitions : ℕ → ℕ → Bool
fits_partitions outer k =
    if ltb grace_max_k k
    then false
    else leb
        (u64
          (grace_outer_area_base + u64 (k * u64 (add64 (outer / k) 1 * grace_words_per_tuple * 2))))
        grace_ddr2_total_words

counted :
    (inner outer : ℕ)
    → inner ≤ grace_max_inner_rows
    → grace_ddr_layout_fits inner outer ≡ fits_partitions outer (partitions_for inner)
unfolding grace_ddr_layout_fits partitions_for
counted inner outer few =
    let over : ltb grace_max_inner_rows inner ≡ false = ground (arith, few) in
    let rounded : u64 (inner + ht_max_rows - 1) ≡ inner + ht_max_rows - 1 = omega (arith, few) in
    rw (grace_ddr_layout_fits, over)
      (ap (λ x. fits_partitions outer (if x / ht_max_rows == 0 then 1 else x / ht_max_rows))
        rounded)

fits_eq :
    (inner outer : ℕ)
    → inner ≤ grace_max_inner_rows
    → outer + 1 < 2 ^ 30
    → grace_ddr_layout_fits inner outer
      ≡ not
          (layout_overflows (partitions_for inner) (outer_slot_words outer (partitions_for inner)))
fits_eq inner outer few h =
    let k = partitions_for inner in
    let many : ltb grace_max_k k ≡ false = ground (arith, (partitions_for-bounds inner few).1) in
    let small : outer_slot_words outer k < 2 ^ 32 = unfold outer_slot_words in omega arith in
    counted inner outer few
    ∙ rw many (
        ap (λ w. leb (u64 (grace_outer_area_base + u64 (k * w))) grace_ddr2_total_words)
          (slot_words_eq outer k h))
    ∙ sizes_eq k (outer_slot_words outer k) ((partitions_for-bounds inner few).1) small

too_many :
    (inner outer : ℕ)
    → ltb grace_max_inner_rows inner ≡ true
    → grace_ddr_layout_fits inner outer ≡ false
unfolding grace_ddr_layout_fits
too_many inner outer many = rw (grace_ddr_layout_fits, many) refl

-- The host refuses the sizes of a session of algorithm B exactly if the kernel ends the session at
-- its CONFIGURE frame. There are fewer than 2^30 - 1 outer rows.
pub grace_ddr_layout_fits-check_limits :
    (k : State)
    → k.algorithm ≡ algorithm_b
    → k.session_done ≡ false
    → k.outer_total + 1 < 2 ^ 30
    → grace_ddr_layout_fits k.inner_total k.outer_total ≡ not (check_limits k).session_done
unfolding begin_building fail_session
grace_ddr_layout_fits-check_limits k b running_on h =
    let Agrees : State → Type 0 =
      λ s. grace_ddr_layout_fits k.inner_total k.outer_total ≡ not s.session_done in
    let k' = announced k in
    subst Agrees (sym (check_limits-grace k b)) (
      if_cases Agrees (ltb grace_max_inner_rows k.inner_total) (fail_session overflow k) _
        (λ many. too_many k.inner_total k.outer_total many)
        λ few.
          let fits = fits_eq k.inner_total k.outer_total (ground (arith, few)) h in
          if_cases Agrees (layout_overflows k'.partitions k'.outer_slot_w)
            (fail_session overflow k') (begin_building k') (λ over. fits ∙ ap not over)
            λ inside. fits ∙ ap not inside ∙ ap not (sym running_on))
