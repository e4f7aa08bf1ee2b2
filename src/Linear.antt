-- ===== src/Linear.antt =====
-- src/hash_join_linear.hpp: the open-addressing hash table with linear probing.
-- The block RAM arrays are functions of the slot; every slot that the code uses is masked, and so
-- is in range.
use fpga_postgresql_hash_joi.Base.{
  ℕ, zero, suc, ◌+◌, ◌-◌, ◌*◌, ◌/◌, ◌%◌, ◌^◌, List, [], ◌∷◌, Option, none, some, leb, ltb, ◌==◌,
  if◌then◌else◌, update,
}
use fpga_postgresql_hash_joi.Base.Words.{u32, u64, add32}
use fpga_postgresql_hash_joi.Types.{
  ht_log2_slots, ht_slots, ht_max_rows, max_probe_dist, FpgaError, no_error, overflow, Tid,
  InputTuple,
}
pub mod Probe
pub mod Build
pub mod Refine

pub record LinearHashTable : Type 0 where
  pub ht_key : ℕ → ℕ
  pub ht_blk : ℕ → ℕ
  pub ht_off : ℕ → ℕ
  pub ht_valid : ℕ → ℕ
  pub row_count : ℕ

-- `for (s = 0; s < n; s++) f[s] = v;`
abbrev pub fill : ℕ → ℕ → (ℕ → ℕ) → ℕ → ℕ
fill n v f s = if ltb s n then v else f s

unfoldable pub reset : LinearHashTable → LinearHashTable
reset ht = record ht { ht_valid = fill ht_slots 0 ht.ht_valid; row_count = 0 }

-- The top 14 bits of the 64-bit product.
unfoldable pub slot_of : ℕ → ℕ
slot_of key = u32 (u64 (key * 11_400_714_819_323_198_485) / 2 ^ (64 - ht_log2_slots))

-- `(start + step) & (HT_SLOTS - 1u)`, the mask of a power of 2.
unfoldable pub slot_at : ℕ → ℕ → ℕ
slot_at start step = add32 start step % ht_slots

-- The four writes of `build`, and the count.
unfoldable pub store : LinearHashTable → ℕ → ℕ → Tid → LinearHashTable
store ht s key tid = record {
  ht_key = update ht.ht_key s key;
  ht_blk = update ht.ht_blk s tid.blkno;
  ht_off = update ht.ht_off s tid.offno;
  ht_valid = update ht.ht_valid s 1;
  row_count = add32 ht.row_count 1;
}

-- The error code, `steps_out` and the table after a build.
pub record BuildResult : Type 0 where
  pub err : FpgaError
  pub steps : ℕ
  pub table : LinearHashTable

-- The loop of `build`, with the iterations left and the value of `step`.
unfoldable pub build_loop : LinearHashTable → ℕ → Tid → ℕ → ℕ → ℕ → BuildResult
build_loop ht key tid start zero step = record { err = overflow; steps = step; table = ht }
build_loop ht key tid start (suc n) step =
    let s = slot_at start step in
    let rest = build_loop ht key tid start n (step + 1) in
    if ht.ht_valid s == 0
    then record { err = no_error; steps = step + 1; table = store ht s key tid }
    else rest

unfoldable pub build : LinearHashTable → ℕ → Tid → BuildResult
build ht key tid =
    if leb ht_max_rows ht.row_count
    then record { err = overflow; steps = 0; table = ht }
    else build_loop ht key tid (slot_of key) max_probe_dist 0

-- `out_tid` if the key is found (the result 1), and `steps_out`.
pub record ProbeResult : Type 0 where
  pub found : Option Tid
  pub steps : ℕ

unfoldable pub probe_loop : LinearHashTable → ℕ → ℕ → ℕ → ℕ → ProbeResult
probe_loop ht key start zero step = record { found = none; steps = step }
probe_loop ht key start (suc n) step =
    let s = slot_at start step in
    let rest = probe_loop ht key start n (step + 1) in
    if ht.ht_valid s == 0
    then record { found = none; steps = step + 1 }
    else if ht.ht_key s == key
    then record {
      found = some (record { blkno = ht.ht_blk s; offno = ht.ht_off s });
      steps = step + 1;
    }
    else rest

unfoldable pub probe : LinearHashTable → ℕ → ProbeResult
probe ht key = probe_loop ht key (slot_of key) max_probe_dist 0

-- The callers' batch of builds, which stops at the first error.
unfoldable pub build_all : LinearHashTable → List InputTuple → Option LinearHashTable
build_all ht [] = some ht
build_all ht (t ∷ ts) =
    let r = build ht t.key t.tid in
    let rest = build_all r.table ts in elim r.err [ no_error ↦ rest | _ ↦ none ]

-- Everything that a run of the table computes with.
unfoldable pub table_runs : Unit {0}
unfolding reset slot_of slot_at store build_loop build probe_loop probe build_all
table_runs = tt
