-- ===== src/Grace/Join.antt =====
-- src/hash_join_grace.hpp: the join of the partitions, `join_all_partitions`.
use fpga_postgresql_hash_joi.Base.{
  ℕ, zero, suc, ◌+◌, Option, none, some, ltb, ◌==◌, if◌then◌else◌, update,
}
use fpga_postgresql_hash_joi.Base.Words.{add16, add32}
use fpga_postgresql_hash_joi.Types.{tx_buf_size, Tid, no_error}
use fpga_postgresql_hash_joi.Wire.{tx_results}
use fpga_postgresql_hash_joi.Linear
use fpga_postgresql_hash_joi.Kernel.State.{State, send}
use fpga_postgresql_hash_joi.Grace.{unpack_tuple, inner_index, outer_index, abort}

-- `join_build_loop`, with the rows left and the index. A build error ends the session.
unfoldable pub load_rows : ℕ → ℕ → ℕ → State → State
unfolding unpack_tuple inner_index abort
load_rows p zero i k = k
load_rows p (suc n) i k =
    let t = unpack_tuple k.ddr2 (inner_index p i) in
    let r = Linear.build k.ht t.key t.tid in
    let more = load_rows p n (i + 1) (record k { ht = r.table }) in
    elim r.err [ no_error ↦ more | err ↦ abort err (record k { ht = r.table }) ]

unfoldable pub flush_partition : State → State
unfolding send
flush_partition k =
    if ltb 0 k.result_buf_cnt
    then record (send (tx_results k.result_buf k.result_buf_cnt) k) {
      session = record k.session { result_buf_cnt = 0 };
    }
    else k

-- A hit is kept in the buffer, which is sent when it is full.
unfoldable pub join_outcome : Tid → Option Tid → State → State
unfolding flush_partition
join_outcome outer_tid none k = k
join_outcome outer_tid (some inner_tid) k =
    let k' = record k {
      result_buf =
          update k.result_buf k.result_buf_cnt
            (record { inner_tid = inner_tid; outer_tid = outer_tid });
      session = record k.session {
        result_buf_cnt = add16 k.result_buf_cnt 1;
        matched = add32 k.matched 1;
      };
    } in
    if k'.result_buf_cnt == tx_buf_size then flush_partition k' else k'

-- `join_probe_loop`, with the rows left and the index.
unfoldable pub probe_partition : ℕ → ℕ → ℕ → State → State
unfolding unpack_tuple outer_index join_outcome
probe_partition p zero j k = k
probe_partition p (suc n) j k =
    let t = unpack_tuple k.ddr2 (outer_index k.outer_slot_w p j) in
    probe_partition p n (j + 1) (join_outcome t.tid (Linear.probe k.ht t.key).found k)

unfoldable pub join_partition : ℕ → State → State
unfolding load_rows probe_partition flush_partition
join_partition p k =
    let k₁ = load_rows p (k.grace.inner_counts p) 0 (record k { ht = Linear.reset k.ht }) in
    let k₂ =
      probe_partition p (k₁.grace.outer_counts p) 0
        (record k₁ { session = record k₁.session { result_buf_cnt = 0 } }) in
    if k₁.session_done then k₁ else flush_partition k₂

-- `join_partition_loop`, with the partitions left and the index.
unfoldable pub join_partitions : ℕ → ℕ → State → State
unfolding join_partition
join_partitions zero p k = k
join_partitions (suc n) p k =
    let more = join_partitions n (p + 1) (join_partition p k) in if k.session_done then k else more

unfoldable pub join_all_partitions : State → State
unfolding join_partitions
join_all_partitions k =
    join_partitions k.partitions 0 (record k { session = record k.session { matched = 0 } })
