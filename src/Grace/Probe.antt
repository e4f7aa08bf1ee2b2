-- ===== src/Grace/Probe.antt =====
-- src/hash_join_grace.hpp: the rows of an outer partition, as the join probes the table with them.
use fpga_postgresql_hash_joi.Types.{tx_buf_size, Tid, InputTuple}
use fpga_postgresql_hash_joi.Base.Words.{add16, add32}
use fpga_postgresql_hash_joi.Base.{
  ℕ, zero, suc, ◌+◌, ◌^◌, ◌≤◌, ◌<◌, ◌≡◌, refl, sym, ap, ◌∙◌, inl, inr, Option, none, some, List, [],
  ◌∷◌, ◌++◌, arith, ltb, ◌==◌, Bool-cases, update,
}
use mathlib.Core.Path.{subst, ap₂}
use fpga_postgresql_hash_joi.Linear.{probe}
use fpga_postgresql_hash_joi.Kernel.State.{State, send}
use fpga_postgresql_hash_joi.RoundTrip.Results.{buffered}
use fpga_postgresql_hash_joi.Join.Output.{Emits-none, Emits-frame, pairs_sent}
use fpga_postgresql_hash_joi.Join.Result.{with_outer, join_rows, length-with_outer}
use fpga_postgresql_hash_joi.Join.Probe.Buffer.{
  Probes, Probes-trans, Probes-none, buffered-update, pending,
}
use fpga_postgresql_hash_joi.Join.Probe.Rows.{Holds}
use fpga_postgresql_hash_joi.Grace.{side_index, unpack_tuple, outer}
use fpga_postgresql_hash_joi.Grace.Place.{row_at}
use fpga_postgresql_hash_joi.Grace.Contents.{contents_from, contents_from-eq}
use fpga_postgresql_hash_joi.Grace.Join.{flush_partition, join_outcome, probe_partition}

-- What the join of the partitions keeps.
pub record Stays (k k' : State) : Type 0 where
  pub memory_lem : k'.ddr2 ≡ k.ddr2
  pub counts_lem : k'.grace ≡ k.grace
  pub width_lem : k'.outer_slot_w ≡ k.outer_slot_w

pub Stays-trans : {k k₁ k₂ : State} → Stays k k₁ → Stays k₁ k₂ → Stays k k₂
Stays-trans a b = record {
  memory_lem = b.memory_lem ∙ a.memory_lem;
  counts_lem = b.counts_lem ∙ a.counts_lem;
  width_lem = b.width_lem ∙ a.width_lem;
}

-- There is a place for one more pair.
abbrev pub HasSpace : State → Type 0
HasSpace k = k.result_buf_cnt < tx_buf_size

pub flush_partition-Probes :
    (k : State)
    → k.result_buf_cnt ≤ tx_buf_size
    → Probes k 0 [] (flush_partition k)
      × ((flush_partition k).result_buf_cnt ≡ 0)
      × Stays k (flush_partition k)
unfolding flush_partition send
flush_partition-Probes k few = elim (Bool-cases (ltb 0 k.result_buf_cnt)) [
  | inl some_wait ↦
      rw (some_wait, flush_partition)
        (
          record {
            fixed_lem = refl;
            rx_lem = refl;
            ht_lem = refl;
            received_lem = omega arith;
            matched_lem = omega arith;
            gone = pending k;
            emits = Emits-frame (pairs_sent k.result_buf k.result_buf_cnt) k.tx (ground arith, few);
            order = unfold buffered in refl;
          },
          refl,
          record { memory_lem = refl; counts_lem = refl; width_lem = refl },
        )
  | inr none_wait ↦
      rw (none_wait, flush_partition)
        (
          Probes-none k,
          ground arith,
          record { memory_lem = refl; counts_lem = refl; width_lem = refl },
        )
]

abbrev kept_pair : Tid → Tid → State → State
kept_pair inner_tid outer_tid k = record k {
  result_buf =
      update k.result_buf k.result_buf_cnt
        (record { inner_tid = inner_tid; outer_tid = outer_tid });
  session = record k.session {
    result_buf_cnt = add16 k.result_buf_cnt 1;
    matched = add32 k.matched 1;
  };
}

kept_pair-Probes :
    (inner_tid outer_tid : Tid) (k : State)
    → HasSpace k
    → k.matched + 1 < 2 ^ 32
    → Probes k 0
        (record { inner_tid = inner_tid; outer_tid = outer_tid } ∷ [])
        (kept_pair inner_tid outer_tid k)
kept_pair-Probes inner_tid outer_tid k room few =
    let up : add16 k.result_buf_cnt 1 ≡ suc k.result_buf_cnt = omega arith in
    record {
      fixed_lem = refl;
      rx_lem = refl;
      ht_lem = refl;
      received_lem = omega arith;
      matched_lem = omega arith;
      gone = [];
      emits = Emits-none k.tx;
      order =
          ap (λ n. buffered (kept_pair inner_tid outer_tid k).result_buf n 0) up
          ∙ buffered-update k.result_buf _ k.result_buf_cnt 0 k.result_buf_cnt (omega arith);
    }

join_outcome-Probes :
    (found : Option Tid) (outer_tid : Tid) (k : State)
    → HasSpace k
    → k.matched + 1 < 2 ^ 32
    → Probes k 0 (with_outer found outer_tid) (join_outcome outer_tid found k)
      × HasSpace (join_outcome outer_tid found k)
      × Stays k (join_outcome outer_tid found k)
unfolding join_outcome
join_outcome-Probes none outer_tid k room few =
    (Probes-none k, room, record { memory_lem = refl; counts_lem = refl; width_lem = refl })
join_outcome-Probes (some inner_tid) outer_tid k room few =
    let k' = kept_pair inner_tid outer_tid k in
    let p = kept_pair-Probes inner_tid outer_tid k room few in
    let (q, empty, stays) = flush_partition-Probes k' (omega arith) in
    let same : Stays k k' = record { memory_lem = refl; counts_lem = refl; width_lem = refl } in
    elim (Bool-cases (add16 k.result_buf_cnt 1 == tx_buf_size)) [
      | inl full ↦
          rw (full, join_outcome)
            (Probes-trans (omega arith) p q, omega (arith, empty), Stays-trans same stays)
      | inr space ↦ rw (space, join_outcome) (p, ground arith, same)
    ]

probe_partition_step :
    (p n j : ℕ) (k : State)
    → probe_partition p (suc n) j k
      ≡ probe_partition p n
          (j + 1)
          (join_outcome (row_at outer k p j).tid (probe k.ht (row_at outer k p j).key).found k)
unfolding probe_partition side_index
probe_partition_step p n j k = refl

contents_from_same :
    (k k' : State) (p n j : ℕ)
    → Stays k k'
    → contents_from outer k' p n j ≡ contents_from outer k p n j
contents_from_same k k' p n j stays =
    contents_from-eq outer k k' p n j λ i lo hi.
      ap₂ (λ m w. unpack_tuple m (side_index outer w p i)) stays.memory_lem stays.width_lem

-- The rows of an outer partition are answered from the table.
pub probe_partition-Probes :
    (p n j : ℕ) (k : State) (rows : List InputTuple)
    → Holds k.ht rows
    → HasSpace k
    → k.matched + n < 2 ^ 32
    → Probes k 0 (join_rows rows (contents_from outer k p n j)) (probe_partition p n j k)
      × HasSpace (probe_partition p n j k)
      × Stays k (probe_partition p n j k)
probe_partition-Probes p zero j k rows holds room few =
    unfold probe_partition in
    (Probes-none k, room, record { memory_lem = refl; counts_lem = refl; width_lem = refl })
probe_partition-Probes p (suc n) j k rows holds room few =
    let t = row_at outer k p j in
    let next = join_outcome t.tid (probe k.ht t.key).found k in
    let (a, space, stays) =
      join_outcome-Probes (probe k.ht t.key).found t.tid k room (omega arith) in
    let (b, space', stays') =
      probe_partition-Probes p n (j + 1) next rows (subst (λ h. Holds h rows) (sym a.ht_lem) holds)
        space (omega (arith, a.matched_lem, length-with_outer (probe k.ht t.key).found t.tid)) in
    let found = holds t.key in
    subst
      (λ k'.
        Probes k 0 (join_rows rows (contents_from outer k p (suc n) j)) k'
        × HasSpace k'
        × Stays k k')
      (sym (probe_partition_step p n j k))
      (
        subst (λ r. Probes k 0 r (probe_partition p n (j + 1) next))
            (ap₂ (λ f r. with_outer f t.tid ++ join_rows rows r) found
              (contents_from_same k next p n (j + 1) stays))
            (Probes-trans (omega arith) a b),
        space',
        Stays-trans stays stays',
      )
