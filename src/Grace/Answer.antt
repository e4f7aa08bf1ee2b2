-- ===== src/Grace/Answer.antt =====
-- src/hash_join_grace.hpp: what the join of all partitions answers.

use fpga_postgresql_hash_joi.Types.{ResultPair}
use fpga_postgresql_hash_joi.Base.{
  ℕ, zero, suc, ◌+◌, ◌^◌, ◌≤◌, ◌<◌, ◌≡◌, refl, sym, ap, ◌∙◌, false, List, [], ◌++◌, arith,
  if◌then◌else◌, length,
}
use mathlib.Core.Path.{subst, ap₂}
use fpga_postgresql_hash_joi.Kernel.State.{State}
use fpga_postgresql_hash_joi.Join.Output.{Emits, Emits-none}
use fpga_postgresql_hash_joi.Join.Result.{join_rows, length-join_rows}
use fpga_postgresql_hash_joi.Grace.{side_index, side_counts, unpack_tuple, inner, outer, Side}
use fpga_postgresql_hash_joi.Grace.Contents.{contents, contents_from, contents_from-eq}
use fpga_postgresql_hash_joi.Grace.Join.{join_partition, join_partitions, join_all_partitions}
use fpga_postgresql_hash_joi.Grace.Probe.{Stays}
use fpga_postgresql_hash_joi.Grace.Replay.{
  partition_pairs, IsTaken, Answers, Answers-trans, join_partition-Answers,
}

-- The pairs of the partitions `p`, `p + 1`, …, and the outer rows there.
abbrev pub all_pairs : State → ℕ → ℕ → List ResultPair
all_pairs k zero p = []
all_pairs k (suc n) p = partition_pairs k p ++ all_pairs k n (p + 1)

abbrev pub outer_rows : State → ℕ → ℕ → ℕ
outer_rows k zero p = 0
outer_rows k (suc n) p = side_counts outer k.grace p + outer_rows k n (p + 1)

contents_same : (s : Side) (k k' : State) (p : ℕ) → Stays k k' → contents s k' p ≡ contents s k p
contents_same s k k' p stays =
    ap (λ g. contents_from s k' p (side_counts s g p) 0) stays.counts_lem
    ∙ contents_from-eq s k k' p (side_counts s k.grace p) 0 (λ i lo hi.
      ap₂ (λ m w. unpack_tuple m (side_index s w p i)) stays.memory_lem stays.width_lem)

all_pairs-eq : (k k' : State) (n p : ℕ) → Stays k k' → all_pairs k' n p ≡ all_pairs k n p
all_pairs-eq k k' zero p stays = refl
all_pairs-eq k k' (suc n) p stays =
    ap₂ ◌++◌ (ap₂ join_rows (contents_same inner k k' p stays) (contents_same outer k k' p stays))
      (all_pairs-eq k k' n (p + 1) stays)

outer_rows-eq : (k k' : State) (n p : ℕ) → Stays k k' → outer_rows k' n p ≡ outer_rows k n p
outer_rows-eq k k' zero p stays = refl
outer_rows-eq k k' (suc n) p stays =
    ap₂ ◌+◌ (ap (λ g. side_counts outer g p) stays.counts_lem) (outer_rows-eq k k' n (p + 1) stays)

length-contents_from : (s : Side) (k : State) (p n i : ℕ) → length (contents_from s k p n i) ≡ n
length-contents_from s k p zero i = refl
length-contents_from s k p (suc n) i = omega (arith, length-contents_from s k p n (i + 1))

join_partitions_step :
    (n p : ℕ) (k : State)
    → k.session_done ≡ false
    → join_partitions (suc n) p k ≡ join_partitions n (p + 1) (join_partition p k)
unfolding join_partitions
join_partitions_step n p k going =
    ap (λ b. if b then k else join_partitions n (p + 1) (join_partition p k)) going

join_partitions-Answers :
    (n p : ℕ) (k : State)
    → k.session_done ≡ false
    → ((q : ℕ) → p ≤ q → q < p + n → IsTaken (contents inner k q))
    → k.matched + outer_rows k n p < 2 ^ 32
    → Answers k (all_pairs k n p) (join_partitions n p k)
join_partitions-Answers zero p k going taken few =
    unfold join_partitions in
    record {
      fixed_lem = refl;
      rx_lem = refl;
      matched_lem = omega arith;
      emits = Emits-none k.tx;
      stays = record { memory_lem = refl; counts_lem = refl; width_lem = refl };
    }
join_partitions-Answers (suc n) p k going taken few =
    let k₁ = join_partition p k in
    let a = join_partition-Answers p k going (taken p (omega arith) (omega arith)) (omega arith) in
    let count = length-join_rows (contents inner k p) (contents outer k p) in
    let size = length-contents_from outer k p (side_counts outer k.grace p) 0 in
    let b =
      join_partitions-Answers n (p + 1) k₁ (ap (λ f. f.session_done) a.fixed_lem ∙ going)
        (λ q lo hi.
          subst IsTaken (sym (contents_same inner k k₁ q a.stays))
            (taken q (omega arith) (omega arith)))
        (omega (arith, a.matched_lem, count, size, outer_rows-eq k k₁ n (p + 1) a.stays)) in
    subst (Answers k (all_pairs k (suc n) p)) (sym (join_partitions_step n p k going)) (
      subst (λ r. Answers k (partition_pairs k p ++ r) (join_partitions n (p + 1) k₁))
        (all_pairs-eq k k₁ n (p + 1) a.stays) (Answers-trans a b))

-- The join of the partitions, once both sides are in memory: it goes on, sends the pairs of each
-- partition after those of the partitions before it, and in `matched` counts them; the pairs of a
-- partition are each of its outer rows, in their order, with the first of its inner rows that has
-- the same key. The table takes the inner rows of each partition, and there are fewer than 2^32
-- outer rows.
pub join_all_partitions-Answers :
    (k : State)
    → k.session_done ≡ false
    → ((p : ℕ) → p < k.partitions → IsTaken (contents inner k p))
    → outer_rows k k.partitions 0 < 2 ^ 32
    → ((join_all_partitions k).session_done ≡ false)
      × ((join_all_partitions k).matched ≡ length (all_pairs k k.partitions 0))
      × Emits k.tx (all_pairs k k.partitions 0) (join_all_partitions k).tx
unfolding join_all_partitions
join_all_partitions-Answers k going taken few =
    let start : State = record k { session = record k.session { matched = 0 } } in
    let same : Stays k start = record { memory_lem = refl; counts_lem = refl; width_lem = refl } in
    let a =
      join_partitions-Answers k.partitions 0 start going (λ p lo hi. taken p (omega arith))
        (omega (arith, outer_rows-eq k start k.partitions 0 same)) in
    let pairs = all_pairs-eq k start k.partitions 0 same in
    (
      ap (λ f. f.session_done) a.fixed_lem ∙ going,
      omega (arith, a.matched_lem, ap length pairs),
      subst (λ r. Emits k.tx r (join_partitions k.partitions 0 start).tx) pairs a.emits,
    )
