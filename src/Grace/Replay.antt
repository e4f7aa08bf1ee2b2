-- ===== src/Grace/Replay.antt =====
-- src/hash_join_grace.hpp: what the join of one partition answers.

use fpga_postgresql_hash_joi.Types.{InputTuple, ResultPair, no_error}
use fpga_postgresql_hash_joi.Base.{
  ℕ, zero, suc, ◌+◌, ◌^◌, ◌<◌, ◌≡◌, sym, ap, ◌∙◌, false, some, List, [], ◌++◌, arith, if◌then◌else◌,
  length, length-append,
}
use mathlib.Core.Path.{subst}
use mathlib.Core.List.{append-nil}
use fpga_postgresql_hash_joi.Linear.{LinearHashTable, build, build_all}
use fpga_postgresql_hash_joi.Linear
use fpga_postgresql_hash_joi.Linear.Refine.{build_all-cons, probe-build_all}
use fpga_postgresql_hash_joi.Kernel.State.{State}
use fpga_postgresql_hash_joi.RoundTrip.Results.{buffered}
use fpga_postgresql_hash_joi.Join.Frames.{fixed}
use fpga_postgresql_hash_joi.Join.Output.{Emits, Emits-trans}
use fpga_postgresql_hash_joi.Join.Result.{join_rows}
use fpga_postgresql_hash_joi.Join.Probe.Buffer.{Probes, Probes-trans, pending}
use fpga_postgresql_hash_joi.Grace.{side_index, side_counts, inner, outer, abort}
use fpga_postgresql_hash_joi.Grace.Place.{row_at}
use fpga_postgresql_hash_joi.Grace.Contents.{contents, contents_from}
use fpga_postgresql_hash_joi.Grace.Join.{
  load_rows, probe_partition, flush_partition, join_partition,
}
use fpga_postgresql_hash_joi.Grace.Probe.{
  Stays, Stays-trans, flush_partition-Probes, probe_partition-Probes,
}

load_rows_step :
    (p n i : ℕ) (k : State)
    → (build k.ht (row_at inner k p i).key (row_at inner k p i).tid).err ≡ no_error
    → load_rows p (suc n) i k
      ≡ load_rows p n
          (i + 1)
          (record k { ht = (build k.ht (row_at inner k p i).key (row_at inner k p i).tid).table })
unfolding load_rows side_index
load_rows_step p n i k fine =
    let table = (build k.ht (row_at inner k p i).key (row_at inner k p i).tid).table in
    ap
      (λ e. elim e [
        | no_error ↦ load_rows p n (i + 1) (record k { ht = table })
        | err ↦ abort err (record k { ht = table })
      ])
      fine

-- The rows of an inner partition are built into the table.
load_rows-build_all :
    (p n i : ℕ) (k : State) (ht : LinearHashTable)
    → build_all k.ht (contents_from inner k p n i) ≡ some ht
    → load_rows p n i k ≡ record k { ht = ht }
load_rows-build_all p zero i k ht run =
    let same : k.ht ≡ ht = unfold build_all in cc in
    unfold load_rows in ap (λ h. record k { ht = h }) same
load_rows-build_all p (suc n) i k ht run =
    let (fine, rest) =
      build_all-cons (row_at inner k p i) (contents_from inner k p n (i + 1)) k.ht run in
    load_rows_step p n i k fine
    ∙ load_rows-build_all p n (i + 1)
        (record k { ht = (build k.ht (row_at inner k p i).key (row_at inner k p i).tid).table }) ht
        rest

-- The pairs of one partition.
abbrev pub partition_pairs : State → ℕ → List ResultPair
partition_pairs k p = join_rows (contents inner k p) (contents outer k p)

-- The table takes the rows, whatever stands in the slots that a reset leaves.
abbrev pub IsTaken : List InputTuple → Type 0
IsTaken rows =
    (ht : LinearHashTable) → (ht' : LinearHashTable) × (build_all (Linear.reset ht) rows ≡ some ht')

-- Pairs are sent and counted; what is in the memory stays.
pub record Answers (k : State) (pairs : List ResultPair) (k' : State) : Type 0 where
  pub fixed_lem : fixed k' ≡ fixed k
  pub rx_lem : k'.rx ≡ k.rx
  pub matched_lem : k'.matched ≡ k.matched + length pairs
  pub emits : Emits k.tx pairs k'.tx
  pub stays : Stays k k'

pub Answers-trans :
    {k k₁ k₂ : State} {xs ys : List ResultPair}
    → Answers k xs k₁
    → Answers k₁ ys k₂
    → Answers k (xs ++ ys) k₂
Answers-trans {xs = xs} {ys = ys} a b = record {
  fixed_lem = b.fixed_lem ∙ a.fixed_lem;
  rx_lem = b.rx_lem ∙ a.rx_lem;
  matched_lem = omega (arith, a.matched_lem, b.matched_lem, length-append xs ys);
  emits = Emits-trans a.emits b.emits;
  stays = Stays-trans a.stays b.stays;
}

abbrev loaded : State → LinearHashTable → State
loaded k ht = record k { ht = ht; session = record k.session { result_buf_cnt = 0 } }

join_partition_eq :
    (p : ℕ) (k : State) (ht : LinearHashTable)
    → k.session_done ≡ false
    → build_all (Linear.reset k.ht) (contents inner k p) ≡ some ht
    → join_partition p k
      ≡ flush_partition (probe_partition p (side_counts outer k.grace p) 0 (loaded k ht))
unfolding join_partition side_counts
join_partition_eq p k ht going run =
    let after : State → State = λ k₁.
      if k₁.session_done
      then k₁
      else flush_partition (
          probe_partition p (k₁.grace.outer_counts p) 0
            (record k₁ { session = record k₁.session { result_buf_cnt = 0 } })) in
    ap after (
      load_rows-build_all p (k.grace.inner_counts p) 0 (record k { ht = Linear.reset k.ht }) ht run)
    ∙ ap
        (λ b.
          if b
          then record k { ht = ht }
          else flush_partition (probe_partition p (k.grace.outer_counts p) 0 (loaded k ht)))
        going

pub join_partition-Answers :
    (p : ℕ) (k : State)
    → k.session_done ≡ false
    → IsTaken (contents inner k p)
    → k.matched + side_counts outer k.grace p < 2 ^ 32
    → Answers k (partition_pairs k p) (join_partition p k)
join_partition-Answers p k going taken few =
    let (ht, run) = taken k.ht in
    let rows = contents inner k p in
    let n = side_counts outer k.grace p in
    let (a, room, stays) =
      probe_partition-Probes p n 0 (loaded k ht) rows (λ q. probe-build_all k.ht ht rows q run)
        (omega arith) few in
    let (b, empty, stays') =
      flush_partition-Probes (probe_partition p n 0 (loaded k ht)) (omega arith) in
    let last : State = flush_partition (probe_partition p n 0 (loaded k ht)) in
    let both : Probes (loaded k ht) 0 (partition_pairs k p ++ []) last =
      Probes-trans (omega arith) a b in
    let none_left : pending last ≡ [] =
      unfold buffered in ap (λ c. buffered last.result_buf c 0) empty in
    let in_order : both.gone ++ pending last ≡ partition_pairs k p ++ [] =
      unfold buffered in both.order in
    let sent_all : both.gone ≡ partition_pairs k p =
      sym (append-nil both.gone)
      ∙ ap (λ r. both.gone ++ r) (sym none_left)
      ∙ in_order
      ∙ append-nil (partition_pairs k p) in
    subst (Answers k (partition_pairs k p)) (sym (join_partition_eq p k ht going run)) (record {
      fixed_lem = both.fixed_lem;
      rx_lem = both.rx_lem;
      matched_lem =
          both.matched_lem ∙ ap (λ r. k.matched + length r) (append-nil (partition_pairs k p));
      emits = subst (λ g. Emits k.tx g last.tx) sent_all both.emits;
      stays = record {
        memory_lem = stays'.memory_lem ∙ stays.memory_lem;
        counts_lem = stays'.counts_lem ∙ stays.counts_lem;
        width_lem = stays'.width_lem ∙ stays.width_lem;
      };
    })
