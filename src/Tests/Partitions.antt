-- ===== src/Tests/Partitions.antt =====
-- The join of two partitions in DDR2 memory.

use fpga_postgresql_hash_joi.Types.{InputTuple}
use fpga_postgresql_hash_joi.Base.{ℕ, zero, suc, ◌<◌, ◌≡◌, refl, false, [], ◌∷◌, arith, length}
use fpga_postgresql_hash_joi.Linear.{table_runs, build}
use fpga_postgresql_hash_joi.Linear
use fpga_postgresql_hash_joi.Kernel.State.{State}
use fpga_postgresql_hash_joi.Join.Output.{Emits}
use fpga_postgresql_hash_joi.Grace.{
  pack_tuple, unpack_tuple, side_index, inner_index, outer_index, side_counts, inner,
}
use fpga_postgresql_hash_joi.Grace.Contents.{contents}
use fpga_postgresql_hash_joi.Grace.Replay.{IsTaken}
use fpga_postgresql_hash_joi.Grace.Answer.{all_pairs, join_all_partitions-Answers}
use fpga_postgresql_hash_joi.Grace.Join.{join_all_partitions}
use fpga_postgresql_hash_joi.Tests.Table.{tid_of}
use fpga_postgresql_hash_joi.Tests.Board.{powered}

-- One inner row and one outer row with the key 7, in partition 1.
abbrev inner_row : InputTuple
inner_row = record { key = 7; tid = tid_of 1 1 }

abbrev outer_row : InputTuple
outer_row = record { key = 7; tid = tid_of 2 2 }

abbrev in_memory : State
in_memory = record powered {
  session = record powered.session { partitions = 2; outer_slot_w = 12 };
  grace = record {
    inner_counts = λ p. elim p [ zero ↦ 0 | suc _ ↦ 1 ];
    outer_counts = λ p. elim p [ zero ↦ 0 | suc _ ↦ 1 ];
  };
  ddr2 =
      pack_tuple outer_row (outer_index 12 1 0) (pack_tuple inner_row (inner_index 1 0) (λ a. 0));
}

in_memory-IsTaken : (p : ℕ) → p < 2 → IsTaken (contents inner in_memory p)
unfolding table_runs side_counts unpack_tuple pack_tuple outer_index side_index
in_memory-IsTaken zero lt ht = (Linear.reset ht, refl)
in_memory-IsTaken (suc zero) lt ht = ((build (Linear.reset ht) 7 (tid_of 1 1)).table, refl)
in_memory-IsTaken (suc (suc p)) lt ht = absurd (omega (arith, lt))

join_all_partitions-Answers_example :
    ((join_all_partitions in_memory).session_done ≡ false)
    × ((join_all_partitions in_memory).matched ≡ length (all_pairs in_memory 2 0))
    × Emits in_memory.tx (all_pairs in_memory 2 0) (join_all_partitions in_memory).tx
join_all_partitions-Answers_example =
    join_all_partitions-Answers in_memory refl in_memory-IsTaken (unfold side_counts in omega arith)

one_pair : all_pairs in_memory 2 0 ≡ record { inner_tid = tid_of 1 1; outer_tid = tid_of 2 2 } ∷ []
unfolding side_counts unpack_tuple pack_tuple outer_index side_index
one_pair = refl
