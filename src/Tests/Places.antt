-- ===== src/Tests/Places.antt =====
-- Rows of algorithm B in DDR2 memory.

use fpga_postgresql_hash_joi.Types.{
  rx_buf_tuples, grace_ddr2_total_words, algorithm_b, key_int32, InputTuple,
}
use fpga_postgresql_hash_joi.Base.{
  ℕ, zero, suc, ◌+◌, ◌≤◌, ◌<◌, ◌≡◌, refl, ◌≢◌, ◌↔◌, ◌⊎◌, inl, false, [], arith,
}
use fpga_postgresql_hash_joi.Kernel.State.{State, running}
use fpga_postgresql_hash_joi.Kernel.Configure.{
  layout_overflows, check_limits, partitions_for, outer_slot_words,
}
use fpga_postgresql_hash_joi.Kernel.Build.{receive_rows}
use fpga_postgresql_hash_joi.Host.Serializer.{put_tuples}
use fpga_postgresql_hash_joi.Grace.{
  partition_of, Side, partition_rows, side_counts, side_capacity, side_index, place_row, inner,
  outer,
}
use fpga_postgresql_hash_joi.Grace.Layout.{
  IsLayout, HasPlace, Before, side_index-lt, side_index-apart,
}
use fpga_postgresql_hash_joi.Grace.Place.{row_at, place_row-row_at}
use fpga_postgresql_hash_joi.Grace.Contents.{IsWithin}
use fpga_postgresql_hash_joi.Grace.Partition.{Partitions, HasPlaces, partition_rows-Partitions}
use fpga_postgresql_hash_joi.Join.Frames.{Runs}
use fpga_postgresql_hash_joi.Grace.Accepted.{check_limits-IsInMemory, IsInMemory}
use fpga_postgresql_hash_joi.RoundTrip.Numbers.{sent}
use fpga_postgresql_hash_joi.Join.Input.{write_all}
use fpga_postgresql_hash_joi.Join.Overrun.{Faults, receive_rows-Faults_iff}
use fpga_postgresql_hash_joi.Tests.Table.{tid_of, rows}
use fpga_postgresql_hash_joi.Tests.Board.{powered}

small-IsLayout : IsLayout 2 12
small-IsLayout = record {
  few = omega arith;
  word = omega arith;
  fits = unfold layout_overflows in refl;
}

side_index-lt_example : side_index outer 12 1 5 + 1 < grace_ddr2_total_words
side_index-lt_example =
    side_index-lt outer 2 12 1 5 small-IsLayout (unfold side_capacity in omega arith)

side_index-apart_example :
    Before (side_index inner 12 1 5) (side_index outer 12 0 0)
    ⊎ Before (side_index outer 12 0 0) (side_index inner 12 1 5)
side_index-apart_example =
    side_index-apart inner outer 2 12 1 5 0 0 small-IsLayout (unfold side_capacity in omega arith)
      (unfold side_capacity in omega arith) (inl (λ e. cc e))

-- A session of algorithm B with two partitions, in which no row is placed yet.
abbrev parted : State
parted = record powered { session = record powered.session { partitions = 2; outer_slot_w = 12 } }

abbrev placed_row : InputTuple
placed_row = record { key = 7; tid = tid_of 2 2 }

place_row-row_at_example :
    (row_at outer (place_row outer placed_row parted) (partition_of 7 2) 0 ≡ placed_row)
    × ((s : Side) (q i : ℕ)
        → HasPlace s 2 12 q i
        → (outer ≢ s) ⊎ (partition_of 7 2 ≢ q) ⊎ (0 ≢ i)
        → row_at s (place_row outer placed_row parted) q i ≡ row_at s parted q i)
unfolding side_counts
place_row-row_at_example =
    place_row-row_at outer placed_row parted small-IsLayout (omega arith) (omega arith)
      (unfold side_capacity in omega arith)

-- A session of algorithm B that CONFIGURE has announced.
abbrev pub announced_session : State
announced_session = record powered {
  session = record powered.session {
    algorithm = algorithm_b;
    inner_total = 20_000;
    outer_total = 50_000;
  };
}

check_limits-IsInMemory_example :
    IsInMemory
      (check_limits announced_session).partitions
      (check_limits announced_session).outer_slot_w
check_limits-IsInMemory_example = check_limits-IsInMemory announced_session refl going
  where
    going : (check_limits announced_session).session_done ≡ false
    going = unfold check_limits partitions_for outer_slot_words layout_overflows in refl

receive_rows-Faults_iff_example :
    (Faults (receive_rows 3 0 (record powered { rx = sent (put_tuples key_int32 rows) [] }))
      ↔ (rx_buf_tuples < 3))
    × (3 ≤ rx_buf_tuples
        → receive_rows 3 0 (record powered { rx = sent (put_tuples key_int32 rows) [] })
          ≡ running (record powered { rx = []; rx_buf = write_all powered.rx_buf 0 rows }))
receive_rows-Faults_iff_example = receive_rows-Faults_iff rows powered [] (ground arith)

-- The rows of an outer frame have arrived.
abbrev sent_frame : State
sent_frame = record parted {
  session = record parted.session { keytype = key_int32 };
  rx = sent (put_tuples key_int32 rows) [];
}

sent_frame-IsWithin : IsWithin sent_frame
unfolding side_counts
sent_frame-IsWithin inner p lt = omega arith
sent_frame-IsWithin outer p lt = omega arith

sent_frame-HasPlaces : HasPlaces outer rows sent_frame
unfolding side_counts side_capacity partition_of
sent_frame-HasPlaces zero lt = omega arith
sent_frame-HasPlaces (suc zero) lt = omega arith
sent_frame-HasPlaces (suc (suc p)) lt = absurd (omega (arith, lt))

partition_rows-Partitions_example :
    Runs (partition_rows outer 3 sent_frame) (Partitions outer rows [] sent_frame)
partition_rows-Partitions_example =
    partition_rows-Partitions outer rows sent_frame [] refl small-IsLayout (omega arith)
      sent_frame-IsWithin (ground arith) sent_frame-HasPlaces
