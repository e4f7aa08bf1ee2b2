-- ===== src/Tests/Board.antt =====
-- Frames from the host to the kernel.

use fpga_postgresql_hash_joi.Types.{key_int32, InputTuple}
use fpga_postgresql_hash_joi.Base.{◌-◌, ◌^◌, ◌≡◌, refl, inr, false, some, [], ◌∷◌, arith}
use fpga_postgresql_hash_joi.Wire.{rx_tuple}
use fpga_postgresql_hash_joi.Kernel.Configure.{apply_configure, configure_session}
use fpga_postgresql_hash_joi.Kernel.State.{Inputs, State, fresh_session, running}
use fpga_postgresql_hash_joi.Timing.{fresh_timing}
use fpga_postgresql_hash_joi.Host.Serializer.{JoinConfig, put_tuple, serialize_configure}
use fpga_postgresql_hash_joi.RoundTrip.Numbers.{sent}
use fpga_postgresql_hash_joi.RoundTrip.ToBoard.{
  rx_tuple-put_tuple, IsConfigure, configure_payload, configure_session-serialize_configure,
}

abbrev pub quiet : Inputs
quiet = record {
  debugging = false;
  rtl_timing_valid = 0;
  rtl_timing_clock_hz = 0;
  rtl_inner_frames = 0;
  rtl_outer_frames = 0;
  rtl_result_frames = 0;
  rtl_ack_frames = 0;
  rtl_debug_frames = 0;
  rtl_bytes_rx = 0;
  rtl_bytes_tx = 0;
  rtl_cycle_counter = 0;
  rtl_ts_config_first = 0;
  rtl_ts_config_ack = 0;
  rtl_ts_build_first = 0;
  rtl_ts_build_last = 0;
  rtl_ts_build_ack_last = 0;
  rtl_ts_probe_first = 0;
  rtl_ts_probe_last = 0;
  rtl_ts_probe_ack_last = 0;
  rtl_ts_result_first = 0;
  rtl_ts_result_last = 0;
}

abbrev no_tuple : InputTuple
no_tuple = record { key = 0; tid = record { blkno = 0; offno = 0 } }

-- The board as it starts up, with empty memories.
abbrev pub powered : State
powered = record {
  rx = [];
  tx = [];
  status_reg = 0;
  result_count_reg = 0;
  error_code_reg = 0;
  ht_capacity_reg = 0;
  rx_buf_cap_reg = 0;
  ht = record {
    ht_key = λ s. 0;
    ht_blk = λ s. 0;
    ht_off = λ s. 0;
    ht_valid = λ s. 0;
    row_count = 0;
  };
  grace = record { inner_counts = λ p. 0; outer_counts = λ p. 0 };
  ddr2 = λ a. 0;
  result_buf = λ i. record { inner_tid = no_tuple.tid; outer_tid = no_tuple.tid };
  rx_buf = λ i. no_tuple;
  session = fresh_session;
  timing = fresh_timing;
}

-- The key -2 of an int4 column.
abbrev narrow : InputTuple
narrow = record { key = 2 ^ 64 - 2; tid = record { blkno = 70_000; offno = 300 } }

rx_tuple-put_tuple_example :
    rx_tuple key_int32 (sent (put_tuple key_int32 narrow) (some 9 ∷ []))
    ≡ some (narrow, some 9 ∷ [])
rx_tuple-put_tuple_example =
    rx_tuple-put_tuple key_int32 narrow (some 9 ∷ []) (inr (refl, refl), omega arith)

abbrev config : JoinConfig
config = record { algorithm = 1; key_type = 2 }

config-IsConfigure : IsConfigure config 100_000 3 200
config-IsConfigure = omega arith

configure_session-serialize_configure_example :
    configure_session quiet
      (record powered { rx = sent (serialize_configure config 100_000 3 200) [] })
    ≡ running (
        apply_configure quiet (configure_payload config 100_000 3 200) (record powered { rx = [] }))
configure_session-serialize_configure_example =
    configure_session-serialize_configure quiet powered config 100_000 3 200 [] config-IsConfigure
