-- ===== src/Kernel/Cycles.antt =====
-- src/hash_join_kernel.cpp: the timing summary of a session.
use fpga_postgresql_hash_joi.Base.{ℕ, ◌+◌, ◌-◌, ◌*◌, ◌/◌, not, ◌&&◌, ltb, leb, ◌==◌, if◌then◌else◌}
use fpga_postgresql_hash_joi.Base.Words.{u16, u32, u64, add32, add64}
use fpga_postgresql_hash_joi.Types.{
  ht_slots, timing_summary_bytes, timing_flag_estimated_cycles, timing_flag_rtl_stream_cycles,
  timing_default_clock_hz, key_int64,
}
use fpga_postgresql_hash_joi.Timing.{TimingSummary}
use fpga_postgresql_hash_joi.Kernel.State.{Inputs}

unfoldable pub cycles_between : ℕ → ℕ → ℕ
cycles_between start finish = if not (start == 0) && leb start finish then finish - start else 0

-- The flags: the bit for estimated cycles is joined by `|=` to a word that has it clear.
unfoldable pub rtl_flags : Inputs → ℕ
rtl_flags io =
    if io.rtl_timing_valid == 0
    then timing_flag_rtl_stream_cycles + timing_flag_estimated_cycles
    else timing_flag_rtl_stream_cycles

unfoldable pub apply_rtl_stream_timing : Inputs → TimingSummary → TimingSummary
unfolding rtl_flags cycles_between
apply_rtl_stream_timing io t =
    let first = io.rtl_ts_config_first in
    let counter = io.rtl_cycle_counter in
    let probe_done =
      if not (io.rtl_ts_probe_ack_last == 0) then io.rtl_ts_probe_ack_last else counter in
    if not (not (first == 0) && leb first counter) then t else record t {
      flags = rtl_flags io;
      clock_hz =
          if not (io.rtl_timing_clock_hz == 0)
          then io.rtl_timing_clock_hz
          else timing_default_clock_hz;
      inner_frames = io.rtl_inner_frames;
      outer_frames = io.rtl_outer_frames;
      result_frames = io.rtl_result_frames;
      ack_frames = io.rtl_ack_frames;
      debug_frames = io.rtl_debug_frames;
      bytes_rx = io.rtl_bytes_rx;
      bytes_tx = io.rtl_bytes_tx;
      session_total_cycles = cycles_between first counter;
      config_cycles = cycles_between first io.rtl_ts_config_ack;
      build_rx_cycles = cycles_between io.rtl_ts_build_first io.rtl_ts_build_last;
      build_compute_cycles = cycles_between io.rtl_ts_build_last io.rtl_ts_build_ack_last;
      build_total_cycles = cycles_between io.rtl_ts_build_first io.rtl_ts_build_ack_last;
      probe_rx_cycles = cycles_between io.rtl_ts_probe_first io.rtl_ts_probe_last;
      probe_compute_cycles = cycles_between io.rtl_ts_probe_last io.rtl_ts_result_first;
      result_emit_cycles = cycles_between io.rtl_ts_result_first io.rtl_ts_result_last;
      probe_total_cycles = cycles_between io.rtl_ts_probe_first probe_done;
    }

-- The totals that end a session of algorithm A.
unfoldable pub total_timing : TimingSummary → TimingSummary
total_timing t =
    let build_total = add64 t.build_rx_cycles t.build_compute_cycles in
    let probe_total = u64 (t.probe_rx_cycles + t.probe_compute_cycles + t.result_emit_cycles) in
    record t {
      build_total_cycles = build_total;
      probe_total_cycles = probe_total;
      hash_table_load_factor_ppm = u32 (u64 (t.hash_build_inserts * 1_000_000) / ht_slots);
      session_total_cycles = u64 (
          t.config_cycles
          + build_total
          + probe_total
          + t.ack_emit_cycles
          + (3 + timing_summary_bytes));
    }

unfoldable pub tuple_bytes : ℕ → ℕ
tuple_bytes keytype = if keytype == key_int64 then 14 else 10

-- The cycles that a frame of `count` tuples takes to arrive.
unfoldable pub frame_cycles : ℕ → ℕ → ℕ
unfolding tuple_bytes
frame_cycles keytype count = 3 + count * tuple_bytes keytype

unfoldable pub count_build : ℕ → TimingSummary → TimingSummary
count_build steps t = record t {
  build_compute_cycles = add64 t.build_compute_cycles (steps * 2);
  hash_build_collision_steps =
      if ltb 0 steps
      then add32 t.hash_build_collision_steps (steps - 1)
      else t.hash_build_collision_steps;
  hash_max_build_probe_distance =
      if ltb t.hash_max_build_probe_distance steps
      then u16 steps
      else t.hash_max_build_probe_distance;
}

unfoldable pub count_probe : ℕ → TimingSummary → TimingSummary
count_probe steps t = record t {
  probe_compute_cycles = add64 t.probe_compute_cycles (steps * 2);
  hash_probe_lookups = add32 t.hash_probe_lookups 1;
  hash_probe_collision_steps =
      if ltb 0 steps
      then add32 t.hash_probe_collision_steps (steps - 1)
      else t.hash_probe_collision_steps;
  hash_max_probe_distance =
      if ltb t.hash_max_probe_distance steps then u16 steps else t.hash_max_probe_distance;
}

-- One acknowledgement frame of 15 bytes.
unfoldable pub count_ack : TimingSummary → TimingSummary
count_ack t = record t {
  ack_frames = add32 t.ack_frames 1;
  bytes_tx = add32 t.bytes_tx 15;
  ack_emit_cycles = add64 t.ack_emit_cycles 15;
}
