-- ===== src/Timing.antt =====
-- `TimingSummaryPayload` of src/hash_join_types.hpp: the counters of a session.
use fpga_postgresql_hash_joi.Base.{ℕ}
use fpga_postgresql_hash_joi.Types.{
  timing_summary_version, timing_flag_estimated_cycles, timing_default_clock_hz,
}

pub record TimingSummary : Type 0 where
  pub version : ℕ
  pub flags : ℕ
  pub clock_hz : ℕ
  pub inner_rows : ℕ
  pub outer_rows : ℕ
  pub matched_rows : ℕ
  pub inner_frames : ℕ
  pub outer_frames : ℕ
  pub result_frames : ℕ
  pub ack_frames : ℕ
  pub debug_frames : ℕ
  pub bytes_rx : ℕ
  pub bytes_tx : ℕ
  pub session_total_cycles : ℕ
  pub config_cycles : ℕ
  pub build_rx_cycles : ℕ
  pub build_compute_cycles : ℕ
  pub build_total_cycles : ℕ
  pub probe_rx_cycles : ℕ
  pub probe_compute_cycles : ℕ
  pub result_emit_cycles : ℕ
  pub probe_total_cycles : ℕ
  pub ack_emit_cycles : ℕ
  pub rx_wait_cycles : ℕ
  pub tx_blocked_cycles : ℕ
  pub protocol_wait_cycles : ℕ
  pub max_build_batch_cycles : ℕ
  pub max_probe_batch_cycles : ℕ
  pub max_result_frame_cycles : ℕ
  pub hash_build_inserts : ℕ
  pub hash_probe_lookups : ℕ
  pub hash_probe_hits : ℕ
  pub hash_probe_misses : ℕ
  pub hash_overflow_errors : ℕ
  pub hash_build_collision_steps : ℕ
  pub hash_probe_collision_steps : ℕ
  pub hash_max_build_probe_distance : ℕ
  pub hash_max_probe_distance : ℕ
  pub hash_table_load_factor_ppm : ℕ

-- What a session starts with: all zero, but the version, the flags and the clock.
unfoldable pub fresh_timing : TimingSummary
fresh_timing = record {
  version = timing_summary_version;
  flags = timing_flag_estimated_cycles;
  clock_hz = timing_default_clock_hz;
  inner_rows = 0;
  outer_rows = 0;
  matched_rows = 0;
  inner_frames = 0;
  outer_frames = 0;
  result_frames = 0;
  ack_frames = 0;
  debug_frames = 0;
  bytes_rx = 0;
  bytes_tx = 0;
  session_total_cycles = 0;
  config_cycles = 0;
  build_rx_cycles = 0;
  build_compute_cycles = 0;
  build_total_cycles = 0;
  probe_rx_cycles = 0;
  probe_compute_cycles = 0;
  result_emit_cycles = 0;
  probe_total_cycles = 0;
  ack_emit_cycles = 0;
  rx_wait_cycles = 0;
  tx_blocked_cycles = 0;
  protocol_wait_cycles = 0;
  max_build_batch_cycles = 0;
  max_probe_batch_cycles = 0;
  max_result_frame_cycles = 0;
  hash_build_inserts = 0;
  hash_probe_lookups = 0;
  hash_probe_hits = 0;
  hash_probe_misses = 0;
  hash_overflow_errors = 0;
  hash_build_collision_steps = 0;
  hash_probe_collision_steps = 0;
  hash_max_build_probe_distance = 0;
  hash_max_probe_distance = 0;
  hash_table_load_factor_ppm = 0;
}
