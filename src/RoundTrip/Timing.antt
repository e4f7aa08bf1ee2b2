-- ===== src/RoundTrip/Timing.antt =====
-- The timing summary, from the kernel to the host.
use fpga_postgresql_hash_joi.RoundTrip.Receive.{Gets, recv_exact-Gets}
use fpga_postgresql_hash_joi.Types.{timing_summary_bytes}
use fpga_postgresql_hash_joi.Base.{
  ℕ, ◌+◌, ◌*◌, ◌/◌, ◌^◌, ◌<◌, ◌≡◌, refl, true, false, List, ◌++◌, arith,
}
use fpga_postgresql_hash_joi.Base.Words.{u8, add32}
use fpga_postgresql_hash_joi.Timing.{TimingSummary}
use fpga_postgresql_hash_joi.Wire.{tx_u64, tx_u16, tx_u32, tx_timing_summary}
use fpga_postgresql_hash_joi.Host.Transport.{Transport, Delivers, ◌>>=◌}
use fpga_postgresql_hash_joi.Host.Decoder.{
  read_u64, read_timing, Decoder, require_count, recv_timing, recv_payload, recv_frame,
  timing_frame,
}
use fpga_postgresql_hash_joi.RoundTrip.FromBoard.{bytes, recv_frame-Gets}

-- The counters as their widths hold them.
pub record IsTiming (t : TimingSummary) : Type 0 where
  pub version : t.version < 2 ^ 16
  pub flags : t.flags < 2 ^ 16
  pub clock_hz : t.clock_hz < 2 ^ 32
  pub inner_rows : t.inner_rows < 2 ^ 32
  pub outer_rows : t.outer_rows < 2 ^ 32
  pub matched_rows : t.matched_rows < 2 ^ 32
  pub inner_frames : t.inner_frames < 2 ^ 32
  pub outer_frames : t.outer_frames < 2 ^ 32
  pub result_frames : t.result_frames < 2 ^ 32
  pub ack_frames : t.ack_frames < 2 ^ 32
  pub debug_frames : t.debug_frames < 2 ^ 32
  pub bytes_rx : t.bytes_rx < 2 ^ 32
  pub bytes_tx : t.bytes_tx < 2 ^ 32
  pub session_total_cycles : t.session_total_cycles < 2 ^ 64
  pub config_cycles : t.config_cycles < 2 ^ 64
  pub build_rx_cycles : t.build_rx_cycles < 2 ^ 64
  pub build_compute_cycles : t.build_compute_cycles < 2 ^ 64
  pub build_total_cycles : t.build_total_cycles < 2 ^ 64
  pub probe_rx_cycles : t.probe_rx_cycles < 2 ^ 64
  pub probe_compute_cycles : t.probe_compute_cycles < 2 ^ 64
  pub result_emit_cycles : t.result_emit_cycles < 2 ^ 64
  pub probe_total_cycles : t.probe_total_cycles < 2 ^ 64
  pub ack_emit_cycles : t.ack_emit_cycles < 2 ^ 64
  pub rx_wait_cycles : t.rx_wait_cycles < 2 ^ 64
  pub tx_blocked_cycles : t.tx_blocked_cycles < 2 ^ 64
  pub protocol_wait_cycles : t.protocol_wait_cycles < 2 ^ 64
  pub max_build_batch_cycles : t.max_build_batch_cycles < 2 ^ 32
  pub max_probe_batch_cycles : t.max_probe_batch_cycles < 2 ^ 32
  pub max_result_frame_cycles : t.max_result_frame_cycles < 2 ^ 32
  pub hash_build_inserts : t.hash_build_inserts < 2 ^ 32
  pub hash_probe_lookups : t.hash_probe_lookups < 2 ^ 32
  pub hash_probe_hits : t.hash_probe_hits < 2 ^ 32
  pub hash_probe_misses : t.hash_probe_misses < 2 ^ 32
  pub hash_overflow_errors : t.hash_overflow_errors < 2 ^ 32
  pub hash_build_collision_steps : t.hash_build_collision_steps < 2 ^ 32
  pub hash_probe_collision_steps : t.hash_probe_collision_steps < 2 ^ 32
  pub hash_max_build_probe_distance : t.hash_max_build_probe_distance < 2 ^ 16
  pub hash_max_probe_distance : t.hash_max_probe_distance < 2 ^ 16
  pub hash_table_load_factor_ppm : t.hash_table_load_factor_ppm < 2 ^ 32

abbrev join16 : ℕ → ℕ
join16 v = u8 (u8 v) + u8 (u8 (v / 2 ^ 8)) * 2 ^ 8

abbrev join32 : ℕ → ℕ
join32 v =
    u8 (u8 v)
    + u8 (u8 (v / 2 ^ 8)) * 2 ^ 8
    + u8 (u8 (v / 2 ^ 16)) * 2 ^ 16
    + u8 (u8 (v / 2 ^ 24)) * 2 ^ 24

join16-eq : (v : ℕ) → v < 2 ^ 16 → join16 v ≡ v
join16-eq v h = omega arith

join32-eq : (v : ℕ) → v < 2 ^ 32 → join32 v ≡ v
join32-eq v h = omega arith

-- The two halves of a 64-bit counter, byte by byte.
join64-eq : (v : ℕ) → v < 2 ^ 64 → read_u64 (bytes (tx_u64 v false)) 0 ≡ v
unfolding read_u64 tx_u64
join64-eq v h = omega arith

-- The payload of a TIMING frame.
abbrev timing_bytes : TimingSummary → List ℕ
timing_bytes t = bytes (
    tx_u16 t.version false
    ++ (tx_u16 t.flags false
        ++ (tx_u32 t.clock_hz false
            ++ (tx_u32 t.inner_rows false
                ++ (tx_u32 t.outer_rows false
                    ++ (tx_u32 t.matched_rows false
                        ++ (tx_u32 t.inner_frames false
                            ++ (tx_u32 t.outer_frames false
                                ++ (tx_u32 t.result_frames false
                                    ++ (tx_u32 t.ack_frames false
                                        ++ (tx_u32 t.debug_frames false
                                            ++ (tx_u32 t.bytes_rx false
                                                ++ (tx_u32 t.bytes_tx false
                                                    ++ (tx_u64 t.session_total_cycles false
                                                        ++ (tx_u64 t.config_cycles false
                                                            ++ (tx_u64 t.build_rx_cycles false
                                                            ++ (tx_u64 t.build_compute_cycles false
                                                            ++ (tx_u64 t.build_total_cycles false
                                                            ++ (tx_u64 t.probe_rx_cycles false
                                                            ++ (tx_u64 t.probe_compute_cycles false
                                                            ++ (tx_u64 t.result_emit_cycles false
                                                            ++ (tx_u64 t.probe_total_cycles false
                                                            ++ (tx_u64 t.ack_emit_cycles false
                                                            ++ (tx_u64 t.rx_wait_cycles false
                                                            ++ (tx_u64 t.tx_blocked_cycles false
                                                            ++ (tx_u64 t.protocol_wait_cycles false
                                                            ++ (tx_u32 t.max_build_batch_cycles
                                                            false
                                                            ++ (tx_u32 t.max_probe_batch_cycles
                                                            false
                                                            ++ (tx_u32 t.max_result_frame_cycles
                                                            false
                                                            ++ (tx_u32 t.hash_build_inserts false
                                                            ++ (tx_u32 t.hash_probe_lookups false
                                                            ++ (tx_u32 t.hash_probe_hits false
                                                            ++ (tx_u32 t.hash_probe_misses false
                                                            ++ (tx_u32 t.hash_overflow_errors false
                                                            ++ (tx_u32 t.hash_build_collision_steps
                                                            false
                                                            ++ (tx_u32 t.hash_probe_collision_steps
                                                            false
                                                            ++ (tx_u16
                                                            t.hash_max_build_probe_distance false
                                                            ++ (tx_u16 t.hash_max_probe_distance
                                                            false
                                                            ++ (tx_u32 t.hash_table_load_factor_ppm
                                                            true)))))))))))))))))))))))))))))))))))))))

read_timing-timing_bytes : (t : TimingSummary) → IsTiming t → read_timing (timing_bytes t) ≡ t
unfolding read_timing tx_u16 tx_u32 tx_u64
read_timing-timing_bytes t h = λ i. record {
  version = join16-eq t.version h.version i;
  flags = join16-eq t.flags h.flags i;
  clock_hz = join32-eq t.clock_hz h.clock_hz i;
  inner_rows = join32-eq t.inner_rows h.inner_rows i;
  outer_rows = join32-eq t.outer_rows h.outer_rows i;
  matched_rows = join32-eq t.matched_rows h.matched_rows i;
  inner_frames = join32-eq t.inner_frames h.inner_frames i;
  outer_frames = join32-eq t.outer_frames h.outer_frames i;
  result_frames = join32-eq t.result_frames h.result_frames i;
  ack_frames = join32-eq t.ack_frames h.ack_frames i;
  debug_frames = join32-eq t.debug_frames h.debug_frames i;
  bytes_rx = join32-eq t.bytes_rx h.bytes_rx i;
  bytes_tx = join32-eq t.bytes_tx h.bytes_tx i;
  session_total_cycles = join64-eq t.session_total_cycles h.session_total_cycles i;
  config_cycles = join64-eq t.config_cycles h.config_cycles i;
  build_rx_cycles = join64-eq t.build_rx_cycles h.build_rx_cycles i;
  build_compute_cycles = join64-eq t.build_compute_cycles h.build_compute_cycles i;
  build_total_cycles = join64-eq t.build_total_cycles h.build_total_cycles i;
  probe_rx_cycles = join64-eq t.probe_rx_cycles h.probe_rx_cycles i;
  probe_compute_cycles = join64-eq t.probe_compute_cycles h.probe_compute_cycles i;
  result_emit_cycles = join64-eq t.result_emit_cycles h.result_emit_cycles i;
  probe_total_cycles = join64-eq t.probe_total_cycles h.probe_total_cycles i;
  ack_emit_cycles = join64-eq t.ack_emit_cycles h.ack_emit_cycles i;
  rx_wait_cycles = join64-eq t.rx_wait_cycles h.rx_wait_cycles i;
  tx_blocked_cycles = join64-eq t.tx_blocked_cycles h.tx_blocked_cycles i;
  protocol_wait_cycles = join64-eq t.protocol_wait_cycles h.protocol_wait_cycles i;
  max_build_batch_cycles = join32-eq t.max_build_batch_cycles h.max_build_batch_cycles i;
  max_probe_batch_cycles = join32-eq t.max_probe_batch_cycles h.max_probe_batch_cycles i;
  max_result_frame_cycles = join32-eq t.max_result_frame_cycles h.max_result_frame_cycles i;
  hash_build_inserts = join32-eq t.hash_build_inserts h.hash_build_inserts i;
  hash_probe_lookups = join32-eq t.hash_probe_lookups h.hash_probe_lookups i;
  hash_probe_hits = join32-eq t.hash_probe_hits h.hash_probe_hits i;
  hash_probe_misses = join32-eq t.hash_probe_misses h.hash_probe_misses i;
  hash_overflow_errors = join32-eq t.hash_overflow_errors h.hash_overflow_errors i;
  hash_build_collision_steps =
      join32-eq t.hash_build_collision_steps h.hash_build_collision_steps i;
  hash_probe_collision_steps =
      join32-eq t.hash_probe_collision_steps h.hash_probe_collision_steps i;
  hash_max_build_probe_distance =
      join16-eq t.hash_max_build_probe_distance h.hash_max_build_probe_distance i;
  hash_max_probe_distance = join16-eq t.hash_max_probe_distance h.hash_max_probe_distance i;
  hash_table_load_factor_ppm =
      join32-eq t.hash_table_load_factor_ppm h.hash_table_load_factor_ppm i;
}

-- A TIMING frame is decoded to the very counters that the kernel sent, and counted.
pub recv_frame-timing :
    {T : Type 0} (tr : Transport T) (d : Delivers tr) (dec : Decoder) (t : T) (rest : List ℕ)
    (summary : TimingSummary)
    → IsTiming summary
    → d.pending t ≡ bytes (tx_timing_summary summary) ++ rest
    → Gets tr d
        (
          timing_frame,
          record { has_timing = true; timing_frames = add32 dec.timing_frames 1; timing = summary },
        )
        rest
        (recv_frame tr dec t)
unfolding tx_timing_summary recv_payload recv_timing require_count
recv_frame-timing tr d dec t rest summary h p =
    recv_frame-Gets tr d dec _ timing_frame t _ _ _ (timing_bytes summary ++ rest) rest p λ t' p'.
      let (t'', run, left) =
        recv_exact-Gets tr d timing_summary_bytes t' (timing_bytes summary) rest refl p' in
      (t'', rw (run, ◌>>=◌, read_timing-timing_bytes summary h), left)
