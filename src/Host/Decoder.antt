-- ===== src/Host/Decoder.antt =====
-- host/src/result_decoder.cpp: frames from the board.
use fpga_postgresql_hash_joi.Base.{
  ℕ, zero, suc, ◌+◌, ◌*◌, ◌^◌, Bool, true, List, [], ◌∷◌, ltb, ◌==◌, if◌then◌else◌,
}
use fpga_postgresql_hash_joi.Base.Words.{add32}
use fpga_postgresql_hash_joi.Types.{
  tx_buf_size, MsgType, msg_byte, timing_summary_bytes, Tid, ResultPair, StatusPayload, result, ack,
  status, error, debug,
}
use fpga_postgresql_hash_joi.Timing.{TimingSummary}
use fpga_postgresql_hash_joi.Host.Transport.{
  Act, ◌>>◌, pure, raise, Transport, recv_exact, bad_count, oversized_result, unknown_msg_type,
  ◌>>=◌,
}

-- `p[i]`, of a buffer that holds it.
unfoldable pub byte_at : List ℕ → ℕ → ℕ
byte_at [] i = 0
byte_at (b ∷ bs) zero = b
byte_at (b ∷ bs) (suc i) = byte_at bs i

-- The reads at `p`, the offset of a buffer.
unfoldable pub read_u16 : List ℕ → ℕ → ℕ
unfolding byte_at
read_u16 buf p = byte_at buf p + byte_at buf (p + 1) * 2 ^ 8

unfoldable pub read_u32 : List ℕ → ℕ → ℕ
unfolding byte_at
read_u32 buf p =
    byte_at buf p
    + byte_at buf (p + 1) * 2 ^ 8
    + byte_at buf (p + 2) * 2 ^ 16
    + byte_at buf (p + 3) * 2 ^ 24

-- The loop of `read_u64`, with the bytes left.
unfoldable pub read_bytes : List ℕ → ℕ → ℕ → ℕ → ℕ
unfolding byte_at
read_bytes buf p zero i = 0
read_bytes buf p (suc n) i = byte_at buf (p + i) * 2 ^ (8 * i) + read_bytes buf p n (i + 1)

unfoldable pub read_u64 : List ℕ → ℕ → ℕ
unfolding read_bytes
read_u64 buf p = read_bytes buf p 8 0

unfoldable pub read_tid : List ℕ → ℕ → Tid
unfolding read_u32 read_u16
read_tid buf p = record { blkno = read_u32 buf p; offno = read_u16 buf (p + 4) }

-- What `recv_frame` returns, with the out-parameter that it fills.
pub data Frame : Type 0 where
  no_frame : Frame
  result_frame : List ResultPair → Frame
  ack_frame : StatusPayload → Frame
  status_frame : StatusPayload → Frame
  error_frame : ℕ → Frame
  debug_frame : ℕ → ℕ → ℕ → Frame
  timing_frame : Frame

pub record Decoder : Type 0 where
  pub has_timing : Bool
  pub timing_frames : ℕ
  pub timing : TimingSummary

-- The pairs of a RESULT payload, with those left and the index.
unfoldable pub read_pairs : List ℕ → ℕ → ℕ → List ResultPair
unfolding read_tid
read_pairs buf zero i = []
read_pairs buf (suc n) i =
    record { inner_tid = read_tid buf (i * 12); outer_tid = read_tid buf (i * 12 + 6) }
    ∷ read_pairs buf n (i + 1)

unfoldable pub read_status : List ℕ → StatusPayload
unfolding byte_at read_u16 read_u32
read_status buf = record {
  phase = byte_at buf 0;
  session_id = byte_at buf 1;
  credit = read_u16 buf 2;
  rows_processed = read_u32 buf 4;
  rows_matched = read_u32 buf 8;
}

unfoldable pub read_timing : List ℕ → TimingSummary
unfolding read_u16 read_u32 read_u64
read_timing buf = record {
  version = read_u16 buf 0;
  flags = read_u16 buf 2;
  clock_hz = read_u32 buf 4;
  inner_rows = read_u32 buf 8;
  outer_rows = read_u32 buf 12;
  matched_rows = read_u32 buf 16;
  inner_frames = read_u32 buf 20;
  outer_frames = read_u32 buf 24;
  result_frames = read_u32 buf 28;
  ack_frames = read_u32 buf 32;
  debug_frames = read_u32 buf 36;
  bytes_rx = read_u32 buf 40;
  bytes_tx = read_u32 buf 44;
  session_total_cycles = read_u64 buf 48;
  config_cycles = read_u64 buf 56;
  build_rx_cycles = read_u64 buf 64;
  build_compute_cycles = read_u64 buf 72;
  build_total_cycles = read_u64 buf 80;
  probe_rx_cycles = read_u64 buf 88;
  probe_compute_cycles = read_u64 buf 96;
  result_emit_cycles = read_u64 buf 104;
  probe_total_cycles = read_u64 buf 112;
  ack_emit_cycles = read_u64 buf 120;
  rx_wait_cycles = read_u64 buf 128;
  tx_blocked_cycles = read_u64 buf 136;
  protocol_wait_cycles = read_u64 buf 144;
  max_build_batch_cycles = read_u32 buf 152;
  max_probe_batch_cycles = read_u32 buf 156;
  max_result_frame_cycles = read_u32 buf 160;
  hash_build_inserts = read_u32 buf 164;
  hash_probe_lookups = read_u32 buf 168;
  hash_probe_hits = read_u32 buf 172;
  hash_probe_misses = read_u32 buf 176;
  hash_overflow_errors = read_u32 buf 180;
  hash_build_collision_steps = read_u32 buf 184;
  hash_probe_collision_steps = read_u32 buf 188;
  hash_max_build_probe_distance = read_u16 buf 192;
  hash_max_probe_distance = read_u16 buf 194;
  hash_table_load_factor_ppm = read_u32 buf 196;
}

module _ {T : Type 0} (tr : Transport T) where
  unfoldable pub require_count : MsgType → ℕ → Act T (Unit {0})
  require_count msg got = if got == 1 then pure tt else raise (bad_count msg got)

  unfoldable pub recv_results : ℕ → Act T Frame
  recv_results count =
      if ltb tx_buf_size count
      then raise (oversized_result count)
      else (recv_exact tr (count * 12) >>= λ buf. pure (result_frame (read_pairs buf count 0)))

  unfoldable pub recv_status : MsgType → (StatusPayload → Frame) → ℕ → Act T Frame
  unfolding require_count
  recv_status msg frame count =
      require_count msg count >> (recv_exact tr 12 >>= λ buf. pure (frame (read_status buf)))

  unfoldable pub recv_error : ℕ → Act T Frame
  unfolding require_count
  recv_error count =
      require_count error count >> (recv_exact tr 1 >>= λ buf. pure (error_frame (byte_at buf 0)))

  unfoldable pub recv_debug : ℕ → Act T Frame
  unfolding require_count
  recv_debug count =
      require_count debug count
      >> (recv_exact tr 7 >>= λ buf.
          pure (debug_frame (byte_at buf 0) (read_u16 buf 1) (read_u32 buf 3)))

  unfoldable pub recv_timing : Decoder → ℕ → Act T (Frame × Decoder)
  unfolding require_count
  recv_timing dec count =
      require_count MsgType.timing count
      >> (recv_exact tr timing_summary_bytes >>= λ buf. pure (
        timing_frame,
        record {
          has_timing = true;
          timing_frames = add32 dec.timing_frames 1;
          timing = read_timing buf;
        },
      ))

  unfoldable pub keep_decoder : Decoder → Act T Frame → Act T (Frame × Decoder)
  keep_decoder dec m = m >>= λ f. pure (f, dec)

  -- The `switch` over the message type.
  unfoldable pub recv_payload : Decoder → ℕ → ℕ → Act T (Frame × Decoder)
  recv_payload dec msg count =
      if msg == msg_byte result
      then keep_decoder dec (recv_results count)
      else if msg == msg_byte ack
      then keep_decoder dec (recv_status ack ack_frame count)
      else if msg == msg_byte status
      then keep_decoder dec (recv_status status status_frame count)
      else if msg == msg_byte error
      then keep_decoder dec (recv_error count)
      else if msg == msg_byte debug
      then keep_decoder dec (recv_debug count)
      else if msg == msg_byte MsgType.timing
      then recv_timing dec count
      else raise (unknown_msg_type msg)

  unfoldable pub recv_frame : Decoder → Act T (Frame × Decoder)
  recv_frame dec = tr.recv 1 >>= elim [
    | [] ↦ pure (no_frame, dec)
    | msg ∷ _ ↦ (recv_exact tr 2 >>= λ c. recv_payload dec msg (read_u16 c 0))
  ]
