-- ===== src/Host/Metrics.antt =====
-- host/include/fpga_client.hpp and host/src/fpga_client.cpp: the counters of a session. The times,
-- sums of a clock's readings in floating point, are left out.
use fpga_postgresql_hash_joi.Base.{ℕ, ◌+◌, ◌*◌, Bool, false, List, [], length}
use fpga_postgresql_hash_joi.Base.Words.{add64}
use fpga_postgresql_hash_joi.Types.{
  MsgType, timing_summary_bytes, configure, inner_data, outer_data, reset,
}
use fpga_postgresql_hash_joi.Timing.{TimingSummary}
use fpga_postgresql_hash_joi.Host.Decoder.{
  Decoder, Frame, no_frame, result_frame, ack_frame, status_frame, error_frame, debug_frame,
  timing_frame, read_timing,
}

pub record HostSessionMetrics : Type 0 where
  pub protocol_frames_sent : ℕ
  pub protocol_frames_recv : ℕ
  pub transport_sends : ℕ
  pub bytes_sent : ℕ
  pub bytes_recv : ℕ
  pub config_frames_sent : ℕ
  pub inner_frames_sent : ℕ
  pub outer_frames_sent : ℕ
  pub reset_frames_sent : ℕ
  pub ack_frames_recv : ℕ
  pub status_frames_recv : ℕ
  pub result_frames_recv : ℕ
  pub debug_frames_recv : ℕ
  pub timing_frames_recv : ℕ
  pub error_frames_recv : ℕ
  pub result_pairs_recv : ℕ
  pub has_board_timing : Bool
  pub board_timing : TimingSummary

-- All fields are zero, those of the board's timing too: they are what an empty payload holds.
unfoldable pub fresh_metrics : HostSessionMetrics
unfolding read_timing
fresh_metrics = record {
  protocol_frames_sent = 0;
  protocol_frames_recv = 0;
  transport_sends = 0;
  bytes_sent = 0;
  bytes_recv = 0;
  config_frames_sent = 0;
  inner_frames_sent = 0;
  outer_frames_sent = 0;
  reset_frames_sent = 0;
  ack_frames_recv = 0;
  status_frames_recv = 0;
  result_frames_recv = 0;
  debug_frames_recv = 0;
  timing_frames_recv = 0;
  error_frames_recv = 0;
  result_pairs_recv = 0;
  has_board_timing = false;
  board_timing = read_timing [];
}

-- The `switch` of `send_counted`.
unfoldable pub count_frame_sent : MsgType → HostSessionMetrics → HostSessionMetrics
count_frame_sent configure m = record m { config_frames_sent = add64 m.config_frames_sent 1 }
count_frame_sent inner_data m = record m { inner_frames_sent = add64 m.inner_frames_sent 1 }
count_frame_sent outer_data m = record m { outer_frames_sent = add64 m.outer_frames_sent 1 }
count_frame_sent reset m = record m { reset_frames_sent = add64 m.reset_frames_sent 1 }
count_frame_sent _ m = m

-- What `send_counted` counts, once the bytes are sent.
unfoldable pub count_sent : List ℕ → MsgType → HostSessionMetrics → HostSessionMetrics
unfolding count_frame_sent
count_sent bytes primary_msg m = count_frame_sent primary_msg (record m {
  transport_sends = add64 m.transport_sends 1;
  protocol_frames_sent = add64 m.protocol_frames_sent 1;
  bytes_sent = add64 m.bytes_sent (length bytes);
})

-- `account_coalesced_inner_frame`: the frame goes out together with CONFIGURE.
unfoldable pub count_coalesced : HostSessionMetrics → HostSessionMetrics
count_coalesced m = record m {
  protocol_frames_sent = add64 m.protocol_frames_sent 1;
  inner_frames_sent = add64 m.inner_frames_sent 1;
}

unfoldable pub count_bytes : ℕ → HostSessionMetrics → HostSessionMetrics
count_bytes n m = record m {
  protocol_frames_recv = add64 m.protocol_frames_recv 1;
  bytes_recv = add64 m.bytes_recv n;
}

-- What `collect_until_ack` counts of a frame, with the decoder that has read it.
unfoldable pub count_received : Frame → Decoder → HostSessionMetrics → HostSessionMetrics
unfolding count_bytes
count_received no_frame d m = m
count_received (result_frame pairs) d m = record (count_bytes (3 + 12 * length pairs) m) {
  result_frames_recv = add64 m.result_frames_recv 1;
  result_pairs_recv = add64 m.result_pairs_recv (length pairs);
}
count_received (ack_frame s) d m = record (count_bytes 15 m) {
  ack_frames_recv = add64 m.ack_frames_recv 1;
}
count_received (status_frame s) d m = record (count_bytes 15 m) {
  status_frames_recv = add64 m.status_frames_recv 1;
}
count_received (error_frame e) d m = record (count_bytes 4 m) {
  error_frames_recv = add64 m.error_frames_recv 1;
}
count_received (debug_frame level code value) d m = record (count_bytes 10 m) {
  debug_frames_recv = add64 m.debug_frames_recv 1;
}
count_received timing_frame d m = record (count_bytes (3 + timing_summary_bytes) m) {
  timing_frames_recv = add64 m.timing_frames_recv 1;
  has_board_timing = d.has_timing;
  board_timing = d.timing;
}
