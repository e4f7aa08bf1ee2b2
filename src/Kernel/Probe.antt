-- ===== src/Kernel/Probe.antt =====
-- src/hash_join_kernel.cpp: the probe phase of algorithm A.
use fpga_postgresql_hash_joi.Base.{
  ℕ, zero, suc, ◌+◌, ◌-◌, ◌*◌, ◌%◌, ◌^◌, Bool, true, false, not, ◌||◌, Option, none, some, ltb, leb,
  ◌==◌, if◌then◌else◌, update,
}
use fpga_postgresql_hash_joi.Base.Words.{u16, u32, add16, add32, add64, sub32}
use fpga_postgresql_hash_joi.Types.{
  result_flush_pairs, ack_batch_frames, msg_byte, timing_summary_bytes, error_byte, phase_byte, Tid,
  InputTuple, outer_data, ack, status, reset, no_error, invalid_cmd, idle, probing, done,
}
use fpga_postgresql_hash_joi.Timing.{TimingSummary}
use fpga_postgresql_hash_joi.Wire.{rx_u16, tx_status_frame, tx_results, tx_timing_summary}
use fpga_postgresql_hash_joi.Linear
use fpga_postgresql_hash_joi.Kernel.Cycles.{
  apply_rtl_stream_timing, total_timing, frame_cycles, count_probe, count_ack,
}
use fpga_postgresql_hash_joi.Kernel.Build.{receive_rows}
use fpga_postgresql_hash_joi.Kernel.State.{
  Inputs, State, Outcome, ◌>>>◌, receive, send, end_session, dbg_info, dbg_probe_key, dbg_probe_hit,
  emit_debug, receive_guarded, fail_session, credit_for, running,
}

unfoldable pub count_results : ℕ → TimingSummary → TimingSummary
count_results bytes t = record t {
  result_frames = add32 t.result_frames 1;
  bytes_tx = add32 t.bytes_tx bytes;
  result_emit_cycles = add64 t.result_emit_cycles bytes;
  max_result_frame_cycles =
      if ltb t.max_result_frame_cycles bytes then bytes else t.max_result_frame_cycles;
}

unfoldable pub flush_result_batch : State → State
unfolding send count_results
flush_result_batch k =
    let bytes = 3 + k.result_buf_cnt * 12 in
    if k.result_buf_cnt == 0
    then k
    else record (send (tx_results k.result_buf k.result_buf_cnt) k) {
      timing = count_results bytes k.timing;
      session = record k.session { batch_cycles = add64 k.batch_cycles bytes; result_buf_cnt = 0 };
    }

-- A hit goes to the result buffer, and a full batch is sent.
unfoldable pub add_result : Tid → Tid → State → State
unfolding flush_result_batch
add_result inner outer k =
    let k' = record k {
      result_buf =
          update k.result_buf k.result_buf_cnt (record { inner_tid = inner; outer_tid = outer });
      session = record k.session {
        result_buf_cnt = add16 k.result_buf_cnt 1;
        matched = add32 k.matched 1;
      };
      timing = record k.timing { hash_probe_hits = add32 k.timing.hash_probe_hits 1 };
    } in
    if leb result_flush_pairs k'.result_buf_cnt then flush_result_batch k' else k'

unfoldable pub note_probe_hit : Inputs → ℕ → ℕ → Bool → State → State
unfolding emit_debug
note_probe_hit io i key found k =
    if i == 0
    then emit_debug io dbg_info dbg_probe_hit ((if found then 0x80000000 else 0) + u32 key % 2 ^ 31)
        k
    else k

-- What follows a probe that found a row, and one that did not.
unfoldable pub probe_outcome : Inputs → ℕ → InputTuple → Option Tid → State → State
unfolding add_result note_probe_hit
probe_outcome io i t (some inner) k = add_result inner t.tid (note_probe_hit io i t.key true k)
probe_outcome io i t none k =
    let k' = note_probe_hit io i t.key false k in
    record k' {
      timing = record k'.timing { hash_probe_misses = add32 k'.timing.hash_probe_misses 1 };
    }

-- One iteration of `outer_batch`.
unfoldable pub probe_row : Inputs → ℕ → State → State
unfolding probe_outcome count_probe
probe_row io i k =
    let t = k.rx_buf i in
    let r = Linear.probe k.ht t.key in
    let k₁ = record k {
      timing = count_probe r.steps k.timing;
      session = record k.session { batch_cycles = add64 k.batch_cycles (r.steps * 2) };
    } in
    let k₂ = probe_outcome io i t r.found k₁ in
    record k₂ { session = record k₂.session { outer_received = add32 k₂.outer_received 1 } }

unfoldable pub probe_rows : Inputs → ℕ → ℕ → State → State
unfolding probe_row
probe_rows io zero i k = k
probe_rows io (suc n) i k =
    let more = probe_rows io n (i + 1) (probe_row io i k) in if k.session_done then k else more

unfoldable pub note_probe_cycles : State → State
note_probe_cycles k = record k {
  timing = record k.timing {
    max_probe_batch_cycles =
        if ltb k.timing.max_probe_batch_cycles k.batch_cycles
        then u32 k.batch_cycles
        else k.timing.max_probe_batch_cycles;
  };
}

abbrev pub final_bytes : ℕ
final_bytes = 15 + 3 + timing_summary_bytes

-- The last frame of the probe phase: registers, timing summary and the final STATUS.
unfoldable pub complete_probe : Inputs → State → State
unfolding end_session send note_probe_cycles
complete_probe io k =
    let k₁ = note_probe_cycles (record k {
      status_reg = phase_byte done;
      result_count_reg = k.matched;
      error_code_reg = error_byte no_error;
      timing = record k.timing {
        inner_rows = k.inner_received;
        outer_rows = k.outer_received;
        matched_rows = k.matched;
        ack_frames = add32 k.timing.ack_frames 1;
        bytes_tx = add32 k.timing.bytes_tx final_bytes;
        ack_emit_cycles = add64 k.timing.ack_emit_cycles 15;
      };
      session = record k.session { batch_cycles = add64 k.batch_cycles final_bytes };
    }) in
    let summary = apply_rtl_stream_timing io (total_timing k₁.timing) in
    end_session (
      send (tx_status_frame status done k.outer_received k.matched 0 k.session_id)
        (send (tx_timing_summary summary) (record k₁ { timing = summary })))

-- The acknowledgement of a frame that does not end the probe phase.
unfoldable pub acknowledge_probe : State → State
unfolding send note_probe_cycles count_ack credit_for
acknowledge_probe k =
    let pending = add16 k.ack_pending_frames 1 in
    let credit = credit_for (sub32 k.outer_total k.outer_received) in
    note_probe_cycles (
      if leb ack_batch_frames pending
      then send (tx_status_frame ack probing k.outer_received k.matched credit k.session_id)
          (record k {
            timing = count_ack k.timing;
            session = record k.session {
              batch_cycles = add64 k.batch_cycles 15;
              ack_pending_frames = 0;
            };
          })
      else record k { session = record k.session { ack_pending_frames = pending } })

-- How many of the frame's tuples are probed: those that CONFIGURE announced.
unfoldable pub process_count : ℕ → ℕ → ℕ → ℕ
process_count outer_total outer_received count =
    let remaining = if ltb outer_received outer_total then outer_total - outer_received else 0 in
    if ltb remaining count then u16 remaining else count

unfoldable pub probe_batch : Inputs → ℕ → State → State
unfolding emit_debug probe_rows flush_result_batch complete_probe acknowledge_probe process_count
probe_batch io count k =
    let k₁ =
      if not (count == 0)
      then emit_debug io dbg_info dbg_probe_key (u32 (k.rx_buf 0).key) k
      else k in
    let k₂ = probe_rows io (process_count k.outer_total k.outer_received count) 0 k₁ in
    if count == 0 || leb k₂.outer_total k₂.outer_received
    then complete_probe io (flush_result_batch k₂)
    else acknowledge_probe k₂

unfoldable pub count_outer_frame : ℕ → State → State
unfolding frame_cycles
count_outer_frame count k =
    let cycles = frame_cycles k.keytype count in
    record k {
      session = record k.session { batch_cycles = cycles };
      timing = record k.timing {
        outer_frames = add32 k.timing.outer_frames 1;
        bytes_rx = add32 k.timing.bytes_rx (u32 cycles);
        probe_rx_cycles = add64 k.timing.probe_rx_cycles cycles;
      };
    }

unfoldable pub outer_reset : State → State
unfolding end_session send flush_result_batch
outer_reset k =
    let k' = flush_result_batch k in
    end_session (
      send (tx_status_frame ack idle k'.outer_received k'.matched 0 k'.session_id)
        (record k' { ht = Linear.reset k'.ht; status_reg = phase_byte idle }))

-- What follows the header of a frame.
unfoldable pub outer_frame : Inputs → ℕ → ℕ → State → Outcome
unfolding count_outer_frame outer_reset receive_rows probe_batch fail_session
outer_frame io msg count k =
    let k₃ = count_outer_frame count k in
    if msg == msg_byte reset
    then running (outer_reset k₃)
    else if not (msg == msg_byte outer_data)
    then running (fail_session invalid_cmd k₃)
    else (receive_rows count 0 k₃ >>> λ k₄. running (probe_batch io count k₄))

unfoldable pub probe_frame : Inputs → State → Outcome
unfolding receive receive_guarded outer_frame
probe_frame io k =
    receive_guarded io k.session_id k
      λ msg k₁. receive rx_u16 k₁ λ count k₂. outer_frame io msg count k₂

-- `probe_loop`, with the frames left.
unfoldable pub probe_frames : Inputs → ℕ → State → Outcome
unfolding probe_frame
probe_frames io zero k = running k
probe_frames io (suc n) k = elim (k.session_done || leb k.outer_total k.outer_received) [
  | true ↦ running k
  | false ↦ probe_frame io k >>> probe_frames io n
]

unfoldable pub probe_phase : Inputs → State → Outcome
unfolding probe_frames
probe_phase io k = probe_frames io 1_000_000 (record k {
  status_reg = phase_byte probing;
  session = record k.session { outer_received = 0; ack_pending_frames = 0 };
})
