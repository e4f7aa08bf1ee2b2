-- ===== src/Kernel/Build.antt =====
-- src/hash_join_kernel.cpp: the build phase of algorithm A.
use fpga_postgresql_hash_joi.Base.{
  ℕ, zero, suc, ◌+◌, ◌*◌, true, false, not, ◌||◌, ltb, leb, ◌==◌, if◌then◌else◌, update,
}
use fpga_postgresql_hash_joi.Base.Words.{u32, add16, add32, add64, sub32}
use fpga_postgresql_hash_joi.Types.{
  ht_max_rows, rx_buf_tuples, ack_batch_frames, msg_byte, phase_byte, inner_data, ack, reset,
  no_error, bad_state, idle, building,
}
use fpga_postgresql_hash_joi.Wire.{rx_u16, rx_tuple, tx_status_frame}
use fpga_postgresql_hash_joi.Linear
use fpga_postgresql_hash_joi.Kernel.Cycles.{frame_cycles, count_build, count_ack}
use fpga_postgresql_hash_joi.Kernel.State.{
  Inputs, State, Outcome, ◌>>>◌, receive, send, end_session, dbg_info, dbg_build_done,
  dbg_build_key, emit_debug, receive_guarded, fail_session, credit_for, running, faulted,
}

-- `rx_inner_batch` and `rx_outer_batch`, with the tuples left and the index. The buffers hold
-- `RX_BUF_TUPLES` entries; the loop does not test that.
unfoldable pub receive_rows : ℕ → ℕ → State → Outcome
unfolding receive
receive_rows zero i k = running k
receive_rows (suc n) i k = receive (rx_tuple k.keytype) k λ t k₁.
    let more = receive_rows n (i + 1) (record k₁ { rx_buf = update k₁.rx_buf i t }) in
    if ltb i rx_buf_tuples then more else faulted k₁

unfoldable pub inner_reset : State → State
unfolding end_session send
inner_reset k = end_session (
    send (tx_status_frame ack idle 0 0 0 k.session_id)
      (record k { ht = Linear.reset k.ht; status_reg = phase_byte idle }))

-- One iteration of `inner_batch`.
unfoldable pub build_row : ℕ → State → State
unfolding fail_session count_build
build_row i k =
    let t = k.rx_buf i in
    let r = Linear.build k.ht t.key t.tid in
    let k' = record k {
      ht = r.table;
      timing = count_build r.steps k.timing;
      session = record k.session { batch_cycles = add64 k.batch_cycles (r.steps * 2) };
    } in
    elim r.err [
      | no_error ↦ record k' {
        timing = record k'.timing { hash_build_inserts = add32 k'.timing.hash_build_inserts 1 };
        session = record k'.session { inner_received = add32 k'.inner_received 1 };
      }
      | err ↦ fail_session err (record k' {
        timing = record k'.timing { hash_overflow_errors = add32 k'.timing.hash_overflow_errors 1 };
      })
    ]

unfoldable pub build_rows : ℕ → ℕ → State → State
unfolding build_row
build_rows zero i k = k
build_rows (suc n) i k =
    let more = build_rows n (i + 1) (build_row i k) in if k.session_done then k else more

unfoldable pub note_build_cycles : State → State
note_build_cycles k = record k {
  timing = record k.timing {
    max_build_batch_cycles =
        if ltb k.timing.max_build_batch_cycles k.batch_cycles
        then u32 k.batch_cycles
        else k.timing.max_build_batch_cycles;
  };
}

-- The acknowledgement of one data frame, or of two together.
unfoldable pub acknowledge_build : State → State
unfolding send note_build_cycles count_ack credit_for
acknowledge_build k =
    let pending = add16 k.ack_pending_frames 1 in
    let credit = credit_for (sub32 k.inner_total k.inner_received) in
    note_build_cycles (
      if leb ack_batch_frames pending || leb k.inner_total k.inner_received
      then send (tx_status_frame ack building k.inner_received 0 credit k.session_id) (record k {
        timing = count_ack k.timing;
        session = record k.session {
          batch_cycles = add64 k.batch_cycles 15;
          ack_pending_frames = 0;
        };
      })
      else record k { session = record k.session { ack_pending_frames = pending } })

unfoldable pub build_batch : Inputs → ℕ → State → State
unfolding build_rows acknowledge_build emit_debug
build_batch io count k =
    let k₁ =
      if not (count == 0)
      then emit_debug io dbg_info dbg_build_key (u32 (k.rx_buf 0).key) k
      else k in
    let k₂ = build_rows count 0 k₁ in if k₂.session_done then k₂ else acknowledge_build k₂

-- The counters of a frame that arrives in the build phase.
unfoldable pub count_inner_frame : ℕ → State → State
unfolding frame_cycles
count_inner_frame count k =
    let cycles = frame_cycles k.keytype count in
    record k {
      session = record k.session { batch_cycles = cycles };
      timing = record k.timing {
        inner_frames = add32 k.timing.inner_frames 1;
        bytes_rx = add32 k.timing.bytes_rx (u32 cycles);
        build_rx_cycles = add64 k.timing.build_rx_cycles cycles;
      };
    }

-- What follows the header of a frame.
unfoldable pub inner_frame : Inputs → ℕ → ℕ → State → Outcome
unfolding count_inner_frame inner_reset receive_rows build_batch fail_session
inner_frame io msg count k =
    let k₃ = count_inner_frame count k in
    if msg == msg_byte reset
    then running (inner_reset k₃)
    else if not (msg == msg_byte inner_data)
    then running (fail_session bad_state k₃)
    else (receive_rows count 0 k₃ >>> λ k₄. running (build_batch io count k₄))

unfoldable pub build_frame : Inputs → State → Outcome
unfolding receive receive_guarded inner_frame
build_frame io k =
    receive_guarded io k.session_id k
      λ msg k₁. receive rx_u16 k₁ λ count k₂. inner_frame io msg count k₂

-- `build_loop`, with the frames left.
unfoldable pub build_frames : Inputs → ℕ → State → Outcome
unfolding build_frame
build_frames io zero k = running k
build_frames io (suc n) k = elim (k.session_done || leb k.inner_total k.inner_received) [
  | true ↦ running k
  | false ↦ build_frame io k >>> build_frames io n
]

-- `ht.reset()` and the whole loop: `frame` runs from 0 to `HT_MAX_ROWS + 1`.
unfoldable pub build_phase : Inputs → State → Outcome
unfolding build_frames emit_debug
build_phase io k =
    build_frames io (ht_max_rows + 2) (record k {
      ht = Linear.reset k.ht;
      session = record k.session { inner_received = 0; ack_pending_frames = 0 };
    })
    >>> λ k'.
        running (
          if k'.session_done
          then k'
          else emit_debug io dbg_info dbg_build_done k'.inner_received k')
