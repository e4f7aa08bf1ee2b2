-- ===== src/Kernel/Run.antt =====
-- src/hash_join_kernel.cpp: one iteration of the session loop, and the loop.
use fpga_postgresql_hash_joi.Base.{ℕ, zero, suc, true, false, ◌==◌, if◌then◌else◌}
use fpga_postgresql_hash_joi.Base.Words.{add32, add64}
use fpga_postgresql_hash_joi.Types.{
  ht_max_rows, rx_credit_tuples, algorithm_a, algorithm_b, error_byte, phase_byte, status, no_error,
  probing, done,
}
use fpga_postgresql_hash_joi.Wire.{tx_status_frame, tx_timing_summary}
use fpga_postgresql_hash_joi.Grace.{build_inner_partitions, build_outer_partitions}
use fpga_postgresql_hash_joi.Grace.Join.{join_all_partitions}
use fpga_postgresql_hash_joi.Kernel.State.{
  Inputs, State, Outcome, ◌>>>◌, send, dbg_info, dbg_probe_done, emit_debug, start_session, running,
}
use fpga_postgresql_hash_joi.Kernel.Configure.{configure_session}
use fpga_postgresql_hash_joi.Kernel.Cycles.{apply_rtl_stream_timing, total_timing}
use fpga_postgresql_hash_joi.Kernel.Build.{build_phase}
use fpga_postgresql_hash_joi.Kernel.Probe.{final_bytes, probe_phase}

-- What runs only while the session goes on.
abbrev pub unless_done : (State → Outcome) → State → Outcome
unless_done f k = elim k.session_done [ true ↦ running k | false ↦ f k ]

unfoldable pub run_grace : State → Outcome
unfolding build_inner_partitions build_outer_partitions join_all_partitions
run_grace k =
    build_inner_partitions k
    >>> unless_done (λ k₁. build_outer_partitions (record k₁ { status_reg = phase_byte probing }))
    >>> unless_done (λ k₂. running (join_all_partitions k₂))

unfoldable pub run_linear : Inputs → State → Outcome
unfolding build_phase probe_phase
run_linear io k = build_phase io k >>> unless_done (probe_phase io)

unfoldable pub finish_linear : Inputs → State → State
unfolding send
finish_linear io k =
    let summary = apply_rtl_stream_timing io (
      total_timing (record k.timing {
        matched_rows = k.matched;
        ack_frames = add32 k.timing.ack_frames 1;
        bytes_tx = add32 k.timing.bytes_tx final_bytes;
        ack_emit_cycles = add64 k.timing.ack_emit_cycles 15;
      })) in
    send (tx_timing_summary summary) (record k { timing = summary })

-- The end of a session that neither failed nor sent its final STATUS yet.
unfoldable pub finish_session : Inputs → State → State
unfolding send emit_debug finish_linear
finish_session io k =
    let k₁ = record (emit_debug io dbg_info dbg_probe_done k.matched k) {
      status_reg = phase_byte done;
      result_count_reg = k.matched;
      error_code_reg = error_byte no_error;
    } in
    let k₂ = if k.algorithm == algorithm_a then finish_linear io k₁ else k₁ in
    send (tx_status_frame status done 0 k.matched 0 k.session_id) k₂

unfoldable pub run_algorithm : Inputs → State → Outcome
unfolding run_grace run_linear
run_algorithm io k =
    if k.algorithm == algorithm_b
    then run_grace k
    else if k.algorithm == algorithm_a
    then run_linear io k
    else running k

-- One session, from IDLE to its end.
unfoldable pub run_session : Inputs → State → Outcome
unfolding start_session configure_session run_algorithm finish_session
run_session io k =
    configure_session io (start_session io k)
    >>> unless_done (run_algorithm io)
    >>> unless_done (λ k'. running (finish_session io k'))

-- `session_loop`, with the sessions left.
unfoldable pub sessions : Inputs → ℕ → State → Outcome
unfolding run_session
sessions io zero k = running k
sessions io (suc n) k = run_session io k >>> sessions io n

-- The capability registers, and `n` sessions one after the other. Simulated in C the kernel
-- returns after one session; the hardware runs on.
unfoldable pub hash_join_kernel : Inputs → ℕ → State → Outcome
unfolding sessions
hash_join_kernel io n k =
    sessions io n (record k { ht_capacity_reg = ht_max_rows; rx_buf_cap_reg = rx_credit_tuples })
