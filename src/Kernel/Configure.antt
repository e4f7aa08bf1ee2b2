-- ===== src/Kernel/Configure.antt =====
-- src/hash_join_kernel.cpp: the CONFIGURE frame.
use fpga_postgresql_hash_joi.Base.{
  ℕ, ◌+◌, ◌-◌, ◌*◌, ◌/◌, Bool, not, ◌||◌, some, ltb, ◌==◌, if◌then◌else◌, ◌>>=◌,
}
use fpga_postgresql_hash_joi.Base.Words.{u32, u64, add32, add64}
use fpga_postgresql_hash_joi.Types.{
  ht_max_rows, rx_credit_tuples, grace_words_per_tuple, grace_outer_area_base,
  grace_ddr2_total_words, grace_max_inner_rows, algorithm_a, algorithm_b, msg_byte, phase_byte,
  ConfigurePayload, configure, ack, reset, overflow, invalid_cmd, idle, building,
}
use fpga_postgresql_hash_joi.Wire.{Reads, rx_byte, rx_u16, rx_u32, tx_status_frame}
use fpga_postgresql_hash_joi.Linear
use fpga_postgresql_hash_joi.Kernel.State.{
  Inputs, State, Outcome, receive, send, end_session, dbg_info, dbg_configure, dbg_reset,
  emit_debug, receive_guarded, fail_session, running,
}

unfoldable pub rx_configure : Reads ConfigurePayload
rx_configure rx = rx_byte rx >>= λ a. rx_byte a.1 >>= λ t. rx_u16 t.1 >>= λ h. rx_u32 h.1 >>= λ i.
    rx_u32 i.1 >>= λ o. rx_byte o.1 >>= λ s. some (
      record {
        algorithm = a.0;
        key_type = t.0;
        rx_buf_slots = h.0;
        inner_count = i.0;
        outer_count = o.0;
        session_id = s.0;
      },
      s.1,
    )

-- The number of partitions of algorithm B.
unfoldable pub partitions_for : ℕ → ℕ
partitions_for inner_total =
    let n = (inner_total + ht_max_rows - 1) / ht_max_rows in if n == 0 then 1 else n

-- The words of one partition's outer area, computed in 32 bits.
unfoldable pub outer_slot_words : ℕ → ℕ → ℕ
outer_slot_words outer_total partitions =
    u32 (add32 (outer_total / partitions) 1 * grace_words_per_tuple * 2)

-- The kernel's test of the DDR2 layout, in 64 bits.
unfoldable pub layout_overflows : ℕ → ℕ → Bool
layout_overflows partitions slot_words =
    ltb grace_ddr2_total_words (u64 (grace_outer_area_base + partitions * slot_words))

unfoldable pub begin_building : State → State
unfolding send
begin_building k = send (tx_status_frame ack building 0 0 rx_credit_tuples k.session_id) (record k {
  status_reg = phase_byte building;
  timing = record k.timing {
    ack_frames = add32 k.timing.ack_frames 1;
    bytes_tx = add32 k.timing.bytes_tx 15;
    ack_emit_cycles = add64 k.timing.ack_emit_cycles 15;
    config_cycles = add64 k.timing.config_cycles 15;
  };
})

-- The limits of the two algorithms; a session within them goes on to the build phase.
unfoldable pub check_limits : State → State
unfolding begin_building fail_session
check_limits k =
    if k.algorithm == algorithm_a
    then (if ltb ht_max_rows k.inner_total then fail_session overflow k else begin_building k)
    else if k.algorithm == algorithm_b
    then (if ltb grace_max_inner_rows k.inner_total
        then fail_session overflow k
        else (let n = partitions_for k.inner_total in
            let w = outer_slot_words k.outer_total n in
            let k' = record k { session = record k.session { partitions = n; outer_slot_w = w } } in
            if layout_overflows n w then fail_session overflow k' else begin_building k'))
    else fail_session invalid_cmd k

unfoldable pub apply_configure : Inputs → ConfigurePayload → State → State
unfolding check_limits emit_debug
apply_configure io p k = check_limits (
    emit_debug io dbg_info dbg_configure p.inner_count (record k {
      session = record k.session {
        algorithm = p.algorithm;
        keytype = p.key_type;
        inner_total = p.inner_count;
        outer_total = p.outer_count;
        session_id = p.session_id;
      };
      result_count_reg = p.outer_count;
      timing = record k.timing {
        inner_rows = p.inner_count;
        outer_rows = p.outer_count;
        bytes_rx = add32 k.timing.bytes_rx 16;
        config_cycles = add64 k.timing.config_cycles 16;
      };
    }))

unfoldable pub idle_reset : Inputs → State → State
unfolding end_session send emit_debug
idle_reset io k =
    let k' = emit_debug io dbg_info dbg_reset 0 k in
    end_session (
      send (tx_status_frame ack idle 0 0 rx_credit_tuples 0)
        (record k' { ht = Linear.reset k'.ht }))

unfoldable pub configure_session : Inputs → State → Outcome
unfolding receive receive_guarded idle_reset fail_session
configure_session io k = receive_guarded io 0 k λ msg k₁. receive rx_u16 k₁ λ count k₂.
    if msg == msg_byte reset
    then running (idle_reset io k₂)
    else if not (msg == msg_byte configure) || not (count == 1)
    then running (fail_session invalid_cmd k₂)
    else receive rx_configure k₂ λ p k₃. running (apply_configure io p k₃)
