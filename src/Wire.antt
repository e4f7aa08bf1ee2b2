-- ===== src/Wire.antt =====
-- src/hash_join_kernel.hpp: reading and writing the AXI streams byte by byte.
-- The input stream is what the successive polls of its FIFO find, a byte or nothing; a blocking
-- read waits for the next byte, and blocks for good if none comes. A write helper gives the bytes
-- that it appends to the output stream. Where the source joins bytes by `|` their bits are apart,
-- so it is a sum here.
use fpga_postgresql_hash_joi.Base.{
  ℕ, zero, suc, ◌+◌, ◌-◌, ◌*◌, ◌/◌, ◌^◌, Bool, true, false, Option, none, some, List, [], ◌∷◌, ◌++◌,
  ◌==◌, if◌then◌else◌, ◌>>=◌,
}
use fpga_postgresql_hash_joi.Base.Words.{u8, u16, u32, sign_extend}
use fpga_postgresql_hash_joi.Types.{
  MsgType, msg_byte, timing_summary_count, FpgaError, error_byte, Phase, phase_byte, key_int64, Tid,
  InputTuple, ResultPair, result, error, debug, timing,
}
use fpga_postgresql_hash_joi.Timing.{TimingSummary}

abbrev pub Rx : Type 0
Rx = List (Option ℕ)

-- A read: `none` if it blocks for good.
abbrev pub Reads : Type 0 → Type 0
Reads A = Rx → Option (A × Rx)

pub record AxisByte : Type 0 where
  pub byte : ℕ
  pub last : Bool
  pub keep : ℕ

abbrev pub Tx : Type 0
Tx = List AxisByte

-- `s.read()`; the data of a transfer is 8 bits wide.
unfoldable pub rx_byte : Reads ℕ
rx_byte [] = none
rx_byte (none ∷ rx) = rx_byte rx
rx_byte (some b ∷ rx) = some (u8 b, rx)

unfoldable pub rx_u16 : Reads ℕ
rx_u16 rx = rx_byte rx >>= λ p₀. rx_byte p₀.1 >>= λ p₁. some (p₀.0 + u16 (p₁.0 * 2 ^ 8), p₁.1)

unfoldable pub rx_u32 : Reads ℕ
rx_u32 rx = rx_byte rx >>= λ p₀. rx_byte p₀.1 >>= λ p₁. rx_byte p₁.1 >>= λ p₂.
    rx_byte p₂.1 >>= λ p₃. some (p₀.0 + p₁.0 * 2 ^ 8 + p₂.0 * 2 ^ 16 + p₃.0 * 2 ^ 24, p₃.1)

unfoldable pub rx_i64 : Reads ℕ
rx_i64 rx = rx_byte rx >>= λ p₀. rx_byte p₀.1 >>= λ p₁. rx_byte p₁.1 >>= λ p₂.
    rx_byte p₂.1 >>= λ p₃. rx_byte p₃.1 >>= λ p₄. rx_byte p₄.1 >>= λ p₅. rx_byte p₅.1 >>= λ p₆.
    rx_byte p₆.1 >>= λ p₇. some (
      p₀.0
          + p₁.0 * 2 ^ 8
          + p₂.0 * 2 ^ 16
          + p₃.0 * 2 ^ 24
          + p₄.0 * 2 ^ 32
          + p₅.0 * 2 ^ 40
          + p₆.0 * 2 ^ 48
          + p₇.0 * 2 ^ 56,
      p₇.1,
    )

unfoldable pub rx_tid : Reads Tid
rx_tid rx = rx_u32 rx >>= λ b. rx_u16 b.1 >>= λ o. some (record { blkno = b.0; offno = o.0 }, o.1)

-- One tuple of a data frame, as each receive loop reads it.
unfoldable pub rx_tuple : ℕ → Reads InputTuple
rx_tuple keytype rx =
    if keytype == key_int64
    then (rx_i64 rx >>= λ k. rx_tid k.1 >>= λ t. some (record { key = k.0; tid = t.0 }, t.1))
    else (rx_u32 rx >>= λ k.
        rx_tid k.1 >>= λ t. some (record { key = sign_extend k.0; tid = t.0 }, t.1))

unfoldable pub rx_discard_tuple : ℕ → Reads (Unit {0})
rx_discard_tuple keytype rx =
    if keytype == key_int64
    then (rx_i64 rx >>= λ k. rx_tid k.1 >>= λ t. some (tt, t.1))
    else (rx_u32 rx >>= λ k. rx_tid k.1 >>= λ t. some (tt, t.1))

unfoldable pub tx_byte : ℕ → Bool → Tx
tx_byte v last = record { byte = u8 v; last = last; keep = 0xFF } ∷ []

unfoldable pub tx_u16 : ℕ → Bool → Tx
unfolding tx_byte
tx_u16 v last = tx_byte (u8 v) false ++ tx_byte (u8 (v / 2 ^ 8)) last

unfoldable pub tx_u32 : ℕ → Bool → Tx
unfolding tx_byte
tx_u32 v last =
    tx_byte (u8 v) false
    ++ (tx_byte (u8 (v / 2 ^ 8)) false
        ++ (tx_byte (u8 (v / 2 ^ 16)) false ++ tx_byte (u8 (v / 2 ^ 24)) last))

unfoldable pub tx_u64 : ℕ → Bool → Tx
unfolding tx_u32
tx_u64 v last = tx_u32 (u32 v) false ++ tx_u32 (u32 (v / 2 ^ 32)) last

unfoldable pub tx_header : MsgType → ℕ → Tx
unfolding tx_byte tx_u16
tx_header type count = tx_byte (msg_byte type) false ++ tx_u16 count false

unfoldable pub tx_status_frame : MsgType → Phase → ℕ → ℕ → ℕ → ℕ → Tx
unfolding tx_header tx_byte tx_u16 tx_u32
tx_status_frame type phase processed matched credit session_id =
    tx_header type 1
    ++ (tx_byte (phase_byte phase) false
        ++ (tx_byte session_id false
            ++ (tx_u16 credit false ++ (tx_u32 processed false ++ tx_u32 matched true))))

unfoldable pub tx_error : FpgaError → Tx
unfolding tx_header tx_byte
tx_error err = tx_header error 1 ++ tx_byte (error_byte err) true

unfoldable pub tx_pair : ResultPair → Bool → Tx
unfolding tx_u32 tx_u16
tx_pair pair last =
    tx_u32 pair.inner_tid.blkno false
    ++ (tx_u16 pair.inner_tid.offno false
        ++ (tx_u32 pair.outer_tid.blkno false ++ tx_u16 pair.outer_tid.offno last))

-- The loop of `tx_results`, with the pairs left and the index.
unfoldable pub tx_pairs : (ℕ → ResultPair) → ℕ → ℕ → ℕ → Tx
unfolding tx_pair
tx_pairs buf count zero i = []
tx_pairs buf count (suc n) i =
    tx_pair (buf i) (i == u16 (count + 2 ^ 16 - 1)) ++ tx_pairs buf count n (i + 1)

unfoldable pub tx_results : (ℕ → ResultPair) → ℕ → Tx
unfolding tx_header tx_pairs
tx_results buf count =
    if count == 0 then [] else tx_header result count ++ tx_pairs buf count count 0

unfoldable pub tx_timing_summary : TimingSummary → Tx
unfolding tx_header tx_u16 tx_u32 tx_u64
tx_timing_summary t =
    tx_header timing timing_summary_count
    ++ (tx_u16 t.version false
        ++ (tx_u16 t.flags false
            ++ (tx_u32 t.clock_hz false
                ++ (tx_u32 t.inner_rows false
                    ++ (tx_u32 t.outer_rows false
                        ++ (tx_u32 t.matched_rows false
                            ++ (tx_u32 t.inner_frames false
                                ++ (tx_u32 t.outer_frames false
                                    ++ (tx_u32 t.result_frames false
                                        ++ (tx_u32 t.ack_frames false
                                            ++ (tx_u32 t.debug_frames false
                                                ++ (tx_u32 t.bytes_rx false
                                                    ++ (tx_u32 t.bytes_tx false
                                                        ++ (tx_u64 t.session_total_cycles false
                                                            ++ (tx_u64 t.config_cycles false
                                                            ++ (tx_u64 t.build_rx_cycles false
                                                            ++ (tx_u64 t.build_compute_cycles false
                                                            ++ (tx_u64 t.build_total_cycles false
                                                            ++ (tx_u64 t.probe_rx_cycles false
                                                            ++ (tx_u64 t.probe_compute_cycles false
                                                            ++ (tx_u64 t.result_emit_cycles false
                                                            ++ (tx_u64 t.probe_total_cycles false
                                                            ++ (tx_u64 t.ack_emit_cycles false
                                                            ++ (tx_u64 t.rx_wait_cycles false
                                                            ++ (tx_u64 t.tx_blocked_cycles false
                                                            ++ (tx_u64 t.protocol_wait_cycles false
                                                            ++ (tx_u32 t.max_build_batch_cycles
                                                            false
                                                            ++ (tx_u32 t.max_probe_batch_cycles
                                                            false
                                                            ++ (tx_u32 t.max_result_frame_cycles
                                                            false
                                                            ++ (tx_u32 t.hash_build_inserts false
                                                            ++ (tx_u32 t.hash_probe_lookups false
                                                            ++ (tx_u32 t.hash_probe_hits false
                                                            ++ (tx_u32 t.hash_probe_misses false
                                                            ++ (tx_u32 t.hash_overflow_errors false
                                                            ++ (tx_u32 t.hash_build_collision_steps
                                                            false
                                                            ++ (tx_u32 t.hash_probe_collision_steps
                                                            false
                                                            ++ (tx_u16
                                                            t.hash_max_build_probe_distance false
                                                            ++ (tx_u16 t.hash_max_probe_distance
                                                            false
                                                            ++ (tx_u32 t.hash_table_load_factor_ppm
                                                            true)))))))))))))))))))))))))))))))))))))))

unfoldable pub tx_debug : ℕ → ℕ → ℕ → Tx
unfolding tx_header tx_byte tx_u16 tx_u32
tx_debug level code value =
    tx_header debug 1 ++ (tx_byte level false ++ (tx_u16 code false ++ tx_u32 value true))
