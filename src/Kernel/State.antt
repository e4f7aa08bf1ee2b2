-- ===== src/Kernel/State.antt =====
-- src/hash_join_kernel.cpp and src/hash_join_kernel.hpp: the state of the kernel, its inputs and
-- the reads and writes of one session.
use fpga_postgresql_hash_joi.Base.{
  ℕ, ◌+◌, ◌≡◌, Bool, true, false, Option, none, some, [], ◌∷◌, ◌++◌, ltb, leb, if◌then◌else◌,
}
use fpga_postgresql_hash_joi.Base.Words.{u8, u16}
use fpga_postgresql_hash_joi.Types.{
  rx_credit_tuples, algorithm_a, FpgaError, error_byte, phase_byte, key_int32, InputTuple,
  ResultPair, ack, no_error, idle,
}
use fpga_postgresql_hash_joi.Timing.{TimingSummary, fresh_timing}
use fpga_postgresql_hash_joi.Wire.{Rx, Reads, Tx, tx_status_frame, tx_error, tx_debug}
use fpga_postgresql_hash_joi.Linear.{LinearHashTable}

-- The passive inputs from the stream monitor, and whether MSG_DEBUG frames are compiled in.
pub record Inputs : Type 0 where
  pub debugging : Bool
  pub rtl_timing_valid : ℕ
  pub rtl_timing_clock_hz : ℕ
  pub rtl_inner_frames : ℕ
  pub rtl_outer_frames : ℕ
  pub rtl_result_frames : ℕ
  pub rtl_ack_frames : ℕ
  pub rtl_debug_frames : ℕ
  pub rtl_bytes_rx : ℕ
  pub rtl_bytes_tx : ℕ
  pub rtl_cycle_counter : ℕ
  pub rtl_ts_config_first : ℕ
  pub rtl_ts_config_ack : ℕ
  pub rtl_ts_build_first : ℕ
  pub rtl_ts_build_last : ℕ
  pub rtl_ts_build_ack_last : ℕ
  pub rtl_ts_probe_first : ℕ
  pub rtl_ts_probe_last : ℕ
  pub rtl_ts_probe_ack_last : ℕ
  pub rtl_ts_result_first : ℕ
  pub rtl_ts_result_last : ℕ

-- The variables of one iteration of the session loop. The last four are local to the build and
-- probe phases: rows received, frames not yet acknowledged, and the cycles of the current frame.
pub record Session : Type 0 where
  pub algorithm : ℕ
  pub keytype : ℕ
  pub inner_total : ℕ
  pub outer_total : ℕ
  pub matched : ℕ
  pub partitions : ℕ
  pub outer_slot_w : ℕ
  pub result_buf_cnt : ℕ
  pub session_id : ℕ
  pub session_done : Bool
  pub inner_received : ℕ
  pub outer_received : ℕ
  pub ack_pending_frames : ℕ
  pub batch_cycles : ℕ

-- The counters of `GraceHashEngine`.
pub record GraceCounts : Type 0 where
  pub inner_counts : ℕ → ℕ
  pub outer_counts : ℕ → ℕ

pub record State : Type 0 where
  pub rx : Rx
  pub tx : Tx
  pub status_reg : ℕ
  pub result_count_reg : ℕ
  pub error_code_reg : ℕ
  pub ht_capacity_reg : ℕ
  pub rx_buf_cap_reg : ℕ
  pub ht : LinearHashTable
  pub grace : GraceCounts
  pub ddr2 : ℕ → ℕ
  pub result_buf : ℕ → ResultPair
  pub rx_buf : ℕ → InputTuple
  pub session : Session
  pub open session use *
  pub timing : TimingSummary

-- The kernel goes on, waits for a byte that never comes, or has written past a buffer's end.
pub data Outcome : Type 0 where
  running : State → Outcome
  blocked : State → Outcome
  faulted : State → Outcome

infixl 5 ◌>>>◌
abbrev pub ◌>>>◌ : Outcome → (State → Outcome) → Outcome
running k >>> f = f k
blocked k >>> f = blocked k
faulted k >>> f = faulted k

-- A blocking read, and what follows it.
unfoldable pub receive : {A : Type 0} → Reads A → State → (A → State → Outcome) → Outcome
receive read k next = elim (read k.rx) [
  | none ↦ blocked k
  | some (a, rx) ↦ next a (record k { rx = rx })
]

pub receive-some :
    {A : Type 0} (read : Reads A) (k : State) (a : A) (rest : Rx) (next : A → State → Outcome)
    → read k.rx ≡ some (a, rest)
    → receive read k next ≡ next a (record k { rx = rest })
unfolding receive
receive-some read k a rest next e = rw (e, receive)

unfoldable pub send : Tx → State → State
send bytes k = record k { tx = k.tx ++ bytes }

unfoldable pub end_session : State → State
end_session k = record k { session = record k.session { session_done = true } }

abbrev pub dbg_info : ℕ
dbg_info = 1

abbrev pub dbg_warn : ℕ
dbg_warn = 2

abbrev pub dbg_idle_enter : ℕ
dbg_idle_enter = 0x0001

abbrev pub dbg_configure : ℕ
dbg_configure = 0x0002

abbrev pub dbg_build_done : ℕ
dbg_build_done = 0x0004

abbrev pub dbg_probe_done : ℕ
dbg_probe_done = 0x0006

abbrev pub dbg_reset : ℕ
dbg_reset = 0x0007

abbrev pub dbg_build_key : ℕ
dbg_build_key = 0x0008

abbrev pub dbg_probe_key : ℕ
dbg_probe_key = 0x0009

abbrev pub dbg_probe_hit : ℕ
dbg_probe_hit = 0x000A

unfoldable pub emit_debug : Inputs → ℕ → ℕ → ℕ → State → State
unfolding send
emit_debug io level code value k = send (if io.debugging then tx_debug level code value else []) k

abbrev pub rx_watchdog_cycles : ℕ
rx_watchdog_cycles = 350_000_000

-- The polls of `rx_byte_guarded`, with its counter; where the input ends the host stays silent,
-- and the counter reaches its limit.
unfoldable pub guard_loop : ℕ → Rx → Option ℕ × Rx
guard_loop ctr [] = (none, [])
guard_loop ctr (some b ∷ rx) = (some (u8 b), rx)
guard_loop ctr (none ∷ rx) =
    let rest = guard_loop (ctr + 1) rx in
    if leb rx_watchdog_cycles (ctr + 1) then (none, rx) else rest

unfoldable pub watchdog_timeout : Inputs → ℕ → State → State
unfolding end_session send emit_debug
watchdog_timeout io id k = end_session (
    send (tx_status_frame ack idle 0 0 rx_credit_tuples id)
      (emit_debug io dbg_warn dbg_reset rx_watchdog_cycles k))

-- `rx_byte_guarded`, and what follows it if the session goes on.
unfoldable pub receive_guarded : Inputs → ℕ → State → (ℕ → State → Outcome) → Outcome
unfolding watchdog_timeout
receive_guarded io id k next =
    let poll = guard_loop 0 k.rx in
    elim poll.0 [
      | none ↦ running (watchdog_timeout io id (record k { rx = poll.1 }))
      | some b ↦ next b (record k { rx = poll.1 })
    ]

-- An error frame, the error register, and the end of the session.
unfoldable pub fail_session : FpgaError → State → State
unfolding end_session send
fail_session err k =
    end_session (record (send (tx_error err) k) { error_code_reg = error_byte err })

-- The credit of an acknowledgement: the rows that remain, up to the advertised credit.
unfoldable pub credit_for : ℕ → ℕ
credit_for remaining = if ltb remaining rx_credit_tuples then u16 remaining else rx_credit_tuples

abbrev pub fresh_session : Session
fresh_session = record {
  algorithm = algorithm_a;
  keytype = key_int32;
  inner_total = 0;
  outer_total = 0;
  matched = 0;
  partitions = 1;
  outer_slot_w = 0;
  result_buf_cnt = 0;
  session_id = 0;
  session_done = false;
  inner_received = 0;
  outer_received = 0;
  ack_pending_frames = 0;
  batch_cycles = 0;
}

-- The head of the session loop.
unfoldable pub start_session : Inputs → State → State
unfolding emit_debug send fresh_timing
start_session io k = emit_debug io dbg_info dbg_idle_enter 0 (record k {
  session = fresh_session;
  timing = fresh_timing;
  status_reg = phase_byte idle;
  error_code_reg = error_byte no_error;
  result_count_reg = 0;
})
