-- ===== src/Join/Session.antt =====
-- A whole session of algorithm A.

use fpga_postgresql_hash_joi.Types.{
  ht_max_rows, rx_credit_tuples, algorithm_a, algorithm_b, error_byte, phase_byte, ResultPair, ack,
  status, no_error, building, done,
}
use fpga_postgresql_hash_joi.Base.{
  ℕ, ◌≤◌, ◌≡◌, refl, sym, ap, inl, inr, true, false, List, [], arith, ◌==◌, if◌then◌else◌, le→ltb,
  length,
}
use mathlib.Core.Path.{subst}
use fpga_postgresql_hash_joi.Wire.{Rx, tx_status_frame}
use fpga_postgresql_hash_joi.Kernel.State.{
  Inputs, State, emit_debug, start_session, Outcome, dbg_info, dbg_idle_enter, dbg_configure,
  running, send, dbg_probe_done,
}
use fpga_postgresql_hash_joi.Kernel.Configure.{begin_building, check_limits, apply_configure}
use fpga_postgresql_hash_joi.Kernel.Probe.{probe_phase}
use fpga_postgresql_hash_joi.Kernel.Run.{
  unless_done, run_grace, run_linear, finish_linear, finish_session, run_algorithm,
}
use fpga_postgresql_hash_joi.Host.Serializer.{JoinConfig}
use fpga_postgresql_hash_joi.RoundTrip.ToBoard.{configure_payload}
use fpga_postgresql_hash_joi.Join.Output.{
  Emits, Emits-frame, Emits-trans, Emits-debug, status_sent, timing_sent,
}
use fpga_postgresql_hash_joi.Join.Frames.{fixed}
use fpga_postgresql_hash_joi.Join.Probe.Phase.{probe_frames_end, at_probe}

abbrev pub linear_config : ℕ → JoinConfig
linear_config key_type = record { algorithm = algorithm_a; key_type = key_type }

-- The state in which the phases of a session start.
pub record Configured (k : State) (key_type inner outer id : ℕ) (rest : Rx) (k' : State)
    : Type 0 where
  pub fixed_lem : fixed k' ≡ record {
    algorithm = algorithm_a;
    keytype = key_type;
    inner_total = inner;
    outer_total = outer;
    session_id = id;
    session_done = false;
  }
  pub rx_lem : k'.rx ≡ rest
  pub ht_lem : k'.ht ≡ k.ht
  pub buffer_lem : k'.result_buf_cnt ≡ 0
  pub matched_lem : k'.matched ≡ 0
  pub emits : Emits k.tx [] k'.tx

pub apply_configure-Configured :
    (io : Inputs) (k : State) (key_type inner outer id : ℕ) (rest : Rx)
    → inner ≤ ht_max_rows
    → Configured k key_type inner outer id rest (
        apply_configure io
          (configure_payload (linear_config key_type) inner outer id)
          (record (start_session io k) { rx = rest }))
unfolding apply_configure start_session check_limits begin_building emit_debug
apply_configure-Configured io k key_type inner outer id rest few =
    rw (le→ltb ht_max_rows inner few, apply_configure)
      (record {
        fixed_lem = refl;
        rx_lem = refl;
        ht_lem = refl;
        buffer_lem = refl;
        matched_lem = refl;
        emits =
            Emits-trans
              (Emits-trans (Emits-debug io dbg_info dbg_idle_enter 0 k.tx)
                (Emits-debug io dbg_info dbg_configure inner _))
              (Emits-frame (status_sent ack building 0 0 rx_credit_tuples id) _ (inl refl));
      })

pub unless_done_going :
    (f : State → Outcome) (k : State) → k.session_done ≡ false → unless_done f k ≡ f k
unless_done_going f k going = ap (λ b. elim b [ true ↦ running k | false ↦ f k ]) going

pub unless_done_over :
    (f : State → Outcome) (k : State) → k.session_done ≡ true → unless_done f k ≡ running k
unless_done_over f k over = ap (λ b. elim b [ true ↦ running k | false ↦ f k ]) over

pub run_algorithm-linear :
    (io : Inputs) (k : State) → k.algorithm ≡ algorithm_a → run_algorithm io k ≡ run_linear io k
unfolding run_algorithm
run_algorithm-linear io k a =
    ap
      (λ a.
        if a == algorithm_b
        then run_grace k
        else if a == algorithm_a
        then run_linear io k
        else running k)
      a

-- The session has ended well, and its pairs are sent.
pub record Answers (k : State) (pairs : List ResultPair) (rest : Rx) (k' : State) : Type 0 where
  pub rx_lem : k'.rx ≡ rest
  pub status_lem : k'.status_reg ≡ phase_byte done
  pub count_lem : k'.result_count_reg ≡ length pairs
  pub error_lem : k'.error_code_reg ≡ error_byte no_error
  pub emits : Emits k.tx pairs k'.tx

abbrev finished : Inputs → State → State
finished io k = record (emit_debug io dbg_info dbg_probe_done k.matched k) {
  status_reg = phase_byte done;
  result_count_reg = k.matched;
  error_code_reg = error_byte no_error;
}

finish_session-linear :
    (io : Inputs) (k : State)
    → k.algorithm ≡ algorithm_a
    → finish_session io k
      ≡ send
          (tx_status_frame status done 0 k.matched 0 k.session_id)
          (finish_linear io (finished io k))
unfolding finish_session
finish_session-linear io k a =
    ap
      (λ a.
        send (tx_status_frame status done 0 k.matched 0 k.session_id)
          (if a == algorithm_a then finish_linear io (finished io k) else finished io k))
      a

-- A session without outer rows ends in `finish_session`.
pub finish_session-Answers :
    (io : Inputs) (k : State)
    → k.algorithm ≡ algorithm_a
    → k.matched ≡ 0
    → Answers k [] k.rx (finish_session io k)
unfolding finish_linear emit_debug send
finish_session-Answers io k a none_found =
    subst (Answers k [] k.rx) (sym (finish_session-linear io k a)) (record {
      rx_lem = refl;
      status_lem = refl;
      count_lem = none_found;
      error_lem = refl;
      emits =
          Emits-trans
            (Emits-trans (Emits-debug io dbg_info dbg_probe_done k.matched k.tx)
              (Emits-frame (timing_sent _) _ tt))
            (Emits-frame (status_sent status done 0 k.matched 0 k.session_id) _ (inr refl));
    })

-- The probe phase of a session without outer rows leaves the state as it is.
pub probe_phase-none :
    (io : Inputs) (k : State)
    → k.session_done ≡ false
    → k.outer_total ≡ 0
    → probe_phase io k ≡ running (at_probe k k.rx)
unfolding probe_phase
probe_phase-none io k going none_sent =
    probe_frames_end io 1_000_000 (at_probe k k.rx) going (omega arith)
