-- ===== src/Kernel/Watchdog.antt =====
-- src/hash_join_kernel.hpp: the guarded read, which gives a silent host up.

use fpga_postgresql_hash_joi.Types.{rx_credit_tuples, ack, idle}
use fpga_postgresql_hash_joi.Base.Words.{u8}
use fpga_postgresql_hash_joi.Base.{
  ℕ, zero, suc, ◌+◌, ◌-◌, ◌≤◌, ◌<◌, ◌≡◌, refl, ap, ◌∙◌, inl, inr, true, Option, none, some, [], ◌∷◌,
  ◌++◌, arith, ltb, leb, if◌then◌else◌, lt→leb, Bool-cases,
}
use fpga_postgresql_hash_joi.Wire.{Rx, tx_status_frame, tx_debug}
use fpga_postgresql_hash_joi.Kernel.State.{
  Inputs, State, Outcome, send, end_session, dbg_warn, dbg_reset, emit_debug, rx_watchdog_cycles,
  guard_loop, watchdog_timeout, receive_guarded, running,
}

-- Polls that find nothing, before the others.
abbrev pub silence : ℕ → Rx → Rx
silence zero rx = rx
silence (suc n) rx = none ∷ silence n rx

guard_loop-byte :
    (n ctr b : ℕ) (rx : Rx)
    → ctr + n < rx_watchdog_cycles
    → guard_loop ctr (silence n (some b ∷ rx)) ≡ (some (u8 b), rx)
unfolding guard_loop
guard_loop-byte zero ctr b rx soon = refl
guard_loop-byte (suc n) ctr b rx soon =
    rw (lt→leb rx_watchdog_cycles (ctr + 1) (omega arith))
      (guard_loop-byte n (ctr + 1) b rx (omega arith))

guard_loop-none :
    (n ctr : ℕ) (rx : Rx)
    → ctr < rx_watchdog_cycles
    → rx_watchdog_cycles ≤ ctr + n
    → guard_loop ctr (silence n rx) ≡ (none, silence (ctr + n - rx_watchdog_cycles) rx)
unfolding guard_loop
guard_loop-none zero ctr rx lt late = absurd (omega arith)
guard_loop-none (suc n) ctr rx lt late = elim (Bool-cases (leb rx_watchdog_cycles (ctr + 1))) [
  | inl over ↦
      let left : ctr + suc n - rx_watchdog_cycles ≡ n = ground (arith, over) in rw (over, left) refl
  | inr more ↦
      let left : ctr + suc n - rx_watchdog_cycles ≡ ctr + 1 + n - rx_watchdog_cycles =
        omega arith in
      rw (more, left) (guard_loop-none n (ctr + 1) rx (ground (arith, more)) (omega arith))
]

polled :
    (io : Inputs) (id : ℕ) (k : State) (next : ℕ → State → Outcome) {poll : Option ℕ × Rx}
    → guard_loop 0 k.rx ≡ poll
    → receive_guarded io id k next ≡ elim poll.0 [
      | none ↦ running (watchdog_timeout io id (record k { rx = poll.1 }))
      | some b ↦ next b (record k { rx = poll.1 })
    ]
unfolding receive_guarded
polled io id k next e =
    ap
      (λ poll. elim poll.0 [
        | none ↦ running (watchdog_timeout io id (record k { rx = poll.1 }))
        | some b ↦ next b (record k { rx = poll.1 })
      ])
      e

-- What is left of a session that the watchdog ends: a DEBUG frame, if debugging is on, tells of the
-- reset, and an acknowledgement with IDLE grants the full credit.
abbrev pub given_up : Inputs → ℕ → Rx → State → State
given_up io id rx k = record k {
  rx = rx;
  tx =
      (k.tx ++ (if io.debugging then tx_debug dbg_warn dbg_reset rx_watchdog_cycles else []))
      ++ tx_status_frame ack idle 0 0 rx_credit_tuples id;
  session = record k.session { session_done = true };
}

watchdog_timeout-given_up :
    (io : Inputs) (id : ℕ) (rx : Rx) (k : State)
    → watchdog_timeout io id (record k { rx = rx }) ≡ given_up io id rx k
unfolding watchdog_timeout end_session send emit_debug
watchdog_timeout-given_up io id rx k = refl

-- The guarded read of a host whose byte comes after n polls that find nothing. If they are fewer
-- than the limit of the watchdog, the session goes on with the byte, and the input behind it is
-- left. Otherwise an acknowledgement with IDLE, no rows and the full credit is sent, behind a DEBUG
-- frame if debugging is on, the session is over, and nothing else changes; the polls behind the
-- limit, and the byte, are left to the next session.
pub receive_guarded-watchdog :
    (io : Inputs) (id n b : ℕ) (k : State) (rx : Rx) (next : ℕ → State → Outcome)
    → receive_guarded io id (record k { rx = silence n (some b ∷ rx) }) next ≡ (
        if ltb n rx_watchdog_cycles
        then next (u8 b) (record k { rx = rx })
        else running (given_up io id (silence (n - rx_watchdog_cycles) (some b ∷ rx)) k))
receive_guarded-watchdog io id n b k rx next = elim (Bool-cases (ltb n rx_watchdog_cycles)) [
  | inl soon ↦
      let poll : guard_loop 0 (silence n (some b ∷ rx)) ≡ (some (u8 b), rx) =
        guard_loop-byte n 0 b rx (ground (arith, soon)) in
      rw soon (polled io id (record k { rx = silence n (some b ∷ rx) }) next poll)
  | inr late ↦
      let limit : rx_watchdog_cycles ≤ n = ground (arith, late) in
      let same : 0 + n - rx_watchdog_cycles ≡ n - rx_watchdog_cycles = omega arith in
      let left = silence (n - rx_watchdog_cycles) (some b ∷ rx) in
      let poll : guard_loop 0 (silence n (some b ∷ rx)) ≡ (none, left) =
        rw (← same) (guard_loop-none n 0 (some b ∷ rx) (omega arith) (omega arith)) in
      rw late (
        polled io id (record k { rx = silence n (some b ∷ rx) }) next poll
        ∙ ap running (watchdog_timeout-given_up io id left k))
]
