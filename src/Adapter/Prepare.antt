-- ===== src/Adapter/Prepare.antt =====
-- pg/src/fpga_adapter.cpp: the RESET and its answer before a session over UDP.
use fpga_postgresql_hash_joi.Types.{phase_byte, idle}
use fpga_postgresql_hash_joi.Base.{ℕ, zero, suc, Bool, true, false, [], ◌==◌}
use fpga_postgresql_hash_joi.Host.Transport.{Act, ◌>>◌, pure, ok, throw}
use fpga_postgresql_hash_joi.Host.Decoder.{Frame, Decoder, read_timing, recv_frame, ack_frame}
use fpga_postgresql_hash_joi.Host.Client.Session.{reset_frame}
use fpga_postgresql_hash_joi.Host.Udp.{
  Socket, UdpPeer, UdpTransport, set_recv_timeout_ms, udp_send, udp_reset, drain_until_quiet,
  udp_transport,
}

-- A RESET acknowledged with phase IDLE.
unfoldable pub is_idle_ack : Frame → Bool
is_idle_ack (ack_frame s) = s.phase == phase_byte idle
is_idle_ack _ = false

unfoldable pub empty_decoder : Decoder
unfolding read_timing
empty_decoder = record { has_timing = false; timing_frames = 0; timing = read_timing [] }

module _ {S : Type 0} (sys : Socket S) (peer : UdpPeer) where
  unfoldable pub reset_udp : UdpTransport S → UdpTransport S
  unfolding udp_reset
  reset_udp t = elim (udp_reset sys peer t) [ ok _ t' ↦ t' | throw _ t' ↦ t' ]

  -- The frames heard in the time of one attempt; an exception is caught, and the transport reset.
  unfoldable pub wait_idle : ℕ → Decoder → UdpTransport S → Bool × Decoder × UdpTransport S
  unfolding recv_frame is_idle_ack reset_udp
  wait_idle zero d t = (false, d, t)
  wait_idle (suc n) d t = elim (recv_frame (udp_transport sys peer) d t) [
    | throw e t' ↦ wait_idle n d (reset_udp t')
    | ok (f, d') t' ↦ elim (is_idle_ack f) [ true ↦ (true, d', t') | false ↦ wait_idle n d' t' ]
  ]

  -- The attempts left.
  unfoldable pub reset_board : ℕ → ℕ → Decoder → Act (UdpTransport S) (Unit {0})
  unfolding wait_idle udp_send reset_udp
  reset_board rounds zero d t = ok tt t
  reset_board rounds (suc attempts) d t = elim (udp_send sys peer reset_frame t) [
    | throw e t' ↦ throw e t'
    | ok _ t' ↦
        let (got_idle, d', t'') = wait_idle rounds d t' in
        elim got_idle [ true ↦ ok tt t'' | false ↦ reset_board rounds attempts d' (reset_udp t'') ]
  ]

  -- `ScopedUdpTimeout`: the timeout for the time of a call.
  unfoldable pub with_timeout :
      ℕ → Act (UdpTransport S) (Unit {0}) → Act (UdpTransport S) (Unit {0})
  unfolding set_recv_timeout_ms
  with_timeout timeout_ms body t =
      let saved = t.recv_timeout_ms in
      elim (body (set_recv_timeout_ms timeout_ms t)) [
        | ok x t' ↦ ok x (set_recv_timeout_ms saved t')
        | throw e t' ↦ throw e (set_recv_timeout_ms saved t')
      ]

  unfoldable pub prepare_udp_session : ℕ → ℕ → Act (UdpTransport S) (Unit {0})
  unfolding with_timeout udp_reset drain_until_quiet reset_board empty_decoder
  prepare_udp_session drain_fuel rounds = with_timeout 5 (
      udp_reset sys peer
      >> (drain_until_quiet sys peer drain_fuel 1 2048
          >> (reset_board rounds 2 empty_decoder
              >> (drain_until_quiet sys peer drain_fuel 1 2048 >> pure tt))))
