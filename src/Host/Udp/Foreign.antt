-- ===== src/Host/Udp/Foreign.antt =====
-- A datagram of another endpoint, in `recv` of the UDP transport.

use fpga_postgresql_hash_joi.Base.{
  ℕ, zero, suc, ◌+◌, ◌-◌, ◌≤◌, ◌≡◌, refl, ap, ◌∙◌, Bool, true, false, List, [], arith, ltb, leb,
  if◌then◌else◌, length, take, drop, length-append, length-replicate, replicate,
}
use fpga_postgresql_hash_joi.Host.Transport.{ok, Result, throw}
use Prim.Native.Nat.{min}
use fpga_postgresql_hash_joi.Host.Udp.{
  SockAddr, Socket, UdpPeer, UdpTransport, packet_bytes, clear_packet, filled_buffer,
  same_ipv4_endpoint, on_arrival, on_selected, fill_packet, take_bytes, udp_recv, ready, datagram,
}

length-filled_buffer :
    (bs : List ℕ) → length bs ≤ packet_bytes → length (filled_buffer bs) ≡ packet_bytes
unfolding filled_buffer
length-filled_buffer bs h =
    let pad = length-replicate {A = ℕ} (packet_bytes - length bs) 0 in
    omega (arith, pad, length-append bs (replicate (packet_bytes - length bs) 0), h)

module _ {S : Type 0} (sys : Socket S) (peer : UdpPeer) where
  fill_packet_there :
      (n : ℕ) (t : UdpTransport S)
      → ltb t.rx_offset (length t.rx_packet) ≡ true
      → fill_packet sys peer n t ≡ ok true t
  unfolding fill_packet
  fill_packet_there zero t e = rw (fill_packet, e) refl
  fill_packet_there (suc n) t e = rw (fill_packet, e) refl

  take_bytes_eq :
      (m : ℕ) (t : UdpTransport S)
      → (t' : UdpTransport S) × (take_bytes sys peer m t
          ≡ ok (take (min m (length t.rx_packet - t.rx_offset)) (drop t.rx_offset t.rx_packet)) t')
  unfolding take_bytes
  take_bytes_eq m t =
      let n = min m (length t.rx_packet - t.rx_offset) in
      through (leb (length t.rx_packet) (t.rx_offset + n)) (take n (drop t.rx_offset t.rx_packet)) _
        _
    where
      through :
          (b : Bool) (out : List ℕ) (x y : UdpTransport S)
          → (t' : UdpTransport S) × ((if b then ok out x else ok out y) ≡ ok out t')
      through true out x y = (x, refl)
      through false out x y = (y, refl)

  -- The packet that the foreign datagram leaves.
  fill_packet-foreign :
      (n : ℕ) (t : UdpTransport S) (src : SockAddr) (bs : List ℕ) (s s' : S)
      → length t.rx_packet ≤ t.rx_offset
      → sys.select t.recv_timeout_ms t.sock ≡ (ready, s)
      → sys.recvfrom packet_bytes s ≡ (datagram src bs, s')
      → same_ipv4_endpoint sys src peer.remote_addr ≡ false
      → length bs ≤ packet_bytes
      → fill_packet sys peer (suc n) t
        ≡ ok true (record t { sock = s'; rx_packet = filled_buffer bs; rx_offset = 0 })
  unfolding fill_packet on_selected on_arrival clear_packet
  fill_packet-foreign n t src bs s s' read got received foreign few =
      let t₁ : UdpTransport S = record t {
        sock = s';
        rx_packet = filled_buffer bs;
        rx_offset = 0;
      } in
      let at_end : ltb t.rx_offset (length t.rx_packet) ≡ false = ground (arith, read) in
      let size = length-filled_buffer bs few in
      let buffered : ltb 0 (length (filled_buffer bs)) ≡ true = ground (arith, size) in
      rw (fill_packet, at_end, got, received, foreign) (fill_packet_there n t₁ buffered)

  -- A datagram of another endpoint is not dropped: a read that finds it first gives its bytes, and
  -- zeros behind them, as many as were asked for and the receive buffer has. The packet is read to
  -- its end.
  pub udp_recv-foreign :
      (m : ℕ) (t : UdpTransport S) (src : SockAddr) (bs : List ℕ) (s s' : S)
      → length t.rx_packet ≤ t.rx_offset
      → sys.select t.recv_timeout_ms t.sock ≡ (ready, s)
      → sys.recvfrom packet_bytes s ≡ (datagram src bs, s')
      → same_ipv4_endpoint sys src peer.remote_addr ≡ false
      → length bs ≤ packet_bytes
      → (t' : UdpTransport S) × (udp_recv sys peer (suc m) t
          ≡ ok (take (min (suc m) packet_bytes) (filled_buffer bs)) t')
  unfolding udp_recv
  udp_recv-foreign m t src bs s s' read got received foreign few =
      let t₁ : UdpTransport S = record t {
        sock = s';
        rx_packet = filled_buffer bs;
        rx_offset = 0;
      } in
      let (t', out) = take_bytes_eq (suc m) t₁ in
      let size : length (filled_buffer bs) - 0 ≡ packet_bytes =
        omega (arith, length-filled_buffer bs few) in
      (
        t',
        after (fill_packet-foreign (sys.backlog t.sock) t src bs s s' read got received foreign few)
            ∙ out
            ∙ ap (λ k. ok (take (min (suc m) k) (filled_buffer bs)) t') size,
      )
    where
      after :
          {r : Result (UdpTransport S) Bool} {t₁ : UdpTransport S}
          → r ≡ ok true t₁
          → elim r [
            | throw e t' ↦ throw e t'
            | ok false t' ↦ ok [] t'
            | ok true t' ↦ take_bytes sys peer (suc m) t'
          ]
            ≡ take_bytes sys peer (suc m) t₁
      after e = rw e refl
