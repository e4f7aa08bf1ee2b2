-- ===== src/Tests/Udp.antt =====
-- The UDP transport over a socket that has payloads of one endpoint.

use fpga_postgresql_hash_joi.Base.{
  ℕ, ◌≡◌, refl, sym, ap, ◌∙◌, true, List, [], ◌∷◌, ◌++◌, arith, length, take,
}
use fpga_postgresql_hash_joi.Host.Transport.{Received, ok}
use fpga_postgresql_hash_joi.Host.Udp.{
  SockAddr, Arrival, Socket, UdpPeer, UdpTransport, udp_peer, clear_packet, filled_buffer,
  same_ipv4_endpoint, udp_send, on_arrival, on_selected, fill_packet, take_bytes, udp_recv,
  drain_until_quiet, ready, timed_out, datagram, recv_interrupted, bytes_sent,
}
use fpga_postgresql_hash_joi.Host.Udp.Receive.{
  SelectsFrom, PeerSocket, udp_pending, udp_recv-Received,
}
use fpga_postgresql_hash_joi.Host.Udp.Send.{SendSocket, udp_send-SendsWhole, SendsWhole}
use fpga_postgresql_hash_joi.Host.Udp.Foreign.{udp_recv-foreign}
use fpga_postgresql_hash_joi.Host.Udp.Drain.{drain_until_quiet-ends}

abbrev pub board_addr : SockAddr
board_addr = record { family = 2; addr_bytes = 16; s_addr = 7; sin_port = 50_000 }

abbrev other_addr : SockAddr
other_addr = record { family = 2; addr_bytes = 16; s_addr = 8; sin_port = 50_000 }

abbrev board_peer : UdpPeer
board_peer = record { remote_addr = board_addr; max_payload = 4 }

-- The payloads to come, and those sent.
pub record Wires : Type 0 where
  pub coming : List (List ℕ)
  pub sent_off : List (List ℕ)

abbrev next_payload : SockAddr → ℕ → List (List ℕ) → Arrival
next_payload src n [] = recv_interrupted
next_payload src n (d ∷ ds) = datagram src (take n d)

abbrev tail : {A : Type 0} → List A → List A
tail [] = []
tail (x ∷ xs) = xs

abbrev pub socket_of : SockAddr → Socket Wires
socket_of src = record {
  af_inet = 2;
  sockaddr_in_bytes = 16;
  select = λ ms w. elim w.coming [ [] ↦ (timed_out, w) | d ∷ ds ↦ (ready, w) ];
  recvfrom = λ n w. (next_payload src n w.coming, record w { coming = tail w.coming });
  sendto = λ addr bs w. (bytes_sent (length bs), record w { sent_off = w.sent_off ++ (bs ∷ []) });
  backlog = λ w. length w.coming;
}

abbrev udp_of : List (List ℕ) → UdpTransport Wires
udp_of ds = record {
  sock = record { coming = ds; sent_off = [] };
  recv_timeout_ms = 100;
  rx_packet = [];
  rx_offset = 0;
}

opened : udp_peer board_addr 0 ≡ record { remote_addr = board_addr; max_payload = 1200 }
unfolding udp_peer
opened = refl

board_socket : PeerSocket (socket_of board_addr) board_peer
unfolding same_ipv4_endpoint
board_socket = record {
  arriving = λ w. w.coming;
  selects = λ ms w. answers (w.coming) w refl;
  receives = λ n w d ds e. (
    board_addr,
    record w { coming = tail w.coming },
    ap (λ q. (next_payload board_addr n q, record w { coming = tail w.coming })) e,
    refl,
    ap tail e,
    omega (arith, ap length e, ap (λ q. length (tail q)) e),
  );
}
  where
    answers :
        (ds : List (List ℕ)) (w : Wires)
        → w.coming ≡ ds
        → SelectsFrom
            (socket_of board_addr)
            board_peer
            (λ v. v.coming)
            w
            (elim ds [ [] ↦ (timed_out, w) | d ∷ ds ↦ (ready, w) ])
    answers [] w e = (e, e)
    answers (d ∷ ds) w e = (refl, λ nothing. ground (arith, sym e ∙ nothing), omega arith)

send_socket : SendSocket (socket_of board_addr)
send_socket = record {
  gone = λ w. w.sent_off;
  sends = λ addr bs w. (record w { sent_off = w.sent_off ++ (bs ∷ []) }, refl, refl);
}

-- A read stops at the end of a datagram; the empty one is passed over.
two_reads :
    udp_recv (socket_of board_addr) board_peer 5 (udp_of ((1 ∷ 2 ∷ []) ∷ [] ∷ (3 ∷ []) ∷ []))
    ≡ ok (1 ∷ 2 ∷ []) (udp_of ([] ∷ (3 ∷ []) ∷ []))
unfolding udp_recv fill_packet on_selected on_arrival take_bytes same_ipv4_endpoint clear_packet
two_reads = refl

udp_recv-Received_example :
    Received
      (udp_pending board_socket)
      5
      (udp_of ([] ∷ (3 ∷ []) ∷ []))
      (udp_recv (socket_of board_addr) board_peer 5 (udp_of ([] ∷ (3 ∷ []) ∷ [])))
udp_recv-Received_example = udp_recv-Received board_socket 5 (udp_of ([] ∷ (3 ∷ []) ∷ []))

udp_send-SendsWhole_example :
    SendsWhole send_socket.gone 4
      (1 ∷ 2 ∷ 3 ∷ 4 ∷ 5 ∷ [])
      (udp_of [])
      (udp_send (socket_of board_addr) board_peer (1 ∷ 2 ∷ 3 ∷ 4 ∷ 5 ∷ []) (udp_of []))
udp_send-SendsWhole_example =
    udp_send-SendsWhole send_socket board_peer (omega arith) (1 ∷ 2 ∷ 3 ∷ 4 ∷ 5 ∷ []) (udp_of [])

udp_recv-foreign_example :
    (t' : UdpTransport Wires) × (udp_recv
        (socket_of other_addr)
        board_peer
        3
        (udp_of ((9 ∷ []) ∷ []))
      ≡ ok (take 3 (filled_buffer (9 ∷ []))) t')
unfolding same_ipv4_endpoint
udp_recv-foreign_example =
    udp_recv-foreign (socket_of other_addr) board_peer 2 (udp_of ((9 ∷ []) ∷ [])) other_addr
      (9 ∷ []) (record { coming = (9 ∷ []) ∷ []; sent_off = [] })
      (record { coming = []; sent_off = [] }) (omega arith) refl refl refl (omega arith)

drain_until_quiet-ends_example :
    (t' : UdpTransport Wires) × (drain_until_quiet
        (socket_of board_addr)
        board_peer
        9
        1
        0
        (udp_of ((3 ∷ 4 ∷ []) ∷ []))
      ≡ ok true t')
    × (udp_pending board_socket t' ≡ [])
unfolding clear_packet board_socket
drain_until_quiet-ends_example =
    drain_until_quiet-ends board_socket 9 1 0 (udp_of ((3 ∷ 4 ∷ []) ∷ [])) (omega arith)
      (omega arith)
