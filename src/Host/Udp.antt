-- ===== src/Host/Udp.antt =====
-- host/src/udp_transport.cpp and its header: class UdpTransport, in its POSIX variant. The calls of
-- the system on the socket are a parameter. Logging is left out.
use fpga_postgresql_hash_joi.Types.{reset}
use fpga_postgresql_hash_joi.Base.{
  ℕ, zero, suc, ◌+◌, ◌-◌, ◌⊎◌, inl, inr, Bool, true, false, not, ◌&&◌, ◌||◌, List, [], ◌∷◌, ◌++◌,
  ltb, leb, ◌==◌, if◌then◌else◌, length, take, drop, replicate,
}
use fpga_postgresql_hash_joi.Host.Transport.{
  Act, Transport, transport_failed, short_send, timeout, ok, throw, Exception,
}
use Prim.Native.Nat.{min}
pub mod Receive
pub mod Send
pub mod Foreign
pub mod Drain

-- `sockaddr_storage` with its length; the address and the port of another family are not read.
pub record SockAddr : Type 0 where
  pub family : ℕ
  pub addr_bytes : ℕ
  pub s_addr : ℕ
  pub sin_port : ℕ

-- What `select`, `recvfrom` and `sendto` answer; a failure has its `errno`.
pub data Selected : Type 0 where
  ready timed_out select_interrupted : Selected
  select_failed : ℕ → Selected

pub data Arrival : Type 0 where
  datagram : SockAddr → List ℕ → Arrival
  recv_interrupted : Arrival
  recv_failed : ℕ → Arrival

pub data SendAnswer : Type 0 where
  bytes_sent : ℕ → SendAnswer
  send_failed : ℕ → SendAnswer

-- The system's calls over the state of a socket: `select` has a timeout in milliseconds, `recvfrom`
-- the size of its buffer. `backlog` is no call: it bounds how often `select` still answers anything
-- but that the time is over.
pub record Socket (S : Type 0) : Type 0 where
  pub af_inet : ℕ
  pub sockaddr_in_bytes : ℕ
  pub select : ℕ → S → Selected × S
  pub recvfrom : ℕ → S → Arrival × S
  pub sendto : SockAddr → List ℕ → S → SendAnswer × S
  pub backlog : S → ℕ

-- The fields of `Impl` that never change, and those that do.
pub record UdpPeer : Type 0 where
  pub remote_addr : SockAddr
  pub max_payload : ℕ

pub record UdpTransport (S : Type 0) : Type 0 where
  pub sock : S
  pub recv_timeout_ms : ℕ
  pub rx_packet : List ℕ
  pub rx_offset : ℕ

abbrev pub packet_bytes : ℕ
packet_bytes = 65536

abbrev pub default_payload : ℕ
default_payload = 1200

-- The system's calls of the constructor; a failure has its code.
pub record Network (S : Type 0) : Type 0 where
  pub getaddrinfo : List ℕ → ℕ → ℕ ⊎ SockAddr
  pub open_socket : ℕ ⊎ S
  pub bind_port : ℕ → S → ℕ ⊎ S

unfoldable pub udp_peer : SockAddr → ℕ → UdpPeer
udp_peer remote_addr max_datagram_payload = record {
  remote_addr = remote_addr;
  max_payload = if max_datagram_payload == 0 then default_payload else max_datagram_payload;
}

unfoldable pub udp_opened : {S : Type 0} → S → ℕ → UdpTransport S
udp_opened s recv_timeout_ms = record {
  sock = s;
  recv_timeout_ms = recv_timeout_ms;
  rx_packet = [];
  rx_offset = 0;
}

-- The constructor: the remote host and port, the local port, the timeout and the payload.
unfoldable pub open_udp :
    {S : Type 0} → Network S → List ℕ → ℕ → ℕ → ℕ → ℕ → Exception ⊎ (UdpPeer × UdpTransport S)
unfolding udp_peer udp_opened
open_udp net host port local_port recv_timeout_ms payload = elim (net.getaddrinfo host port) [
  | inl code ↦ inl (transport_failed code)
  | inr remote ↦ elim net.open_socket [
    | inl errno ↦ inl (transport_failed errno)
    | inr s ↦ elim (net.bind_port local_port s) [
      | inl errno ↦ inl (transport_failed errno)
      | inr s' ↦ inr (udp_peer remote payload, udp_opened s' recv_timeout_ms)
    ]
  ]
]

unfoldable pub set_recv_timeout_ms : {S : Type 0} → ℕ → UdpTransport S → UdpTransport S
set_recv_timeout_ms timeout_ms t = record t { recv_timeout_ms = timeout_ms }

-- `rx_packet.clear()` with the offset.
unfoldable pub clear_packet : {S : Type 0} → UdpTransport S → UdpTransport S
clear_packet t = record t { rx_packet = []; rx_offset = 0 }

-- A receive buffer that was resized from nothing, with the bytes written to it.
unfoldable pub filled_buffer : List ℕ → List ℕ
filled_buffer bytes = bytes ++ replicate (packet_bytes - length bytes) 0

module _ {S : Type 0} (sys : Socket S) where
  unfoldable pub same_ipv4_endpoint : SockAddr → SockAddr → Bool
  same_ipv4_endpoint a b =
      if not (a.family == sys.af_inet) || not (b.family == sys.af_inet)
      then false
      else if ltb a.addr_bytes sys.sockaddr_in_bytes || ltb b.addr_bytes sys.sockaddr_in_bytes
      then false
      else a.s_addr == b.s_addr && a.sin_port == b.sin_port

module _ {S : Type 0} (sys : Socket S) (peer : UdpPeer) where
  -- What follows `sendto` in a round of `send`, of a chunk of this size.
  unfoldable pub on_sent :
      Act (UdpTransport S) (Unit {0}) → ℕ → SendAnswer → Act (UdpTransport S) (Unit {0})
  on_sent again chunk (send_failed errno) t = throw (transport_failed errno) t
  on_sent again chunk (bytes_sent n) t = if n == chunk then again t else throw short_send t

  -- The loop of `send`. A chunk has at least one byte, so as many rounds as bytes are enough.
  unfoldable pub send_chunks : ℕ → List ℕ → Act (UdpTransport S) (Unit {0})
  unfolding on_sent
  send_chunks fuel [] t = ok tt t
  send_chunks zero (b ∷ bs) t = throw short_send t
  send_chunks (suc fuel) (b ∷ bs) t =
      let chunk = min (length (b ∷ bs)) peer.max_payload in
      let (answer, s) = sys.sendto peer.remote_addr (take chunk (b ∷ bs)) t.sock in
      on_sent (send_chunks fuel (drop chunk (b ∷ bs))) chunk answer (record t { sock = s })

  unfoldable pub udp_send : List ℕ → Act (UdpTransport S) (Unit {0})
  unfolding send_chunks
  udp_send bytes = send_chunks (length bytes) bytes

  -- `recvfrom` and what follows it in a round of `recv`. Each `continue` tests the loop's condition
  -- again, on a buffer that has its full size.
  unfoldable pub on_arrival : Act (UdpTransport S) Bool → Arrival → Act (UdpTransport S) Bool
  unfolding same_ipv4_endpoint filled_buffer
  on_arrival again (datagram src bytes) t =
      if same_ipv4_endpoint sys src peer.remote_addr
      then again (record t { rx_packet = bytes })
      else again (record t { rx_packet = filled_buffer bytes })
  on_arrival again recv_interrupted t = again (record t { rx_packet = filled_buffer [] })
  on_arrival again (recv_failed errno) t =
      throw (transport_failed errno) (record t { rx_packet = filled_buffer [] })

  unfoldable pub on_selected : Act (UdpTransport S) Bool → Selected → Act (UdpTransport S) Bool
  unfolding on_arrival
  on_selected again ready t =
      let (arrival, s) = sys.recvfrom packet_bytes t.sock in
      on_arrival again arrival (record t { sock = s })
  on_selected again timed_out t = ok false t
  on_selected again select_interrupted t = again t
  on_selected again (select_failed errno) t = throw (transport_failed errno) t

  -- The loop of `recv`, with its rounds: whether there are bytes in the packet.
  unfoldable pub fill_packet : ℕ → Act (UdpTransport S) Bool
  unfolding on_selected clear_packet
  fill_packet zero t = elim (ltb t.rx_offset (length t.rx_packet)) [
    | true ↦ ok true t
    | false ↦ throw timeout t
  ]
  fill_packet (suc n) t = elim (ltb t.rx_offset (length t.rx_packet)) [
    | true ↦ ok true t
    | false ↦
        let (selected, s) = sys.select t.recv_timeout_ms t.sock in
        on_selected (fill_packet n) selected (record (clear_packet t) { sock = s })
  ]

  unfoldable pub take_bytes : ℕ → Act (UdpTransport S) (List ℕ)
  unfolding clear_packet
  take_bytes max_len t =
      let n = min max_len (length t.rx_packet - t.rx_offset) in
      let out = take n (drop t.rx_offset t.rx_packet) in
      if leb (length t.rx_packet) (t.rx_offset + n)
      then ok out (clear_packet t)
      else ok out (record t { rx_offset = t.rx_offset + n })

  -- One round more than the backlog is enough.
  unfoldable pub udp_recv : ℕ → Act (UdpTransport S) (List ℕ)
  unfolding fill_packet take_bytes
  udp_recv zero t = ok [] t
  udp_recv (suc m) t = elim (fill_packet (suc (sys.backlog t.sock)) t) [
    | throw e t' ↦ throw e t'
    | ok false t' ↦ ok [] t'
    | ok true t' ↦ take_bytes (suc m) t'
  ]

  -- The loop of `reset`, with its rounds. A failure, of either call, or an empty datagram ends it.
  unfoldable pub discard_rounds : ℕ → UdpTransport S → UdpTransport S
  discard_rounds zero t = t
  discard_rounds (suc n) t =
      let (selected, s) = sys.select 0 t.sock in
      let (arrival, s') = sys.recvfrom 2048 s in
      elim selected [
        | ready ↦ elim arrival [
          | datagram src bytes ↦ elim bytes [
            | [] ↦ record t { sock = s' }
            | b ∷ bs ↦ discard_rounds n (record t { sock = s' })
          ]
          | _ ↦ record t { sock = s' }
        ]
        | _ ↦ record t { sock = s }
      ]

  unfoldable pub udp_reset : Act (UdpTransport S) (Unit {0})
  unfolding discard_rounds clear_packet
  udp_reset t = ok tt (discard_rounds (suc (sys.backlog t.sock)) (clear_packet t))

  -- The loop of `drain_until_quiet`: the rounds left, the size of the buffer, the timeouts that are
  -- to come in a row, and how many have.
  unfoldable pub drain_rounds : ℕ → ℕ → ℕ → ℕ → Act (UdpTransport S) Bool
  unfolding udp_recv
  drain_rounds zero size quiet_timeouts quiet t = ok (leb quiet_timeouts quiet) t
  drain_rounds (suc n) size quiet_timeouts quiet t = elim (ltb quiet quiet_timeouts) [
    | false ↦ ok true t
    | true ↦ elim (udp_recv size t) [
      | throw e t' ↦ throw e t'
      | ok bytes t' ↦ elim bytes [
        | [] ↦ drain_rounds n size quiet_timeouts (suc quiet) t'
        | b ∷ bs ↦ drain_rounds n size quiet_timeouts 0 t'
      ]
    ]
  ]

  -- It gives `false` if the rounds do not suffice.
  unfoldable pub drain_until_quiet : ℕ → ℕ → ℕ → Act (UdpTransport S) Bool
  unfolding drain_rounds clear_packet
  drain_until_quiet fuel quiet_timeouts discard_buffer_size t =
      if quiet_timeouts == 0
      then ok true t
      else drain_rounds fuel (if discard_buffer_size == 0 then 2048 else discard_buffer_size)
          quiet_timeouts 0 (clear_packet t)

  abbrev pub udp_transport : Transport (UdpTransport S)
  udp_transport = record { send = udp_send; recv = udp_recv; reset = udp_reset }
