-- ===== src/Host/Udp/Send.antt =====
-- The datagrams that `send` of the UDP transport sends.

use fpga_postgresql_hash_joi.Base.{
  ℕ, zero, suc, ◌≤◌, ◌<◌, ◌≡◌, refl, sym, ap, ◌∙◌, true, List, [], ◌∷◌, ◌++◌, arith, ◌==◌, length,
  take, drop, All, length-take, length-drop, take-append-drop, concat,
}
use fpga_postgresql_hash_joi.Host.Transport.{Result, ok}
use Prim.Native.Nat.{min}
use mathlib.Core.List.{append_assoc, append-nil}
use fpga_postgresql_hash_joi.Host.Udp.{
  SockAddr, Socket, UdpPeer, UdpTransport, send_chunks, udp_send, bytes_sent, on_sent,
}

-- A socket that sends each datagram whole, and remembers it.
pub record SendSocket {S : Type 0} (sys : Socket S) : Type 0 where
  pub gone : S → List (List ℕ)
  pub sends :
      (addr : SockAddr) (bs : List ℕ) (s : S)
      → (s' : S) × (sys.sendto addr bs s ≡ (bytes_sent (length bs), s'))
        × (gone s' ≡ gone s ++ (bs ∷ []))

-- A call that has sent the bytes in datagrams, none of them empty or larger than the limit.
pub record SendsWhole {S : Type 0} (gone : S → List (List ℕ)) (limit : ℕ) (bytes : List ℕ)
    (t : UdpTransport S) (r : Result (UdpTransport S) (Unit {0})) : Type 0 where
  pub after : S
  pub datagrams : List (List ℕ)
  pub returns : r ≡ ok tt (record t { sock = after })
  pub sent : gone after ≡ gone t.sock ++ datagrams
  pub whole : concat datagrams ≡ bytes
  pub sizes : All (λ d. (0 < length d) × (length d ≤ limit)) datagrams

module _ {S : Type 0} {sys : Socket S} (o : SendSocket sys) (peer : UdpPeer)
    (some_payload : 0 < peer.max_payload) where
  -- One datagram.
  send_chunks_step :
      (fuel b : ℕ) (bs : List ℕ) (t : UdpTransport S) (s : S)
      → sys.sendto peer.remote_addr (take (min (length (b ∷ bs)) peer.max_payload) (b ∷ bs)) t.sock
        ≡ (bytes_sent (length (take (min (length (b ∷ bs)) peer.max_payload) (b ∷ bs))), s)
      → send_chunks sys peer (suc fuel) (b ∷ bs) t
        ≡ send_chunks sys peer fuel
            (drop (min (length (b ∷ bs)) peer.max_payload) (b ∷ bs))
            (record t { sock = s })
  unfolding send_chunks on_sent
  send_chunks_step fuel b bs t s sent_all =
      let chunk = min (length (b ∷ bs)) peer.max_payload in
      let measured : length (take chunk (b ∷ bs)) ≡ chunk =
        length-take chunk (b ∷ bs) (omega arith) in
      let whole_chunk : (length (take chunk (b ∷ bs)) == chunk) ≡ true = ground (arith, measured) in
      ap
        (λ r.
          on_sent sys peer (send_chunks sys peer fuel (drop chunk (b ∷ bs))) chunk (r.0)
            (record t { sock = r.1 }))
        sent_all
      ∙ rw whole_chunk refl

  send_chunks-SendsWhole :
      (fuel : ℕ) (bs : List ℕ) (t : UdpTransport S)
      → length bs ≤ fuel
      → SendsWhole o.gone peer.max_payload bs t (send_chunks sys peer fuel bs t)
  unfolding send_chunks
  send_chunks-SendsWhole fuel [] t h = record {
    after = t.sock;
    datagrams = [];
    returns = refl;
    sent = sym (append-nil (o.gone t.sock));
    whole = refl;
    sizes = tt;
  }
  send_chunks-SendsWhole zero (b ∷ bs) t h = absurd (omega arith)
  send_chunks-SendsWhole (suc fuel) (b ∷ bs) t h =
      let chunk = min (length (b ∷ bs)) peer.max_payload in
      let first = take chunk (b ∷ bs) in
      let (s, sent_all, kept) = o.sends peer.remote_addr first t.sock in
      let measured : length first ≡ chunk = length-take chunk (b ∷ bs) (omega arith) in
      let g =
        send_chunks-SendsWhole fuel (drop chunk (b ∷ bs)) (record t { sock = s })
          (omega (arith, length-drop chunk (b ∷ bs), h, some_payload)) in
      record {
        after = g.after;
        datagrams = first ∷ g.datagrams;
        returns = send_chunks_step fuel b bs t s sent_all ∙ g.returns;
        sent =
            g.sent
            ∙ ap (λ r. r ++ g.datagrams) kept
            ∙ append_assoc (o.gone t.sock) (first ∷ []) g.datagrams;
        whole = ap (λ r. first ++ r) g.whole ∙ take-append-drop chunk (b ∷ bs);
        sizes = ((omega (arith, measured, some_payload), omega (arith, measured)), g.sizes);
      }

  -- `send` of the UDP transport, over a socket that sends what it is given, sends all bytes, in
  -- their order, in datagrams that are neither empty nor larger than the limit of the payload, and
  -- changes nothing else. The limit is at least one byte.
  pub udp_send-SendsWhole :
      (bs : List ℕ) (t : UdpTransport S)
      → SendsWhole o.gone peer.max_payload bs t (udp_send sys peer bs t)
  unfolding udp_send
  udp_send-SendsWhole bs t = send_chunks-SendsWhole (length bs) bs t (omega arith)
