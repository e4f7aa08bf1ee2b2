-- ===== src/Host/Udp/Receive.antt =====
-- The bytes that `recv` of the UDP transport gives.

use fpga_postgresql_hash_joi.Base.{
  ℕ, zero, suc, ◌+◌, ◌-◌, ◌≤◌, ◌<◌, ◌≡◌, refl, sym, ap, ◌∙◌, ◌≢◌, inl, inr, Bool, true, false, List,
  [], ◌∷◌, ◌++◌, map, arith, ltb, leb, if◌then◌else◌, ltb→lt, leb→le, length, take, drop,
  length-append, take-append, drop-append, length-drop, drop-all, drop-drop, List-cases, concat,
}
use fpga_postgresql_hash_joi.Host.Transport.{Result, ok, throw, Act, Received}
use Prim.Native.Nat.{min}
use mathlib.Core.Path.{subst}
use fpga_postgresql_hash_joi.Host.Udp.{
  SockAddr, Selected, Socket, UdpPeer, UdpTransport, packet_bytes, clear_packet, same_ipv4_endpoint,
  on_arrival, on_selected, fill_packet, ready, timed_out, select_interrupted, select_failed,
  datagram, take_bytes, udp_recv,
}

module _ {S : Type 0} (sys : Socket S) (peer : UdpPeer) where
  -- `select` on a socket on which these payloads have arrived.
  abbrev pub SelectsFrom : (S → List (List ℕ)) → S → Selected × S → Type 0
  SelectsFrom arriving s (ready, s') =
      (arriving s' ≡ arriving s) × (arriving s ≢ []) × (sys.backlog s' ≤ sys.backlog s)
  SelectsFrom arriving s (timed_out, s') = (arriving s ≡ []) × (arriving s' ≡ [])
  SelectsFrom arriving s (select_interrupted, s') =
      (arriving s' ≡ arriving s) × (sys.backlog s' < sys.backlog s)
  SelectsFrom arriving s (select_failed errno, s') = ⊥

  -- `recvfrom` gives the first payload, cut to the buffer, from the peer.
  abbrev pub ReceivesFrom : (S → List (List ℕ)) → ℕ → S → List ℕ → List (List ℕ) → Type 0
  ReceivesFrom arriving n s d ds =
      (src : SockAddr) × (s' : S) × (sys.recvfrom n s ≡ (datagram src (take n d), s'))
      × (same_ipv4_endpoint sys src peer.remote_addr ≡ true)
      × (arriving s' ≡ ds)
      × (sys.backlog s' < sys.backlog s)

  -- A socket on which payloads of the peer, and of no one else, have arrived. `select` is
  -- interrupted a number of times at most, `recvfrom` is not.
  pub record PeerSocket : Type 0 where
    pub arriving : S → List (List ℕ)
    pub selects : (ms : ℕ) (s : S) → SelectsFrom arriving s (sys.select ms s)
    pub receives :
        (n : ℕ) (s : S) (d : List ℕ) (ds : List (List ℕ))
        → arriving s ≡ d ∷ ds
        → ReceivesFrom arriving n s d ds

module _ {S : Type 0} {sys : Socket S} {peer : UdpPeer} (p : PeerSocket sys peer) where
  abbrev payloads : List (List ℕ) → List ℕ
  payloads ds = concat (map (λ d. take packet_bytes d) ds)

  -- The bytes of the packet that are not read yet, and those of the payloads behind it.
  abbrev pub udp_pending : UdpTransport S → List ℕ
  udp_pending t = drop t.rx_offset t.rx_packet ++ payloads (p.arriving t.sock)

  abbrev Fills : UdpTransport S → Result (UdpTransport S) Bool → Type 0
  Fills t (ok true t') = (t'.rx_offset < length t'.rx_packet) × (udp_pending t' ≡ udp_pending t)
  Fills t (ok false t') = (udp_pending t ≡ []) × (udp_pending t' ≡ [])
  Fills t (throw e t') = ⊥

  Fills-from :
      (a b : UdpTransport S) (r : Result (UdpTransport S) Bool)
      → udp_pending a ≡ udp_pending b
      → Fills a r
      → Fills b r
  Fills-from a b (ok true t) e (lt, same) = (lt, same ∙ e)
  Fills-from a b (ok false t) e (none_left, same) = (sym e ∙ none_left, same)
  Fills-from a b (throw x t) e h = h

  -- A packet that is read to its end adds nothing.
  read_packet :
      (t : UdpTransport S)
      → ltb t.rx_offset (length t.rx_packet) ≡ false
      → udp_pending t ≡ payloads (p.arriving t.sock)
  read_packet t e =
      ap (λ r. r ++ payloads (p.arriving t.sock)) (drop-all t.rx_offset t.rx_packet (ground arith))

  -- A round on a packet that is read to its end.
  on_selected-Fills :
      (again : Act (UdpTransport S) Bool) (n : ℕ) (t : UdpTransport S) (r : Selected × S)
      → ((t' : UdpTransport S) → sys.backlog t'.sock < n → Fills t' (again t'))
      → sys.backlog t.sock < suc n
      → udp_pending t ≡ payloads (p.arriving t.sock)
      → SelectsFrom sys peer p.arriving t.sock r
      → Fills t (on_selected sys peer again (r.0) (record (clear_packet t) { sock = r.1 }))
  unfolding on_selected on_arrival clear_packet
  on_selected-Fills again n t (ready, s) filled h read (same, some_there, fewer) =
      elim (List-cases (p.arriving s)) [
        | inl nothing ↦ absurd (some_there (sym same ∙ nothing))
        | inr (d, ds, e) ↦
            let (src, s', got, from, rest, lt) = p.receives packet_bytes s d ds e in
            let same_bytes : take packet_bytes d ++ payloads (p.arriving s') ≡ udp_pending t =
              ap (λ q. take packet_bytes d ++ payloads q) rest
              ∙ ap payloads (sym e ∙ same)
              ∙ sym read in
            let t' : UdpTransport S = record (clear_packet t) {
              sock = s';
              rx_packet = take packet_bytes d;
            } in
            rw (got, from)
              (Fills-from t' t (again t') same_bytes (filled t' (omega (arith, lt, fewer, h))))
      ]
  on_selected-Fills again n t (timed_out, s) filled h read (nothing, still) =
      (read ∙ ap payloads nothing, ap payloads still)
  on_selected-Fills again n t (select_interrupted, s) filled h read (same, lt) =
      let t' : UdpTransport S = record (clear_packet t) { sock = s } in
      Fills-from t' t (again t') (ap payloads same ∙ sym read) (filled t' (omega (arith, lt, h)))
  on_selected-Fills again n t (select_failed errno, s) filled h read no_failure = absurd no_failure

  Fills-test :
      (t : UdpTransport S) (b : Bool) (again : Result (UdpTransport S) Bool)
      → ltb t.rx_offset (length t.rx_packet) ≡ b
      → (b ≡ false → Fills t again)
      → Fills t (elim b [ true ↦ ok true t | false ↦ again ])
  Fills-test t true again e f = (ltb→lt t.rx_offset (length t.rx_packet) e, refl)
  Fills-test t false again e f = f refl

  fill_packet-Fills :
      (fuel : ℕ) (t : UdpTransport S)
      → sys.backlog t.sock < fuel
      → Fills t (fill_packet sys peer fuel t)
  unfolding fill_packet
  fill_packet-Fills zero t h = absurd (omega arith)
  fill_packet-Fills (suc n) t h = Fills-test t (ltb t.rx_offset (length t.rx_packet)) _ refl λ e.
      on_selected-Fills (fill_packet sys peer n) n t (sys.select t.recv_timeout_ms t.sock)
        (λ t' lt. fill_packet-Fills n t' lt) h (read_packet t e)
        (p.selects t.recv_timeout_ms t.sock)

  Received-from :
      (n : ℕ) (a b : UdpTransport S) (r : Result (UdpTransport S) (List ℕ))
      → udp_pending a ≡ udp_pending b
      → Received udp_pending n a r
      → Received udp_pending n b r
  Received-from n a b r e g = record {
    count = g.count;
    after = g.after;
    returns = g.returns ∙ ap (λ q. ok (take g.count q) g.after) e;
    few = g.few;
    some_if = λ some_there pos. g.some_if (λ none_there. some_there (sym e ∙ none_there)) pos;
    there = subst (λ q. g.count ≤ length q) e g.there;
    left = g.left ∙ ap (λ q. drop g.count q) e;
  }

  take_bytes-Received :
      (m : ℕ) (t : UdpTransport S)
      → 0 < m
      → t.rx_offset < length t.rx_packet
      → Received udp_pending m t (take_bytes sys peer m t)
  unfolding take_bytes clear_packet
  take_bytes-Received m t pos lt = through (leb (length t.rx_packet) (t.rx_offset + n)) refl
    where
      n : ℕ
      n = min m (length t.rx_packet - t.rx_offset)

      unread : List ℕ
      unread = drop t.rx_offset t.rx_packet

      behind : List ℕ
      behind = payloads (p.arriving t.sock)

      few : n ≤ length unread
      few = omega (arith, length-drop t.rx_offset t.rx_packet)

      bytes_out : take n unread ≡ take n (unread ++ behind)
      bytes_out = sym (take-append n unread behind few)

      left_over : drop n (unread ++ behind) ≡ drop (t.rx_offset + n) t.rx_packet ++ behind
      left_over =
          drop-append n unread behind few
          ∙ ap (λ r. r ++ behind) (drop-drop t.rx_offset n t.rx_packet)

      enough : n ≤ length (unread ++ behind)
      enough = omega (arith, few, length-append unread behind)

      taken :
          (t' : UdpTransport S)
          → udp_pending t' ≡ drop (t.rx_offset + n) t.rx_packet ++ behind
          → Received udp_pending m t (ok (take n unread) t')
      taken t' e = record {
        count = n;
        after = t';
        returns = ap (λ q. ok q t') bytes_out;
        few = omega arith;
        some_if = λ some_there _. omega (arith, lt, pos);
        there = enough;
        left = e ∙ sym left_over;
      }

      through :
          (b : Bool)
          → leb (length t.rx_packet) (t.rx_offset + n) ≡ b
          → Received udp_pending m t (
              if b
              then ok (take n unread) (record t { rx_packet = []; rx_offset = 0 })
              else ok (take n unread) (record t { rx_offset = t.rx_offset + n }))
      through true e =
          taken _
            (sym (ap (λ r. r ++ behind) (drop-all (t.rx_offset + n) t.rx_packet (leb→le _ _ e))))
      through false e = taken _ refl

  -- A read of the UDP transport, on whose socket payloads of the peer have arrived: it gives a
  -- nonempty part of their bytes, in their order, at most as many as were asked for, and leaves the
  -- others, across the borders of the datagrams; it gives no byte only if none is there or none was
  -- asked for. Interruptions of `select` and empty datagrams are passed over.
  pub udp_recv-Received :
      (n : ℕ) (t : UdpTransport S) → Received udp_pending n t (udp_recv sys peer n t)
  unfolding udp_recv
  udp_recv-Received zero t = record {
    count = 0;
    after = t;
    returns = refl;
    few = omega arith;
    some_if = λ _ pos. absurd (omega (arith, pos));
    there = omega arith;
    left = refl;
  }
  udp_recv-Received (suc m) t =
      through (fill_packet sys peer (suc (sys.backlog t.sock)) t)
        (fill_packet-Fills (suc (sys.backlog t.sock)) t (omega arith))
    where
      through :
          (r : Result (UdpTransport S) Bool)
          → Fills t r
          → Received udp_pending (suc m) t (elim r [
            | throw e t' ↦ throw e t'
            | ok false t' ↦ ok [] t'
            | ok true t' ↦ take_bytes sys peer (suc m) t'
          ])
      through (ok true t') (lt, same) =
          Received-from (suc m) t' t _ same (take_bytes-Received (suc m) t' (omega arith) lt)
      through (ok false t') (nothing, still) = record {
        count = 0;
        after = t';
        returns = refl;
        few = omega arith;
        some_if = λ some_there _. absurd (some_there nothing);
        there = omega arith;
        left = still ∙ sym nothing;
      }
      through (throw e t') no_failure = absurd no_failure
