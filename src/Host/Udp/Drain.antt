-- ===== src/Host/Udp/Drain.antt =====
-- `drain_until_quiet` of the UDP transport ends, and what has arrived is gone.

use fpga_postgresql_hash_joi.Base.{
  ℕ, zero, suc, ◌+◌, ◌-◌, ◌≤◌, ◌<◌, ◌≡◌, refl, sym, ap, ◌∙◌, ◌⊎◌, inl, inr, Bool, true, false, List,
  [], ◌∷◌, arith, ltb, leb, ◌==◌, if◌then◌else◌, ltb→lt, length, take, drop, length-take,
  length-drop, drop-all, List-cases,
}
use fpga_postgresql_hash_joi.Host.Transport.{Result, Received, ok, throw}
use fpga_postgresql_hash_joi.Host.Udp.{
  Socket, UdpPeer, UdpTransport, udp_recv, drain_rounds, clear_packet, drain_until_quiet,
}
use fpga_postgresql_hash_joi.Host.Udp.Receive.{PeerSocket, udp_pending, udp_recv-Received}

module _ {S : Type 0} {sys : Socket S} {peer : UdpPeer} (p : PeerSocket sys peer)
    (size quiet_timeouts : ℕ) (some_size : 0 < size) (some_quiet : 0 < quiet_timeouts) where
  abbrev Drains : Result (UdpTransport S) Bool → Type 0
  Drains r = (t' : UdpTransport S) × (r ≡ ok true t') × (udp_pending p t' ≡ [])

  -- A read gives no byte only if none is there.
  nothing_there :
      {r : Result (UdpTransport S) (List ℕ)} (t : UdpTransport S)
      (g : Received (udp_pending p) size t r)
      → take g.count (udp_pending p t) ≡ []
      → udp_pending p t ≡ []
  nothing_there t g e = elim (List-cases (udp_pending p t)) [
    | inl nothing ↦ nothing
    | inr (b, bs, some_there) ↦
        let pos =
          g.some_if (λ nothing. absurd (ground (arith, sym nothing ∙ some_there))) some_size in
        let size_eq = length-take g.count (udp_pending p t) g.there in
        absurd (omega (arith, pos, size_eq, ap length e))
  ]

  after_read :
      (fuel quiet : ℕ) (t : UdpTransport S) (r : Result (UdpTransport S) (List ℕ))
      → Received (udp_pending p) size t r
      → ((t' : UdpTransport S)
          → udp_pending p t ≡ []
          → udp_pending p t' ≡ []
          → Drains (drain_rounds sys peer fuel size quiet_timeouts (suc quiet) t'))
      → ((t' : UdpTransport S)
          → length (udp_pending p t') < length (udp_pending p t)
          → Drains (drain_rounds sys peer fuel size quiet_timeouts 0 t'))
      → Drains (elim r [
        | throw e t' ↦ throw e t'
        | ok bytes t' ↦ elim bytes [
          | [] ↦ drain_rounds sys peer fuel size quiet_timeouts (suc quiet) t'
          | b ∷ bs ↦ drain_rounds sys peer fuel size quiet_timeouts 0 t'
        ]
      ])
  after_read fuel quiet t (throw e t') g silent more = absurd (ground (arith, g.returns))
  after_read fuel quiet t (ok [] t') g silent more =
      let taken : take g.count (udp_pending p t) ≡ [] = ground (arith, g.returns) in
      let same : t' ≡ g.after = ground (arith, g.returns) in
      let nothing = nothing_there t g taken in
      silent t' nothing (
        ap (udp_pending p) same
        ∙ g.left
        ∙ ap (λ q. drop g.count q) nothing
        ∙ drop-all g.count [] (omega arith))
  after_read fuel quiet t (ok (b ∷ bs) t') g silent more =
      let taken : take g.count (udp_pending p t) ≡ b ∷ bs = ground (arith, g.returns) in
      let same : t' ≡ g.after = ground (arith, g.returns) in
      let size_eq = length-take g.count (udp_pending p t) g.there in
      let left_size : length (udp_pending p t') ≡ length (udp_pending p t) - g.count =
        ap (λ q. length (udp_pending p q)) same
        ∙ ap length g.left
        ∙ length-drop g.count (udp_pending p t) in
      more t' (omega (arith, left_size, size_eq, ap length taken, g.there))

  Drains-test :
      (b : Bool) (t : UdpTransport S) (r : Result (UdpTransport S) Bool)
      → (b ≡ false → udp_pending p t ≡ [])
      → (b ≡ true → Drains r)
      → Drains (elim b [ false ↦ ok true t | true ↦ r ])
  Drains-test true t r over under = under refl
  Drains-test false t r over under = (t, refl, over refl)

  drain_rounds-Drains :
      (fuel quiet : ℕ) (t : UdpTransport S)
      → (quiet ≡ 0) ⊎ (udp_pending p t ≡ [])
      → quiet ≤ quiet_timeouts
      → length (udp_pending p t) + (quiet_timeouts - quiet) ≤ fuel
      → Drains (drain_rounds sys peer fuel size quiet_timeouts quiet t)
  unfolding drain_rounds
  drain_rounds-Drains zero quiet t so_far le h =
      let over : leb quiet_timeouts quiet ≡ true = ground (arith, h) in
      (
        t,
        ap (λ b. ok b t) over,
        elim so_far [ inl e ↦ absurd (omega (arith, e, h, some_quiet)) | inr e ↦ e ],
      )
  drain_rounds-Drains (suc n) quiet t so_far le h =
      Drains-test (ltb quiet quiet_timeouts) t _
        (λ over. elim so_far [ inl e ↦ absurd (ground (arith, e, over, some_quiet)) | inr e ↦ e ])
        λ under.
          let lt = ltb→lt quiet quiet_timeouts under in
          after_read n quiet t (udp_recv sys peer size t) (udp_recv-Received p size t)
            (λ t' nothing nothing'.
              drain_rounds-Drains n (suc quiet) t' (inr nothing') (omega (arith, lt))
                (omega (arith, ap length nothing, ap length nothing', h, lt)))
            (λ t' fewer. drain_rounds-Drains n 0 t' (inl refl) (omega arith) (elim so_far [
              | inl e ↦ omega (arith, fewer, h, e)
              | inr e ↦ absurd (omega (arith, fewer, ap length e))
            ]))

-- `drain_until_quiet`, on a socket on which payloads of the peer have arrived, ends, without an
-- exception, and nothing that had arrived is left. As many rounds as bytes and timeouts are enough;
-- at least one timeout is awaited.
pub drain_until_quiet-ends :
    {S : Type 0} {sys : Socket S} {peer : UdpPeer} (p : PeerSocket sys peer)
    (fuel quiet_timeouts discard_buffer_size : ℕ) (t : UdpTransport S)
    → 0 < quiet_timeouts
    → length (udp_pending p (clear_packet t)) + quiet_timeouts ≤ fuel
    → (t' : UdpTransport S) × (drain_until_quiet sys peer fuel quiet_timeouts discard_buffer_size t
        ≡ ok true t')
      × (udp_pending p t' ≡ [])
unfolding drain_until_quiet
drain_until_quiet-ends {sys = sys} {peer} p fuel quiet_timeouts discard_buffer_size t pos h =
    let size = if discard_buffer_size == 0 then 2048 else discard_buffer_size in
    let some_size : 0 < size = ground arith in
    let waits : (quiet_timeouts == 0) ≡ false = ground (arith, pos) in
    let (t', run, nothing) =
      drain_rounds-Drains p size quiet_timeouts some_size pos fuel 0 (clear_packet t) (inl refl)
        (omega arith) (omega (arith, h)) in
    (t', rw (drain_until_quiet, waits) run, nothing)
