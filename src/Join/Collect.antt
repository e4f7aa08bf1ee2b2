-- ===== src/Join/Collect.antt =====
-- The host's client collects what the kernel sends, up to an acknowledgement.
use fpga_postgresql_hash_joi.Types.{tx_buf_size, Phase, ResultPair, StatusPayload, ack}
use fpga_postgresql_hash_joi.Base.Words.{add32}
use fpga_postgresql_hash_joi.Base.{
  ℕ, zero, suc, ◌^◌, ◌≤◌, ◌<◌, ◌≡◌, refl, sym, ap, ◌∙◌, ◌≢◌, true, List, [], ◌∷◌, ◌++◌, arith,
  ==_refl, length, All,
}
use mathlib.Core.List.{append-nil, append_assoc}
use fpga_postgresql_hash_joi.Wire.{tx_status_frame}
use fpga_postgresql_hash_joi.Host.Transport.{Result, Transport, Delivers, ok}
use fpga_postgresql_hash_joi.Timing.{TimingSummary}
use fpga_postgresql_hash_joi.Host.Decoder.{
  Decoder, ack_frame, debug_frame, result_frame, timing_frame,
}
use fpga_postgresql_hash_joi.Host.Metrics.{count_received}
use fpga_postgresql_hash_joi.Host.Client.{
  FpgaClient, collect_until_ack, AckWaitKind, is_current, wait_config, wait_build, wait_probe,
  wait_final_status, wait_reset, on_frame,
}
use fpga_postgresql_hash_joi.RoundTrip.FromBoard.{
  bytes, recv_frame-debug, bytes-append, status_payload, IsStatus, recv_frame-ack,
}
use fpga_postgresql_hash_joi.RoundTrip.Results.{IsPair, buffered, recv_frame-results}
use fpga_postgresql_hash_joi.RoundTrip.Timing.{IsTiming, recv_frame-timing}
use fpga_postgresql_hash_joi.Join.Output.{
  BoardFrame, frame_tx, frame_pairs, pairs_sent, status_sent, debug_sent, timing_sent, tx_frames,
  pairs_of,
}

-- A frame before the acknowledgement, with its values as their widths hold them.
abbrev pub IsReadable : BoardFrame → Type 0
IsReadable (pairs_sent buf n) = (n ≢ 0) × (n ≤ tx_buf_size) × ((j : ℕ) → j < n → IsPair (buf j))
IsReadable (debug_sent level code value) = (level < 2 ^ 8) × (code < 2 ^ 16) × (value < 2 ^ 32)
IsReadable (timing_sent summary) = IsTiming summary
IsReadable (status_sent type phase processed matched credit id) = ⊥

-- The decoder that has read a TIMING frame.
abbrev timed : TimingSummary → Decoder → Decoder
timed summary d = record {
  has_timing = true;
  timing_frames = add32 d.timing_frames 1;
  timing = summary;
}

module _ {T : Type 0} (tr : Transport T) (d : Delivers tr) where
  -- The call returns the acknowledgement and the pairs, and leaves the bytes `rest`.
  abbrev pub Collected :
      FpgaClient T
      → StatusPayload
      → List ResultPair
      → List ℕ
      → Result (FpgaClient T) (StatusPayload × List ResultPair)
      → Type 0
  Collected c s pairs rest r =
      (c' : FpgaClient T) × (r ≡ ok (s, pairs) c')
      × (d.pending c'.transport ≡ rest)
      × (c'.active_session_id ≡ c.active_session_id)
      × (c'.credit ≡ c.credit)

  -- The round that reads one of the frames.
  pub collect_round :
      (n : ℕ) (kind : AckWaitKind) (out : List ResultPair) (c : FpgaClient T) (f : BoardFrame)
      (more : List ℕ)
      → IsReadable f
      → d.pending c.transport ≡ bytes (frame_tx f) ++ more
      → (c' : FpgaClient T) × (collect_until_ack tr (suc n) kind out c
          ≡ collect_until_ack tr n kind (out ++ frame_pairs f) c')
        × (d.pending c'.transport ≡ more)
        × (c'.active_session_id ≡ c.active_session_id)
        × (c'.credit ≡ c.credit)
  unfolding collect_until_ack on_frame
  collect_round n kind out c (pairs_sent buf m) more (some_pairs, few, h) p =
      let (t, run, left) =
        recv_frame-results tr d c.decoder c.transport more buf m some_pairs few h p in
      (
        record c {
          transport = t;
          metrics = count_received (result_frame (buffered buf m 0)) c.decoder c.metrics;
        },
        rw (run, collect_until_ack) refl,
        left,
        refl,
        refl,
      )
  collect_round n kind out c (debug_sent level code value) more (h, i, j) p =
      let (t, run, left) =
        recv_frame-debug tr d c.decoder c.transport more level code value h i j p in
      (
        record c {
          transport = t;
          metrics = count_received (debug_frame level code value) c.decoder c.metrics;
        },
        rw (run, append-nil out, collect_until_ack) refl,
        left,
        refl,
        refl,
      )
  collect_round n kind out c (timing_sent summary) more h p =
      let (t, run, left) = recv_frame-timing tr d c.decoder c.transport more summary h p in
      (
        record c {
          transport = t;
          decoder = timed summary c.decoder;
          metrics = count_received timing_frame (timed summary c.decoder) c.metrics;
        },
        rw (run, append-nil out, collect_until_ack) refl,
        left,
        refl,
        refl,
      )
  collect_round n kind out c (status_sent type phase processed matched credit id) more h p =
      absurd h

  is_current-same :
      (kind : AckWaitKind) (s : StatusPayload) (c : FpgaClient T)
      → s.session_id ≡ c.active_session_id
      → is_current tr kind s c ≡ true
  unfolding is_current
  is_current-same wait_config s c e = rw (e, ==_refl c.active_session_id) refl
  is_current-same wait_build s c e = rw (e, ==_refl c.active_session_id) refl
  is_current-same wait_probe s c e = rw (e, ==_refl c.active_session_id) refl
  is_current-same wait_final_status s c e = rw (e, ==_refl c.active_session_id) refl
  is_current-same wait_reset s c e = refl

  -- Waiting for an acknowledgement, over any transport on which the kernel's frames have arrived:
  -- it returns the values of the first ACK of its session, and the pairs of all RESULT frames
  -- before it, in their order, behind those it had; what follows the ACK stays unread. The frames
  -- before it are RESULT, DEBUG and TIMING frames with values of their widths, and there are more
  -- rounds than such frames.
  pub collect_until_ack-Collected :
      (frames : List BoardFrame) (n : ℕ) (kind : AckWaitKind) (out : List ResultPair)
      (c : FpgaClient T) (phase : Phase) (processed matched credit id : ℕ) (rest : List ℕ)
      → All IsReadable frames
      → length frames < n
      → IsStatus processed matched credit id
      → id ≡ c.active_session_id
      → d.pending c.transport
        ≡ bytes (tx_frames frames)
          ++ (bytes (tx_status_frame ack phase processed matched credit id) ++ rest)
      → Collected c
          (status_payload phase processed matched credit id)
          (out ++ pairs_of frames)
          rest
          (collect_until_ack tr n kind out c)
  collect_until_ack-Collected frames zero kind out c phase processed matched credit id rest h enough
        st same p =
      absurd (omega arith)
  collect_until_ack-Collected [] (suc n) kind out c phase processed matched credit id rest h enough
        st same p =
      let s = status_payload phase processed matched credit id in
      let (t, run, left) =
        recv_frame-ack tr d c.decoder c.transport rest phase processed matched credit id st p in
      let c' : FpgaClient T = record c {
        transport = t;
        metrics = count_received (ack_frame s) c.decoder c.metrics;
      } in
      (
        c',
        unfold collect_until_ack on_frame in
            rw (run, is_current-same kind s c' same, append-nil out, collect_until_ack) refl,
        left,
        refl,
        refl,
      )
  collect_until_ack-Collected (f ∷ frames) (suc n) kind out c phase processed matched credit id rest
        (h, hs) enough st same p =
      let (c₁, run₁, left₁, same₁, credit₁) = collect_round n kind out c f _ h (
        p
        ∙ ap (λ bs. bs ++ (bytes (tx_status_frame ack phase processed matched credit id) ++ rest))
            (bytes-append (frame_tx f) (tx_frames frames))
        ∙ append_assoc (bytes (frame_tx f)) (bytes (tx_frames frames)) _) in
      let (c₂, run₂, left₂, same₂, credit₂) =
        collect_until_ack-Collected frames n kind (out ++ frame_pairs f) c₁ phase processed matched
          credit id rest hs (omega arith) st (same ∙ sym same₁) left₁ in
      (
        c₂,
        run₁
            ∙ run₂
            ∙ ap (λ ps. ok (status_payload phase processed matched credit id, ps) c₂)
                (append_assoc out (frame_pairs f) (pairs_of frames)),
        left₂,
        same₂ ∙ same₁,
        credit₂ ∙ credit₁,
      )
