-- ===== src/Host/Software/Mute.antt =====
-- The answers of the software kernel before the outer rows: none acknowledges a row.
use fpga_postgresql_hash_joi.Types.{
  rx_credit_tuples, msg_byte, Phase, StatusPayload, configure, inner_data, outer_data, ack, reset,
  idle, building, probing, done,
}
use fpga_postgresql_hash_joi.Base.Words.{u8}
use fpga_postgresql_hash_joi.Base.{
  ℕ, zero, suc, ◌^◌, ◌<◌, ◌≡◌, refl, sym, ap, ◌∙◌, inl, true, false, none, some, List, [], ◌∷◌,
  ◌++◌, arith, ◌==◌, drop, All, concat, concat-append, All-append, if_cases,
}
use mathlib.Core.List.{append_assoc, append-nil}
use fpga_postgresql_hash_joi.Wire.{tx_status_frame}
use fpga_postgresql_hash_joi.Host.Decoder.{byte_at, read_u16, read_u32}
use fpga_postgresql_hash_joi.Host.Software.{
  SoftwareKernel, push_frame, ack_bytes, push_ack, on_configure, store_rows, on_inner, on_reset,
  handle_frame,
}
use fpga_postgresql_hash_joi.Host.Software.Answers.{software_pending}
use fpga_postgresql_hash_joi.RoundTrip.FromBoard.{bytes, bytes-append, IsStatus}
use fpga_postgresql_hash_joi.Join.Output.{
  BoardFrame, frame_tx, tx_frames, tx_frames-append, pairs_sent, status_sent, debug_sent,
  timing_sent,
}
use fpga_postgresql_hash_joi.Join.Heard.{IsHeard, status_of}

-- An acknowledgement of no row.
abbrev pub IsMute : BoardFrame → Type 0
IsMute (status_sent type phase processed matched credit id) =
    (type ≡ ack) × (processed ≡ 0) × IsStatus processed matched credit id
IsMute _ = ⊥

-- All answers that are not read yet are such acknowledgements.
abbrev pub IsMuted : SoftwareKernel → Type 0
IsMuted k = (fs : List BoardFrame) × All IsMute fs × (software_pending k ≡ bytes (tx_frames fs))

ack_bytes_eq :
    (phase : Phase) (id credit processed matched : ℕ)
    → ack_bytes phase id credit processed matched
      ≡ bytes (tx_status_frame ack phase processed matched credit (u8 id))
unfolding ack_bytes tx_status_frame
ack_bytes_eq idle id credit processed matched = ground arith
ack_bytes_eq building id credit processed matched = ground arith
ack_bytes_eq probing id credit processed matched = ground arith
ack_bytes_eq done id credit processed matched = ground arith

push_ack-IsMuted :
    (phase : Phase) (credit : ℕ) (k : SoftwareKernel)
    → credit < 2 ^ 16
    → IsMuted k
    → IsMuted (push_ack phase credit 0 0 k)
unfolding push_ack push_frame
push_ack-IsMuted phase credit k lt (fs, mute, p) =
    let f = status_sent ack phase 0 0 credit (u8 k.session_id) in
    let new = ack_bytes phase k.session_id credit 0 0 in
    (
      fs ++ (f ∷ []),
      All-append IsMute fs (f ∷ []) mute
          ((refl, refl, (omega arith, omega arith, lt, omega arith)), tt),
      ap (λ q. k.out_buf ++ q) (concat-append k.resp_queue (new ∷ []))
          ∙ sym (append_assoc k.out_buf (concat k.resp_queue) (new ++ []))
          ∙ ap (λ q. q ++ (new ++ [])) p
          ∙ ap (λ q. bytes (tx_frames fs) ++ q)
              (append-nil new
                ∙ ack_bytes_eq phase k.session_id credit 0 0
                ∙ ap bytes (sym (append-nil (frame_tx f))))
          ∙ sym (bytes-append (tx_frames fs) (tx_frames (f ∷ [])))
          ∙ ap bytes (sym (tx_frames-append fs (f ∷ []))),
    )

store_rows-IsMuted :
    (p : List ℕ) (n i : ℕ) (k : SoftwareKernel) → IsMuted k → IsMuted (store_rows p n i k)
unfolding store_rows
store_rows-IsMuted p zero i k h = h
store_rows-IsMuted p (suc n) i k h = store_rows-IsMuted p n _ _ h

on_configure-IsMuted : (p : List ℕ) (k : SoftwareKernel) → IsMuted k → IsMuted (on_configure p k)
unfolding on_configure
on_configure-IsMuted p k h =
    let k' : SoftwareKernel = record k {
      key_type = byte_at p 1;
      n_matched = 0;
      n_processed = 0;
      outer_total = read_u32 p 8;
      session_id = byte_at p 12;
      ht = λ key. none;
    } in
    push_ack-IsMuted building rx_credit_tuples k' (omega arith) h

on_inner-IsMuted : (n : ℕ) (p : List ℕ) (k : SoftwareKernel) → IsMuted k → IsMuted (on_inner n p k)
unfolding on_inner
on_inner-IsMuted n p k h =
    push_ack-IsMuted building rx_credit_tuples (store_rows p n 0 k) (omega arith)
      (store_rows-IsMuted p n 0 k h)

on_reset-IsMuted : (k : SoftwareKernel) → IsMuted (on_reset true k)
unfolding on_reset
on_reset-IsMuted k =
    let k' : SoftwareKernel = record k {
      ht = λ key. none;
      resp_queue = [];
      out_buf = [];
      n_matched = 0;
      n_processed = 0;
      outer_total = 0;
      session_id = 0;
    } in
    push_ack-IsMuted idle 0 k' (omega arith) ([], tt, refl)

-- No frame but one of outer rows is answered by another acknowledgement.
pub handle_frame-IsMuted :
    (frame : List ℕ) (k : SoftwareKernel)
    → (byte_at frame 0 == msg_byte outer_data) ≡ false
    → IsMuted k
    → IsMuted (handle_frame frame k)
unfolding handle_frame
handle_frame-IsMuted frame k other h =
    let p = drop 3 frame in
    if_cases IsMuted (byte_at frame 0 == msg_byte configure) _ _ (λ _. on_configure-IsMuted p k h)
      λ _.
        if_cases IsMuted (byte_at frame 0 == msg_byte inner_data) _ _
          (λ _. on_inner-IsMuted (read_u16 frame 1) p k h)
          λ _.
            if_cases IsMuted (byte_at frame 0 == msg_byte outer_data) _ _
              (λ e. absurd (cc (e, other)))
              λ _.
                if_cases IsMuted (byte_at frame 0 == msg_byte reset) _ k (λ _. on_reset-IsMuted k)
                  (λ _. h)

pub IsMute-IsHeard : (fs : List BoardFrame) → All IsMute fs → All IsHeard fs
IsMute-IsHeard [] h = tt
IsMute-IsHeard (status_sent type phase processed matched credit id ∷ fs) ((k, _, st), hs) =
    ((inl k, st), IsMute-IsHeard fs hs)
IsMute-IsHeard (pairs_sent buf n ∷ fs) (h, hs) = absurd h
IsMute-IsHeard (debug_sent level code value ∷ fs) (h, hs) = absurd h
IsMute-IsHeard (timing_sent summary ∷ fs) (h, hs) = absurd h

pub IsMute-rows :
    (f : BoardFrame) (s : StatusPayload) → IsMute f → status_of f ≡ some s → s.rows_processed ≡ 0
IsMute-rows (status_sent type phase processed matched credit id) s (_, z, _) e =
    ground (arith, z, e)
IsMute-rows (pairs_sent buf n) s h e = absurd h
IsMute-rows (debug_sent level code value) s h e = absurd h
IsMute-rows (timing_sent summary) s h e = absurd h
