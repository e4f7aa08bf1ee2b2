-- ===== src/Join/Heard.antt =====
-- What the client hears: the frames of the board, in their order, up to each acknowledgement.

use fpga_postgresql_hash_joi.Base.{
  ℕ, zero, suc, ◌≡◌, refl, sym, ap, ◌∙◌, ◌⊎◌, inl, inr, Option, none, some, List, [], ◌∷◌, ◌++◌,
  arith, if◌then◌else◌, length, drop, All,
}
use fpga_postgresql_hash_joi.Types.{MsgType, Phase, ResultPair, StatusPayload, ack, status}
use mathlib.Core.Path.{subst}
use mathlib.Core.List.{append_assoc, append-nil}
use fpga_postgresql_hash_joi.Wire.{tx_status_frame}
use fpga_postgresql_hash_joi.Host.Transport.{
  Transport, Delivers, Act, Result, ok, throw, pure, recv_exact, ◌>>=◌,
}
use fpga_postgresql_hash_joi.Host.Outcome.{OnOk, OnOk-mono, OnOk-test}
use fpga_postgresql_hash_joi.Host.Decoder.{Decoder, recv_frame, no_frame, ack_frame, status_frame}
use fpga_postgresql_hash_joi.Host.Metrics.{count_received}
use fpga_postgresql_hash_joi.Host.Client.{
  AckWaitKind, FpgaClient, is_current, on_frame, collect_until_ack,
}
use fpga_postgresql_hash_joi.RoundTrip.Receive.{Gets}
use fpga_postgresql_hash_joi.RoundTrip.FromBoard.{
  bytes, status_payload, IsStatus, recv_frame-ack, recv_frame-status, bytes-append,
}
use fpga_postgresql_hash_joi.Join.Output.{
  BoardFrame, frame_pairs, tx_frames, pairs_of, pairs_sent, status_sent, debug_sent, timing_sent,
  frame_tx,
}
use fpga_postgresql_hash_joi.Join.Collect.{IsReadable, collect_round}
pub mod Rounds
pub mod Phases
pub mod Passes

-- A transport on which the board's bytes have arrived. A send takes none of them away.
pub record Hears {T : Type 0} (tr : Transport T) : Type 0 where
  pub delivers : Delivers tr
  pub quiet :
      (bs : List ℕ) (t : T) → OnOk (tr.send bs t) (λ _ t'. delivers.pending t' ≡ delivers.pending t)

-- A frame of the board with values of their widths, which is not an ERROR.
abbrev pub IsHeard : BoardFrame → Type 0
IsHeard (status_sent type phase processed matched credit id) =
    ((type ≡ ack) ⊎ (type ≡ status)) × IsStatus processed matched credit id
IsHeard (pairs_sent buf n) = IsReadable (pairs_sent buf n)
IsHeard (debug_sent level code value) = IsReadable (debug_sent level code value)
IsHeard (timing_sent summary) = IsReadable (timing_sent summary)

abbrev pub status_of : BoardFrame → Option StatusPayload
status_of (status_sent type phase processed matched credit id) =
    some (status_payload phase processed matched credit id)
status_of _ = none

-- One of the frames is the acknowledgement.
pub record Says (s : StatusPayload) (read : List BoardFrame) : Type 0 where
  pub earlier : List BoardFrame
  pub saying : BoardFrame
  pub later : List BoardFrame
  pub read_lem : read ≡ earlier ++ (saying ∷ later)
  pub status_lem : status_of saying ≡ some s

pub pairs_of-append : (fs gs : List BoardFrame) → pairs_of (fs ++ gs) ≡ pairs_of fs ++ pairs_of gs
pairs_of-append [] gs = refl
pairs_of-append (f ∷ fs) gs = rw (pairs_of-append fs gs, append_assoc) refl

pub All-IsHeard_rest : (fs gs : List BoardFrame) → All IsHeard (fs ++ gs) → All IsHeard gs
All-IsHeard_rest [] gs h = h
All-IsHeard_rest (f ∷ fs) gs (h, hs) = All-IsHeard_rest fs gs hs

module _ {T : Type 0} (tr : Transport T) (d : Delivers tr) where
  pub recv_frame-silence :
      (dec : Decoder) (t : T)
      → d.pending t ≡ []
      → Gets tr d (no_frame, dec) [] (recv_frame tr dec t)
  unfolding recv_frame
  recv_frame-silence dec t p =
      let q = d.receives 1 t in
      let none_there : q.count ≡ 0 = omega (arith, q.there, ap length p) in
      (
        q.after,
        rw (q.returns, none_there, ◌>>=◌) refl,
        q.left ∙ ap (λ n. drop n (d.pending t)) none_there ∙ p,
      )

  -- The frames that are read, with their pairs, and those that are left.
  pub record Heard (fs : List BoardFrame) (out : List ResultPair) (s : StatusPayload)
      (out' : List ResultPair) (c' : FpgaClient T) : Type 0 where
    pub read : List BoardFrame
    pub rest : List BoardFrame
    pub frames_lem : fs ≡ read ++ rest
    pub pairs_lem : out' ≡ out ++ pairs_of read
    pub says : Says s read
    pub left : d.pending c'.transport ≡ bytes (tx_frames rest)

  -- A frame before those.
  Heard-cons :
      (f : BoardFrame) (fs : List BoardFrame) (out : List ResultPair) (s : StatusPayload)
      (out' : List ResultPair) (c' : FpgaClient T)
      → Heard fs (out ++ frame_pairs f) s out' c'
      → Heard (f ∷ fs) out s out' c'
  Heard-cons f fs out s out' c' h = record {
    read = f ∷ h.read;
    rest = h.rest;
    frames_lem = ap (λ r. f ∷ r) h.frames_lem;
    pairs_lem = h.pairs_lem ∙ append_assoc out (frame_pairs f) (pairs_of h.read);
    says = record {
      earlier = f ∷ h.says.earlier;
      saying = h.says.saying;
      later = h.says.later;
      read_lem = ap (λ r. f ∷ r) h.says.read_lem;
      status_lem = h.says.status_lem;
    };
    left = h.left;
  }

  -- An acknowledgement is returned, or passed over if it is of another session.
  pub status_round :
      (n : ℕ) (kind : AckWaitKind) (out : List ResultPair) (c : FpgaClient T) (type : MsgType)
      (phase : Phase) (processed matched credit id : ℕ) (more : List ℕ)
      → ((type ≡ ack) ⊎ (type ≡ status))
      → IsStatus processed matched credit id
      → d.pending c.transport
        ≡ bytes (tx_status_frame type phase processed matched credit id) ++ more
      → (c' : FpgaClient T) × (d.pending c'.transport ≡ more)
        × (collect_until_ack tr (suc n) kind out c ≡ (
            if is_current tr kind (status_payload phase processed matched credit id) c'
            then ok (status_payload phase processed matched credit id, out) c'
            else collect_until_ack tr n kind out c'))
  unfolding collect_until_ack on_frame
  status_round n kind out c type phase processed matched credit id more (inl e) st p =
      let s = status_payload phase processed matched credit id in
      let (t, run, left) =
        recv_frame-ack tr d c.decoder c.transport more phase processed matched credit id st
          (p ∙ ap (λ m. bytes (tx_status_frame m phase processed matched credit id) ++ more) e) in
      (
        record c { transport = t; metrics = count_received (ack_frame s) c.decoder c.metrics },
        left,
        rw (run, collect_until_ack) refl,
      )
  status_round n kind out c type phase processed matched credit id more (inr e) st p =
      let s = status_payload phase processed matched credit id in
      let (t, run, left) =
        recv_frame-status tr d c.decoder c.transport more phase processed matched credit id st
          (p ∙ ap (λ m. bytes (tx_status_frame m phase processed matched credit id) ++ more) e) in
      (
        record c { transport = t; metrics = count_received (status_frame s) c.decoder c.metrics },
        left,
        rw (run, collect_until_ack) refl,
      )

  -- Whatever frames have arrived: a wait that returns has read some of them, up to the
  -- acknowledgement that it returns, and has added their pairs in their order.
  pub collect_until_ack-Heard :
      (n : ℕ) (kind : AckWaitKind) (out : List ResultPair) (fs : List BoardFrame) (c : FpgaClient T)
      → All IsHeard fs
      → d.pending c.transport ≡ bytes (tx_frames fs)
      → OnOk (collect_until_ack tr n kind out c) (λ r c'. Heard fs out r.0 r.1 c')
  collect_until_ack-Heard zero kind out fs c h p = unfold collect_until_ack in tt
  collect_until_ack-Heard (suc n) kind out [] c h p =
      let (t, run, left) = recv_frame-silence c.decoder c.transport p in
      let again : collect_until_ack tr (suc n) kind out c
          ≡ collect_until_ack tr n kind out
              (record c { transport = t; metrics = count_received no_frame c.decoder c.metrics }) =
        unfold collect_until_ack on_frame in rw (run, collect_until_ack) refl in
      subst (λ q. OnOk q (λ r c'. Heard [] out r.0 r.1 c')) (sym again)
        (collect_until_ack-Heard n kind out [] _ tt left)
  collect_until_ack-Heard (suc n) kind out (status_sent type phase processed matched credit id ∷ fs)
        c ((k, st), hs) p =
      let f = status_sent type phase processed matched credit id in
      let s = status_payload phase processed matched credit id in
      let (c₁, left, run) =
        status_round n kind out c type phase processed matched credit id (bytes (tx_frames fs)) k st
          (p ∙ bytes-append (frame_tx f) (tx_frames fs)) in
      subst (λ q. OnOk q (λ r c'. Heard (f ∷ fs) out r.0 r.1 c')) (sym run)
        (OnOk-test (is_current tr kind s c₁) (ok (s, out) c₁) (collect_until_ack tr n kind out c₁)
          (λ r c'. Heard (f ∷ fs) out r.0 r.1 c')
          (λ current. record {
            read = f ∷ [];
            rest = fs;
            frames_lem = refl;
            pairs_lem = sym (append-nil out);
            says = record {
              earlier = [];
              saying = f;
              later = [];
              read_lem = refl;
              status_lem = refl;
            };
            left = left;
          })
          (λ stale.
            OnOk-mono (collect_until_ack tr n kind out c₁) _ _
              (λ r c' g.
                Heard-cons f fs out r.0 r.1 c'
                  (subst (λ o. Heard fs o r.0 r.1 c') (sym (append-nil out)) g))
              (collect_until_ack-Heard n kind out fs c₁ hs left)))
  collect_until_ack-Heard (suc n) kind out (f ∷ fs) c (h, hs) p =
      let (c₁, run, left, _, _) =
        collect_round tr d n kind out c f (bytes (tx_frames fs)) h
          (p ∙ bytes-append (frame_tx f) (tx_frames fs)) in
      subst (λ q. OnOk q (λ r c'. Heard (f ∷ fs) out r.0 r.1 c')) (sym run)
        (OnOk-mono (collect_until_ack tr n kind (out ++ frame_pairs f) c₁) _ _
          (λ r c' g. Heard-cons f fs out r.0 r.1 c' g)
          (collect_until_ack-Heard n kind (out ++ frame_pairs f) fs c₁ hs left))
