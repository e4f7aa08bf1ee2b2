-- ===== src/Join/Heard/Passes.antt =====
-- host/src/fpga_client.cpp: a wait for an acknowledgement takes whole frames only.

use mathlib.Core.Path.{subst}
use mathlib.Core.List.{append_assoc}
use fpga_postgresql_hash_joi.Base.{ℕ, zero, suc, ◌≡◌, refl, sym, ap, ◌∙◌, List, [], ◌∷◌, ◌++◌, All}
use fpga_postgresql_hash_joi.Types.{ResultPair}
use fpga_postgresql_hash_joi.Host.Transport.{Transport, ok}
use fpga_postgresql_hash_joi.Host.Outcome.{Always, Always-mono, Always-if}
use fpga_postgresql_hash_joi.Host.Metrics.{count_received}
use fpga_postgresql_hash_joi.Host.Decoder.{no_frame}
use fpga_postgresql_hash_joi.Host.Client.{
  AckWaitKind, FpgaClient, is_current, on_frame, collect_until_ack,
}
use fpga_postgresql_hash_joi.RoundTrip.FromBoard.{bytes, bytes-append, status_payload}
use fpga_postgresql_hash_joi.Join.Output.{BoardFrame, frame_tx, frame_pairs, tx_frames, status_sent}
use fpga_postgresql_hash_joi.Join.Collect.{collect_round}
use fpga_postgresql_hash_joi.Join.Heard.{Hears, IsHeard, recv_frame-silence, status_round}
use fpga_postgresql_hash_joi.Join.Heard.Rounds.{Waits}

module _ {T : Type 0} {tr : Transport T} (h : Hears tr) where
  -- Some of the frames are read, and the others wait.
  abbrev pub ReadsOn : List BoardFrame → FpgaClient T → Type 0
  ReadsOn fs c' =
      (gone : List BoardFrame) × (rest : List BoardFrame) × (fs ≡ gone ++ rest) × Waits h rest c'

  ReadsOn-cons :
      (f : BoardFrame) (fs : List BoardFrame) (c' : FpgaClient T)
      → ReadsOn fs c'
      → ReadsOn (f ∷ fs) c'
  ReadsOn-cons f fs c' (gone, rest, e, k) = (f ∷ gone, rest, ap (λ r. f ∷ r) e, k)

  pub ReadsOn-trans :
      (fs gone rest : List BoardFrame) (c' : FpgaClient T)
      → fs ≡ gone ++ rest
      → ReadsOn rest c'
      → ReadsOn fs c'
  ReadsOn-trans fs gone rest c' e (gone', rest', e', k) =
      (gone ++ gone', rest', e ∙ ap (λ r. gone ++ r) e' ∙ sym (append_assoc gone gone' rest'), k)

  -- Whether the wait returns or throws, it has read some of the frames, each as a whole.
  pub collect_until_ack-ReadsOn :
      (n : ℕ) (kind : AckWaitKind) (out : List ResultPair) (fs : List BoardFrame) (c : FpgaClient T)
      → All IsHeard fs
      → Waits h fs c
      → Always (collect_until_ack tr n kind out c) (ReadsOn fs)
  collect_until_ack-ReadsOn zero kind out fs c heard p =
      unfold collect_until_ack in ([], fs, refl, p)
  collect_until_ack-ReadsOn (suc n) kind out [] c heard p =
      let (t, run, left) = recv_frame-silence tr h.delivers c.decoder c.transport p in
      let again : collect_until_ack tr (suc n) kind out c
          ≡ collect_until_ack tr n kind out
              (record c { transport = t; metrics = count_received no_frame c.decoder c.metrics }) =
        unfold collect_until_ack on_frame in rw (run, collect_until_ack) refl in
      subst (λ q. Always q (ReadsOn [])) (sym again)
        (collect_until_ack-ReadsOn n kind out [] _ tt left)
  collect_until_ack-ReadsOn (suc n) kind out
        (status_sent type phase processed matched credit id ∷ fs) c ((k, st), hs) p =
      let f = status_sent type phase processed matched credit id in
      let s = status_payload phase processed matched credit id in
      let (c₁, left, run) =
        status_round tr h.delivers n kind out c type phase processed matched credit id
          (bytes (tx_frames fs)) k st (p ∙ bytes-append (frame_tx f) (tx_frames fs)) in
      subst (λ q. Always q (ReadsOn (f ∷ fs))) (sym run)
        (Always-if (is_current tr kind s c₁) (ok (s, out) c₁) (collect_until_ack tr n kind out c₁)
          (ReadsOn (f ∷ fs)) (λ current. (f ∷ [], fs, refl, left))
          λ stale.
            Always-mono (collect_until_ack tr n kind out c₁) (ReadsOn fs) _ (ReadsOn-cons f fs)
              (collect_until_ack-ReadsOn n kind out fs c₁ hs left))
  collect_until_ack-ReadsOn (suc n) kind out (f ∷ fs) c (here, hs) p =
      let (c₁, run, left, _, _) =
        collect_round tr h.delivers n kind out c f (bytes (tx_frames fs)) here
          (p ∙ bytes-append (frame_tx f) (tx_frames fs)) in
      subst (λ q. Always q (ReadsOn (f ∷ fs))) (sym run)
        (Always-mono (collect_until_ack tr n kind (out ++ frame_pairs f) c₁) (ReadsOn fs) _
          (ReadsOn-cons f fs)
          (collect_until_ack-ReadsOn n kind (out ++ frame_pairs f) fs c₁ hs left))
