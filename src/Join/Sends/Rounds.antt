-- ===== src/Join/Sends/Rounds.antt =====
-- The rounds of the client's two phases send the rows of a side in their order.

use fpga_postgresql_hash_joi.Base.{
  ℕ, zero, suc, ◌≤◌, ◌<◌, ◌≡◌, refl, sym, ◌∙◌, ◌⊎◌, inl, inr, Bool, true, not, ◌&&◌, none, some,
  List, [], ◌∷◌, ◌++◌, arith, ◌==◌, length, take,
}
use fpga_postgresql_hash_joi.Types.{
  rx_buf_tuples, MsgType, Phase, InputTuple, ResultPair, StatusPayload, inner_data, building,
}
use mathlib.Core.Path.{subst}
use fpga_postgresql_hash_joi.Host.Transport.{Transport, ok, pure, raise, zero_credit, no_progress}
use fpga_postgresql_hash_joi.Host.Outcome.{
  OnOk, OnOk-bind, OnOk-mono, OnOk-if, OnOk-Bool, Always-OnOk,
}
use fpga_postgresql_hash_joi.Host.Serializer.{serialize_batch}
use fpga_postgresql_hash_joi.Host.Client.{
  ClientConfig, AckWaitKind, FpgaClient, apply_cumulative_ack, spend_credit, collect_until_ack,
  send_counted, wait_build,
}
use fpga_postgresql_hash_joi.Host.Client.Run.{
  Sending, is_empty, is_drained, set_credit, take_credit, advance, send_batch, send_rounds,
  send_window, build_round, build_rounds,
}
use fpga_postgresql_hash_joi.Host.Client.Rounds.{send_rounds_step}
use fpga_postgresql_hash_joi.Join.Sends.{
  Records, Sent-batch, send_counted-sent, collect_until_ack-sent, Sent,
}

pub advance-left :
    {T : Type 0} (phase : Phase) (s : StatusPayload) (w : Sending) (c : FpgaClient T)
    → OnOk (advance phase s w c) (λ w' c'. (w'.left ≡ w.left) × (c' ≡ c))
unfolding advance
advance-left phase s w c =
    let a = apply_cumulative_ack w.inflight w.acked_rows s.rows_processed in
    OnOk-if (a.frames == 0 && not (is_empty a.inflight)) (raise (no_progress phase)) (pure _) c
      (λ w' c'. (w'.left ≡ w.left) × (c' ≡ c)) (λ e. tt) (λ e. (refl, refl))

pub drained-left : (w : Sending) → is_drained w ≡ true → w.left ≡ []
unfolding is_drained
drained-left w e = empty (ground (arith, e))
  where
    empty : is_empty w.left ≡ true → w.left ≡ []
    empty h = none_in w.left h
      where
        none_in : (l : List InputTuple) → is_empty l ≡ true → l ≡ []
        none_in [] h = refl
        none_in (x ∷ l) h = cc h

module _ {T : Type 0} {tr : Transport T} (r : Records tr) (cfg : ClientConfig)
    (waiting key_type : ℕ) (sizes : 0 < cfg.max_batch_tuples)
    (small : cfg.max_batch_tuples ≤ rx_buf_tuples) (type : MsgType) (rows : List InputTuple)
    (before : List ℕ) (cleanup : Bool) where
  -- The rows before those of the window are sent; the clean-up flag is as it was.
  abbrev pub SentTo : List InputTuple → FpgaClient T → Type 0
  SentTo left c = Sent r key_type type rows before left c × (c.cleanup_enabled ≡ cleanup)

  send_batch-SentTo :
      (batch : ℕ) (w : Sending) (c : FpgaClient T)
      → (0 < batch) × (batch ≤ cfg.max_batch_tuples) × (batch ≤ length w.left)
      → SentTo w.left c
      → OnOk (send_batch tr cfg waiting key_type type batch w c) (λ w' c'. SentTo w'.left c')
  unfolding send_batch take_credit
  send_batch-SentTo batch w c (pos, limited, few) (s, flag) =
      let c₁ : FpgaClient T = record c { credit = spend_credit c.credit batch } in
      OnOk-bind (send_counted tr (serialize_batch key_type type (take batch w.left) batch) type) _
        c₁
        (λ _ c'.
          (r.sent c'.transport
            ≡ r.sent c₁.transport ++ serialize_batch key_type type (take batch w.left) batch)
          × (c'.cleanup_enabled ≡ c₁.cleanup_enabled))
        (λ w' c'. SentTo w'.left c')
        (send_counted-sent r key_type (serialize_batch key_type type (take batch w.left) batch) type
          c₁)
        λ _ c' (e, same). (
          Sent-batch r key_type type rows before w.left batch c c' s pos (omega arith) few e,
          same ∙ flag,
        )

  pub send_rounds-SentTo :
      (n : ℕ) (w : Sending) (c : FpgaClient T)
      → SentTo w.left c
      → OnOk (send_rounds tr cfg waiting key_type n type w c) (λ w' c'. SentTo w'.left c')
  send_rounds-SentTo zero w c h = unfold send_rounds in h
  send_rounds-SentTo (suc n) w c h =
      send_rounds_step tr cfg waiting key_type sizes n type w c (λ w' c'. SentTo w'.left c')
        (λ e. h)
        λ batch bounds.
          OnOk-bind (send_batch tr cfg waiting key_type type batch w)
            (λ w'. send_rounds tr cfg waiting key_type n type w') c (λ w' c'. SentTo w'.left c')
            (λ w' c'. SentTo w'.left c') (send_batch-SentTo batch w c bounds h)
            (send_rounds-SentTo n)

  -- What is collected is not sent.
  pub collect-SentTo :
      (kind : AckWaitKind) (out : List ResultPair) (left : List InputTuple) (c : FpgaClient T)
      → SentTo left c
      → OnOk (collect_until_ack tr waiting kind out c) (λ _ c'. SentTo left c')
  collect-SentTo kind out left c (s, flag) =
      OnOk-mono (collect_until_ack tr waiting kind out c) _ (λ _ c'. SentTo left c')
        (λ _ c' (e, same). (
          record {
            batches = s.batches;
            frames = s.frames;
            split = s.split;
            sent_lem = e ∙ s.sent_lem;
          },
          same ∙ flag,
        ))
        (Always-OnOk (collect_until_ack tr waiting kind out c) _
          (collect_until_ack-sent r key_type waiting kind out c))

  pub credit-SentTo :
      (n : ℕ) (left : List InputTuple) (c : FpgaClient T)
      → SentTo left c
      → SentTo left (record c { credit = n })
  credit-SentTo n left c (s, flag) = (
    record { batches = s.batches; frames = s.frames; split = s.split; sent_lem = s.sent_lem },
    flag,
  )

  pub advance-SentTo :
      (phase : Phase) (s : StatusPayload) (w : Sending) (c : FpgaClient T)
      → SentTo w.left c
      → OnOk (advance phase s w c) (λ w' c'. SentTo w'.left c')
  advance-SentTo phase s w c h =
      OnOk-mono (advance phase s w c) _ (λ w' c'. SentTo w'.left c')
        (λ w' c' (e, same).
          subst (λ l. SentTo l c') (sym e) (subst (λ d. SentTo w.left d) (sym same) h))
        (advance-left phase s w c)

  build_round-SentTo :
      type ≡ inner_data
      → (w : Sending) (c : FpgaClient T) → SentTo w.left c
      → OnOk (build_round tr cfg waiting key_type w c) (λ w' c'. SentTo w'.left c')
  unfolding build_round send_window set_credit
  build_round-SentTo e w c h =
      OnOk-bind (send_rounds tr cfg waiting key_type (length w.left) inner_data w) _ c
        (λ w' c'. SentTo w'.left c') _
        (subst
          (λ m.
            OnOk (send_rounds tr cfg waiting key_type (length w.left) m w c)
              (λ w' c'. SentTo w'.left c'))
          e (send_rounds-SentTo (length w.left) w c h))
        λ w₁ c₁ h₁.
          OnOk-if (is_empty w₁.inflight) (raise (zero_credit building)) _ c₁ _ (λ e. tt)
            λ some_sent.
              OnOk-bind (collect_until_ack tr waiting wait_build []) _ c₁
                (λ _ c'. SentTo w₁.left c') _ (collect-SentTo wait_build [] w₁.left c₁ h₁)
                λ q c₂ h₂.
                  advance-SentTo building q.0 w₁ (record c₂ { credit = q.0.credit })
                    (credit-SentTo q.0.credit w₁.left c₂ h₂)

  -- The build phase ends with all rows sent.
  pub build_rounds-SentTo :
      type ≡ inner_data
      → (n : ℕ) (w : Sending) (c : FpgaClient T) → SentTo w.left c
      → OnOk (build_rounds tr cfg waiting key_type n w c) (λ q c'. (q ≡ none) ⊎ SentTo [] c')
  unfolding build_rounds
  build_rounds-SentTo e zero w c h = inl refl
  build_rounds-SentTo e (suc n) w c h =
      OnOk-Bool (is_drained w) (ok (some tt) c) _ (λ q c'. (q ≡ none) ⊎ SentTo [] c')
        (λ all. inr (subst (λ l. SentTo l c) (drained-left w all) h))
        λ more.
          OnOk-bind (build_round tr cfg waiting key_type w)
            (λ w'. build_rounds tr cfg waiting key_type n w') c (λ w' c'. SentTo w'.left c')
            (λ q c'. (q ≡ none) ⊎ SentTo [] c') (build_round-SentTo e w c h)
            (build_rounds-SentTo e n)
