-- ===== src/Join/Sends/Probe.antt =====
-- The probe rounds of the client send the outer rows in their order, up to the board's last word.

use fpga_postgresql_hash_joi.Base.{
  ℕ, zero, suc, ◌≤◌, ◌<◌, ◌≡◌, refl, ◌⊎◌, inl, inr, Bool, true, ◌||◌, none, some, List, [], arith,
  ◌==◌, Bool-cases, length,
}
use fpga_postgresql_hash_joi.Types.{
  rx_buf_tuples, phase_byte, InputTuple, ResultPair, StatusPayload, outer_data, probing, done,
}
use fpga_postgresql_hash_joi.Host.Transport.{Transport, ok, raise, zero_credit}
use fpga_postgresql_hash_joi.Host.Outcome.{OnOk, OnOk-bind, OnOk-if, OnOk-Bool}
use fpga_postgresql_hash_joi.Host.Client.{ClientConfig, FpgaClient, collect_until_ack, wait_probe}
use fpga_postgresql_hash_joi.Host.Client.Run.{
  Sending, Probing, is_empty, is_drained, set_credit, advance, send_rounds, send_window,
  judge_probe_ack, probe_round, probe_rounds,
}
use fpga_postgresql_hash_joi.Join.Sends.{Records}
use fpga_postgresql_hash_joi.Join.Sends.Rounds.{
  drained-left, SentTo, send_rounds-SentTo, collect-SentTo, credit-SentTo, advance-SentTo,
}

module _ {T : Type 0} {tr : Transport T} (r : Records tr) (cfg : ClientConfig)
    (waiting key_type : ℕ) (sizes : 0 < cfg.max_batch_tuples)
    (small : cfg.max_batch_tuples ≤ rx_buf_tuples) (rows : List InputTuple) (before : List ℕ)
    (cleanup : Bool) where
  abbrev OuterTo : List InputTuple → FpgaClient T → Type 0
  OuterTo = SentTo r cfg waiting key_type sizes small outer_data rows before cleanup

  -- The rows of the window are sent; the rounds stop only at the word of the board.
  abbrev pub ProbeSent : Probing → FpgaClient T → Type 0
  ProbeSent p c =
      OuterTo p.sending.left c × (p.reached_done ≡ true → p.last_ack.phase ≡ phase_byte done)

  judge_probe_ack-ProbeSent :
      (s : StatusPayload) (results : List ResultPair) (w : Sending) (c : FpgaClient T)
      → OuterTo w.left c
      → OnOk (judge_probe_ack tr cfg waiting key_type s results w c) ProbeSent
  unfolding judge_probe_ack
  judge_probe_ack-ProbeSent s results w c h =
      OnOk-if (s.phase == phase_byte done) _ _ c ProbeSent (λ e. (h, λ _. ground (arith, e)))
        λ e.
          OnOk-bind (advance probing s w) _ c (λ w' c'. OuterTo w'.left c') ProbeSent
            (advance-SentTo r cfg waiting key_type sizes small outer_data rows before cleanup
              probing s w c h)
            λ w' c' h'. (h', λ no_end. absurd (cc no_end))

  probe_round-ProbeSent :
      (p : Probing) (c : FpgaClient T)
      → ProbeSent p c
      → OnOk (probe_round tr cfg waiting key_type p c) ProbeSent
  unfolding probe_round send_window set_credit
  probe_round-ProbeSent p c h =
      OnOk-bind (send_rounds tr cfg waiting key_type (length p.sending.left) outer_data p.sending) _
        c (λ w' c'. OuterTo w'.left c') ProbeSent
        (send_rounds-SentTo r cfg waiting key_type sizes small outer_data rows before cleanup
          (length p.sending.left) p.sending c h.0)
        λ w₁ c₁ h₁.
          OnOk-if (is_empty w₁.inflight) (raise (zero_credit probing)) _ c₁ ProbeSent (λ e. tt)
            λ some_sent.
              OnOk-bind (collect_until_ack tr waiting wait_probe p.results) _ c₁
                (λ _ c'. OuterTo w₁.left c') ProbeSent
                (collect-SentTo r cfg waiting key_type sizes small outer_data rows before cleanup
                  wait_probe p.results w₁.left c₁ h₁)
                λ q c₂ h₂.
                  judge_probe_ack-ProbeSent q.0 q.1 w₁ (record c₂ { credit = q.0.credit })
                    (credit-SentTo r cfg waiting key_type sizes small outer_data rows before cleanup
                      q.0.credit w₁.left c₂ h₂)

  -- All rows are sent, unless the board has said that it is done.
  abbrev pub ProbeOver : Probing → FpgaClient T → Type 0
  ProbeOver p c =
      OuterTo p.sending.left c × ((p.sending.left ≡ []) ⊎ (p.last_ack.phase ≡ phase_byte done))

  pub probe_rounds-ProbeOver :
      (n : ℕ) (p : Probing) (c : FpgaClient T)
      → ProbeSent p c
      → OnOk
          (probe_rounds tr cfg waiting key_type n p c)
          (λ q c'. (q ≡ none) ⊎ ((p' : Probing) × (q ≡ some p') × ProbeOver p' c'))
  unfolding probe_rounds
  probe_rounds-ProbeOver zero p c h = inl refl
  probe_rounds-ProbeOver (suc n) p c h =
      OnOk-Bool (is_drained p.sending || p.reached_done) (ok (some p) c) _ _
        (λ over. inr (
          p,
          refl,
          (
            h.0,
            elim (Bool-cases p.reached_done) [
              | inl reached ↦ inr (h.1 reached)
              | inr going ↦ inl (drained-left p.sending (ground (arith, over, going)))
            ],
          ),
        ))
        λ more.
          OnOk-bind (probe_round tr cfg waiting key_type p)
            (λ p'. probe_rounds tr cfg waiting key_type n p') c ProbeSent
            (λ q c'. (q ≡ none) ⊎ ((p' : Probing) × (q ≡ some p') × ProbeOver p' c'))
            (probe_round-ProbeSent p c h) (probe_rounds-ProbeOver n)
