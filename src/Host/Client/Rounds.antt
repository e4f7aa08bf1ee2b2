-- ===== src/Host/Client/Rounds.antt =====
-- host/src/fpga_client.cpp: the loops of `run_hash_join` have rounds enough.

use fpga_postgresql_hash_joi.Base.{
  ℕ, zero, suc, ◌+◌, ◌≤◌, ◌<◌, ◌≡◌, refl, ap, ◌∙◌, ◌⊎◌, inl, inr, true, false, not, ◌&&◌, ◌||◌,
  none, some, List, [], ◌∷◌, ◌++◌, arith, ◌==◌, Bool-cases, length, length-append, All, length-drop,
  All-append,
}
use fpga_postgresql_hash_joi.Types.{
  MsgType, Phase, phase_byte, ResultPair, StatusPayload, inner_data, outer_data, building, probing,
  done,
}
use mathlib.Core.Path.{subst}
use mathlib.Core.List.{append-nil}
use fpga_postgresql_hash_joi.Host.Transport.{
  Transport, ok, ◌>>=◌, pure, raise, zero_credit, no_progress,
}
use fpga_postgresql_hash_joi.Host.Outcome.{
  OnOk, OnOk-bind, OnOk-all, OnOk-if, OnOk-Bool, OnOk-Option,
}
use fpga_postgresql_hash_joi.Host.Client.{
  ClientConfig, FpgaClient, apply_cumulative_ack, send_counted, next_batch, collect_until_ack,
  wait_build, wait_probe,
}
use fpga_postgresql_hash_joi.Host.Client.Window.{
  sum, apply_cumulative_ack-Covers, next_batch-bounds,
}
use fpga_postgresql_hash_joi.Host.Client.Run.{
  Sending, is_empty, take_credit, advance, send_batch, send_rounds, Probing, is_drained, set_credit,
  send_window, build_round, build_rounds, judge_probe_ack, probe_round, probe_rounds,
}

-- The rows of a side that are not acknowledged: those in flight, and those still to be sent.
abbrev pub unacked : Sending → ℕ
unacked w = sum w.inflight + length w.left

-- No batch in flight is empty, and there are as many unacknowledged rows.
abbrev pub HasUnacked : ℕ → Sending → Type 0
HasUnacked n w = All (λ m. 0 < m) w.inflight × (unacked w ≡ n)

sum-append : (xs ys : List ℕ) → sum (xs ++ ys) ≡ sum xs + sum ys
sum-append [] ys = omega arith
sum-append (x ∷ xs) ys = omega (arith, sum-append xs ys)

All-behind : (xs ys : List ℕ) → All (λ m. 0 < m) (xs ++ ys) → All (λ m. 0 < m) ys
All-behind [] ys h = h
All-behind (x ∷ xs) ys (h, hs) = All-behind xs ys hs

sum_pos : (xs ys : List ℕ) → All (λ m. 0 < m) (xs ++ ys) → 0 < length xs → 0 < sum xs
sum_pos [] ys h pos = absurd (omega arith)
sum_pos (x ∷ xs) ys (h, hs) pos = omega arith

pub length_pos : {A : Type 0} (xs : List A) → is_empty xs ≡ false → 0 < length xs
length_pos [] e = cc e
length_pos (x ∷ xs) e = omega arith

length_none : {A : Type 0} (xs : List A) → is_empty xs ≡ true → length xs ≡ 0
length_none [] e = refl
length_none (x ∷ xs) e = cc e

undrained_pos : (n : ℕ) (w : Sending) → HasUnacked n w → is_drained w ≡ false → 0 < n
unfolding is_drained
undrained_pos n w (pos, all) e = elim (Bool-cases (is_empty w.left)) [
  | inl none_left ↦ omega (
    arith,
    sum_pos w.inflight [] (rw append-nil pos)
        (length_pos w.inflight (ground (arith, none_left, e))),
    all,
  )
  | inr some_left ↦ omega (arith, length_pos w.left some_left, all)
]

-- An acknowledgement that is accepted takes at least one batch, of at least one row.
pub advance-lt :
    {T : Type 0} (phase : Phase) (s : StatusPayload) (w : Sending) (c : FpgaClient T) (n : ℕ)
    → HasUnacked n w
    → is_empty w.inflight ≡ false
    → OnOk (advance phase s w c) (λ w' c'. (m : ℕ) × (m < n) × HasUnacked m w')
unfolding advance
advance-lt phase s w c n (pos, all) some_sent =
    let a = apply_cumulative_ack w.inflight w.acked_rows s.rows_processed in
    let (p, count) = apply_cumulative_ack-Covers w.inflight w.acked_rows s.rows_processed pos in
    let parts = subst (All (λ m. 0 < m)) p.split pos in
    let total : sum w.inflight ≡ sum p.popped + sum a.inflight =
      ap sum p.split ∙ sum-append p.popped a.inflight in
    let counted : length w.inflight ≡ length p.popped + length a.inflight =
      ap length p.split ∙ length-append p.popped a.inflight in
    OnOk-if (a.frames == 0 && not (is_empty a.inflight)) (raise (no_progress phase)) (pure _) c
      (λ w' c'. (m : ℕ) × (m < n) × HasUnacked m w') (λ stuck. tt)
      λ moves.
        let taken : 0 < length p.popped = elim (Bool-cases (is_empty a.inflight)) [
          | inl none_left ↦
              omega
                (arith, counted, length_none a.inflight none_left, length_pos w.inflight some_sent)
          | inr some_left ↦ ground (arith, some_left, moves, count, counted)
        ] in
        (
          sum a.inflight + length w.left,
          omega (arith, total, sum_pos p.popped a.inflight parts taken),
          (All-behind p.popped a.inflight parts, refl),
        )

module _ {T : Type 0} (tr : Transport T) (cfg : ClientConfig) (waiting key_type : ℕ)
    (sizes : 0 < cfg.max_batch_tuples) where
  send_batch-HasUnacked :
      (type : MsgType) (batch n : ℕ) (w : Sending) (c : FpgaClient T)
      → 0 < batch
      → batch ≤ length w.left
      → HasUnacked n w
      → OnOk (send_batch tr cfg waiting key_type type batch w c) (λ w' c'. HasUnacked n w')
  unfolding send_batch take_credit
  send_batch-HasUnacked type batch n w c pos few (positive, all) =
      OnOk-bind (send_counted tr _ type) _ _ (λ _ _. Unit) (λ w' c'. HasUnacked n w')
        (OnOk-all _ (λ _ _. Unit) (λ _ _. tt))
        λ _ c' _. (
          All-append (λ m. 0 < m) w.inflight (batch ∷ []) positive (pos, tt),
          omega (arith, sum-append w.inflight (batch ∷ []), length-drop batch w.left, all),
        )

  -- One round: nothing is sent, or a batch of the allowed size.
  pub send_rounds_step :
      (n : ℕ) (type : MsgType) (w : Sending) (c : FpgaClient T)
      (Q : Sending → FpgaClient T → Type 0)
      → (next_batch cfg c.credit w.inflight (length w.left) ≡ none → Q w c)
      → ((batch : ℕ)
          → (0 < batch) × (batch ≤ cfg.max_batch_tuples) × (batch ≤ length w.left)
          → OnOk
              ((send_batch tr cfg waiting key_type type batch w >>= λ w'.
                  send_rounds tr cfg waiting key_type n type w')
                c)
              Q)
      → OnOk (send_rounds tr cfg waiting key_type (suc n) type w c) Q
  unfolding send_rounds
  send_rounds_step n type w c Q stop go =
      OnOk-Option (next_batch cfg c.credit w.inflight (length w.left)) (ok w c) _ Q stop λ batch e.
        let (pos, small, few, _, _) =
          next_batch-bounds cfg c.credit w.inflight (length w.left) batch sizes e in
        go batch (pos, small, few)

  send_rounds-HasUnacked :
      (n : ℕ) (type : MsgType) (m : ℕ) (w : Sending) (c : FpgaClient T)
      → HasUnacked m w
      → OnOk (send_rounds tr cfg waiting key_type n type w c) (λ w' c'. HasUnacked m w')
  send_rounds-HasUnacked zero type m w c h = unfold send_rounds in h
  send_rounds-HasUnacked (suc n) type m w c h =
      send_rounds_step n type w c (λ w' c'. HasUnacked m w') (λ e. h)
        λ batch (pos, small, few).
          OnOk-bind (send_batch tr cfg waiting key_type type batch w)
            (λ w'. send_rounds tr cfg waiting key_type n type w') c (λ w' c'. HasUnacked m w')
            (λ w' c'. HasUnacked m w') (send_batch-HasUnacked type batch m w c pos few h)
            (send_rounds-HasUnacked n type m)

  -- Either the round fails, or fewer rows are unacknowledged after it.
  pub build_round-lt :
      (n : ℕ) (w : Sending) (c : FpgaClient T)
      → HasUnacked n w
      → OnOk
          (build_round tr cfg waiting key_type w c)
          (λ w' c'. (m : ℕ) × (m < n) × HasUnacked m w')
  unfolding build_round send_window set_credit
  build_round-lt n w c h =
      OnOk-bind (send_rounds tr cfg waiting key_type (length w.left) inner_data w) _ c
        (λ w' c'. HasUnacked n w') (λ w' c'. (m : ℕ) × (m < n) × HasUnacked m w')
        (send_rounds-HasUnacked (length w.left) inner_data n w c h)
        λ w₁ c₁ h₁.
          OnOk-if (is_empty w₁.inflight) (raise (zero_credit building)) _ c₁ _ (λ e. tt)
            λ some_sent.
              OnOk-bind (collect_until_ack tr waiting wait_build []) _ c₁ (λ _ _. Unit) _
                (OnOk-all _ (λ _ _. Unit) (λ _ _. tt))
                λ r c₂ _.
                  advance-lt building r.0 w₁ (record c₂ { credit = r.0.credit }) n h₁ some_sent

  -- As many rounds as there are unacknowledged rows, and one more, are enough.
  pub build_rounds-ends :
      (n m : ℕ) (w : Sending) (c : FpgaClient T)
      → HasUnacked m w
      → m < n
      → OnOk (build_rounds tr cfg waiting key_type n w c) (λ r c'. r ≡ some tt)
  unfolding build_rounds
  build_rounds-ends zero m w c h lt = absurd (omega arith)
  build_rounds-ends (suc n) m w c h lt =
      OnOk-Bool (is_drained w) (ok (some tt) c) _ (λ r c'. r ≡ some tt) (λ e. refl)
        λ e.
          OnOk-bind (build_round tr cfg waiting key_type w)
            (λ w'. build_rounds tr cfg waiting key_type n w') c
            (λ w' c'. (k : ℕ) × (k < m) × HasUnacked k w') (λ r c'. r ≡ some tt)
            (build_round-lt m w c h)
            λ w' c' (k, less, h'). build_rounds-ends n k w' c' h' (omega arith)

  judge_probe_ack-lt :
      (n : ℕ) (s : StatusPayload) (results : List ResultPair) (w : Sending) (c : FpgaClient T)
      → HasUnacked n w
      → is_empty w.inflight ≡ false
      → OnOk
          (judge_probe_ack tr cfg waiting key_type s results w c)
          (λ p c'. (p.reached_done ≡ true) ⊎ ((m : ℕ) × (m < n) × HasUnacked m p.sending))
  unfolding judge_probe_ack
  judge_probe_ack-lt n s results w c h some_sent =
      OnOk-if (s.phase == phase_byte done) _ _ c _ (λ e. inl refl)
        λ e.
          OnOk-bind (advance probing s w) _ c (λ w' c'. (m : ℕ) × (m < n) × HasUnacked m w') _
            (advance-lt probing s w c n h some_sent) λ w' c' less. inr less

  pub probe_round-lt :
      (n : ℕ) (p : Probing) (c : FpgaClient T)
      → HasUnacked n p.sending
      → OnOk
          (probe_round tr cfg waiting key_type p c)
          (λ p' c'. (p'.reached_done ≡ true) ⊎ ((m : ℕ) × (m < n) × HasUnacked m p'.sending))
  unfolding probe_round send_window set_credit
  probe_round-lt n p c h =
      OnOk-bind (send_rounds tr cfg waiting key_type (length p.sending.left) outer_data p.sending) _
        c (λ w' c'. HasUnacked n w') _
        (send_rounds-HasUnacked (length p.sending.left) outer_data n p.sending c h)
        λ w₁ c₁ h₁.
          OnOk-if (is_empty w₁.inflight) (raise (zero_credit probing)) _ c₁ _ (λ e. tt)
            λ some_sent.
              OnOk-bind (collect_until_ack tr waiting wait_probe p.results) _ c₁ (λ _ _. Unit) _
                (OnOk-all _ (λ _ _. Unit) (λ _ _. tt))
                λ r c₂ _.
                  judge_probe_ack-lt n r.0 r.1 w₁ (record c₂ { credit = r.0.credit }) h₁ some_sent

  -- The rounds end with a state of the probe phase.
  pub probe_rounds-ends :
      (n m : ℕ) (p : Probing) (c : FpgaClient T)
      → ((p.reached_done ≡ true) ⊎ HasUnacked m p.sending)
      → m < n
      → OnOk (probe_rounds tr cfg waiting key_type n p c) (λ r c'. (p' : Probing) × (r ≡ some p'))
  unfolding probe_rounds
  probe_rounds-ends zero m p c h lt = absurd (omega arith)
  probe_rounds-ends (suc n) m p c h lt =
      OnOk-Bool (is_drained p.sending || p.reached_done) (ok (some p) c) _
        (λ r c'. (p' : Probing) × (r ≡ some p')) (λ e. (p, refl))
        λ e.
          let there : HasUnacked m p.sending = elim h [
            | inl reached ↦ absurd (ground (arith, e, reached))
            | inr there ↦ there
          ] in
          let more : 0 < m = undrained_pos m p.sending there (ground (arith, e)) in
          OnOk-bind (probe_round tr cfg waiting key_type p)
            (λ p'. probe_rounds tr cfg waiting key_type n p') c
            (λ p' c'. (p'.reached_done ≡ true) ⊎ ((k : ℕ) × (k < m) × HasUnacked k p'.sending))
            (λ r c'. (p' : Probing) × (r ≡ some p')) (probe_round-lt m p c there)
            λ p' c' after. elim after [
              | inl reached ↦ probe_rounds-ends n 0 p' c' (inl reached) (omega (arith, more))
              | inr (k, less, h') ↦ probe_rounds-ends n k p' c' (inr h') (omega arith)
            ]
