-- ===== src/Join/Heard/Phases.antt =====
-- The two phases of the client hear the frames of the board, one after the other.

use fpga_postgresql_hash_joi.Base.{
  ℕ, zero, suc, ◌<◌, ◌≡◌, refl, sym, ap, ◌∙◌, ◌||◌, Option, some, List, [], ◌++◌, ◌==◌, length,
  take, All,
}
use fpga_postgresql_hash_joi.Types.{
  MsgType, phase_byte, ResultPair, StatusPayload, inner_data, outer_data, building, probing, done,
}
use mathlib.Core.Path.{subst}
use mathlib.Core.List.{append_assoc}
use fpga_postgresql_hash_joi.Host.Transport.{Transport, ok, raise, zero_credit}
use fpga_postgresql_hash_joi.Host.Outcome.{OnOk, OnOk-mono, OnOk-bind, OnOk-if, OnOk-Bool}
use fpga_postgresql_hash_joi.Host.Serializer.{serialize_batch}
use fpga_postgresql_hash_joi.Host.Client.{
  FpgaClient, collect_until_ack, send_counted, ClientConfig, wait_build, spend_credit, wait_probe,
}
use fpga_postgresql_hash_joi.Host.Client.Run.{
  Sending, no_ack, is_empty, set_credit, advance, send_batch, send_rounds, send_window, build_round,
  Probing, is_drained, take_credit, build_rounds, judge_probe_ack, probe_round, probe_rounds,
}
use fpga_postgresql_hash_joi.Host.Client.Rounds.{send_rounds_step}
use fpga_postgresql_hash_joi.Join.Output.{BoardFrame}
use fpga_postgresql_hash_joi.Join.Sends.Rounds.{advance-left}
use fpga_postgresql_hash_joi.Join.Heard.Rounds.{
  Waits, Follows-none, Follows-trans, send_counted-Waits, collect-Follows, Follows,
}
use fpga_postgresql_hash_joi.Join.Heard.{Hears, IsHeard, Says, All-IsHeard_rest}

some-eq : (p p' : Probing) → ◌≡◌ {A = Option Probing} (some p) (some p') → p ≡ p'
some-eq p p' e = cc e

module _ {T : Type 0} {tr : Transport T} (h : Hears tr) (cfg : ClientConfig) (waiting key_type : ℕ)
    (sizes : 0 < cfg.max_batch_tuples) where
  send_batch-Waits :
      (type : MsgType) (batch : ℕ) (fs : List BoardFrame) (w : Sending) (c : FpgaClient T)
      → Waits h fs c
      → OnOk (send_batch tr cfg waiting key_type type batch w c) (λ _ c'. Waits h fs c')
  unfolding send_batch take_credit
  send_batch-Waits type batch fs w c k =
      let c₁ : FpgaClient T = record c { credit = spend_credit c.credit batch } in
      OnOk-bind (send_counted tr (serialize_batch key_type type (take batch w.left) batch) type) _
        c₁ (λ _ c'. Waits h fs c') (λ _ c'. Waits h fs c')
        (send_counted-Waits h (serialize_batch key_type type (take batch w.left) batch) type fs c₁
          k)
        λ _ c' k'. k'

  pub send_rounds-Waits :
      (n : ℕ) (type : MsgType) (fs : List BoardFrame) (w : Sending) (c : FpgaClient T)
      → Waits h fs c
      → OnOk (send_rounds tr cfg waiting key_type n type w c) (λ _ c'. Waits h fs c')
  send_rounds-Waits zero type fs w c k = unfold send_rounds in k
  send_rounds-Waits (suc n) type fs w c k =
      send_rounds_step tr cfg waiting key_type sizes n type w c (λ _ c'. Waits h fs c') (λ e. k)
        λ batch bounds.
          OnOk-bind (send_batch tr cfg waiting key_type type batch w)
            (λ w'. send_rounds tr cfg waiting key_type n type w') c (λ _ c'. Waits h fs c')
            (λ _ c'. Waits h fs c') (send_batch-Waits type batch fs w c k)
            λ w' c'. send_rounds-Waits n type fs w' c'

  -- What a round of the build phase reads is read in order; its pairs are not kept.
  build_round-Follows :
      (fs : List BoardFrame) (w : Sending) (c : FpgaClient T)
      → All IsHeard fs
      → Waits h fs c
      → OnOk (build_round tr cfg waiting key_type w c) (λ _ c'.
        (gone : List BoardFrame) × (rest : List BoardFrame) × (fs ≡ gone ++ rest) × Waits h rest c')
  unfolding build_round send_window set_credit
  build_round-Follows fs w c heard k =
      OnOk-bind (send_rounds tr cfg waiting key_type (length w.left) inner_data w) _ c
        (λ _ c'. Waits h fs c') _ (send_rounds-Waits (length w.left) inner_data fs w c k)
        λ w₁ c₁ k₁.
          OnOk-if (is_empty w₁.inflight) (raise (zero_credit building)) _ c₁ _ (λ e. tt)
            λ some_sent.
              OnOk-bind (collect_until_ack tr waiting wait_build []) _ c₁
                (λ r c'. (f : Follows h fs [] no_ack r.1 r.0 c') × Says r.0 f.read) _
                (collect-Follows h waiting wait_build [] no_ack fs c₁ heard k₁)
                λ r c₂ (f, _).
                  OnOk-mono (advance building r.0 w₁ (record c₂ { credit = r.0.credit })) _ _
                    (λ w' c' (_, same). (
                      f.read,
                      f.rest,
                      f.frames_lem,
                      subst (λ d. Waits h f.rest d) (sym same) f.waits,
                    ))
                    (advance-left building r.0 w₁ (record c₂ { credit = r.0.credit }))

  -- Some frames are read, and the others wait.
  abbrev pub Passes : List BoardFrame → FpgaClient T → Type 0
  Passes fs c' =
      (gone : List BoardFrame) × (rest : List BoardFrame) × (fs ≡ gone ++ rest) × Waits h rest c'

  pub build_rounds-Passes :
      (n : ℕ) (fs : List BoardFrame) (w : Sending) (c : FpgaClient T)
      → All IsHeard fs
      → Waits h fs c
      → OnOk (build_rounds tr cfg waiting key_type n w c) (λ _ c'. Passes fs c')
  unfolding build_rounds
  build_rounds-Passes zero fs w c heard k = ([], fs, refl, k)
  build_rounds-Passes (suc n) fs w c heard k =
      OnOk-Bool (is_drained w) (ok (some tt) c) _ (λ _ c'. Passes fs c') (λ e. ([], fs, refl, k))
        λ e.
          OnOk-bind (build_round tr cfg waiting key_type w)
            (λ w'. build_rounds tr cfg waiting key_type n w') c (λ _ c'. Passes fs c')
            (λ _ c'. Passes fs c') (build_round-Follows fs w c heard k)
            λ w' c₁ (gone, rest, split, k₁).
              OnOk-mono (build_rounds tr cfg waiting key_type n w' c₁) _ _
                (λ _ c' (gone', rest', split', k'). (
                  gone ++ gone',
                  rest',
                  split ∙ ap (λ r. gone ++ r) split' ∙ sym (append_assoc gone gone' rest'),
                  k',
                ))
                (build_rounds-Passes n rest w' c₁
                  (All-IsHeard_rest gone rest (subst (All IsHeard) split heard)) k₁)

  -- What the probe phase reads, whose pairs are the results.
  abbrev pub ProbesOn : List BoardFrame → Probing → Probing → FpgaClient T → Type 0
  ProbesOn fs p p' c' = Follows h fs p.results p.last_ack p'.results p'.last_ack c'

  judge_probe_ack-Follows :
      (fs : List BoardFrame) (p : Probing) (s : StatusPayload) (results : List ResultPair)
      (w : Sending) (c : FpgaClient T)
      → Follows h fs p.results p.last_ack results s c
      → OnOk (judge_probe_ack tr cfg waiting key_type s results w c) (ProbesOn fs p)
  unfolding judge_probe_ack
  judge_probe_ack-Follows fs p s results w c k =
      OnOk-if (s.phase == phase_byte done) _ _ c (ProbesOn fs p) (λ e. k)
        λ e.
          OnOk-bind (advance probing s w) _ c (λ _ c'. c' ≡ c) (ProbesOn fs p)
            (OnOk-mono (advance probing s w c) _ _ (λ w' c' q. q.1) (advance-left probing s w c))
            λ w' c' same. subst (λ d. Follows h fs p.results p.last_ack results s d) (sym same) k

  probe_round-Follows :
      (fs : List BoardFrame) (p : Probing) (c : FpgaClient T)
      → All IsHeard fs
      → Waits h fs c
      → OnOk (probe_round tr cfg waiting key_type p c) (ProbesOn fs p)
  unfolding probe_round send_window set_credit
  probe_round-Follows fs p c heard k =
      OnOk-bind (send_rounds tr cfg waiting key_type (length p.sending.left) outer_data p.sending) _
        c (λ _ c'. Waits h fs c') (ProbesOn fs p)
        (send_rounds-Waits (length p.sending.left) outer_data fs p.sending c k)
        λ w₁ c₁ k₁.
          OnOk-if (is_empty w₁.inflight) (raise (zero_credit probing)) _ c₁ (ProbesOn fs p)
            (λ e. tt)
            λ some_sent.
              OnOk-bind (collect_until_ack tr waiting wait_probe p.results) _ c₁
                (λ r c'. (f : Follows h fs p.results p.last_ack r.1 r.0 c') × Says r.0 f.read)
                (ProbesOn fs p)
                (collect-Follows h waiting wait_probe p.results p.last_ack fs c₁ heard k₁)
                λ r c₂ (f, _).
                  judge_probe_ack-Follows fs p r.0 r.1 w₁ (record c₂ { credit = r.0.credit })
                    (record {
                      read = f.read;
                      rest = f.rest;
                      frames_lem = f.frames_lem;
                      pairs_lem = f.pairs_lem;
                      last = f.last;
                      waits = f.waits;
                    })

  pub probe_rounds-Follows :
      (n : ℕ) (fs : List BoardFrame) (p : Probing) (c : FpgaClient T)
      → All IsHeard fs
      → Waits h fs c
      → OnOk
          (probe_rounds tr cfg waiting key_type n p c)
          (λ q c'. (p' : Probing) → q ≡ some p' → ProbesOn fs p p' c')
  unfolding probe_rounds
  probe_rounds-Follows zero fs p c heard k = λ p' e. absurd (cc e)
  probe_rounds-Follows (suc n) fs p c heard k =
      OnOk-Bool (is_drained p.sending || p.reached_done) (ok (some p) c) _ _
        (λ over p' e.
          subst (λ p'. ProbesOn fs p p' c) (some-eq p p' e)
            (Follows-none h fs p.results p.last_ack c k))
        λ more.
          OnOk-bind (probe_round tr cfg waiting key_type p)
            (λ p'. probe_rounds tr cfg waiting key_type n p') c (ProbesOn fs p) _
            (probe_round-Follows fs p c heard k)
            λ p₁ c₁ f.
              OnOk-mono (probe_rounds tr cfg waiting key_type n p₁ c₁) _ _
                (λ q c' g p' e.
                  Follows-trans h fs p.results p₁.results p'.results p.last_ack p₁.last_ack
                    p'.last_ack c₁ c' f (g p' e))
                (probe_rounds-Follows n f.rest p₁ c₁
                  (All-IsHeard_rest f.read f.rest (subst (All IsHeard) f.frames_lem heard)) f.waits)
