-- ===== src/Join/Client/Finish.antt =====
-- The end of a run of the client: the last pairs, the last acknowledgement, and the RESET.

use fpga_postgresql_hash_joi.Join.Heard.Passes.{ReadsOn, ReadsOn-trans, collect_until_ack-ReadsOn}
use mathlib.Core.Path.{subst}
use fpga_postgresql_hash_joi.Base.{
  ℕ, zero, suc, ◌≡◌, refl, sym, ◌∙◌, Bool, true, false, Option, none, some, List, [], ◌++◌, ◌==◌,
  if◌then◌else◌, All,
}
use fpga_postgresql_hash_joi.Types.{phase_byte, ResultPair, StatusPayload, outer_data, idle}
use mathlib.Core.List.{append-nil}
use fpga_postgresql_hash_joi.Host.Transport.{
  Transport, Result, ok, throw, timeout, pure, reset_not_idle,
}
use fpga_postgresql_hash_joi.Host.Outcome.{
  Always, Always-all, OnOk, OnOk-bind, OnOk-if, Always-mono, Always-OnOk, Always-Bool, OnOk-both,
}
use fpga_postgresql_hash_joi.Host.Serializer.{JoinConfig}
use fpga_postgresql_hash_joi.Host.Client.{
  ClientConfig, FpgaClient, collect_until_ack, send_counted, wait_probe, wait_reset,
}
use fpga_postgresql_hash_joi.Host.Client.Run.{Probing, set_credit}
use fpga_postgresql_hash_joi.Host.Client.Session.{
  reset_answer, await_reset, probe_end_frame, asks_probe_end, end_probe,
}
use fpga_postgresql_hash_joi.Join.Output.{BoardFrame}
use fpga_postgresql_hash_joi.Join.Sends.{send_counted-sent, collect_until_ack-sent}
use fpga_postgresql_hash_joi.Join.Heard.{IsHeard, Says, All-IsHeard_rest}
use fpga_postgresql_hash_joi.Join.Heard.Rounds.{
  Waits, Follows-none, send_counted-Waits, collect-Follows, Follows,
}
use fpga_postgresql_hash_joi.Join.Client.{Link}

-- What holds between the states before and after each wait holds from the first to the last.
module _ {T : Type 0} (tr : Transport T) (cfg : ClientConfig) (waiting : ℕ)
    (R : FpgaClient T → FpgaClient T → Type 0) (stays : (c : FpgaClient T) → R c c)
    (follows : (c c₁ c₂ : FpgaClient T) → R c c₁ → R c₁ c₂ → R c c₂)
    (waits : (c : FpgaClient T) → Always (collect_until_ack tr waiting wait_reset [] c) (R c)) where
  reset_answer-Always :
      (P : FpgaClient T → Type 0) (q : Result (FpgaClient T) (StatusPayload × List ResultPair))
      → Always q P
      → Always (reset_answer q) P
  unfolding reset_answer
  reset_answer-Always P (ok (s, tail) c) k = k
  reset_answer-Always P (throw timeout c) k = k
  reset_answer-Always P (throw e c) k = k

  pub await_reset-Always :
      (n : ℕ) (c : FpgaClient T) → Always (await_reset tr cfg waiting n c) (R c)
  unfolding await_reset
  await_reset-Always zero c = stays c
  await_reset-Always (suc n) c =
      answered (reset_answer (collect_until_ack tr waiting wait_reset [] c))
        (reset_answer-Always (R c) (collect_until_ack tr waiting wait_reset [] c) (waits c))
        (await_reset-Always n)
    where
      answered :
          (q : Result (FpgaClient T) (Option StatusPayload))
          → Always q (R c)
          → ((c' : FpgaClient T) → Always (await_reset tr cfg waiting n c') (R c'))
          → Always
              (elim q as (λ _. Result (FpgaClient T) (Unit {0})) [
                | throw e c' ↦ throw e c'
                | ok none c' ↦ ok tt c'
                | ok (some s) c' ↦ elim (s.phase == phase_byte idle) [
                  | true ↦ ok tt c'
                  | false ↦ elim (n == 0) [
                    | true ↦ throw reset_not_idle c'
                    | false ↦ await_reset tr cfg waiting n c'
                  ]
                ]
              ])
              (R c)
      answered (throw e c') k more = k
      answered (ok none c') k more = k
      answered (ok (some s) c') k more =
          Always-Bool (s.phase == phase_byte idle) (ok tt c') _ (R c) (λ e. k)
            λ e.
              Always-Bool (n == 0) (throw reset_not_idle c') _ (R c) (λ e. k)
                λ e.
                  Always-mono (await_reset tr cfg waiting n c') (R c') (R c)
                    (λ c'' k'. follows c c' c'' k k') (more c')

module _ {T : Type 0} {tr : Transport T} (l : Link tr) (cfg : ClientConfig) (waiting : ℕ) where
  -- Nothing is sent, and the clean-up flag stays.
  abbrev pub Silent : FpgaClient T → FpgaClient T → Type 0
  Silent c c' =
      (l.records.sent c'.transport ≡ l.records.sent c.transport)
      × (c'.cleanup_enabled ≡ c.cleanup_enabled)

  pub await_reset-Silent :
      (n : ℕ) (c : FpgaClient T) → Always (await_reset tr cfg waiting n c) (Silent c)
  await_reset-Silent =
      await_reset-Always tr cfg waiting Silent (λ c. (refl, refl))
        (λ c c₁ c₂ (a, b) (a', b'). (a' ∙ a, b' ∙ b))
        λ c. collect_until_ack-sent l.records 0 waiting wait_reset [] c

  abbrev Waiting : FpgaClient T → Type 0
  Waiting c = (fs : List BoardFrame) × (All IsHeard fs × Waits l.hears fs c)

  -- Whatever frames wait, some of them are read.
  abbrev Listens : FpgaClient T → FpgaClient T → Type 0
  Listens c c' = (w : Waiting c) → ReadsOn l.hears w.0 c'

  Listens-trans : (c c₁ c₂ : FpgaClient T) → Listens c c₁ → Listens c₁ c₂ → Listens c c₂
  Listens-trans c c₁ c₂ first next (fs, (heard, k)) =
      let (gone, rest, split, k₁) = first (fs, (heard, k)) in
      ReadsOn-trans l.hears fs gone rest c₂ split
        (next (rest, (All-IsHeard_rest gone rest (subst (All IsHeard) split heard), k₁)))

  collect-Listens :
      (c : FpgaClient T) → Always (collect_until_ack tr waiting wait_reset [] c) (Listens c)
  collect-Listens c =
      Always-all (collect_until_ack tr waiting wait_reset [] c) (λ w c'. ReadsOn l.hears w.0 c')
        λ (fs, (heard, k)). collect_until_ack-ReadsOn l.hears waiting wait_reset [] fs c heard k

  pub await_reset-ReadsOn :
      (n : ℕ) (fs : List BoardFrame) (c : FpgaClient T)
      → All IsHeard fs
      → Waits l.hears fs c
      → Always (await_reset tr cfg waiting n c) (ReadsOn l.hears fs)
  await_reset-ReadsOn n fs c heard k =
      Always-mono (await_reset tr cfg waiting n c) (Listens c) (ReadsOn l.hears fs)
        (λ c' listens. listens (fs, (heard, k)))
        (await_reset-Always tr cfg waiting Listens (λ c (fs, (heard, k)). ([], fs, refl, k))
          Listens-trans collect-Listens n c)

  -- The end of the probe phase is perhaps asked for.
  pub record Asks (fs : List BoardFrame) (p p' : Probing) (c c' : FpgaClient T) : Type 0 where
    pub follows : Follows l.hears fs p.results p.last_ack p'.results p'.last_ack c'
    pub asked : Bool
    pub sent_lem :
        l.records.sent c'.transport
        ≡ l.records.sent c.transport ++ (if asked then probe_end_frame else [])
    pub flag_lem : c'.cleanup_enabled ≡ c.cleanup_enabled

  pub end_probe-Asks :
      (config : JoinConfig) (n : ℕ) (fs : List BoardFrame) (p : Probing) (c : FpgaClient T)
      → All IsHeard fs
      → Waits l.hears fs c
      → OnOk (end_probe tr cfg waiting config n p c) (λ p' c'. Asks fs p p' c c')
  unfolding end_probe set_credit
  end_probe-Asks config n fs p c heard k =
      OnOk-if (asks_probe_end config n p.last_ack) _ (pure p) c (λ p' c'. Asks fs p p' c c')
        (λ asks.
          OnOk-bind (send_counted tr probe_end_frame outer_data) _ c
            (λ _ c₁.
              Waits l.hears fs c₁
              × ((l.records.sent c₁.transport ≡ l.records.sent c.transport ++ probe_end_frame)
                  × (c₁.cleanup_enabled ≡ c.cleanup_enabled)))
            _
            (OnOk-both (send_counted tr probe_end_frame outer_data c) _ _
              (send_counted-Waits l.hears probe_end_frame outer_data fs c k)
              (send_counted-sent l.records 0 probe_end_frame outer_data c))
            λ _ c₁ (k₁, (e, flag)).
              OnOk-bind (collect_until_ack tr waiting wait_probe p.results) _ c₁
                (λ r c₂.
                  ((f : Follows l.hears fs p.results p.last_ack r.1 r.0 c₂) × Says r.0 f.read)
                  × Silent c₁ c₂)
                _
                (OnOk-both (collect_until_ack tr waiting wait_probe p.results c₁) _ _
                  (collect-Follows l.hears waiting wait_probe p.results p.last_ack fs c₁ heard k₁)
                  (Always-OnOk (collect_until_ack tr waiting wait_probe p.results c₁) (Silent c₁)
                    (collect_until_ack-sent l.records 0 waiting wait_probe p.results c₁)))
                λ r c₂ ((f, _), (e', flag')). record {
                  follows = record {
                    read = f.read;
                    rest = f.rest;
                    frames_lem = f.frames_lem;
                    pairs_lem = f.pairs_lem;
                    last = f.last;
                    waits = f.waits;
                  };
                  asked = true;
                  sent_lem = e' ∙ e;
                  flag_lem = flag' ∙ flag;
                })
        (λ enough. record {
          follows = Follows-none l.hears fs p.results p.last_ack c k;
          asked = false;
          sent_lem = sym (append-nil (l.records.sent c.transport));
          flag_lem = refl;
        })
