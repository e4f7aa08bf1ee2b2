-- ===== src/Join/Client/Probe.antt =====
-- The probe phase of a run of the client, with its end.

use fpga_postgresql_hash_joi.Base.{
  ℕ, ◌+◌, ◌≤◌, ◌<◌, ◌≡◌, refl, sym, ap, ◌∙◌, ◌⊎◌, inl, inr, Bool, true, false, Option, none, some,
  List, [], ◌++◌, arith, if◌then◌else◌, length, All,
}
use fpga_postgresql_hash_joi.Types.{
  rx_buf_tuples, phase_byte, InputTuple, ResultPair, StatusPayload, outer_data, done,
}
use mathlib.Core.Path.{subst}
use mathlib.Core.List.{append_assoc, append-nil}
use fpga_postgresql_hash_joi.Host.Transport.{Transport, pure}
use fpga_postgresql_hash_joi.Host.Outcome.{OnOk, OnOk-bind, OnOk-Option_act, OnOk-both}
use fpga_postgresql_hash_joi.Host.Serializer.{JoinConfig}
use fpga_postgresql_hash_joi.Host.Client.{ClientConfig, FpgaClient}
use fpga_postgresql_hash_joi.Host.Client.Run.{Probing, no_ack, sending_all, probe_rounds}
use fpga_postgresql_hash_joi.Host.Client.Session.{
  probe_end_frame, reset_frame, is_final_probe_ack, end_probe, finish, probe_all,
}
use fpga_postgresql_hash_joi.Join.Output.{BoardFrame, pairs_of}
use fpga_postgresql_hash_joi.Join.Frames.{rows_of, frames_bytes}
use fpga_postgresql_hash_joi.Join.Sends.{IsFrame}
use fpga_postgresql_hash_joi.Join.Sends.Probe.{ProbeOver, ProbeSent, probe_rounds-ProbeOver}
use fpga_postgresql_hash_joi.Join.Heard.{Says, pairs_of-append, IsHeard, All-IsHeard_rest}
use fpga_postgresql_hash_joi.Join.Heard.Rounds.{
  either_said, Follows-trans, Follows, Says-before, Waits, said-Follows-trans,
}
use fpga_postgresql_hash_joi.Join.Heard.Phases.{probe_rounds-Follows}
use fpga_postgresql_hash_joi.Join.Client.{Link, ending, Closes}
use fpga_postgresql_hash_joi.Join.Client.Finish.{Asks, end_probe-Asks}
use fpga_postgresql_hash_joi.Join.Client.Verdict.{Finishes, finish-Finishes}

some-eq : {A : Type 0} (a b : A) → ◌≡◌ {A = Option A} (some a) (some b) → a ≡ b
some-eq a b e = cc e

-- What no acknowledgement says does not end a session.
no_ack-over :
    (cfg : ClientConfig) (config : JoinConfig) (n : ℕ) (results : List ResultPair)
    (final : StatusPayload)
    → final ≡ no_ack
    → ((final.phase ≡ phase_byte done) ⊎ (is_final_probe_ack cfg config n final results ≡ true))
    → ⊥
unfolding is_final_probe_ack
no_ack-over cfg config n results final same (inl over) =
    let phase = ap (λ s. s.phase) same in absurd (omega (arith, phase, over))
no_ack-over cfg config n results final same (inr over) =
    let phase = ap (λ s. s.phase) same in ground (arith, phase, over)

module _ {T : Type 0} {tr : Transport T} (l : Link tr) (cfg : ClientConfig) (waiting : ℕ)
    (sizes : 0 < cfg.max_batch_tuples) (small : cfg.max_batch_tuples ≤ rx_buf_tuples)
    (config : JoinConfig) (outer : List InputTuple) where
  pub record Probed (fs : List BoardFrame) (results : List ResultPair) (c c' : FpgaClient T)
      : Type 0 where
    pub outer_frames : List (List InputTuple)
    pub outer_sizes : All IsFrame outer_frames
    pub unsent : List InputTuple
    pub outer_lem : outer ≡ rows_of outer_frames ++ unsent
    pub asked : Bool
    pub resets : Bool
    pub sent_lem :
        l.records.sent c'.transport
        ≡ l.records.sent c.transport
          ++ (frames_bytes config.key_type outer_data outer_frames ++ ending asked resets)
    pub flag_lem : c'.cleanup_enabled ≡ (if resets then false else c.cleanup_enabled)
    pub heard : List BoardFrame
    pub tail : List BoardFrame
    pub rest : List BoardFrame
    pub frames_lem : fs ≡ heard ++ (tail ++ rest)
    pub closes : Closes l cfg waiting resets tail rest c'
    pub waits : Waits l.hears rest c'
    pub pairs_lem : results ≡ pairs_of heard
    pub final : StatusPayload
    pub says : Says final heard
    pub matched_lem : final.rows_matched ≡ length results
    pub over :
        (final.phase ≡ phase_byte done)
        ⊎ (is_final_probe_ack cfg config (length outer) final results ≡ true)
    pub all_sent :
        (unsent ≡ []) ⊎ ((s : StatusPayload) × Says s heard × (s.phase ≡ phase_byte done))

  abbrev Over : (c : FpgaClient T) → Probing → FpgaClient T → Type 0
  Over c =
      ProbeOver l.records cfg waiting config.key_type sizes small outer (l.records.sent c.transport)
        c.cleanup_enabled

  Over-of :
      (q : Option Probing) (p : Probing) (c c' : FpgaClient T)
      → ((q ≡ none) ⊎ ((p' : Probing) × (q ≡ some p') × Over c p' c'))
      → q ≡ some p
      → Over c p c'
  Over-of q p c c' (inl none_left) e = absurd (cc (none_left, e))
  Over-of q p c c' (inr (p', e', over)) e =
      subst (λ p''. Over c p'' c') (some-eq p' p (sym e' ∙ e)) over

  -- What each part of the phase has sent and heard, put together.
  assemble :
      (fs : List BoardFrame) (results : List ResultPair) (c c₁ c₂ c₃ : FpgaClient T)
      (p p' : Probing) (mid : List BoardFrame)
      → Over c p c₁
      → Asks l cfg waiting mid p p' c₁ c₂
      → (g : Follows l.hears fs [] no_ack p'.results p'.last_ack c₂)
      → (p.last_ack.phase ≡ phase_byte done → Says p.last_ack g.read)
      → Finishes l cfg waiting config (length outer) g.rest p' results c₂ c₃
      → Probed fs results c c₃
  assemble fs results c c₁ c₂ c₃ p p' mid ((s, flag), left) a g said z = record {
    outer_frames = s.batches;
    outer_sizes = s.frames;
    unsent = p.sending.left;
    outer_lem = s.split;
    asked = a.asked;
    resets = z.resets;
    sent_lem =
        z.sent_lem
        ∙ ap (λ b. b ++ (if z.resets then reset_frame else []))
            (a.sent_lem ∙ ap (λ b. b ++ (if a.asked then probe_end_frame else [])) s.sent_lem)
        ∙ append_assoc
            (l.records.sent c.transport ++ frames_bytes config.key_type outer_data s.batches)
            (if a.asked then probe_end_frame else []) _
        ∙ append_assoc (l.records.sent c.transport)
            (frames_bytes config.key_type outer_data s.batches) _;
    flag_lem = z.flag_lem ∙ ap (λ b. if z.resets then false else b) (a.flag_lem ∙ flag);
    heard = g.read ++ z.read;
    tail = z.tail;
    rest = z.rest;
    frames_lem =
        g.frames_lem
        ∙ ap (λ r. g.read ++ r) z.frames_lem
        ∙ sym (append_assoc g.read z.read (z.tail ++ z.rest));
    closes = z.closes;
    waits = z.waits;
    pairs_lem =
        z.pairs_lem
        ∙ ap (λ ps. ps ++ pairs_of z.read) g.pairs_lem
        ∙ sym (pairs_of-append g.read z.read);
    final = z.final;
    says = elim (either_said no_ack p'.last_ack z.final g.read z.read g.last z.last) [
      | inl none_heard ↦
          absurd (no_ack-over cfg config (length outer) results z.final none_heard z.over)
      | inr says ↦ says
    ];
    matched_lem = z.matched_lem;
    over = z.over;
    all_sent = elim left [
      | inl all ↦ inl all
      | inr at_end ↦ inr (p.last_ack, Says-before p.last_ack g.read z.read (said at_end), at_end)
    ];
  }

  done-said :
      (s : StatusPayload) (read : List BoardFrame)
      → ((s ≡ no_ack) ⊎ Says s read)
      → s.phase ≡ phase_byte done
      → Says s read
  done-said s read (inl same) at_end = absurd (omega (arith, ap (λ r. r.phase) same, at_end))
  done-said s read (inr says) at_end = says

  pub probe_all-Probed :
      (fs : List BoardFrame) (c : FpgaClient T)
      → All IsHeard fs
      → Waits l.hears fs c
      → OnOk
          (probe_all tr cfg waiting config outer c)
          (λ q c'. (results : List ResultPair) → q ≡ some results → Probed fs results c c')
  unfolding probe_all
  probe_all-Probed fs c heard k =
      let p₀ : Probing = record {
        sending = sending_all outer;
        results = [];
        last_ack = no_ack;
        reached_done = false;
      } in
      let n = length outer + 1 in
      let none_sent : ProbeSent l.records cfg waiting config.key_type sizes small outer
          (l.records.sent c.transport) c.cleanup_enabled p₀ c =
        (
          (
            record {
              batches = [];
              frames = tt;
              split = refl;
              sent_lem = sym (append-nil (l.records.sent c.transport));
            },
            refl,
          ),
          λ e. absurd (cc e),
        ) in
      OnOk-bind (probe_rounds tr cfg waiting config.key_type n p₀) _ c
        (λ q c'.
          ((q ≡ none) ⊎ ((p' : Probing) × (q ≡ some p') × Over c p' c'))
          × ((p' : Probing) → q ≡ some p' → Follows l.hears fs [] no_ack p'.results p'.last_ack c'))
        _
        (OnOk-both (probe_rounds tr cfg waiting config.key_type n p₀ c) _ _
          (probe_rounds-ProbeOver l.records cfg waiting config.key_type sizes small outer
            (l.records.sent c.transport) c.cleanup_enabled n p₀ c none_sent)
          (probe_rounds-Follows l.hears cfg waiting config.key_type sizes n fs p₀ c heard k))
        λ q c₁ (over, follows).
          OnOk-Option_act q (pure none) _ c₁ _ (λ e results e'. absurd (cc e'))
            λ p e.
              let f = follows p e in
              let heard' =
                All-IsHeard_rest f.read f.rest (subst (All IsHeard) f.frames_lem heard) in
              OnOk-bind (end_probe tr cfg waiting config (length outer) p) _ c₁
                (λ p' c₂. Asks l cfg waiting f.rest p p' c₁ c₂) _
                (end_probe-Asks l cfg waiting config (length outer) f.rest p c₁ heard' f.waits)
                λ p' c₂ a.
                  let g =
                    Follows-trans l.hears fs [] p.results p'.results no_ack p.last_ack p'.last_ack
                      c₁ c₂ f a.follows in
                  OnOk-bind (finish tr cfg waiting config (length outer) p') _ c₂
                    (λ results c₃.
                      Finishes l cfg waiting config (length outer) g.rest p' results c₂ c₃)
                    _
                    (finish-Finishes l cfg waiting config (length outer) g.rest p' c₂
                      (All-IsHeard_rest g.read g.rest (subst (All IsHeard) g.frames_lem heard))
                      g.waits)
                    λ results c₃ z results' e'.
                      subst (λ rs. Probed fs rs c c₃) (some-eq results results' e')
                        (assemble fs results c c₁ c₂ c₃ p p' f.rest (Over-of q p c c₁ over e) a g
                          (λ at_end.
                            said-Follows-trans l.hears fs [] p.results p'.results no_ack p.last_ack
                              p'.last_ack p.last_ack c₁ c₂ f a.follows
                              (done-said p.last_ack f.read f.last at_end))
                          z)
