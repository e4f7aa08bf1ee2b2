-- ===== src/Join/Client/Talk.antt =====
-- host/src/fpga_client.cpp: a run of the client from CONFIGURE to the last acknowledgement.
use fpga_postgresql_hash_joi.Base.Words.{u16, u32}
use fpga_postgresql_hash_joi.Base.{
  ℕ, ◌+◌, ◌≤◌, ◌<◌, ◌≡◌, refl, sym, ap, ◌∙◌, ◌⊎◌, inl, inr, false, Option, none, some, List, [],
  ◌++◌, arith, length, All,
}
use fpga_postgresql_hash_joi.Types.{
  rx_buf_tuples, rx_credit_tuples, phase_byte, InputTuple, ResultPair, StatusPayload, inner_data,
  outer_data, done,
}
use mathlib.Core.Path.{subst}
use mathlib.Core.List.{append_assoc, append-nil}
use fpga_postgresql_hash_joi.Host.Transport.{Transport, ok, pure}
use fpga_postgresql_hash_joi.Host.Outcome.{
  OnOk-self, OnOk, OnOk-bind, OnOk-both, OnOk-mono, OnOk-Option_act,
}
use fpga_postgresql_hash_joi.Host.Serializer.{JoinConfig, serialize_configure}
use fpga_postgresql_hash_joi.Host.Client.{ClientConfig, FpgaClient, effective_config}
use fpga_postgresql_hash_joi.Host.Client.Run.{Sending, set_credit, build_rounds}
use fpga_postgresql_hash_joi.Host.Client.Session.{configure_board, probe_all, join_session}
use fpga_postgresql_hash_joi.RoundTrip.FromBoard.{bytes}
use fpga_postgresql_hash_joi.Join.Output.{BoardFrame, tx_frames}
use fpga_postgresql_hash_joi.Join.Frames.{rows_of, frames_bytes}
use fpga_postgresql_hash_joi.Join.Sends.Rounds.{build_rounds-SentTo, credit-SentTo}
use fpga_postgresql_hash_joi.Join.Heard.{IsHeard, Says, All-IsHeard_rest}
use fpga_postgresql_hash_joi.Join.Heard.Rounds.{Waits}
use fpga_postgresql_hash_joi.Join.Heard.Phases.{build_rounds-Passes}
use fpga_postgresql_hash_joi.Join.Client.{Link, SendsAll, Concludes, ending}
use fpga_postgresql_hash_joi.Join.Client.Probe.{Probed, probe_all-Probed}
use fpga_postgresql_hash_joi.Join.Client.Configure.{InnerTo, Passed, configure_board-InnerTo}

module _ {T : Type 0} {tr : Transport T} (l : Link tr) (client_config : ClientConfig) (waiting : ℕ)
    (config : JoinConfig) (inner outer : List InputTuple) where
  abbrev cfg : ClientConfig
  cfg = effective_config client_config

  sizes : 0 < cfg.max_batch_tuples
  unfolding effective_config
  sizes = ground arith

  small : cfg.max_batch_tuples ≤ rx_buf_tuples
  unfolding effective_config
  small = ground arith

  -- The two sides are sent, and what is heard ends the run.
  pub record Converses (fs : List BoardFrame) (results : List ResultPair) (start c' : FpgaClient T)
      : Type 0 where
    pub unsent : List InputTuple
    pub sends : SendsAll l config inner outer start.active_session_id unsent start c'
    pub concludes : Concludes l cfg waiting config inner outer fs results sends.resets start c'
    pub all_sent :
        (unsent ≡ []) ⊎ ((s : StatusPayload) × Says s concludes.heard × (s.phase ≡ phase_byte done))

  abbrev Inner : FpgaClient T → List InputTuple → FpgaClient T → Type 0
  Inner = InnerTo l cfg waiting sizes small config inner (length outer)

  all_built :
      (q : Option (Unit {0})) (c c₂ : FpgaClient T)
      → ((q ≡ none) ⊎ Inner c [] c₂)
      → {u : Unit {0}} → q ≡ some u
      → Inner c [] c₂
  all_built q c c₂ (inl none_left) e = absurd (cc (none_left, e))
  all_built q c c₂ (inr built) e = built

  probing_from :
      (c c₁ : FpgaClient T)
      → Inner c [] c₁
      → Inner c [] (record c₁ { credit = u16 rx_credit_tuples })
  probing_from c c₁ =
      credit-SentTo l.records cfg waiting config.key_type sizes small inner_data inner
        (l.records.sent c.transport
          ++ serialize_configure config (u32 (length inner)) (u32 (length outer))
              c.active_session_id)
        c.cleanup_enabled (u16 rx_credit_tuples) [] c₁

  -- The build phase is over, and the frames from `rest` on wait.
  record Built (fs rest : List BoardFrame) (c c₁ : FpgaClient T) : Type 0 where
    configured : FpgaClient T
    announced : Sending
    configure_lem :
        configure_board tr cfg waiting config inner (length outer) c ≡ ok announced configured
    build_lem :
        build_rounds tr cfg waiting config.key_type (length inner + 1) announced configured
        ≡ ok (some tt) c₁
    gone : List BoardFrame
    split : fs ≡ gone ++ rest
    waits : Waits l.hears rest c₁
    to : Inner c [] c₁

  converse :
      (fs rest : List BoardFrame) (results : List ResultPair) (c c₁ c₂ : FpgaClient T)
      → Built fs rest c c₁
      → Probed l cfg waiting sizes small config outer rest results
          (record c₁ { credit = u16 rx_credit_tuples })
          c₂
      → Converses fs results c c₂ × (c.cleanup_enabled ≡ false → c₂.cleanup_enabled ≡ false)
  converse fs rest results c c₁ c₂ b p =
      let (s, flag) = probing_from c c₁ b.to in
      (
        record {
          unsent = p.unsent;
          sends = record {
            inner_frames = s.batches;
            outer_frames = p.outer_frames;
            inner_sizes = s.frames;
            outer_sizes = p.outer_sizes;
            inner_lem = s.split ∙ append-nil (rows_of s.batches);
            outer_lem = p.outer_lem;
            asked = p.asked;
            resets = p.resets;
            sent_lem =
                p.sent_lem
                ∙ ap
                    (λ bs.
                      bs
                      ++ (frames_bytes config.key_type outer_data p.outer_frames
                          ++ ending p.asked p.resets))
                    s.sent_lem
                ∙ append_assoc
                    (l.records.sent c.transport
                      ++ serialize_configure config (u32 (length inner)) (u32 (length outer))
                          c.active_session_id)
                    (frames_bytes config.key_type inner_data s.batches) _
                ∙ append_assoc (l.records.sent c.transport)
                    (serialize_configure config (u32 (length inner)) (u32 (length outer))
                      c.active_session_id)
                    _;
          };
          concludes = record {
            configured = b.configured;
            announced = b.announced;
            configure_lem = b.configure_lem;
            built = c₁;
            build_lem = b.build_lem;
            earlier = b.gone;
            heard = p.heard;
            tail = p.tail;
            rest = p.rest;
            frames_lem = b.split ∙ ap (λ r. b.gone ++ r) p.frames_lem;
            built_lem = b.waits ∙ ap (λ r. bytes (tx_frames r)) p.frames_lem;
            left_lem = p.waits;
            closes = p.closes;
            pairs_lem = p.pairs_lem;
            final = p.final;
            says = p.says;
            matched_lem = p.matched_lem;
            over = p.over;
          };
          all_sent = p.all_sent;
        },
        λ off. ground (arith, p.flag_lem, flag, off),
      )

  abbrev BuildEnds :
      FpgaClient T
      → List BoardFrame
      → Sending
      → FpgaClient T
      → Option (Unit {0})
      → FpgaClient T
      → Type 0
  BuildEnds c rest w c₁ q c₂ =
      (build_rounds tr cfg waiting config.key_type (length inner + 1) w c₁ ≡ ok q c₂)
      × (((q ≡ none) ⊎ Inner c [] c₂)
          × Passed l cfg waiting sizes small config inner (length outer) rest c₂)

  build_rounds-BuildEnds :
      (c : FpgaClient T) (rest : List BoardFrame) (w : Sending) (c₁ : FpgaClient T)
      → All IsHeard rest
      → Waits l.hears rest c₁
      → Inner c w.left c₁
      → OnOk
          (build_rounds tr cfg waiting config.key_type (length inner + 1) w c₁)
          (BuildEnds c rest w c₁)
  build_rounds-BuildEnds c rest w c₁ heard k to =
      let run = build_rounds tr cfg waiting config.key_type (length inner + 1) w c₁ in
      OnOk-both run _ _ (OnOk-self run) (
        OnOk-both run _ _
          (build_rounds-SentTo l.records cfg waiting config.key_type sizes small inner_data inner
            (l.records.sent c.transport
              ++ serialize_configure config (u32 (length inner)) (u32 (length outer))
                  c.active_session_id)
            c.cleanup_enabled refl (length inner + 1) w c₁ to)
          (build_rounds-Passes l.hears cfg waiting config.key_type sizes (length inner + 1) rest w
            c₁ heard k))

  pub join_session-Converses :
      (fs : List BoardFrame) (c : FpgaClient T)
      → All IsHeard fs
      → Waits l.hears fs c
      → OnOk (join_session tr cfg waiting config inner outer c) (λ q c'.
        (results : List ResultPair)
        → q ≡ some results
        → Converses fs results c c' × (c.cleanup_enabled ≡ false → c'.cleanup_enabled ≡ false))
  unfolding join_session set_credit
  join_session-Converses fs c heard k =
      OnOk-bind (configure_board tr cfg waiting config inner (length outer)) _ c
        (λ w c₁.
          (configure_board tr cfg waiting config inner (length outer) c ≡ ok w c₁)
          × (Inner c w.left c₁
              × Passed l cfg waiting sizes small config inner (length outer) fs c₁))
        _
        (OnOk-both (configure_board tr cfg waiting config inner (length outer) c) _ _
          (OnOk-self (configure_board tr cfg waiting config inner (length outer) c))
          (configure_board-InnerTo l cfg waiting sizes small config inner (length outer) fs c heard
            k))
        λ w c₁ (run, (to, (gone, rest, split, k₁))).
          let heard₁ = All-IsHeard_rest gone rest (subst (All IsHeard) split heard) in
          OnOk-bind (build_rounds tr cfg waiting config.key_type (length inner + 1) w) _ c₁
            (λ q c₂. BuildEnds c rest w c₁ q c₂) _ (build_rounds-BuildEnds c rest w c₁ heard₁ k₁ to)
            λ q c₂ (run', (built, (gone', rest', split', k₂))).
              OnOk-Option_act q (pure none) _ c₂ _ (λ e results e'. absurd (cc e'))
                λ u e.
                  OnOk-mono
                    (probe_all tr cfg waiting config outer
                      (record c₂ { credit = u16 rx_credit_tuples }))
                    _ _
                    (λ q' c₃ probed results e'.
                      converse fs rest' results c c₂ c₃
                        (record {
                          configured = c₁;
                          announced = w;
                          configure_lem = run;
                          build_lem = run' ∙ ap (λ q. ok q c₂) e;
                          gone = gone ++ gone';
                          split =
                              split
                              ∙ ap (λ r. gone ++ r) split'
                              ∙ sym (append_assoc gone gone' rest');
                          waits = k₂;
                          to = all_built q c c₂ built e;
                        })
                        (probed results e'))
                    (probe_all-Probed l cfg waiting sizes small config outer rest'
                      (record c₂ { credit = u16 rx_credit_tuples })
                      (All-IsHeard_rest gone' rest' (subst (All IsHeard) split' heard₁)) k₂)
