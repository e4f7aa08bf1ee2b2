-- ===== src/Join/Client/Verdict.antt =====
-- The last step of a run of the client: which acknowledgement ends it, and what it counts.

use fpga_postgresql_hash_joi.Join.Client.Closing.{
  Told, send_counted-Told, Awaited, await_reset-Awaited,
}
use mathlib.Core.Path.{subst}
use fpga_postgresql_hash_joi.Base.{
  ℕ, ◌≡◌, refl, sym, ap, ◌∙◌, ◌⊎◌, inl, inr, Bool, true, false, not, ◌&&◌, List, [], ◌++◌, arith,
  ◌==◌, if◌then◌else◌, length, All,
}
use fpga_postgresql_hash_joi.Types.{phase_byte, ResultPair, StatusPayload, reset, done}
use mathlib.Core.List.{append-nil}
use fpga_postgresql_hash_joi.Host.Transport.{Transport, pure, raise, not_done}
use fpga_postgresql_hash_joi.Host.Outcome.{OnOk, OnOk-bind, OnOk-if, Always-OnOk, OnOk-both}
use fpga_postgresql_hash_joi.Host.Serializer.{JoinConfig}
use fpga_postgresql_hash_joi.Host.Client.{
  ClientConfig, FpgaClient, collect_until_ack, send_counted, send_reset, matched_count_agrees,
  wait_final_status,
}
use fpga_postgresql_hash_joi.Host.Client.Run.{Probing, set_cleanup}
use fpga_postgresql_hash_joi.Host.Client.Session.{
  reset_frame, is_final_probe_ack, verify_matched_count, await_reset, finish_inferred,
  finish_drained, finish,
}
use fpga_postgresql_hash_joi.Join.Output.{BoardFrame, pairs_of, tx_frames}
use fpga_postgresql_hash_joi.RoundTrip.FromBoard.{bytes}
use fpga_postgresql_hash_joi.Join.Sends.{collect_until_ack-sent}
use fpga_postgresql_hash_joi.Join.Heard.{IsHeard, Says}
use fpga_postgresql_hash_joi.Join.Heard.Rounds.{Waits, collect-Follows, Follows}
use fpga_postgresql_hash_joi.Join.Client.{Link, Closes}

verify_matched_count-agrees :
    {T : Type 0} (results : List ResultPair) (s : StatusPayload) (c : FpgaClient T)
    → OnOk (verify_matched_count results s c) (λ _ c'. (s.rows_matched ≡ length results) × (c' ≡ c))
unfolding verify_matched_count matched_count_agrees
verify_matched_count-agrees results s c =
    OnOk-if (s.rows_matched == length results) (pure tt) _ c
      (λ _ c'. (s.rows_matched ≡ length results) × (c' ≡ c)) (λ e. (ground (arith, e), refl))
      (λ e. tt)

module _ {T : Type 0} {tr : Transport T} (l : Link tr) (cfg : ClientConfig) (waiting : ℕ)
    (config : JoinConfig) (outer_count : ℕ) where
  -- An acknowledgement ends the session, and counts the pairs of all the frames that were read up
  -- to it. Behind a RESET more frames are read; the others wait.
  pub record Finishes (fs : List BoardFrame) (p : Probing) (results : List ResultPair)
      (c c' : FpgaClient T) : Type 0 where
    pub final : StatusPayload
    pub read : List BoardFrame
    pub tail : List BoardFrame
    pub rest : List BoardFrame
    pub frames_lem : fs ≡ read ++ (tail ++ rest)
    pub pairs_lem : results ≡ p.results ++ pairs_of read
    pub last : (final ≡ p.last_ack) ⊎ Says final read
    pub matched_lem : final.rows_matched ≡ length results
    pub over :
        (final.phase ≡ phase_byte done)
        ⊎ (is_final_probe_ack cfg config outer_count final results ≡ true)
    pub resets : Bool
    pub sent_lem :
        l.records.sent c'.transport
        ≡ l.records.sent c.transport ++ (if resets then reset_frame else [])
    pub flag_lem : c'.cleanup_enabled ≡ (if resets then false else c.cleanup_enabled)
    pub closes : Closes l cfg waiting resets tail rest c'
    pub waits : Waits l.hears rest c'

  finish_inferred-Finishes :
      (fs : List BoardFrame) (p : Probing) (c : FpgaClient T)
      → All IsHeard fs
      → Waits l.hears fs c
      → is_final_probe_ack cfg config outer_count p.last_ack p.results ≡ true
      → OnOk
          (finish_inferred tr cfg waiting p.last_ack p.results c)
          (λ results c'. Finishes fs p results c c')
  unfolding finish_inferred send_reset set_cleanup
  finish_inferred-Finishes fs p c heard k e =
      OnOk-bind (verify_matched_count p.results p.last_ack) _ c
        (λ _ c'. (p.last_ack.rows_matched ≡ length p.results) × (c' ≡ c)) _
        (verify_matched_count-agrees p.results p.last_ack c)
        λ _ c₁ (counted, same).
          let k₁ = subst (Waits l.hears fs) (sym same) k in
          OnOk-bind (send_counted tr reset_frame reset) _ c₁ (λ _ c₂. Told l fs c₁ c₂) _
            (send_counted-Told l fs c₁ k₁)
            λ _ c₂ (told, (k₂, (sent₂, _))).
              let c₃ : FpgaClient T = record c₂ { cleanup_enabled = false } in
              OnOk-bind (await_reset tr cfg waiting 8) _ c₃ (λ _ c₄. Awaited l cfg waiting fs c₃ c₄)
                _ (await_reset-Awaited l cfg waiting fs c₃ heard k₂)
                λ _ c₄ (awaited, ((gone, rest, split, k₄), (sent₄, flag₄))). record {
                  final = p.last_ack;
                  read = [];
                  tail = gone;
                  rest = rest;
                  frames_lem = split;
                  closes = inr (
                    refl,
                    record {
                      closing = c₁;
                      told = c₂;
                      waits_lem = k₁ ∙ ap (λ r. bytes (tx_frames r)) split;
                      reset_lem = told;
                      await_lem = awaited;
                    },
                  );
                  waits = k₄;
                  pairs_lem = sym (append-nil p.results);
                  last = inl refl;
                  matched_lem = counted;
                  over = inr e;
                  resets = true;
                  sent_lem =
                      sent₄ ∙ sent₂ ∙ ap (λ d. l.records.sent d.transport ++ reset_frame) same;
                  flag_lem = flag₄;
                }

  finish_drained-Finishes :
      (fs : List BoardFrame) (p : Probing) (c : FpgaClient T)
      → All IsHeard fs
      → Waits l.hears fs c
      → OnOk (finish_drained tr cfg waiting p.results c) (λ results c'. Finishes fs p results c c')
  unfolding finish_drained
  finish_drained-Finishes fs p c heard k =
      OnOk-bind (collect_until_ack tr waiting wait_final_status []) _ c
        (λ r c₁.
          ((f : Follows l.hears fs [] p.last_ack r.1 r.0 c₁) × Says r.0 f.read)
          × ((l.records.sent c₁.transport ≡ l.records.sent c.transport)
              × (c₁.cleanup_enabled ≡ c.cleanup_enabled)))
        _
        (OnOk-both (collect_until_ack tr waiting wait_final_status [] c) _ _
          (collect-Follows l.hears waiting wait_final_status [] p.last_ack fs c heard k)
          (Always-OnOk (collect_until_ack tr waiting wait_final_status [] c) _
            (collect_until_ack-sent l.records 0 waiting wait_final_status [] c)))
        λ r c₁ ((f, says), (e, flag)).
          OnOk-if (not (r.0.phase == phase_byte done)) (raise not_done) _ c₁ _ (λ e. tt)
            λ at_end.
              OnOk-bind (verify_matched_count (p.results ++ r.1) r.0) _ c₁
                (λ _ c₂. (r.0.rows_matched ≡ length (p.results ++ r.1)) × (c₂ ≡ c₁)) _
                (verify_matched_count-agrees (p.results ++ r.1) r.0 c₁)
                λ _ c₂ (counted, same). record {
                  final = r.0;
                  read = f.read;
                  tail = [];
                  rest = f.rest;
                  closes = inl (refl, refl);
                  waits = subst (Waits l.hears f.rest) (sym same) f.waits;
                  frames_lem = f.frames_lem;
                  pairs_lem = ap (λ ps. p.results ++ ps) f.pairs_lem;
                  last = inr says;
                  matched_lem = counted;
                  over = inl (ground (arith, at_end));
                  resets = false;
                  sent_lem =
                      ap (λ d. l.records.sent d.transport) same
                      ∙ e
                      ∙ sym (append-nil (l.records.sent c.transport));
                  flag_lem = ap (λ d. d.cleanup_enabled) same ∙ flag;
                }

  pub finish-Finishes :
      (fs : List BoardFrame) (p : Probing) (c : FpgaClient T)
      → All IsHeard fs
      → Waits l.hears fs c
      → OnOk
          (finish tr cfg waiting config outer_count p c)
          (λ results c'. Finishes fs p results c c')
  unfolding finish
  finish-Finishes fs p c heard k =
      OnOk-if
        (not (p.last_ack.phase == phase_byte done)
          && is_final_probe_ack cfg config outer_count p.last_ack p.results)
        _ _ c _ (λ inferred. finish_inferred-Finishes fs p c heard k (ground (arith, inferred)))
        λ other.
          OnOk-if (not (p.last_ack.phase == phase_byte done)) _ _ c _
            (λ going. finish_drained-Finishes fs p c heard k)
            λ over.
              OnOk-bind (verify_matched_count p.results p.last_ack) _ c
                (λ _ c'. (p.last_ack.rows_matched ≡ length p.results) × (c' ≡ c)) _
                (verify_matched_count-agrees p.results p.last_ack c)
                λ _ c₁ (counted, same). record {
                  final = p.last_ack;
                  read = [];
                  tail = [];
                  rest = fs;
                  frames_lem = refl;
                  closes = inl (refl, refl);
                  waits = subst (Waits l.hears fs) (sym same) k;
                  pairs_lem = sym (append-nil p.results);
                  last = inl refl;
                  matched_lem = counted;
                  over = inl (ground (arith, over));
                  resets = false;
                  sent_lem =
                      ap (λ d. l.records.sent d.transport) same
                      ∙ sym (append-nil (l.records.sent c.transport));
                  flag_lem = ap (λ d. d.cleanup_enabled) same;
                }
