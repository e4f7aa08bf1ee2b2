-- ===== src/Host/Client/Session.antt =====
-- host/src/fpga_client.cpp: `run_hash_join` as a whole, from CONFIGURE to the last acknowledgement.
use fpga_postgresql_hash_joi.Base.Words.{u16, u32, add32}
use fpga_postgresql_hash_joi.Base.{
  ℕ, zero, suc, ◌+◌, Bool, true, false, not, ◌&&◌, Option, none, some, List, [], ◌∷◌, ◌++◌, leb,
  ◌==◌, if◌then◌else◌, length, take, drop,
}
use fpga_postgresql_hash_joi.Types.{
  rx_buf_tuples, rx_credit_tuples, algorithm_a, msg_byte, phase_byte, InputTuple, ResultPair,
  StatusPayload, configure, inner_data, outer_data, reset, idle, probing, done,
}
use Prim.Native.Nat.{min}
use fpga_postgresql_hash_joi.Host.Transport.{
  Act, ◌>>=◌, ◌>>◌, pure, raise, Result, Transport, ok, throw, timeout, matched_mismatch, not_done,
  reset_not_idle,
}
use fpga_postgresql_hash_joi.Host.Serializer.{JoinConfig, serialize_configure, serialize_batch}
use fpga_postgresql_hash_joi.Host.Metrics.{fresh_metrics}
use fpga_postgresql_hash_joi.Host.Client.{
  ClientConfig, FpgaClient, collect_until_ack, send_counted, send_reset, matched_count_agrees,
  wait_config, wait_probe, wait_final_status, wait_reset,
}
use fpga_postgresql_hash_joi.Host.Client.Run.{
  Sending, sending_all, Probing, is_empty, next_session_id, set_credit, take_credit, set_cleanup,
  note_coalesced, build_rounds, probe_rounds, no_ack,
}

-- The frame that asks for the pairs of a probe phase whose rows are all there.
abbrev pub probe_end_frame : List ℕ
probe_end_frame = msg_byte outer_data ∷ 0 ∷ 0 ∷ []

abbrev pub reset_frame : List ℕ
reset_frame = msg_byte reset ∷ 0 ∷ 0 ∷ []

unfoldable pub asks_probe_end : JoinConfig → ℕ → StatusPayload → Bool
asks_probe_end config outer_count s =
    config.algorithm == algorithm_a
    && not (outer_count == 0)
    && s.phase == phase_byte probing
    && not (s.credit == 0)
    && leb outer_count s.rows_processed

-- The last probe acknowledgement may stand for the final one.
unfoldable pub is_final_probe_ack :
    ClientConfig → JoinConfig → ℕ → StatusPayload → List ResultPair → Bool
unfolding matched_count_agrees
is_final_probe_ack cfg config outer_count s results =
    cfg.infer_done_from_probe_ack
    && config.algorithm == algorithm_a
    && s.phase == phase_byte probing
    && s.credit == 0
    && leb outer_count s.rows_processed
    && matched_count_agrees results s

unfoldable pub verify_matched_count :
    {T : Type 0} → List ResultPair → StatusPayload → Act (FpgaClient T) (Unit {0})
unfolding matched_count_agrees
verify_matched_count results s =
    if matched_count_agrees results s
    then pure tt
    else raise (matched_mismatch s.rows_matched (length results))

-- What is caught while the answer to a RESET is awaited: the end of the time, and nothing else.
unfoldable pub reset_answer :
    {T : Type 0}
    → Result (FpgaClient T) (StatusPayload × List ResultPair)
    → Result (FpgaClient T) (Option StatusPayload)
reset_answer (ok (s, tail) c) = ok (some s) c
reset_answer (throw timeout c) = ok none c
reset_answer (throw e c) = throw e c

module _ {T : Type 0} (tr : Transport T) (cfg : ClientConfig) (waiting : ℕ) where
  -- The attempts left; the last one that brings another phase fails.
  unfoldable pub await_reset : ℕ → Act (FpgaClient T) (Unit {0})
  unfolding reset_answer collect_until_ack
  await_reset zero c = ok tt c
  await_reset (suc n) c = elim (reset_answer (collect_until_ack tr waiting wait_reset [] c)) [
    | throw e c' ↦ throw e c'
    | ok none c' ↦ ok tt c'
    | ok (some s) c' ↦ elim (s.phase == phase_byte idle) [
      | true ↦ ok tt c'
      | false ↦ elim (n == 0) [ true ↦ throw reset_not_idle c' | false ↦ await_reset n c' ]
    ]
  ]

  -- CONFIGURE, perhaps with the first inner frame behind it, and its acknowledgement.
  unfoldable pub configure_board : JoinConfig → List InputTuple → ℕ → Act (FpgaClient T) Sending
  unfolding serialize_configure serialize_batch send_counted collect_until_ack set_credit
      take_credit note_coalesced
  configure_board config inner outer_count c =
      let frame =
        serialize_configure config (u32 (length inner)) (u32 outer_count) c.active_session_id in
      let batch = min rx_buf_tuples (min cfg.max_batch_tuples (length inner)) in
      (if cfg.coalesce_config_first_inner && not (is_empty inner)
          then (note_coalesced
              >> (send_counted tr
                    (frame ++ serialize_batch config.key_type inner_data (take batch inner) batch)
                    configure
                  >> (collect_until_ack tr waiting wait_config [] >>= λ (s, unused).
                      set_credit s.credit
                      >> (take_credit batch
                          >> pure (record {
                            left = drop batch inner;
                            inflight = batch ∷ [];
                            acked_rows = 0;
                          })))))
          else (send_counted tr frame configure
              >> (collect_until_ack tr waiting wait_config [] >>= λ (s, unused).
                  set_credit s.credit >> pure (sending_all inner))))
        c

  -- Once the outer rows are there, the kernel is asked for the pairs that it still keeps.
  unfoldable pub end_probe : JoinConfig → ℕ → Probing → Act (FpgaClient T) Probing
  unfolding asks_probe_end send_counted collect_until_ack set_credit
  end_probe config outer_count p =
      if asks_probe_end config outer_count p.last_ack
      then (send_counted tr probe_end_frame outer_data
          >> (collect_until_ack tr waiting wait_probe p.results >>= λ (s, results).
              set_credit s.credit >> pure (record p { results = results; last_ack = s })))
      else pure p

  unfoldable pub finish_inferred :
      StatusPayload → List ResultPair → Act (FpgaClient T) (List ResultPair)
  unfolding verify_matched_count send_reset set_cleanup await_reset
  finish_inferred s results =
      verify_matched_count results s
      >> (send_reset tr >> (set_cleanup false >> (await_reset 8 >> pure results)))

  unfoldable pub finish_drained : List ResultPair → Act (FpgaClient T) (List ResultPair)
  unfolding collect_until_ack verify_matched_count
  finish_drained results = collect_until_ack tr waiting wait_final_status [] >>= λ (s, tail).
      if not (s.phase == phase_byte done)
      then raise not_done
      else (verify_matched_count (results ++ tail) s >> pure (results ++ tail))

  unfoldable pub finish : JoinConfig → ℕ → Probing → Act (FpgaClient T) (List ResultPair)
  unfolding finish_inferred finish_drained verify_matched_count is_final_probe_ack
  finish config outer_count p =
      if not (p.last_ack.phase == phase_byte done)
        && is_final_probe_ack cfg config outer_count p.last_ack p.results
      then finish_inferred p.last_ack p.results
      else if not (p.last_ack.phase == phase_byte done)
      then finish_drained p.results
      else (verify_matched_count p.results p.last_ack >> pure p.results)

  unfoldable pub probe_all :
      JoinConfig → List InputTuple → Act (FpgaClient T) (Option (List ResultPair))
  unfolding probe_rounds end_probe finish
  probe_all config outer =
      probe_rounds tr cfg waiting config.key_type (length outer + 1) (record {
        sending = sending_all outer;
        results = [];
        last_ack = no_ack;
        reached_done = false;
      })
      >>= elim [
        | none ↦ pure none
        | some p ↦
            (end_probe config (length outer) p >>= λ p'.
            finish config (length outer) p' >>= λ results. pure (some results))
      ]

  unfoldable pub join_session :
      JoinConfig → List InputTuple → List InputTuple → Act (FpgaClient T) (Option (List ResultPair))
  unfolding configure_board build_rounds probe_all set_credit
  join_session config inner outer = configure_board config inner (length outer) >>= λ w.
      build_rounds tr cfg waiting config.key_type (length inner + 1) w >>= elim [
        | none ↦ pure none
        | some _ ↦ set_credit (u16 rx_credit_tuples) >> probe_all config outer
      ]

  -- The destructor of `SessionCleanup`: it sends a RESET past the counters, and no exception leaves
  -- it.
  unfoldable pub clean_up : FpgaClient T → FpgaClient T
  clean_up c =
      if c.cleanup_enabled
      then elim (tr.send reset_frame c.transport) [
        | ok _ t ↦ record c { transport = t }
        | throw _ t ↦ record c { transport = t }
      ]
      else c

  unfoldable pub run_hash_join :
      JoinConfig → List InputTuple → List InputTuple → Act (FpgaClient T) (Option (List ResultPair))
  unfolding join_session clean_up next_session_id fresh_metrics
  run_hash_join config inner outer c =
      let automatic = cfg.session_id_override == 0 in
      elim (join_session config inner outer (record c {
        credit = 0;
        active_session_id =
            if automatic then next_session_id c.session_counter else cfg.session_id_override;
        session_counter = if automatic then add32 c.session_counter 1 else c.session_counter;
        metrics = fresh_metrics;
        cleanup_enabled = cfg.reset_after_run;
      })) [ ok results c' ↦ ok results (clean_up c') | throw e c' ↦ throw e (clean_up c') ]
