-- ===== src/Host/Client/Ends.antt =====
-- host/src/fpga_client.cpp: a run of `run_hash_join` comes to its end.
use fpga_postgresql_hash_joi.Base.Words.{u16}
use fpga_postgresql_hash_joi.Base.{
  ℕ, ◌+◌, ◌<◌, ◌≡◌, refl, ◌≢◌, inr, not, ◌&&◌, none, some, List, [], arith, length, length-drop,
}
use fpga_postgresql_hash_joi.Types.{
  rx_buf_tuples, rx_credit_tuples, MsgType, InputTuple, ResultPair, StatusPayload, configure,
}
use Prim.Native.Nat.{min}
use fpga_postgresql_hash_joi.Host.Transport.{Transport, Act, ok, ◌>>=◌, ◌>>◌, pure}
use fpga_postgresql_hash_joi.Host.Outcome.{
  OnOk, OnOk-bind, OnOk-all, OnOk-if, OnOk-eq, OnOk-Option_act, OnOk-after,
}
use fpga_postgresql_hash_joi.Host.Metrics.{count_coalesced}
use fpga_postgresql_hash_joi.Host.Serializer.{JoinConfig}
use fpga_postgresql_hash_joi.Host.Client.{
  ClientConfig, effective_config, AckWaitKind, FpgaClient, collect_until_ack, send_counted,
  wait_config,
}
use fpga_postgresql_hash_joi.Host.Client.Run.{
  Probing, is_empty, set_credit, take_credit, note_coalesced, build_rounds, probe_rounds,
}
use fpga_postgresql_hash_joi.Host.Client.Session.{
  configure_board, probe_all, join_session, run_hash_join, end_probe, finish, clean_up,
}
use fpga_postgresql_hash_joi.Host.Client.Rounds.{
  HasUnacked, length_pos, build_rounds-ends, probe_rounds-ends,
}

module _ {T : Type 0} (tr : Transport T) (client_config : ClientConfig) (waiting : ℕ) where
  abbrev cfg : ClientConfig
  cfg = effective_config client_config

  sizes : 0 < cfg.max_batch_tuples
  unfolding effective_config
  sizes = ground arith

  -- A frame is sent, and its acknowledgement awaited: what follows decides.
  exchange-OnOk :
      {A : Type 0} (bytes : List ℕ) (msg : MsgType) (kind : AckWaitKind) (out : List ResultPair)
      (next : StatusPayload × List ResultPair → Act (FpgaClient T) A) (c : FpgaClient T)
      (Q : A → FpgaClient T → Type 0)
      → ((r : StatusPayload × List ResultPair) (c' : FpgaClient T) → OnOk (next r c') Q)
      → OnOk ((send_counted tr bytes msg >> (collect_until_ack tr waiting kind out >>= next)) c) Q
  exchange-OnOk bytes msg kind out next c Q after =
      OnOk-bind (send_counted tr bytes msg) _ c (λ _ _. Unit) Q
        (OnOk-all _ (λ _ _. Unit) (λ _ _. tt))
        λ _ c₁ _.
          OnOk-bind (collect_until_ack tr waiting kind out) next c₁ (λ _ _. Unit) Q
            (OnOk-all _ (λ _ _. Unit) (λ _ _. tt)) λ r c₂ _. after r c₂

  configure_board-HasUnacked :
      (config : JoinConfig) (inner : List InputTuple) (outer_count : ℕ) (c : FpgaClient T)
      → OnOk
          (configure_board tr cfg waiting config inner outer_count c)
          (λ w c'. HasUnacked (length inner) w)
  unfolding configure_board note_coalesced take_credit set_credit
  configure_board-HasUnacked config inner outer_count c =
      OnOk-if (cfg.coalesce_config_first_inner && not (is_empty inner)) _ _ c
        (λ w c'. HasUnacked (length inner) w)
        (λ both.
          let some_rows : 0 < length inner = length_pos inner (ground (arith, both)) in
          let batch = min rx_buf_tuples (min cfg.max_batch_tuples (length inner)) in
          exchange-OnOk _ configure wait_config [] _
            (record c { metrics = count_coalesced c.metrics }) (λ w c'. HasUnacked (length inner) w)
            λ r c'. ((omega (arith, some_rows, sizes), tt), omega (arith, length-drop batch inner)))
        (λ alone.
          exchange-OnOk _ configure wait_config [] _ c (λ w c'. HasUnacked (length inner) w)
            λ r c'. (tt, omega arith))

  probe_all-ends :
      (config : JoinConfig) (outer : List InputTuple) (c : FpgaClient T)
      → OnOk (probe_all tr cfg waiting config outer c) (λ r c'. r ≢ none)
  unfolding probe_all
  probe_all-ends config outer c =
      OnOk-bind (probe_rounds tr cfg waiting config.key_type (length outer + 1) _) _ c
        (λ r c'. (p : Probing) × (r ≡ some p)) (λ r c'. r ≢ none)
        (probe_rounds-ends tr cfg waiting config.key_type sizes (length outer + 1) (length outer) _
          c (inr (tt, omega arith)) (omega arith))
        λ r c' (p, e).
          OnOk-Option_act r (pure none) _ c' (λ r c'. r ≢ none)
            (λ none_left. absurd (cc (e, none_left)))
            λ p' _.
              OnOk-bind (end_probe tr cfg waiting config (length outer) p') _ c' (λ _ _. Unit)
                (λ r c'. r ≢ none) (OnOk-all _ (λ _ _. Unit) (λ _ _. tt))
                λ p'' c'' _.
                  OnOk-bind (finish tr cfg waiting config (length outer) p'') _ c'' (λ _ _. Unit)
                    (λ r c'. r ≢ none) (OnOk-all _ (λ _ _. Unit) (λ _ _. tt))
                    λ results c₃ _ same. cc same

  join_session-ends :
      (config : JoinConfig) (inner outer : List InputTuple) (c : FpgaClient T)
      → OnOk (join_session tr cfg waiting config inner outer c) (λ r c'. r ≢ none)
  unfolding join_session set_credit
  join_session-ends config inner outer c =
      OnOk-bind (configure_board tr cfg waiting config inner (length outer)) _ c
        (λ w c'. HasUnacked (length inner) w) (λ r c'. r ≢ none)
        (configure_board-HasUnacked config inner (length outer) c)
        λ w c₁ h.
          OnOk-bind (build_rounds tr cfg waiting config.key_type (length inner + 1) w) _ c₁
            (λ r c'. r ≡ some tt) (λ r c'. r ≢ none)
            (build_rounds-ends tr cfg waiting config.key_type sizes (length inner + 1)
              (length inner) w c₁ h (omega arith))
            λ r c₂ e.
              OnOk-Option_act r (pure none) _ c₂ (λ r c'. r ≢ none)
                (λ none_left. absurd (cc (e, none_left)))
                λ _ _. probe_all-ends config outer (record c₂ { credit = u16 rx_credit_tuples })

  -- The loops of a run always have rounds enough: a run that returns has a list of results. The
  -- transport may do anything.
  pub run_hash_join-ends :
      (config : JoinConfig) (inner outer : List InputTuple) (c c' : FpgaClient T)
      → run_hash_join tr cfg waiting config inner outer c ≢ ok none c'
  unfolding run_hash_join
  run_hash_join-ends config inner outer c c' e =
      OnOk-eq (run_hash_join tr cfg waiting config inner outer c) (λ r c'. r ≢ none) none c'
        (OnOk-after (join_session tr cfg waiting config inner outer _) (clean_up tr cfg waiting)
          (λ r c'. r ≢ none) (λ r c'. r ≢ none) (join_session-ends config inner outer _)
          (λ r c' h. h))
        e refl
