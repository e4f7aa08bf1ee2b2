-- ===== src/Host/Software/Stalls.antt =====
-- A run of the client over the software kernel.
use fpga_postgresql_hash_joi.Types.{
  rx_buf_tuples, MsgType, msg_byte, InputTuple, ResultPair, StatusPayload, configure, inner_data,
  outer_data, building,
}
use fpga_postgresql_hash_joi.Base.Words.{u32}
use fpga_postgresql_hash_joi.Base.{
  ℕ, zero, suc, ◌+◌, ◌<◌, ◌≡◌, refl, ◌≢◌, true, false, not, ◌&&◌, Option, some, List, [], ◌∷◌, ◌++◌,
  arith, ltb, leb, ◌==◌, length, take, All, All-left, All-right, if_cases,
}
use mathlib.Core.List.{append-nil}
use mathlib.Core.Path.{subst}
use Prim.Native.Nat.{min}
use fpga_postgresql_hash_joi.Host.Transport.{Act, ◌>>=◌, ◌>>◌, raise, zero_credit, ok}
use fpga_postgresql_hash_joi.Host.Outcome.{
  OnOk, OnOk-bind, OnOk-mono, OnOk-eq, OnOk-if, OnOk-Bool, OnOk-after,
}
use fpga_postgresql_hash_joi.Host.Serializer.{JoinConfig, serialize_configure, serialize_batch}
use fpga_postgresql_hash_joi.Host.Decoder.{byte_at}
use fpga_postgresql_hash_joi.Host.Metrics.{count_coalesced}
use fpga_postgresql_hash_joi.Host.Client.{
  ClientConfig, effective_config, AckWaitKind, FpgaClient, apply_cumulative_ack, collect_until_ack,
  send_counted, wait_config, wait_build,
}
use fpga_postgresql_hash_joi.Host.Client.Run.{
  Sending, is_empty, is_drained, set_credit, take_credit, note_coalesced, advance, send_batch,
  send_rounds, send_window, build_round, build_rounds,
}
use fpga_postgresql_hash_joi.Host.Client.Session.{
  configure_board, join_session, clean_up, run_hash_join,
}
use fpga_postgresql_hash_joi.Host.Client.Rounds.{send_rounds_step}
use fpga_postgresql_hash_joi.Host.Software.{SoftwareKernel, software_send, software_kernel}
use fpga_postgresql_hash_joi.Host.Software.Answers.{software_delivers}
use fpga_postgresql_hash_joi.Join.Heard.{collect_until_ack-Heard}
use fpga_postgresql_hash_joi.Host.Software.Mute.{
  IsMute, IsMuted, handle_frame-IsMuted, IsMute-IsHeard, IsMute-rows,
}

serialize_batch-inner :
    (key_type n : ℕ) (ts : List InputTuple)
    → (byte_at (serialize_batch key_type inner_data ts n) 0 == msg_byte outer_data) ≡ false
unfolding serialize_batch byte_at
serialize_batch-inner key_type n ts =
    if_cases (λ bs. (byte_at bs 0 == msg_byte outer_data) ≡ false) (min (length ts) n == 0) _ _
      (λ _. refl) λ _. refl

serialize_configure-configure :
    (config : JoinConfig) (inner_count outer_count id : ℕ) (more : List ℕ)
    → (byte_at (serialize_configure config inner_count outer_count id ++ more) 0
        == msg_byte outer_data)
      ≡ false
unfolding serialize_configure byte_at
serialize_configure-configure config inner_count outer_count id more = refl

-- An acknowledgement of no row takes nothing out of the window.
advance-stuck :
    {T : Type 0} (s : StatusPayload) (w : Sending) (c : FpgaClient T)
    → s.rows_processed ≡ 0
    → is_empty w.inflight ≡ false
    → OnOk (advance building s w c) (λ _ _. ⊥)
unfolding advance apply_cumulative_ack
advance-stuck s w c e some_sent =
    let nothing : leb s.rows_processed w.acked_rows ≡ true = ground (arith, e) in
    rw (nothing, some_sent) tt

module _ (waiting : ℕ) where
  abbrev Muted : FpgaClient SoftwareKernel → Type 0
  Muted c = IsMuted c.transport

  send_counted-Muted :
      (frame : List ℕ) (type : MsgType) (c : FpgaClient SoftwareKernel)
      → (byte_at frame 0 == msg_byte outer_data) ≡ false
      → Muted c
      → OnOk (send_counted software_kernel frame type c) (λ _ c'. Muted c')
  unfolding send_counted software_send
  send_counted-Muted frame type c other h =
      if_cases IsMuted (ltb (length frame) 3) _ _ (λ _. h)
        (λ _.
          handle_frame-IsMuted frame
            (record c.transport { all_sent = c.transport.all_sent ++ frame }) other h)

  collect-Muted :
      (kind : AckWaitKind) (out : List ResultPair) (c : FpgaClient SoftwareKernel)
      → Muted c
      → OnOk
          (collect_until_ack software_kernel waiting kind out c)
          (λ r c'. (r.0.rows_processed ≡ 0) × Muted c')
  collect-Muted kind out c (fs, mute, p) =
      OnOk-mono (collect_until_ack software_kernel waiting kind out c) _ _
        (λ r c' h.
          let parts : All IsMute (h.read ++ h.rest) = subst (All IsMute) h.frames_lem mute in
          let read : All IsMute (h.says.earlier ++ (h.says.saying ∷ h.says.later)) =
            subst (All IsMute) h.says.read_lem (All-left IsMute h.read h.rest parts) in
          let said = All-right IsMute h.says.earlier (h.says.saying ∷ h.says.later) read in
          (
            IsMute-rows h.says.saying (r.0) (said.0) h.says.status_lem,
            (h.rest, All-right IsMute h.read h.rest parts, h.left),
          ))
        (collect_until_ack-Heard software_kernel software_delivers waiting kind out fs c
          (IsMute-IsHeard fs mute) p)

  module _ (cfg : ClientConfig) (sizes : 0 < cfg.max_batch_tuples) where
    send_batch-Muted :
        (key_type batch : ℕ) (w : Sending) (c : FpgaClient SoftwareKernel)
        → Muted c
        → OnOk
            (send_batch software_kernel cfg waiting key_type inner_data batch w c)
            (λ w' c'. Muted c')
    unfolding send_batch take_credit
    send_batch-Muted key_type batch w c h =
        OnOk-bind
          (send_counted software_kernel
            (serialize_batch key_type inner_data (take batch w.left) batch) inner_data)
          _ _ (λ _ c'. Muted c') (λ _ c'. Muted c')
          (send_counted-Muted _ inner_data _
            (serialize_batch-inner key_type batch (take batch w.left)) h)
          λ _ c' h'. h'

    send_rounds-Muted :
        (n key_type : ℕ) (w : Sending) (c : FpgaClient SoftwareKernel)
        → Muted c
        → OnOk
            (send_rounds software_kernel cfg waiting key_type n inner_data w c)
            (λ w' c'. Muted c')
    send_rounds-Muted zero key_type w c h = unfold send_rounds in h
    send_rounds-Muted (suc n) key_type w c h =
        send_rounds_step software_kernel cfg waiting key_type sizes n inner_data w c
          (λ w' c'. Muted c') (λ _. h)
          λ batch _.
            OnOk-bind (send_batch software_kernel cfg waiting key_type inner_data batch w) _ c
              (λ _ c'. Muted c') (λ _ c'. Muted c') (send_batch-Muted key_type batch w c h)
              λ w' c' h'. send_rounds-Muted n key_type w' c' h'

    build_round-stuck :
        (key_type : ℕ) (w : Sending) (c : FpgaClient SoftwareKernel)
        → Muted c
        → OnOk (build_round software_kernel cfg waiting key_type w c) (λ _ _. ⊥)
    unfolding build_round send_window set_credit
    build_round-stuck key_type w c h =
        OnOk-bind (send_rounds software_kernel cfg waiting key_type (length w.left) inner_data w) _
          c (λ _ c'. Muted c') (λ _ _. ⊥) (send_rounds-Muted (length w.left) key_type w c h)
          λ w₁ c₁ h₁.
            OnOk-if (is_empty w₁.inflight) (raise (zero_credit building)) _ c₁ _ (λ _. tt)
              λ some_sent.
                OnOk-bind (collect_until_ack software_kernel waiting wait_build []) _ c₁
                  (λ r c'. (r.0.rows_processed ≡ 0) × Muted c') (λ _ _. ⊥)
                  (collect-Muted wait_build [] c₁ h₁)
                  λ r c₂ (z, _).
                    advance-stuck (r.0) w₁ (record c₂ { credit = r.0.credit }) z some_sent

    -- Bytes that are no frame of outer rows are sent, and CONFIGURE is acknowledged.
    exchange-Muted :
        (frame : List ℕ) (c : FpgaClient SoftwareKernel)
        (next : StatusPayload × List ResultPair → Act (FpgaClient SoftwareKernel) Sending)
        (Q : Sending → FpgaClient SoftwareKernel → Type 0)
        → (byte_at frame 0 == msg_byte outer_data) ≡ false
        → Muted c
        → ((r : StatusPayload × List ResultPair) (c' : FpgaClient SoftwareKernel)
            → Muted c'
            → OnOk (next r c') Q)
        → OnOk
            ((send_counted software_kernel frame configure
                >> (collect_until_ack software_kernel waiting wait_config [] >>= next))
              c)
            Q
    exchange-Muted frame c next Q other h after =
        OnOk-bind (send_counted software_kernel frame configure) _ c (λ _ c₁. Muted c₁) Q
          (send_counted-Muted frame configure c other h)
          λ _ c₁ h₁.
            OnOk-bind (collect_until_ack software_kernel waiting wait_config []) next c₁
              (λ r c'. (r.0.rows_processed ≡ 0) × Muted c') Q (collect-Muted wait_config [] c₁ h₁)
              λ r c₂ (_, h₂). after r c₂ h₂

    abbrev IsBegun : Sending → FpgaClient SoftwareKernel → Type 0
    IsBegun w c = (is_drained w ≡ false) × Muted c

    configure_board-IsBegun :
        (config : JoinConfig) (inner : List InputTuple) (outer_count : ℕ)
        (c : FpgaClient SoftwareKernel)
        → is_empty inner ≡ false
        → Muted c
        → OnOk (configure_board software_kernel cfg waiting config inner outer_count c) IsBegun
    unfolding configure_board note_coalesced set_credit take_credit is_drained
    configure_board-IsBegun config inner outer_count c some_rows h =
        let id = c.active_session_id in
        let frame = serialize_configure config (u32 (length inner)) (u32 outer_count) id in
        let batch = min rx_buf_tuples (min cfg.max_batch_tuples (length inner)) in
        let first = serialize_batch config.key_type inner_data (take batch inner) batch in
        OnOk-if (cfg.coalesce_config_first_inner && not (is_empty inner)) _ _ c IsBegun
          (λ _.
            exchange-Muted (frame ++ first) (record c { metrics = count_coalesced c.metrics }) _
              IsBegun
              (serialize_configure-configure config (u32 (length inner)) (u32 outer_count) id first)
              h λ r c' h'. (ground arith, h'))
          λ _.
            exchange-Muted frame c _ IsBegun
              (subst (λ bs. (byte_at bs 0 == msg_byte outer_data) ≡ false) (append-nil frame)
                (serialize_configure-configure config (u32 (length inner)) (u32 outer_count) id []))
              h λ r c' h'. (rw some_rows refl, h')

    build_rounds-stuck :
        (n key_type : ℕ) (w : Sending) (c : FpgaClient SoftwareKernel)
        → IsBegun w c
        → OnOk (build_rounds software_kernel cfg waiting key_type (suc n) w c) (λ _ _. ⊥)
    unfolding build_rounds
    build_rounds-stuck n key_type w c (left_over, h) =
        OnOk-Bool (is_drained w) (ok (some tt) c) _ (λ _ _. ⊥) (λ e. absurd (cc (e, left_over)))
          λ _.
            OnOk-bind (build_round software_kernel cfg waiting key_type w) _ c (λ _ _. ⊥) (λ _ _. ⊥)
              (build_round-stuck key_type w c h) λ _ _ never. absurd never

    join_session-stuck :
        (config : JoinConfig) (inner outer : List InputTuple) (c : FpgaClient SoftwareKernel)
        → is_empty inner ≡ false
        → Muted c
        → OnOk (join_session software_kernel cfg waiting config inner outer c) (λ _ _. ⊥)
    unfolding join_session
    join_session-stuck config inner outer c some_rows h =
        OnOk-bind (configure_board software_kernel cfg waiting config inner (length outer)) _ c
          IsBegun (λ _ _. ⊥) (configure_board-IsBegun config inner (length outer) c some_rows h)
          λ w c₁ begun.
            OnOk-bind
              (build_rounds software_kernel cfg waiting config.key_type (length inner + 1) w) _ c₁
              (λ _ _. ⊥) (λ _ _. ⊥)
              (subst
                (λ n.
                  OnOk (build_rounds software_kernel cfg waiting config.key_type n w c₁) (λ _ _. ⊥))
                one_more (build_rounds-stuck (length inner) config.key_type w c₁ begun))
              λ _ _ never. absurd never
      where
        one_more : suc (length inner) ≡ length inner + 1
        one_more = omega arith

-- A run of the client over the software kernel, whose answers that are not read yet acknowledge no
-- row, never returns if there is an inner row: its answers to the inner rows acknowledge none.
pub run_hash_join-stalls :
    (client_config : ClientConfig) (waiting : ℕ) (config : JoinConfig)
    (inner outer : List InputTuple) (c c' : FpgaClient SoftwareKernel)
    (returned : Option (List ResultPair))
    → is_empty inner ≡ false
    → IsMuted c.transport
    → run_hash_join software_kernel (effective_config client_config) waiting config inner outer c
      ≢ ok returned c'
unfolding run_hash_join effective_config
run_hash_join-stalls client_config waiting config inner outer c c' returned some_rows h e =
    let cfg = effective_config client_config in
    OnOk-eq (run_hash_join software_kernel cfg waiting config inner outer c) (λ _ _. ⊥) returned c'
      (OnOk-after (join_session software_kernel cfg waiting config inner outer _)
        (clean_up software_kernel cfg waiting) (λ _ _. ⊥) (λ _ _. ⊥)
        (join_session-stuck waiting cfg (ground arith) config inner outer _ some_rows h)
        (λ _ _ never. never))
      e
