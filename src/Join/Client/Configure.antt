-- ===== src/Join/Client/Configure.antt =====
-- CONFIGURE, perhaps with the first inner frame behind it, over a link to the board.
use fpga_postgresql_hash_joi.Base.Words.{u32}
use fpga_postgresql_hash_joi.Base.{
  ℕ, ◌≤◌, ◌<◌, ◌≡◌, refl, sym, ap, ◌∙◌, not, ◌&&◌, List, [], ◌∷◌, ◌++◌, arith, length, take, drop,
  All, length-take, take-append-drop,
}
use fpga_postgresql_hash_joi.Types.{
  rx_buf_tuples, InputTuple, ResultPair, StatusPayload, configure, inner_data,
}
use Prim.Native.Nat.{min}
use mathlib.Core.List.{append_assoc, append-nil}
use fpga_postgresql_hash_joi.Host.Transport.{Transport, Act, ◌>>=◌, ◌>>◌}
use fpga_postgresql_hash_joi.Host.Outcome.{OnOk, OnOk-bind, OnOk-if, Always-OnOk, OnOk-both}
use fpga_postgresql_hash_joi.Host.Serializer.{JoinConfig, serialize_configure, serialize_batch}
use fpga_postgresql_hash_joi.Host.Metrics.{count_coalesced}
use fpga_postgresql_hash_joi.Host.Client.{
  ClientConfig, FpgaClient, collect_until_ack, send_counted, wait_config, spend_credit,
}
use fpga_postgresql_hash_joi.Host.Client.Run.{
  Sending, no_ack, is_empty, set_credit, take_credit, note_coalesced,
}
use fpga_postgresql_hash_joi.Host.Client.Session.{configure_board}
use fpga_postgresql_hash_joi.Host.Client.Rounds.{length_pos}
use fpga_postgresql_hash_joi.RoundTrip.FromBoard.{bytes}
use fpga_postgresql_hash_joi.Join.Output.{BoardFrame}
use fpga_postgresql_hash_joi.Join.Sends.{
  send_counted-sent, collect_until_ack-sent, Sent, serialize_batch-limit,
}
use fpga_postgresql_hash_joi.Join.Sends.Rounds.{SentTo}
use fpga_postgresql_hash_joi.Join.Heard.{IsHeard, Says}
use fpga_postgresql_hash_joi.Join.Heard.Rounds.{Waits, send_counted-Waits, collect-Follows, Follows}
use fpga_postgresql_hash_joi.Join.Client.{Link}

module _ {T : Type 0} {tr : Transport T} (l : Link tr) (cfg : ClientConfig) (waiting : ℕ)
    (sizes : 0 < cfg.max_batch_tuples) (small : cfg.max_batch_tuples ≤ rx_buf_tuples)
    (config : JoinConfig) (inner : List InputTuple) (outer_count : ℕ) where
  abbrev pub configure_bytes : ℕ → List ℕ
  configure_bytes id = serialize_configure config (u32 (length inner)) (u32 outer_count) id

  -- CONFIGURE is sent behind what `c` has sent, and then the inner rows before `left`.
  abbrev pub InnerTo : FpgaClient T → List InputTuple → FpgaClient T → Type 0
  InnerTo c =
      SentTo l.records cfg waiting config.key_type sizes small inner_data inner
        (l.records.sent c.transport ++ configure_bytes c.active_session_id) c.cleanup_enabled

  abbrev pub Passed : List BoardFrame → FpgaClient T → Type 0
  Passed fs c' =
      (gone : List BoardFrame) × (rest : List BoardFrame) × (fs ≡ gone ++ rest)
      × Waits l.hears rest c'

  -- Bytes are sent, and the acknowledgement of CONFIGURE is heard.
  exchange :
      (bytes : List ℕ) (fs : List BoardFrame) (c : FpgaClient T)
      (next : StatusPayload × List ResultPair → Act (FpgaClient T) Sending)
      (Q : Sending → FpgaClient T → Type 0)
      → All IsHeard fs
      → Waits l.hears fs c
      → ((r : StatusPayload × List ResultPair) (c' : FpgaClient T)
          → l.records.sent c'.transport ≡ l.records.sent c.transport ++ bytes
          → c'.cleanup_enabled ≡ c.cleanup_enabled
          → Passed fs c'
          → OnOk (next r c') Q)
      → OnOk
          ((send_counted tr bytes configure
              >> (collect_until_ack tr waiting wait_config [] >>= next))
            c)
          Q
  exchange bytes fs c next Q heard k after =
      OnOk-bind (send_counted tr bytes configure) _ c
        (λ _ c₁.
          Waits l.hears fs c₁
          × ((l.records.sent c₁.transport ≡ l.records.sent c.transport ++ bytes)
              × (c₁.cleanup_enabled ≡ c.cleanup_enabled)))
        Q
        (OnOk-both (send_counted tr bytes configure c) _ _
          (send_counted-Waits l.hears bytes configure fs c k)
          (send_counted-sent l.records 0 bytes configure c))
        λ _ c₁ (k₁, (e, flag)).
          OnOk-bind (collect_until_ack tr waiting wait_config []) next c₁
            (λ r c₂.
              ((f : Follows l.hears fs [] no_ack r.1 r.0 c₂) × Says r.0 f.read)
              × ((l.records.sent c₂.transport ≡ l.records.sent c₁.transport)
                  × (c₂.cleanup_enabled ≡ c₁.cleanup_enabled)))
            Q
            (OnOk-both (collect_until_ack tr waiting wait_config [] c₁) _ _
              (collect-Follows l.hears waiting wait_config [] no_ack fs c₁ heard k₁)
              (Always-OnOk (collect_until_ack tr waiting wait_config [] c₁) _
                (collect_until_ack-sent l.records 0 waiting wait_config [] c₁)))
            λ r c₂ ((f, _), (e', flag')).
              after r c₂ (e' ∙ e) (flag' ∙ flag) (f.read, f.rest, f.frames_lem, f.waits)

  first_frame :
      (c c' : FpgaClient T) (batch : ℕ)
      → 0 < batch
      → batch ≤ rx_buf_tuples
      → batch ≤ length inner
      → l.records.sent c'.transport
        ≡ l.records.sent c.transport
          ++ (configure_bytes c.active_session_id
              ++ serialize_batch config.key_type inner_data (take batch inner) batch)
      → Sent l.records config.key_type inner_data inner
          (l.records.sent c.transport ++ configure_bytes c.active_session_id)
          (drop batch inner)
          c'
  first_frame c c' batch pos little few e =
      let size : length (take batch inner) ≡ batch = length-take batch inner few in
      let frame = serialize_batch config.key_type inner_data (take batch inner) in
      record {
        batches = take batch inner ∷ [];
        frames = ((omega (arith, size, pos), omega (arith, size, little)), tt);
        split =
            sym (take-append-drop batch inner)
            ∙ ap (λ ts. ts ++ drop batch inner) (sym (append-nil (take batch inner)));
        sent_lem =
            e
            ∙ sym (
                append_assoc (l.records.sent c.transport) (configure_bytes c.active_session_id)
                  (frame batch))
            ∙ ap (λ bs. (l.records.sent c.transport ++ configure_bytes c.active_session_id) ++ bs)
                (ap frame (sym size)
                  ∙ serialize_batch-limit config.key_type inner_data (take batch inner)
                      (omega (arith, size, little))
                  ∙ sym (append-nil (frame rx_buf_tuples)));
      }

  pub configure_board-InnerTo :
      (fs : List BoardFrame) (c : FpgaClient T)
      → All IsHeard fs
      → Waits l.hears fs c
      → OnOk
          (configure_board tr cfg waiting config inner outer_count c)
          (λ w c'. InnerTo c w.left c' × Passed fs c')
  unfolding configure_board note_coalesced take_credit set_credit
  configure_board-InnerTo fs c heard k =
      OnOk-if (cfg.coalesce_config_first_inner && not (is_empty inner)) _ _ c _
        (λ both.
          let some_rows : 0 < length inner = length_pos inner (ground (arith, both)) in
          let batch = min rx_buf_tuples (min cfg.max_batch_tuples (length inner)) in
          exchange _ fs (record c { metrics = count_coalesced c.metrics }) _ _ heard k
            λ r c' e flag passed. (
              (
                first_frame c (record c' { credit = spend_credit r.0.credit batch }) batch
                    (omega (arith, some_rows, sizes)) (omega arith) (omega arith) e,
                flag,
              ),
              passed,
            ))
        (λ alone.
          exchange (configure_bytes c.active_session_id) fs c _ _ heard k λ r c' e flag passed. (
            (
              record { batches = []; frames = tt; split = refl; sent_lem = e ∙ sym (append-nil _) },
              flag,
            ),
            passed,
          ))
