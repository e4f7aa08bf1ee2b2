-- ===== src/Host/Client.antt =====
-- host/src/fpga_client.cpp: the credit window of a session, and waiting for an acknowledgement.
-- The clock is not modelled: waiting has a number of rounds, after which the time is over.

use fpga_postgresql_hash_joi.Types.{
  rx_buf_tuples, ack_batch_frames, MsgType, msg_byte, ResultPair, StatusPayload, reset,
}
use fpga_postgresql_hash_joi.Base.{
  ℕ, zero, suc, ◌+◌, ◌-◌, Bool, true, ◌&&◌, ◌||◌, Option, none, some, List, [], ◌∷◌, ◌++◌, ltb, leb,
  ◌==◌, if◌then◌else◌, length,
}
use Prim.Native.Nat.{min}
use fpga_postgresql_hash_joi.Host.Transport.{Act, Transport, timeout, fpga_error, ok, throw}
use fpga_postgresql_hash_joi.Host.Decoder.{
  Decoder, recv_frame, no_frame, result_frame, ack_frame, status_frame, error_frame, debug_frame,
  timing_frame, Frame,
}
use fpga_postgresql_hash_joi.Host.Metrics.{HostSessionMetrics, count_sent, count_received}
pub mod Window
pub mod Run
pub mod Session
pub mod Rounds
pub mod Ends

pub record ClientConfig : Type 0 where
  pub max_batch_tuples : ℕ
  pub ack_window_frames : ℕ
  pub session_id_override : ℕ
  pub coalesce_config_first_inner : Bool
  pub infer_done_from_probe_ack : Bool
  pub reset_after_run : Bool

-- What the constructor makes of a configuration.
unfoldable pub effective_config : ClientConfig → ClientConfig
effective_config cfg = record cfg {
  max_batch_tuples =
      if cfg.max_batch_tuples == 0 || ltb rx_buf_tuples cfg.max_batch_tuples
      then rx_buf_tuples
      else cfg.max_batch_tuples;
  ack_window_frames =
      if cfg.ack_window_frames == 0 then ack_batch_frames else cfg.ack_window_frames;
}

pub data AckWaitKind : Type 0 where
  wait_config wait_build wait_probe wait_final_status wait_reset : AckWaitKind

-- A client, with the state of its transport.
pub record FpgaClient (T : Type 0) : Type 0 where
  pub transport : T
  pub decoder : Decoder
  pub credit : ℕ
  pub active_session_id : ℕ
  pub metrics : HostSessionMetrics
  -- The static counter of `next_session_id`, and `enabled` of the session's `SessionCleanup`.
  pub session_counter : ℕ
  pub cleanup_enabled : Bool

-- The deque of batches in flight, the rows and the frames acknowledged.
pub record Acked : Type 0 where
  pub inflight : List ℕ
  pub rows : ℕ
  pub frames : ℕ

-- The loop of `apply_cumulative_ack`, with the batches in flight.
unfoldable pub pop_acked : List ℕ → ℕ → ℕ → ℕ → Acked
pop_acked [] rows frames target = record { inflight = []; rows = rows; frames = frames }
pop_acked (n ∷ ns) rows frames target =
    let rest = pop_acked ns (rows + n) (frames + 1) target in
    if leb (rows + n) target
    then rest
    else record { inflight = n ∷ ns; rows = rows; frames = frames }

unfoldable pub apply_cumulative_ack : List ℕ → ℕ → ℕ → Acked
unfolding pop_acked
apply_cumulative_ack inflight acked_rows rows_processed =
    if leb rows_processed acked_rows
    then record { inflight = inflight; rows = acked_rows; frames = 0 }
    else pop_acked inflight acked_rows 0 rows_processed

-- How many rows the next frame carries, if one is sent now.
unfoldable pub next_batch : ClientConfig → ℕ → List ℕ → ℕ → Option ℕ
next_batch cfg credit inflight remaining =
    if remaining == 0 || leb cfg.ack_window_frames (length inflight) || credit == 0
    then none
    else if ltb credit cfg.max_batch_tuples && ltb credit remaining
    then none
    else some (min credit (min cfg.max_batch_tuples remaining))

unfoldable pub spend_credit : ℕ → ℕ → ℕ
spend_credit credit batch = if ltb batch credit then credit - batch else 0

module _ {T : Type 0} (tr : Transport T) where
  -- A stale acknowledgement, of another session, is passed over.
  unfoldable pub is_current : AckWaitKind → StatusPayload → FpgaClient T → Bool
  is_current wait_reset s c = true
  is_current kind s c = s.session_id == c.active_session_id

  -- The `switch` of `collect_until_ack`: an acknowledgement of this session is returned, after all
  -- other frames but an ERROR the wait goes on.
  unfoldable pub on_frame :
      (List ResultPair → Act (FpgaClient T) (StatusPayload × List ResultPair))
      → AckWaitKind
      → List ResultPair
      → Frame
      → Act (FpgaClient T) (StatusPayload × List ResultPair)
  unfolding is_current
  on_frame again kind out no_frame c = again out c
  on_frame again kind out (result_frame pairs) c = again (out ++ pairs) c
  on_frame again kind out (ack_frame s) c =
      if is_current kind s c then ok (s, out) c else again out c
  on_frame again kind out (status_frame s) c =
      if is_current kind s c then ok (s, out) c else again out c
  on_frame again kind out (error_frame e) c = throw (fpga_error e) c
  on_frame again kind out (debug_frame level code value) c = again out c
  on_frame again kind out timing_frame c = again out c

  -- `collect_until_ack`, with the rounds left and the pairs so far.
  unfoldable pub collect_until_ack :
      ℕ → AckWaitKind → List ResultPair → Act (FpgaClient T) (StatusPayload × List ResultPair)
  unfolding on_frame count_received
  collect_until_ack zero kind out c = throw timeout c
  collect_until_ack (suc n) kind out c = elim (recv_frame tr c.decoder c.transport) [
    | throw e t ↦ throw e (record c { transport = t })
    | ok (f, d) t ↦
        on_frame (λ out'. collect_until_ack n kind out') kind out f
          (record c { transport = t; decoder = d; metrics = count_received f d c.metrics })
  ]

  unfoldable pub send_counted : List ℕ → MsgType → Act (FpgaClient T) (Unit {0})
  unfolding count_sent
  send_counted bytes primary_msg c = elim (tr.send bytes c.transport) [
    | ok _ t ↦ ok tt (record c { transport = t; metrics = count_sent bytes primary_msg c.metrics })
    | throw e t ↦ throw e (record c { transport = t })
  ]

  unfoldable pub send_reset : Act (FpgaClient T) (Unit {0})
  unfolding send_counted
  send_reset = send_counted (msg_byte reset ∷ 0 ∷ 0 ∷ []) reset

-- `verify_matched_count`: whether the number of pairs is the one that the board reports.
unfoldable pub matched_count_agrees : List ResultPair → StatusPayload → Bool
matched_count_agrees results s = s.rows_matched == length results
