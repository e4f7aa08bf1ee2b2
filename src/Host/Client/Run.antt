-- ===== src/Host/Client/Run.antt =====
-- host/src/fpga_client.cpp: `run_hash_join`, phase by phase. The loops have a number of rounds, and
-- give nothing if it does not suffice. Logging, and the pauses between batches, are left out.

use fpga_postgresql_hash_joi.Base.{
  ℕ, zero, suc, ◌+◌, ◌%◌, Bool, true, false, not, ◌&&◌, ◌||◌, Option, none, some, List, [], ◌∷◌,
  ◌++◌, ◌==◌, if◌then◌else◌, length, take, drop,
}
use fpga_postgresql_hash_joi.Types.{
  MsgType, Phase, phase_byte, InputTuple, ResultPair, StatusPayload, inner_data, outer_data, idle,
  building, probing, done,
}
use fpga_postgresql_hash_joi.Host.Transport.{
  Act, ◌>>=◌, ◌>>◌, pure, raise, Transport, ok, zero_credit, no_progress,
}
use fpga_postgresql_hash_joi.Host.Serializer.{serialize_batch}
use fpga_postgresql_hash_joi.Host.Metrics.{count_coalesced}
use fpga_postgresql_hash_joi.Host.Client.{
  ClientConfig, FpgaClient, apply_cumulative_ack, next_batch, spend_credit, collect_until_ack,
  send_counted, wait_build, wait_probe,
}

-- One side's array from the next tuple on, the batches in flight, and the rows acknowledged.
pub record Sending : Type 0 where
  pub left : List InputTuple
  pub inflight : List ℕ
  pub acked_rows : ℕ

abbrev pub sending_all : List InputTuple → Sending
sending_all rows = record { left = rows; inflight = []; acked_rows = 0 }

-- The variables of the probe phase.
pub record Probing : Type 0 where
  pub sending : Sending
  pub results : List ResultPair
  pub last_ack : StatusPayload
  pub reached_done : Bool

abbrev pub no_ack : StatusPayload
no_ack = record {
  phase = phase_byte idle;
  session_id = 0;
  credit = 0;
  rows_processed = 0;
  rows_matched = 0;
}

abbrev pub is_empty : {A : Type 0} → List A → Bool
is_empty [] = true
is_empty (x ∷ xs) = false

-- Nothing is left to send, and nothing is in flight.
unfoldable pub is_drained : Sending → Bool
is_drained w = is_empty w.left && is_empty w.inflight

-- `next_session_id`, of its counter: never 0.
unfoldable pub next_session_id : ℕ → ℕ
next_session_id counter = counter % 255 + 1

module _ {T : Type 0} where
  unfoldable pub set_credit : ℕ → Act (FpgaClient T) (Unit {0})
  set_credit n c = ok tt (record c { credit = n })

  unfoldable pub take_credit : ℕ → Act (FpgaClient T) (Unit {0})
  unfolding spend_credit
  take_credit batch c = ok tt (record c { credit = spend_credit c.credit batch })

  unfoldable pub set_cleanup : Bool → Act (FpgaClient T) (Unit {0})
  set_cleanup b c = ok tt (record c { cleanup_enabled = b })

  unfoldable pub note_coalesced : Act (FpgaClient T) (Unit {0})
  unfolding count_coalesced
  note_coalesced c = ok tt (record c { metrics = count_coalesced c.metrics })

-- What an acknowledgement does to the window. One that moves nothing is refused.
unfoldable pub advance : {T : Type 0} → Phase → StatusPayload → Sending → Act (FpgaClient T) Sending
unfolding apply_cumulative_ack
advance phase s w =
    let a = apply_cumulative_ack w.inflight w.acked_rows s.rows_processed in
    if a.frames == 0 && not (is_empty a.inflight)
    then raise (no_progress phase)
    else pure (record { left = w.left; inflight = a.inflight; acked_rows = a.rows })

-- `waiting` is the number of rounds after which the client gives a wait up.
module _ {T : Type 0} (tr : Transport T) (cfg : ClientConfig) (waiting key_type : ℕ) where
  unfoldable pub send_batch : MsgType → ℕ → Sending → Act (FpgaClient T) Sending
  unfolding send_counted take_credit
  send_batch type batch w =
      take_credit batch
      >> (send_counted tr (serialize_batch key_type type (take batch w.left) batch) type
          >> pure (record {
            left = drop batch w.left;
            inflight = w.inflight ++ (batch ∷ []);
            acked_rows = w.acked_rows;
          }))

  -- Frames are sent while the window and the credit allow. A frame has at least one row, so as
  -- many rounds as rows are enough.
  unfoldable pub send_rounds : ℕ → MsgType → Sending → Act (FpgaClient T) Sending
  unfolding send_batch next_batch
  send_rounds zero type w c = ok w c
  send_rounds (suc n) type w c = elim (next_batch cfg c.credit w.inflight (length w.left)) [
    | none ↦ ok w c
    | some batch ↦ (send_batch type batch w >>= λ w'. send_rounds n type w') c
  ]

  unfoldable pub send_window : MsgType → Sending → Act (FpgaClient T) Sending
  unfolding send_rounds
  send_window type w = send_rounds (length w.left) type w

  unfoldable pub build_round : Sending → Act (FpgaClient T) Sending
  unfolding send_window collect_until_ack set_credit advance
  build_round w = send_window inner_data w >>= λ w₁.
      if is_empty w₁.inflight
      then raise (zero_credit building)
      else (collect_until_ack tr waiting wait_build [] >>= λ (s, unused).
          set_credit s.credit >> advance building s w₁)

  unfoldable pub build_rounds : ℕ → Sending → Act (FpgaClient T) (Option (Unit {0}))
  unfolding build_round is_drained
  build_rounds zero w c = ok none c
  build_rounds (suc n) w c = elim (is_drained w) [
    | true ↦ ok (some tt) c
    | false ↦ (build_round w >>= λ w'. build_rounds n w') c
  ]

  -- After the acknowledgement of PHASE_DONE nothing is in flight any more.
  unfoldable pub judge_probe_ack :
      StatusPayload → List ResultPair → Sending → Act (FpgaClient T) Probing
  unfolding advance apply_cumulative_ack
  judge_probe_ack s results w =
      if s.phase == phase_byte done
      then pure (record {
        sending = record {
          left = w.left;
          inflight = [];
          acked_rows = (apply_cumulative_ack w.inflight w.acked_rows s.rows_processed).rows;
        };
        results = results;
        last_ack = s;
        reached_done = true;
      })
      else (advance probing s w >>= λ w'.
          pure (record { sending = w'; results = results; last_ack = s; reached_done = false }))

  unfoldable pub probe_round : Probing → Act (FpgaClient T) Probing
  unfolding send_window collect_until_ack set_credit judge_probe_ack
  probe_round p = send_window outer_data p.sending >>= λ w₁.
      if is_empty w₁.inflight
      then raise (zero_credit probing)
      else (collect_until_ack tr waiting wait_probe p.results >>= λ (s, results).
          set_credit s.credit >> judge_probe_ack s results w₁)

  unfoldable pub probe_rounds : ℕ → Probing → Act (FpgaClient T) (Option Probing)
  unfolding probe_round is_drained
  probe_rounds zero p c = ok none c
  probe_rounds (suc n) p c = elim (is_drained p.sending || p.reached_done) [
    | true ↦ ok (some p) c
    | false ↦ (probe_round p >>= λ p'. probe_rounds n p') c
  ]
