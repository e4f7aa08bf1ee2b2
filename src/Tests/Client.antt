-- ===== src/Tests/Client.antt =====
-- The window of the host's client, and what it collects.

use fpga_postgresql_hash_joi.Types.{ack, probing}
use fpga_postgresql_hash_joi.Base.{
  ℕ, ◌+◌, ◌≡◌, refl, false, some, List, [], ◌∷◌, ◌++◌, arith, length,
}
use fpga_postgresql_hash_joi.Wire.{tx_status_frame}
use fpga_postgresql_hash_joi.Host.Metrics.{fresh_metrics}
use fpga_postgresql_hash_joi.Host.Client.{
  ClientConfig, FpgaClient, apply_cumulative_ack, next_batch, collect_until_ack, wait_probe,
}
use fpga_postgresql_hash_joi.Host.Client.Window.{Covers, apply_cumulative_ack-Covers}
use fpga_postgresql_hash_joi.RoundTrip.FromBoard.{bytes, status_payload}
use fpga_postgresql_hash_joi.RoundTrip.Results.{buffered}
use fpga_postgresql_hash_joi.Join.Output.{BoardFrame, tx_frames, pairs_sent, debug_sent}
use fpga_postgresql_hash_joi.Join.Collect.{Collected, collect_until_ack-Collected}
use fpga_postgresql_hash_joi.Tests.Frames.{queue, queue_delivers, fresh_decoder, pair}

abbrev window : List ℕ
window = 256 ∷ 256 ∷ 100 ∷ []

apply_cumulative_ack_run :
    apply_cumulative_ack window 512 1030 ≡ record { inflight = 100 ∷ []; rows = 1024; frames = 2 }
unfolding apply_cumulative_ack
apply_cumulative_ack_run = refl

apply_cumulative_ack-Covers_example :
    Covers window 512 1030 (apply_cumulative_ack window 512 1030)
    × ((apply_cumulative_ack window 512 1030).frames
          + length (apply_cumulative_ack window 512 1030).inflight
        ≡ 3)
apply_cumulative_ack-Covers_example = apply_cumulative_ack-Covers window 512 1030 (omega arith)

abbrev pub client_config : ClientConfig
client_config = record {
  max_batch_tuples = 256;
  ack_window_frames = 15;
  session_id_override = 0;
  coalesce_config_first_inner = false;
  infer_done_from_probe_ack = false;
  reset_after_run = false;
}

next_batch_run : next_batch client_config 300 (256 ∷ []) 1000 ≡ some 256
unfolding next_batch
next_batch_run = refl

abbrev sent_frames : List BoardFrame
sent_frames = debug_sent 1 9 7 ∷ pairs_sent (λ i. pair) 2 ∷ []

-- A client of session 200, with the frames, an acknowledgement and one more byte in its queue.
abbrev waiting : FpgaClient (List ℕ)
waiting = record {
  transport =
      bytes (tx_frames sent_frames)
      ++ (bytes (tx_status_frame ack probing 256 2 512 200) ++ (1 ∷ []));
  decoder = fresh_decoder;
  credit = 0;
  active_session_id = 200;
  metrics = fresh_metrics;
  session_counter = 0;
  cleanup_enabled = false;
}

collect_until_ack-Collected_example :
    Collected queue queue_delivers waiting
      (status_payload probing 256 2 512 200)
      (buffered (λ i. pair) 2 0 ++ [])
      (1 ∷ [])
      (collect_until_ack queue 3 wait_probe [] waiting)
collect_until_ack-Collected_example =
    collect_until_ack-Collected queue queue_delivers sent_frames 3 wait_probe [] waiting probing 256
      2 512 200 (1 ∷ [])
      (omega arith, ((λ h. omega (arith, h), omega arith, λ j lt. omega arith), tt)) (omega arith)
      (omega arith) refl refl
