-- ===== src/Tests/Frames.antt =====
-- Frames from the kernel to the host, over a queue of bytes that gives as many as it can.

use fpga_postgresql_hash_joi.Types.{ResultPair, ack, status, overflow, building, done}
use Prim.Native.Nat.{min}
use fpga_postgresql_hash_joi.Base.{
  ℕ, ◌<◌, refl, ◌≢◌, true, false, List, [], ◌∷◌, ◌++◌, arith, length, take, drop,
}
use fpga_postgresql_hash_joi.Timing.{fresh_timing}
use fpga_postgresql_hash_joi.Wire.{
  tx_status_frame, tx_error, tx_results, tx_timing_summary, tx_debug,
}
use fpga_postgresql_hash_joi.Host.Transport.{Transport, Delivers, Received, ok, recv_exact}
use fpga_postgresql_hash_joi.Host.Decoder.{
  Decoder, recv_frame, result_frame, ack_frame, status_frame, error_frame, timing_frame,
  debug_frame,
}
use fpga_postgresql_hash_joi.RoundTrip.Receive.{Gets, recv_exact-Gets}
use fpga_postgresql_hash_joi.RoundTrip.FromBoard.{
  bytes, status_payload, recv_frame-ack, recv_frame-status, recv_frame-error, recv_frame-debug,
}
use fpga_postgresql_hash_joi.RoundTrip.Timing.{IsTiming, recv_frame-timing}
use fpga_postgresql_hash_joi.RoundTrip.Results.{buffered, recv_frame-results}

-- `recv` never gives more than five bytes at once.
abbrev pub queue : Transport (List ℕ)
queue = record {
  send = λ bs q. ok tt q;
  recv = λ n q. ok (take (min n (min 5 (length q))) q) (drop (min n (min 5 (length q))) q);
  reset = λ q. ok tt [];
}

pending_pos : (q : List ℕ) → q ≢ [] → 0 < length q
pending_pos [] h = absurd (h refl)
pending_pos (x ∷ q) h = omega arith

pub queue_receives : (n : ℕ) (q : List ℕ) → Received (λ p. p) n q (queue.recv n q)
queue_receives n q = record {
  count = min n (min 5 (length q));
  after = drop (min n (min 5 (length q))) q;
  returns = refl;
  few = omega arith;
  some_if = λ h pos. omega (arith, pending_pos q h);
  there = omega arith;
  left = refl;
}

abbrev pub queue_delivers : Delivers queue
queue_delivers = record { pending = λ q. q; receives = queue_receives }

recv_exact-Gets_example :
    Gets queue queue_delivers
      (7 ∷ 8 ∷ 9 ∷ 10 ∷ 11 ∷ 12 ∷ [])
      (13 ∷ [])
      (recv_exact queue 6 (7 ∷ 8 ∷ 9 ∷ 10 ∷ 11 ∷ 12 ∷ 13 ∷ []))
recv_exact-Gets_example =
    recv_exact-Gets queue queue_delivers 6 _ (7 ∷ 8 ∷ 9 ∷ 10 ∷ 11 ∷ 12 ∷ []) (13 ∷ []) refl refl

abbrev pub fresh_decoder : Decoder
fresh_decoder = record { has_timing = false; timing_frames = 0; timing = fresh_timing }

recv_frame-ack_example :
    Gets queue queue_delivers
      (ack_frame (status_payload building 100_000 3 512 200), fresh_decoder)
      (1 ∷ [])
      (recv_frame queue fresh_decoder
        (bytes (tx_status_frame ack building 100_000 3 512 200) ++ (1 ∷ [])))
recv_frame-ack_example =
    recv_frame-ack queue queue_delivers fresh_decoder _ (1 ∷ []) building 100_000 3 512 200
      (omega arith) refl

recv_frame-status_example :
    Gets queue queue_delivers
      (status_frame (status_payload done 100_000 3 0 200), fresh_decoder)
      (1 ∷ [])
      (recv_frame queue fresh_decoder
        (bytes (tx_status_frame status done 100_000 3 0 200) ++ (1 ∷ [])))
recv_frame-status_example =
    recv_frame-status queue queue_delivers fresh_decoder _ (1 ∷ []) done 100_000 3 0 200
      (omega arith) refl

recv_frame-error_example :
    Gets queue queue_delivers
      (error_frame 1, fresh_decoder)
      (1 ∷ [])
      (recv_frame queue fresh_decoder (bytes (tx_error overflow) ++ (1 ∷ [])))
recv_frame-error_example =
    recv_frame-error queue queue_delivers fresh_decoder _ (1 ∷ []) overflow refl

abbrev pub pair : ResultPair
pair = record {
  inner_tid = record { blkno = 70_000; offno = 300 };
  outer_tid = record { blkno = 4; offno = 5 };
}

recv_frame-results_example :
    Gets queue queue_delivers
      (result_frame (buffered (λ i. pair) 2 0), fresh_decoder)
      (1 ∷ [])
      (recv_frame queue fresh_decoder (bytes (tx_results (λ i. pair) 2) ++ (1 ∷ [])))
recv_frame-results_example =
    recv_frame-results queue queue_delivers fresh_decoder _ (1 ∷ []) (λ i. pair) 2
      (λ h. omega (arith, h)) (omega arith) (λ j lt. omega arith) refl

fresh_timing-IsTiming : IsTiming fresh_timing
unfolding fresh_timing
fresh_timing-IsTiming = ground arith

recv_frame-timing_example :
    Gets queue queue_delivers
      (timing_frame, record { has_timing = true; timing_frames = 1; timing = fresh_timing })
      (1 ∷ [])
      (recv_frame queue fresh_decoder (bytes (tx_timing_summary fresh_timing) ++ (1 ∷ [])))
recv_frame-timing_example =
    recv_frame-timing queue queue_delivers fresh_decoder _ (1 ∷ []) fresh_timing
      fresh_timing-IsTiming refl

recv_frame-debug_example :
    Gets queue queue_delivers
      (debug_frame 1 9 70_000, fresh_decoder)
      (1 ∷ [])
      (recv_frame queue fresh_decoder (bytes (tx_debug 1 9 70_000) ++ (1 ∷ [])))
recv_frame-debug_example =
    recv_frame-debug queue queue_delivers fresh_decoder _ (1 ∷ []) 1 9 70_000 (omega arith)
      (omega arith) (omega arith) refl
