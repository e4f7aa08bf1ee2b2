-- ===== src/Tests/Run.antt =====
-- A run of the client over a link whose board has answered in advance.

use fpga_postgresql_hash_joi.Base.{
  ℕ, ◌<◌, ◌≡◌, refl, ◌≢◌, inl, inr, false, Option, none, some, List, [], ◌∷◌, ◌++◌, arith, length,
  take, drop, All,
}
use fpga_postgresql_hash_joi.Types.{
  algorithm_a, key_int32, InputTuple, ResultPair, ack, status, building, probing, done,
}
use Prim.Native.Nat.{min}
use fpga_postgresql_hash_joi.Host.Transport.{Transport, Received, Result, ok, throw, recv_exact}
use fpga_postgresql_hash_joi.Host.Serializer.{JoinConfig}
use fpga_postgresql_hash_joi.Host.Metrics.{fresh_metrics}
use fpga_postgresql_hash_joi.Host.Decoder.{
  recv_frame, recv_payload, keep_decoder, recv_status, read_status, recv_results, read_pairs,
}
use fpga_postgresql_hash_joi.Host.Client.Ends.{run_hash_join-ends}
use fpga_postgresql_hash_joi.Wire.{tx_status_frame, tx_results}
use fpga_postgresql_hash_joi.Host.Client.{effective_config, FpgaClient}
use fpga_postgresql_hash_joi.Host.Client.Run.{next_session_id}
use fpga_postgresql_hash_joi.Host.Client.Session.{run_hash_join}
use fpga_postgresql_hash_joi.RoundTrip.FromBoard.{bytes}
use fpga_postgresql_hash_joi.Join.Output.{BoardFrame, tx_frames, pairs_sent, status_sent}
use fpga_postgresql_hash_joi.Join.Heard.{IsHeard}
use fpga_postgresql_hash_joi.Join.Client.{Link}
use fpga_postgresql_hash_joi.Join.Client.Session.{run_hash_join-Converses, starting}
use fpga_postgresql_hash_joi.Join.Client.Talk.{Converses}
use fpga_postgresql_hash_joi.Tests.Table.{tid_of}
use fpga_postgresql_hash_joi.Tests.Frames.{fresh_decoder}
use fpga_postgresql_hash_joi.Tests.Client.{client_config}

-- The bytes of the board that are still to be read, and the bytes that were sent.
pub record Wire : Type 0 where
  pub coming : List ℕ
  pub gone : List ℕ

abbrev pub wire : Transport Wire
wire = record {
  send = λ bs w. ok tt (record w { gone = w.gone ++ bs });
  recv = λ n w.
      ok (take (min n (min 5 (length w.coming))) w.coming)
        (record w { coming = drop (min n (min 5 (length w.coming))) w.coming });
  reset = λ w. ok tt (record w { coming = [] });
}

some_there : (bs : List ℕ) → bs ≢ [] → 0 < length bs
some_there [] h = absurd (h refl)
some_there (b ∷ bs) h = omega arith

wire_receives : (n : ℕ) (w : Wire) → Received (λ v. v.coming) n w (wire.recv n w)
wire_receives n w = record {
  count = min n (min 5 (length w.coming));
  after = record w { coming = drop (min n (min 5 (length w.coming))) w.coming };
  returns = refl;
  few = omega arith;
  some_if = λ h pos. omega (arith, some_there w.coming h, pos);
  there = omega arith;
  left = refl;
}

abbrev link : Link wire
link = record {
  records = record { sent = λ w. w.gone; sends = λ bs w. refl; hears = λ n w. refl };
  hears = record {
    delivers = record { pending = λ w. w.coming; receives = wire_receives };
    quiet = λ bs w. refl;
  };
}

abbrev pub one_inner : List InputTuple
one_inner = record { key = 7; tid = tid_of 1 1 } ∷ []

abbrev pub one_outer : List InputTuple
one_outer = record { key = 7; tid = tid_of 2 2 } ∷ []

abbrev pub one_pair : ResultPair
one_pair = record { inner_tid = tid_of 1 1; outer_tid = tid_of 2 2 }

-- What the board answers: acknowledgements of CONFIGURE and of the inner row, the pair, and those
-- of the outer row and of the session.
abbrev answers : List BoardFrame
answers =
    status_sent ack building 0 0 512 1
    ∷ status_sent ack building 1 0 512 1
    ∷ pairs_sent (λ i. one_pair) 1
    ∷ status_sent ack probing 1 1 0 1
    ∷ status_sent status done 1 1 0 1
    ∷ []

abbrev pub idle_client : FpgaClient Wire
idle_client = record {
  transport = record { coming = bytes (tx_frames answers); gone = [] };
  decoder = fresh_decoder;
  credit = 0;
  active_session_id = 0;
  metrics = fresh_metrics;
  session_counter = 0;
  cleanup_enabled = false;
}

abbrev pub one_config : JoinConfig
one_config = record { algorithm = algorithm_a; key_type = key_int32 }

-- The client after the run.
abbrev pub state_after : {S A : Type 0} → Result S A → S
state_after (ok a s) = s
state_after (throw e s) = s

abbrev ran : Result (FpgaClient Wire) (Option (List ResultPair))
ran =
    run_hash_join wire (effective_config client_config) 9 one_config one_inner one_outer idle_client

run_returns : ran ≡ ok (some (one_pair ∷ [])) (state_after ran)
unfolding run_hash_join effective_config recv_frame tx_status_frame tx_results recv_exact
    recv_payload keep_decoder recv_status read_status recv_results read_pairs
run_returns = refl

run_hash_join-ends_example : ran ≢ ok none (state_after ran)
run_hash_join-ends_example =
    run_hash_join-ends wire client_config 9 one_config one_inner one_outer idle_client
      (state_after ran)

run_hash_join-Converses_example :
    Converses link client_config 9 one_config one_inner one_outer answers
      (one_pair ∷ [])
      (starting client_config idle_client)
      (state_after ran)
unfolding next_session_id
run_hash_join-Converses_example =
    run_hash_join-Converses link client_config 9 one_config one_inner one_outer answers
      (one_pair ∷ []) idle_client (state_after ran) refl heard refl run_returns
  where
    heard : All IsHeard answers
    heard = (
      (inl refl, omega arith),
      (
        (inl refl, omega arith),
        (
          (λ h. omega (arith, h), omega arith, λ j lt. omega arith),
          ((inl refl, omega arith), ((inr refl, omega arith), tt)),
        ),
      ),
    )
