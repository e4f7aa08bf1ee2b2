-- ===== src/Join/Finish.antt =====
-- The end of a session: the outer rows are answered, and the session ends.
use fpga_postgresql_hash_joi.Types.{algorithm_a, InputTuple, outer_data}
use fpga_postgresql_hash_joi.Base.{
  ◌^◌, ◌≤◌, ◌<◌, ◌≡◌, sym, ap, ◌∙◌, false, List, [], ◌∷◌, ◌++◌, arith, length, All,
}
use mathlib.Core.Path.{subst}
use fpga_postgresql_hash_joi.Wire.{Rx}
use fpga_postgresql_hash_joi.Kernel.State.{Inputs, State, Outcome, ◌>>>◌, running}
use fpga_postgresql_hash_joi.Kernel.Probe.{probe_phase}
use fpga_postgresql_hash_joi.Kernel.Run.{unless_done, finish_session}
use fpga_postgresql_hash_joi.RoundTrip.Numbers.{sent}
use fpga_postgresql_hash_joi.Join.Output.{Emits}
use fpga_postgresql_hash_joi.Join.Frames.{Runs, rows_of, IsBatch, frames_bytes}
use fpga_postgresql_hash_joi.Join.Result.{join_rows}
use fpga_postgresql_hash_joi.Join.Probe.Rows.{Holds}
use fpga_postgresql_hash_joi.Join.Probe.Batch.{pending-none}
use fpga_postgresql_hash_joi.Join.Probe.Phase.{at_probe, probe_phase-Completes}
use fpga_postgresql_hash_joi.Join.Session.{
  unless_done_going, unless_done_over, Answers, finish_session-Answers, probe_phase-none,
}

-- What the probe phase needs of the state in which it starts.
pub record IsBuilt (outer : List (List InputTuple)) (inner : List InputTuple) (rest : Rx)
    (k : State) : Type 0 where
  pub algorithm_lem : k.algorithm ≡ algorithm_a
  pub left : k.rx ≡ sent (frames_bytes k.keytype outer_data outer) rest
  pub batches : All (IsBatch k.keytype) outer
  pub holds : Holds k.ht inner
  pub going : k.session_done ≡ false
  pub empty : k.result_buf_cnt ≡ 0
  pub none_yet : k.matched ≡ 0
  pub all : length (rows_of outer) ≡ k.outer_total
  pub small : k.outer_total < 2 ^ 32

abbrev probe_and_finish : Inputs → State → Outcome
probe_and_finish io k =
    unless_done (probe_phase io) k >>> unless_done (λ k'. running (finish_session io k'))

pub probe_session-Answers :
    (io : Inputs) (outer : List (List InputTuple)) (inner : List InputTuple) (k : State) (rest : Rx)
    → length outer ≤ 1_000_000
    → IsBuilt outer inner rest k
    → Runs (probe_and_finish io k) (Answers k (join_rows inner (rows_of outer)) rest)
probe_session-Answers io [] inner k rest few b =
    let k₁ : State = at_probe k k.rx in
    let finish : State → Outcome = unless_done (λ k'. running (finish_session io k')) in
    let p = finish_session-Answers io k₁ b.algorithm_lem b.none_yet in
    (
      finish_session io k₁,
      ap (λ o. o >>> finish)
            (unless_done_going (probe_phase io) k b.going
              ∙ probe_phase-none io k b.going (sym b.all))
          ∙ unless_done_going (λ k'. running (finish_session io k')) k₁ b.going,
      record {
        rx_lem = p.rx_lem ∙ b.left;
        status_lem = p.status_lem;
        count_lem = p.count_lem;
        error_lem = p.error_lem;
        emits = p.emits;
      },
    )
probe_session-Answers io (ts ∷ frames) inner k rest few b =
    let finish : State → Outcome = unless_done (λ k'. running (finish_session io k')) in
    let (k₁, run₁, p) =
      probe_phase-Completes io inner ts frames k rest b.left b.batches (omega arith) b.holds b.going
        b.empty b.none_yet b.all b.small in
    (
      k₁,
      ap (λ o. o >>> finish) (unless_done_going (probe_phase io) k b.going ∙ run₁)
          ∙ unless_done_over (λ k'. running (finish_session io k')) k₁ p.over,
      record {
        rx_lem = p.rx_lem;
        status_lem = p.status_lem;
        count_lem = omega (arith, p.count_lem, b.none_yet);
        error_lem = p.error_lem;
        emits =
            subst (λ ps. Emits k.tx (ps ++ join_rows inner (rows_of (ts ∷ frames))) k₁.tx)
              (pending-none k b.empty) p.emits;
      },
    )
