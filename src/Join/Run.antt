-- ===== src/Join/Run.antt =====
-- A session of algorithm A answers the join of its two sides.

use fpga_postgresql_hash_joi.Types.{algorithm_a, InputTuple, inner_data, outer_data}
use fpga_postgresql_hash_joi.Base.{
  ℕ, ◌≤◌, ◌≡◌, sym, ap, ◌∙◌, false, some, List, ◌++◌, arith, length, All,
}
use mathlib.Core.Path.{subst}
use fpga_postgresql_hash_joi.Linear
use fpga_postgresql_hash_joi.Linear.{LinearHashTable, build_all}
use fpga_postgresql_hash_joi.Linear.Refine.{probe-build_all, row_count-build_all}
use fpga_postgresql_hash_joi.Wire.{Rx}
use fpga_postgresql_hash_joi.Kernel.State.{
  Inputs, State, Outcome, ◌>>>◌, running, emit_debug, start_session,
}
use fpga_postgresql_hash_joi.Kernel.Configure.{apply_configure, configure_session}
use fpga_postgresql_hash_joi.Kernel.Build.{build_phase}
use fpga_postgresql_hash_joi.Kernel.Probe.{probe_phase}
use fpga_postgresql_hash_joi.Kernel.Run.{
  unless_done, finish_session, run_linear, run_algorithm, run_session,
}
use fpga_postgresql_hash_joi.Host.Serializer.{serialize_configure}
use fpga_postgresql_hash_joi.RoundTrip.Numbers.{sent, sent-append}
use fpga_postgresql_hash_joi.RoundTrip.ToBoard.{
  IsConfigure, configure_payload, configure_session-serialize_configure,
}
use fpga_postgresql_hash_joi.Join.Output.{Emits-trans}
use fpga_postgresql_hash_joi.Join.Frames.{Runs, rows_of, IsBatch, frames_bytes}
use fpga_postgresql_hash_joi.Join.Result.{join_rows}
use fpga_postgresql_hash_joi.Join.Build.Phase.{build_phase-Builds}
use fpga_postgresql_hash_joi.Join.Probe.Rows.{Holds}
use fpga_postgresql_hash_joi.Join.Finish.{probe_session-Answers}
use fpga_postgresql_hash_joi.Join.Session.{
  linear_config, unless_done_going, Answers, apply_configure-Configured, run_algorithm-linear,
  Configured,
}

-- What the host sends in a session: CONFIGURE, the inner frames and the outer frames.
abbrev pub session_bytes : ℕ → ℕ → List (List InputTuple) → List (List InputTuple) → List ℕ
session_bytes key_type id inner outer =
    serialize_configure (linear_config key_type) (length (rows_of inner)) (length (rows_of outer))
      id
    ++ (frames_bytes key_type inner_data inner ++ frames_bytes key_type outer_data outer)

-- A session that the host may send, whose inner rows fit into the table.
pub record IsJoin (key_type id : ℕ) (inner outer : List (List InputTuple))
    (empty full : LinearHashTable) : Type 0 where
  pub configurable :
      IsConfigure (linear_config key_type) (length (rows_of inner)) (length (rows_of outer)) id
  pub inner_batches : All (IsBatch key_type) inner
  pub outer_batches : All (IsBatch key_type) outer
  pub frames : length outer ≤ 1_000_000
  pub built : build_all empty (rows_of inner) ≡ some full

-- The CONFIGURE frame is read, and the rest of the session's frames is left.
pub configured-eq :
    (io : Inputs) (k : State) (key_type id : ℕ) (inner outer : List (List InputTuple)) (rest : Rx)
    → k.rx ≡ sent (session_bytes key_type id inner outer) rest
    → IsConfigure (linear_config key_type) (length (rows_of inner)) (length (rows_of outer)) id
    → configure_session io (start_session io k)
      ≡ running (
          apply_configure io
            (configure_payload
              (linear_config key_type)
              (length (rows_of inner))
              (length (rows_of outer))
              id)
            (record (start_session io k) {
              rx =
                  sent
                    (frames_bytes key_type inner_data inner)
                    (sent (frames_bytes key_type outer_data outer) rest);
            }))
unfolding start_session emit_debug
configured-eq io k key_type id inner outer rest left h =
    let frame =
      serialize_configure (linear_config key_type) (length (rows_of inner)) (length (rows_of outer))
        id in
    let inners = frames_bytes key_type inner_data inner in
    let outers = frames_bytes key_type outer_data outer in
    ap (λ r. configure_session io (record (start_session io k) { rx = r }))
      (left
        ∙ sent-append frame (inners ++ outers) rest
        ∙ ap (sent frame) (sent-append inners outers rest))
    ∙ configure_session-serialize_configure io (start_session io k) (linear_config key_type)
        (length (rows_of inner)) (length (rows_of outer)) id (sent inners (sent outers rest)) h

pub run_linear-eq :
    (io : Inputs) (k k' : State)
    → build_phase io k ≡ running k'
    → run_linear io k ≡ unless_done (probe_phase io) k'
unfolding run_linear
run_linear-eq io k k' run = ap (λ o. o >>> unless_done (probe_phase io)) run

pub run_session-eq :
    (io : Inputs) (k k' : State)
    → configure_session io (start_session io k) ≡ running k'
    → run_session io k
      ≡ unless_done (run_algorithm io) k' >>> unless_done (λ k'. running (finish_session io k'))
unfolding run_session
run_session-eq io k k' run =
    ap
      (λ o.
        o >>> unless_done (run_algorithm io) >>> unless_done (λ k'. running (finish_session io k')))
      run

-- A session that is configured builds its inner rows, and answers its outer rows.
phases-Answers :
    (io : Inputs) (k k₁ : State) (key_type id : ℕ) (inner outer : List (List InputTuple))
    (rest : Rx) (full : LinearHashTable)
    → IsJoin key_type id inner outer (Linear.reset k.ht) full
    → Configured k key_type
        (length (rows_of inner))
        (length (rows_of outer))
        id
        (sent
          (frames_bytes key_type inner_data inner)
          (sent (frames_bytes key_type outer_data outer) rest))
        k₁
    → Runs
        (unless_done (run_algorithm io) k₁ >>> unless_done (λ k'. running (finish_session io k')))
        (Answers k (join_rows (rows_of inner) (rows_of outer)) rest)
phases-Answers io k k₁ key_type id inner outer rest full h c =
    let wide : k₁.keytype ≡ key_type = ap (λ f. f.keytype) c.fixed_lem in
    let going : k₁.session_done ≡ false = ap (λ f. f.session_done) c.fixed_lem in
    let a : k₁.algorithm ≡ algorithm_a = ap (λ f. f.algorithm) c.fixed_lem in
    let inner_total : k₁.inner_total ≡ length (rows_of inner) =
      ap (λ f. f.inner_total) c.fixed_lem in
    let outer_total : k₁.outer_total ≡ length (rows_of outer) =
      ap (λ f. f.outer_total) c.fixed_lem in
    let behind : Rx = sent (frames_bytes key_type outer_data outer) rest in
    let finish : State → Outcome = unless_done (λ k'. running (finish_session io k')) in
    let (k₂, run₂, p) =
      build_phase-Builds io inner k₁ behind full
        (c.rx_lem ∙ ap (λ t. sent (frames_bytes t inner_data inner) behind) (sym wide))
        (subst (λ t. All (IsBatch t) inner) (sym wide) h.inner_batches) going
        (subst (λ ht. build_all (Linear.reset ht) (rows_of inner) ≡ some full) (sym c.ht_lem)
          h.built)
        (sym inner_total) (omega (arith, inner_total, h.configurable.inner)) in
    let wide₂ : k₂.keytype ≡ key_type = ap (λ f. f.keytype) p.fixed_lem ∙ wide in
    let total₂ : k₂.outer_total ≡ length (rows_of outer) =
      ap (λ f. f.outer_total) p.fixed_lem ∙ outer_total in
    let (k₃, run₃, q) = probe_session-Answers io outer (rows_of inner) k₂ rest h.frames (record {
      algorithm_lem = ap (λ f. f.algorithm) p.fixed_lem ∙ a;
      left = p.rx_lem ∙ ap (λ t. sent (frames_bytes t outer_data outer) rest) (sym wide₂);
      batches = subst (λ t. All (IsBatch t) outer) (sym wide₂) h.outer_batches;
      holds =
          subst (λ ht. Holds ht (rows_of inner)) (sym p.ht_lem)
            (λ q. probe-build_all k.ht full (rows_of inner) q h.built);
      going = ap (λ f. f.session_done) p.fixed_lem ∙ going;
      empty = p.buffer_lem ∙ c.buffer_lem;
      none_yet = p.matched_lem ∙ c.matched_lem;
      all = sym total₂;
      small = omega (arith, total₂, h.configurable.outer);
    }) in
    let built : unless_done (run_algorithm io) k₁ ≡ unless_done (probe_phase io) k₂ =
      unless_done_going (run_algorithm io) k₁ going
      ∙ run_algorithm-linear io k₁ a
      ∙ run_linear-eq io k₁ k₂ run₂ in
    (
      k₃,
      ap (λ o. o >>> finish) built ∙ run₃,
      record {
        rx_lem = q.rx_lem;
        status_lem = q.status_lem;
        count_lem = q.count_lem;
        error_lem = q.error_lem;
        emits = Emits-trans (Emits-trans c.emits p.emits) q.emits;
      },
    )

-- A session of algorithm A whose frames have all arrived, and whose inner rows the table takes,
-- ends normally and answers the join: with status DONE, no error and the number of matches in its
-- registers, and with frames that bring each outer row, in the order of the outer rows, with the
-- first inner row that has its key; the other frames that it sends are ACK, STATUS, DEBUG and
-- TIMING frames. It reads no byte of what follows its frames. The numbers of rows, the key type and
-- the session id have the widths of their fields in CONFIGURE, the rows have values of their
-- widths, every frame has 1 to 256 rows (RX_BUF_TUPLES), and there are at most 1,000,000 outer
-- frames.
pub run_session-Answers :
    (io : Inputs) (k : State) (key_type id : ℕ) (inner outer : List (List InputTuple)) (rest : Rx)
    (full : LinearHashTable)
    → k.rx ≡ sent (session_bytes key_type id inner outer) rest
    → IsJoin key_type id inner outer (Linear.reset k.ht) full
    → Runs (run_session io k) (Answers k (join_rows (rows_of inner) (rows_of outer)) rest)
run_session-Answers io k key_type id inner outer rest full left h =
    let (count, few) = row_count-build_all k.ht full (rows_of inner) h.built in
    let (k', run, p) = phases-Answers io k _ key_type id inner outer rest full h (
      apply_configure-Configured io k key_type (length (rows_of inner)) (length (rows_of outer)) id
        (sent (frames_bytes key_type inner_data inner)
          (sent (frames_bytes key_type outer_data outer) rest))
        few) in
    (
      k',
      run_session-eq io k _ (configured-eq io k key_type id inner outer rest left h.configurable)
          ∙ run,
      p,
    )
