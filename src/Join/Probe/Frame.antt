-- ===== src/Join/Probe/Frame.antt =====
-- One frame of the probe phase.
use fpga_postgresql_hash_joi.Types.{rx_buf_tuples, msg_byte, InputTuple, outer_data}
use fpga_postgresql_hash_joi.Base.{
  ◌+◌, ◌^◌, ◌≤◌, ◌<◌, ◌≡◌, refl, ap, ◌∙◌, false, List, [], ◌++◌, arith, length, All,
}
use fpga_postgresql_hash_joi.Wire.{Rx}
use fpga_postgresql_hash_joi.Kernel.State.{Inputs, State, ◌>>>◌, running}
use fpga_postgresql_hash_joi.Kernel.Probe.{probe_batch, count_outer_frame, outer_frame, probe_frame}
use fpga_postgresql_hash_joi.RoundTrip.Numbers.{sent}
use fpga_postgresql_hash_joi.RoundTrip.ToBoard.{IsTuple}
use fpga_postgresql_hash_joi.Host.Serializer.{put_u8, put_u16, put_tuples, serialize_batch}
use fpga_postgresql_hash_joi.Join.Output.{Emits-none}
use fpga_postgresql_hash_joi.Join.Input.{
  write_all, write_all-Stores, receive_rows-put_tuples, receive_header, serialize_batch-eq,
}
use fpga_postgresql_hash_joi.Join.Frames.{Runs, IsBatch}
use fpga_postgresql_hash_joi.Join.Result.{join_rows}
use fpga_postgresql_hash_joi.Join.Probe.Buffer.{Probes, Probes-trans, Probes-quiet, HasRoom}
use fpga_postgresql_hash_joi.Join.Probe.Rows.{Holds}
use fpga_postgresql_hash_joi.Join.Probe.Batch.{
  Completes, Completes-after, batch_more-Probes, batch_last-Completes,
}

-- The state in which a frame is in the receive buffer.
abbrev pub arrived : List InputTuple → State → Rx → State
arrived ts k rest = record (count_outer_frame (length ts) (record k { rx = rest })) {
  rx_buf = write_all k.rx_buf 0 ts;
}

arrived-Probes :
    (ts : List InputTuple) (k : State) (rest : Rx)
    → Probes (record k { rx = rest }) 0 [] (arrived ts k rest)
unfolding count_outer_frame
arrived-Probes ts k rest =
    Probes-quiet (record k { rx = rest }) _ refl refl refl refl refl refl (Emits-none k.tx)

module _ (io : Inputs) (ts : List InputTuple) (k : State) (rest : Rx) where
  outer_frame-put_tuples :
      All (IsTuple k.keytype) ts
      → length ts ≤ rx_buf_tuples
      → outer_frame io
          (msg_byte outer_data)
          (length ts)
          (record k { rx = sent (put_tuples k.keytype ts) rest })
        ≡ running (probe_batch io (length ts) (arrived ts k rest))
  unfolding outer_frame count_outer_frame
  outer_frame-put_tuples rows few =
      ap (λ o. o >>> λ k₄. running (probe_batch io (length ts) k₄))
        (receive_rows-put_tuples ts 0 (count_outer_frame (length ts) k) rest rows (omega arith))

  probe_frame-put_tuples :
      length ts ≤ rx_buf_tuples
      → probe_frame io (record k {
        rx =
            sent
              (put_u8 (msg_byte outer_data) ++ (put_u16 (length ts) ++ put_tuples k.keytype ts))
              rest;
      })
        ≡ outer_frame io
            (msg_byte outer_data)
            (length ts)
            (record k { rx = sent (put_tuples k.keytype ts) rest })
  unfolding probe_frame
  probe_frame-put_tuples few =
      receive_header io k.session_id (msg_byte outer_data) (length ts) (put_tuples k.keytype ts) k
        rest (outer_frame io) (omega arith) (omega arith)

  probe_frame-eq :
      IsBatch k.keytype ts
      → probe_frame io
          (record k { rx = sent (serialize_batch k.keytype outer_data ts rx_buf_tuples) rest })
        ≡ running (probe_batch io (length ts) (arrived ts k rest))
  probe_frame-eq (pos, few, rows) =
      ap (λ bs. probe_frame io (record k { rx = sent bs rest }))
        (serialize_batch-eq k.keytype outer_data ts pos few)
      ∙ probe_frame-put_tuples few
      ∙ outer_frame-put_tuples rows few

  module _ (inner : List InputTuple) where
    -- A frame that leaves rows to come.
    pub probe_frame-Probes :
        IsBatch k.keytype ts
        → Holds k.ht inner
        → k.session_done ≡ false
        → HasRoom k
        → k.matched + length ts < 2 ^ 32
        → k.outer_received + length ts < k.outer_total
        → k.outer_total < 2 ^ 32
        → Runs
            (probe_frame io
              (record k { rx = sent (serialize_batch k.keytype outer_data ts rx_buf_tuples) rest }))
            (λ k'. Probes (record k { rx = rest }) (length ts) (join_rows inner ts) k' × HasRoom k')
    unfolding count_outer_frame
    probe_frame-Probes batch holds going room few more small =
        let (p, space) =
          batch_more-Probes io ts (arrived ts k rest) inner (batch.0)
            (write_all-Stores k.rx_buf ts 0) holds going room few more small in
        (
          probe_batch io (length ts) (arrived ts k rest),
          probe_frame-eq batch,
          (Probes-trans (omega arith) (arrived-Probes ts k rest) p, space),
        )

    -- The frame that brings the last rows.
    pub probe_frame-Completes :
        IsBatch k.keytype ts
        → Holds k.ht inner
        → k.session_done ≡ false
        → HasRoom k
        → k.matched + length ts < 2 ^ 32
        → k.outer_received + length ts ≡ k.outer_total
        → k.outer_total < 2 ^ 32
        → Runs
            (probe_frame io
              (record k { rx = sent (serialize_batch k.keytype outer_data ts rx_buf_tuples) rest }))
            (Completes (record k { rx = rest }) (join_rows inner ts))
    unfolding count_outer_frame
    probe_frame-Completes batch holds going room few all small = (
      probe_batch io (length ts) (arrived ts k rest),
      probe_frame-eq batch,
      Completes-after (arrived-Probes ts k rest) (
          batch_last-Completes io ts (arrived ts k rest) inner (batch.0)
            (write_all-Stores k.rx_buf ts 0) holds going room few all small),
    )
