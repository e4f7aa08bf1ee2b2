-- ===== src/Join/Build/Frame.antt =====
-- One frame of the build phase.
use fpga_postgresql_hash_joi.Types.{rx_buf_tuples, msg_byte, InputTuple, inner_data}
use fpga_postgresql_hash_joi.Base.Words.{u32}
use fpga_postgresql_hash_joi.Base.{
  ℕ, ◌+◌, ◌^◌, ◌≤◌, ◌<◌, ◌≡◌, refl, sym, ap, ◌∙◌, false, not, some, List, ◌++◌, arith, ◌==◌,
  if◌then◌else◌, length, All,
}
use mathlib.Core.Path.{subst}
use fpga_postgresql_hash_joi.Linear.{LinearHashTable, build_all}
use fpga_postgresql_hash_joi.Wire.{Rx}
use fpga_postgresql_hash_joi.Kernel.State.{
  Inputs, State, dbg_info, dbg_build_key, emit_debug, ◌>>>◌, running,
}
use fpga_postgresql_hash_joi.Kernel.Build.{
  build_batch, build_rows, acknowledge_build, count_inner_frame, build_frame, inner_frame,
}
use fpga_postgresql_hash_joi.RoundTrip.Numbers.{sent}
use fpga_postgresql_hash_joi.RoundTrip.ToBoard.{IsTuple}
use fpga_postgresql_hash_joi.Host.Serializer.{serialize_batch, put_tuples, put_u8, put_u16}
use fpga_postgresql_hash_joi.Join.Output.{Emits-debug, Emits-none}
use fpga_postgresql_hash_joi.Join.Input.{
  Stores, write_all, write_all-Stores, receive_rows-put_tuples, receive_header, serialize_batch-eq,
}
use fpga_postgresql_hash_joi.Join.Frames.{fixed, Runs, IsBatch}
use fpga_postgresql_hash_joi.Join.Build.Rows.{
  Builds-trans, Builds, build_rows-Builds, acknowledge_build-Builds,
}

pub going_on :
    (k k' : State) → fixed k' ≡ fixed k → k.session_done ≡ false → k'.session_done ≡ false
going_on k k' same going = ap (λ f. f.session_done) same ∙ going

module _ (io : Inputs) where
  pub debug-Builds :
      (level code value : ℕ) (k : State) → Builds k 0 k.ht (emit_debug io level code value k)
  unfolding emit_debug
  debug-Builds level code value k = record {
    fixed_lem = refl;
    rx_lem = refl;
    ht_lem = refl;
    received_lem = omega arith;
    buffer_lem = refl;
    matched_lem = refl;
    emits = Emits-debug io level code value k.tx;
  }

  -- The state after the debug frame with a frame's first key, and after the rows of the frame.
  abbrev pub greeted : State → State
  greeted k = emit_debug io dbg_info dbg_build_key (u32 (k.rx_buf 0).key) k

  build_batch_step :
      (n : ℕ) (k : State)
      → 0 < n
      → (build_rows n 0 (greeted k)).session_done ≡ false
      → build_batch io n k ≡ acknowledge_build (build_rows n 0 (greeted k))
  unfolding build_batch
  build_batch_step n k pos going =
      let nonempty : (n == 0) ≡ false = ground arith in
      let acknowledged : State → State =
        λ k₂. if k₂.session_done then k₂ else acknowledge_build k₂ in
      ap (λ b. acknowledged (build_rows n 0 (if not b then greeted k else k))) nonempty
      ∙ ap
          (λ b.
            if b
            then build_rows n 0 (greeted k)
            else acknowledge_build (build_rows n 0 (greeted k)))
          going

  build_batch-Builds :
      (ts : List InputTuple) (k : State) (ht : LinearHashTable)
      → 0 < length ts
      → Stores k.rx_buf 0 ts
      → k.session_done ≡ false
      → build_all k.ht ts ≡ some ht
      → k.inner_received + length ts < 2 ^ 32
      → Builds k (length ts) ht (build_batch io (length ts) k)
  build_batch-Builds ts k ht pos stored going run few =
      let debug = debug-Builds dbg_info dbg_build_key (u32 (k.rx_buf 0).key) k in
      let rows : Builds k (length ts) ht (build_rows (length ts) 0 (greeted k)) =
        Builds-trans (omega arith) debug (
          build_rows-Builds ts 0 (greeted k) ht (unfold emit_debug in stored)
            (going_on k (greeted k) debug.fixed_lem going)
            (subst (λ h. build_all h ts ≡ some ht) (sym debug.ht_lem) run)
            (omega (arith, debug.received_lem))) in
      let last = build_rows (length ts) 0 (greeted k) in
      let acknowledged = acknowledge_build-Builds last in
      subst (Builds k (length ts) ht)
        (sym (build_batch_step (length ts) k pos (going_on k last rows.fixed_lem going)))
        (Builds-trans (omega arith) rows
          (subst (λ h. Builds last 0 h (acknowledge_build last)) rows.ht_lem acknowledged))

  inner_frame-put_tuples :
      (ts : List InputTuple) (k : State) (rest : Rx)
      → All (IsTuple k.keytype) ts
      → length ts ≤ rx_buf_tuples
      → inner_frame io
          (msg_byte inner_data)
          (length ts)
          (record k { rx = sent (put_tuples k.keytype ts) rest })
        ≡ running (
            build_batch io
              (length ts)
              (record (count_inner_frame (length ts) (record k { rx = rest })) {
                rx_buf = write_all k.rx_buf 0 ts;
              }))
  unfolding inner_frame count_inner_frame
  inner_frame-put_tuples ts k rest rows few =
      ap (λ o. o >>> λ k₄. running (build_batch io (length ts) k₄))
        (receive_rows-put_tuples ts 0 (count_inner_frame (length ts) k) rest rows (omega arith))

  counted-Builds :
      (ts : List InputTuple) (k : State) (rest : Rx)
      → Builds
          (record k { rx = rest })
          0
          k.ht
          (record (count_inner_frame (length ts) (record k { rx = rest })) {
            rx_buf = write_all k.rx_buf 0 ts;
          })
  unfolding count_inner_frame
  counted-Builds ts k rest = record {
    fixed_lem = refl;
    rx_lem = refl;
    ht_lem = refl;
    received_lem = omega arith;
    buffer_lem = refl;
    matched_lem = refl;
    emits = Emits-none k.tx;
  }

  build_frame-put_tuples :
      (ts : List InputTuple) (k : State) (rest : Rx)
      → length ts ≤ rx_buf_tuples
      → build_frame io (record k {
        rx =
            sent
              (put_u8 (msg_byte inner_data) ++ (put_u16 (length ts) ++ put_tuples k.keytype ts))
              rest;
      })
        ≡ inner_frame io
            (msg_byte inner_data)
            (length ts)
            (record k { rx = sent (put_tuples k.keytype ts) rest })
  unfolding build_frame
  build_frame-put_tuples ts k rest few =
      receive_header io k.session_id (msg_byte inner_data) (length ts) (put_tuples k.keytype ts) k
        rest (inner_frame io) (omega arith) (omega arith)

  -- The state in which a frame is in the receive buffer.
  abbrev pub received : List InputTuple → State → Rx → State
  received ts k rest = record (count_inner_frame (length ts) (record k { rx = rest })) {
    rx_buf = write_all k.rx_buf 0 ts;
  }

  pub build_frame-eq :
      (ts : List InputTuple) (k : State) (rest : Rx)
      → IsBatch k.keytype ts
      → build_frame io
          (record k { rx = sent (serialize_batch k.keytype inner_data ts rx_buf_tuples) rest })
        ≡ running (build_batch io (length ts) (received ts k rest))
  build_frame-eq ts k rest (pos, few, rows) =
      ap (λ bs. build_frame io (record k { rx = sent bs rest }))
        (serialize_batch-eq k.keytype inner_data ts pos few)
      ∙ build_frame-put_tuples ts k rest few
      ∙ inner_frame-put_tuples ts k rest rows few

  -- One frame of the inner side is received, built and perhaps acknowledged.
  pub build_frame-Builds :
      (ts : List InputTuple) (k : State) (rest : Rx) (ht : LinearHashTable)
      → IsBatch k.keytype ts
      → k.session_done ≡ false
      → build_all k.ht ts ≡ some ht
      → k.inner_received + length ts < 2 ^ 32
      → Runs
          (build_frame io
            (record k { rx = sent (serialize_batch k.keytype inner_data ts rx_buf_tuples) rest }))
          (Builds (record k { rx = rest }) (length ts) ht)
  build_frame-Builds ts k rest ht batch going run small =
      let k₁ : State = received ts k rest in
      let built : Builds k₁ (length ts) ht (build_batch io (length ts) k₁) =
        unfold count_inner_frame in
        build_batch-Builds ts k₁ ht batch.0 (write_all-Stores k.rx_buf ts 0) going run small in
      (
        build_batch io (length ts) k₁,
        build_frame-eq ts k rest batch,
        Builds-trans (omega arith) (counted-Builds ts k rest) built,
      )
