-- ===== src/Join/Fail/Frame.antt =====
-- An inner frame that the table does not take.
use fpga_postgresql_hash_joi.Types.{rx_buf_tuples, InputTuple, inner_data}
use fpga_postgresql_hash_joi.Base.Words.{u32}
use fpga_postgresql_hash_joi.Base.{
  ℕ, ◌+◌, ◌^◌, ◌<◌, ◌≡◌, sym, ap, ◌∙◌, true, false, not, none, List, arith, ◌==◌, if◌then◌else◌,
  length,
}
use mathlib.Core.Path.{subst}
use fpga_postgresql_hash_joi.Linear.{build_all}
use fpga_postgresql_hash_joi.Wire.{Rx}
use fpga_postgresql_hash_joi.Kernel.State.{Inputs, State, dbg_info, dbg_build_key, emit_debug}
use fpga_postgresql_hash_joi.Kernel.Build.{
  build_rows, acknowledge_build, build_batch, count_inner_frame, build_frame,
}
use fpga_postgresql_hash_joi.Host.Serializer.{serialize_batch}
use fpga_postgresql_hash_joi.RoundTrip.Numbers.{sent}
use fpga_postgresql_hash_joi.Join.Input.{Stores, write_all-Stores}
use fpga_postgresql_hash_joi.Join.Frames.{Runs, IsBatch}
use fpga_postgresql_hash_joi.Join.Build.Frame.{
  going_on, debug-Builds, greeted, received, build_frame-eq,
}
use fpga_postgresql_hash_joi.Join.Fail.Rows.{Overflows, Overflows-after, build_rows-Overflows}

module _ (io : Inputs) where
  build_batch_over :
      (n : ℕ) (k : State)
      → 0 < n
      → (build_rows n 0 (greeted io k)).session_done ≡ true
      → build_batch io n k ≡ build_rows n 0 (greeted io k)
  unfolding build_batch
  build_batch_over n k pos over =
      let nonempty : (n == 0) ≡ false = ground arith in
      let acknowledged : State → State =
        λ k₂. if k₂.session_done then k₂ else acknowledge_build k₂ in
      ap (λ b. acknowledged (build_rows n 0 (if not b then greeted io k else k))) nonempty
      ∙ ap
          (λ b.
            if b
            then build_rows n 0 (greeted io k)
            else acknowledge_build (build_rows n 0 (greeted io k)))
          over

  build_batch-Overflows :
      (ts : List InputTuple) (k : State)
      → 0 < length ts
      → Stores k.rx_buf 0 ts
      → k.session_done ≡ false
      → build_all k.ht ts ≡ none
      → k.inner_received + length ts < 2 ^ 32
      → Overflows k.tx (build_batch io (length ts) k)
  build_batch-Overflows ts k pos stored going run few =
      let debug = debug-Builds io dbg_info dbg_build_key (u32 (k.rx_buf 0).key) k in
      let rows : Overflows k.tx (build_rows (length ts) 0 (greeted io k)) =
        Overflows-after debug.emits (
          build_rows-Overflows ts 0 (greeted io k) (unfold emit_debug in stored)
            (going_on k (greeted io k) debug.fixed_lem going)
            (subst (λ h. build_all h ts ≡ none) (sym debug.ht_lem) run)
            (omega (arith, debug.received_lem))) in
      subst (Overflows k.tx) (sym (build_batch_over (length ts) k pos rows.over)) rows

  pub build_frame-Overflows :
      (ts : List InputTuple) (k : State) (rest : Rx)
      → IsBatch k.keytype ts
      → k.session_done ≡ false
      → build_all k.ht ts ≡ none
      → k.inner_received + length ts < 2 ^ 32
      → Runs
          (build_frame io
            (record k { rx = sent (serialize_batch k.keytype inner_data ts rx_buf_tuples) rest }))
          (Overflows k.tx)
  build_frame-Overflows ts k rest batch going run small =
      let k₁ : State = received io ts k rest in
      let fails : Overflows k.tx (build_batch io (length ts) k₁) =
        unfold count_inner_frame in
        build_batch-Overflows ts k₁ batch.0 (write_all-Stores k.rx_buf ts 0) going run small in
      (build_batch io (length ts) k₁, build_frame-eq io ts k rest batch, fails)
