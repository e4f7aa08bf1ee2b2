-- ===== src/Join/Fail/Phase.antt =====
-- A session whose inner rows the table does not take, or of which there are too many.
use fpga_postgresql_hash_joi.Types.{ht_max_rows, rx_buf_tuples, InputTuple, inner_data}
use fpga_postgresql_hash_joi.Base.{
  ℕ, zero, suc, ◌+◌, ◌^◌, ◌≤◌, ◌<◌, ◌≡◌, refl, sym, ap, ◌∙◌, inl, inr, true, false, ◌||◌, none,
  some, List, [], ◌∷◌, ◌++◌, arith, leb, if◌then◌else◌, Option-cases, length, length-append, All,
}
use mathlib.Core.Path.{subst}
use fpga_postgresql_hash_joi.Linear
use fpga_postgresql_hash_joi.Linear.{LinearHashTable, build, build_all}
use fpga_postgresql_hash_joi.Wire.{Rx}
use fpga_postgresql_hash_joi.Linear.Refine.{build_all-cons, build_all_step}
use fpga_postgresql_hash_joi.Kernel.State.{
  Inputs, State, ◌>>>◌, dbg_info, dbg_build_done, emit_debug, running,
}
use fpga_postgresql_hash_joi.Kernel.Build.{build_frame, build_frames, build_phase}
use fpga_postgresql_hash_joi.Host.Serializer.{serialize_batch}
use fpga_postgresql_hash_joi.RoundTrip.Numbers.{sent}
use fpga_postgresql_hash_joi.Join.Frames.{Runs, rows_of, IsBatch, frames_bytes}
use fpga_postgresql_hash_joi.Join.Build.Frame.{build_frame-Builds}
use fpga_postgresql_hash_joi.Join.Build.Phase.{
  build_frames_step, inner_frame-first, length-rows_of, at_build,
}
use fpga_postgresql_hash_joi.Join.Fail.Rows.{Overflows, Overflows-after}
use fpga_postgresql_hash_joi.Join.Fail.Frame.{build_frame-Overflows}

build_all-append_some :
    (xs ys : List InputTuple) (ht mid : LinearHashTable)
    → build_all ht xs ≡ some mid
    → build_all ht (xs ++ ys) ≡ build_all mid ys
build_all-append_some [] ys ht mid run =
    let same : some ht ≡ some mid = unfold build_all in run in ap (λ h. build_all h ys) (cc same)
build_all-append_some (t ∷ xs) ys ht mid run =
    let (fine, rest) = build_all-cons t xs ht run in
    build_all_step t (xs ++ ys) ht fine
    ∙ build_all-append_some xs ys (build ht t.key t.tid).table mid rest

build_frames_over :
    (io : Inputs) (fuel : ℕ) (k : State)
    → k.session_done ≡ true
    → build_frames io fuel k ≡ running k
build_frames_over io zero k over = unfold build_frames in refl
build_frames_over io (suc fuel) k over =
    unfold build_frames in
    ap (λ b. elim b [ true ↦ running k | false ↦ build_frame io k >>> build_frames io fuel ])
      (ap (λ b. b || leb k.inner_total k.inner_received) over)

build_frames-Overflows :
    (io : Inputs) (key_type : ℕ) (frames : List (List InputTuple)) (fuel : ℕ) (k : State)
    (rest : Rx)
    → k.rx ≡ sent (frames_bytes key_type inner_data frames) rest
    → k.keytype ≡ key_type
    → All (IsBatch key_type) frames
    → length frames ≤ fuel
    → k.session_done ≡ false
    → build_all k.ht (rows_of frames) ≡ none
    → k.inner_received + length (rows_of frames) ≡ k.inner_total
    → k.inner_total < 2 ^ 32
    → Runs (build_frames io fuel k) (Overflows k.tx)
build_frames-Overflows io key_type [] fuel k rest left wide batches enough going run total small =
    let taken : some k.ht ≡ none = unfold build_all in run in absurd (cc taken)
build_frames-Overflows io key_type (ts ∷ frames) zero k rest left wide batches enough going run
      total small =
    absurd (omega arith)
build_frames-Overflows io key_type (ts ∷ frames) (suc fuel) k rest left wide (batch, batches) enough
      going run total small =
    let sum : length (ts ++ rows_of frames) ≡ length ts + length (rows_of frames) =
      length-append ts (rows_of frames) in
    let behind : Rx = sent (frames_bytes key_type inner_data frames) rest in
    let batch' : IsBatch k.keytype ts = subst (λ t. IsBatch t ts) (sym wide) batch in
    let here : k.rx ≡ sent (serialize_batch k.keytype inner_data ts rx_buf_tuples) behind =
      inner_frame-first key_type ts frames k rest left wide in
    let step : build_frames io (suc fuel) k ≡ build_frame io k >>> build_frames io fuel =
      build_frames_step io fuel k going (omega (arith, batch, total, sum)) in
    elim (Option-cases (build_all k.ht ts)) [
      | inl fails ↦
          let (k₁, run₁, p) =
            build_frame-Overflows io ts k behind batch' going fails (omega (arith, total, sum)) in
          (
            k₁,
            step
                ∙ ap (λ r. build_frame io (record k { rx = r }) >>> build_frames io fuel) here
                ∙ ap (λ o. o >>> build_frames io fuel) run₁
                ∙ build_frames_over io fuel k₁ p.over,
            p,
          )
      | inr (mid, first) ↦
          let others : build_all mid (rows_of frames) ≡ none =
            sym (build_all-append_some ts (rows_of frames) k.ht mid first) ∙ run in
          let (k₁, run₁, p) =
            build_frame-Builds io ts k behind mid batch' going first (omega (arith, total, sum)) in
          let total₁ : k₁.inner_total ≡ k.inner_total = ap (λ f. f.inner_total) p.fixed_lem in
          let (k₂, run₂, q) =
            build_frames-Overflows io key_type frames fuel k₁ rest p.rx_lem
              (ap (λ f. f.keytype) p.fixed_lem ∙ wide) batches (omega arith)
              (ap (λ f. f.session_done) p.fixed_lem ∙ going)
              (subst (λ h. build_all h (rows_of frames) ≡ none) (sym p.ht_lem) others)
              (omega (arith, p.received_lem, total₁, total, sum)) (omega (arith, total₁, small)) in
          (
            k₂,
            step
                ∙ ap (λ r. build_frame io (record k { rx = r }) >>> build_frames io fuel) here
                ∙ ap (λ o. o >>> build_frames io fuel) run₁
                ∙ run₂,
            Overflows-after p.emits q,
          )
    ]

build_phase_over :
    (io : Inputs) (k k' : State)
    → build_frames io (ht_max_rows + 2) (at_build k k.rx) ≡ running k'
    → k'.session_done ≡ true
    → build_phase io k ≡ running k'
unfolding build_phase
build_phase_over io k k' run over =
    ap
      (λ o. o >>> λ k''. running (
        if k''.session_done
        then k''
        else emit_debug io dbg_info dbg_build_done k''.inner_received k''))
      run
    ∙ ap
        (λ b.
          running (if b then k' else emit_debug io dbg_info dbg_build_done k'.inner_received k'))
        over

-- The build phase ends the session if the table does not take all the rows.
pub build_phase-Overflows :
    (io : Inputs) (frames : List (List InputTuple)) (k : State) (rest : Rx)
    → k.rx ≡ sent (frames_bytes k.keytype inner_data frames) rest
    → All (IsBatch k.keytype) frames
    → k.session_done ≡ false
    → build_all (Linear.reset k.ht) (rows_of frames) ≡ none
    → length (rows_of frames) ≡ k.inner_total
    → k.inner_total ≤ ht_max_rows
    → Runs (build_phase io k) (Overflows k.tx)
build_phase-Overflows io frames k rest left batches going run total small =
    let (k₁, run₁, p) =
      build_frames-Overflows io k.keytype frames (ht_max_rows + 2) (at_build k k.rx) rest left refl
        batches (omega (arith, length-rows_of k.keytype frames batches)) going run (omega arith)
        (omega arith) in
    (k₁, build_phase_over io k k₁ run₁ p.over, p)
