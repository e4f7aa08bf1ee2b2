-- ===== src/Join/Build/Phase.antt =====
-- The build phase of a session, frame by frame.

use fpga_postgresql_hash_joi.Types.{ht_max_rows, rx_buf_tuples, InputTuple, inner_data}
use fpga_postgresql_hash_joi.Base.{
  ℕ, zero, suc, ◌+◌, ◌^◌, ◌≤◌, ◌<◌, ◌≡◌, refl, sym, ap, ◌∙◌, true, false, ◌||◌, some, List, [], ◌∷◌,
  ◌++◌, arith, leb, if◌then◌else◌, le→leb, lt→leb, length, length-append, All,
}
use mathlib.Core.Path.{subst}
use fpga_postgresql_hash_joi.Linear.{LinearHashTable, build_all}
use fpga_postgresql_hash_joi.Linear
use fpga_postgresql_hash_joi.Linear.Refine.{row_count-build_all}
use fpga_postgresql_hash_joi.Wire.{Rx}
use fpga_postgresql_hash_joi.Kernel.State.{
  Inputs, State, dbg_info, emit_debug, ◌>>>◌, running, dbg_build_done,
}
use fpga_postgresql_hash_joi.Kernel.Build.{build_frame, build_frames, build_phase}
use fpga_postgresql_hash_joi.RoundTrip.Numbers.{sent, sent-append}
use fpga_postgresql_hash_joi.Host.Serializer.{serialize_batch}
use fpga_postgresql_hash_joi.Join.Output.{Emits-none}
use fpga_postgresql_hash_joi.Join.Frames.{Runs, IsBatch, rows_of, frames_bytes, build_all-append}
use fpga_postgresql_hash_joi.Join.Build.Frame.{debug-Builds, build_frame-Builds}
use fpga_postgresql_hash_joi.Join.Build.Rows.{Builds-trans, Builds}

build_frames_end :
    (io : Inputs) (fuel : ℕ) (k : State)
    → k.session_done ≡ false
    → k.inner_total ≤ k.inner_received
    → build_frames io fuel k ≡ running k
build_frames_end io zero k going all = unfold build_frames in refl
build_frames_end io (suc fuel) k going all =
    unfold build_frames in
    ap (λ b. elim b [ true ↦ running k | false ↦ build_frame io k >>> build_frames io fuel ])
      (ap (λ b. b || leb k.inner_total k.inner_received) going
        ∙ le→leb k.inner_total k.inner_received all)

pub build_frames_step :
    (io : Inputs) (fuel : ℕ) (k : State)
    → k.session_done ≡ false
    → k.inner_received < k.inner_total
    → build_frames io (suc fuel) k ≡ build_frame io k >>> build_frames io fuel
unfolding build_frames
build_frames_step io fuel k going more =
    ap (λ b. elim b [ true ↦ running k | false ↦ build_frame io k >>> build_frames io fuel ])
      (ap (λ b. b || leb k.inner_total k.inner_received) going
        ∙ lt→leb k.inner_total k.inner_received more)

-- What stands in the input stream does not matter.
Builds-rx :
    (k : State) {k' : State} {n : ℕ} {ht : LinearHashTable} {rx : Rx} (rest : Rx)
    → Builds (record k { rx = rx }) n ht k'
    → Builds (record k { rx = rest }) n ht (record k' { rx = rest })
Builds-rx k rest p = record {
  fixed_lem = p.fixed_lem;
  rx_lem = refl;
  ht_lem = p.ht_lem;
  received_lem = p.received_lem;
  buffer_lem = p.buffer_lem;
  matched_lem = p.matched_lem;
  emits = p.emits;
}

-- The first frame, as the host sent it, stands before the others in the stream.
pub inner_frame-first :
    (key_type : ℕ) (ts : List InputTuple) (frames : List (List InputTuple)) (k : State) (rest : Rx)
    → k.rx ≡ sent (frames_bytes key_type inner_data (ts ∷ frames)) rest
    → k.keytype ≡ key_type
    → k.rx
      ≡ sent
          (serialize_batch k.keytype inner_data ts rx_buf_tuples)
          (sent (frames_bytes key_type inner_data frames) rest)
inner_frame-first key_type ts frames k rest left wide =
    left
    ∙ sent-append (serialize_batch key_type inner_data ts rx_buf_tuples)
        (frames_bytes key_type inner_data frames) rest
    ∙ ap
        (λ t.
          sent (serialize_batch t inner_data ts rx_buf_tuples)
            (sent (frames_bytes key_type inner_data frames) rest))
        (sym wide)

-- The frames of the inner side, one after the other, until all rows are there.
build_frames-Builds :
    (io : Inputs) (key_type : ℕ) (frames : List (List InputTuple)) (fuel : ℕ) (k : State)
    (rest : Rx) (ht : LinearHashTable)
    → k.rx ≡ sent (frames_bytes key_type inner_data frames) rest
    → k.keytype ≡ key_type
    → All (IsBatch key_type) frames
    → length frames ≤ fuel
    → k.session_done ≡ false
    → build_all k.ht (rows_of frames) ≡ some ht
    → k.inner_received + length (rows_of frames) ≡ k.inner_total
    → k.inner_total < 2 ^ 32
    → Runs (build_frames io fuel k) (Builds (record k { rx = rest }) (length (rows_of frames)) ht)
build_frames-Builds io key_type [] fuel k rest ht left wide batches enough going run total small =
    let same : k.ht ≡ ht = unfold build_all in cc in
    (
      k,
      build_frames_end io fuel k going (omega arith),
      record {
        fixed_lem = refl;
        rx_lem = left;
        ht_lem = same;
        received_lem = omega arith;
        buffer_lem = refl;
        matched_lem = refl;
        emits = Emits-none k.tx;
      },
    )
build_frames-Builds io key_type (ts ∷ frames) zero k rest ht left wide batches enough going run
      total small =
    absurd (omega arith)
build_frames-Builds io key_type (ts ∷ frames) (suc fuel) k rest ht left wide (batch, batches) enough
      going run total small =
    let (mid, first, others) = build_all-append ts (rows_of frames) k.ht ht run in
    let sum : length (ts ++ rows_of frames) ≡ length ts + length (rows_of frames) =
      length-append ts (rows_of frames) in
    let behind : Rx = sent (frames_bytes key_type inner_data frames) rest in
    let (k₁, run₁, p) =
      build_frame-Builds io ts k behind mid (subst (λ t. IsBatch t ts) (sym wide) batch) going first
        (omega (arith, batch)) in
    let (k₂, run₂, q) =
      build_frames-Builds io key_type frames fuel k₁ rest ht p.rx_lem
        (ap (λ f. f.keytype) p.fixed_lem ∙ wide) batches (omega arith)
        (ap (λ f. f.session_done) p.fixed_lem ∙ going)
        (subst (λ h. build_all h (rows_of frames) ≡ some ht) (sym p.ht_lem) others)
        (omega (arith, p.received_lem, ap (λ f. f.inner_total) p.fixed_lem))
        (omega (arith, ap (λ f. f.inner_total) p.fixed_lem)) in
    let here : build_frame io k ≡ running k₁ =
      ap (λ r. build_frame io (record k { rx = r }))
        (inner_frame-first key_type ts frames k rest left wide)
      ∙ run₁ in
    (
      k₂,
      build_frames_step io fuel k going (omega (arith, batch))
          ∙ ap (λ o. o >>> build_frames io fuel) here
          ∙ run₂,
      Builds-trans sum (Builds-rx k rest p) q,
    )

-- No frame is empty, so there are at most as many frames as rows.
pub length-rows_of :
    (key_type : ℕ) (frames : List (List InputTuple))
    → All (IsBatch key_type) frames
    → length frames ≤ length (rows_of frames)
length-rows_of key_type [] h = omega arith
length-rows_of key_type (ts ∷ frames) (h, hs) =
    omega (arith, h, length-append ts (rows_of frames), length-rows_of key_type frames hs)

-- The state in which the build phase starts, once the frames are read.
abbrev pub at_build : State → Rx → State
at_build k rest = record k {
  rx = rest;
  ht = Linear.reset k.ht;
  session = record k.session { inner_received = 0; ack_pending_frames = 0 };
}

build_phase_end :
    (io : Inputs) (k k' : State)
    → build_frames io (ht_max_rows + 2) (at_build k k.rx) ≡ running k'
    → k'.session_done ≡ false
    → build_phase io k ≡ running (emit_debug io dbg_info dbg_build_done k'.inner_received k')
unfolding build_phase
build_phase_end io k k' run going =
    ap
      (λ o. o >>> λ k''. running (
        if k''.session_done
        then k''
        else emit_debug io dbg_info dbg_build_done k''.inner_received k''))
      run
    ∙ ap
        (λ b.
          running (if b then k' else emit_debug io dbg_info dbg_build_done k'.inner_received k'))
        going

-- The build phase builds the rows of all the frames, if the table takes them.
pub build_phase-Builds :
    (io : Inputs) (frames : List (List InputTuple)) (k : State) (rest : Rx) (ht : LinearHashTable)
    → k.rx ≡ sent (frames_bytes k.keytype inner_data frames) rest
    → All (IsBatch k.keytype) frames
    → k.session_done ≡ false
    → build_all (Linear.reset k.ht) (rows_of frames) ≡ some ht
    → length (rows_of frames) ≡ k.inner_total
    → k.inner_total < 2 ^ 32
    → Runs (build_phase io k) (Builds (at_build k rest) (length (rows_of frames)) ht)
build_phase-Builds io frames k rest ht left batches going run total small =
    let (counted, few) = row_count-build_all k.ht ht (rows_of frames) run in
    let (k₁, run₁, p) =
      build_frames-Builds io k.keytype frames (ht_max_rows + 2) (at_build k k.rx) rest ht left refl
        batches (omega (arith, length-rows_of k.keytype frames batches)) going run (omega arith)
        small in
    let going₁ : k₁.session_done ≡ false = ap (λ f. f.session_done) p.fixed_lem ∙ going in
    (
      emit_debug io dbg_info dbg_build_done k₁.inner_received k₁,
      build_phase_end io k k₁ run₁ going₁,
      Builds-trans (omega arith) p (
          subst (λ h. Builds k₁ 0 h (emit_debug io dbg_info dbg_build_done k₁.inner_received k₁))
            p.ht_lem (debug-Builds io dbg_info dbg_build_done k₁.inner_received k₁)),
    )
