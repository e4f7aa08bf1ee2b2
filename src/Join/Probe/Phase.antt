-- ===== src/Join/Probe/Phase.antt =====
-- The probe phase of a session: it answers the rows of the outer frames.
use fpga_postgresql_hash_joi.Types.{
  rx_buf_tuples, phase_byte, InputTuple, ResultPair, outer_data, probing,
}
use fpga_postgresql_hash_joi.Base.{
  ℕ, zero, suc, ◌+◌, ◌^◌, ◌≤◌, ◌<◌, ◌≡◌, refl, sym, ap, ◌∙◌, true, false, ◌||◌, List, [], ◌∷◌, ◌++◌,
  arith, leb, le→leb, lt→leb, length, length-append, All,
}
use mathlib.Core.Path.{subst}
use mathlib.Core.List.{append-nil}
use fpga_postgresql_hash_joi.Wire.{Rx}
use fpga_postgresql_hash_joi.Kernel.State.{Inputs, State, ◌>>>◌, running}
use fpga_postgresql_hash_joi.Kernel.Probe.{probe_frame, probe_frames, probe_phase}
use fpga_postgresql_hash_joi.RoundTrip.Numbers.{sent, sent-append}
use fpga_postgresql_hash_joi.Host.Serializer.{serialize_batch}
use fpga_postgresql_hash_joi.Join.Frames.{Runs, rows_of, IsBatch, frames_bytes}
use fpga_postgresql_hash_joi.Join.Result.{join_rows, join_rows-append, length-join_rows}
use fpga_postgresql_hash_joi.Join.Probe.Buffer.{Probes, HasRoom}
use fpga_postgresql_hash_joi.Join.Probe.Rows.{Holds}
use fpga_postgresql_hash_joi.Join.Probe.Batch.{Completes, Completes-after}
use fpga_postgresql_hash_joi.Join.Probe.Frame.{probe_frame-Probes, probe_frame-Completes}

probe_frames_over :
    (io : Inputs) (fuel : ℕ) (k : State)
    → k.session_done ≡ true
    → probe_frames io fuel k ≡ running k
probe_frames_over io zero k over = unfold probe_frames in refl
probe_frames_over io (suc fuel) k over =
    unfold probe_frames in
    ap (λ b. elim b [ true ↦ running k | false ↦ probe_frame io k >>> probe_frames io fuel ])
      (ap (λ b. b || leb k.outer_total k.outer_received) over)

pub probe_frames_end :
    (io : Inputs) (fuel : ℕ) (k : State)
    → k.session_done ≡ false
    → k.outer_total ≤ k.outer_received
    → probe_frames io fuel k ≡ running k
probe_frames_end io zero k going all = unfold probe_frames in refl
probe_frames_end io (suc fuel) k going all =
    unfold probe_frames in
    ap (λ b. elim b [ true ↦ running k | false ↦ probe_frame io k >>> probe_frames io fuel ])
      (ap (λ b. b || leb k.outer_total k.outer_received) going
        ∙ le→leb k.outer_total k.outer_received all)

probe_frames_step :
    (io : Inputs) (fuel : ℕ) (k : State)
    → k.session_done ≡ false
    → k.outer_received < k.outer_total
    → probe_frames io (suc fuel) k ≡ probe_frame io k >>> probe_frames io fuel
unfolding probe_frames
probe_frames_step io fuel k going more =
    ap (λ b. elim b [ true ↦ running k | false ↦ probe_frame io k >>> probe_frames io fuel ])
      (ap (λ b. b || leb k.outer_total k.outer_received) going
        ∙ lt→leb k.outer_total k.outer_received more)

-- What stands in the input stream does not matter.
Probes-rx :
    (k : State) {k' : State} {n : ℕ} {new : List ResultPair} {rx : Rx} (rest : Rx)
    → Probes (record k { rx = rx }) n new k'
    → Probes (record k { rx = rest }) n new (record k' { rx = rest })
Probes-rx k rest p = record {
  fixed_lem = p.fixed_lem;
  rx_lem = refl;
  ht_lem = p.ht_lem;
  received_lem = p.received_lem;
  matched_lem = p.matched_lem;
  gone = p.gone;
  emits = p.emits;
  order = p.order;
}

-- The first frame, as the host sent it, stands before the others in the stream.
module _ (key_type : ℕ) (ts : List InputTuple) (frames : List (List InputTuple)) (k : State)
    (rest : Rx) where
  abbrev behind : Rx
  behind = sent (frames_bytes key_type outer_data frames) rest

  first_frame :
      k.rx ≡ sent (frames_bytes key_type outer_data (ts ∷ frames)) rest
      → k.keytype ≡ key_type
      → k.rx ≡ sent (serialize_batch k.keytype outer_data ts rx_buf_tuples) behind
  first_frame left wide =
      left
      ∙ sent-append (serialize_batch key_type outer_data ts rx_buf_tuples)
          (frames_bytes key_type outer_data frames) rest
      ∙ ap (λ t. sent (serialize_batch t outer_data ts rx_buf_tuples) behind) (sym wide)

-- What the phase needs of the frames and of the state in which it starts.
pub record CanProbe (key_type : ℕ) (frames : List (List InputTuple)) (inner : List InputTuple)
    (rest : Rx) (k : State) : Type 0 where
  pub left : k.rx ≡ sent (frames_bytes key_type outer_data frames) rest
  pub wide : k.keytype ≡ key_type
  pub holds : Holds k.ht inner
  pub going : k.session_done ≡ false
  pub room : HasRoom k
  pub few : k.matched + length (rows_of frames) < 2 ^ 32
  pub all : k.outer_received + length (rows_of frames) ≡ k.outer_total
  pub small : k.outer_total < 2 ^ 32

module _ (io : Inputs) (key_type : ℕ) (inner : List InputTuple) (rest : Rx) where
  probe_frames-Completes :
      (ts : List InputTuple) (frames : List (List InputTuple)) (fuel : ℕ) (k : State)
      → CanProbe key_type (ts ∷ frames) inner rest k
      → IsBatch key_type ts
      → All (IsBatch key_type) frames
      → length frames < fuel
      → Runs
          (probe_frames io fuel k)
          (Completes (record k { rx = rest }) (join_rows inner (rows_of (ts ∷ frames))))
  probe_frames-Completes ts frames zero k c batch batches enough = absurd (omega arith)
  probe_frames-Completes ts [] (suc fuel) k c batch batches enough =
      let same : rows_of (ts ∷ []) ≡ ts = append-nil ts in
      let (k₁, run₁, p) =
        probe_frame-Completes io ts k rest inner (subst (λ t. IsBatch t ts) (sym c.wide) batch)
          c.holds c.going c.room (omega (arith, c.few, ap length same))
          (omega (arith, c.all, ap length same)) c.small in
      let here : probe_frame io k ≡ running k₁ =
        ap (λ r. probe_frame io (record k { rx = r }))
          (first_frame key_type ts [] k rest c.left c.wide)
        ∙ run₁ in
      (
        k₁,
        probe_frames_step io fuel k c.going (omega (arith, batch.0, c.all, ap length same))
            ∙ ap (λ o. o >>> probe_frames io fuel) here
            ∙ probe_frames_over io fuel k₁ p.over,
        subst (λ rows. Completes (record k { rx = rest }) (join_rows inner rows) k₁) (sym same) p,
      )
  probe_frames-Completes ts (us ∷ frames) (suc fuel) k c batch (next, batches) enough =
      let later : List InputTuple = rows_of (us ∷ frames) in
      let sum : length (ts ++ later) ≡ length ts + length later = length-append ts later in
      let pos : length later ≡ length us + length (rows_of frames) =
        length-append us (rows_of frames) in
      let (k₁, run₁, (p, space)) =
        probe_frame-Probes io ts k (behind key_type ts (us ∷ frames) k rest) inner
          (subst (λ t. IsBatch t ts) (sym c.wide) batch) c.holds c.going c.room
          (omega (arith, c.few, sum)) (omega (arith, c.all, sum, pos, next.0)) c.small in
      let fixed_total : k₁.outer_total ≡ k.outer_total = ap (λ f. f.outer_total) p.fixed_lem in
      let (k₂, run₂, q) =
        probe_frames-Completes us frames fuel k₁
          (record {
            left = p.rx_lem;
            wide = ap (λ f. f.keytype) p.fixed_lem ∙ c.wide;
            holds = subst (λ h. Holds h inner) (sym p.ht_lem) c.holds;
            going = ap (λ f. f.session_done) p.fixed_lem ∙ c.going;
            room = space;
            few = omega (arith, c.few, sum, p.matched_lem, length-join_rows inner ts);
            all = omega (arith, c.all, sum, p.received_lem, fixed_total);
            small = omega (arith, c.small, fixed_total);
          })
          next batches (omega arith) in
      let here : probe_frame io k ≡ running k₁ =
        ap (λ r. probe_frame io (record k { rx = r }))
          (first_frame key_type ts (us ∷ frames) k rest c.left c.wide)
        ∙ run₁ in
      (
        k₂,
        probe_frames_step io fuel k c.going (omega (arith, batch.0, c.all, sum))
            ∙ ap (λ o. o >>> probe_frames io fuel) here
            ∙ run₂,
        subst (λ ps. Completes (record k { rx = rest }) ps k₂)
            (sym (join_rows-append inner ts later)) (Completes-after (Probes-rx k rest p) q),
      )

-- The state in which the probe phase starts, once the frames are read.
abbrev pub at_probe : State → Rx → State
at_probe k rest = record k {
  rx = rest;
  status_reg = phase_byte probing;
  session = record k.session { outer_received = 0; ack_pending_frames = 0 };
}

-- The probe phase answers all the rows of the frames, and ends the session.
pub probe_phase-Completes :
    (io : Inputs) (inner : List InputTuple) (ts : List InputTuple) (frames : List (List InputTuple))
    (k : State) (rest : Rx)
    → k.rx ≡ sent (frames_bytes k.keytype outer_data (ts ∷ frames)) rest
    → All (IsBatch k.keytype) (ts ∷ frames)
    → length frames < 1_000_000
    → Holds k.ht inner
    → k.session_done ≡ false
    → k.result_buf_cnt ≡ 0
    → k.matched ≡ 0
    → length (rows_of (ts ∷ frames)) ≡ k.outer_total
    → k.outer_total < 2 ^ 32
    → Runs
        (probe_phase io k)
        (Completes (at_probe k rest) (join_rows inner (rows_of (ts ∷ frames))))
unfolding probe_phase
probe_phase-Completes io inner ts frames k rest left (batch, batches) enough holds going empty
      none_yet all small =
    probe_frames-Completes io k.keytype inner rest ts frames 1_000_000 (at_probe k k.rx)
      (record {
        left = left;
        wide = refl;
        holds = holds;
        going = going;
        room = omega arith;
        few = omega arith;
        all = omega arith;
        small = small;
      })
      batch batches enough
