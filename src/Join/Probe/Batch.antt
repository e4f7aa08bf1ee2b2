-- ===== src/Join/Probe/Batch.antt =====
-- One outer frame that is in the receive buffer: its rows are probed, and the frame is
-- acknowledged or ends the session.
use fpga_postgresql_hash_joi.Types.{
  ack_batch_frames, error_byte, phase_byte, InputTuple, ResultPair, ack, status, no_error, probing,
  done,
}
use fpga_postgresql_hash_joi.Base.Words.{u32, add16, sub32}
use fpga_postgresql_hash_joi.Base.{
  ℕ, ◌+◌, ◌^◌, ◌≤◌, ◌<◌, ◌≡◌, refl, sym, ap, ◌∙◌, inl, inr, Bool, true, false, not, ◌||◌, List, [],
  ◌++◌, arith, leb, ◌==◌, if◌then◌else◌, le→leb, lt→leb, Bool-cases, length, length-append,
}
use mathlib.Core.Path.{subst}
use mathlib.Core.List.{append-nil, append_assoc}
use fpga_postgresql_hash_joi.Kernel.State.{
  Inputs, State, credit_for, dbg_info, dbg_probe_key, emit_debug,
}
use fpga_postgresql_hash_joi.Kernel.Probe.{
  note_probe_cycles, complete_probe, acknowledge_probe, process_count, flush_result_batch,
  probe_rows, probe_batch,
}
use fpga_postgresql_hash_joi.RoundTrip.Results.{buffered}
use fpga_postgresql_hash_joi.Join.Output.{
  Emits, Emits-none, Emits-frame, Emits-trans, status_sent, timing_sent,
}
use fpga_postgresql_hash_joi.Join.Input.{Stores}
use fpga_postgresql_hash_joi.Join.Result.{join_rows}
use fpga_postgresql_hash_joi.Join.Probe.Buffer.{
  pending, Probes, Probes-quiet, Probes-trans, flush-Probes, HasRoom,
}
use fpga_postgresql_hash_joi.Join.Probe.Rows.{Holds, debug-Probes, probe_rows-Probes}

-- The session has ended well: all pairs are sent, and the registers say so.
pub record Completes (k : State) (new : List ResultPair) (k' : State) : Type 0 where
  pub rx_lem : k'.rx ≡ k.rx
  pub over : k'.session_done ≡ true
  pub status_lem : k'.status_reg ≡ phase_byte done
  pub count_lem : k'.result_count_reg ≡ k.matched + length new
  pub error_lem : k'.error_code_reg ≡ error_byte no_error
  pub emits : Emits k.tx (pending k ++ new) k'.tx

pub Completes-after :
    {k k₁ k₂ : State} {n : ℕ} {xs ys : List ResultPair}
    → Probes k n xs k₁
    → Completes k₁ ys k₂
    → Completes k (xs ++ ys) k₂
Completes-after {k} {k₁} {k₂} {xs = xs} {ys = ys} p q = record {
  rx_lem = q.rx_lem ∙ p.rx_lem;
  over = q.over;
  status_lem = q.status_lem;
  count_lem = omega (arith, q.count_lem, p.matched_lem, length-append xs ys);
  error_lem = q.error_lem;
  emits =
      subst (λ ps. Emits k.tx ps k₂.tx)
        (sym (append_assoc p.gone (pending k₁) ys)
          ∙ ap (λ r. r ++ ys) p.order
          ∙ append_assoc (pending k) xs ys)
        (Emits-trans p.emits q.emits);
}

pub pending-none : (k : State) → k.result_buf_cnt ≡ 0 → pending k ≡ []
unfolding buffered
pending-none k empty = rw (empty, buffered) refl

complete_probe-Completes :
    (io : Inputs) (k : State) → k.result_buf_cnt ≡ 0 → Completes k [] (complete_probe io k)
unfolding complete_probe note_probe_cycles
complete_probe-Completes io k empty = record {
  rx_lem = refl;
  over = refl;
  status_lem = refl;
  count_lem = omega arith;
  error_lem = refl;
  emits =
      subst (λ ps. Emits k.tx ps (complete_probe io k).tx)
        (sym (ap (λ ps. ps ++ []) (pending-none k empty)))
        (Emits-trans (Emits-frame (timing_sent _) k.tx tt) (
          Emits-frame (status_sent status done k.outer_received k.matched 0 k.session_id) _
            (inr refl)));
}

acknowledge_probe-Probes :
    (k : State)
    → Probes k 0 [] (acknowledge_probe k)
      × ((acknowledge_probe k).result_buf_cnt ≡ k.result_buf_cnt)
unfolding acknowledge_probe
acknowledge_probe-Probes k =
    elim (Bool-cases (leb ack_batch_frames (add16 k.ack_pending_frames 1))) [
      | inl due ↦
          rw (due, acknowledge_probe)
            (
              Probes-quiet k _ refl refl refl refl refl refl (
                  Emits-frame
                    (status_sent ack probing k.outer_received k.matched
                      (credit_for (sub32 k.outer_total k.outer_received)) k.session_id)
                    k.tx (inl refl)),
              refl,
            )
      | inr not_yet ↦
          rw (not_yet, acknowledge_probe)
            (Probes-quiet k _ refl refl refl refl refl refl (Emits-none k.tx), refl)
    ]

process_count-eq :
    (total received n : ℕ) → received + n ≤ total → process_count total received n ≡ n
unfolding process_count
process_count-eq total received n fits = ground arith

module _ (io : Inputs) where
  -- The state after the debug frame with a frame's first key, and after its rows.
  abbrev greeted : State → State
  greeted k = emit_debug io dbg_info dbg_probe_key (u32 (k.rx_buf 0).key) k

  abbrev probed : ℕ → State → State
  probed n k = probe_rows io n 0 (greeted k)

  greeted-eq : (n : ℕ) (k : State) → 0 < n → (if not (n == 0) then greeted k else k) ≡ greeted k
  greeted-eq n k pos =
      let nonempty : (n == 0) ≡ false = ground arith in
      ap (λ b. if not b then greeted k else k) nonempty

  probe_batch_step :
      (n : ℕ) (k : State) (b : Bool)
      → 0 < n
      → k.outer_received + n ≤ k.outer_total
      → leb (probed n k).outer_total (probed n k).outer_received ≡ b
      → probe_batch io n k ≡ (
          if b
          then complete_probe io (flush_result_batch (probed n k))
          else acknowledge_probe (probed n k))
  unfolding probe_batch
  probe_batch_step n k b pos fits ends =
      let finish : State → State = λ k₂.
        if n == 0 || leb k₂.outer_total k₂.outer_received
        then complete_probe io (flush_result_batch k₂)
        else acknowledge_probe k₂ in
      let nonempty : (n == 0) ≡ false = ground arith in
      ap (λ k₁. finish (probe_rows io (process_count k.outer_total k.outer_received n) 0 k₁))
        (greeted-eq n k pos)
      ∙ ap (λ m. finish (probed m k)) (process_count-eq k.outer_total k.outer_received n fits)
      ∙ ap
          (λ c.
            if c
            then complete_probe io (flush_result_batch (probed n k))
            else acknowledge_probe (probed n k))
          (ap (λ z. z || leb (probed n k).outer_total (probed n k).outer_received) nonempty ∙ ends)

  probed-Probes :
      (ts : List InputTuple) (k : State) (inner : List InputTuple)
      → Stores k.rx_buf 0 ts
      → Holds k.ht inner
      → k.session_done ≡ false
      → HasRoom k
      → k.matched + length ts < 2 ^ 32
      → k.outer_received + length ts < 2 ^ 32
      → Probes k (length ts) (join_rows inner ts) (probed (length ts) k)
        × HasRoom (probed (length ts) k)
  unfolding emit_debug
  probed-Probes ts k inner stored holds going room few little =
      let (p, space) =
        probe_rows-Probes io ts 0 (greeted k) inner stored holds going room few little in
      (
        Probes-trans (omega arith) (debug-Probes io dbg_info dbg_probe_key (u32 (k.rx_buf 0).key) k)
            p,
        space,
      )

  module _ (ts : List InputTuple) (k : State) (inner : List InputTuple) where
    -- A frame that leaves rows to come.
    pub batch_more-Probes :
        0 < length ts
        → Stores k.rx_buf 0 ts
        → Holds k.ht inner
        → k.session_done ≡ false
        → HasRoom k
        → k.matched + length ts < 2 ^ 32
        → k.outer_received + length ts < k.outer_total
        → k.outer_total < 2 ^ 32
        → Probes k (length ts) (join_rows inner ts) (probe_batch io (length ts) k)
          × HasRoom (probe_batch io (length ts) k)
    batch_more-Probes pos stored holds going room few more small =
        let (p, space) = probed-Probes ts k inner stored holds going room few (omega arith) in
        let k₂ : State = probed (length ts) k in
        let (q, kept) = acknowledge_probe-Probes k₂ in
        let total : k₂.outer_total ≡ k.outer_total = ap (λ f. f.outer_total) p.fixed_lem in
        subst (λ k'. Probes k (length ts) (join_rows inner ts) k' × HasRoom k')
          (sym (
            probe_batch_step (length ts) k false pos (omega arith)
              (lt→leb k₂.outer_total k₂.outer_received (omega (arith, p.received_lem, total)))))
          (
            subst (λ ps. Probes k (length ts) ps (acknowledge_probe k₂))
                (append-nil (join_rows inner ts)) (Probes-trans (omega arith) p q),
            omega (arith, kept),
          )

    -- The frame that brings the last rows.
    pub batch_last-Completes :
        0 < length ts
        → Stores k.rx_buf 0 ts
        → Holds k.ht inner
        → k.session_done ≡ false
        → HasRoom k
        → k.matched + length ts < 2 ^ 32
        → k.outer_received + length ts ≡ k.outer_total
        → k.outer_total < 2 ^ 32
        → Completes k (join_rows inner ts) (probe_batch io (length ts) k)
    batch_last-Completes pos stored holds going room few all small =
        let (p, space) = probed-Probes ts k inner stored holds going room few (omega arith) in
        let k₂ : State = probed (length ts) k in
        let (q, empty, kept) = flush-Probes k₂ (omega arith) in
        let total : k₂.outer_total ≡ k.outer_total = ap (λ f. f.outer_total) p.fixed_lem in
        subst (Completes k (join_rows inner ts))
          (sym (
            probe_batch_step (length ts) k true pos (omega arith)
              (le→leb k₂.outer_total k₂.outer_received (omega (arith, p.received_lem, total)))))
          (subst (λ ps. Completes k ps (complete_probe io (flush_result_batch k₂)))
            (append-nil (join_rows inner ts))
            (Completes-after p
              (Completes-after q (complete_probe-Completes io (flush_result_batch k₂) empty))))
