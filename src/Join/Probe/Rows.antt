-- ===== src/Join/Probe/Rows.antt =====
-- The rows of one outer frame are probed.
use fpga_postgresql_hash_joi.Types.{Tid, InputTuple}
use fpga_postgresql_hash_joi.Base.Words.{add64}
use fpga_postgresql_hash_joi.Base.{
  ℕ, suc, ◌+◌, ◌*◌, ◌^◌, ◌≤◌, ◌<◌, ◌≡◌, refl, sym, ap, ◌∙◌, inl, inr, Bool, true, false, Option,
  none, some, List, [], ◌∷◌, ◌++◌, arith, ◌==◌, if◌then◌else◌, Bool-cases, length,
}
use mathlib.Core.Path.{subst}
use fpga_postgresql_hash_joi.Linear.{LinearHashTable, probe}
use fpga_postgresql_hash_joi.Linear.Refine.{find_first}
use fpga_postgresql_hash_joi.Kernel.State.{Inputs, State, emit_debug}
use fpga_postgresql_hash_joi.Kernel.Probe.{note_probe_hit, probe_outcome, probe_row, probe_rows}
use fpga_postgresql_hash_joi.Kernel.Cycles.{count_probe}
use fpga_postgresql_hash_joi.Join.Output.{Emits-debug}
use fpga_postgresql_hash_joi.Join.Input.{Stores}
use fpga_postgresql_hash_joi.Join.Result.{with_outer, join_rows, length-with_outer}
use fpga_postgresql_hash_joi.Join.Probe.Buffer.{
  Probes, Probes-trans, Probes-quiet, Probes-none, HasRoom, add_result-Probes,
}

-- A probe of the table finds the first row of the list with its key.
abbrev pub Holds : LinearHashTable → List InputTuple → Type 0
Holds ht inner = (q : ℕ) → (probe ht q).found ≡ find_first q inner

module _ (io : Inputs) where
  pub debug-Probes :
      (level code value : ℕ) (k : State) → Probes k 0 [] (emit_debug io level code value k)
  unfolding emit_debug
  debug-Probes level code value k =
      Probes-quiet k _ refl refl refl refl refl refl (Emits-debug io level code value k.tx)

  note_probe_hit-Probes :
      (i key : ℕ) (found : Bool) (k : State)
      → Probes k 0 [] (note_probe_hit io i key found k)
        × ((note_probe_hit io i key found k).result_buf_cnt ≡ k.result_buf_cnt)
        × ((note_probe_hit io i key found k).matched ≡ k.matched)
        × ((note_probe_hit io i key found k).rx_buf ≡ k.rx_buf)
  unfolding note_probe_hit
  note_probe_hit-Probes i key found k = elim (Bool-cases (i == 0)) [
    | inl first ↦ rw (first, note_probe_hit) (debug-Probes _ _ _ k, refl, refl, refl)
    | inr later ↦ rw (later, note_probe_hit) (Probes-none k, refl, refl, refl)
  ]

  probe_outcome-Probes :
      (i : ℕ) (t : InputTuple) (found : Option Tid) (k : State)
      → HasRoom k
      → k.matched + 1 < 2 ^ 32
      → Probes k 0 (with_outer found t.tid) (probe_outcome io i t found k)
        × HasRoom (probe_outcome io i t found k)
        × ((probe_outcome io i t found k).rx_buf ≡ k.rx_buf)
  unfolding probe_outcome
  probe_outcome-Probes i t none k room few =
      let (p, kept, same, rows) = note_probe_hit-Probes i t.key false k in
      (
        record {
          fixed_lem = p.fixed_lem;
          rx_lem = p.rx_lem;
          ht_lem = p.ht_lem;
          received_lem = p.received_lem;
          matched_lem = p.matched_lem;
          gone = p.gone;
          emits = p.emits;
          order = p.order;
        },
        omega (arith, kept),
        rows,
      )
  probe_outcome-Probes i t (some inner) k room few =
      let (p, kept, same, rows) = note_probe_hit-Probes i t.key true k in
      let (q, space, rows') =
        add_result-Probes inner t.tid (note_probe_hit io i t.key true k) (omega (arith, kept))
          (omega (arith, same)) in
      (Probes-trans (omega arith) p q, space, rows' ∙ rows)

  probe_row-Probes :
      (i : ℕ) (k : State) (inner : List InputTuple)
      → Holds k.ht inner
      → HasRoom k
      → k.matched + 1 < 2 ^ 32
      → k.outer_received + 1 < 2 ^ 32
      → Probes k 1
          (with_outer (find_first (k.rx_buf i).key inner) (k.rx_buf i).tid)
          (probe_row io i k)
        × HasRoom (probe_row io i k)
        × ((probe_row io i k).rx_buf ≡ k.rx_buf)
  unfolding probe_row
  probe_row-Probes i k inner holds room few little =
      let t = k.rx_buf i in
      let r = probe k.ht t.key in
      let k₁ : State = record k {
        timing = count_probe r.steps k.timing;
        session = record k.session { batch_cycles = add64 k.batch_cycles (r.steps * 2) };
      } in
      let (p, space, rows) = probe_outcome-Probes i t r.found k₁ room few in
      let p' : Probes k₁ 0 (with_outer (find_first t.key inner) t.tid)
          (probe_outcome io i t r.found k₁) =
        subst (λ f. Probes k₁ 0 (with_outer f t.tid) (probe_outcome io i t r.found k₁))
          (holds t.key) p in
      (
        record {
          fixed_lem = p'.fixed_lem;
          rx_lem = p'.rx_lem;
          ht_lem = p'.ht_lem;
          received_lem = omega (arith, p'.received_lem);
          matched_lem = p'.matched_lem;
          gone = p'.gone;
          emits = p'.emits;
          order = p'.order;
        },
        space,
        rows,
      )

  probe_rows_step :
      (n i : ℕ) (k : State)
      → k.session_done ≡ false
      → probe_rows io (suc n) i k ≡ probe_rows io n (i + 1) (probe_row io i k)
  unfolding probe_rows
  probe_rows_step n i k going =
      ap (λ b. if b then k else probe_rows io n (i + 1) (probe_row io i k)) going

  pub probe_rows-Probes :
      (ts : List InputTuple) (i : ℕ) (k : State) (inner : List InputTuple)
      → Stores k.rx_buf i ts
      → Holds k.ht inner
      → k.session_done ≡ false
      → HasRoom k
      → k.matched + length ts < 2 ^ 32
      → k.outer_received + length ts < 2 ^ 32
      → Probes k (length ts) (join_rows inner ts) (probe_rows io (length ts) i k)
        × HasRoom (probe_rows io (length ts) i k)
  probe_rows-Probes [] i k inner stored holds going room few little =
      unfold probe_rows in (Probes-none k, room)
  probe_rows-Probes (t ∷ ts) i k inner (here, stored) holds going room few little =
      let next = probe_row io i k in
      let (p, space, rows) = probe_row-Probes i k inner holds room (omega arith) (omega arith) in
      let one : length (with_outer (find_first (k.rx_buf i).key inner) (k.rx_buf i).tid) ≤ 1 =
        length-with_outer (find_first (k.rx_buf i).key inner) (k.rx_buf i).tid in
      let (q, space') =
        probe_rows-Probes ts (i + 1) next inner (rw rows stored)
          (subst (λ h. Holds h inner) (sym p.ht_lem) holds)
          (ap (λ f. f.session_done) p.fixed_lem ∙ going) space (omega (arith, p.matched_lem, one))
          (omega (arith, p.received_lem)) in
      subst (λ k'. Probes k (length (t ∷ ts)) (join_rows inner (t ∷ ts)) k' × HasRoom k')
        (sym (probe_rows_step (length ts) i k going))
        (
          subst
              (λ u.
                Probes k (length (t ∷ ts))
                  (with_outer (find_first u.key inner) u.tid ++ join_rows inner ts)
                  (probe_rows io (length ts) (i + 1) next))
              here (Probes-trans (omega arith) p q),
          space',
        )
