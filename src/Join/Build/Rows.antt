-- ===== src/Join/Build/Rows.antt =====
-- The build phase of a session: it builds the rows of the inner frames.
use mathlib.Core.Path.{subst}
use fpga_postgresql_hash_joi.Types.{ack_batch_frames, InputTuple, ack, no_error, building}
use fpga_postgresql_hash_joi.Base.Words.{add16, sub32}
use fpga_postgresql_hash_joi.Base.{
  ℕ, suc, ◌+◌, ◌^◌, ◌<◌, ◌≡◌, refl, sym, ap, ◌∙◌, inl, inr, Bool, false, ◌||◌, some, List, [], ◌∷◌,
  arith, leb, if◌then◌else◌, Bool-cases, length,
}
use fpga_postgresql_hash_joi.Linear.{LinearHashTable, build, build_all}
use fpga_postgresql_hash_joi.Linear.Refine.{build_all-cons}
use fpga_postgresql_hash_joi.Kernel.State.{State, credit_for}
use fpga_postgresql_hash_joi.Kernel.Build.{build_row, build_rows, acknowledge_build}
use fpga_postgresql_hash_joi.Join.Output.{Emits, Emits-none, Emits-trans, Emits-frame, status_sent}
use fpga_postgresql_hash_joi.Join.Input.{Stores}
use fpga_postgresql_hash_joi.Join.Frames.{fixed}

-- `n` rows are built, the table becomes `ht`, and no pair is sent or buffered.
pub record Builds (k : State) (n : ℕ) (ht : LinearHashTable) (k' : State) : Type 0 where
  pub fixed_lem : fixed k' ≡ fixed k
  pub rx_lem : k'.rx ≡ k.rx
  pub ht_lem : k'.ht ≡ ht
  pub received_lem : k'.inner_received ≡ k.inner_received + n
  pub buffer_lem : k'.result_buf_cnt ≡ k.result_buf_cnt
  pub matched_lem : k'.matched ≡ k.matched
  pub emits : Emits k.tx [] k'.tx

pub Builds-trans :
    {k k₁ k₂ : State} {m n sum : ℕ} {h h' : LinearHashTable}
    → sum ≡ m + n
    → Builds k m h k₁
    → Builds k₁ n h' k₂
    → Builds k sum h' k₂
Builds-trans {k} e p q = record {
  fixed_lem = q.fixed_lem ∙ p.fixed_lem;
  rx_lem = q.rx_lem ∙ p.rx_lem;
  ht_lem = q.ht_lem;
  received_lem = omega (arith, p.received_lem, q.received_lem);
  buffer_lem = q.buffer_lem ∙ p.buffer_lem;
  matched_lem = q.matched_lem ∙ p.matched_lem;
  emits = Emits-trans p.emits q.emits;
}

pub build_row-Builds :
    (i : ℕ) (k : State)
    → (build k.ht (k.rx_buf i).key (k.rx_buf i).tid).err ≡ no_error
    → k.inner_received + 1 < 2 ^ 32
    → Builds k 1 (build k.ht (k.rx_buf i).key (k.rx_buf i).tid).table (build_row i k)
      × ((build_row i k).rx_buf ≡ k.rx_buf)
unfolding build_row
build_row-Builds i k fine few =
    rw (fine, build_row)
      (
        record {
          fixed_lem = refl;
          rx_lem = refl;
          ht_lem = refl;
          received_lem = omega arith;
          buffer_lem = refl;
          matched_lem = refl;
          emits = Emits-none k.tx;
        },
        refl,
      )

pub build_rows_step :
    (n i : ℕ) (k : State)
    → k.session_done ≡ false
    → build_rows (suc n) i k ≡ build_rows n (i + 1) (build_row i k)
unfolding build_rows
build_rows_step n i k going = ap (λ b. if b then k else build_rows n (i + 1) (build_row i k)) going

pub build_rows-Builds :
    (ts : List InputTuple) (i : ℕ) (k : State) (ht : LinearHashTable)
    → Stores k.rx_buf i ts
    → k.session_done ≡ false
    → build_all k.ht ts ≡ some ht
    → k.inner_received + length ts < 2 ^ 32
    → Builds k (length ts) ht (build_rows (length ts) i k)
build_rows-Builds [] i k ht stored going run few =
    let same : k.ht ≡ ht = unfold build_all in cc in
    unfold build_rows in
    record {
      fixed_lem = refl;
      rx_lem = refl;
      ht_lem = same;
      received_lem = omega arith;
      buffer_lem = refl;
      matched_lem = refl;
      emits = Emits-none k.tx;
    }
build_rows-Builds (t ∷ ts) i k ht (here, stored) going run few =
    let (fine, rest) = build_all-cons t ts k.ht run in
    let (first, kept) = build_row-Builds i k (rw here fine) (omega arith) in
    let next = build_row i k in
    let going' : next.session_done ≡ false = ap (λ f. f.session_done) first.fixed_lem ∙ going in
    subst (Builds k (length (t ∷ ts)) ht) (sym (build_rows_step (length ts) i k going)) (
      Builds-trans (omega arith) first (
        build_rows-Builds ts (i + 1) next ht (rw kept stored) going'
          (subst (λ h. build_all h ts ≡ some ht) (sym first.ht_lem) (rw here rest))
          (omega (arith, first.received_lem))))

pub acknowledge_build-Builds : (k : State) → Builds k 0 k.ht (acknowledge_build k)
unfolding acknowledge_build
acknowledge_build-Builds k = elim (Bool-cases due) [
  | inl due_now ↦
      rw (due_now, acknowledge_build)
        (record {
          fixed_lem = refl;
          rx_lem = refl;
          ht_lem = refl;
          received_lem = omega arith;
          buffer_lem = refl;
          matched_lem = refl;
          emits =
              Emits-frame (status_sent ack building k.inner_received 0 credit k.session_id) k.tx
                (inl refl);
        })
  | inr not_yet ↦
      rw (not_yet, acknowledge_build)
        (record {
          fixed_lem = refl;
          rx_lem = refl;
          ht_lem = refl;
          received_lem = omega arith;
          buffer_lem = refl;
          matched_lem = refl;
          emits = Emits-none k.tx;
        })
]
  where
    due : Bool
    due = leb ack_batch_frames (add16 k.ack_pending_frames 1) || leb k.inner_total k.inner_received

    credit : ℕ
    credit = credit_for (sub32 k.inner_total k.inner_received)
