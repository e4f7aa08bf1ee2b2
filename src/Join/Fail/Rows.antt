-- ===== src/Join/Fail/Rows.antt =====
-- Inner rows that the table does not take: the session ends with an ERROR frame.
use fpga_postgresql_hash_joi.Types.{error_byte, Tid, InputTuple, no_error, overflow}
use fpga_postgresql_hash_joi.Base.{
  ℕ, zero, suc, ◌+◌, ◌^◌, ◌<◌, ◌≡◌, refl, sym, ap, ◌∙◌, ◌⊎◌, inl, inr, true, false, none, some,
  List, [], ◌∷◌, ◌++◌, arith, if◌then◌else◌, length,
}
use mathlib.Core.Path.{subst}
use fpga_postgresql_hash_joi.Linear.{LinearHashTable, build, build_all}
use fpga_postgresql_hash_joi.Linear.Build.{build_cases}
use fpga_postgresql_hash_joi.Linear.Refine.{build_all_step}
use fpga_postgresql_hash_joi.Wire.{Tx, tx_error}
use fpga_postgresql_hash_joi.Kernel.State.{State, fail_session}
use fpga_postgresql_hash_joi.Kernel.Build.{build_row, build_rows}
use fpga_postgresql_hash_joi.Join.Output.{Emits, Emits-none, Emits-trans}
use fpga_postgresql_hash_joi.Join.Input.{Stores}
use fpga_postgresql_hash_joi.Join.Build.Rows.{build_row-Builds, build_rows_step}

-- The session has ended with an overflow, whose ERROR frame is the last thing sent; no pair is.
pub record Overflows (before : Tx) (k' : State) : Type 0 where
  pub over : k'.session_done ≡ true
  pub error_lem : k'.error_code_reg ≡ error_byte overflow
  pub sent_before : Tx
  pub emits : Emits before [] sent_before
  pub tx_lem : k'.tx ≡ sent_before ++ tx_error overflow

pub Overflows-after : {a b : Tx} {k : State} → Emits a [] b → Overflows b k → Overflows a k
Overflows-after p q = record {
  over = q.over;
  error_lem = q.error_lem;
  sent_before = q.sent_before;
  emits = Emits-trans p q.emits;
  tx_lem = q.tx_lem;
}

-- A build that fails reports an overflow.
build-fails :
    (ht : LinearHashTable) (k : ℕ) (t : Tid)
    → ((build ht k t).err ≡ no_error) ⊎ ((build ht k t).err ≡ overflow)
build-fails ht k t = elim (build_cases ht k t) [
  | inl (room, p) ↦ inl p.err_lem
  | inr (inl (e, full)) ↦ inr (ap (λ r. r.err) e)
  | inr (inr p) ↦ inr p.err_lem
]

-- A batch that fails fails with its first row, or with the others.
build_all-none :
    (t : InputTuple) (ts : List InputTuple) (ht : LinearHashTable)
    → build_all ht (t ∷ ts) ≡ none
    → ((build ht t.key t.tid).err ≡ overflow)
      ⊎ ((build ht t.key t.tid).err ≡ no_error) × (build_all (build ht t.key t.tid).table ts ≡ none)
build_all-none t ts ht run = elim (build-fails ht t.key t.tid) [
  | inl fine ↦ inr (fine, sym (build_all_step t ts ht fine) ∙ run)
  | inr fails ↦ inl fails
]

build_row-Overflows :
    (i : ℕ) (k : State)
    → (build k.ht (k.rx_buf i).key (k.rx_buf i).tid).err ≡ overflow
    → Overflows k.tx (build_row i k)
unfolding build_row fail_session
build_row-Overflows i k fails =
    rw (fails, build_row)
      (record {
        over = refl;
        error_lem = refl;
        sent_before = k.tx;
        emits = Emits-none k.tx;
        tx_lem = refl;
      })

build_rows_over : (n i : ℕ) (k : State) → k.session_done ≡ true → build_rows n i k ≡ k
build_rows_over zero i k over = unfold build_rows in refl
build_rows_over (suc n) i k over =
    unfold build_rows in ap (λ b. if b then k else build_rows n (i + 1) (build_row i k)) over

pub build_rows-Overflows :
    (ts : List InputTuple) (i : ℕ) (k : State)
    → Stores k.rx_buf i ts
    → k.session_done ≡ false
    → build_all k.ht ts ≡ none
    → k.inner_received + length ts < 2 ^ 32
    → Overflows k.tx (build_rows (length ts) i k)
build_rows-Overflows [] i k stored going run few =
    let taken : some k.ht ≡ none = unfold build_all in run in absurd (cc taken)
build_rows-Overflows (t ∷ ts) i k (here, stored) going run few =
    subst (Overflows k.tx) (sym (build_rows_step (length ts) i k going))
      (elim (build_all-none t ts k.ht run) [
        | inl fails ↦
            let p = build_row-Overflows i k (rw here fails) in
            subst (Overflows k.tx)
              (sym (build_rows_over (length ts) (i + 1) (build_row i k) p.over)) p
        | inr (fine, rest) ↦
            let (first, kept) = build_row-Builds i k (rw here fine) (omega arith) in
            Overflows-after first.emits (
              build_rows-Overflows ts (i + 1) (build_row i k) (rw kept stored)
                (ap (λ f. f.session_done) first.fixed_lem ∙ going)
                (subst (λ h. build_all h ts ≡ none) (sym first.ht_lem) (rw here rest))
                (omega (arith, first.received_lem)))
      ])
