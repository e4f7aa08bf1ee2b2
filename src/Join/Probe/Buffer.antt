-- ===== src/Join/Probe/Buffer.antt =====
-- The result buffer: pairs that are found wait in it until they are sent.
use fpga_postgresql_hash_joi.Types.{tx_buf_size, result_flush_pairs, Tid, ResultPair}
use fpga_postgresql_hash_joi.Base.Words.{add16, add32}
use fpga_postgresql_hash_joi.Base.{
  ℕ, zero, suc, ◌+◌, ◌^◌, ◌≤◌, ◌<◌, ◌≡◌, refl, sym, ap, ◌∙◌, inl, inr, List, [], ◌∷◌, ◌++◌, arith,
  leb, ◌==◌, Bool-cases, length, length-append, update,
}
use mathlib.Core.Path.{ap₂}
use mathlib.Core.List.{append_assoc, append-nil}
use fpga_postgresql_hash_joi.Kernel.State.{State}
use fpga_postgresql_hash_joi.Kernel.Probe.{flush_result_batch, add_result}
use fpga_postgresql_hash_joi.RoundTrip.Results.{buffered}
use fpga_postgresql_hash_joi.Join.Output.{Emits, Emits-trans, Emits-none, Emits-frame, pairs_sent}
use fpga_postgresql_hash_joi.Join.Frames.{fixed}

-- The pairs that wait.
abbrev pub pending : State → List ResultPair
pending k = buffered k.result_buf k.result_buf_cnt 0

-- `n` rows are probed, which finds the pairs `new`: what is sent and what waits then is what
-- waited before, and the new pairs.
pub record Probes (k : State) (n : ℕ) (new : List ResultPair) (k' : State) : Type 0 where
  pub fixed_lem : fixed k' ≡ fixed k
  pub rx_lem : k'.rx ≡ k.rx
  pub ht_lem : k'.ht ≡ k.ht
  pub received_lem : k'.outer_received ≡ k.outer_received + n
  pub matched_lem : k'.matched ≡ k.matched + length new
  pub gone : List ResultPair
  pub emits : Emits k.tx gone k'.tx
  pub order : gone ++ pending k' ≡ pending k ++ new

pub Probes-trans :
    {k k₁ k₂ : State} {m n sum : ℕ} {xs ys : List ResultPair}
    → sum ≡ m + n
    → Probes k m xs k₁
    → Probes k₁ n ys k₂
    → Probes k sum (xs ++ ys) k₂
Probes-trans {k} {k₁} {k₂} {xs = xs} {ys = ys} e p q = record {
  fixed_lem = q.fixed_lem ∙ p.fixed_lem;
  rx_lem = q.rx_lem ∙ p.rx_lem;
  ht_lem = q.ht_lem ∙ p.ht_lem;
  received_lem = omega (arith, p.received_lem, q.received_lem);
  matched_lem = omega (arith, p.matched_lem, q.matched_lem, length-append xs ys);
  gone = p.gone ++ q.gone;
  emits = Emits-trans p.emits q.emits;
  order =
      append_assoc p.gone q.gone (pending k₂)
      ∙ ap (λ r. p.gone ++ r) q.order
      ∙ sym (append_assoc p.gone (pending k₁) ys)
      ∙ ap (λ r. r ++ ys) p.order
      ∙ append_assoc (pending k) xs ys;
}

pub Probes-quiet :
    (k k' : State)
    → fixed k' ≡ fixed k
    → k'.rx ≡ k.rx
    → k'.ht ≡ k.ht
    → k'.outer_received ≡ k.outer_received
    → k'.matched ≡ k.matched
    → pending k' ≡ pending k
    → Emits k.tx [] k'.tx
    → Probes k 0 [] k'
Probes-quiet k k' f r h n m p e = record {
  fixed_lem = f;
  rx_lem = r;
  ht_lem = h;
  received_lem = omega (arith, n);
  matched_lem = omega (arith, m);
  gone = [];
  emits = e;
  order = p ∙ sym (append-nil (pending k));
}

pub Probes-none : (k : State) → Probes k 0 [] k
Probes-none k = Probes-quiet k k refl refl refl refl refl refl (Emits-none k.tx)

-- A write behind the entries that wait adds one to them.
pub buffered-update :
    (buf : ℕ → ResultPair) (x : ResultPair) (n i j : ℕ)
    → j ≡ i + n
    → buffered (update buf j x) (suc n) i ≡ buffered buf n i ++ (x ∷ [])
unfolding buffered
buffered-update buf x zero i j e = ap (λ y. y ∷ []) (ground arith)
buffered-update buf x (suc n) i j e =
    ap₂ ◌∷◌ (ground arith) (buffered-update buf x n (i + 1) j (omega arith))

pub flush-Probes :
    (k : State)
    → k.result_buf_cnt ≤ tx_buf_size
    → Probes k 0 [] (flush_result_batch k)
      × ((flush_result_batch k).result_buf_cnt ≡ 0)
      × ((flush_result_batch k).rx_buf ≡ k.rx_buf)
unfolding flush_result_batch
flush-Probes k few = elim (Bool-cases (k.result_buf_cnt == 0)) [
  | inl none_wait ↦ rw (none_wait, flush_result_batch) (Probes-none k, ground arith, refl)
  | inr some_wait ↦
      rw (some_wait, flush_result_batch)
        (
          record {
            fixed_lem = refl;
            rx_lem = refl;
            ht_lem = refl;
            received_lem = omega arith;
            matched_lem = omega arith;
            gone = pending k;
            emits = Emits-frame (pairs_sent k.result_buf k.result_buf_cnt) k.tx (ground arith, few);
            order = unfold buffered in refl;
          },
          refl,
          refl,
        )
]

-- The buffer is not yet so full that it has to be sent.
abbrev pub HasRoom : State → Type 0
HasRoom k = k.result_buf_cnt < result_flush_pairs

abbrev stored : Tid → Tid → State → State
stored inner outer k = record k {
  result_buf =
      update k.result_buf k.result_buf_cnt (record { inner_tid = inner; outer_tid = outer });
  session = record k.session {
    result_buf_cnt = add16 k.result_buf_cnt 1;
    matched = add32 k.matched 1;
  };
  timing = record k.timing { hash_probe_hits = add32 k.timing.hash_probe_hits 1 };
}

stored-Probes :
    (inner outer : Tid) (k : State)
    → HasRoom k
    → k.matched + 1 < 2 ^ 32
    → Probes k 0 (record { inner_tid = inner; outer_tid = outer } ∷ []) (stored inner outer k)
stored-Probes inner outer k room few =
    let up : add16 k.result_buf_cnt 1 ≡ suc k.result_buf_cnt = omega arith in
    record {
      fixed_lem = refl;
      rx_lem = refl;
      ht_lem = refl;
      received_lem = omega arith;
      matched_lem = omega arith;
      gone = [];
      emits = Emits-none k.tx;
      order =
          ap (λ n. buffered (stored inner outer k).result_buf n 0) up
          ∙ buffered-update k.result_buf (record { inner_tid = inner; outer_tid = outer })
              k.result_buf_cnt 0 k.result_buf_cnt (omega arith);
    }

pub add_result-Probes :
    (inner outer : Tid) (k : State)
    → HasRoom k
    → k.matched + 1 < 2 ^ 32
    → Probes k 0 (record { inner_tid = inner; outer_tid = outer } ∷ []) (add_result inner outer k)
      × HasRoom (add_result inner outer k)
      × ((add_result inner outer k).rx_buf ≡ k.rx_buf)
unfolding add_result
add_result-Probes inner outer k room few =
    let p = stored-Probes inner outer k room few in
    let (q, empty, kept) = flush-Probes (stored inner outer k) (omega arith) in
    elim (Bool-cases (leb result_flush_pairs (add16 k.result_buf_cnt 1))) [
      | inl full ↦
          rw (full, add_result) (Probes-trans (omega arith) p q, omega (arith, empty), kept)
      | inr space ↦ rw (space, add_result) (p, ground arith, refl)
    ]
